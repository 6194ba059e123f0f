-- ===== src/Walletshield/Events.antt =====
-- The goroutine of `main` in walletshield/main.go that watches the events of the first
-- thin client.
pub mod Edges
use zknet_anon_rpc_demo.Common.{ℕ, List, [], ◌∷◌, Bool, true, false}
use zknet_anon_rpc_demo.Walletshield.Thin.{Env, Server, reconnect}

pub data ThinEvent : Type 0 where
  connection_status : Bool → ThinEvent
  other_event : ThinEvent

-- `everConnected` and the server.
pub record Watch : Type 0 where
  pub ever_connected : Bool
  pub server : Server

module _ (e : Env) where
  abbrev on_loss : Watch → Bool → Watch
  on_loss w false = w
  on_loss w true = record { ever_connected = false; server = (reconnect e w.server).1 }

  -- One round of `for event := range eventSink`.
  unfoldable pub on_event : Watch → ThinEvent → Watch
  on_event w (connection_status true) = record w { ever_connected = true }
  on_event w (connection_status false) = on_loss w w.ever_connected
  on_event w other_event = w

  unfoldable pub watch : Watch → List ThinEvent → Watch
  watch w [] = w
  watch w (event ∷ events) = watch (on_event w event) events
