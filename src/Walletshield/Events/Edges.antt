-- ===== src/Walletshield/Events/Edges.antt =====
-- When the event loop reconnects.
use zknet_anon_rpc_demo.Common.{ℕ, zero, suc, ◌≡◌, refl, List, [], ◌∷◌, Bool, true, false, arith}
use zknet_anon_rpc_demo.Walletshield.Thin.{Env, Server, reconnect}
use zknet_anon_rpc_demo.Walletshield.Thin.Live.{IsLive, reconnect-IsLive}
use zknet_anon_rpc_demo.Walletshield.Events.{
  ThinEvent, connection_status, other_event, on_event, watch,
}

-- The statuses among the events, in order.
abbrev pub statuses : List ThinEvent → List Bool
statuses [] = []
statuses (connection_status b ∷ es) = b ∷ statuses es
statuses (other_event ∷ es) = statuses es

-- How often a status "not connected" stands right behind a status "connected"; `before` is the
-- status in front of the list.
abbrev pub falling_edges : Bool → List Bool → ℕ
falling_edges before [] = 0
falling_edges true (false ∷ bs) = suc (falling_edges false bs)
falling_edges false (false ∷ bs) = falling_edges false bs
falling_edges before (true ∷ bs) = falling_edges true bs

abbrev pub last_status : Bool → List Bool → Bool
last_status before [] = before
last_status before (b ∷ bs) = last_status b bs

-- The server after `n` reconnects.
abbrev pub reconnect_times : Env → ℕ → Server → Server
reconnect_times e zero s = s
reconnect_times e (suc n) s = reconnect_times e n (reconnect e s).1

watch_from :
    (e : Env) (before : Bool) (s : Server) (es : List ThinEvent)
    → watch e (record { ever_connected = before; server = s }) es ≡ record {
      ever_connected = last_status before (statuses es);
      server = reconnect_times e (falling_edges before (statuses es)) s;
    }
unfolding watch on_event
watch_from e before s [] = refl
watch_from e before s (other_event ∷ es) = watch_from e before s es
watch_from e before s (connection_status true ∷ es) = ground (arith, watch_from e true s es)
watch_from e true s (connection_status false ∷ es) = watch_from e false (reconnect e s).1 es
watch_from e false s (connection_status false ∷ es) = watch_from e false s es

-- Over any events, the loop reconnects as often as a status "not connected" follows directly on a
-- status "connected", and no more: not before the first connection, and once for each loss.
pub watch_reconnects :
    (e : Env) (s : Server) (es : List ThinEvent)
    → watch e (record { ever_connected = false; server = s }) es ≡ record {
      ever_connected = last_status false (statuses es);
      server = reconnect_times e (falling_edges false (statuses es)) s;
    }
watch_reconnects e s es = watch_from e false s es

reconnect_times-IsLive : (e : Env) (n : ℕ) (s : Server) → IsLive s → IsLive (reconnect_times e n s)
reconnect_times-IsLive e zero s v = v
reconnect_times-IsLive e (suc n) s v = reconnect_times-IsLive e n _ (reconnect-IsLive e s v).0

-- The server's client stays open over any events.
pub watch-IsLive :
    (e : Env) (s : Server) (es : List ThinEvent)
    → IsLive s
    → IsLive (watch e (record { ever_connected = false; server = s }) es).server
watch-IsLive e s es v =
    rw (watch_reconnects e s es) (reconnect_times-IsLive e (falling_edges false (statuses es)) s v)
