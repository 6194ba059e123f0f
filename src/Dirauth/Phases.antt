-- ===== src/Dirauth/Phases.antt =====
-- The voting schedule: `fsm` and its deadlines in katzenpost/authority/voting/server/state.go. Times
-- are nanoseconds, and `time.After` of a negative duration fires at once, so that a pause is a
-- number. What the computations of a phase give is an input.
pub mod Schedule
pub mod Rounds
use zknet_anon_rpc_demo.Common.{
  ℕ, ◌+◌, ◌-◌, ◌/◌, List, [], ◌∷◌, Bool, true, false, Option, none, some, ltb, if◌then◌else◌,
}
use zknet_anon_rpc_demo.Common.Try.{Try, done, failed}

pub data Phase : Type 0 where
  bootstrap accept_descriptor accept_vote accept_reveal accept_cert accept_signature : Phase

pub record Machine : Type 0 where
  pub phase : Phase
  pub voting_epoch : ℕ

-- `epochtime.Now()`: the epoch, and the time since its start.
pub record Now : Type 0 where
  pub epoch : ℕ
  pub elapsed : ℕ

module _ (period : ℕ) where
  abbrev pub mix_publish_deadline : ℕ
  mix_publish_deadline = period / 8

  abbrev pub authority_vote_deadline : ℕ
  authority_vote_deadline = mix_publish_deadline + period / 8

  abbrev pub authority_reveal_deadline : ℕ
  authority_reveal_deadline = authority_vote_deadline + period / 8

  abbrev pub authority_cert_deadline : ℕ
  authority_cert_deadline = authority_reveal_deadline + period / 8

  abbrev pub publish_consensus_deadline : ℕ
  publish_consensus_deadline = authority_cert_deadline + period / 8

-- What `getMyConsensus`, and the signing of the signature in its document, come to.
pub data Consensus : Type 0 where
  no_consensus : Consensus
  no_signature not_marshalled not_signed : Consensus
  signature : List ℕ → Consensus

-- The results that one call reads: the vote and the certificate as they are serialised, or the
-- error on the way; our reveal, if there is one; and whether a threshold has signed our consensus.
pub record Inputs : Type 0 where
  pub vote : Try (List ℕ)
  pub reveal : Option (List ℕ)
  pub certificate : Try (List ℕ)
  pub consensus : Consensus
  pub threshold_consensus : Bool

pub data Sent : Type 0 where
  nothing : Sent
  sent_vote sent_cert sent_sig : List ℕ → Sent
  sent_reveal : Option (List ℕ) → Sent

-- `fatal` is a write to `fatalErrCh`.
pub record Outcome : Type 0 where
  pub machine : Machine
  pub sleep : ℕ
  pub sent : Sent
  pub fatal : Bool

abbrev pub sent_if : (List ℕ → Sent) → Try (List ℕ) → Sent
sent_if f (failed text) = nothing
sent_if f (done bytes) = f bytes

abbrev pub is_none {ℓ} : {A : Type ℓ} → Option A → Bool
is_none none = true
is_none (some a) = false

-- In the phase that accepts certificates: a fatal error leaves the `switch` with the phase as it was.
abbrev pub on_consensus : Machine → ℕ → Consensus → Outcome
on_consensus m sleep no_consensus = record {
  machine = record m { phase = accept_signature };
  sleep = sleep;
  sent = nothing;
  fatal = false;
}
on_consensus m sleep no_signature = record { machine = m; sleep = 0; sent = nothing; fatal = true }
on_consensus m sleep not_marshalled = record {
  machine = m;
  sleep = 0;
  sent = nothing;
  fatal = true;
}
on_consensus m sleep not_signed = record { machine = m; sleep = 0; sent = nothing; fatal = true }
on_consensus m sleep (signature sig) = record {
  machine = record m { phase = accept_signature };
  sleep = sleep;
  sent = sent_sig sig;
  fatal = false;
}

module _ (period : ℕ) (i : Inputs) (now : Now) (now_elapsed : ℕ) where
  -- `now` is read at the start of the call, and `now_elapsed` after the phase's work.
  abbrev on_signatures : Machine → Outcome
  on_signatures m =
      if i.threshold_consensus
      then record {
        machine = record { phase = accept_descriptor; voting_epoch = m.voting_epoch + 1 };
        sleep = mix_publish_deadline period + period - now_elapsed;
        sent = nothing;
        fatal = false;
      }
      else record {
        machine = record { phase = bootstrap; voting_epoch = now.epoch + 2 };
        sleep = period - now_elapsed;
        sent = nothing;
        fatal = false;
      }

  abbrev pub dispatch : Machine → Phase → Outcome
  dispatch m bootstrap =
      if ltb (mix_publish_deadline period) now.elapsed
      then record {
        machine = record { phase = bootstrap; voting_epoch = now.epoch + 2 };
        sleep = period - now.elapsed;
        sent = nothing;
        fatal = false;
      }
      else record {
        machine = record { phase = accept_descriptor; voting_epoch = now.epoch + 1 };
        sleep = mix_publish_deadline period - now.elapsed;
        sent = nothing;
        fatal = false;
      }
  dispatch m accept_descriptor = record {
    machine = record m { phase = accept_vote };
    sleep = authority_vote_deadline period - now_elapsed;
    sent = sent_if sent_vote i.vote;
    fatal = false;
  }
  dispatch m accept_vote = record {
    machine = record m { phase = accept_reveal };
    sleep = authority_reveal_deadline period - now_elapsed;
    sent = sent_reveal i.reveal;
    fatal = is_none i.reveal;
  }
  dispatch m accept_reveal = record {
    machine = record m { phase = accept_cert };
    sleep = authority_cert_deadline period - now_elapsed;
    sent = sent_if sent_cert i.certificate;
    fatal = false;
  }
  dispatch m accept_cert =
      on_consensus m (publish_consensus_deadline period - now_elapsed) i.consensus
  dispatch m accept_signature = on_signatures m

  unfoldable pub fsm : Machine → Outcome
  fsm m = dispatch m m.phase
