-- ===== src/Lpaxos/Tracker.antt =====
-- The Tracker of lpaxos/util.go: the latest acknowledgement, promise and phase change of each peer.
pub mod Latest
use raft_rl_test.Base.{
  ℕ, Bool, true, not, ◌&&◌, ◌||◌, [], ◌∷◌, Option, some, none, length, select, if◌then◌else◌, ◌==◌,
  ltb, leb, bytes_eq,
}
use raft_rl_test.Base.Int.{eqb_ℤ}
use raft_rl_test.Base.Assoc.{GoMap, get, put}
use raft_rl_test.Lpaxos.Data.{Ack, Promise}

pub record Tracker : Type 0 where
  pub acks : GoMap Ack
  pub promises : GoMap Promise
  pub phase_change : GoMap Ack

abbrev pub new_tracker : Tracker
new_tracker = record { acks = []; promises = []; phase_change = [] }

-- Whether an entry replaces the one tracked for its peer: an older one never does, nor does one of
-- the same phase that says something else.
abbrev pub ack_replaces : Option Ack → Ack → Bool
ack_replaces none a = true
ack_replaces (some cur) a =
    not (ltb a.phase cur.phase)
    && not (
        a.phase == cur.phase
        && (not (bytes_eq a.log_hash cur.log_hash) || not (eqb_ℤ a.last cur.last)))

abbrev pub promise_replaces : Option Promise → Promise → Bool
promise_replaces none p = true
promise_replaces (some cur) p =
    not (ltb p.phase cur.phase)
    && not (p.phase == cur.phase && not (bytes_eq p.log_hash cur.log_hash))

abbrev pub phase_change_replaces : Option Ack → Ack → Bool
phase_change_replaces none a = true
phase_change_replaces (some cur) a = not (ltb a.phase cur.phase)

unfoldable pub track_ack : Tracker → Ack → Tracker
track_ack t a =
    if ack_replaces (get t.acks a.peer) a then record t { acks = put t.acks a.peer a } else t

unfoldable pub track_promise : Tracker → Promise → Tracker
track_promise t p =
    if promise_replaces (get t.promises p.peer) p
    then record t { promises = put t.promises p.peer p }
    else t

unfoldable pub track_phase_change : Tracker → Ack → Tracker
track_phase_change t a =
    if phase_change_replaces (get t.phase_change a.peer) a
    then record t { phase_change = put t.phase_change a.peer a }
    else t

unfoldable pub valid_acks : Tracker → ℕ → ℕ
valid_acks t phase = length (select (λ e. e.1.phase == phase) t.acks)

unfoldable pub valid_promises : Tracker → ℕ → ℕ
valid_promises t phase = length (select (λ e. e.1.phase == phase) t.promises)

unfoldable pub valid_phase_changes : Tracker → ℕ → ℕ
valid_phase_changes t phase = length (select (λ e. e.1.phase == phase) t.phase_change)

-- The loops of Reset: the entries that pass a test are stored under their peers.
unfoldable pub collect : {V : Type 0} → (V → ℕ) → (V → Bool) → GoMap V → GoMap V → GoMap V
collect peer keep into [] = into
collect peer keep into (e ∷ m) =
    collect peer keep (if keep e.1 then put into (peer e.1) e.1 else into) m

-- Drops what is older than the phase; phase changes to this very phase become acknowledgements.
unfoldable pub reset : Tracker → ℕ → Tracker
unfolding collect
reset t phase = record {
  acks =
      collect (λ a. a.peer) (λ a. a.phase == phase)
        (collect (λ a. a.peer) (λ a. leb phase a.phase) [] t.acks) t.phase_change;
  promises = collect (λ p. p.peer) (λ p. leb phase p.phase) [] t.promises;
  phase_change = collect (λ a. a.peer) (λ a. ltb phase a.phase) [] t.phase_change;
}
