-- ===== src/Lpaxos/Tracker/Latest.antt =====
-- The tracker keeps the latest acknowledgement of each peer.
use raft_rl_test.Base.{
  ℕ, ◌≡◌, ◌<◌, refl, sym, ap, ◌∙◌, ==_iff, true, false, Option, some, none, arith, ◌==◌, bytes_eq,
  bytes_eq_refl, ◌⊎◌, inr, if-cases, if◌then◌else◌,
}
use raft_rl_test.Base.Int.{ℤ, pos, negsuc, eqb_ℤ}
use raft_rl_test.Base.Assoc.{get, get-put}
use raft_rl_test.Lpaxos.Data.{Ack}
use raft_rl_test.Lpaxos.Tracker.{Tracker, track_ack, ack_replaces}

-- `x` is of a later phase than `cur`, or of the same phase and says the same.
abbrev pub Supersedes : Ack → Ack → Type 0
Supersedes cur x =
    (cur.phase < x.phase)
    ⊎ ((cur.phase ≡ x.phase)
        × (bytes_eq x.log_hash cur.log_hash ≡ true)
        × (eqb_ℤ x.last cur.last ≡ true))

-- There is an entry, and it supersedes `cur`.
abbrev pub HasLater : Ack → Option Ack → Type 0
HasLater cur none = true ≡ false
HasLater cur (some x) = Supersedes cur x

eqb_ℤ_refl : (x : ℤ) → eqb_ℤ x x ≡ true
eqb_ℤ_refl (pos a) = ground arith
eqb_ℤ_refl (negsuc a) = ground arith

Supersedes-refl : (cur : Ack) → Supersedes cur cur
Supersedes-refl cur = inr (refl, bytes_eq_refl cur.log_hash, eqb_ℤ_refl cur.last)

ack_replaces-Supersedes : (cur a : Ack) → ack_replaces (some cur) a ≡ true → Supersedes cur a
ack_replaces-Supersedes cur a h = ground arith

-- Tracking an acknowledgement leaves every peer that had one with an acknowledgement, and this is
-- of a later phase, or of the same phase with the same hash and the same `Last`: a peer that
-- contradicts itself within a phase is not believed.
pub track_ack-HasLater :
    (t : Tracker) (a : Ack) (p : ℕ) (cur : Ack)
    → get t.acks p ≡ some cur
    → HasLater cur (get (track_ack t a).acks p)
unfolding track_ack
track_ack-HasLater t a p cur e =
    if-cases {A = Tracker} (λ x. HasLater cur (get x.acks p)) (ack_replaces (get t.acks a.peer) a)
      (λ r. rw (get-put t.acks a.peer a p) (replaced r)) (λ r. rw e (Supersedes-refl cur))
  where
    replaced :
        ack_replaces (get t.acks a.peer) a ≡ true
        → HasLater cur (if a.peer == p then some a else get t.acks p)
    replaced r =
        if-cases (HasLater cur) (a.peer == p)
          (λ s. ack_replaces-Supersedes cur a (
            sym (
              ap (λ q. ack_replaces (get t.acks q) a) ((==_iff a.peer p).0 s)
              ∙ ap (λ o. ack_replaces o a) e)
            ∙ r))
          (λ s. rw e (Supersedes-refl cur))
