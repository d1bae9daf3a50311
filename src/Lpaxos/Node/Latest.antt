-- ===== src/Lpaxos/Node/Latest.antt =====
-- A leader proposes on the log of an acknowledgement with the greatest `Last`.
use raft_rl_test.Base.{
  ℕ, ◌≡◌, refl, ap, Bool, true, false, List, [], ◌∷◌, ◌++◌, ◌⊎◌, inl, inr, some, arith, get_elem?,
  if◌then◌else◌, suc, zero,
}
use raft_rl_test.Base.Int.{ℤ, pos, negsuc, ltb_ℤ, eqb_ℤ}
use raft_rl_test.Base.Every.{Every}
use raft_rl_test.Base.Assoc.{GoMap, get}
use raft_rl_test.Lpaxos.Data.{Entry, Ack}
use raft_rl_test.Lpaxos.Node.{Node, latest, latest_log_node, proposal}

-- x <= y
abbrev pub NotBelow : ℤ → ℤ → Type 0
NotBelow y x = ltb_ℤ y x ≡ false

NotBelow-trans : (x y z : ℤ) → NotBelow x y → NotBelow y z → NotBelow x z
NotBelow-trans (pos x) (pos y) (pos z) h k = ground arith
NotBelow-trans (pos x) (pos y) (negsuc z) h k = ground arith
NotBelow-trans (pos x) (negsuc y) (pos z) h k = ground arith
NotBelow-trans (pos x) (negsuc y) (negsuc z) h k = ground arith
NotBelow-trans (negsuc x) (pos y) z h k = ground arith
NotBelow-trans (negsuc x) (negsuc y) (pos z) h k = ground arith
NotBelow-trans (negsuc x) (negsuc y) (negsuc z) h k = ground arith

NotBelow-greater : (x y : ℤ) → NotBelow (if ltb_ℤ x y then y else x) x
NotBelow-greater (pos x) (pos y) = ground arith
NotBelow-greater (pos x) (negsuc y) = ground arith
NotBelow-greater (negsuc x) (pos y) = ground arith
NotBelow-greater (negsuc x) (negsuc y) = ground arith

NotBelow-other : (x y : ℤ) → NotBelow (if ltb_ℤ x y then y else x) y
NotBelow-other (pos x) (pos y) = ground arith
NotBelow-other (pos x) (negsuc y) = ground arith
NotBelow-other (negsuc x) (pos y) = ground arith
NotBelow-other (negsuc x) (negsuc y) = ground arith

NotBelow-refl : (x : ℤ) → NotBelow x x
NotBelow-refl (pos x) = ground arith
NotBelow-refl (negsuc x) = ground arith

abbrev greater : ℤ → ℤ → ℤ
greater x y = if ltb_ℤ x y then y else x

latest-start : (node : ℕ) (most : ℤ) (acks : GoMap Ack) → NotBelow (latest node most acks).1 most
unfolding latest
latest-start node most [] = NotBelow-refl most
latest-start node most (e ∷ acks) =
    NotBelow-trans
      (latest (if ltb_ℤ most e.1.last then e.0 else node) (greater most e.1.last) acks).1
      (greater most e.1.last) most
      (latest-start (if ltb_ℤ most e.1.last then e.0 else node) (greater most e.1.last) acks)
      (NotBelow-greater most e.1.last)

latest-Every :
    (node : ℕ) (most : ℤ) (acks : GoMap Ack)
    → Every (λ e. NotBelow (latest node most acks).1 e.1.last) acks
unfolding latest
latest-Every node most [] = tt
latest-Every node most (e ∷ acks) =
    let node' = if ltb_ℤ most e.1.last then e.0 else node in
    (
      NotBelow-trans (latest node' (greater most e.1.last) acks).1 (greater most e.1.last) e.1.last
          (latest-start node' (greater most e.1.last) acks) (NotBelow-other most e.1.last),
      latest-Every node' (greater most e.1.last) acks,
    )

-- What the loop returns is what it started with, or stands in an entry.
abbrev Source : ℕ → ℤ → GoMap Ack → ℕ × ℤ → Type 0
Source node most acks r =
    (r ≡ (node, most))
    ⊎ ((j : ℕ) × (x : ℕ × Ack) × (get_elem? acks j ≡ some x) × (r ≡ (x.0, x.1.last)))

later-Source :
    (b : Bool) (node : ℕ) (most : ℤ) (e : ℕ × Ack) (acks : GoMap Ack) (r : ℕ × ℤ)
    → Source (if b then e.0 else node) (if b then e.1.last else most) acks r
    → Source node most (e ∷ acks) r
later-Source true node most e acks r (inl h) = inr (0, e, refl, h)
later-Source false node most e acks r (inl h) = inl h
later-Source b node most e acks r (inr h) = inr (suc h.0, h.1, h.2, h.3)

latest-Source :
    (node : ℕ) (most : ℤ) (acks : GoMap Ack) → Source node most acks (latest node most acks)
unfolding latest
latest-Source node most [] = inl refl
latest-Source node most (e ∷ acks) =
    later-Source (ltb_ℤ most e.1.last) node most e acks _
      (latest-Source (if ltb_ℤ most e.1.last then e.0 else node) (greater most e.1.last) acks)

Every-get :
    (y : ℤ) (acks : GoMap Ack) (i : ℕ) (e : ℕ × Ack)
    → Every (λ x. NotBelow y x.1.last) acks
    → get_elem? acks i ≡ some e
    → NotBelow y e.1.last
Every-get y [] i e h g = ground arith
Every-get y (x ∷ acks) zero e h g = ground arith
Every-get y (x ∷ acks) (suc i) e h g = Every-get y acks i e h.1 g

not_minus_one : (y e : ℤ) → NotBelow y e → ltb_ℤ (negsuc 0) e ≡ true → eqb_ℤ y (negsuc 0) ≡ false
not_minus_one (pos y) e h l = refl
not_minus_one (negsuc y) (pos e) h l = ground arith
not_minus_one (negsuc y) (negsuc e) h l = ground arith

from_entry :
    (acks : GoMap Ack) (r : ℕ × ℤ)
    → eqb_ℤ r.1 (negsuc 0) ≡ false
    → Source 0 (negsuc 0) acks r
    → (j : ℕ) × (x : ℕ × Ack) × (get_elem? acks j ≡ some x) × (r ≡ (x.0, x.1.last))
from_entry acks r e (inl h) =
    let start : eqb_ℤ r.1 (negsuc 0) ≡ true = ap (λ q. eqb_ℤ q.1 (negsuc 0)) h in absurd (cc)
from_entry acks r e (inr found) = found

-- If some acknowledgement has a `Last` of a phase (not -1), the log that a leader proposes is that
-- of a tracked acknowledgement whose `Last` is not below that of any other, with the commands that
-- it holds back at the end. (If ranging over the tracked acknowledgements meets each of them, and
-- nothing else.)
pub proposal-greatest :
    (hash : List Entry → List ℕ) (order : GoMap Ack → GoMap Ack) (n : Node) (i : ℕ) (e : ℕ × Ack)
    → ((P : ℕ × Ack → Type 0) → Every P (order n.tracker.acks) → Every P n.tracker.acks)
    → ((j : ℕ) (x : ℕ × Ack)
        → get_elem? (order n.tracker.acks) j ≡ some x
        → get n.tracker.acks x.0 ≡ some x.1)
    → get_elem? n.tracker.acks i ≡ some e
    → ltb_ℤ (negsuc 0) e.1.last ≡ true
    → (x : ℕ × Ack) × (get n.tracker.acks x.0 ≡ some x.1)
      × (proposal hash order n ≡ x.1.log ++ n.pending_commands)
      × Every (λ y. NotBelow x.1.last y.1.last) n.tracker.acks
unfolding proposal latest_log_node
proposal-greatest hash order n i e ranges meets g l =
    let acks = n.tracker.acks in
    let r : ℕ × ℤ = latest 0 (negsuc 0) (order acks) in
    let every = ranges (λ y. NotBelow r.1 y.1.last) (latest-Every 0 (negsuc 0) (order acks)) in
    let known = not_minus_one r.1 e.1.last (Every-get r.1 acks i e every g) l in
    let found = from_entry (order acks) r known (latest-Source 0 (negsuc 0) (order acks)) in
    let there = meets found.0 found.1 found.2 in
    let node : r.0 ≡ found.1.0 = ap (λ q. q.0) found.3 in
    (found.1, there, rw (known, node, there) refl, rw (ap (λ q. q.1) found.3) at every)
