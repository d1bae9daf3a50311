-- ===== src/Rsl/Quorum.antt =====
-- Majorities of a membership (QuorumSize of rsl/reconfig.go).
use raft_rl_test.Base.{
  ℕ, ◌+◌, ◌≤◌, ◌<◌, ◌≡◌, inl, inr, Bool, true, ◌&&◌, List, [], ◌∷◌, arith, length, select,
  Bool-cases,
}
use raft_rl_test.Base.Assoc.{has}
use raft_rl_test.Rsl.Data.{RslConfig, quorum_size}

-- Majorities of one membership, given by two tests on nodes, have a member in common.
meet :
    (p q : ℕ → Bool) (ms : List ℕ)
    → length ms < length (select p ms) + length (select q ms)
    → (z : ℕ) × (has z ms ≡ true) × (p z ≡ true) × (q z ≡ true)
unfolding has
meet p q [] h = absurd (omega arith)
meet p q (x ∷ ms) h = elim (Bool-cases (p x && q x)) [
  | inl both ↦ (x, ground arith, ground arith, ground arith)
  | inr apart ↦
      let (z, there, hp, hq) = meet p q ms (ground arith) in (z, ground (arith, there), hp, hq)
]

pub quorums_meet :
    (c : RslConfig) (p q : ℕ → Bool)
    → quorum_size c ≤ length (select p c.members)
    → quorum_size c ≤ length (select q c.members)
    → (z : ℕ) × (has z c.members ≡ true) × (p z ≡ true) × (q z ≡ true)
unfolding quorum_size
quorums_meet c p q hp hq = meet p q c.members (omega arith)
