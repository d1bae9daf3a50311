-- ===== src/Lpaxos/Decisions.antt =====
-- Which messages let an LPaxos node decide, what a leader proposes, and where commands get lost.
use raft_rl_test.Base.{ℕ, ◌/◌, ◌<◌, ◌≡◌, List, length, ◌⊎◌}
use raft_rl_test.Base.Assoc.{GoMap}
use raft_rl_test.Lpaxos.Data.{MessageType, promise_message, Entry, Ack}
use raft_rl_test.Lpaxos.Tracker.{valid_promises}
use raft_rl_test.Lpaxos.Node.{Node}

-- The number of decided entries is what it was.
abbrev pub Same : Node → Node → Type 0
Same n x = x.decided ≡ n.decided

module _ (hash : List Entry → List ℕ) (order : GoMap Ack → GoMap Ack) where
  -- More promises are tracked for the phase than half the number of peers, and the log is decided
  -- whole.
  abbrev pub HasDecided : Node → Type 0
  HasDecided n =
      (length n.peers / 2 < valid_promises n.tracker n.phase) × (n.decided ≡ length n.log)

  -- What a message of type `t` does to the decision of a node `n` that becomes `x`.
  abbrev pub DecidesBy : MessageType → Node → Node → Type 0
  DecidesBy t n x = Same n x ⊎ ((t ≡ promise_message) × HasDecided x)
