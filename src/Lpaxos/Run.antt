-- ===== src/Lpaxos/Run.antt =====
-- A node's life, as lpaxos/rl_env.go drives it: NewLPaxosNode, then any sequence of ticks, messages
-- and collections of the outgoing messages (`Ready`). A client's command arrives as a message.
-- `hash` is LogHash. Go may range over the acknowledgements in another order each time that a node
-- handles a message, so each message comes with the order in which it does.
pub mod Safety
use raft_rl_test.Base.{ℕ, List, [], ◌∷◌, ◌++◌}
use raft_rl_test.Base.Assoc.{GoMap}
use raft_rl_test.Lpaxos.Data.{Entry, Message, Ack}
use raft_rl_test.Lpaxos.Node.{Node, new_node}
use raft_rl_test.Lpaxos.Step.{step, tick, ready}

pub data Call : Type 0 where
  ticks : Call
  receives : Message → (GoMap Ack → GoMap Ack) → Call
  collects : Call

-- A node and all the messages that have been collected from it, oldest first.
pub record Driven : Type 0 where
  pub node : Node
  pub collected : List Message

-- Everything that the node has sent.
abbrev pub sent_by : Driven → List Message
sent_by d = d.collected ++ d.node.pending_messages

unfoldable pub boot : ℕ → List ℕ → ℕ → Driven
boot id peers timeout = record { node = new_node id peers timeout; collected = [] }

module _ (hash : List Entry → List ℕ) where
  -- A tick does not range over the acknowledgements.
  unfoldable pub perform : Driven → Call → Driven
  perform d ticks = record d { node = tick hash (λ m. m) d.node }
  perform d (receives m order) = record d { node = step hash order d.node m }
  perform d collects =
      let (n, ms) = ready d.node in record { node = n; collected = d.collected ++ ms }

  unfoldable pub run : Driven → List Call → Driven
  unfolding perform
  run d [] = d
  run d (c ∷ cs) = run (perform d c) cs
