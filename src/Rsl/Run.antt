-- ===== src/Rsl/Run.antt =====
-- A node's life, as rsl/env.go drives it: NewNode, Start, then any sequence of ticks, messages,
-- client commands and collections of the outgoing messages (`Ready`).
pub mod Safety
use raft_rl_test.Base.{ℕ, List, [], ◌∷◌, ◌++◌, Option}
use raft_rl_test.Rsl.Data.{Command, Message, NodeConfig}
use raft_rl_test.Rsl.Node.{Node, new_node, start}
use raft_rl_test.Rsl.Step.{step, propose, tick, ready}

pub data Call : Type 0 where
  ticks : Call
  receives : Message → ℕ → Call
  proposes : Command → Call
  collects : Call

-- A node and all the messages that have been collected from it, oldest first.
pub record Driven : Type 0 where
  pub node : Node
  pub collected : List Message

-- Everything that the node has sent.
abbrev pub sent_by : Driven → List Message
sent_by d = d.collected ++ d.node.pending_messages_to_send

unfoldable pub boot : NodeConfig → Driven
boot c = record { node = start (new_node c); collected = [] }

module _ (decode_config : Command → Option (List ℕ)) where
  unfoldable pub perform : Driven → Call → Driven
  perform d ticks = record d { node = tick d.node }
  perform d (receives m r) = record d { node = step decode_config d.node m r }
  perform d (proposes c) = record d { node = propose d.node c }
  perform d collects =
      let (n, ms) = ready d.node in record { node = n; collected = d.collected ++ ms }

  unfoldable pub run : Driven → List Call → Driven
  unfolding perform
  run d [] = d
  run d (c ∷ cs) = run (perform d c) cs
