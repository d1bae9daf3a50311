-- ===== src/Rsl/Handlers/Replies.antt =====
-- What the prepare and the accept handler share: the proposal of a message and the refusals.
use raft_rl_test.Base.{false}
use raft_rl_test.Rsl.Data.{Proposal, Message, MessageType, message}
use raft_rl_test.Rsl.Node.{Node, send}

-- The proposal that a message carries.
abbrev pub proposal_of : Message → Proposal
proposal_of m = record { ballot = m.ballot; decree = m.decree; command = m.command }

-- The refusals of the prepare and accept handlers: what the node has promised and accepted.
abbrev pub refusal : Node → Message → MessageType → Message
refusal n m type = record (message type) {
  to = m.from;
  accept = false;
  ballot = n.max_prepared_ballot;
  decree = n.max_accepted_proposal.decree;
}

unfoldable pub refuse : Node → Message → MessageType → Node
refuse n m type = send n (refusal n m type)
