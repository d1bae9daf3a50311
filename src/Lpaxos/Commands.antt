-- ===== src/Lpaxos/Commands.antt =====
-- What becomes of a client's commands: the proposals of a leader, and what others pass on.
use raft_rl_test.Base.{ℕ, ◌<◌, ◌≡◌, refl, ap, ◌∙◌, false, List, [], ◌∷◌, ◌++◌, arith, bytes_eq}
use raft_rl_test.Base.Assoc.{GoMap, get}
use raft_rl_test.Lpaxos.Data.{
  propose_message, command_message, Message, message, Entry, Ack, propose,
}
use raft_rl_test.Lpaxos.Node.{
  Node, broadcast, copies_to, forward_commands, send, propose_log, proposal, latest_log_node,
  log_of,
}
use raft_rl_test.Lpaxos.Step.{on_command, step}

-- The log that a leader builds on: that of the acknowledgement it found the latest.
abbrev pub base : (GoMap Ack → GoMap Ack) → Node → List Entry
base order n = log_of (get n.tracker.acks (latest_log_node (order n.tracker.acks)))

-- A leader that has proposed and holds no command back.
pub record IsProposing (n : Node) : Type 0 where
  pub leads : n.leader ≡ n.id
  pub step : n.step ≡ propose
  pub none_held : n.pending_commands ≡ []

module _ (hash : List Entry → List ℕ) where
  -- The proposal of a log, as it leaves a node.
  abbrev pub proposed : Node → List Entry → Message
  proposed n log = record (message propose_message) {
    phase = n.phase;
    log = log;
    log_hash = hash log;
    f = n.id;
  }

  -- A node after it has proposed.
  abbrev after_proposal : Node → List Message → Node
  after_proposal n ms = record n {
    step = propose;
    pending_commands = [];
    pending_messages = n.pending_messages ++ ms;
  }

  command-proposes :
      (order : GoMap Ack → GoMap Ack) (n : Node) (m : Message)
      → IsProposing n
      → bytes_eq (hash (base order n ++ m.log)) (hash n.log) ≡ false
      → on_command hash order n m
        ≡ after_proposal n (copies_to (proposed n (base order n ++ m.log)) n.peers)
  unfolding on_command propose_log proposal broadcast
  command-proposes order n m p h = ground (arith, p.leads, p.step, p.none_held)

  -- When a leader that has proposed in its phase gets two commands, one after the other, it proposes
  -- two logs in that phase, each the log of an acknowledgement with only the one command: the
  -- acknowledgements are those tracked before both, so neither log is built on the other. Go may
  -- range over them in another order the second time. (If the hashes of both logs differ from that
  -- of its own log.)
  pub command_twice-proposes :
      (order order' : GoMap Ack → GoMap Ack) (n : Node) (c d : Message)
      → IsProposing n
      → bytes_eq (hash (base order n ++ c.log)) (hash n.log) ≡ false
      → bytes_eq (hash (base order' n ++ d.log)) (hash n.log) ≡ false
      → (on_command hash order' (on_command hash order n c) d).pending_messages
        ≡ (n.pending_messages ++ copies_to (proposed n (base order n ++ c.log)) n.peers)
          ++ copies_to (proposed n (base order' n ++ d.log)) n.peers
  command_twice-proposes order order' n c d p h k =
      ap (λ x. (on_command hash order' x d).pending_messages) (command-proposes order n c p h)
      ∙ ap (λ x. x.pending_messages)
          (command-proposes order'
            (after_proposal n (copies_to (proposed n (base order n ++ c.log)) n.peers)) d
            (record { leads = p.leads; step = refl; none_held = refl }) k)

module _ (hash : List Entry → List ℕ) (order : GoMap Ack → GoMap Ack) where
  -- A node passes its commands on in a message that every node beyond phase 0 ignores, and keeps
  -- none of them.
  pub forward_commands-lost :
      (n other : Node)
      → 0 < other.phase
      → ((forward_commands n).pending_commands ≡ [])
        × ((m : Message) × ((forward_commands n).pending_messages ≡ n.pending_messages ++ m ∷ [])
            × (m.log ≡ n.pending_commands)
            × (step hash order other m ≡ other))
  unfolding forward_commands send step
  forward_commands-lost n other h = (refl, (forwarded, refl, refl, ground arith))
    where
      forwarded : Message
      forwarded = record (message command_message) {
        t = n.leader;
        log = n.pending_commands;
        f = n.id;
      }
