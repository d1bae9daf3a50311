-- ===== src/Lpaxos/Moves/Phases.antt =====
-- The phase that a node and a message bring it to, before the message is looked at; a new node.
use raft_rl_test.Base.{
  ℕ, ◌≤◌, ◌<◌, ◌≡◌, refl, sym, false, not, ◌&&◌, ◌||◌, List, arith, if◌then◌else◌, ltb, leb, ◌==◌,
  length, if-both, if-cases,
}
use raft_rl_test.Lpaxos.Data.{Message}
use raft_rl_test.Lpaxos.Node.{
  Node, broadcast, send, become_leader, forward_commands, update_to_phase, new_node,
  hand_on_or_lead, set_phase, unstarted,
}
use raft_rl_test.Lpaxos.Step.{valid_message}
use raft_rl_test.Lpaxos.Moves.Base.{hand_on_or_lead-Moves, IsLed, tells_phase, phase_of, Fitting}
use raft_rl_test.Base.Ascending.{Ascending}

-- A node that is in a phase already stays there.
pub update_to_phase-same : (n : Node) (phase : ℕ) → phase ≤ n.phase → update_to_phase n phase ≡ n
unfolding update_to_phase
update_to_phase-same n phase l = ground arith

phase-hand_on_or_lead : (n : Node) → (hand_on_or_lead n).phase ≡ n.phase
unfolding hand_on_or_lead forward_commands become_leader broadcast send
phase-hand_on_or_lead n =
    if-both {A = Node} (λ x. x.phase ≡ n.phase)
      (not (length n.pending_commands == 0) && not (n.leader == n.id)) refl
      (if-both {A = Node} (λ x. x.phase ≡ n.phase) (n.leader == n.id) refl refl)

pub phase-update_to_phase :
    (n : Node) (phase : ℕ) → n.phase < phase → (update_to_phase n phase).phase ≡ phase
unfolding update_to_phase set_phase
phase-update_to_phase n phase l =
    if-cases {A = Node} (λ x. x.phase ≡ phase) (leb phase n.phase) (λ e. ground arith)
      (λ e. phase-hand_on_or_lead (set_phase n phase))

-- A message that is not old finds the node in the message's phase.
pub phase-entered :
    (n : Node) (m : Message)
    → ltb m.phase n.phase || not (valid_message m) ≡ false
    → m.phase ≡ (if ltb n.phase m.phase then update_to_phase n m.phase else n).phase
phase-entered n m h =
    if-cases {A = Node} (λ x. m.phase ≡ x.phase) (ltb n.phase m.phase)
      (λ e. sym (phase-update_to_phase n m.phase (ground arith))) (λ e. ground arith)

-- NewLPaxosNode: the node is led from the start, and may send the first prepare messages.
pub record IsNew (id : ℕ) (peers : List ℕ) (n : Node) : Type 0 where
  pub own : n.id ≡ id
  pub known : n.peers ≡ peers
  pub led : IsLed n
  pub ascends : Ascending tells_phase phase_of 0 n.pending_messages n.phase
  pub fitting : Fitting id peers n.pending_messages

pub new_node-IsNew :
    (id : ℕ) (peers : List ℕ) (timeout : ℕ) → IsNew id peers (new_node id peers timeout)
unfolding new_node set_phase
new_node-IsNew id peers timeout =
    let first : Node = set_phase (unstarted id peers timeout) 0 in
    let v : IsLed first = record { leader = refl; last = omega arith } in
    let g = hand_on_or_lead-Moves first in
    record {
      own = g.same_id;
      known = g.same_peers;
      led = (g.keeps v).0;
      ascends = rw g.sends g.ascends;
      fitting = rw g.sends (g.keeps v).1;
    }
