-- ===== src/Lpaxos/Moves/Base/Relation.antt =====
-- The relation between an LPaxos node and what an operation makes of it.
use mathlib.Core.List.{append-nil, append_assoc}
use raft_rl_test.Base.{ℕ, ◌≤◌, ◌≡◌, refl, sym, ap, ◌∙◌, Bool, true, false, List, [], ◌++◌, arith}
use raft_rl_test.Base.Int.{ℤ, pos, negsuc}
use raft_rl_test.Base.Every.{Every, Every-append}
use raft_rl_test.Base.Ascending.{Ascending, Ascending-append}
use raft_rl_test.Lpaxos.Data.{
  MessageType, prepare_message, ack_message, propose_message, promise_message, command_message,
  heartbeat_message, phase_change_message, Message,
}
use raft_rl_test.Lpaxos.Node.{Node, get_leader}

-- The messages that carry the phase of their sender. A phase change asks for a later phase, and a
-- command has none.
abbrev pub has_phase : MessageType → Bool
has_phase prepare_message = true
has_phase ack_message = true
has_phase propose_message = true
has_phase promise_message = true
has_phase command_message = false
has_phase heartbeat_message = true
has_phase phase_change_message = false

-- The messages that a node sends as the leader of its phase.
abbrev pub leads : MessageType → Bool
leads prepare_message = true
leads ack_message = false
leads propose_message = true
leads promise_message = false
leads command_message = false
leads heartbeat_message = true
leads phase_change_message = false

abbrev pub tells_phase : Message → Bool
tells_phase m = has_phase m.type

abbrev pub phase_of : Message → ℕ
phase_of m = m.phase

-- A node's messages come from it, and those of a leader are for a phase that it leads.
abbrev pub Fits : ℕ → List ℕ → Message → Type 0
Fits id peers m = (m.f ≡ id) × (leads m.type ≡ true → get_leader peers m.phase ≡ id)

abbrev pub Fitting : ℕ → List ℕ → List Message → Type 0
Fitting id peers ms = Every (Fits id peers) ms

abbrev pub NotAbove : ℤ → ℕ → Type 0
NotAbove (pos a) n = a ≤ n
NotAbove (negsuc a) n = 0 ≤ n

-- The leader is that of the phase, and the log was last replaced in this phase or before.
pub record IsLed (n : Node) : Type 0 where
  pub leader : n.leader ≡ get_leader n.peers n.phase
  pub last : NotAbove n.last n.phase

pub record Moves (n n' : Node) : Type 0 where
  pub same_id : n'.id ≡ n.id
  pub same_peers : n'.peers ≡ n.peers
  pub sent : List Message
  pub sends : n'.pending_messages ≡ n.pending_messages ++ sent
  pub ascends : Ascending tells_phase phase_of n.phase sent n'.phase
  pub keeps : IsLed n → IsLed n' × Fitting n.id n.peers sent

pub Moves-trans : {n n' n'' : Node} → Moves n n' → Moves n' n'' → Moves n n''
Moves-trans {n} {n'} {n''} g h = record {
  same_id = h.same_id ∙ g.same_id;
  same_peers = h.same_peers ∙ g.same_peers;
  sent = g.sent ++ h.sent;
  sends = h.sends ∙ ap (λ l. l ++ h.sent) g.sends ∙ append_assoc n.pending_messages g.sent h.sent;
  ascends =
      Ascending-append tells_phase phase_of n.phase n'.phase n''.phase g.sent h.sent g.ascends
        h.ascends;
  keeps = λ v. (
    (h.keeps (g.keeps v).0).0,
    Every-append (Fits n.id n.peers) g.sent h.sent (g.keeps v).1
        (rw (g.same_id, g.same_peers) at (h.keeps (g.keeps v).0).1),
  );
}

-- An operation that sends nothing and stays in its phase.
pub stays :
    (n n' : Node)
    → n'.id ≡ n.id
    → n'.peers ≡ n.peers
    → n'.pending_messages ≡ n.pending_messages
    → n'.phase ≡ n.phase
    → n'.leader ≡ n.leader
    → n'.last ≡ n.last
    → Moves n n'
stays n n' i c p f l a = record {
  same_id = i;
  same_peers = c;
  sent = [];
  sends = p ∙ sym (append-nil n.pending_messages);
  ascends = omega (arith, f);
  keeps = λ v. (
    record {
      leader = l ∙ v.leader ∙ sym (ap (get_leader n'.peers) f ∙ ap (λ q. get_leader q n.phase) c);
      last = rw (a, f) v.last;
    },
    tt,
  );
}

pub Moves-refl : (n : Node) → Moves n n
Moves-refl n = stays n n refl refl refl refl refl refl
