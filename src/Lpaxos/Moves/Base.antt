-- ===== src/Lpaxos/Moves/Base.antt =====
-- The operations of Lpaxos.Node as moves of an LPaxos node; `Relation` says what a move is.
mod Relation
pub use Relation.*
use mathlib.Core.List.{append-nil, append_assoc}
use raft_rl_test.Base.{
  ℕ, ◌≤◌, ◌≡◌, refl, sym, ap, ◌∙◌, Bool, true, false, not, ◌&&◌, ◌||◌, List, [], ◌∷◌, ◌++◌, arith,
  ltb, leb, ◌==◌, length, bytes_eq, if-both, if-cases,
}
use raft_rl_test.Base.Int.{ℤ, pos, negsuc}
use raft_rl_test.Base.Assoc.{GoMap}
use raft_rl_test.Base.Every.{Every, Every-append}
use raft_rl_test.Base.Ascending.{Ascending, Ascending-append, Ascending-one}
use raft_rl_test.Lpaxos.Data.{
  MessageType, prepare_message, ack_message, propose_message, promise_message, command_message,
  heartbeat_message, phase_change_message, Message, message, Entry, Ack, step_number, propose,
  promise,
}
use raft_rl_test.Lpaxos.Node.{
  Node, copies_to, broadcast, send, get_leader, forward_commands, become_leader, set_phase,
  hand_on_or_lead, update_to_phase, proposal, propose_log, promise_log, decide,
}

-- What a node may send without moving: nothing about its phase, or the truth about it.
pub record MaySend (n : Node) (m : Message) : Type 0 where
  pub phase : tells_phase m ≡ true → m.phase ≡ n.phase
  pub leading : IsLed n → leads m.type ≡ true → (n.leader ≡ n.id) × (m.phase ≡ n.phase)

IsLed-Fits :
    (n : Node) (m : Message) (t : ℕ)
    → MaySend n m
    → IsLed n
    → Fits n.id n.peers (record m { f = n.id; t = t })
IsLed-Fits n m t s v =
    (refl, λ l. ap (get_leader n.peers) (s.leading v l).1 ∙ sym v.leader ∙ (s.leading v l).0)

copies_to-ascends :
    (n : Node) (m : Message) (ps : List ℕ)
    → MaySend n m
    → Ascending tells_phase phase_of n.phase (copies_to (record m { f = n.id }) ps) n.phase
unfolding copies_to
copies_to-ascends n m [] s = omega arith
copies_to-ascends n m (p ∷ ps) s =
    Ascending-append tells_phase phase_of n.phase n.phase n.phase
      (record m { f = n.id; t = p } ∷ []) (copies_to (record m { f = n.id }) ps)
      (Ascending-one tells_phase phase_of n.phase (record m { f = n.id; t = p }) s.phase)
      (copies_to-ascends n m ps s)

copies_to-Fitting :
    (n : Node) (m : Message) (ps : List ℕ)
    → MaySend n m
    → IsLed n
    → Fitting n.id n.peers (copies_to (record m { f = n.id }) ps)
unfolding copies_to
copies_to-Fitting n m [] s v = tt
copies_to-Fitting n m (p ∷ ps) s v = (IsLed-Fits n m p s v, copies_to-Fitting n m ps s v)

pub broadcast-Moves : (n : Node) (m : Message) → MaySend n m → Moves n (broadcast n m)
unfolding broadcast
broadcast-Moves n m s = record {
  same_id = refl;
  same_peers = refl;
  sent = copies_to (record m { f = n.id }) n.peers;
  sends = refl;
  ascends = copies_to-ascends n m n.peers s;
  keeps = λ v. (record { leader = v.leader; last = v.last }, copies_to-Fitting n m n.peers s v);
}

pub send-Moves : (n : Node) (m : Message) → MaySend n m → Moves n (send n m)
unfolding send
send-Moves n m s = record {
  same_id = refl;
  same_peers = refl;
  sent = record m { f = n.id } ∷ [];
  sends = refl;
  ascends = Ascending-one tells_phase phase_of n.phase (record m { f = n.id }) s.phase;
  keeps = λ v. (record { leader = v.leader; last = v.last }, (IsLed-Fits n m m.t s v, tt));
}

pub forward_commands-Moves : (n : Node) → Moves n (forward_commands n)
unfolding forward_commands
forward_commands-Moves n =
    Moves-trans (send-Moves n forwarded (record { phase = λ e. cc; leading = λ v e. cc }))
      (stays _ _ refl refl refl refl refl refl)
  where
    forwarded : Message
    forwarded = record (message command_message) { t = n.leader; log = n.pending_commands }

pub become_leader-Moves : (n : Node) → (IsLed n → n.leader ≡ n.id) → Moves n (become_leader n)
unfolding become_leader
become_leader-Moves n l =
    broadcast-Moves n (record (message prepare_message) { phase = n.phase })
      (record { phase = λ e. refl; leading = λ v e. (l v, refl) })

NotAbove-le : (x : ℤ) (a b : ℕ) → a ≤ b → NotAbove x a → NotAbove x b
NotAbove-le (pos x) a b l h = omega arith
NotAbove-le (negsuc x) a b l h = omega arith

set_phase-Moves : (n : Node) (phase : ℕ) → n.phase ≤ phase → Moves n (set_phase n phase)
unfolding set_phase
set_phase-Moves n phase l = record {
  same_id = refl;
  same_peers = refl;
  sent = [];
  sends = sym (append-nil n.pending_messages);
  ascends = l;
  keeps = λ v. (record { leader = refl; last = NotAbove-le n.last n.phase phase l v.last }, tt);
}

pub hand_on_or_lead-Moves : (n : Node) → Moves n (hand_on_or_lead n)
unfolding hand_on_or_lead
hand_on_or_lead-Moves n =
    if-both (Moves n) (not (length n.pending_commands == 0) && not (n.leader == n.id))
      (forward_commands-Moves n)
      (if-cases (Moves n) (n.leader == n.id) (λ e. become_leader-Moves n (λ v. ground arith))
        (λ e. Moves-refl n))

pub update_to_phase-Moves : (n : Node) (phase : ℕ) → Moves n (update_to_phase n phase)
unfolding update_to_phase
update_to_phase-Moves n phase =
    if-cases (Moves n) (leb phase n.phase) (λ e. Moves-refl n)
      (λ e.
        Moves-trans (set_phase-Moves n phase (ground arith))
          (hand_on_or_lead-Moves (set_phase n phase)))

pub decide-Moves : (n : Node) → Moves n (decide n)
unfolding decide
decide-Moves n = stays n _ refl refl refl refl refl refl

module _ (hash : List Entry → List ℕ) (order : GoMap Ack → GoMap Ack) where
  pub propose_log-Moves : (n : Node) → Moves n (propose_log hash order n)
  unfolding propose_log
  propose_log-Moves n =
      if-cases (Moves n) (not (n.leader == n.id) || ltb (step_number n.step) 1) (λ e. Moves-refl n)
        (λ e.
          if-both (Moves n) (bytes_eq (hash (proposal hash order n)) (hash n.log))
            (stays n _ refl refl refl refl refl refl)
            (Moves-trans (stays n n' refl refl refl refl refl refl) (
              broadcast-Moves n' proposed
                (record { phase = λ v. refl; leading = λ w v. (ground arith, refl) }))))
    where
      n' : Node
      n' = record n { step = propose; pending_commands = [] }

      proposed : Message
      proposed = record (message propose_message) {
        phase = n.phase;
        log = proposal hash order n;
        log_hash = hash (proposal hash order n);
      }

  pub promise_log-Moves : (n : Node) → Moves n (promise_log hash order n)
  unfolding promise_log
  promise_log-Moves n =
      Moves-trans (stays n n' refl refl refl refl refl refl)
        (broadcast-Moves n' promised (record { phase = λ v. refl; leading = λ w v. cc }))
    where
      n' : Node
      n' = record n { step = promise }

      promised : Message
      promised = record (message promise_message) {
        phase = n.phase;
        log = n.log;
        log_hash = hash n.log;
      }
