-- ===== src/Lpaxos/Node.antt =====
-- The LPaxosNode of lpaxos/algo.go (the fields of its State and of its configuration among its own)
-- and the operations that the message cases share. `hash` is LogHash, the text of a SHA-256 digest
-- of the JSON of a log; `order` is the order in which Go ranges over the tracked acknowledgements
-- in one call of `propose`. Of its two loops the second runs only if the first has found none of a
-- phase, whatever its order, so one order stands for both.
pub mod Latest
use raft_rl_test.Base.{
  ℕ, ◌+◌, ◌%◌, not, ◌&&◌, ◌||◌, List, [], ◌∷◌, ◌++◌, Option, some, none, length, if◌then◌else◌,
  ◌==◌, ltb, leb, bytes_eq,
}
use raft_rl_test.Base.Int.{ℤ, negsuc, ltb_ℤ, eqb_ℤ}
use raft_rl_test.Base.Assoc.{GoMap, get}
use raft_rl_test.Lpaxos.Data.{
  PaxosStep, prepare, propose, promise, step_number, Entry, Message, message, prepare_message,
  propose_message, promise_message, command_message, Ack,
}
use raft_rl_test.Lpaxos.Tracker.{Tracker, new_tracker, reset}

-- A peer is its ID; the address of a Peer is not used by the node.
pub record Node : Type 0 where
  pub id : ℕ
  pub peers : List ℕ
  pub timeout : ℕ
  pub last : ℤ
  pub phase : ℕ
  pub leader : ℕ
  pub step : PaxosStep
  pub log : List Entry
  pub decided : ℕ
  pub tracker : Tracker
  pub ticks : ℕ
  pub pending_messages : List Message
  pub pending_commands : List Entry

-- The copies of a message for every peer, the sender among them.
unfoldable pub copies_to : Message → List ℕ → List Message
copies_to m [] = []
copies_to m (p ∷ ps) = record m { t = p } ∷ copies_to m ps

unfoldable pub broadcast : Node → Message → Node
unfolding copies_to
broadcast n m = record n {
  pending_messages = n.pending_messages ++ copies_to (record m { f = n.id }) n.peers;
}

unfoldable pub send : Node → Message → Node
send n m = record n { pending_messages = n.pending_messages ++ record m { f = n.id } ∷ [] }

-- Go fails on an empty list of peers here; the model gives phase + 1.
unfoldable pub get_leader : List ℕ → ℕ → ℕ
get_leader peers phase = (phase + 1) % length peers

-- The pending commands go to the leader. The message has no phase of its own, that is phase 0.
unfoldable pub forward_commands : Node → Node
unfolding send
forward_commands n =
    record (send n (record (message command_message) { t = n.leader; log = n.pending_commands })) {
      pending_commands = [];
    }

unfoldable pub become_leader : Node → Node
unfolding broadcast
become_leader n = broadcast n (record (message prepare_message) { phase = n.phase })

-- The state of the first lines of updateToPhase.
unfoldable pub set_phase : Node → ℕ → Node
unfolding get_leader reset
set_phase n phase = record n {
  phase = phase;
  leader = get_leader n.peers phase;
  step = prepare;
  tracker = reset n.tracker phase;
}

-- And its end: hand the commands on, or lead.
unfoldable pub hand_on_or_lead : Node → Node
unfolding forward_commands become_leader
hand_on_or_lead n =
    if not (length n.pending_commands == 0) && not (n.leader == n.id)
    then forward_commands n
    else if n.leader == n.id
    then become_leader n
    else n

unfoldable pub update_to_phase : Node → ℕ → Node
unfolding set_phase hand_on_or_lead
update_to_phase n phase = if leb phase n.phase then n else hand_on_or_lead (set_phase n phase)

-- The node before its first phase.
abbrev pub unstarted : ℕ → List ℕ → ℕ → Node
unstarted id peers timeout = record {
  id = id;
  peers = peers;
  timeout = timeout;
  last = negsuc 0;
  phase = 0;
  leader = 0;
  step = prepare;
  log = [];
  decided = 0;
  tracker = new_tracker;
  ticks = 0;
  pending_messages = [];
  pending_commands = [];
}

-- In Go the phase is -1 until updateToPhase(0), which then always takes effect.
unfoldable pub new_node : ℕ → List ℕ → ℕ → Node
unfolding set_phase hand_on_or_lead
new_node id peers timeout = hand_on_or_lead (set_phase (unstarted id peers timeout) 0)

-- The loop of propose: the node of the greatest `Last` met, and that `Last`.
unfoldable pub latest : ℕ → ℤ → GoMap Ack → ℕ × ℤ
latest node most [] = (node, most)
latest node most (e ∷ acks) =
    latest (if ltb_ℤ most e.1.last then e.0 else node)
      (if ltb_ℤ most e.1.last then e.1.last else most) acks

-- The node whose log is proposed: of the latest acknowledgement, or any if none has a `Last`.
unfoldable pub latest_log_node : GoMap Ack → ℕ
unfolding latest
latest_log_node acks =
    let (node, most) = latest 0 (negsuc 0) acks in
    if eqb_ℤ most (negsuc 0) then first_of acks node else node
  where
    first_of : GoMap Ack → ℕ → ℕ
    first_of [] node = node
    first_of (e ∷ _) node = e.0

abbrev pub log_of : Option Ack → List Entry
log_of none = []
log_of (some a) = a.log

module _ (hash : List Entry → List ℕ) (order : GoMap Ack → GoMap Ack) where
  -- The log that a leader proposes: that of the latest acknowledgement and the pending commands.
  unfoldable pub proposal : Node → List Entry
  unfolding latest_log_node
  proposal n =
      log_of (get n.tracker.acks (latest_log_node (order n.tracker.acks))) ++ n.pending_commands

  unfoldable pub propose_log : Node → Node
  unfolding proposal broadcast
  propose_log n =
      let new_log = proposal n in
      let n' = record n { step = propose; pending_commands = [] } in
      if not (n.leader == n.id) || ltb (step_number n.step) 1
      then n
      else if bytes_eq (hash new_log) (hash n.log)
      then n'
      else broadcast n' (record (message propose_message) {
        phase = n.phase;
        log = new_log;
        log_hash = hash new_log;
      })

  unfoldable pub promise_log : Node → Node
  unfolding broadcast
  promise_log n =
      broadcast (record n { step = promise })
        (record (message promise_message) { phase = n.phase; log = n.log; log_hash = hash n.log })

unfoldable pub decide : Node → Node
decide n = record n { decided = length n.log }
