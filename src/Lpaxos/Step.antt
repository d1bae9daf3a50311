-- ===== src/Lpaxos/Step.antt =====
-- The cases of `Step`, one for each type of message, and the clock, in lpaxos/algo.go.
use raft_rl_test.Base.{
  ℕ, ◌+◌, ◌/◌, Bool, true, not, ◌&&◌, ◌||◌, List, [], ◌++◌, length, if◌then◌else◌, ◌==◌, ltb, leb,
}
use raft_rl_test.Base.Int.{pos}
use raft_rl_test.Base.Assoc.{GoMap}
use raft_rl_test.Lpaxos.Data.{
  ack, propose, step_number, Entry, Message, MessageType, message, prepare_message, ack_message,
  propose_message, promise_message, command_message, heartbeat_message, phase_change_message, Ack,
  ack_of, promise_of,
}
use raft_rl_test.Lpaxos.Tracker.{
  track_ack, track_promise, track_phase_change, valid_acks, valid_promises, valid_phase_changes,
}
use raft_rl_test.Lpaxos.Node.{
  Node, broadcast, send, get_leader, forward_commands, become_leader, update_to_phase, propose_log,
  promise_log, decide,
}

unfoldable pub on_heartbeat : Node → Message → Node
on_heartbeat n m = if not (n.leader == n.id) && m.f == n.leader then record n { ticks = 0 } else n

-- validMessage, whose check of the log's hash is commented out.
abbrev pub valid_message : Message → Bool
valid_message m = true

module _ (hash : List Entry → List ℕ) (order : GoMap Ack → GoMap Ack) where
  -- What a node tells of itself when it asks for a phase.
  abbrev pub phase_request : Node → ℕ → Message
  phase_request n phase = record (message phase_change_message) {
    phase = phase;
    last = n.last;
    log = n.log;
    log_hash = hash n.log;
  }

  -- With a majority for the phase its leader leads, and the others pass the request on.
  unfoldable pub tally_phase_changes : Node → ℕ → Node
  unfolding broadcast
  tally_phase_changes n phase =
      if not (ltb (length n.peers / 2) (valid_phase_changes n.tracker phase))
      then n
      else if get_leader n.peers phase == n.id
      then become_leader (update_to_phase n phase)
      else broadcast n (phase_request n phase)

  unfoldable pub on_phase_change : Node → Message → Node
  unfolding tally_phase_changes
  on_phase_change n m =
      tally_phase_changes (record n { tracker = track_phase_change n.tracker (ack_of m) }) m.phase

  unfoldable pub on_command : Node → Message → Node
  on_command n m =
      let n' = record n { pending_commands = n.pending_commands ++ m.log } in
      let n'' = if not (n'.leader == n'.id) then forward_commands n' else n' in
      if leb 2 (step_number n''.step) then propose_log hash order n'' else n''

  abbrev pub ack_reply : Node → Message
  ack_reply n = record (message ack_message) {
    t = n.leader;
    last = n.last;
    phase = n.phase;
    log = n.log;
    log_hash = hash n.log;
  }

  unfoldable pub on_prepare : Node → Message → Node
  unfolding send
  on_prepare n m =
      let n' = record n { step = if n.leader == n.id then ack else propose } in
      send n' (ack_reply n')

  unfoldable pub tally_acks : Node → ℕ → Node
  tally_acks n phase =
      if ltb (length n.peers / 2) (valid_acks n.tracker phase) && step_number n.step == 1
      then propose_log hash order n
      else n

  unfoldable pub on_ack : Node → Message → Node
  unfolding tally_acks
  on_ack n m =
      if ltb (step_number n.step) 1
      then n
      else tally_acks (record n { tracker = track_ack n.tracker (ack_of m) }) m.phase

  unfoldable pub on_propose : Node → Message → Node
  on_propose n m =
      if not (m.f == n.leader)
      then n
      else promise_log hash order (record n { log = m.log; last = pos m.phase })

  -- ValidPromises takes the hash of the log too, and does not look at it.
  unfoldable pub tally_promises : Node → Node
  unfolding decide
  tally_promises n =
      if ltb (length n.peers / 2) (valid_promises n.tracker n.phase) then decide n else n

  unfoldable pub on_promise : Node → Message → Node
  unfolding tally_promises
  on_promise n m = tally_promises (record n { tracker = track_promise n.tracker (promise_of m) })

  unfoldable pub dispatch : MessageType → Node → Message → Node
  dispatch heartbeat_message n m = on_heartbeat n m
  dispatch phase_change_message n m = on_phase_change n m
  dispatch command_message n m = on_command n m
  dispatch prepare_message n m = on_prepare n m
  dispatch ack_message n m = on_ack n m
  dispatch propose_message n m = on_propose n m
  dispatch promise_message n m = on_promise n m

  -- An old message is ignored; a newer one takes the node to its phase first.
  unfoldable pub step : Node → Message → Node
  unfolding dispatch
  step n m =
      let n' = if ltb n.phase m.phase then update_to_phase n m.phase else n in
      if ltb m.phase n.phase || not (valid_message m) then n else dispatch m.type n' m

  unfoldable pub tick : Node → Node
  unfolding broadcast
  tick n =
      let n' = record n { ticks = n.ticks + 1 } in
      if n'.leader == n'.id
      then if leb (n'.timeout / 5) n'.ticks
        then record (broadcast n' (record (message heartbeat_message) { phase = n'.phase })) {
          ticks = 0;
        }
        else n'
      else if ltb n'.timeout n'.ticks
      then record (broadcast n' (phase_request n' (n'.phase + 1))) { ticks = 0 }
      else n'

-- Ready: the messages collected, and the node with none.
unfoldable pub ready : Node → Node × List Message
ready n = (record n { pending_messages = [] }, n.pending_messages)

-- HasReady, as written: true when no message waits.
unfoldable pub has_ready : Node → Bool
has_ready n = length n.pending_messages == 0
