-- ===== src/Lpaxos/Moves/Handlers.antt =====
-- The message cases and the clock move an LPaxos node only onwards.
use mathlib.Core.List.{append-nil}
use raft_rl_test.Base.{
  ℕ, ◌+◌, ◌/◌, ◌≤◌, ◌≡◌, refl, sym, ap, ◌∙◌, not, ◌&&◌, ◌||◌, List, [], ◌++◌, arith, if◌then◌else◌,
  ltb, leb, ◌==◌, length, if-both, if-cases,
}
use raft_rl_test.Base.Int.{pos}
use raft_rl_test.Base.Assoc.{GoMap}
use raft_rl_test.Lpaxos.Data.{
  MessageType, prepare_message, ack_message, propose_message, promise_message, command_message,
  heartbeat_message, phase_change_message, Message, message, Entry, Ack, step_number, ack_of,
  promise_of, ack, propose,
}
use raft_rl_test.Lpaxos.Tracker.{
  track_ack, track_promise, track_phase_change, valid_acks, valid_promises, valid_phase_changes,
}
use raft_rl_test.Lpaxos.Node.{Node, get_leader, forward_commands, update_to_phase}
use raft_rl_test.Lpaxos.Step.{
  on_heartbeat, phase_request, tally_phase_changes, on_phase_change, on_command, ack_reply,
  on_prepare, tally_acks, on_ack, on_propose, tally_promises, on_promise, dispatch, step, tick,
  valid_message,
}
use raft_rl_test.Lpaxos.Moves.Phases.{phase-entered, update_to_phase-same}
use raft_rl_test.Lpaxos.Moves.Base.{
  Moves, Moves-trans, Moves-refl, stays, broadcast-Moves, send-Moves, forward_commands-Moves,
  become_leader-Moves, update_to_phase-Moves, decide-Moves, propose_log-Moves, promise_log-Moves,
  tells_phase, phase_of,
}
use raft_rl_test.Base.Ascending.{Ascending-le}

on_heartbeat-Moves : (n : Node) (m : Message) → Moves n (on_heartbeat n m)
unfolding on_heartbeat
on_heartbeat-Moves n m =
    if-both (Moves n) (not (n.leader == n.id) && m.f == n.leader)
      (stays n _ refl refl refl refl refl refl) (Moves-refl n)

module _ (hash : List Entry → List ℕ) (order : GoMap Ack → GoMap Ack) where
  on_command-Moves : (n : Node) (m : Message) → Moves n (on_command hash order n m)
  unfolding on_command
  on_command-Moves n m =
      Moves-trans (Moves-trans (stays n taken refl refl refl refl refl refl) passed) (
        if-both (Moves passed_on) (leb 2 (step_number passed_on.step))
          (propose_log-Moves hash order passed_on) (Moves-refl passed_on))
    where
      taken : Node
      taken = record n { pending_commands = n.pending_commands ++ m.log }

      passed_on : Node
      passed_on = if not (taken.leader == taken.id) then forward_commands taken else taken

      passed : Moves taken passed_on
      passed =
          if-both (Moves taken) (not (taken.leader == taken.id)) (forward_commands-Moves taken)
            (Moves-refl taken)

  on_prepare-Moves : (n : Node) (m : Message) → Moves n (on_prepare hash order n m)
  unfolding on_prepare
  on_prepare-Moves n m =
      Moves-trans (stays n n' refl refl refl refl refl refl) (
        send-Moves n' (ack_reply hash order n') (record { phase = λ e. refl; leading = λ v e. cc }))
    where
      n' : Node
      n' = record n { step = if n.leader == n.id then ack else propose }

  tally_acks-Moves : (n : Node) (phase : ℕ) → Moves n (tally_acks hash order n phase)
  unfolding tally_acks
  tally_acks-Moves n phase =
      if-both (Moves n)
        (ltb (length n.peers / 2) (valid_acks n.tracker phase) && step_number n.step == 1)
        (propose_log-Moves hash order n) (Moves-refl n)

  on_ack-Moves : (n : Node) (m : Message) → Moves n (on_ack hash order n m)
  unfolding on_ack
  on_ack-Moves n m = if-both (Moves n) (ltb (step_number n.step) 1) (Moves-refl n) (
      Moves-trans (stays n tracked refl refl refl refl refl refl)
        (tally_acks-Moves tracked m.phase))
    where
      tracked : Node
      tracked = record n { tracker = track_ack n.tracker (ack_of m) }

  on_propose-Moves :
      (n : Node) (m : Message) → m.phase ≡ n.phase → Moves n (on_propose hash order n m)
  unfolding on_propose
  on_propose-Moves n m e =
      if-both (Moves n) (not (m.f == n.leader)) (Moves-refl n)
        (Moves-trans replaces (promise_log-Moves hash order replaced))
    where
      replaced : Node
      replaced = record n { log = m.log; last = pos m.phase }

      replaces : Moves n replaced
      replaces = record {
        same_id = refl;
        same_peers = refl;
        sent = [];
        sends = sym (append-nil n.pending_messages);
        ascends = omega arith;
        keeps = λ v. (record { leader = v.leader; last = omega arith }, tt);
      }

  on_promise-Moves : (n : Node) (m : Message) → Moves n (on_promise hash order n m)
  unfolding on_promise tally_promises
  on_promise-Moves n m = Moves-trans (stays n tracked refl refl refl refl refl refl) (
      if-both (Moves tracked)
        (ltb (length tracked.peers / 2) (valid_promises tracked.tracker tracked.phase))
        (decide-Moves tracked) (Moves-refl tracked))
    where
      tracked : Node
      tracked = record n { tracker = track_promise n.tracker (promise_of m) }

  on_phase_change-Moves :
      (n : Node) (m : Message) → m.phase ≡ n.phase → Moves n (on_phase_change hash order n m)
  unfolding on_phase_change tally_phase_changes
  on_phase_change-Moves n m e = Moves-trans (stays n tracked refl refl refl refl refl refl) (
      if-both (Moves tracked)
        (not (ltb (length tracked.peers / 2) (valid_phase_changes tracked.tracker m.phase)))
        (Moves-refl tracked)
        (if-cases (Moves tracked) (get_leader tracked.peers m.phase == tracked.id)
          (λ l. rw (update_to_phase-same tracked m.phase (omega (arith, e))) (
            become_leader-Moves tracked
              (λ v. v.leader ∙ ap (get_leader n.peers) (sym e) ∙ ground arith)))
          (λ l.
            broadcast-Moves tracked (phase_request hash order tracked m.phase)
              (record { phase = λ v. cc; leading = λ w v. cc }))))
    where
      tracked : Node
      tracked = record n { tracker = track_phase_change n.tracker (ack_of m) }

  dispatch-Moves :
      (t : MessageType) (n : Node) (m : Message)
      → m.phase ≡ n.phase
      → Moves n (dispatch hash order t n m)
  unfolding dispatch
  dispatch-Moves heartbeat_message n m e = on_heartbeat-Moves n m
  dispatch-Moves phase_change_message n m e = on_phase_change-Moves n m e
  dispatch-Moves command_message n m e = on_command-Moves n m
  dispatch-Moves prepare_message n m e = on_prepare-Moves n m
  dispatch-Moves ack_message n m e = on_ack-Moves n m
  dispatch-Moves propose_message n m e = on_propose-Moves n m e
  dispatch-Moves promise_message n m e = on_promise-Moves n m

  pub step-Moves : (n : Node) (m : Message) → Moves n (step hash order n m)
  unfolding step
  step-Moves n m =
      if-cases (Moves n) (ltb m.phase n.phase || not (valid_message m)) (λ e. Moves-refl n)
        (λ e. Moves-trans enters (dispatch-Moves m.type entered m (phase-entered n m e)))
    where
      entered : Node
      entered = if ltb n.phase m.phase then update_to_phase n m.phase else n

      enters : Moves n entered
      enters =
          if-both (Moves n) (ltb n.phase m.phase) (update_to_phase-Moves n m.phase) (Moves-refl n)

  pub tick-Moves : (n : Node) → Moves n (tick hash order n)
  unfolding tick
  tick-Moves n = Moves-trans (stays n n' refl refl refl refl refl refl) (
      if-cases (Moves n') (n'.leader == n'.id)
        (λ l.
          if-both (Moves n') (leb (n'.timeout / 5) n'.ticks)
            (Moves-trans
              (broadcast-Moves n' heartbeat
                (record { phase = λ e. refl; leading = λ v e. (ground arith, refl) }))
              (stays _ _ refl refl refl refl refl refl))
            (Moves-refl n'))
        (λ l.
          if-both (Moves n') (ltb n'.timeout n'.ticks)
            (Moves-trans
              (broadcast-Moves n' (phase_request hash order n' (n'.phase + 1))
                (record { phase = λ e. cc; leading = λ v e. cc }))
              (stays _ _ refl refl refl refl refl refl))
            (Moves-refl n')))
    where
      n' : Node
      n' = record n { ticks = n.ticks + 1 }

      heartbeat : Message
      heartbeat = record (message heartbeat_message) { phase = n.phase }

-- Where a message that is not old takes the node.
module _ (hash : List Entry → List ℕ) (order : GoMap Ack → GoMap Ack) where
  pub phase-step-reaches : (n : Node) (m : Message) → m.phase ≤ (step hash order n m).phase
  unfolding step
  phase-step-reaches n m =
      if-cases {A = Node} (λ x. m.phase ≤ x.phase) (ltb m.phase n.phase || not (valid_message m))
        (λ e. ground arith)
        (λ e. omega (
          arith,
          phase-entered n m e,
          Ascending-le tells_phase phase_of _ _ _
              (dispatch-Moves hash order m.type entered m (phase-entered n m e)).ascends,
        ))
    where
      entered : Node
      entered = if ltb n.phase m.phase then update_to_phase n m.phase else n
