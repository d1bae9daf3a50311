-- ===== src/Tests/LpaxosNode.antt =====
-- Runs of the LPaxos node, and its theorems at concrete nodes.
use raft_rl_test.Base.{
  some, get_elem?, ℕ, zero, suc, ◌≤◌, ◌≡◌, ◌++◌, refl, List, [], ◌∷◌, arith, length,
}
use raft_rl_test.Base.Assoc.{GoMap, get, put}
use raft_rl_test.Base.Int.{pos, negsuc}
use raft_rl_test.Lpaxos.Data.{
  Entry, Message, Ack, message, command_message, prepare_message, promise_message, ack_message,
  propose_message, phase_change_message,
}
use raft_rl_test.Base.Every.{Every}
use raft_rl_test.Lpaxos.Node.Latest.{NotBelow, proposal-greatest}
use raft_rl_test.Lpaxos.Tracker.Latest.{HasLater, track_ack-HasLater}
use raft_rl_test.Lpaxos.Tracker.{
  new_tracker, reset, collect, track_ack, track_promise, valid_acks, valid_promises,
  valid_phase_changes, track_phase_change,
}
use raft_rl_test.Lpaxos.Node.{
  Node, new_node, set_phase, hand_on_or_lead, get_leader, copies_to, become_leader, broadcast, send,
  propose_log, promise_log, proposal, latest_log_node, latest, decide, forward_commands,
  update_to_phase,
}
use raft_rl_test.Lpaxos.Step.{
  step, tick, ready, on_prepare, on_ack, on_propose, on_promise, on_command, tally_acks,
  tally_promises, on_phase_change,
}
use raft_rl_test.Lpaxos.Moves.Base.{NotAbove}
use raft_rl_test.Lpaxos.Moves.Handlers.{phase-step-reaches}
use raft_rl_test.Lpaxos.Run.{Call, receives, boot, run}
use raft_rl_test.Lpaxos.Run.Safety.{boot-leader, boot-phases_ascend, one_leader}
use raft_rl_test.Lpaxos.Commands.{
  command_twice-proposes, forward_commands-lost, IsProposing, proposed,
}

-- A stand-in for the digest: the bytes of the entries, one after the other.
abbrev hash : List Entry → List ℕ
hash [] = []
hash (e ∷ es) = e.bytes ++ hash es

-- The order of the tracked acknowledgements themselves.
abbrev order : GoMap Ack → GoMap Ack
order m = m

-- Another order.
abbrev newest_first : GoMap Ack → GoMap Ack
newest_first [] = []
newest_first (e ∷ m) = newest_first m ++ e ∷ []

abbrev peers : List ℕ
peers = 0 ∷ 1 ∷ 2 ∷ []

abbrev entry : ℕ → Entry
entry b = record { bytes = b ∷ [] }

abbrev ack_from : ℕ → Message
ack_from p = record (message ack_message) { f = p; last = pos 0 }

abbrev asked : ℕ → Message
asked b = record (message command_message) { log = entry b ∷ [] }

abbrev prepared : Message
prepared = record (message prepare_message) { f = 1 }

-- Node 1 leads phase 0: it prepares, gets a command and two acknowledgements, and proposes.
abbrev proposing : List Call
proposing =
    receives prepared order
    ∷ receives (asked 7) order
    ∷ receives (ack_from 0) order
    ∷ receives (ack_from 1) order
    ∷ []

after : ℕ → List Call → Node
unfolding run boot new_node set_phase hand_on_or_lead get_leader copies_to become_leader broadcast
    send propose_log promise_log proposal latest_log_node latest decide forward_commands
    update_to_phase step tick ready on_prepare on_ack on_propose on_promise on_command tally_acks
    tally_promises reset collect track_ack track_promise valid_acks valid_promises get put
    on_phase_change valid_phase_changes track_phase_change
after id cs = (run hash (boot id peers 5) cs).node

leads_first : (after 1 []).leader ≡ 1
unfolding after
leads_first = refl

proposes_one : length (after 1 proposing).pending_messages ≡ 7
unfolding after
proposes_one = refl

abbrev prepare_to : ℕ → Message
prepare_to p = record (message prepare_message) { f = 1; t = p }

abbrev own_ack : Message
own_ack = record (message ack_message) { f = 1; t = 1; last = negsuc 0 }

abbrev propose_to : ℕ → Message
propose_to p = record (message propose_message) {
  f = 1;
  t = p;
  log = entry 7 ∷ [];
  log_hash = 7 ∷ [];
}

boot-leader_example :
    let n = (run hash (boot 1 peers 5) proposing).node in
    (n.leader ≡ get_leader peers n.phase) × NotAbove n.last n.phase × (n.id ≡ 1) × (n.peers ≡ peers)
boot-leader_example = boot-leader hash 1 peers 5 proposing

boot-phases_ascend_example : (prepare_to 2).phase ≤ (propose_to 0).phase
unfolding after
boot-phases_ascend_example =
    boot-phases_ascend hash 1 peers 5 proposing (prepare_to 0 ∷ prepare_to 1 ∷ []) (prepare_to 2)
      (own_ack ∷ []) (propose_to 0) (propose_to 1 ∷ propose_to 2 ∷ []) refl refl refl

abbrev first : ℕ
first = 1

-- Two lives of node 1, one of which has only prepared.
one_leader_example : first ≡ first
unfolding after
one_leader_example =
    one_leader hash peers first first 5 5 [] proposing [] (prepare_to 0)
      (prepare_to 1 ∷ prepare_to 2 ∷ []) (prepare_to 0 ∷ prepare_to 1 ∷ prepare_to 2 ∷ own_ack ∷ [])
      (propose_to 0) (propose_to 1 ∷ propose_to 2 ∷ []) refl refl refl refl refl

abbrev promise_from : ℕ → Message
promise_from p = record (message promise_message) { f = p }

after-proposing-IsProposing : IsProposing (after 1 proposing)
unfolding after
after-proposing-IsProposing = record { leads = refl; step = refl; none_held = refl }

command_twice-proposes_example :
    (on_command hash newest_first
      (on_command hash order (after 1 proposing) (asked 8))
      (asked 9)).pending_messages
    ≡ ((after 1 proposing).pending_messages
        ++ copies_to (proposed hash (after 1 proposing) (entry 8 ∷ [])) peers)
      ++ copies_to (proposed hash (after 1 proposing) (entry 9 ∷ [])) peers
unfolding after
command_twice-proposes_example =
    command_twice-proposes hash order newest_first (after 1 proposing) (asked 8) (asked 9)
      after-proposing-IsProposing refl refl

abbrev later : Message
later = record (message phase_change_message) { f = 0; phase = 1 }

-- A node of phase 0 holds command 7 for node 1; node 1 is in phase 1 already.
forward_commands-lost_example :
    let n = record (after 2 []) { pending_commands = entry 7 ∷ [] } in
    ((forward_commands n).pending_commands ≡ [])
    × ((m : Message) × ((forward_commands n).pending_messages ≡ n.pending_messages ++ m ∷ [])
        × (m.log ≡ n.pending_commands)
        × (step hash order (after 1 (receives later order ∷ [])) m
            ≡ after 1 (receives later order ∷ [])))
unfolding after
forward_commands-lost_example =
    forward_commands-lost hash order (record (after 2 []) { pending_commands = entry 7 ∷ [] })
      (after 1 (receives later order ∷ [])) (omega arith)

phase-step-reaches_example : later.phase ≤ (step hash order (after 1 []) later).phase
phase-step-reaches_example = phase-step-reaches hash order (after 1 []) later

-- Node 0 acknowledges phase 1 with one log, and then again with another.
abbrev first_ack : Ack
first_ack = record { peer = 0; phase = 1; last = pos 0; log = entry 7 ∷ []; log_hash = 7 ∷ [] }

abbrev second_ack : Ack
second_ack = record { peer = 0; phase = 1; last = pos 0; log = entry 8 ∷ []; log_hash = 8 ∷ [] }

track_ack-HasLater_example :
    HasLater first_ack (get (track_ack (track_ack new_tracker first_ack) second_ack).acks 0)
unfolding get put track_ack
track_ack-HasLater_example =
    track_ack-HasLater (track_ack new_tracker first_ack) second_ack 0 first_ack refl

-- Node 2 has the greater `Last` of two.
abbrev acks : GoMap Ack
acks = (0, first_ack) ∷ (2, record second_ack { peer = 2; last = pos 1 }) ∷ []

-- Node 1 leads with these acknowledgements and holds command 9 back.
abbrev choosing : Node
choosing = record (after 1 []) {
  tracker = record new_tracker { acks = acks };
  pending_commands = entry 9 ∷ [];
}

meets_acks : (j : ℕ) (x : ℕ × Ack) → get_elem? acks j ≡ some x → get acks x.0 ≡ some x.1
unfolding get
meets_acks zero x h = ground (arith, h)
meets_acks (suc zero) x h = ground (arith, h)
meets_acks (suc (suc j)) x h = ground (arith, h)

proposal-greatest_example :
    (x : ℕ × Ack) × (get acks x.0 ≡ some x.1)
    × (proposal hash order choosing ≡ x.1.log ++ entry 9 ∷ [])
    × Every (λ y. NotBelow x.1.last y.1.last) acks
proposal-greatest_example =
    proposal-greatest hash order choosing 0 (0, first_ack) (λ P h. h) meets_acks refl refl
