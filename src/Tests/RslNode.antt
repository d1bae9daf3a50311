-- ===== src/Tests/RslNode.antt =====
-- Runs of the RSL node, and its theorems at concrete nodes.
use mathlib.Core.Bool.{true}
use raft_rl_test.Base.{ℕ, ◌≤◌, ◌≡◌, refl, List, [], ◌∷◌, Option, none, arith, inl, ltb}
use raft_rl_test.Base.Assoc.{put, set_of, has}
use raft_rl_test.Rsl.Data.{
  Command, Message, message, Ballot, NodeConfig, RslConfig, status_req, status_resp, accept_req,
  accept_resp, prepare_req, prepare_resp, stable_primary, quorum_size, initial_config, no_command,
}
use raft_rl_test.Rsl.Node.{
  Node, new_node, start, is_majority, prepare, stabilize, log_proposal, add_to_execution_queue,
  copies_to,
}
use raft_rl_test.Rsl.Handlers.{
  handle_status_response, status_majority, catch_up, run_or_follow, set_election_time,
  handle_prepare_request, handle_prepare_response, handle_accept_request, handle_accept_response,
  count_accept,
}
use raft_rl_test.Rsl.Step.{step, ready, tick, propose}
use raft_rl_test.Rsl.Run.{Call, ticks, receives, collects, boot, run}
use raft_rl_test.Rsl.Run.Safety.{Extends, run-Extends, boot-votes_ascend}
use raft_rl_test.Rsl.Acceptor.{IsOffered}
use raft_rl_test.Rsl.Decisions.{IsDeciding}
use raft_rl_test.Rsl.Outcome.{Outcome, accept_request-Outcome}
use raft_rl_test.Rsl.Repeats.{accept-retry_silent, decided_twice}
use raft_rl_test.Rsl.Quorum.{quorums_meet}

-- No command is a configuration.
abbrev plain : Command → Option (List ℕ)
plain c = none

abbrev config : NodeConfig
config = record {
  id = 1;
  peers = 1 ∷ 2 ∷ 3 ∷ [];
  heart_beat_interval = 2;
  no_progress_timeout = 100;
  base_election_delay = 0;
  initialize_retry_interval = 3;
  new_leader_grace_period = 5;
  vote_retry_interval = 5;
  prepare_retry_interval = 5;
  max_cached_length = 10;
  proposal_retry_interval = 5;
}

abbrev status_of : ℕ → Message
status_of p = record (message status_resp) { from = p; to = 1 }

abbrev promise_of : ℕ → Message
promise_of p = record (message prepare_resp) {
  from = p;
  to = 1;
  accept = true;
  ballot = record { num = 1; node = 1 };
}

abbrev accepted_by : ℕ → ℕ → Message
accepted_by p d = record (message accept_resp) {
  from = p;
  to = 1;
  accept = true;
  ballot = record { num = 1; node = 1 };
  decree = d;
}

-- Node 1 is elected with the help of node 2, and the empty proposal is decided.
abbrev election : List Call
election =
    ticks
    ∷ receives (status_of 2) 0
    ∷ receives (promise_of 2) 0
    ∷ collects
    ∷ receives (accepted_by 2 0) 0
    ∷ []

-- The node after some calls; the line opens all that a run computes with.
after : List Call → Node
unfolding run boot new_node start step ready tick put quorum_size initial_config is_majority set_of
    handle_status_response status_majority catch_up run_or_follow set_election_time prepare
    stabilize handle_prepare_response log_proposal handle_accept_response add_to_execution_queue
    handle_accept_request handle_prepare_request propose count_accept copies_to
after cs = (run plain (boot config) cs).node

elected : (after election).state ≡ stable_primary
unfolding after
elected = refl

elected_decides : (after election).log.decided ≡ no_command ∷ []
unfolding after
elected_decides = refl

-- The theorems of Run.Safety.
run-Extends_example : Extends (boot config) (run plain (boot config) election)
run-Extends_example = run-Extends plain (boot config) election

abbrev ballot_of : ℕ → Ballot
ballot_of p = record { num = 1; node = p }

-- What the elected node has sent to a peer: two votes for ballot 1.
abbrev prepare_to : ℕ → Message
prepare_to p = record (message prepare_req) { from = 1; to = p; ballot = ballot_of 1 }

abbrev accept_to : ℕ → Message
accept_to p = record (message accept_req) { from = 1; to = p; ballot = ballot_of 1 }

abbrev status_to : ℕ → Message
status_to p = record (message status_req) { from = 1; to = p }

boot-votes_ascend_example : (prepare_to 2).ballot.num ≤ (accept_to 2).ballot.num
unfolding after
boot-votes_ascend_example =
    boot-votes_ascend plain config election (status_to 2 ∷ status_to 3 ∷ []) (prepare_to 2)
      (prepare_to 3 ∷ []) (accept_to 2) (accept_to 3 ∷ []) refl refl refl

-- A primary that waits for the second acceptance of decree 0, and the decision.
abbrev waiting : Node
waiting = after (ticks ∷ receives (status_of 2) 0 ∷ receives (promise_of 2) 0 ∷ [])

waiting-IsDeciding : IsDeciding waiting (accepted_by 2 0)
unfolding after
waiting-IsDeciding = record {
  stable = refl;
  ballot = refl;
  decree = refl;
  own = refl;
  waiting = refl;
  in_force = refl;
  majority = refl;
}

-- Node 2's proposals, under ballot 2.
abbrev offer_of : ℕ → Command → Message
offer_of d c = record (message accept_req) {
  from = 2;
  to = 1;
  ballot = record { num = 2; node = 2 };
  decree = d;
  command = c;
}

waiting-IsOffered : (d : ℕ) (c : Command) → IsOffered waiting (offer_of d c)
unfolding after
waiting-IsOffered d c = record {
  owner = refl;
  foreign = omega arith;
  ready = refl;
  sound = omega arith;
}

accept_request-Outcome_example :
    Outcome waiting
      (offer_of 7 no_command)
      (handle_accept_request plain waiting (offer_of 7 no_command))
accept_request-Outcome_example =
    accept_request-Outcome plain waiting (offer_of 7 no_command) (waiting-IsOffered 7 no_command)

accept-retry_silent_example :
    let n' = handle_accept_request plain waiting (offer_of 0 no_command) in
    handle_accept_request plain n' (offer_of 0 no_command) ≡ n'
unfolding after
accept-retry_silent_example =
    accept-retry_silent plain waiting (offer_of 0 no_command) (waiting-IsOffered 0 no_command)
      (inl (refl, omega arith)) (omega arith)

decided_twice_example :
    (handle_accept_request plain
      (handle_accept_request plain
        (handle_accept_response plain waiting (accepted_by 2 0))
        (offer_of 0 no_command))
      (offer_of 1 no_command)).log.decided
    ≡ no_command ∷ no_command ∷ []
unfolding after
decided_twice_example =
    decided_twice plain waiting (accepted_by 2 0) (offer_of 0 no_command) (offer_of 1 no_command)
      waiting-IsDeciding refl (omega arith) refl refl (omega arith) refl refl refl

abbrev three : RslConfig
three = record { number = 0; initial_decree = 0; members = 1 ∷ 2 ∷ 3 ∷ [] }

quorums_meet_example : (z : ℕ) × (has z three.members ≡ true) × (ltb z 3 ≡ true) × (ltb 1 z ≡ true)
unfolding quorum_size
quorums_meet_example = quorums_meet three (λ z. ltb z 3) (λ z. ltb 1 z) (omega arith) (omega arith)
