-- ===== src/Rsl/Handlers/Prepare.antt =====
-- The handlers of prepare messages, in rsl/algo.go.
use raft_rl_test.Base.{◌+◌, true, false, ◌&&◌, ◌||◌, length, if◌then◌else◌, ◌==◌, ltb}
use raft_rl_test.Base.Int.{pos, add_int, max_ℤ}
use raft_rl_test.Base.Assoc.{put}
use raft_rl_test.Rsl.Data.{
  is_initializing, is_preparing, Ballot, Proposal, promise_entry, log_add, RemoteState, Message,
  message, accept_req, prepare_resp,
}
use raft_rl_test.Rsl.Node.{Node, broadcast, send, is_majority, initialize, log_proposal, stabilize}
use raft_rl_test.Rsl.Handlers.Replies.{refuse}

abbrev pub promise_reply : Node → Message → Message
promise_reply n m = record (message prepare_resp) {
  to = m.from;
  accept = true;
  ballot = m.ballot;
  proposal_ballot = n.max_accepted_proposal.ballot;
  decree = n.max_accepted_proposal.decree;
  command = n.max_accepted_proposal.command;
}

-- The state with a higher ballot promised, and the promise logged.
unfoldable pub raise_ballot : Node → Ballot → Node
unfolding log_add
raise_ballot n b = record n {
  max_prepared_ballot = b;
  log = log_add n.log (promise_entry b);
  next_election_time =
      add_int (max_ℤ (pos n.ticks) n.next_election_time) n.config.new_leader_grace_period;
}

unfoldable pub promise : Node → Message → Node
unfolding raise_ballot send
promise n m = send (raise_ballot n m.ballot) (promise_reply n m)

unfoldable pub handle_prepare_request : Node → Message → Node
unfolding refuse promise
handle_prepare_request n m =
    if ltb m.ballot.num n.max_prepared_ballot.num || ltb m.decree n.max_accepted_proposal.decree
    then refuse n m prepare_resp
    else if is_initializing n.state
    then n
    else let n' = if ltb n.max_prepared_ballot.num m.ballot.num then promise n m else n in
      if ltb n.max_accepted_proposal.decree m.decree then initialize n' else stabilize n' false

-- The accept request for a proposal.
abbrev pub accept_request : Proposal → Message
accept_request p = record (message accept_req) {
  ballot = p.ballot;
  decree = p.decree;
  command = p.command;
}

-- The freshest old proposal, under the ballot that the node prepared.
abbrev pub freshest : Node → Proposal
freshest n = record n.old_freshest_proposal { ballot = n.max_prepared_ballot }

-- The majority of handlePrepareResponse: propose the freshest old proposal under the new ballot.
unfoldable pub become_primary : Node → Node
become_primary n =
    let p = freshest n in
    let n' = broadcast (record n { old_freshest_proposal = p }) (accept_request p) in
    stabilize (record (log_proposal n' p) { ready_to_propose = false }) true

-- A response counts, and its proposal is kept if it is fresher than the freshest so far.
unfoldable pub count_promise : Node → Message → Node
count_promise n m = record n {
  old_freshest_proposal =
      if m.decree == n.old_freshest_proposal.decree
        && ltb n.old_freshest_proposal.ballot.num m.proposal_ballot.num
      then fresher
      else n.old_freshest_proposal;
  remote_states = put n.remote_states m.from remote;
}
  where
    fresher : Proposal
    fresher = record { ballot = m.proposal_ballot; decree = m.decree; command = m.command }

    remote : RemoteState
    remote = record {
      node = m.from;
      max_ballot = m.proposal_ballot;
      max_chosen = m.decree;
      last_chosen_time = 0;
    }

-- With a majority of promises the node becomes primary.
unfoldable pub tally_promises : Node → Node
unfolding become_primary
tally_promises n = if is_majority n (length n.remote_states + 1) then become_primary n else n

unfoldable pub handle_prepare_response : Node → Message → Node
unfolding tally_promises count_promise
handle_prepare_response n m =
    if is_preparing n.state
      && n.max_prepared_ballot.num == m.ballot.num
      && n.max_accepted_proposal.decree == m.decree
      && m.ballot.node == n.id
    then tally_promises (count_promise n m)
    else n
