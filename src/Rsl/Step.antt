-- ===== src/Rsl/Step.antt =====
-- The rest of rsl/algo.go: handleFetchResponse, `Step`, the clock and the client's side.
use mathlib.Core.List.{head?}
use raft_rl_test.Base.{
  ℕ, ◌+◌, Bool, true, false, not, ◌&&◌, ◌||◌, List, [], ◌∷◌, Option, some, none, length, ◌++◌,
  if◌then◌else◌, ◌==◌, ltb, leb,
}
use raft_rl_test.Base.Int.{pos, ltb_ℤ, add_int}
use raft_rl_test.Rsl.Data.{
  is_initializing, is_preparing, is_stable, is_stable_primary, is_inactive, Command, Proposal,
  Message, MessageType, accept_req, accept_resp, status_req, status_resp, prepare_req, prepare_resp,
  fetch_req, fetch_resp, command_message,
}
use raft_rl_test.Rsl.Node.{
  Node, broadcast, initialize, log_proposal, stabilize, prepare, advance, advance_to,
}
use raft_rl_test.Rsl.Handlers.{
  handle_status_request, handle_status_response, handle_prepare_request, handle_prepare_response,
  handle_not_accept, handle_accept_request, handle_accept_response, handle_fetch_request,
  accept_request,
}

-- n.proposalQ[0]
abbrev pub min_needed : Node → Option Proposal
min_needed n = head? n.proposal_q

-- !haveMinNeeded || minNeeded.Decree <= m.Decree
abbrev pub caught_up : Option Proposal → Message → Bool
caught_up none m = true
caught_up (some p) m = leb p.decree m.decree

-- The two tests of handleFetchResponse on a fetched proposal.
abbrev pub is_stale : Node → Proposal → Bool
is_stale n p =
    leb p.decree n.max_accepted_proposal.decree
    || leb p.ballot.num n.max_accepted_proposal.ballot.num

abbrev pub is_in_order : Node → Proposal → Bool
is_in_order n p =
    (p.decree == n.max_accepted_proposal.decree
      && leb n.max_accepted_proposal.ballot.num p.ballot.num)
    || (p.decree == n.max_accepted_proposal.decree + 1
        && p.ballot.num == n.max_accepted_proposal.ballot.num)

module _ (decode_config : Command → Option (List ℕ)) where
  -- The proposals cached while initializing are logged in turn.
  unfoldable pub replay : Node → List Proposal → Node
  replay n [] = n
  replay n (p ∷ ps) = replay (log_proposal (advance_to decode_config n p.decree) p) ps

  -- A fetched proposal of the next decree with a higher ballot: its command is logged under the
  -- ballot accepted last.
  unfoldable pub fill_gap : Node → Proposal → Node
  fill_gap n p =
      if p.decree == n.max_accepted_proposal.decree + 1
        && ltb n.max_accepted_proposal.ballot.num p.ballot.num
      then log_proposal (advance decode_config n) (record {
        ballot = n.max_accepted_proposal.ballot;
        decree = n.max_accepted_proposal.decree + 1;
        command = p.command;
      })
      else n

  -- The loop over the fetched proposals, with `done` for the test that ends it.
  unfoldable pub learn : Bool → Node → List Proposal → Node
  unfolding replay fill_gap
  learn done n [] = initialize n
  learn done n (p ∷ ps) =
      let filled = fill_gap n p in
      let logged = log_proposal (advance_to decode_config filled p.decree) p in
      let rest = learn done logged ps in
      if is_stale n p
      then n
      else if not (is_in_order filled p)
      then filled
      else if done
      then stabilize (replay logged logged.proposal_q) false
      else rest

  unfoldable pub handle_fetch_response : Node → Message → Node
  unfolding learn
  handle_fetch_response n m =
      if n.learning_from == 0 || not (n.learning_from == m.from)
      then n
      else record (learn (caught_up (min_needed n) m) n m.proposals) { learning_from = 0 }

  -- The `switch` of `Step`, on the message's type and its `Accept` flag.
  unfoldable pub dispatch : MessageType → Bool → Node → Message → ℕ → Node
  dispatch accept_req _ n m r = handle_accept_request decode_config n m
  dispatch accept_resp false n m r = handle_not_accept n m
  dispatch accept_resp true n m r = handle_accept_response decode_config n m
  dispatch fetch_req _ n m r = handle_fetch_request n m
  dispatch fetch_resp _ n m r = handle_fetch_response n m
  dispatch prepare_req _ n m r = handle_prepare_request n m
  dispatch prepare_resp false n m r = handle_not_accept n m
  dispatch prepare_resp true n m r = handle_prepare_response n m
  dispatch status_req _ n m r = handle_status_request n m
  dispatch status_resp _ n m r = handle_status_response n m r
  dispatch command_message _ n m r = n

  -- `r` is what rand.Intn draws, should the handler draw.
  unfoldable pub step : Node → Message → ℕ → Node
  unfolding dispatch
  step n m r = if is_inactive n.state then n else dispatch m.type m.accept n m r

unfoldable pub propose : Node → Command → Node
propose n c = record n { command_q = n.command_q ++ c ∷ [] }

-- The new proposal of sendNextCommand: the first queued command under the next decree.
unfoldable pub propose_command : Node → Command → List Command → Node
propose_command n c rest =
    let p : Proposal = record {
      ballot = n.max_accepted_proposal.ballot;
      decree = n.max_accepted_proposal.decree + 1;
      command = c;
    } in
    let n' = log_proposal (broadcast n (accept_request p)) p in
    record n' { command_q = rest; ready_to_propose = false }

unfoldable pub next_or_retry : Bool → List Command → Node → Node
unfolding propose_command
next_or_retry true (c ∷ rest) n = propose_command n c rest
next_or_retry _ _ n = broadcast n (accept_request n.max_accepted_proposal)

unfoldable pub send_next_command : Node → Node
unfolding next_or_retry
send_next_command n =
    if not (is_stable_primary n.state)
      || not (n.max_prepared_ballot.node == n.id)
      || not (n.max_prepared_ballot.num == n.max_accepted_proposal.ballot.num)
    then n
    else let n' = next_or_retry n.ready_to_propose n.command_q (record n { remote_states = [] }) in
      record n' { action_timeout = add_int (pos n.ticks) n.config.proposal_retry_interval }

-- The three checks that `Tick` makes in turn.
unfoldable pub check_election : Node → Node
check_election n =
    if is_stable n.state
      && not (n.max_prepared_ballot.node == n.id)
      && ltb_ℤ n.next_election_time (pos n.ticks)
    then initialize n
    else n

unfoldable pub check_heart_beat : Node → Node
unfolding send_next_command
check_heart_beat n =
    if is_stable n.state
      && n.max_prepared_ballot.node == n.id
      && n.ready_to_propose
      && (ltb (n.last_chosen_time + n.config.heart_beat_interval) n.ticks
          || not (length n.command_q == 0))
    then send_next_command n
    else n

unfoldable pub check_action : Node → Node
unfolding send_next_command
check_action n =
    if not (ltb_ℤ n.action_timeout (pos n.ticks))
    then n
    else if is_stable_primary n.state && n.max_prepared_ballot.node == n.id
    then send_next_command n
    else if is_initializing n.state
    then initialize n
    else if is_preparing n.state
    then prepare n
    else n

unfoldable pub tick : Node → Node
unfolding check_election check_heart_beat check_action
tick n =
    let n' = record n { ticks = n.ticks + 1 } in
    if ltb_ℤ n'.no_progress_time (pos n'.ticks)
    then n'
    else check_action (check_heart_beat (check_election n'))

-- Ready: the messages collected, and the node with none.
unfoldable pub ready : Node → Node × List Message
ready n = (record n { pending_messages_to_send = [] }, n.pending_messages_to_send)
