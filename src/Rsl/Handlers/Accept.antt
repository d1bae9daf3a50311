-- ===== src/Rsl/Handlers/Accept.antt =====
-- The handlers of accept messages, in rsl/algo.go.
use raft_rl_test.Base.{
  ℕ, ◌+◌, true, false, not, ◌&&◌, ◌||◌, List, [], ◌∷◌, ◌++◌, Option, some, none, length, get_last?,
  if◌then◌else◌, ◌==◌, ltb, leb,
}
use raft_rl_test.Base.Int.{pos, max_int}
use raft_rl_test.Base.Assoc.{put}
use raft_rl_test.Rsl.Data.{
  is_initializing, is_stable, Command, Proposal, RemoteState, Message, message, accept_resp,
}
use raft_rl_test.Rsl.Node.{
  Node, send, is_majority, initialize, log_proposal, stabilize, add_to_execution_queue, advance_to,
}
use raft_rl_test.Rsl.Handlers.Replies.{proposal_of, refuse}
use raft_rl_test.Rsl.Handlers.Prepare.{raise_ballot}

unfoldable pub handle_not_accept : Node → Message → Node
unfolding raise_ballot
handle_not_accept n m =
    if ltb m.decree n.max_accepted_proposal.decree
      || ltb m.ballot.num n.max_accepted_proposal.ballot.num
      || is_initializing n.state
    then n
    else if ltb n.max_accepted_proposal.decree m.decree
    then initialize n
    else if ltb n.max_prepared_ballot.num m.ballot.num
    then stabilize (raise_ballot n m.ballot) false
    else n

-- The queue of cached proposals with one more, emptied first if it is full.
abbrev pub cached : Node → Message → List Proposal
cached n m =
    (if length n.proposal_q == n.config.max_cached_length then [] else n.proposal_q)
    ++ proposal_of m ∷ []

-- The initializing branch of handleAcceptRequest: proposals are cached until the node has caught
-- up. The first argument is the last of those cached so far.
unfoldable pub cache_behind : Option Proposal → Node → Message → Node
unfolding refuse
cache_behind none n m = record n { proposal_q = n.proposal_q ++ proposal_of m ∷ [] }
cache_behind (some last) n m =
    if ltb m.decree last.decree || ltb m.ballot.num last.ballot.num
    then if ltb m.decree n.max_accepted_proposal.decree
        || ltb m.ballot.num n.max_accepted_proposal.ballot.num
      then refuse n m accept_resp
      else n
    else if m.decree == last.decree && m.ballot.num == last.ballot.num
    then n
    else record n {
      proposal_q =
          if (m.decree == last.decree && ltb last.ballot.num m.ballot.num)
            || (m.decree == last.decree + 1 && m.ballot.num == last.ballot.num)
          then cached n m
          else proposal_of m ∷ [];
    }

unfoldable pub cache_proposal : Node → Message → Node
unfolding cache_behind
cache_proposal n m = cache_behind (get_last? n.proposal_q) n m

abbrev pub accept_reply : Message → Message
accept_reply m = record (message accept_resp) {
  to = m.from;
  accept = true;
  ballot = m.ballot;
  decree = m.decree;
}

unfoldable pub count_accept : Node → Message → Node
count_accept n m = record n { remote_states = put n.remote_states m.from remote }
  where
    remote : RemoteState
    remote = record {
      node = m.from;
      max_ballot = m.ballot;
      max_chosen = m.decree;
      last_chosen_time = 0;
    }

module _ (decode_config : Command → Option (List ℕ)) where
  -- Takes the proposal of an accept request, after executing the previous decree if it is the next.
  unfoldable pub take_proposal : Node → Message → Node
  take_proposal n m =
      let n' = log_proposal (advance_to decode_config n m.decree) (proposal_of m) in
      stabilize (send n' (accept_reply m)) false

  -- A proposal with the decree and the ballot of the one accepted last ends the call in Go too,
  -- whether or not the commands agree.
  unfoldable pub handle_accept_request : Node → Message → Node
  unfolding take_proposal cache_proposal refuse
  handle_accept_request n m =
      if not (m.ballot.node == m.from) || m.from == n.id
      then n
      else if ltb n.max_prepared_ballot.num n.max_accepted_proposal.ballot.num
      then n
      else if is_initializing n.state
      then cache_proposal n m
      else if ltb m.decree n.max_accepted_proposal.decree
          || ltb m.ballot.num n.max_prepared_ballot.num
      then refuse n m accept_resp
      else if m.decree == n.max_accepted_proposal.decree
          && m.ballot.num == n.max_accepted_proposal.ballot.num
      then n
      else if (m.decree == n.max_accepted_proposal.decree
            && leb n.max_accepted_proposal.ballot.num m.ballot.num)
          || (m.decree == n.max_accepted_proposal.decree + 1
              && m.ballot.num == n.max_accepted_proposal.ballot.num)
      then take_proposal n m
      else initialize n

  -- With a majority of acceptances the proposal is decided.
  unfoldable pub tally_accepts : Node → Node
  tally_accepts n =
      if is_majority n (length n.remote_states + 1)
      then record (add_to_execution_queue decode_config n n.max_accepted_proposal) {
        ready_to_propose = true;
        action_timeout = pos max_int;
      }
      else n

  unfoldable pub handle_accept_response : Node → Message → Node
  unfolding tally_accepts count_accept
  handle_accept_response n m =
      if is_stable n.state
        && n.max_prepared_ballot.num == m.ballot.num
        && n.max_accepted_proposal.decree == m.decree
        && n.max_prepared_ballot.node == n.id
        && not n.ready_to_propose
        && n.max_prepared_ballot.num == n.max_accepted_proposal.ballot.num
      then tally_accepts (count_accept n m)
      else n
