-- ===== src/Rsl/Handlers/Status.antt =====
-- The handlers of status messages, in rsl/algo.go.
use raft_rl_test.Base.{
  ℕ, ◌+◌, ◌%◌, Bool, false, ◌&&◌, ◌||◌, List, [], ◌∷◌, some, none, length, get_elem?, select,
  if◌then◌else◌, ◌==◌, ltb, leb, map,
}
use raft_rl_test.Base.Int.{pos, is_max_int, ltb_ℤ, add_int}
use raft_rl_test.Base.Assoc.{put}
use raft_rl_test.Rsl.Data.{is_initializing, Proposal, RemoteState, Message, message, status_resp}
use raft_rl_test.Rsl.Node.{Node, send, is_majority, learn_votes, stabilize, prepare}

abbrev pub status_reply : Node → Message → Message
status_reply n m = record (message status_resp) {
  to = m.from;
  ballot = n.max_accepted_proposal.ballot;
  decree = n.max_accepted_proposal.decree;
  timestamp = n.last_chosen_time;
}

unfoldable pub handle_status_request : Node → Message → Node
handle_status_request n m = send n (status_reply n m)

-- xs[rand.Intn(len(xs))], for the draw `r`; the code draws from a list that is not empty.
abbrev pub draw : ℕ → List ℕ → ℕ
draw r xs = elim (get_elem? xs (r % length xs)) [ none ↦ 0 | some x ↦ x ]

-- The keys of the remote states that pass a test.
abbrev pub nodes_where : (RemoteState → Bool) → List (ℕ × RemoteState) → List ℕ
nodes_where p m = map (λ e. e.0) (select (λ e. p e.1) m)

-- The loop that keeps the greatest LastChosenTime.
abbrev pub latest_chosen : ℕ → List (ℕ × RemoteState) → ℕ
latest_chosen most [] = most
latest_chosen most ((k, rs) ∷ m) =
    latest_chosen (if ltb most rs.last_chosen_time then rs.last_chosen_time else most) m

-- Sets the next election, if none is set, from the latest time at which another node chose.
unfoldable pub set_election_time : Node → Node
set_election_time n =
    let chosen = latest_chosen 0 n.remote_states in
    if is_max_int n.next_election_time
    then record n {
      next_election_time =
          add_int (pos (if ltb n.ticks chosen then n.ticks else chosen))
            n.config.base_election_delay;
    }
    else n

-- The end of handleStatusResponse: run for primary if the election is due, else follow.
unfoldable pub run_or_follow : Node → Node
run_or_follow n =
    if ltb_ℤ n.next_election_time (pos n.ticks) || n.max_prepared_ballot.node == n.id
    then prepare n
    else stabilize n false

-- Learns from one of the listed nodes, if there is one.
unfoldable pub learn_or : List ℕ → ℕ → Node → Node → Node
learn_or [] r n otherwise = otherwise
learn_or (x ∷ xs) r n otherwise = learn_votes n (draw r (x ∷ xs))

-- A node that is ahead of the proposal accepted last.
abbrev pub is_ahead : Proposal → RemoteState → Bool
is_ahead p rs =
    (rs.max_chosen == p.decree && ltb p.ballot.num rs.max_ballot.num)
    || (ltb p.decree rs.max_chosen && leb p.ballot.num rs.max_ballot.num)

-- A majority has answered and no cached proposal waits: learn from a node that is ahead, or elect.
unfoldable pub catch_up : Node → ℕ → Node
unfolding learn_or
catch_up n r =
    learn_or (nodes_where (is_ahead n.max_accepted_proposal) n.remote_states) r n
      (run_or_follow (set_election_time n))

-- The same with the first of the cached proposals looked at first.
unfoldable pub status_majority : List Proposal → Node → ℕ → Node
unfolding learn_or
status_majority [] n r = catch_up n r
status_majority (first ∷ _) n r =
    if ltb first.decree n.max_accepted_proposal.decree
    then n
    else learn_or (nodes_where (λ rs. leb first.decree rs.max_chosen) n.remote_states) r n
        (catch_up n r)

unfoldable pub count_status : Node → Message → Node
count_status n m = record n { remote_states = put n.remote_states m.from remote }
  where
    remote : RemoteState
    remote = record {
      node = m.from;
      max_ballot = m.ballot;
      max_chosen = m.decree;
      last_chosen_time = m.timestamp;
    }

unfoldable pub tally_status : Node → ℕ → Node
tally_status n r =
    if is_majority n (1 + length n.remote_states) then status_majority n.proposal_q n r else n

-- `r` is the draw of rand.Intn.
unfoldable pub handle_status_response : Node → Message → ℕ → Node
unfolding count_status tally_status
handle_status_response n m r =
    if is_initializing n.state
    then tally_status (count_status n m) r
    else if leb n.max_accepted_proposal.ballot.num m.ballot.num
        && m.decree == n.max_accepted_proposal.decree
        && length n.proposal_q == 0
    then learn_votes n m.from
    else n
