-- ===== src/Rsl/Grows/Handlers.antt =====
-- The handlers and the clock let a Node grow: its log extends and its votes ascend.
use raft_rl_test.Base.{
  ℕ, ◌+◌, ◌≡◌, refl, ◌∙◌, true, false, ◌&&◌, ◌||◌, List, [], ◌∷◌, arith, if◌then◌else◌, ltb, leb,
  ◌==◌, IsPrefix-refl, IsPrefix-append, if-both, if-cases, length,
}
use raft_rl_test.Base.Int.{is_max_int, ltb_ℤ, pos}
use raft_rl_test.Rsl.Data.{
  Ballot, Proposal, log_add, promise_entry, Message, MessageType, prepare_resp, is_initializing,
  is_preparing, no_ballot, no_proposal,
}
use raft_rl_test.Rsl.Node.{Node, broadcast, is_majority}
use raft_rl_test.Rsl.Handlers.{
  refuse, handle_status_request, handle_status_response, handle_prepare_request,
  handle_prepare_response, handle_not_accept, set_election_time, run_or_follow, promise,
  raise_ballot, learn_or, tally_status, count_status, status_reply, refusal, promise_reply,
  accept_request, freshest, is_ahead, catch_up, status_majority, draw, become_primary,
  count_promise, tally_promises, nodes_where,
}
use raft_rl_test.Rsl.Durable.{last_accepted-append, highest-append}
use raft_rl_test.Rsl.Grows.Votes.{is_vote}
use raft_rl_test.Rsl.Grows.Base.{
  Grows, Grows-trans, Grows-refl, silent, quiet, broadcast-Grows, send-Grows, initialize-Grows,
  log_proposal-Grows, stabilize-Grows, learn_votes-Grows, prepare-Grows,
}

pub handle_status_request-Grows : (n : Node) (m : Message) → Grows n (handle_status_request n m)
unfolding handle_status_request
handle_status_request-Grows n m = send-Grows n (status_reply n m) (λ e. cc)

set_election_time-Grows : (n : Node) → Grows n (set_election_time n)
unfolding set_election_time
set_election_time-Grows n =
    if-both (Grows n) (is_max_int n.next_election_time)
      (quiet n _ refl refl refl refl refl refl refl) (Grows-refl n)

run_or_follow-Grows : (n : Node) → Grows n (run_or_follow n)
unfolding run_or_follow
run_or_follow-Grows n =
    if-both (Grows n)
      (ltb_ℤ n.next_election_time (pos n.ticks) || n.max_prepared_ballot.node == n.id)
      (prepare-Grows n) (stabilize-Grows n false)

learn_or-Grows :
    (xs : List ℕ) (r : ℕ) (n otherwise : Node)
    → Grows n otherwise
    → Grows n (learn_or xs r n otherwise)
unfolding learn_or
learn_or-Grows [] r n otherwise g = g
learn_or-Grows (x ∷ xs) r n otherwise g = learn_votes-Grows n (draw r (x ∷ xs))

catch_up-Grows : (n : Node) (r : ℕ) → Grows n (catch_up n r)
unfolding catch_up
catch_up-Grows n r =
    learn_or-Grows (nodes_where (is_ahead n.max_accepted_proposal) n.remote_states) r n _
      (Grows-trans (set_election_time-Grows n) (run_or_follow-Grows (set_election_time n)))

status_majority-Grows : (q : List Proposal) (n : Node) (r : ℕ) → Grows n (status_majority q n r)
unfolding status_majority
status_majority-Grows [] n r = catch_up-Grows n r
status_majority-Grows (first ∷ q) n r =
    if-both (Grows n) (ltb first.decree n.max_accepted_proposal.decree) (Grows-refl n) (
      learn_or-Grows (nodes_where (λ rs. leb first.decree rs.max_chosen) n.remote_states) r n _
        (catch_up-Grows n r))

tally_status-Grows : (n : Node) (r : ℕ) → Grows n (tally_status n r)
unfolding tally_status
tally_status-Grows n r =
    if-both (Grows n) (is_majority n (1 + length n.remote_states))
      (status_majority-Grows n.proposal_q n r) (Grows-refl n)

pub handle_status_response-Grows :
    (n : Node) (m : Message) (r : ℕ) → Grows n (handle_status_response n m r)
unfolding handle_status_response count_status
handle_status_response-Grows n m r =
    if-both (Grows n) (is_initializing n.state)
      (Grows-trans (quiet n _ refl refl refl refl refl refl refl)
        (tally_status-Grows (count_status n m) r))
      (if-both (Grows n)
        (leb n.max_accepted_proposal.ballot.num m.ballot.num
          && m.decree == n.max_accepted_proposal.decree
          && length n.proposal_q == 0)
        (learn_votes-Grows n m.from) (Grows-refl n))

pub refuse-Grows :
    (n : Node) (m : Message) (t : MessageType)
    → is_vote (refusal n m t) ≡ false
    → Grows n (refuse n m t)
unfolding refuse
refuse-Grows n m t h = send-Grows n (refusal n m t) (λ e. cc)

raise_ballot-Grows :
    (n : Node) (b : Ballot)
    → ltb n.max_prepared_ballot.num b.num ≡ true
    → Grows n (raise_ballot n b)
unfolding raise_ballot log_add
raise_ballot-Grows n b h =
    silent n _ refl refl (IsPrefix-append _ _) (IsPrefix-refl _) refl (ground arith) (λ v. (
      last_accepted-append no_proposal n.log.entries (promise_entry b) ∙ v.0,
      ground (arith, highest-append no_ballot n.log.entries (promise_entry b)),
      v.2,
    ))

promise-Grows :
    (n : Node) (m : Message)
    → ltb n.max_prepared_ballot.num m.ballot.num ≡ true
    → Grows n (promise n m)
unfolding promise
promise-Grows n m h =
    Grows-trans (raise_ballot-Grows n m.ballot h)
      (send-Grows (raise_ballot n m.ballot) (promise_reply n m) (λ e. refl))

pub handle_prepare_request-Grows : (n : Node) (m : Message) → Grows n (handle_prepare_request n m)
unfolding handle_prepare_request
handle_prepare_request-Grows n m =
    if-both (Grows n)
      (ltb m.ballot.num n.max_prepared_ballot.num || ltb m.decree n.max_accepted_proposal.decree)
      (refuse-Grows n m prepare_resp refl)
      (if-both (Grows n) (is_initializing n.state) (Grows-refl n) (
        if-both (Grows n) (ltb n.max_accepted_proposal.decree m.decree)
          (Grows-trans promised (initialize-Grows _))
          (Grows-trans promised (stabilize-Grows _ false))))
  where
    promised : Grows n (if ltb n.max_prepared_ballot.num m.ballot.num then promise n m else n)
    promised =
        if-cases (Grows n) (ltb n.max_prepared_ballot.num m.ballot.num) (promise-Grows n m)
          (λ h. Grows-refl n)

become_primary-Grows : (n : Node) → Grows n (become_primary n)
unfolding become_primary
become_primary-Grows n = Grows-trans proposed (
    Grows-trans (log_proposal-Grows n' (freshest n))
      (Grows-trans (quiet _ _ refl refl refl refl refl refl refl) (stabilize-Grows _ true)))
  where
    n' : Node
    n' = broadcast (record n { old_freshest_proposal = freshest n }) (accept_request (freshest n))

    proposed : Grows n n'
    proposed = Grows-trans (quiet n _ refl refl refl refl refl refl refl) (
        broadcast-Grows (record n { old_freshest_proposal = freshest n })
          (accept_request (freshest n)) (λ e. refl))

tally_promises-Grows : (n : Node) → Grows n (tally_promises n)
unfolding tally_promises
tally_promises-Grows n =
    if-both (Grows n) (is_majority n (length n.remote_states + 1)) (become_primary-Grows n)
      (Grows-refl n)

pub handle_prepare_response-Grows : (n : Node) (m : Message) → Grows n (handle_prepare_response n m)
unfolding handle_prepare_response count_promise
handle_prepare_response-Grows n m =
    if-both (Grows n)
      (is_preparing n.state
        && n.max_prepared_ballot.num == m.ballot.num
        && n.max_accepted_proposal.decree == m.decree
        && m.ballot.node == n.id)
      (Grows-trans (quiet n _ refl refl refl refl refl refl refl)
        (tally_promises-Grows (count_promise n m)))
      (Grows-refl n)

pub handle_not_accept-Grows : (n : Node) (m : Message) → Grows n (handle_not_accept n m)
unfolding handle_not_accept
handle_not_accept-Grows n m =
    if-both (Grows n)
      (ltb m.decree n.max_accepted_proposal.decree
        || ltb m.ballot.num n.max_accepted_proposal.ballot.num
        || is_initializing n.state)
      (Grows-refl n)
      (if-both (Grows n) (ltb n.max_accepted_proposal.decree m.decree) (initialize-Grows n) (
        if-cases (Grows n) (ltb n.max_prepared_ballot.num m.ballot.num)
          (λ h. Grows-trans (raise_ballot-Grows n m.ballot h) (stabilize-Grows _ false))
          (λ h. Grows-refl n)))
