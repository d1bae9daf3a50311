-- ===== src/Rsl/Grows/Accept.antt =====
-- The accept and fetch handlers, and `Step`, let a Node grow.
use raft_rl_test.Base.{
  ℕ, ◌+◌, ◌≤◌, ◌≡◌, refl, Bool, true, false, not, ◌&&◌, ◌||◌, List, [], ◌∷◌, Option, some, none,
  arith, ltb, ◌==◌, if-both, if-cases, length, get_last?,
}
use raft_rl_test.Rsl.Data.{
  Command, Proposal, Message, MessageType, accept_req, accept_resp, status_req, status_resp,
  prepare_req, prepare_resp, fetch_req, fetch_resp, command_message, is_initializing, is_inactive,
}
use raft_rl_test.Rsl.Node.{
  Node, is_majority, log_proposal, add_to_execution_queue, advance, advance_to,
}
use raft_rl_test.Rsl.Handlers.{
  handle_accept_request, handle_accept_response, handle_fetch_request, cache_proposal, cache_behind,
  fetch_reply, take_proposal, tally_accepts, count_accept, proposal_of, accept_reply,
}
use raft_rl_test.Rsl.Step.{
  is_stale, is_in_order, min_needed, caught_up, replay, fill_gap, learn, handle_fetch_response,
  dispatch, step,
}
use raft_rl_test.Rsl.Grows.Base.{
  Grows, Grows-trans, Grows-refl, quiet, send-Grows, initialize-Grows, log_proposal-Grows,
  stabilize-Grows, add_to_execution_queue-Grows, advance-Grows, advance_to-Grows,
}
use raft_rl_test.Rsl.Grows.Handlers.{
  handle_status_request-Grows, handle_status_response-Grows, handle_prepare_request-Grows,
  handle_prepare_response-Grows, handle_not_accept-Grows, refuse-Grows,
}

cache_behind-Grows :
    (last : Option Proposal) (n : Node) (m : Message) → Grows n (cache_behind last n m)
unfolding cache_behind
cache_behind-Grows none n m = quiet n _ refl refl refl refl refl refl refl
cache_behind-Grows (some last) n m =
    if-both (Grows n) (ltb m.decree last.decree || ltb m.ballot.num last.ballot.num)
      (if-both (Grows n)
        (ltb m.decree n.max_accepted_proposal.decree
          || ltb m.ballot.num n.max_accepted_proposal.ballot.num)
        (refuse-Grows n m accept_resp refl) (Grows-refl n))
      (if-both (Grows n) (m.decree == last.decree && m.ballot.num == last.ballot.num) (Grows-refl n)
        (quiet n _ refl refl refl refl refl refl refl))

cache_proposal-Grows : (n : Node) (m : Message) → Grows n (cache_proposal n m)
unfolding cache_proposal
cache_proposal-Grows n m = cache_behind-Grows (get_last? n.proposal_q) n m

prepared-log_proposal :
    (n : Node) (p : Proposal)
    → n.max_prepared_ballot.num ≤ p.ballot.num
    → p.ballot.num ≡ (log_proposal n p).max_prepared_ballot.num
unfolding log_proposal
prepared-log_proposal n p h = ground arith

module _ (decode_config : Command → Option (List ℕ)) where
  prepared-advance_to :
      (n : Node) (decree : ℕ)
      → (advance_to decode_config n decree).max_prepared_ballot ≡ n.max_prepared_ballot
  unfolding advance_to advance add_to_execution_queue
  prepared-advance_to n decree = ground arith

  take_proposal-Grows :
      (n : Node) (m : Message)
      → n.max_prepared_ballot.num ≤ m.ballot.num
      → Grows n (take_proposal decode_config n m)
  unfolding take_proposal
  take_proposal-Grows n m h = Grows-trans (advance_to-Grows decode_config n m.decree) (
      Grows-trans (log_proposal-Grows n' (proposal_of m)) (
        Grows-trans (send-Grows (log_proposal n' (proposal_of m)) (accept_reply m) (λ e. in_force))
          (stabilize-Grows _ false)))
    where
      n' : Node
      n' = advance_to decode_config n m.decree

      in_force : m.ballot.num ≡ (log_proposal n' (proposal_of m)).max_prepared_ballot.num
      in_force = prepared-log_proposal n' (proposal_of m) (rw (prepared-advance_to n m.decree) h)

  pub handle_accept_request-Grows :
      (n : Node) (m : Message) → Grows n (handle_accept_request decode_config n m)
  unfolding handle_accept_request
  handle_accept_request-Grows n m =
      if-both (Grows n) (not (m.ballot.node == m.from) || m.from == n.id) (Grows-refl n) (
        if-both (Grows n) (ltb n.max_prepared_ballot.num n.max_accepted_proposal.ballot.num)
          (Grows-refl n)
          (if-both (Grows n) (is_initializing n.state) (cache_proposal-Grows n m) (
            if-cases (Grows n)
              (ltb m.decree n.max_accepted_proposal.decree
                || ltb m.ballot.num n.max_prepared_ballot.num)
              (λ _. refuse-Grows n m accept_resp refl)
              (λ fresh.
                if-both (Grows n)
                  (m.decree == n.max_accepted_proposal.decree
                    && m.ballot.num == n.max_accepted_proposal.ballot.num)
                  (Grows-refl n)
                  (if-both (Grows n) _ (take_proposal-Grows n m (ground arith))
                    (initialize-Grows n))))))

  tally_accepts-Grows : (n : Node) → Grows n (tally_accepts decode_config n)
  unfolding tally_accepts
  tally_accepts-Grows n =
      if-both (Grows n) (is_majority n (length n.remote_states + 1))
        (Grows-trans (add_to_execution_queue-Grows decode_config n n.max_accepted_proposal)
          (quiet _ _ refl refl refl refl refl refl refl))
        (Grows-refl n)

  pub handle_accept_response-Grows :
      (n : Node) (m : Message) → Grows n (handle_accept_response decode_config n m)
  unfolding handle_accept_response count_accept
  handle_accept_response-Grows n m =
      if-both (Grows n) _
        (Grows-trans (quiet n _ refl refl refl refl refl refl refl)
          (tally_accepts-Grows (count_accept n m)))
        (Grows-refl n)

  replay-Grows : (n : Node) (ps : List Proposal) → Grows n (replay decode_config n ps)
  unfolding replay
  replay-Grows n [] = Grows-refl n
  replay-Grows n (p ∷ ps) = Grows-trans (advance_to-Grows decode_config n p.decree) (
      Grows-trans (log_proposal-Grows (advance_to decode_config n p.decree) p)
        (replay-Grows (log_proposal (advance_to decode_config n p.decree) p) ps))

  fill_gap-Grows : (n : Node) (p : Proposal) → Grows n (fill_gap decode_config n p)
  unfolding fill_gap
  fill_gap-Grows n p =
      if-both (Grows n) _
        (Grows-trans (advance-Grows decode_config n)
          (log_proposal-Grows (advance decode_config n) _))
        (Grows-refl n)

  learn-Grows :
      (done : Bool) (n : Node) (ps : List Proposal) → Grows n (learn decode_config done n ps)
  unfolding learn
  learn-Grows done n [] = initialize-Grows n
  learn-Grows done n (p ∷ ps) = if-both (Grows n) (is_stale n p) (Grows-refl n) (
      if-both (Grows n) (not (is_in_order filled p)) (fill_gap-Grows n p) (
        if-both (Grows n) done
          (Grows-trans to_logged
            (Grows-trans (replay-Grows logged logged.proposal_q) (stabilize-Grows _ false)))
          (Grows-trans to_logged (learn-Grows done logged ps))))
    where
      filled : Node
      filled = fill_gap decode_config n p

      logged : Node
      logged = log_proposal (advance_to decode_config filled p.decree) p

      to_logged : Grows n logged
      to_logged =
          Grows-trans (fill_gap-Grows n p)
            (Grows-trans (advance_to-Grows decode_config filled p.decree) (log_proposal-Grows _ p))

  pub handle_fetch_response-Grows :
      (n : Node) (m : Message) → Grows n (handle_fetch_response decode_config n m)
  unfolding handle_fetch_response
  handle_fetch_response-Grows n m =
      if-both (Grows n) (n.learning_from == 0 || not (n.learning_from == m.from)) (Grows-refl n) (
        Grows-trans (learn-Grows (caught_up (min_needed n) m) n m.proposals)
          (quiet _ _ refl refl refl refl refl refl refl))

  dispatch-Grows :
      (t : MessageType) (accept : Bool) (n : Node) (m : Message) (r : ℕ)
      → Grows n (dispatch decode_config t accept n m r)
  unfolding dispatch handle_fetch_request
  dispatch-Grows accept_req _ n m r = handle_accept_request-Grows n m
  dispatch-Grows accept_resp false n m r = handle_not_accept-Grows n m
  dispatch-Grows accept_resp true n m r = handle_accept_response-Grows n m
  dispatch-Grows fetch_req _ n m r = send-Grows n (fetch_reply n m) (λ e. cc)
  dispatch-Grows fetch_resp _ n m r = handle_fetch_response-Grows n m
  dispatch-Grows prepare_req _ n m r = handle_prepare_request-Grows n m
  dispatch-Grows prepare_resp false n m r = handle_not_accept-Grows n m
  dispatch-Grows prepare_resp true n m r = handle_prepare_response-Grows n m
  dispatch-Grows status_req _ n m r = handle_status_request-Grows n m
  dispatch-Grows status_resp _ n m r = handle_status_response-Grows n m r
  dispatch-Grows command_message _ n m r = Grows-refl n

  pub step-Grows : (n : Node) (m : Message) (r : ℕ) → Grows n (step decode_config n m r)
  unfolding step
  step-Grows n m r =
      if-both (Grows n) (is_inactive n.state) (Grows-refl n) (dispatch-Grows m.type m.accept n m r)
