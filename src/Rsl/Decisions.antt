-- ===== src/Rsl/Decisions.antt =====
-- How the primary decides a proposal: by a majority of acceptances (handleAcceptResponse).
use raft_rl_test.Base.{ℕ, ◌+◌, ◌≡◌, refl, true, false, List, [], ◌∷◌, ◌++◌, Option, arith, length}
use raft_rl_test.Base.Int.{pos, max_int}
use raft_rl_test.Rsl.Data.{Command, Proposal, Message, is_stable}
use raft_rl_test.Rsl.Node.{Node, is_majority, add_to_execution_queue}
use raft_rl_test.Rsl.Handlers.{handle_accept_response, tally_accepts, count_accept}
use raft_rl_test.Rsl.Frame.{Executed, add_to_execution_queue-Executed}

-- An accept response that completes a majority for the primary's open proposal.
pub record IsDeciding (n : Node) (m : Message) : Type 0 where
  pub stable : is_stable n.state ≡ true
  pub ballot : n.max_prepared_ballot.num ≡ m.ballot.num
  pub decree : n.max_accepted_proposal.decree ≡ m.decree
  pub own : n.max_prepared_ballot.node ≡ n.id
  pub waiting : n.ready_to_propose ≡ false
  pub in_force : n.max_prepared_ballot.num ≡ n.max_accepted_proposal.ballot.num
  pub majority : is_majority (count_accept n m) (length (count_accept n m).remote_states + 1) ≡ true

-- What the primary looks like after deciding.
pub record Decided (n n' : Node) : Type 0 where
  pub id : n'.id ≡ n.id
  pub accepted : n'.max_accepted_proposal ≡ n.max_accepted_proposal
  pub prepared : n'.max_prepared_ballot ≡ n.max_prepared_ballot
  pub state : n'.state ≡ n.state
  pub commands : n'.log.decided ≡ n.log.decided ++ n.max_accepted_proposal.command ∷ []
  pub free : n'.ready_to_propose ≡ true

module _ (decode_config : Command → Option (List ℕ)) where
  state-add_to_execution_queue :
      (n : Node) (p : Proposal) → (add_to_execution_queue decode_config n p).state ≡ n.state
  unfolding add_to_execution_queue
  state-add_to_execution_queue n p = ground arith

  counted :
      (n : Node) (m : Message)
      → IsDeciding n m
      → handle_accept_response decode_config n m ≡ tally_accepts decode_config (count_accept n m)
  unfolding handle_accept_response
  counted n m d = ground (arith, d.stable, d.ballot, d.decree, d.own, d.waiting, d.in_force)

  tallied :
      (n : Node)
      → is_majority n (length n.remote_states + 1) ≡ true
      → tally_accepts decode_config n
        ≡ record (add_to_execution_queue decode_config n n.max_accepted_proposal) {
          ready_to_propose = true;
          action_timeout = pos max_int;
        }
  unfolding tally_accepts
  tallied n h = rw h

  -- An accept response that completes a majority for the open proposal of the primary decides its
  -- command, once, and frees the primary to propose again; it changes neither the proposal nor
  -- the promise.
  pub accept_response-decides :
      (n : Node) (m : Message)
      → IsDeciding n m
      → Decided n (handle_accept_response decode_config n m)
  accept_response-decides n m d =
      rw (counted n m d, tallied (count_accept n m) d.majority)
        (unfold count_accept in
          record {
            id = done.id;
            accepted = done.accepted;
            prepared = done.prepared;
            state = state-add_to_execution_queue _ _;
            commands = done.decided;
            free = refl;
          })
    where
      done : Executed (count_accept n m) (count_accept n m).max_accepted_proposal.command (
          add_to_execution_queue decode_config
            (count_accept n m)
            (count_accept n m).max_accepted_proposal)
      done = add_to_execution_queue-Executed decode_config _ _
