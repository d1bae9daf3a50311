-- ===== src/Rsl/Acceptor.antt =====
-- What handleAcceptRequest and handleAcceptResponse do to the proposal accepted last and to the
-- decided commands, branch by branch.
use raft_rl_test.Base.{
  ℕ, ◌+◌, ◌≤◌, ◌<◌, ◌≡◌, refl, sym, ap, ◌∙◌, ◌≢◌, false, List, [], ◌∷◌, ◌++◌, Option, arith,
}
use raft_rl_test.Rsl.Data.{Command, Message, stable_secondary, is_initializing}
use raft_rl_test.Rsl.Node.{Node, send, log_proposal, stabilize, advance}
use raft_rl_test.Rsl.Handlers.{handle_accept_request, take_proposal, proposal_of, accept_reply}
use raft_rl_test.Rsl.Frame.{
  SameCore, stabilize-SameCore, state-stabilize, Logged, log_proposal-Logged, Executed,
  advance-Executed, advance_to-next, advance_to-same,
}

-- What a node that took the proposal of `m` looks like.
pub record Took (n : Node) (m : Message) (decided : List Command) (n' : Node) : Type 0 where
  pub id : n'.id ≡ n.id
  pub held : n'.max_accepted_proposal ≡ proposal_of m
  pub promised : n'.max_prepared_ballot.num ≡ m.ballot.num
  pub state : n'.state ≡ stable_secondary
  pub commands : n'.log.decided ≡ decided

module _ (decode_config : Command → Option (List ℕ)) where
  log_and_answer :
      (n x : Node) (m : Message)
      → x.id ≡ n.id
      → x.max_prepared_ballot ≡ n.max_prepared_ballot
      → n.max_prepared_ballot.num ≤ m.ballot.num
      → Took n m x.log.decided
          (stabilize (send (log_proposal x (proposal_of m)) (accept_reply m)) false)
  unfolding send
  log_and_answer n x m i p h = record {
    id = s.id ∙ l.id ∙ i;
    held = s.accepted ∙ l.accepted;
    promised = ap (λ b. b.num) s.prepared ∙ ground (arith, l.prepared);
    state = state-stabilize y false;
    commands = s.decided ∙ l.decided;
  }
    where
      y : Node
      y = send (log_proposal x (proposal_of m)) (accept_reply m)

      l : Logged x (proposal_of m) (log_proposal x (proposal_of m))
      l = log_proposal-Logged x (proposal_of m)

      s : SameCore y (stabilize y false)
      s = stabilize-SameCore y false

  take_next :
      (n : Node) (m : Message)
      → n.max_prepared_ballot.num ≤ m.ballot.num
      → m.decree ≡ n.max_accepted_proposal.decree + 1
      → Took n m
          (n.log.decided ++ n.max_accepted_proposal.command ∷ [])
          (take_proposal decode_config n m)
  unfolding take_proposal
  take_next n m h e =
      rw (advance_to-next decode_config n m.decree e) (
        rw (sym done.decided)
          (log_and_answer n (advance decode_config n) m done.id done.prepared h))
    where
      done : Executed n n.max_accepted_proposal.command (advance decode_config n)
      done = advance-Executed decode_config n

  take_again :
      (n : Node) (m : Message)
      → n.max_prepared_ballot.num ≤ m.ballot.num
      → m.decree ≡ n.max_accepted_proposal.decree
      → Took n m n.log.decided (take_proposal decode_config n m)
  unfolding take_proposal
  take_again n m h e =
      rw (advance_to-same decode_config n m.decree e) (log_and_answer n n m refl refl h)

-- An accept request from the primary of its ballot, another node, to a node that is not
-- initializing.
pub record IsOffered (n : Node) (m : Message) : Type 0 where
  pub owner : m.ballot.node ≡ m.from
  pub foreign : m.from ≢ n.id
  pub ready : is_initializing n.state ≡ false
  pub sound : n.max_accepted_proposal.ballot.num ≤ n.max_prepared_ballot.num

module _ (decode_config : Command → Option (List ℕ)) (n : Node) (m : Message)
    (o : IsOffered n m) where
  -- A proposal for the decree accepted last, under a higher ballot that is not below the promise,
  -- replaces the proposal and decides nothing.
  pub accept-newer :
      m.decree ≡ n.max_accepted_proposal.decree
      → n.max_accepted_proposal.ballot.num < m.ballot.num
      → n.max_prepared_ballot.num ≤ m.ballot.num
      → Took n m n.log.decided (handle_accept_request decode_config n m)
  unfolding handle_accept_request
  accept-newer e l h =
      ground (arith, take_again decode_config n m h e, o.owner, o.foreign, o.ready, o.sound)

  -- One for the next decree under the ballot of the proposal accepted last decides that proposal.
  pub accept-next :
      m.decree ≡ n.max_accepted_proposal.decree + 1
      → n.max_accepted_proposal.ballot.num ≡ m.ballot.num
      → n.max_prepared_ballot.num ≤ m.ballot.num
      → Took n m
          (n.log.decided ++ n.max_accepted_proposal.command ∷ [])
          (handle_accept_request decode_config n m)
  unfolding handle_accept_request
  accept-next e b h =
      ground (arith, take_next decode_config n m h e, o.owner, o.foreign, o.ready, o.sound)

  -- The proposal that it holds already changes nothing at all: no answer is sent.
  pub accept-repeated :
      m.decree ≡ n.max_accepted_proposal.decree
      → m.ballot.num ≡ n.max_accepted_proposal.ballot.num
      → n.max_prepared_ballot.num ≤ m.ballot.num
      → handle_accept_request decode_config n m ≡ n
  unfolding handle_accept_request
  accept-repeated e b h = ground (arith, o.owner, o.foreign, o.ready, o.sound)
