-- ===== src/Rsl/Repeats.antt =====
-- What repeated accept requests and repeated decisions do.
use raft_rl_test.Base.{
  ℕ, ◌+◌, ◌≤◌, ◌<◌, ◌≡◌, ◌∙◌, ◌≢◌, ◌⊎◌, inl, inr, List, [], ◌∷◌, ◌++◌, Option, arith,
}
use mathlib.Core.List.{append_assoc}
use raft_rl_test.Rsl.Data.{Command, Message}
use raft_rl_test.Rsl.Node.{Node}
use raft_rl_test.Rsl.Handlers.{handle_accept_request, handle_accept_response}
use raft_rl_test.Rsl.Acceptor.{Took, IsOffered, accept-newer, accept-next, accept-repeated}
use raft_rl_test.Rsl.Decisions.{IsDeciding, Decided, accept_response-decides}

module _ (decode_config : Command → Option (List ℕ)) where
  -- A node that has taken a proposal sends no answer to a repetition of it.
  again :
      (n n' : Node) (m : Message) (cs : List Command)
      → IsOffered n m
      → Took n m cs n'
      → handle_accept_request decode_config n' m ≡ n'
  again n n' m cs o t =
      accept-repeated decode_config n' m offered (ground (arith, t.held)) (ground (arith, t.held))
        (ground (arith, t.promised))
    where
      offered : IsOffered n' m
      offered = record {
        owner = o.owner;
        foreign = ground (arith, t.id, o.foreign);
        ready = ground (arith, t.state);
        sound = ground (arith, t.held, t.promised);
      }

-- A proposal that a node has not got yet: newer for its decree, or the next one.
abbrev pub IsFresh : Node → Message → Type 0
IsFresh n m =
    ((m.decree ≡ n.max_accepted_proposal.decree)
      × (n.max_accepted_proposal.ballot.num < m.ballot.num))
    ⊎ ((m.decree ≡ n.max_accepted_proposal.decree + 1)
        × (n.max_accepted_proposal.ballot.num ≡ m.ballot.num))

module _ (decode_config : Command → Option (List ℕ)) where
  -- When a node takes a fresh proposal that its promise allows, a repetition of the request leaves
  -- it as it is, its outgoing messages included: the primary's retries are never answered.
  pub accept-retry_silent :
      (n : Node) (m : Message)
      → IsOffered n m
      → IsFresh n m
      → n.max_prepared_ballot.num ≤ m.ballot.num
      → let n' = handle_accept_request decode_config n m in
        handle_accept_request decode_config n' m ≡ n'
  accept-retry_silent n m o (inl (e, l)) h =
      again decode_config n _ m _ o (accept-newer decode_config n m o e l h)
  accept-retry_silent n m o (inr (e, b)) h =
      again decode_config n _ m _ o (accept-next decode_config n m o e b h)

  module _ (n : Node) (resp offer next : Message) (d : IsDeciding n resp)
      (same : offer.decree ≡ n.max_accepted_proposal.decree)
      (higher : n.max_prepared_ballot.num < offer.ballot.num)
      (copied : offer.command ≡ n.max_accepted_proposal.command)
      (offerer : offer.ballot.node ≡ offer.from) (foreign : offer.from ≢ n.id)
      (follows : next.decree ≡ offer.decree + 1) (reigns : next.ballot ≡ offer.ballot)
      (sender : next.from ≡ offer.from) where
    decided_once : Node
    decided_once = handle_accept_response decode_config n resp

    offered_again : Node
    offered_again = handle_accept_request decode_config decided_once offer

    first : Decided n decided_once
    unfolding decided_once
    first = accept_response-decides decode_config n resp d

    retaken : Took decided_once offer decided_once.log.decided offered_again
    unfolding offered_again
    retaken =
        accept-newer decode_config decided_once offer
          (record {
            owner = offerer;
            foreign = ground (arith, first.id, foreign);
            ready = ground (arith, first.state, d.stable);
            sound = ground (arith, first.accepted, first.prepared, d.in_force);
          })
          (ground (arith, first.accepted, same))
          (ground (arith, first.accepted, first.prepared, d.in_force))
          (ground (arith, first.prepared))

    decided_again :
        Took offered_again next
          (offered_again.log.decided ++ offered_again.max_accepted_proposal.command ∷ [])
          (handle_accept_request decode_config offered_again next)
    decided_again =
        accept-next decode_config offered_again next
          (record {
            owner = ground (arith, reigns, sender, offerer);
            foreign = ground (arith, retaken.id, first.id, sender, foreign);
            ready = ground (arith, retaken.state);
            sound = ground (arith, retaken.held, retaken.promised);
          })
          (ground (arith, retaken.held, follows)) (ground (arith, retaken.held, reigns))
          (ground (arith, retaken.promised, reigns))

    commands_again :
        offered_again.log.decided ++ offered_again.max_accepted_proposal.command ∷ []
        ≡ n.log.decided ++ n.max_accepted_proposal.command ∷ n.max_accepted_proposal.command ∷ []
    commands_again =
        rw (retaken.commands, retaken.held, first.commands, copied)
          (append_assoc n.log.decided (n.max_accepted_proposal.command ∷ [])
            (n.max_accepted_proposal.command ∷ []))

    -- A primary that has decided a proposal, and then gets it from the next primary under a higher
    -- ballot followed by the proposal of the next decree, decides the command a second time.
    pub decided_twice :
        (handle_accept_request decode_config
          (handle_accept_request decode_config (handle_accept_response decode_config n resp) offer)
          next).log.decided
        ≡ n.log.decided ++ n.max_accepted_proposal.command ∷ n.max_accepted_proposal.command ∷ []
    unfolding decided_once offered_again
    decided_twice = decided_again.commands ∙ commands_again
