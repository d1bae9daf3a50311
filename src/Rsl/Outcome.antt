-- ===== src/Rsl/Outcome.antt =====
-- Every branch of handleAcceptRequest at a node that is not initializing.
use raft_rl_test.Base.{
  ℕ, ◌+◌, ◌≤◌, ◌<◌, ◌≡◌, sym, ◌⊎◌, inl, inr, List, [], ◌∷◌, ◌++◌, Option, arith, lt-or-eq, lt-or-le,
}
use raft_rl_test.Rsl.Data.{Command, Message, accept_resp}
use raft_rl_test.Rsl.Node.{Node, send, initialize}
use raft_rl_test.Rsl.Handlers.{handle_accept_request, refusal}
use raft_rl_test.Rsl.Acceptor.{Took, IsOffered, accept-newer, accept-next, accept-repeated}

-- The five outcomes of an accept request at a node that is not initializing. No two of their
-- conditions hold together if the proposal held is not above the promise.
pub data Outcome (n : Node) (m : Message) (n' : Node) : Type 0 where
  refused :
      (m.decree < n.max_accepted_proposal.decree) ⊎ (m.ballot.num < n.max_prepared_ballot.num)
      → n' ≡ send n (refusal n m accept_resp)
      → Outcome n m n'
  repeated :
      n.max_prepared_ballot.num ≤ m.ballot.num
      → m.decree ≡ n.max_accepted_proposal.decree
      → m.ballot.num ≡ n.max_accepted_proposal.ballot.num
      → n' ≡ n
      → Outcome n m n'
  replaced :
      n.max_prepared_ballot.num ≤ m.ballot.num
      → m.decree ≡ n.max_accepted_proposal.decree
      → n.max_accepted_proposal.ballot.num < m.ballot.num
      → Took n m n.log.decided n'
      → Outcome n m n'
  decided :
      n.max_prepared_ballot.num ≤ m.ballot.num
      → m.decree ≡ n.max_accepted_proposal.decree + 1
      → n.max_accepted_proposal.ballot.num ≡ m.ballot.num
      → Took n m (n.log.decided ++ n.max_accepted_proposal.command ∷ []) n'
      → Outcome n m n'
  restarted :
      n.max_prepared_ballot.num ≤ m.ballot.num
      → n.max_accepted_proposal.decree < m.decree
      → (n.max_accepted_proposal.decree + 1 < m.decree)
        ⊎ (n.max_accepted_proposal.ballot.num < m.ballot.num)
      → n' ≡ initialize n
      → Outcome n m n'

module _ (decode_config : Command → Option (List ℕ)) (n : Node) (m : Message)
    (o : IsOffered n m) where
  refuses :
      (m.decree < n.max_accepted_proposal.decree) ⊎ (m.ballot.num < n.max_prepared_ballot.num)
      → handle_accept_request decode_config n m ≡ send n (refusal n m accept_resp)
  unfolding handle_accept_request
  refuses h = ground (arith, o.owner, o.foreign, o.ready, o.sound)

  restarts :
      n.max_prepared_ballot.num ≤ m.ballot.num
      → n.max_accepted_proposal.decree < m.decree
      → (n.max_accepted_proposal.decree + 1 < m.decree)
        ⊎ (n.max_accepted_proposal.ballot.num < m.ballot.num)
      → handle_accept_request decode_config n m ≡ initialize n
  unfolding handle_accept_request
  restarts p d h = ground (arith, o.owner, o.foreign, o.ready, o.sound)

  current :
      n.max_accepted_proposal.decree ≤ m.decree
      → n.max_prepared_ballot.num ≤ m.ballot.num
      → Outcome n m (handle_accept_request decode_config n m)
  current d p = elim (lt-or-eq n.max_accepted_proposal.decree m.decree d) [
    | inl more ↦ elim (lt-or-eq _ _ more) [
      | inl gap ↦ restarted p more (inl (omega arith)) (restarts p more (inl (omega arith)))
      | inr next ↦
          elim (lt-or-eq n.max_accepted_proposal.ballot.num m.ballot.num (omega (arith, o.sound))) [
            | inl above ↦ restarted p more (inr above) (restarts p more (inr above))
            | inr level ↦
                decided p (omega arith) level
                  (accept-next decode_config n m o (omega arith) level p)
          ]
    ]
    | inr same ↦
        elim (lt-or-eq n.max_accepted_proposal.ballot.num m.ballot.num (omega (arith, o.sound))) [
          | inl above ↦
              replaced p (sym same) above (accept-newer decode_config n m o (sym same) above p)
          | inr level ↦
              repeated p (sym same) (sym level)
                (accept-repeated decode_config n m o (sym same) (sym level) p)
        ]
  ]

  -- An accept request from the primary of its ballot to a node that is not initializing has one of
  -- five outcomes: refused if its decree or its ballot is behind, without effect if the node holds
  -- it, taken if it is newer for the same decree, taken with the proposal held before it decided
  -- if it is the next decree under the same ballot, and a restart of the node otherwise.
  pub accept_request-Outcome : Outcome n m (handle_accept_request decode_config n m)
  accept_request-Outcome = elim (lt-or-le m.decree n.max_accepted_proposal.decree) [
    | inl behind ↦ refused (inl behind) (refuses (inl behind))
    | inr level ↦ elim (lt-or-le m.ballot.num n.max_prepared_ballot.num) [
      | inl below ↦ refused (inr below) (refuses (inr below))
      | inr above ↦ current level above
    ]
  ]
