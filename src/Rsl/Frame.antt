-- ===== src/Rsl/Frame.antt =====
-- What the shared operations leave alone, and what they set.
use raft_rl_test.Base.{
  ℕ, ◌+◌, ◌≡◌, refl, Bool, not, List, [], ◌∷◌, ◌++◌, Option, some, none, arith, if◌then◌else◌, ltb,
  ◌==◌, if-both, if-cases,
}
use raft_rl_test.Rsl.Data.{
  Command, Proposal, stable_primary, stable_secondary, is_preparing, add_decided, log_add,
}
use raft_rl_test.Rsl.Node.{
  Node, log_proposal, stabilize, add_to_execution_queue, advance, advance_to,
}

-- The part of a node that sending and stabilizing do not touch.
pub record SameCore (n n' : Node) : Type 0 where
  pub id : n'.id ≡ n.id
  pub accepted : n'.max_accepted_proposal ≡ n.max_accepted_proposal
  pub prepared : n'.max_prepared_ballot ≡ n.max_prepared_ballot
  pub decided : n'.log.decided ≡ n.log.decided

pub stabilize-SameCore : (n : Node) (b : Bool) → SameCore n (stabilize n b)
unfolding stabilize
stabilize-SameCore n b =
    if-both (SameCore n) (n.max_prepared_ballot.node == n.id)
      (if-both (SameCore n) (not (is_preparing n.state))
        (record { id = refl; accepted = refl; prepared = refl; decided = refl })
        (record { id = refl; accepted = refl; prepared = refl; decided = refl }))
      (record { id = refl; accepted = refl; prepared = refl; decided = refl })

pub state-stabilize :
    (n : Node) (b : Bool) → (stabilize n b).state ≡ (if b then stable_primary else stable_secondary)
unfolding stabilize
state-stabilize n b =
    if-both {A = Node} (λ x. x.state ≡ (if b then stable_primary else stable_secondary))
      (n.max_prepared_ballot.node == n.id)
      (if-both {A = Node} (λ x. x.state ≡ (if b then stable_primary else stable_secondary))
        (not (is_preparing n.state)) refl refl)
      refl

-- Logging a proposal makes it the one accepted last and decides nothing.
pub record Logged (n : Node) (p : Proposal) (n' : Node) : Type 0 where
  pub id : n'.id ≡ n.id
  pub accepted : n'.max_accepted_proposal ≡ p
  pub prepared :
      n'.max_prepared_ballot
      ≡ (if ltb n.max_prepared_ballot.num p.ballot.num then p.ballot else n.max_prepared_ballot)
  pub decided : n'.log.decided ≡ n.log.decided

pub log_proposal-Logged : (n : Node) (p : Proposal) → Logged n p (log_proposal n p)
unfolding log_proposal log_add
log_proposal-Logged n p =
    if-cases (Logged n p) (ltb n.max_prepared_ballot.num p.ballot.num)
      (λ h. record { id = refl; accepted = refl; prepared = rw h; decided = refl })
      (λ h. record { id = refl; accepted = refl; prepared = rw h; decided = refl })

-- Executing adds one command to those decided.
pub record Executed (n : Node) (c : Command) (n' : Node) : Type 0 where
  pub id : n'.id ≡ n.id
  pub accepted : n'.max_accepted_proposal ≡ n.max_accepted_proposal
  pub prepared : n'.max_prepared_ballot ≡ n.max_prepared_ballot
  pub decided : n'.log.decided ≡ n.log.decided ++ c ∷ []

module _ (decode_config : Command → Option (List ℕ)) where
  pub add_to_execution_queue-Executed :
      (n : Node) (p : Proposal) → Executed n p.command (add_to_execution_queue decode_config n p)
  unfolding add_to_execution_queue add_decided
  add_to_execution_queue-Executed n p = go (decode_config p.command) refl
    where
      go :
          (members : Option (List ℕ))
          → decode_config p.command ≡ members
          → Executed n p.command (add_to_execution_queue decode_config n p)
      go none e =
          rw (e, add_to_execution_queue)
            (record { id = refl; accepted = refl; prepared = refl; decided = refl })
      go (some members) e =
          rw (e, add_to_execution_queue)
            (record { id = refl; accepted = refl; prepared = refl; decided = refl })

  pub advance-Executed :
      (n : Node) → Executed n n.max_accepted_proposal.command (advance decode_config n)
  unfolding advance
  advance-Executed n = record {
    id = done.id;
    accepted = done.accepted;
    prepared = done.prepared;
    decided = done.decided;
  }
    where
      done :
          Executed n n.max_accepted_proposal.command
            (add_to_execution_queue decode_config n n.max_accepted_proposal)
      done = add_to_execution_queue-Executed n n.max_accepted_proposal

  pub advance_to-next :
      (n : Node) (decree : ℕ)
      → decree ≡ n.max_accepted_proposal.decree + 1
      → advance_to decode_config n decree ≡ advance decode_config n
  unfolding advance_to
  advance_to-next n decree e = ground arith

  pub advance_to-same :
      (n : Node) (decree : ℕ)
      → decree ≡ n.max_accepted_proposal.decree
      → advance_to decode_config n decree ≡ n
  unfolding advance_to
  advance_to-same n decree e = ground arith
