-- ===== src/Rsl/Grows/Clock.antt =====
-- The clock and the client's calls let a Node grow.
use raft_rl_test.Base.{
  ◌+◌, ◌≡◌, refl, sym, Bool, true, false, not, ◌&&◌, ◌||◌, List, [], ◌∷◌, arith, ◌==◌, if-both,
  if-cases,
}
use raft_rl_test.Base.Int.{ltb_ℤ, pos}
use raft_rl_test.Rsl.Data.{Command, Proposal, is_initializing, is_preparing, is_stable_primary}
use raft_rl_test.Rsl.Node.{Node, start, set_timers}
use raft_rl_test.Rsl.Handlers.{accept_request}
use raft_rl_test.Rsl.Step.{
  propose, propose_command, next_or_retry, send_next_command, check_election, check_heart_beat,
  check_action, tick,
}
use raft_rl_test.Rsl.Grows.Base.{
  Grows, Grows-trans, Grows-refl, quiet, broadcast-Grows, initialize-Grows, log_proposal-Grows,
  prepare-Grows,
}

pub start-Grows : (n : Node) → Grows n (start n)
unfolding start set_timers
start-Grows n =
    Grows-trans (quiet n (set_timers n) refl refl refl refl refl refl refl)
      (initialize-Grows (set_timers n))

pub propose-Grows : (n : Node) (c : Command) → Grows n (propose n c)
unfolding propose
propose-Grows n c = quiet n _ refl refl refl refl refl refl refl

-- A node whose proposals go out under the ballot that it holds.
abbrev IsInForce : Node → Type 0
IsInForce n = n.max_prepared_ballot.num ≡ n.max_accepted_proposal.ballot.num

propose_command-Grows :
    (n : Node) (c : Command) (rest : List Command)
    → IsInForce n
    → Grows n (propose_command n c rest)
unfolding propose_command
propose_command-Grows n c rest h =
    Grows-trans (broadcast-Grows n (accept_request p) (λ _. sym h))
      (Grows-trans (log_proposal-Grows _ p) (quiet _ _ refl refl refl refl refl refl refl))
  where
    p : Proposal
    p = record {
      ballot = n.max_accepted_proposal.ballot;
      decree = n.max_accepted_proposal.decree + 1;
      command = c;
    }

next_or_retry-Grows :
    (b : Bool) (q : List Command) (n : Node) → IsInForce n → Grows n (next_or_retry b q n)
unfolding next_or_retry
next_or_retry-Grows true (c ∷ rest) n h = propose_command-Grows n c rest h
next_or_retry-Grows true [] n h =
    broadcast-Grows n (accept_request n.max_accepted_proposal) (λ _. sym h)
next_or_retry-Grows false q n h =
    broadcast-Grows n (accept_request n.max_accepted_proposal) (λ _. sym h)

send_next_command-Grows : (n : Node) → Grows n (send_next_command n)
unfolding send_next_command
send_next_command-Grows n =
    if-cases (Grows n)
      (not (is_stable_primary n.state)
        || not (n.max_prepared_ballot.node == n.id)
        || not (n.max_prepared_ballot.num == n.max_accepted_proposal.ballot.num))
      (λ _. Grows-refl n)
      (λ h. Grows-trans (quiet n _ refl refl refl refl refl refl refl) (
        Grows-trans (next_or_retry-Grows n.ready_to_propose n.command_q _ (ground arith))
          (quiet _ _ refl refl refl refl refl refl refl)))

check_election-Grows : (n : Node) → Grows n (check_election n)
unfolding check_election
check_election-Grows n = if-both (Grows n) _ (initialize-Grows n) (Grows-refl n)

check_heart_beat-Grows : (n : Node) → Grows n (check_heart_beat n)
unfolding check_heart_beat
check_heart_beat-Grows n = if-both (Grows n) _ (send_next_command-Grows n) (Grows-refl n)

check_action-Grows : (n : Node) → Grows n (check_action n)
unfolding check_action
check_action-Grows n =
    if-both (Grows n) (not (ltb_ℤ n.action_timeout (pos n.ticks))) (Grows-refl n) (
      if-both (Grows n) (is_stable_primary n.state && n.max_prepared_ballot.node == n.id)
        (send_next_command-Grows n)
        (if-both (Grows n) (is_initializing n.state) (initialize-Grows n)
          (if-both (Grows n) (is_preparing n.state) (prepare-Grows n) (Grows-refl n))))

pub tick-Grows : (n : Node) → Grows n (tick n)
unfolding tick
tick-Grows n = Grows-trans (quiet n n' refl refl refl refl refl refl refl) (
    if-both (Grows n') (ltb_ℤ n'.no_progress_time (pos n'.ticks)) (Grows-refl n') (
      Grows-trans (check_election-Grows n') (
        Grows-trans (check_heart_beat-Grows (check_election n'))
          (check_action-Grows (check_heart_beat (check_election n'))))))
  where
    n' : Node
    n' = record n { ticks = n.ticks + 1 }
