-- ===== src/Tests/Episodes.antt =====
-- An agent that counts: each action is added to the state, and the episode ends at 3.
use raft_rl_test.Base.{
  ℕ, suc, ◌+◌, ◌≡◌, ◌≤◌, refl, Bool, false, List, [], ◌∷◌, some, length, ltb, if◌then◌else◌,
}
use raft_rl_test.Types.Trace.{Transition, append, append_with_reward}
use raft_rl_test.Types.Trace.Steps.{trace_of}
use raft_rl_test.Types.Agent.{Environment, Policy, run_episode, rounds, begin_episode, act}
use raft_rl_test.Types.Agent.Episodes.{Leads, run_episode-leads}

abbrev counter : Environment ℕ ℕ ℕ
counter = record {
  reset = λ n. (0, 0);
  step = λ n a. (n + a, n + a);
  actions = λ s. if ltb s 3 then 1 ∷ [] else [];
}

-- The policy counts its updates.
abbrev one_more : Policy ℕ ℕ ℕ
one_more = record {
  next_action = λ p i s offered. (p, some 1);
  update = λ p i s a ns. suc p;
  update_iteration = λ p i t. p;
}

abbrev never : ℕ → Bool
never i = false

counts : (run_episode counter one_more never 0 5 7 0).state ≡ 3
unfolding run_episode rounds begin_episode act append append_with_reward
counts = refl

updates : (run_episode counter one_more never 0 5 7 0).policy ≡ 3
unfolding run_episode rounds begin_episode act append append_with_reward
updates = refl

run_episode-leads_example :
    let x = run_episode counter one_more never 0 5 7 0 in
    (ss : List (Transition ℕ ℕ)) × (x.trace ≡ trace_of ss) × Leads 0 ss x.state × (length ss ≤ 5)
run_episode-leads_example = run_episode-leads counter one_more never 0 5 7 0
