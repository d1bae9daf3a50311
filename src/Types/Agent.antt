-- ===== src/Types/Agent.antt =====
-- The Agent of types/agent.go: `runEpisode`. The environment and the policy are interfaces in the
-- code too; `done` says in which rounds the context has been cancelled.
pub mod Episodes
use raft_rl_test.Base.{
  ℕ, zero, suc, ◌==◌, Bool, true, false, List, [], ◌∷◌, Option, some, none, if◌then◌else◌, length,
}
use raft_rl_test.Types.Trace.{Trace, new_trace, append}

-- The methods of an Environment and of its states that the agent calls.
pub record Environment (Env State Action : Type 0) : Type 0 where
  pub reset : Env → Env × State
  pub step : Env → Action → Env × State
  pub actions : State → List Action

-- The methods of a Policy that the agent calls.
pub record Policy (P State Action : Type 0) : Type 0 where
  pub next_action : P → ℕ → State → List Action → P × Option Action
  pub update : P → ℕ → State → Action → State → P
  pub update_iteration : P → ℕ → Trace State Action → P

-- The variables of the loop.
pub record Episode (Env P State Action : Type 0) : Type 0 where
  pub environment : Env
  pub policy : P
  pub state : State
  pub actions : List Action
  pub trace : Trace State Action

module _ {Env P State Action : Type 0} (env : Environment Env State Action)
    (pol : Policy P State Action) (done : ℕ → Bool) where
  -- The rest of a round once the policy has chosen: step, update, append.
  unfoldable pub act : ℕ → Episode Env P State Action → Action → Episode Env P State Action
  act i e a =
      let (environment, next_state) = env.step e.environment a in
      record {
        environment = environment;
        policy = pol.update e.policy i e.state a next_state;
        state = next_state;
        actions = env.actions next_state;
        trace = append e.trace e.state a next_state;
      }

  -- A round after the policy's choice; `go` is the rest of the loop.
  abbrev pub chosen :
      ℕ
      → Episode Env P State Action
      → (Episode Env P State Action → Episode Env P State Action)
      → P × Option Action
      → Episode Env P State Action
  chosen i e go (p, none) = record e { policy = p }
  chosen i e go (p, some a) = go (act i (record e { policy = p }) a)

  -- The loop, from round `i` on for a number of rounds.
  unfoldable pub rounds : ℕ → ℕ → Episode Env P State Action → Episode Env P State Action
  rounds i zero e = e
  rounds i (suc n) e =
      let go = rounds (suc i) n in
      if done i
      then e
      else if length e.actions == 0
      then e
      else chosen i e go (pol.next_action e.policy i e.state e.actions)

  unfoldable pub begin_episode : Env → P → Episode Env P State Action
  begin_episode environment policy =
      let (environment', state) = env.reset environment in
      record {
        environment = environment';
        policy = policy;
        state = state;
        actions = env.actions state;
        trace = new_trace;
      }

  unfoldable pub run_episode : ℕ → ℕ → Env → P → Episode Env P State Action
  unfolding rounds begin_episode
  run_episode episode horizon environment policy =
      let e = rounds 0 horizon (begin_episode environment policy) in
      record e { policy = pol.update_iteration e.policy episode e.trace }
