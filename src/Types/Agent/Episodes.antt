-- ===== src/Types/Agent/Episodes.antt =====
-- The trace of an episode is a chain of transitions from the state that the environment was reset
-- to.
use mathlib.Core.List.{append-nil, append_assoc}
use raft_rl_test.Base.{
  ℕ, zero, suc, ◌==◌, ◌≡◌, ◌≤◌, refl, sym, ap, ◌∙◌, Bool, false, List, [], ◌∷◌, ◌++◌, Option, some,
  none, arith, length, if-both,
}
use raft_rl_test.Types.Trace.{Transition, append}
use raft_rl_test.Types.Trace.Steps.{trace_of, append-trace_of}
use raft_rl_test.Types.Agent.{
  Environment, Policy, Episode, act, chosen, rounds, begin_episode, run_episode,
}

-- The transitions lead from `s` to `t`, each from where the one before it ended.
abbrev pub Leads : {State Action : Type 0} → State → List (Transition State Action) → State → Type 0
Leads s [] t = s ≡ t
Leads s (x ∷ xs) t = (x.state ≡ s) × Leads x.next_state xs t

module _ {Env P State Action : Type 0} (env : Environment Env State Action)
    (pol : Policy P State Action) (done : ℕ → Bool) where
  -- From `e` at most `n` transitions were added to make `x`, and they lead from state to state.
  pub record Extends (n : ℕ) (e x : Episode Env P State Action) : Type 0 where
    pub added : List (Transition State Action)
    pub leads : Leads e.state added x.state
    pub at_most : length added ≤ n
    pub trace :
        (ss : List (Transition State Action))
        → e.trace ≡ trace_of ss
        → x.trace ≡ trace_of (ss ++ added)

  stands :
      (n : ℕ) (e x : Episode Env P State Action)
      → x.state ≡ e.state
      → x.trace ≡ e.trace
      → Extends n e x
  stands n e x s t = record {
    added = [];
    leads = sym s;
    at_most = omega arith;
    trace = λ ss h. t ∙ h ∙ ap trace_of (sym (append-nil ss));
  }

  act-Extends :
      (i n : ℕ) (e : Episode Env P State Action) (p : P) (a : Action)
      (x : Episode Env P State Action)
      → Extends n (act env pol done i (record e { policy = p }) a) x
      → Extends (suc n) e x
  unfolding act append
  act-Extends i n e p a x g = record {
    added = first ∷ g.added;
    leads = (refl, g.leads);
    at_most = omega (arith, g.at_most);
    trace = λ ss h.
        g.trace (ss ++ first ∷ [])
          (ap (λ t. append t e.state a first.next_state) h ∙ append-trace_of ss first)
        ∙ ap trace_of (append_assoc ss (first ∷ []) g.added);
  }
    where
      first : Transition State Action
      first = record {
        state = e.state;
        action = a;
        next_state = (env.step e.environment a).1;
        reward = false;
      }

  chosen-Extends :
      (i n : ℕ) (e : Episode Env P State Action)
      (go : Episode Env P State Action → Episode Env P State Action) (c : P × Option Action)
      → ((x : Episode Env P State Action) → Extends n x (go x))
      → Extends (suc n) e (chosen env pol done i e go c)
  chosen-Extends i n e go (p, none) h = stands (suc n) e (record e { policy = p }) refl refl
  chosen-Extends i n e go (p, some a) h =
      act-Extends i n e p a (go (act env pol done i (record e { policy = p }) a))
        (h (act env pol done i (record e { policy = p }) a))

  rounds-Extends :
      (i n : ℕ) (e : Episode Env P State Action) → Extends n e (rounds env pol done i n e)
  unfolding rounds
  rounds-Extends i zero e = stands zero e e refl refl
  rounds-Extends i (suc n) e = if-both (Extends (suc n) e) (done i) (stands (suc n) e e refl refl) (
      if-both (Extends (suc n) e) (length e.actions == 0) (stands (suc n) e e refl refl) (
        chosen-Extends i n e (rounds env pol done (suc i) n)
          (pol.next_action e.policy i e.state e.actions) (rounds-Extends (suc i) n)))

  -- The trace of an episode is the trace of some transitions, at most as many as the horizon, each of
  -- which starts where the one before it ended: the first at the state that the environment was
  -- reset to, and the last ends at the state that the episode ends in.
  pub run_episode-leads :
      (episode horizon : ℕ) (environment : Env) (policy : P)
      → let x = run_episode env pol done episode horizon environment policy in
        (ss : List (Transition State Action)) × (x.trace ≡ trace_of ss)
        × Leads (env.reset environment).1 ss x.state
        × (length ss ≤ horizon)
  unfolding run_episode begin_episode
  run_episode-leads episode horizon environment policy =
      let g = rounds-Extends 0 horizon (begin_episode env pol done environment policy) in
      (g.added, g.trace [] refl, g.leads, g.at_most)
