-- ===== src/Types/Monitor.antt =====
-- The Monitor of types/monitor.go: its conditions, its builder and the check of a trace. A state's
-- name is a number that stands for the string, `order` is the order in which Go ranges over the
-- transitions of a state.
pub mod Check
use raft_rl_test.Base.{
  ℕ, zero, suc, ◌+◌, ◌==◌, Bool, true, false, not, ◌&&◌, ◌||◌, List, [], ◌∷◌, Option, some, none,
  if◌then◌else◌,
}
use raft_rl_test.Base.Assoc.{GoMap, get, put}
use raft_rl_test.Types.Trace.{
  Trace, Transition, Reading, read, past_end, fails, new_trace, len, get_with_reward, get_prefix,
}

-- InitState.
abbrev pub init_state : ℕ
init_state = 0

module _ (State Action : Type 0) where
  abbrev pub MonitorCondition : Type 0
  MonitorCondition = State → Action → State → Bool

  pub record MonitorState : Type 0 where
    pub success : Bool
    pub name : ℕ
    pub transitions : GoMap MonitorCondition

  pub record Monitor : Type 0 where
    pub states : GoMap MonitorState

  -- The current state is the one stored under its name.
  pub record MonitorBuilder : Type 0 where
    pub monitor : Monitor
    pub cur_state : ℕ

  -- What Check returns: a prefix and true, or false; or it fails at a state that is not there.
  pub data Outcome : Type 0 where
    accepted : Trace State Action → Outcome
    rejected crashed : Outcome

module _ {State Action : Type 0} where
  abbrev pub not_cond : MonitorCondition State Action → MonitorCondition State Action
  not_cond m s a ns = not (m s a ns)

  abbrev pub or_cond :
      MonitorCondition State Action → MonitorCondition State Action → MonitorCondition State Action
  or_cond m other s a ns = m s a ns || other s a ns

  abbrev pub and_cond :
      MonitorCondition State Action → MonitorCondition State Action → MonitorCondition State Action
  and_cond m other s a ns = m s a ns && other s a ns

  abbrev pub fresh : ℕ → MonitorState State Action
  fresh name = record { success = false; name = name; transitions = [] }

  unfoldable pub new_monitor : Monitor State Action
  new_monitor = record { states = (init_state, fresh init_state) ∷ [] }

  unfoldable pub build : Monitor State Action → MonitorBuilder State Action
  build m = record { monitor = m; cur_state = init_state }

  -- A change to the state stored under a name.
  unfoldable pub update :
      (MonitorState State Action → MonitorState State Action)
      → GoMap (MonitorState State Action)
      → ℕ
      → GoMap (MonitorState State Action)
  update f [] name = []
  update f (e ∷ m) name = if e.0 == name then (e.0, f e.1) ∷ m else e ∷ update f m name

  abbrev pub or_fresh :
      Option (MonitorState State Action)
      → GoMap (MonitorState State Action)
      → ℕ
      → GoMap (MonitorState State Action)
  or_fresh none states name = put states name (fresh name)
  or_fresh (some q) states name = states

  unfoldable pub on :
      MonitorBuilder State Action → MonitorCondition State Action → ℕ → MonitorBuilder State Action
  unfolding update
  on b cond next = record {
    monitor = record {
      states =
          update (λ q. record q { transitions = put q.transitions next cond })
            (or_fresh (get b.monitor.states next) b.monitor.states next) b.cur_state;
    };
    cur_state = next;
  }

  unfoldable pub mark_success : MonitorBuilder State Action → MonitorBuilder State Action
  unfolding update
  mark_success b = record b {
    monitor = record {
      states = update (λ q. record q { success = true }) b.monitor.states b.cur_state;
    };
  }

  abbrev pub outcome_of : Option (Trace State Action) → Outcome State Action
  outcome_of (some p) = accepted p
  outcome_of none = rejected

  -- The first transition whose condition holds.
  unfoldable pub fire : GoMap (MonitorCondition State Action) → Transition State Action → Option ℕ
  fire [] s = none
  fire (e ∷ m) s = if e.1 s.state s.action s.next_state then some e.0 else fire m s

  module _ (order : GoMap (MonitorCondition State Action) → GoMap (MonitorCondition State Action))
      (m : Monitor State Action) where
    abbrev pub goes_to : MonitorState State Action → Option ℕ → Option (MonitorState State Action)
    goes_to q none = some q
    goes_to q (some next) = get m.states next

    -- The state after one step of the trace.
    unfoldable pub advance :
        MonitorState State Action → Transition State Action → Option (MonitorState State Action)
    unfolding fire
    advance q s = goes_to q (fire (order q.transitions) s)

    -- The end of a round at index `i`: return the prefix at a success, or `go` on.
    abbrev pub enter :
        Trace State Action
        → ℕ
        → (MonitorState State Action → Outcome State Action)
        → Option (MonitorState State Action)
        → Outcome State Action
    enter t i go none = crashed
    enter t i go (some q) = if q.success then outcome_of (get_prefix t i) else go q

    abbrev pub round :
        Trace State Action
        → ℕ
        → (MonitorState State Action → Outcome State Action)
        → MonitorState State Action
        → Reading State Action
        → Outcome State Action
    round t i go q fails = crashed
    round t i go q past_end = crashed
    round t i go q (read s) = enter t i go (advance q s)

    -- The loop of Check, from an index on for a number of rounds.
    unfoldable pub scan :
        Trace State Action → MonitorState State Action → ℕ → ℕ → Outcome State Action
    scan t q i zero = rejected
    scan t q i (suc rounds) = round t i (λ q'. scan t q' (suc i) rounds) q (get_with_reward t i)

    abbrev pub check_from :
        Trace State Action → Option (MonitorState State Action) → Outcome State Action
    check_from t none = crashed
    check_from t (some q) =
        if len t == 0 || q.success
        then if q.success then accepted new_trace else rejected
        else scan t q 0 (len t)

    unfoldable pub check : Trace State Action → Outcome State Action
    unfolding scan
    check t = check_from t (get m.states init_state)
