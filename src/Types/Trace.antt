-- ===== src/Types/Trace.antt =====
-- The Trace of types/trace.go: the steps of an episode in four parallel slices.
pub mod Steps
use raft_rl_test.Base.{
  ℕ, zero, suc, ◌+◌, ◌-◌, ◌≡◌, ◌≤◌, ◌<◌, refl, Bool, true, false, List, [], ◌∷◌, ◌++◌, Option, some,
  none, if◌then◌else◌, leb, ltb, length, get_elem?, take,
}

module _ (State Action : Type 0) where
  pub record Trace : Type 0 where
    pub states : List State
    pub actions : List Action
    pub next_states : List State
    pub rewards : List Bool

  -- A transition of the trace with its reward.
  pub record Transition : Type 0 where
    pub state : State
    pub action : Action
    pub next_state : State
    pub reward : Bool

  -- What reading an index gives: the values there, the result that there are none, or a failure of
  -- Go, when a slice is shorter than `states`.
  pub data Reading : Type 0 where
    read : Transition → Reading
    past_end : Reading
    fails : Reading

module _ {State Action : Type 0} where
  abbrev pub new_trace : Trace State Action
  new_trace = record { states = []; actions = []; next_states = []; rewards = [] }

  unfoldable pub append_with_reward :
      Trace State Action → Transition State Action → Trace State Action
  append_with_reward t s = record {
    states = t.states ++ s.state ∷ [];
    actions = t.actions ++ s.action ∷ [];
    next_states = t.next_states ++ s.next_state ∷ [];
    rewards = t.rewards ++ s.reward ∷ [];
  }

  unfoldable pub append : Trace State Action → State → Action → State → Trace State Action
  unfolding append_with_reward
  append t s a ns =
      append_with_reward t (record { state = s; action = a; next_state = ns; reward = false })

  unfoldable pub len : Trace State Action → ℕ
  len t = length t.states

  -- The four values at one index.
  abbrev pub transition :
      Option State → Option Action → Option State → Option Bool → Reading State Action
  transition (some s) (some a) (some ns) (some r) =
      read (record { state = s; action = a; next_state = ns; reward = r })
  transition _ _ _ _ = fails

  abbrev pub values_at : Trace State Action → ℕ → Reading State Action
  values_at t i =
      transition (get_elem? t.states i) (get_elem? t.actions i) (get_elem? t.next_states i)
        (get_elem? t.rewards i)

  unfoldable pub get_with_reward : Trace State Action → ℕ → Reading State Action
  get_with_reward t i = if leb (length t.states) i then past_end else values_at t i

  unfoldable pub last : Trace State Action → Reading State Action
  last t = if ltb (length t.states) 1 then past_end else values_at t (length t.states - 1)

  -- GetPrefix, with its second result as the option.
  unfoldable pub get_prefix : Trace State Action → ℕ → Option (Trace State Action)
  get_prefix t i =
      if ltb (length t.states) i
      then none
      else some (record {
        states = take i t.states;
        actions = take i t.actions;
        next_states = take i t.next_states;
        rewards = take i t.rewards;
      })

  -- A round of the loop of Slice.
  abbrev add_read : Option (Trace State Action) → Reading State Action → Option (Trace State Action)
  add_read none r = none
  add_read (some t) (read s) = some (append_with_reward t s)
  add_read (some t) past_end = none
  add_read (some t) fails = none

  -- The loop of Slice, from an index on for a number of rounds.
  unfoldable pub slice_from :
      Trace State Action → Option (Trace State Action) → ℕ → ℕ → Option (Trace State Action)
  unfolding append_with_reward
  slice_from t into i zero = into
  slice_from t into i (suc rounds) = slice_from t (add_read into (values_at t i)) (suc i) rounds

  -- Slice, or none where Go fails, which is when `to` is beyond the end and `from` before `to`.
  unfoldable pub slice : Trace State Action → ℕ → ℕ → Option (Trace State Action)
  unfolding slice_from
  slice t from to = slice_from t (some new_trace) from (to - from)
