-- ===== src/Policies/RewardMachine.antt =====
-- The reward machine of policies/reward_machine.go and the trace segments of types/trace.go that it
-- collects. The names of its states are numbers that stand for the strings; the policies that it
-- chooses among are values of a type of their own.
use raft_rl_test.Base.{
  ℕ, zero, suc, ◌-◌, ◌==◌, Bool, true, false, not, ◌&&◌, List, [], ◌∷◌, ◌++◌, Option, some, none,
  if◌then◌else◌, ltb, length, get_elem?, get_last?,
}
use raft_rl_test.Base.Assoc.{GoMap, get, put}

-- InitState and FinalState.
abbrev pub init_name : ℕ
init_name = 0

abbrev pub final_name : ℕ
final_name = 1

-- A name before the last one. Go fails on an empty list, which a machine never has.
unfoldable pub insert_before_last : ℕ → List ℕ → List ℕ
insert_before_last name [] = []
insert_before_last name (x ∷ []) = name ∷ x ∷ []
insert_before_last name (x ∷ y ∷ ys) = x ∷ insert_before_last name (y ∷ ys)

abbrev pub name_or_zero : Option ℕ → ℕ
name_or_zero none = 0
name_or_zero (some name) = name

module _ {State : Type 0} where
  abbrev pub holds : Option (State → Bool) → State → Bool
  holds none s = false
  holds (some predicate) s = predicate s

  abbrev pub pick : GoMap (State → Bool) → State → ℕ → Option ℕ → Option (ℕ × ℕ) → Option (ℕ × ℕ)
  pick predicates s i none below = below
  pick predicates s i (some name) below =
      if holds (get predicates name) s then some (i, name) else below

  -- The loops over the states from the last one: the first position whose predicate holds.
  unfoldable pub scan_down : GoMap (State → Bool) → List ℕ → State → ℕ → Option (ℕ × ℕ)
  scan_down predicates states s zero = none
  scan_down predicates states s (suc i) =
      let below = scan_down predicates states s i in pick predicates s i (get_elem? states i) below

module _ (State Action : Type 0) where
  pub record RmTrace : Type 0 where
    pub states : List State
    pub actions : List Action
    pub next_states : List State
    pub rewards : List Bool
    pub out_of_space : List Bool

  pub record RewardMachine (Policy : Type 0) : Type 0 where
    pub predicates : GoMap (State → Bool)
    pub policies : GoMap Policy
    pub states : List ℕ

  pub record RewardMachinePolicy (Policy : Type 0) : Type 0 where
    pub cur_rm_state : ℕ
    pub cur_rm_state_pos : ℕ
    pub rm : RewardMachine Policy
    pub one_time : Bool
    pub reached : Bool
    pub cur_trace_segments : GoMap RmTrace

module _ {State Action : Type 0} where
  abbrev pub new_rm_trace : RmTrace State Action
  new_rm_trace = record {
    states = [];
    actions = [];
    next_states = [];
    rewards = [];
    out_of_space = [];
  }

  unfoldable pub rm_append :
      RmTrace State Action → State → Action → State → Bool → Bool → RmTrace State Action
  rm_append t s a ns reward out = record {
    states = t.states ++ s ∷ [];
    actions = t.actions ++ a ∷ [];
    next_states = t.next_states ++ ns ∷ [];
    rewards = t.rewards ++ reward ∷ [];
    out_of_space = t.out_of_space ++ out ∷ [];
  }

  abbrev pub segment_or_new : Option (RmTrace State Action) → RmTrace State Action
  segment_or_new none = new_rm_trace
  segment_or_new (some t) = t

module _ {State Action Policy : Type 0} where
  -- `explore` and `guide` are the two policies that the code makes here.
  unfoldable pub new_reward_machine :
      Policy → Policy → (State → Bool) → RewardMachine State Action Policy
  new_reward_machine explore guide pred = record {
    predicates = (init_name, λ s. true) ∷ (final_name, pred) ∷ [];
    policies = (final_name, explore) ∷ (init_name, guide) ∷ [];
    states = init_name ∷ final_name ∷ [];
  }

  unfoldable pub add_state_with_policy :
      RewardMachine State Action Policy
      → (State → Bool)
      → ℕ
      → Policy
      → RewardMachine State Action Policy
  unfolding insert_before_last
  add_state_with_policy rm pred name policy = record {
    predicates = put rm.predicates name pred;
    policies = put rm.policies name policy;
    states = insert_before_last name rm.states;
  }

  unfoldable pub with_exploration_policy :
      RewardMachine State Action Policy → Policy → RewardMachine State Action Policy
  with_exploration_policy rm policy = record rm { policies = put rm.policies final_name policy }

  unfoldable pub new_policy :
      RewardMachine State Action Policy → Bool → RewardMachinePolicy State Action Policy
  new_policy rm one_time = record {
    cur_rm_state = init_name;
    cur_rm_state_pos = 0;
    rm = rm;
    one_time = one_time;
    reached = false;
    cur_trace_segments = [];
  }

  unfoldable pub find : RewardMachine State Action Policy → State → Option (ℕ × ℕ)
  unfolding scan_down
  find rm s = scan_down rm.predicates rm.states s (length rm.states)

  abbrev pub move_to :
      RewardMachinePolicy State Action Policy
      → Option (ℕ × ℕ)
      → RewardMachinePolicy State Action Policy
  move_to rp none = rp
  move_to rp (some p) = record rp { cur_rm_state = p.1; cur_rm_state_pos = p.0 }

  -- What NextAction does to the machine before it asks the policy of the current state.
  unfoldable pub place :
      RewardMachinePolicy State Action Policy → ℕ → State → RewardMachinePolicy State Action Policy
  unfolding find
  place rp step s = if step == 0 then move_to rp (find rp.rm s) else rp

  -- The end of Update: the transition joins the segment of the state that was current.
  abbrev pub record_step :
      RewardMachinePolicy State Action Policy
      → State
      → Action
      → State
      → Bool
      → Bool
      → RewardMachinePolicy State Action Policy
  record_step rp s a ns reward out = record rp {
    cur_trace_segments =
        put rp.cur_trace_segments rp.cur_rm_state (
          rm_append (segment_or_new (get rp.cur_trace_segments rp.cur_rm_state)) s a ns reward out);
  }

  -- Update, when the loop has found a position or when there was none to find.
  abbrev pub update_to :
      RewardMachinePolicy State Action Policy
      → State
      → Action
      → State
      → Option (ℕ × ℕ)
      → RewardMachinePolicy State Action Policy
  update_to rp s a ns none = record (record_step rp s a ns false false) {
    cur_rm_state = name_or_zero (get_last? rp.rm.states);
    cur_rm_state_pos = length rp.rm.states - 1;
  }
  update_to rp s a ns (some p) =
      record (record_step rp s a ns (ltb rp.cur_rm_state_pos p.0)
        (not (p.0 == rp.cur_rm_state_pos))) {
          cur_rm_state = p.1;
          cur_rm_state_pos = p.0;
          reached = if rp.one_time && p.0 == length rp.rm.states - 1 then true else rp.reached;
        }

  unfoldable pub update :
      RewardMachinePolicy State Action Policy
      → State
      → Action
      → State
      → RewardMachinePolicy State Action Policy
  unfolding find rm_append
  update rp s a ns = update_to rp s a ns (if not rp.reached then find rp.rm ns else none)

  -- What UpdateIteration and Reset do to the machine, beside the calls of its policies.
  unfoldable pub end_episode :
      RewardMachinePolicy State Action Policy → RewardMachinePolicy State Action Policy
  end_episode rp = record rp {
    cur_rm_state = init_name;
    cur_rm_state_pos = 0;
    cur_trace_segments = [];
    reached = false;
  }
