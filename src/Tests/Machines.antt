-- ===== src/Tests/Machines.antt =====
-- A reward machine on numbers, with one state between the first and the last.
use raft_rl_test.Base.{ℕ, arith, ◌-◌, ◌≡◌, refl, true, [], ◌∷◌, length, ltb, some}
use raft_rl_test.Base.Assoc.{get, put}
use raft_rl_test.Policies.RewardMachine.{
  RewardMachine, RewardMachinePolicy, new_reward_machine, add_state_with_policy, insert_before_last,
  new_policy, find, scan_down, update,
}
use raft_rl_test.Policies.Progress.{Sought, StepsTo, update-StepsTo, updates, updates-reached}

-- The policies are numbers; the last state is for numbers above 9, the middle one for those above 4.
abbrev machine : RewardMachine ℕ ℕ ℕ
machine = add_state_with_policy (new_reward_machine 0 1 (λ n. ltb 9 n)) (λ n. ltb 4 n) 7 2

abbrev begun : RewardMachinePolicy ℕ ℕ ℕ
begun = new_policy machine true

found_middle : find machine 5 ≡ some (1, 7)
unfolding find scan_down get put new_reward_machine add_state_with_policy insert_before_last
found_middle = refl

middle-Sought : Sought begun 5 (some (1, 7))
unfolding get put new_reward_machine add_state_with_policy insert_before_last new_policy
middle-Sought = record {
  inside = omega arith;
  name = refl;
  succeeds = refl;
  later_fail = λ j l k. let last : j ≡ 2 = omega (arith, l, k) in rw last refl;
}

update-StepsTo_example : StepsTo begun (update begun 0 5 5) 0 5 5 (some (1, 7))
unfolding new_policy
update-StepsTo_example = update-StepsTo begun 0 5 5 (some (1, 7)) refl middle-Sought

-- A machine that has met a number above 9.
abbrev ended : RewardMachinePolicy ℕ ℕ ℕ
ended = update begun 0 10 10

ends : ended.reached ≡ true
unfolding update find scan_down get put new_reward_machine add_state_with_policy insert_before_last
    new_policy
ends = refl

updates-reached_example :
    ((updates ended ((10, 1, 11) ∷ (11, 0, 0) ∷ [])).reached ≡ true)
    × ((updates ended ((10, 1, 11) ∷ (11, 0, 0) ∷ [])).cur_rm_state_pos
        ≡ length ended.rm.states - 1)
updates-reached_example = updates-reached ended (10, 1, 11) ((11, 0, 0) ∷ []) ends
