-- ===== src/Tests/Monitors.antt =====
-- Traces of numbers and monitors on them.
use raft_rl_test.Base.{
  ℕ, suc, ◌-◌, ◌≡◌, refl, false, List, [], ◌∷◌, none, some, arith, length, take, drop, ◌==◌, ltb,
  if◌then◌else◌, get_elem?,
}
use raft_rl_test.Base.Assoc.{GoMap, get, put}
use raft_rl_test.Types.Trace.{Transition, get_with_reward, get_prefix, slice, len}
use raft_rl_test.Types.Trace.Steps.{
  trace_of, reading_of, get-trace_of, prefix-trace_of, slice-trace_of,
}
use raft_rl_test.Types.Monitor.{
  MonitorCondition, Monitor, accepted, rejected, init_state, new_monitor, build, on, mark_success,
  update, check, scan, advance, fire,
}
use raft_rl_test.Types.Monitor.Check.{Accepts, NotYet, check-Accepts, check-NotYet}

-- From 0 to 1 to 2 by adding 1.
abbrev from : ℕ → Transition ℕ ℕ
from n = record { state = n; action = 1; next_state = suc n; reward = false }

abbrev three : List (Transition ℕ ℕ)
three = from 0 ∷ from 1 ∷ from 2 ∷ []

get-trace_of_example : get_with_reward (trace_of three) 3 ≡ reading_of (get_elem? three 3)
get-trace_of_example = get-trace_of three 3

prefix-trace_of_example :
    get_prefix (trace_of three) 2
    ≡ (if ltb (length three) 2 then none else some (trace_of (take 2 three)))
prefix-trace_of_example = prefix-trace_of three 2

slice-trace_of_example : slice (trace_of three) 1 3 ≡ some (trace_of (take (3 - 1) (drop 1 three)))
slice-trace_of_example = slice-trace_of three 1 3 (omega arith)

abbrev reaches : ℕ → MonitorCondition ℕ ℕ
reaches n s a ns = ns == n

-- On().On().MarkSuccess(): first a step to 1, then one to a given number.
abbrev watch : ℕ → Monitor ℕ ℕ
watch n = (mark_success (on (on (build new_monitor) (reaches 1) 1) (reaches n) 2)).monitor

abbrev as_is : GoMap (MonitorCondition ℕ ℕ) → GoMap (MonitorCondition ℕ ℕ)
as_is m = m

accepts_early : check as_is (watch 2) (trace_of three) ≡ accepted (trace_of (from 0 ∷ []))
unfolding check scan advance fire get_with_reward get_prefix len get put on mark_success build
    new_monitor update
accepts_early = refl

check-Accepts_example :
    Accepts as_is (watch 2) (get (watch 2).states init_state) three (trace_of (from 0 ∷ []))
unfolding get put on mark_success build new_monitor update
check-Accepts_example =
    check-Accepts as_is (watch 2) three (trace_of (from 0 ∷ [])) (omega arith) refl accepts_early

rejects : check as_is (watch 7) (trace_of three) ≡ rejected
unfolding check scan advance fire get_with_reward get_prefix len get put on mark_success build
    new_monitor update
rejects = refl

check-NotYet_example : NotYet as_is (watch 7) (get (watch 7).states init_state) three 3
unfolding get put on mark_success build new_monitor update
check-NotYet_example = check-NotYet as_is (watch 7) three (omega arith) refl rejects
