-- ===== src/Tests/Partitions.antt =====
-- Three nodes under the partition environment. The system underneath counts what is done to it: a
-- tick is 1, a message delivered 10, one dropped 100, a request 1000, a stop 10000, a start 100000.
use raft_rl_test.Base.{
  ℕ, ◌+◌, ◌*◌, ◌≡◌, ◌≤◌, ◌<◌, refl, true, List, [], ◌∷◌, some, arith, length, ◌==◌, if◌then◌else◌,
}
use raft_rl_test.Base.Int.{pos}
use raft_rl_test.Base.Assoc.{get, put, has}
use raft_rl_test.Base.Every.{Every}
use raft_rl_test.Types.Partition.Color.{Color, painted, hash}
use raft_rl_test.Types.Partition.State.{
  Action, create_partition, stop_start, stop, byzantine, SystemState, System, PartitionEnvConfig,
  PartitionEnv, Chance, underlying,
}
use raft_rl_test.Types.Partition.Actions.{actions}
use raft_rl_test.Types.Partition.Reset.{new_partition_env}
use raft_rl_test.Types.Partition.Step.{step}
use raft_rl_test.Types.Partition.HandlersCtx.{SystemCtx, err}
use raft_rl_test.Types.Partition.StepCtx.{step_ctx}
use raft_rl_test.Types.Partition.Agreement.{without_errors, never, step-agree}
use raft_rl_test.Types.Partition.Committed.{Committed, step_ctx-Committed}
use raft_rl_test.Types.Partition.Delivery.{Isolates, step-Isolates}
use raft_rl_test.Types.Partition.Offered.{Allowed, actions-Allowed}
use raft_rl_test.Types.Partition.Placing.{IsPlaced}
use raft_rl_test.Types.Partition.Steps.{Steps, step-Steps, new_partition_env-IsPlaced}
use raft_rl_test.Types.Partition.Runs.{
  Run, starts, acts, stops, Left, Within, Run-crashes, Run-byzantine,
}

abbrev state : ℕ → SystemState ℕ (ℕ × ℕ) ℕ
state n = record {
  get_replica_state = λ node. if node == 1 then 1 else 2;
  pending_messages = (1, 2) ∷ (2, 3) ∷ [];
  pending_requests = 7 ∷ [];
  can_deliver_request = true;
}

abbrev counting : System ℕ ℕ (ℕ × ℕ) ℕ
counting = record {
  reset = λ n. (0, state 0);
  tick = λ n. (n + 1, state n);
  deliver_messages = λ n xs. (n + 10 * length xs, state n);
  drop_messages = λ n xs. (n + 100 * length xs, state n);
  receive_request = λ n r. (n + 1000, state n);
  stop_node = λ n node. n + 10000;
  start_node = λ n node. n + 100000;
  become_byzantine = some (λ n node. n);
  from_node = λ x. x.0;
  to_node = λ x. x.1;
}

-- The primary, node 1, has a colour of its own.
abbrev paint_state : ℕ → Color
paint_state n = painted (n ∷ [])

abbrev config : PartitionEnvConfig
config = record {
  ticks_between_partition = 2;
  num_replicas = 3;
  max_messages_per_tick = 5;
  stay_same_state_upto = pos 3;
  with_crashes = true;
  max_inactive = pos 1;
  crash_limit = pos 2;
  with_byzantine = true;
  max_byzantine = pos 1;
}

abbrev chance : Chance (ℕ × ℕ)
chance = record { pick = 0; order = λ m. m; shuffle = λ i xs. xs }

-- All colours in one part.
abbrev together_only : List (List ℕ) → List (List (List (List ℕ)))
together_only hs = (hs ∷ []) ∷ []

abbrev begun : PartitionEnv ℕ ℕ (ℕ × ℕ) ℕ
begun = new_partition_env counting paint_state config 0

-- The primary is cut off from the others.
abbrev cut : Action
cut = create_partition ((painted (1 ∷ []) ∷ []) ∷ (painted (2 ∷ []) ∷ painted (2 ∷ []) ∷ []) ∷ [])

cut_passes : (step counting paint_state chance begun cut).0.underlying_env ≡ 222
unfolding step new_partition_env put hash get has
cut_passes = refl

-- The primary stops.
abbrev crash : Action
crash = stop_start (1 ∷ []) stop

abbrev crashed : PartitionEnv ℕ ℕ (ℕ × ℕ) ℕ
crashed = (step counting paint_state chance begun crash).0

crashed_left : crashed.cur_partition.remaining_crashes ≡ pos 1
unfolding step new_partition_env put hash get has
crashed_left = refl

crashed_nodes : crashed.cur_partition.active_nodes ≡ 2 ∷ 3 ∷ []
unfolding step new_partition_env put hash get has
crashed_nodes = refl

-- No second node may stop, but the first may start again.
crashed_offers : length (actions together_only crashed.cur_partition) ≡ 5
unfolding step new_partition_env put hash get has actions
crashed_offers = refl

-- The system loses the connection when messages are delivered.
abbrev failing : SystemCtx ℕ ℕ (ℕ × ℕ) ℕ
failing = record (without_errors counting) { deliver_messages_ctx = λ n xs. (n, err underlying) }

step-Isolates_example :
    Isolates counting paint_state chance begun (step counting paint_state chance begun cut)
step-Isolates_example = step-Isolates counting paint_state chance begun cut tt

step-agree_example :
    step_ctx (without_errors counting) paint_state never chance begun (byzantine (2 ∷ []))
    ≡ step counting paint_state chance begun (byzantine (2 ∷ []))
unfolding new_partition_env put hash has
step-agree_example =
    step-agree counting paint_state chance begun (byzantine (2 ∷ []))
      (((λ n node. n), refl), (2, 3 ∷ [], refl))

step_ctx-Committed_example : Committed begun (step_ctx failing paint_state never chance begun cut)
step_ctx-Committed_example = step_ctx-Committed failing paint_state never chance begun cut

actions-Allowed_example :
    Every (Allowed crashed.cur_partition) (actions together_only crashed.cur_partition)
actions-Allowed_example = actions-Allowed together_only crashed.cur_partition

crash-Run : Run counting paint_state together_only begun (crash ∷ []) crashed
unfolding step new_partition_env put hash get has actions
crash-Run = acts chance 2 crash crashed.cur_partition starts refl refl

Run-crashes_example : Left 2 (stops (crash ∷ [])) crashed.cur_partition.remaining_crashes
Run-crashes_example =
    Run-crashes counting paint_state together_only config 0 2 refl (crash ∷ []) crashed crash-Run

Run-byzantine_example :
    Within 1
      (length crashed.cur_partition.byzantine_nodes)
      crashed.cur_partition.remaining_byzantine
Run-byzantine_example =
    Run-byzantine counting paint_state together_only config 0 1 refl (crash ∷ []) crashed crash-Run

new_partition_env-IsPlaced_example :
    IsPlaced begun.cur_partition
    × ((n : ℕ) → 0 < n → n ≤ 3 → get begun.cur_partition.partition_map n ≡ some 0)
new_partition_env-IsPlaced_example = new_partition_env-IsPlaced counting paint_state config 0

-- The parts are node 1 and nodes 2 and 3.
abbrev parts : List (List ℕ)
parts = (1 ∷ []) ∷ (2 ∷ 3 ∷ []) ∷ []

step-Steps_example :
    Steps counting paint_state (1 ∷ 2 ∷ 3 ∷ []) (step counting paint_state chance begun cut)
unfolding new_partition_env put get hash has raft_rl_test.Types.Partition.Parts.assign_parts
    raft_rl_test.Types.Partition.Placement.flat
step-Steps_example =
    step-Steps counting paint_state (1 ∷ 2 ∷ 3 ∷ []) chance begun cut (omega arith)
      (new_partition_env-IsPlaced counting paint_state config 0).0 ((λ P m h. h), (parts, refl))
      ((0, refl), ((0, refl), ((0, refl), tt)))
      ((parts, refl, refl), ((parts, refl, refl), ((parts, refl, refl), tt)))
