-- ===== src/Types/Partition/HandlersCtx.antt =====
-- `handlePartitionCtx` of types/partition_env.go: the work of handlePartition on a system that may
-- return errors, with a deadline. `expired i` says whether the context is done at look i: handlePartition
-- looks at it before each tick, with the tick's number, and after the last; the other handlers look
-- with number 0, and StepCtx looks once more at the end.
use raft_rl_test.Base.{
  ℕ, zero, suc, Bool, not, List, [], ◌∷◌, Option, some, none, length, if◌then◌else◌, ◌==◌, select,
  take,
}
use raft_rl_test.Base.Assoc.{GoMap}
use raft_rl_test.Types.Partition.Color.{Color}
use raft_rl_test.Types.Partition.State.{
  Partition, Action, create_partition, keep_same_partition, stop_start, send_request, byzantine,
  SystemState, System, PartitionEnv, PartitionEnvConfig, Chance, Outcome, returns, panics, fails,
  Error, timed_out, invalid_action,
}
use raft_rl_test.Types.Partition.Parts.{number_parts, place_all, assign_parts}
use raft_rl_test.Types.Partition.Handlers.{may_pass, waiting, keep_parts, change_parts, after_ticks}

-- A value, or an error of the system.
pub data Result (A : Type 0) : Type 0 where
  ok : A → Result A
  err : Error → Result A

-- The methods of a PartitionedSystemEnvironmentCtx. The other methods are those of `plain`.
pub record SystemCtx (Env Replica Message Request : Type 0) : Type 0 where
  pub plain : System Env Replica Message Request
  pub reset_ctx : Env → Env × Result (SystemState Replica Message Request)
  pub tick_ctx : Env → Env × Result (SystemState Replica Message Request)
  pub deliver_messages_ctx : Env → List Message → Env × Result (SystemState Replica Message Request)
  pub drop_messages_ctx : Env → List Message → Env × Result (SystemState Replica Message Request)
  pub receive_request_ctx : Env → Request → Env × Result (SystemState Replica Message Request)
  pub stop_ctx : Env → ℕ → Env × Result (Unit {0})
  pub start_ctx : Env → ℕ → Env × Result (Unit {0})

-- The value is dropped; an error stays.
abbrev pub forget : {A Env : Type 0} → Env × Result A → Env × Result (Unit {0})
forget (env, ok a) = (env, ok tt)
forget (env, err e) = (env, err e)

module _ {Env Replica Message Request : Type 0} (sys : SystemCtx Env Replica Message Request)
    (painter : Replica → Color) (expired : ℕ → Bool) where
  abbrev pub deliver_some_ctx : List Message → Env → Env × Result (Unit {0})
  deliver_some_ctx [] env = (env, ok tt)
  deliver_some_ctx (x ∷ xs) env = forget (sys.deliver_messages_ctx env (x ∷ xs))

  abbrev pub drop_some_ctx : List Message → Env × Result (Unit {0}) → Env × Result (Unit {0})
  drop_some_ctx xs (env, err e) = (env, err e)
  drop_some_ctx [] (env, ok _) = (env, ok tt)
  drop_some_ctx (x ∷ xs) (env, ok _) = forget (sys.drop_messages_ctx env (x ∷ xs))

  unfoldable pub pass_messages_ctx :
      PartitionEnvConfig
      → GoMap ℕ
      → List ℕ
      → (List Message → List Message)
      → List Message
      → Env
      → Env × Result (Unit {0})
  pass_messages_ctx config m active shuffle messages env =
      let chosen = take config.max_messages_per_tick (shuffle messages) in
      let to_deliver = select (may_pass sys.plain painter m active) chosen in
      let to_drop = select (λ x. not (may_pass sys.plain painter m active x)) chosen in
      if length messages == 0
      then (env, ok tt)
      else drop_some_ctx to_drop (deliver_some_ctx to_deliver env)

  abbrev pub tick_unless :
      Env × Result (Unit {0}) → Env × Result (SystemState Replica Message Request)
  tick_unless (env, err e) = (env, err e)
  tick_unless (env, ok _) = sys.tick_ctx env

  -- The end of a round of the loop: the loop goes on unless there was an error.
  abbrev pub unless_error :
      PartitionEnv Env Replica Message Request
      → (PartitionEnv Env Replica Message Request
          → SystemState Replica Message Request
          → PartitionEnv Env Replica Message Request
            × Result (Option (SystemState Replica Message Request)))
      → Env × Result (SystemState Replica Message Request)
      → PartitionEnv Env Replica Message Request
        × Result (Option (SystemState Replica Message Request))
  unless_error p go (env, err e) = (record p { underlying_env = env }, err e)
  unless_error p go (env, ok s) = go (record p { underlying_env = env }) s

  unfoldable pub ticks_ctx :
      Chance Message
      → GoMap ℕ
      → List ℕ
      → ℕ
      → ℕ
      → PartitionEnv Env Replica Message Request
      → Option (SystemState Replica Message Request)
      → PartitionEnv Env Replica Message Request
        × Result (Option (SystemState Replica Message Request))
  unfolding pass_messages_ctx
  ticks_ctx c m active i zero p s = (p, ok s)
  ticks_ctx c m active i (suc n) p s =
      let go =
        λ (q : PartitionEnv Env Replica Message Request) (t : SystemState Replica Message Request).
          ticks_ctx c m active (suc i) n q (some t) in
      let passed =
        pass_messages_ctx p.config m active (c.shuffle i) (waiting sys.plain painter p s)
          p.underlying_env in
      if expired i then (p, err timed_out) else unless_error p go (tick_unless passed)

  -- A look at the context once the work is done.
  abbrev pub in_time :
      ℕ
      → PartitionEnv Env Replica Message Request × Outcome (Partition Replica Request)
      → PartitionEnv Env Replica Message Request × Outcome (Partition Replica Request)
  in_time i (p, returns next) = if expired i then (p, fails timed_out) else (p, returns next)
  in_time i (p, fails e) = (p, fails e)
  in_time i (p, panics) = (p, panics)

  abbrev pub after_ticks_ctx :
      List (List ℕ)
      → GoMap ℕ
      → PartitionEnv Env Replica Message Request
        × Result (Option (SystemState Replica Message Request))
      → PartitionEnv Env Replica Message Request × Outcome (Partition Replica Request)
  after_ticks_ctx parts m (p, err e) = (p, fails e)
  after_ticks_ctx parts m (p, ok s) =
      in_time p.config.ticks_between_partition (after_ticks sys.plain painter parts m (p, s))

  abbrev pub run_parts_ctx :
      Chance Message
      → PartitionEnv Env Replica Message Request
      → Option (List (List ℕ) × GoMap ℕ)
      → PartitionEnv Env Replica Message Request × Outcome (Partition Replica Request)
  run_parts_ctx c p none = (p, panics)
  run_parts_ctx c p (some (parts, m)) =
      after_ticks_ctx parts m
        (ticks_ctx c m p.cur_partition.active_nodes 0 p.config.ticks_between_partition p none)

  unfoldable pub handle_partition_ctx :
      Chance Message
      → PartitionEnv Env Replica Message Request
      → Action
      → PartitionEnv Env Replica Message Request × Outcome (Partition Replica Request)
  unfolding ticks_ctx place_all number_parts assign_parts
  handle_partition_ctx c p (create_partition new) =
      run_parts_ctx c p (change_parts sys.plain painter c p.cur_partition new)
  handle_partition_ctx c p keep_same_partition =
      run_parts_ctx c p (keep_parts sys.plain painter p.cur_partition)
  handle_partition_ctx c p (stop_start _ _) = (p, fails invalid_action)
  handle_partition_ctx c p send_request = (p, fails invalid_action)
  handle_partition_ctx c p (byzantine _) = (p, fails invalid_action)
