-- ===== src/Types/Partition/StepCtx.antt =====
-- The other handlers of `StepCtx`, itself and `ResetCtx` in types/partition_env.go.
use raft_rl_test.Base.{ℕ, suc, Bool, List, [], ◌∷◌, Option, some, none, if◌then◌else◌}
use raft_rl_test.Base.Assoc.{add}
use raft_rl_test.Types.Partition.Color.{Color}
use raft_rl_test.Types.Partition.State.{
  Partition, Action, create_partition, keep_same_partition, stop_start, stop, start, StopOrStart,
  send_request, byzantine, SystemState, PartitionEnv, Chance, Outcome, returns, fails, timed_out,
  invalid_action,
}
use raft_rl_test.Types.Partition.Handlers.{remove}
use raft_rl_test.Types.Partition.Step.{target, after_switch, after_request, honest, corrupt, commit}
use raft_rl_test.Types.Partition.Reset.{first_partition, started_with}
use raft_rl_test.Types.Partition.HandlersCtx.{
  SystemCtx, Result, ok, err, tick_unless, in_time, handle_partition_ctx,
}

module _ {Env Replica Message Request : Type 0} (sys : SystemCtx Env Replica Message Request)
    (painter : Replica → Color) (expired : ℕ → Bool) where
  -- The system after the node is stopped or started.
  abbrev pub switch_ctx : StopOrStart → Option ℕ → Env → Env × Result (Unit {0})
  switch_ctx k none env = (env, ok tt)
  switch_ctx stop (some n) env = sys.stop_ctx env n
  switch_ctx start (some n) env = sys.start_ctx env n

  abbrev pub switched : StopOrStart → Option ℕ → List ℕ → List ℕ
  switched k none active = active
  switched stop (some n) active = remove n active
  switched start (some n) active = add n active

  abbrev pub after_switch_ctx :
      PartitionEnv Env Replica Message Request
      → StopOrStart
      → List ℕ
      → Env × Result (SystemState Replica Message Request)
      → PartitionEnv Env Replica Message Request × Outcome (Partition Replica Request)
  after_switch_ctx p k new (env, err e) = (record p { underlying_env = env }, fails e)
  after_switch_ctx p k new (env, ok s) =
      in_time sys painter expired 0 (after_switch sys.plain painter p k new (env, s))

  unfoldable pub handle_start_stop_ctx :
      Chance Message
      → PartitionEnv Env Replica Message Request
      → Action
      → PartitionEnv Env Replica Message Request × Outcome (Partition Replica Request)
  unfolding remove
  handle_start_stop_ctx c p (stop_start color k) =
      let node = target sys.plain painter c p.cur_partition color k in
      after_switch_ctx p k (switched k node p.cur_partition.active_nodes)
        (tick_unless sys painter expired (switch_ctx k node p.underlying_env))
  handle_start_stop_ctx c p (create_partition _) = (p, fails invalid_action)
  handle_start_stop_ctx c p keep_same_partition = (p, fails invalid_action)
  handle_start_stop_ctx c p send_request = (p, fails invalid_action)
  handle_start_stop_ctx c p (byzantine _) = (p, fails invalid_action)

  abbrev pub after_request_ctx :
      PartitionEnv Env Replica Message Request
      → Env × Result (SystemState Replica Message Request)
      → PartitionEnv Env Replica Message Request × Outcome (Partition Replica Request)
  after_request_ctx p (env, err e) = (record p { underlying_env = env }, fails e)
  after_request_ctx p (env, ok s) = after_request sys.plain painter p (env, s)

  abbrev pub send_first_ctx :
      PartitionEnv Env Replica Message Request
      → List Request
      → PartitionEnv Env Replica Message Request × Outcome (Partition Replica Request)
  send_first_ctx p [] = (p, returns p.cur_partition)
  send_first_ctx p (r ∷ rs) = after_request_ctx p (sys.receive_request_ctx p.underlying_env r)

  unfoldable pub handle_request_ctx :
      Chance Message
      → PartitionEnv Env Replica Message Request
      → Action
      → PartitionEnv Env Replica Message Request × Outcome (Partition Replica Request)
  handle_request_ctx c p send_request =
      if p.cur_partition.can_deliver_request
      then send_first_ctx p p.cur_partition.pending_requests
      else (p, returns p.cur_partition)
  handle_request_ctx c p (create_partition _) = (p, fails invalid_action)
  handle_request_ctx c p keep_same_partition = (p, fails invalid_action)
  handle_request_ctx c p (stop_start _ _) = (p, fails invalid_action)
  handle_request_ctx c p (byzantine _) = (p, fails invalid_action)

  abbrev pub corrupt_ctx :
      PartitionEnv Env Replica Message Request
      → (Env → ℕ → Env)
      → List ℕ
      → PartitionEnv Env Replica Message Request × Outcome (Partition Replica Request)
  corrupt_ctx p become [] = (p, fails invalid_action)
  corrupt_ctx p become (n ∷ ns) =
      if expired 0 then (p, fails timed_out) else corrupt sys.plain painter p become (n ∷ ns)

  -- A system without Byzantine nodes, or no node to make one, is an error here.
  unfoldable pub handle_byzantine_ctx :
      Chance Message
      → PartitionEnv Env Replica Message Request
      → Action
      → PartitionEnv Env Replica Message Request × Outcome (Partition Replica Request)
  handle_byzantine_ctx c p (byzantine color) = elim sys.plain.become_byzantine [
    | none ↦ (p, fails invalid_action)
    | some become ↦ corrupt_ctx p become (honest sys.plain painter c p.cur_partition color)
  ]
  handle_byzantine_ctx c p (create_partition _) = (p, fails invalid_action)
  handle_byzantine_ctx c p keep_same_partition = (p, fails invalid_action)
  handle_byzantine_ctx c p (stop_start _ _) = (p, fails invalid_action)
  handle_byzantine_ctx c p send_request = (p, fails invalid_action)

  unfoldable pub handle_ctx :
      Chance Message
      → PartitionEnv Env Replica Message Request
      → Action
      → PartitionEnv Env Replica Message Request × Outcome (Partition Replica Request)
  unfolding handle_byzantine_ctx handle_start_stop_ctx handle_partition_ctx handle_request_ctx
  handle_ctx c p (byzantine color) = handle_byzantine_ctx c p (byzantine color)
  handle_ctx c p (stop_start color k) = handle_start_stop_ctx c p (stop_start color k)
  handle_ctx c p (create_partition new) =
      handle_partition_ctx sys painter expired c p (create_partition new)
  handle_ctx c p keep_same_partition =
      handle_partition_ctx sys painter expired c p keep_same_partition
  handle_ctx c p send_request = handle_request_ctx c p send_request

  -- The last look at the context, after the handler's own ones.
  unfoldable pub step_ctx :
      Chance Message
      → PartitionEnv Env Replica Message Request
      → Action
      → PartitionEnv Env Replica Message Request × Outcome (Partition Replica Request)
  unfolding handle_ctx
  step_ctx c p a =
      commit sys.plain painter
        (in_time sys painter expired (suc p.config.ticks_between_partition) (handle_ctx c p a))

  abbrev pub started_ctx :
      PartitionEnv Env Replica Message Request
      → Env × Result (SystemState Replica Message Request)
      → PartitionEnv Env Replica Message Request × Result (Partition Replica Request)
  started_ctx p (env, err e) = (record p { underlying_env = env }, err e)
  started_ctx p (env, ok s) =
      let done = started_with sys.plain painter p.config (env, s) in
      if expired 0
      then (record p { underlying_env = env }, err timed_out)
      else (done, ok done.cur_partition)

  unfoldable pub reset_ctx_env :
      PartitionEnv Env Replica Message Request
      → PartitionEnv Env Replica Message Request × Result (Partition Replica Request)
  unfolding first_partition
  reset_ctx_env p = started_ctx p (sys.reset_ctx p.underlying_env)
