-- ===== src/Types/Partition/Committed.antt =====
-- What a call of `StepCtx` does to the current partition, errors and panics included.
use raft_rl_test.Base.{ℕ, zero, suc, ◌≡◌, refl, Bool, List, [], ◌∷◌, Option, some, none, if-both}
use raft_rl_test.Base.Assoc.{GoMap}
use raft_rl_test.Types.Partition.Color.{Color}
use raft_rl_test.Types.Partition.State.{
  Partition, Action, create_partition, keep_same_partition, stop_start, StopOrStart, send_request,
  byzantine, SystemState, PartitionEnv, Chance, Outcome, returns, panics, fails, invalid_action,
  timed_out,
}
use raft_rl_test.Types.Partition.Handlers.{after_ticks, waiting, keep_parts, change_parts}
use raft_rl_test.Types.Partition.Step.{after_switch, target, corrupt, honest, commit}
use raft_rl_test.Types.Partition.HandlersCtx.{
  SystemCtx, Result, ok, err, ticks_ctx, unless_error, tick_unless, in_time, after_ticks_ctx,
  run_parts_ctx, handle_partition_ctx, pass_messages_ctx,
}
use raft_rl_test.Types.Partition.StepCtx.{
  after_switch_ctx, switched, switch_ctx, after_request_ctx, send_first_ctx, handle_start_stop_ctx,
  handle_request_ctx, corrupt_ctx, handle_byzantine_ctx, handle_ctx, step_ctx,
}

module _ {Env Replica Message Request : Type 0} where
  -- The current partition and the configuration are those of `p`.
  pub record Keeps (p q : PartitionEnv Env Replica Message Request) : Type 0 where
    pub partition : q.cur_partition ≡ p.cur_partition
    pub config : q.config ≡ p.config

  abbrev KeepsIn :
      {A : Type 0}
      → PartitionEnv Env Replica Message Request
      → PartitionEnv Env Replica Message Request × A
      → Type 0
  KeepsIn p r = Keeps p r.0

  -- The current partition is the one that is returned, or is kept if none is.
  abbrev pub Committed :
      PartitionEnv Env Replica Message Request
      → PartitionEnv Env Replica Message Request × Outcome (Partition Replica Request)
      → Type 0
  Committed p (q, returns next) = (q.cur_partition ≡ next) × (q.config ≡ p.config)
  Committed p (q, fails e) = Keeps p q
  Committed p (q, panics) = Keeps p q

module _ {Env Replica Message Request : Type 0} (sys : SystemCtx Env Replica Message Request)
    (painter : Replica → Color) (expired : ℕ → Bool) where
  same : (p : PartitionEnv Env Replica Message Request) → Keeps p p
  same p = record { partition = refl; config = refl }

  move_on :
      (o p : PartitionEnv Env Replica Message Request) (env : Env) (messages : List Message)
      → Keeps o p
      → Keeps o (record p { underlying_env = env; messages = messages })
  move_on o p env messages h = record { partition = h.partition; config = h.config }

  unless_error-Keeps :
      (o p : PartitionEnv Env Replica Message Request)
      (go : PartitionEnv Env Replica Message Request
        → SystemState Replica Message Request
        → PartitionEnv Env Replica Message Request
          × Result (Option (SystemState Replica Message Request)))
      (r : Env × Result (SystemState Replica Message Request))
      → Keeps o p
      → ((q : PartitionEnv Env Replica Message Request) (t : SystemState Replica Message Request)
          → Keeps o q
          → Keeps o (go q t).0)
      → Keeps o (unless_error sys painter expired p go r).0
  unless_error-Keeps o p go (env, err e) h k = move_on o p env p.messages h
  unless_error-Keeps o p go (env, ok s) h k =
      k (record p { underlying_env = env }) s (move_on o p env p.messages h)

  ticks_ctx-Keeps :
      (o : PartitionEnv Env Replica Message Request) (c : Chance Message) (m : GoMap ℕ)
      (active : List ℕ) (i n : ℕ) (p : PartitionEnv Env Replica Message Request)
      (s : Option (SystemState Replica Message Request))
      → Keeps o p
      → Keeps o (ticks_ctx sys painter expired c m active i n p s).0
  unfolding ticks_ctx
  ticks_ctx-Keeps o c m active i zero p s h = h
  ticks_ctx-Keeps o c m active i (suc n) p s h =
      let go =
        λ (q : PartitionEnv Env Replica Message Request) (t : SystemState Replica Message Request).
          ticks_ctx sys painter expired c m active (suc i) n q (some t) in
      let passed = tick_unless sys painter expired (
        pass_messages_ctx sys painter expired p.config m active (c.shuffle i)
          (waiting sys.plain painter p s) p.underlying_env) in
      if-both (KeepsIn o) (expired i) {x = (p, err timed_out)}
        {y = unless_error sys painter expired p go passed} h
        (unless_error-Keeps o p go passed h
          (λ q t k. ticks_ctx-Keeps o c m active (suc i) n q (some t) k))

  in_time-Keeps :
      (o : PartitionEnv Env Replica Message Request) (i : ℕ)
      (r : PartitionEnv Env Replica Message Request × Outcome (Partition Replica Request))
      → Keeps o r.0
      → Keeps o (in_time sys painter expired i r).0
  in_time-Keeps o i (p, returns next) h = if-both (KeepsIn o) (expired i) h h
  in_time-Keeps o i (p, fails e) h = h
  in_time-Keeps o i (p, panics) h = h

  after_ticks_ctx-Keeps :
      (o : PartitionEnv Env Replica Message Request) (parts : List (List ℕ)) (m : GoMap ℕ)
      (r : PartitionEnv Env Replica Message Request
        × Result (Option (SystemState Replica Message Request)))
      → Keeps o r.0
      → Keeps o (after_ticks_ctx sys painter expired parts m r).0
  after_ticks_ctx-Keeps o parts m (p, err e) h = h
  after_ticks_ctx-Keeps o parts m (p, ok none) h = h
  after_ticks_ctx-Keeps o parts m (p, ok (some s)) h =
      in_time-Keeps o p.config.ticks_between_partition
        (after_ticks sys.plain painter parts m (p, some s))
        (move_on o p p.underlying_env s.pending_messages h)

  run_parts_ctx-Keeps :
      (c : Chance Message) (p : PartitionEnv Env Replica Message Request)
      (o : Option (List (List ℕ) × GoMap ℕ))
      → Keeps p (run_parts_ctx sys painter expired c p o).0
  run_parts_ctx-Keeps c p none = (same p)
  run_parts_ctx-Keeps c p (some (parts, m)) = after_ticks_ctx-Keeps p parts m _ (
      ticks_ctx-Keeps p c m p.cur_partition.active_nodes 0 p.config.ticks_between_partition p none
        (same p))

  after_switch_ctx-Keeps :
      (p : PartitionEnv Env Replica Message Request) (k : StopOrStart) (new : List ℕ)
      (r : Env × Result (SystemState Replica Message Request))
      → Keeps p (after_switch_ctx sys painter expired p k new r).0
  after_switch_ctx-Keeps p k new (env, err e) = move_on p p env p.messages (same p)
  after_switch_ctx-Keeps p k new (env, ok s) =
      in_time-Keeps p 0 (after_switch sys.plain painter p k new (env, s))
        (move_on p p env s.pending_messages (same p))

  after_request_ctx-Keeps :
      (p : PartitionEnv Env Replica Message Request)
      (r : Env × Result (SystemState Replica Message Request))
      → Keeps p (after_request_ctx sys painter expired p r).0
  after_request_ctx-Keeps p (env, err e) = move_on p p env p.messages (same p)
  after_request_ctx-Keeps p (env, ok s) = move_on p p env p.messages (same p)

  send_first_ctx-Keeps :
      (p : PartitionEnv Env Replica Message Request) (rs : List Request)
      → Keeps p (send_first_ctx sys painter expired p rs).0
  send_first_ctx-Keeps p [] = (same p)
  send_first_ctx-Keeps p (r ∷ rs) =
      after_request_ctx-Keeps p (sys.receive_request_ctx p.underlying_env r)

  corrupt_ctx-Keeps :
      (p : PartitionEnv Env Replica Message Request) (o : Option (Env → ℕ → Env)) (ns : List ℕ)
      → Keeps p
          (elim o
            as (λ o.
              PartitionEnv Env Replica Message Request × Outcome (Partition Replica Request)) [
                | none ↦ (p, fails invalid_action)
                | some become ↦ corrupt_ctx sys painter expired p become ns
              ]).0
  corrupt_ctx-Keeps p none ns = (same p)
  corrupt_ctx-Keeps p (some become) [] = (same p)
  corrupt_ctx-Keeps p (some become) (n ∷ ns) =
      if-both (KeepsIn p) (expired 0) {x = (p, fails timed_out)}
        {y = corrupt sys.plain painter p become (n ∷ ns)} (same p)
        (move_on p p (become p.underlying_env n) p.messages (same p))

  handle_ctx-Keeps :
      (c : Chance Message) (p : PartitionEnv Env Replica Message Request) (a : Action)
      → Keeps p (handle_ctx sys painter expired c p a).0
  unfolding handle_ctx handle_partition_ctx handle_start_stop_ctx handle_request_ctx
      handle_byzantine_ctx
  handle_ctx-Keeps c p (create_partition new) =
      run_parts_ctx-Keeps c p (change_parts sys.plain painter c p.cur_partition new)
  handle_ctx-Keeps c p keep_same_partition =
      run_parts_ctx-Keeps c p (keep_parts sys.plain painter p.cur_partition)
  handle_ctx-Keeps c p (stop_start color k) =
      let node = target sys.plain painter c p.cur_partition color k in
      after_switch_ctx-Keeps p k (switched sys painter expired k node p.cur_partition.active_nodes)
        (tick_unless sys painter expired (switch_ctx sys painter expired k node p.underlying_env))
  handle_ctx-Keeps c p send_request =
      if-both (KeepsIn p) p.cur_partition.can_deliver_request
        (send_first_ctx-Keeps p p.cur_partition.pending_requests) (same p)
  handle_ctx-Keeps c p (byzantine color) =
      corrupt_ctx-Keeps p sys.plain.become_byzantine
        (honest sys.plain painter c p.cur_partition color)

  commit-Committed :
      (p : PartitionEnv Env Replica Message Request)
      (r : PartitionEnv Env Replica Message Request × Outcome (Partition Replica Request))
      → Keeps p r.0
      → Committed p (commit sys.plain painter r)
  commit-Committed p (q, returns next) h = (refl, h.config)
  commit-Committed p (q, fails e) h = h
  commit-Committed p (q, panics) h = h

  -- Whatever the system underneath does, and whenever the deadline passes, StepCtx changes the
  -- current partition only together with returning it: after an error or a panic, the partition is
  -- the one from before. The configuration stays.
  pub step_ctx-Committed :
      (c : Chance Message) (p : PartitionEnv Env Replica Message Request) (a : Action)
      → Committed p (step_ctx sys painter expired c p a)
  unfolding step_ctx
  step_ctx-Committed c p a = commit-Committed p _ (
      in_time-Keeps p (suc p.config.ticks_between_partition) (handle_ctx sys painter expired c p a)
        (handle_ctx-Keeps c p a))
