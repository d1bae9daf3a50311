-- ===== src/Types/Partition/Agreement.antt =====
-- Without errors and within the deadline, the versions with a context do what the others do.
use raft_rl_test.Base.{
  ℕ, zero, suc, ◌≡◌, refl, ap, ◌∙◌, Bool, true, false, not, List, [], ◌∷◌, Option, some, none,
  length, if◌then◌else◌, if-cases, ◌==◌, select, take,
}
use raft_rl_test.Base.Assoc.{GoMap}
use raft_rl_test.Types.Partition.Color.{Color}
use raft_rl_test.Types.Partition.State.{
  Partition, Action, create_partition, keep_same_partition, stop_start, stop, start, StopOrStart,
  send_request, byzantine, SystemState, System, PartitionEnv, PartitionEnvConfig, Chance, Outcome,
  returns, panics, fails,
}
use raft_rl_test.Types.Partition.Handlers.{
  pass_messages, ticks, deliver_some, drop_some, handle_partition, run_parts, may_pass, keep_parts,
  change_parts, waiting,
}
use raft_rl_test.Types.Partition.Step.{
  handle_start_stop, handle_request, handle_byzantine, handle, step, honest, target, commit,
  send_first, after_switch, switch,
}
use raft_rl_test.Types.Partition.HandlersCtx.{
  SystemCtx, Result, ok, deliver_some_ctx, drop_some_ctx, pass_messages_ctx, ticks_ctx, in_time,
  handle_partition_ctx, run_parts_ctx, tick_unless,
}
use raft_rl_test.Types.Partition.StepCtx.{
  handle_start_stop_ctx, handle_request_ctx, send_first_ctx, handle_byzantine_ctx, handle_ctx,
  step_ctx, switch_ctx, switched, after_switch_ctx,
}

-- A context that is never done.
abbrev pub never : ℕ → Bool
never i = false

-- A result without an error.
abbrev pub fine : {Env A : Type 0} → Env × A → Env × Result A
fine (env, a) = (env, ok a)

-- A system that returns no errors.
abbrev pub without_errors :
    {Env Replica Message Request : Type 0}
    → System Env Replica Message Request
    → SystemCtx Env Replica Message Request
without_errors sys = record {
  plain = sys;
  reset_ctx = λ env. fine (sys.reset env);
  tick_ctx = λ env. fine (sys.tick env);
  deliver_messages_ctx = λ env xs. fine (sys.deliver_messages env xs);
  drop_messages_ctx = λ env xs. fine (sys.drop_messages env xs);
  receive_request_ctx = λ env r. fine (sys.receive_request env r);
  stop_ctx = λ env n. (sys.stop_node env n, ok tt);
  start_ctx = λ env n. (sys.start_node env n, ok tt);
}

module _ {Env Replica Message Request : Type 0} (sys : System Env Replica Message Request)
    (painter : Replica → Color) where
  drop-deliver :
      (xs ys : List Message) (env : Env)
      → drop_some_ctx
          (without_errors sys)
          painter
          never
          xs
          (deliver_some_ctx (without_errors sys) painter never ys env)
        ≡ (drop_some sys painter xs (deliver_some sys painter ys env), ok tt)
  drop-deliver [] [] env = refl
  drop-deliver [] (y ∷ ys) env = refl
  drop-deliver (x ∷ xs) [] env = refl
  drop-deliver (x ∷ xs) (y ∷ ys) env = refl

  pass_messages-agree :
      (config : PartitionEnvConfig) (m : GoMap ℕ) (active : List ℕ)
      (shuffle : List Message → List Message) (messages : List Message) (env : Env)
      → pass_messages_ctx (without_errors sys) painter never config m active shuffle messages env
        ≡ (pass_messages sys painter config m active shuffle messages env, ok tt)
  unfolding pass_messages_ctx pass_messages
  pass_messages-agree config m active shuffle messages env =
      let chosen = take config.max_messages_per_tick (shuffle messages) in
      if-cases {A = Env × Result (Unit {0})}
        (λ x. x ≡ (pass_messages sys painter config m active shuffle messages env, ok tt))
        (length messages == 0) (λ e. rw e refl)
        (λ e. rw e (
          drop-deliver (select (λ x. not (may_pass sys painter m active x)) chosen)
            (select (may_pass sys painter m active) chosen) env))

  ticks-agree :
      (c : Chance Message) (m : GoMap ℕ) (active : List ℕ) (i n : ℕ)
      (p : PartitionEnv Env Replica Message Request)
      (s : Option (SystemState Replica Message Request))
      → ticks_ctx (without_errors sys) painter never c m active i n p s
        ≡ fine (ticks sys painter c m active i n p s)
  unfolding ticks_ctx ticks
  ticks-agree c m active i zero p s = refl
  ticks-agree c m active i (suc n) p s =
      let env =
        pass_messages sys painter p.config m active (c.shuffle i) (waiting sys painter p s)
          p.underlying_env in
      rw
        (pass_messages-agree p.config m active (c.shuffle i) (waiting sys painter p s)
          p.underlying_env)
        (ticks-agree c m active (suc i) n (record p { underlying_env = (sys.tick env).0 })
          (some (sys.tick env).1))

  in_time-never :
      (i : ℕ) (r : PartitionEnv Env Replica Message Request × Outcome (Partition Replica Request))
      → in_time (without_errors sys) painter never i r ≡ r
  in_time-never i (p, returns next) = refl
  in_time-never i (p, fails e) = refl
  in_time-never i (p, panics) = refl

  run_parts-agree :
      (c : Chance Message) (p : PartitionEnv Env Replica Message Request)
      (o : Option (List (List ℕ) × GoMap ℕ))
      → run_parts_ctx (without_errors sys) painter never c p o ≡ run_parts sys painter c p o
  run_parts-agree c p none = refl
  run_parts-agree c p (some (parts, m)) =
      rw (ticks-agree c m p.cur_partition.active_nodes 0 p.config.ticks_between_partition p none) (
        in_time-never
          (ticks sys painter c m p.cur_partition.active_nodes 0 p.config.ticks_between_partition p
            none).0.config.ticks_between_partition
          _)

  handle_start_stop-agree :
      (c : Chance Message) (p : PartitionEnv Env Replica Message Request) (color : List ℕ)
      (k : StopOrStart)
      → handle_start_stop_ctx (without_errors sys) painter never c p (stop_start color k)
        ≡ handle_start_stop sys painter c p (stop_start color k)
  unfolding handle_start_stop_ctx handle_start_stop
  handle_start_stop-agree c p color k = go k (target sys painter c p.cur_partition color k)
    where
      go :
          (k' : StopOrStart) (o : Option ℕ)
          → after_switch_ctx
              (without_errors sys)
              painter
              never
              p
              k'
              (switched (without_errors sys) painter never k' o p.cur_partition.active_nodes)
              (tick_unless
                (without_errors sys)
                painter
                never
                (switch_ctx (without_errors sys) painter never k' o p.underlying_env))
            ≡ after_switch sys painter p k'
                (switch sys painter k' o p.underlying_env p.cur_partition.active_nodes).1
                (sys.tick (switch sys painter k' o p.underlying_env p.cur_partition.active_nodes).0)
      go k' none = in_time-never 0 _
      go stop (some n) = in_time-never 0 _
      go start (some n) = in_time-never 0 _

  send_first-agree :
      (p : PartitionEnv Env Replica Message Request) (rs : List Request)
      → send_first_ctx (without_errors sys) painter never p rs ≡ send_first sys painter p rs
  send_first-agree p [] = refl
  send_first-agree p (r ∷ rs) = refl

  handle_request-agree :
      (c : Chance Message) (p : PartitionEnv Env Replica Message Request)
      → handle_request_ctx (without_errors sys) painter never c p send_request
        ≡ handle_request sys painter c p send_request
  unfolding handle_request_ctx handle_request
  handle_request-agree c p = both p.cur_partition.can_deliver_request
    where
      both :
          (b : Bool)
          → (if b
              then send_first_ctx
                  (without_errors sys)
                  painter
                  never
                  p
                  p.cur_partition.pending_requests
              else (p, returns p.cur_partition))
            ≡ (if b
                then send_first sys painter p p.cur_partition.pending_requests
                else (p, returns p.cur_partition))
      both true = send_first-agree p p.cur_partition.pending_requests
      both false = refl

  -- The actions that both versions take in the same way: a Byzantine action needs a node to make
  -- Byzantine and a system that can, where the version with a context returns an error.
  abbrev pub Applies : Chance Message → PartitionEnv Env Replica Message Request → Action → Type 0
  Applies c p (byzantine color) =
      ((become : Env → ℕ → Env) × (sys.become_byzantine ≡ some become))
      × ((n : ℕ) × (ns : List ℕ) × (honest sys painter c p.cur_partition color ≡ n ∷ ns))
  Applies c p (create_partition new) = Unit
  Applies c p keep_same_partition = Unit
  Applies c p (stop_start color k) = Unit
  Applies c p send_request = Unit

  handle-agree :
      (c : Chance Message) (p : PartitionEnv Env Replica Message Request) (a : Action)
      → Applies c p a
      → handle_ctx (without_errors sys) painter never c p a ≡ handle sys painter c p a
  unfolding handle_ctx handle handle_partition_ctx handle_partition handle_byzantine_ctx
      handle_byzantine
  handle-agree c p (create_partition new) h =
      run_parts-agree c p (change_parts sys painter c p.cur_partition new)
  handle-agree c p keep_same_partition h =
      run_parts-agree c p (keep_parts sys painter p.cur_partition)
  handle-agree c p (stop_start color k) h = handle_start_stop-agree c p color k
  handle-agree c p send_request h = handle_request-agree c p
  handle-agree c p (byzantine color) h = rw (h.0.1, h.1.2) refl

  -- StepCtx does what Step does, on a system that returns no errors and under a context that is never
  -- done, for every action but a Byzantine one: for that, if the system can make nodes Byzantine and
  -- some node of the colour is still honest.
  pub step-agree :
      (c : Chance Message) (p : PartitionEnv Env Replica Message Request) (a : Action)
      → Applies c p a
      → step_ctx (without_errors sys) painter never c p a ≡ step sys painter c p a
  unfolding step_ctx step
  step-agree c p a h = ap (commit sys painter) (
      in_time-never (suc p.config.ticks_between_partition)
        (handle_ctx (without_errors sys) painter never c p a)
      ∙ handle-agree c p a h)
