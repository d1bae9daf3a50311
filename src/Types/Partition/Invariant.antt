-- ===== src/Types/Partition/Invariant.antt =====
-- What holds of the system under a partition environment as long as its own methods keep it.
use raft_rl_test.Base.{
  ℕ, zero, suc, ◌≡◌, refl, not, List, [], ◌∷◌, Option, some, none, length, select, take, if-both,
  ◌==◌,
}
use raft_rl_test.Base.Assoc.{GoMap}
use raft_rl_test.Types.Partition.Color.{Color}
use raft_rl_test.Types.Partition.State.{
  Partition, Action, create_partition, keep_same_partition, stop_start, stop, start, StopOrStart,
  send_request, byzantine, SystemState, System, PartitionEnv, PartitionEnvConfig, Chance, Outcome,
  returns, panics, fails,
}
use raft_rl_test.Types.Partition.Handlers.{
  may_pass, deliver_some, drop_some, pass_messages, waiting, ticks, after_ticks, run_parts,
  keep_parts, change_parts, handle_partition,
}
use raft_rl_test.Types.Partition.Step.{
  step, handle, commit, handle_start_stop, handle_request, handle_byzantine, send_first, corrupt,
  honest, switch, target,
}

-- Every method of the system keeps `I`.
pub record IsInvariant {Env Replica Message Request : Type 0}
    (sys : System Env Replica Message Request) (I : Env → Type 0) : Type 0 where
  pub reset_keeps : (env : Env) → I env → I (sys.reset env).0
  pub tick_keeps : (env : Env) → I env → I (sys.tick env).0
  pub deliver_keeps : (env : Env) (xs : List Message) → I env → I (sys.deliver_messages env xs).0
  pub drop_keeps : (env : Env) (xs : List Message) → I env → I (sys.drop_messages env xs).0
  pub request_keeps : (env : Env) (r : Request) → I env → I (sys.receive_request env r).0
  pub stop_keeps : (env : Env) (n : ℕ) → I env → I (sys.stop_node env n)
  pub start_keeps : (env : Env) (n : ℕ) → I env → I (sys.start_node env n)
  pub become_keeps :
      (become : Env → ℕ → Env)
      → sys.become_byzantine ≡ some become
      → (env : Env) (n : ℕ) → I env
      → I (become env n)

module _ {Env Replica Message Request : Type 0} (sys : System Env Replica Message Request)
    (painter : Replica → Color) (I : Env → Type 0) (keeps : IsInvariant sys I) where
  deliver_some-I : (xs : List Message) (env : Env) → I env → I (deliver_some sys painter xs env)
  deliver_some-I [] env h = h
  deliver_some-I (x ∷ xs) env h = keeps.deliver_keeps env (x ∷ xs) h

  drop_some-I : (xs : List Message) (env : Env) → I env → I (drop_some sys painter xs env)
  drop_some-I [] env h = h
  drop_some-I (x ∷ xs) env h = keeps.drop_keeps env (x ∷ xs) h

  pass_messages-I :
      (config : PartitionEnvConfig) (m : GoMap ℕ) (active : List ℕ)
      (shuffle : List Message → List Message) (messages : List Message) (env : Env)
      → I env
      → I (pass_messages sys painter config m active shuffle messages env)
  unfolding pass_messages
  pass_messages-I config m active shuffle messages env h =
      let chosen = take config.max_messages_per_tick (shuffle messages) in
      let test = may_pass sys painter m active in
      if-both I (length messages == 0) h (
        drop_some-I (select (λ x. not (test x)) chosen)
          (deliver_some sys painter (select test chosen) env)
          (deliver_some-I (select test chosen) env h))

  ticks-I :
      (c : Chance Message) (m : GoMap ℕ) (active : List ℕ) (i n : ℕ)
      (p : PartitionEnv Env Replica Message Request)
      (s : Option (SystemState Replica Message Request))
      → I p.underlying_env
      → I (ticks sys painter c m active i n p s).0.underlying_env
  unfolding ticks
  ticks-I c m active i zero p s h = h
  ticks-I c m active i (suc n) p s h =
      let now =
        pass_messages sys painter p.config m active (c.shuffle i) (waiting sys painter p s)
          p.underlying_env in
      ticks-I c m active (suc i) n (record p { underlying_env = (sys.tick now).0 })
        (some (sys.tick now).1)
        (keeps.tick_keeps now (
          pass_messages-I p.config m active (c.shuffle i) (waiting sys painter p s) p.underlying_env
            h))

  after_ticks-I :
      (parts : List (List ℕ)) (m : GoMap ℕ) (q : PartitionEnv Env Replica Message Request)
      (s : Option (SystemState Replica Message Request))
      → I q.underlying_env
      → I (after_ticks sys painter parts m (q, s)).0.underlying_env
  after_ticks-I parts m q none h = h
  after_ticks-I parts m q (some s) h = h

  run_parts-I :
      (c : Chance Message) (p : PartitionEnv Env Replica Message Request)
      (o : Option (List (List ℕ) × GoMap ℕ))
      → I p.underlying_env
      → I (run_parts sys painter c p o).0.underlying_env
  run_parts-I c p none h = h
  run_parts-I c p (some (parts, m)) h =
      let n = p.config.ticks_between_partition in
      let r = ticks sys painter c m p.cur_partition.active_nodes 0 n p none in
      after_ticks-I parts m r.0 r.1 (ticks-I c m p.cur_partition.active_nodes 0 n p none h)

  switch-I :
      (k : StopOrStart) (o : Option ℕ) (env : Env) (active : List ℕ)
      → I env
      → I (switch sys painter k o env active).0
  switch-I k none env active h = h
  switch-I stop (some n) env active h = keeps.stop_keeps env n h
  switch-I start (some n) env active h = keeps.start_keeps env n h

  send_first-I :
      (p : PartitionEnv Env Replica Message Request) (rs : List Request)
      → I p.underlying_env
      → I (send_first sys painter p rs).0.underlying_env
  send_first-I p [] h = h
  send_first-I p (r ∷ rs) h = keeps.request_keeps p.underlying_env r h

  corrupt-I :
      (p : PartitionEnv Env Replica Message Request) (o : Option (Env → ℕ → Env)) (ns : List ℕ)
      → sys.become_byzantine ≡ o
      → I p.underlying_env
      → I
          (elim o
            as (λ o.
              PartitionEnv Env Replica Message Request × Outcome (Partition Replica Request)) [
                | none ↦ (p, returns p.cur_partition)
                | some become ↦ corrupt sys painter p become ns
              ]).0.underlying_env
  corrupt-I p none ns e h = h
  corrupt-I p (some become) [] e h = h
  corrupt-I p (some become) (n ∷ ns) e h = keeps.become_keeps become e p.underlying_env n h

  handle-I :
      (c : Chance Message) (p : PartitionEnv Env Replica Message Request) (a : Action)
      → I p.underlying_env
      → I (handle sys painter c p a).0.underlying_env
  unfolding handle handle_partition handle_start_stop handle_request handle_byzantine
  handle-I c p (create_partition new) h =
      run_parts-I c p (change_parts sys painter c p.cur_partition new) h
  handle-I c p keep_same_partition h = run_parts-I c p (keep_parts sys painter p.cur_partition) h
  handle-I c p (stop_start color k) h =
      let node = target sys painter c p.cur_partition color k in
      let r = switch sys painter k node p.underlying_env p.cur_partition.active_nodes in
      keeps.tick_keeps r.0 (switch-I k node p.underlying_env p.cur_partition.active_nodes h)
  handle-I c p send_request h =
      if-both {A = PartitionEnv Env Replica Message Request × Outcome (Partition Replica Request)}
        (λ r. I r.0.underlying_env) p.cur_partition.can_deliver_request
        (send_first-I p p.cur_partition.pending_requests h) h
  handle-I c p (byzantine color) h =
      corrupt-I p sys.become_byzantine (honest sys painter c p.cur_partition color) refl h

  commit-I :
      (r : PartitionEnv Env Replica Message Request × Outcome (Partition Replica Request))
      → I r.0.underlying_env
      → I (commit sys painter r).0.underlying_env
  commit-I (q, returns next) h = h
  commit-I (q, fails e) h = h
  commit-I (q, panics) h = h

  -- What the methods of the system underneath keep, every Step keeps, whatever the action and
  -- whether or not it returns.
  pub step-keeps :
      (c : Chance Message) (p : PartitionEnv Env Replica Message Request) (a : Action)
      → I p.underlying_env
      → I (step sys painter c p a).0.underlying_env
  unfolding step
  step-keeps c p a h = commit-I (handle sys painter c p a) (handle-I c p a h)
