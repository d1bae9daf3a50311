-- ===== src/Types/Partition/Delivery.antt =====
-- What the system underneath sees during a change of partition.
use mathlib.Core.Path.{subst}
use raft_rl_test.Base.{
  ℕ, zero, suc, ◌+◌, ◌≡◌, refl, sym, ap, ◌∙◌, Bool, false, not, ◌&&◌, ◌==◌, List, [], ◌∷◌, Option,
  some, none, select, take, length, arith,
}
use raft_rl_test.Base.Assoc.{GoMap, get, has}
use raft_rl_test.Types.Partition.Color.{Color}
use raft_rl_test.Types.Partition.State.{
  Partition, Action, create_partition, keep_same_partition, SystemState, System, PartitionEnv,
  PartitionEnvConfig, Chance, Outcome, returns, panics, fails, stop_start, send_request, byzantine,
}
use raft_rl_test.Types.Partition.Parts.{paint_parts, recolor_to}
use raft_rl_test.Types.Partition.Handlers.{
  together, may_pass, deliver_some, drop_some, pass_messages, waiting, ticks, after_ticks,
  run_parts, settle, with_requests, keep_parts, change_parts, handle_partition,
}
use raft_rl_test.Types.Partition.Step.{step, handle, commit}

module _ {Env Replica Message Request : Type 0} (sys : System Env Replica Message Request)
    (painter : Replica → Color) (most : ℕ) (m : GoMap ℕ) (active : List ℕ)
    (shuffle : ℕ → List Message → List Message) where
  -- The system after it was handed some messages, if there were any.
  abbrev pub delivered : Env → List Message → Env
  delivered now [] = now
  delivered now (x ∷ xs) = (sys.deliver_messages now (x ∷ xs)).0

  abbrev pub dropped : Env → List Message → Env
  dropped now [] = now
  dropped now (x ∷ xs) = (sys.drop_messages now (x ∷ xs)).0

  -- A message that `m` does not keep from the node it is for, which is running.
  abbrev pub arrives : Message → Bool
  arrives x =
      together (get m (sys.from_node x)) (get m (sys.to_node x)) && has (sys.to_node x) active

  -- The system after some messages were taken up: all of them that arrive are delivered, and all
  -- others are dropped.
  abbrev pub handed : Env → List Message → Env
  handed now taken =
      dropped (delivered now (select arrives taken)) (select (λ y. not (arrives y)) taken)

  -- The states that the system reaches from `env` in a number of ticks, and the messages that are
  -- waiting then; `pool` were waiting at the start. Before each tick the first `most` of the
  -- shuffled messages are taken up.
  pub data Passes (env : Env) (pool : List Message) : ℕ → Env → List Message → Type 0 where
    begins : Passes env pool 0 env pool
    quiet_tick :
        {n : ℕ} {now : Env}
        → Passes env pool n now []
        → Passes env pool (suc n) (sys.tick now).0 (sys.tick now).1.pending_messages
    tick_after :
        {n : ℕ} {now : Env} {x : Message} {xs : List Message}
        → Passes env pool n now (x ∷ xs)
        → Passes env pool
            (suc n)
            (sys.tick (handed now (take most (shuffle n (x ∷ xs))))).0
            (sys.tick (handed now (take most (shuffle n (x ∷ xs))))).1.pending_messages

module _ {Env Replica Message Request : Type 0} (sys : System Env Replica Message Request)
    (painter : Replica → Color) (m : GoMap ℕ) (active : List ℕ) where
  deliver_some-delivered :
      (most : ℕ) (shuffle : ℕ → List Message → List Message) (xs : List Message) (now : Env)
      → deliver_some sys painter xs now ≡ delivered sys painter most m active shuffle now xs
  deliver_some-delivered most shuffle [] now = refl
  deliver_some-delivered most shuffle (x ∷ xs) now = refl

  drop_some-dropped :
      (most : ℕ) (shuffle : ℕ → List Message → List Message) (xs : List Message) (now : Env)
      → drop_some sys painter xs now ≡ dropped sys painter most m active shuffle now xs
  drop_some-dropped most shuffle [] now = refl
  drop_some-dropped most shuffle (x ∷ xs) now = refl

  pass_messages-handed :
      (config : PartitionEnvConfig) (shuffle : ℕ → List Message → List Message) (n : ℕ)
      (x : Message) (xs : List Message) (now : Env)
      → let most = config.max_messages_per_tick in
        pass_messages sys painter config m active (shuffle n) (x ∷ xs) now
        ≡ handed sys painter most m active shuffle now (take most (shuffle n (x ∷ xs)))
  unfolding pass_messages
  pass_messages-handed config shuffle n x xs now =
      let most = config.max_messages_per_tick in
      let test = may_pass sys painter m active in
      let taken = take most (shuffle n (x ∷ xs)) in
      let lost = select (λ y. not (test y)) taken in
      let waits : (length (x ∷ xs) == 0) ≡ false = ground arith in
      rw waits (
        ap (drop_some sys painter lost)
          (deliver_some-delivered most shuffle (select test taken) now)
        ∙ drop_some-dropped most shuffle lost
            (delivered sys painter most m active shuffle now (select test taken)))

  tick-Passes :
      (config : PartitionEnvConfig) (shuffle : ℕ → List Message → List Message)
      (messages : List Message) {env now : Env} {pool : List Message} {n : ℕ}
      → Passes sys painter config.max_messages_per_tick m active shuffle env pool n now messages
      → let env' = pass_messages sys painter config m active (shuffle n) messages now in
        Passes sys painter config.max_messages_per_tick m active shuffle env pool
          (suc n)
          (sys.tick env').0
          (sys.tick env').1.pending_messages
  unfolding pass_messages
  tick-Passes config shuffle [] p = quiet_tick p
  tick-Passes config shuffle (x ∷ xs) {env} {now} {pool} {n} p =
      subst
        (λ e.
          Passes sys painter config.max_messages_per_tick m active shuffle env pool (suc n)
            (sys.tick e).0 (sys.tick e).1.pending_messages)
        (sym (pass_messages-handed config shuffle n x xs now)) (tick_after p)

  ticks-Passes :
      (c : Chance Message) (n done all : ℕ) (p : PartitionEnv Env Replica Message Request)
      (s : Option (SystemState Replica Message Request)) (env : Env) (pool : List Message)
      → done + n ≡ all
      → Passes sys painter p.config.max_messages_per_tick m active c.shuffle env pool done
          p.underlying_env
          (waiting sys painter p s)
      → let r = ticks sys painter c m active done n p s in
        Passes sys painter p.config.max_messages_per_tick m active c.shuffle env pool all
          r.0.underlying_env
          (waiting sys painter p r.1)
  unfolding ticks
  ticks-Passes c zero done all p s env pool e h = let same : all ≡ done = omega arith in rw same h
  ticks-Passes c (suc n) done all p s env pool e h =
      let now =
        pass_messages sys painter p.config m active (c.shuffle done) (waiting sys painter p s)
          p.underlying_env in
      let q = record p { underlying_env = (sys.tick now).0 } in
      ticks-Passes c n (suc done) all q (some (sys.tick now).1) env pool (omega arith)
        (tick-Passes p.config c.shuffle (waiting sys painter p s) h)

module _ {Env Replica Message Request : Type 0} (sys : System Env Replica Message Request)
    (painter : Replica → Color) where
  -- From `p` on the system has gone through the ticks of one change of the partition, under the
  -- parts of the partition that is returned; the messages then waiting are kept.
  abbrev pub Isolates :
      Chance Message
      → PartitionEnv Env Replica Message Request
      → PartitionEnv Env Replica Message Request × Outcome (Partition Replica Request)
      → Type 0
  Isolates c p (q, returns next) =
      Passes sys painter p.config.max_messages_per_tick next.partition_map
        p.cur_partition.active_nodes c.shuffle p.underlying_env p.messages
        p.config.ticks_between_partition q.underlying_env q.messages
  Isolates c p (q, fails e) = Unit
  Isolates c p (q, panics) = Unit

  settle-Isolates :
      (c : Chance Message) (p q : PartitionEnv Env Replica Message Request)
      (old next : Partition Replica Request) (config : PartitionEnvConfig)
      (o : Option (List (List Color)))
      → Passes sys painter p.config.max_messages_per_tick next.partition_map
          p.cur_partition.active_nodes c.shuffle p.underlying_env p.messages
          p.config.ticks_between_partition q.underlying_env q.messages
      → Isolates c p (q, settle sys painter config old.partition old.repeat_count next o)
  settle-Isolates c p q old next config none h = tt
  settle-Isolates c p q old next config (some ps) h = h

  after_ticks-Isolates :
      (c : Chance Message) (p q : PartitionEnv Env Replica Message Request) (parts : List (List ℕ))
      (m : GoMap ℕ) (s : Option (SystemState Replica Message Request))
      → Passes sys painter p.config.max_messages_per_tick m p.cur_partition.active_nodes c.shuffle
          p.underlying_env p.messages p.config.ticks_between_partition q.underlying_env
          (waiting sys painter p s)
      → Isolates c p (after_ticks sys painter parts m (q, s))
  after_ticks-Isolates c p q parts m none h = tt
  after_ticks-Isolates c p q parts m (some s) h =
      let old = q.cur_partition in
      let next = recolor_to painter s old.active_nodes q.config.num_replicas old in
      settle-Isolates c p (record q { messages = s.pending_messages }) old
        (with_requests sys painter (record next { partition_map = m }) s) q.config
        (paint_parts next.replica_colors parts) h

  run_parts-Isolates :
      (c : Chance Message) (p : PartitionEnv Env Replica Message Request)
      (o : Option (List (List ℕ) × GoMap ℕ))
      → Isolates c p (run_parts sys painter c p o)
  run_parts-Isolates c p none = tt
  run_parts-Isolates c p (some (parts, m)) =
      let n = p.config.ticks_between_partition in
      let r = ticks sys painter c m p.cur_partition.active_nodes 0 n p none in
      after_ticks-Isolates c p r.0 parts m r.1 (
        ticks-Passes sys painter m p.cur_partition.active_nodes c n 0 n p none p.underlying_env
          p.messages (omega arith) begins)

  commit-Isolates :
      (c : Chance Message) (p : PartitionEnv Env Replica Message Request)
      (r : PartitionEnv Env Replica Message Request × Outcome (Partition Replica Request))
      → Isolates c p r
      → Isolates c p (commit sys painter r)
  commit-Isolates c p (q, returns next) h = h
  commit-Isolates c p (q, fails e) h = tt
  commit-Isolates c p (q, panics) h = tt

  -- The two actions that set a partition.
  abbrev pub SetsPartition : Action → Type 0
  SetsPartition (create_partition new) = Unit
  SetsPartition keep_same_partition = Unit
  SetsPartition (stop_start color k) = ⊥
  SetsPartition send_request = ⊥
  SetsPartition (byzantine color) = ⊥

  -- If a Step that creates or keeps a partition returns, the system underneath has had exactly the
  -- configured number of ticks. Before each tick the messages then waiting are shuffled and the
  -- first of them, up to the configured number, taken up: those that the returned partition does
  -- not keep from a running node are delivered, all others are dropped. The messages that wait
  -- after the last tick are kept.
  pub step-Isolates :
      (c : Chance Message) (p : PartitionEnv Env Replica Message Request) (a : Action)
      → SetsPartition a
      → Isolates c p (step sys painter c p a)
  unfolding step handle handle_partition
  step-Isolates c p (create_partition new) h =
      let r = run_parts sys painter c p (change_parts sys painter c p.cur_partition new) in
      commit-Isolates c p r
        (run_parts-Isolates c p (change_parts sys painter c p.cur_partition new))
  step-Isolates c p keep_same_partition h =
      let r = run_parts sys painter c p (keep_parts sys painter p.cur_partition) in
      commit-Isolates c p r (run_parts-Isolates c p (keep_parts sys painter p.cur_partition))
  step-Isolates c p (stop_start color k) h = absurd h
  step-Isolates c p send_request h = absurd h
  step-Isolates c p (byzantine color) h = absurd h
