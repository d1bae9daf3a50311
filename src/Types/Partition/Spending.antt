-- ===== src/Types/Partition/Spending.antt =====
-- What each handler and `Step` do to the counters of crashes and Byzantine nodes.
use raft_rl_test.Base.{
  ℕ, zero, suc, ◌≡◌, inl, inr, refl, List, [], ◌∷◌, Option, some, none, if-both,
}
use raft_rl_test.Base.Int.{ℤ}
use raft_rl_test.Base.Assoc.{GoMap}
use raft_rl_test.Types.Partition.Color.{Color}
use raft_rl_test.Types.Partition.State.{
  Partition, Action, create_partition, keep_same_partition, stop_start, stop, start, StopOrStart,
  SystemState, System, PartitionEnv, Chance, Outcome, returns, send_request, byzantine,
}
use raft_rl_test.Types.Partition.Parts.{
  paint_parts, recolor_to, recolor_all, place_all, empty_parts,
}
use raft_rl_test.Types.Partition.Handlers.{
  ticks, after_ticks, run_parts, with_requests, keep_parts, change_parts, handle_partition,
}
use raft_rl_test.Types.Partition.Step.{
  step, handle, handle_start_stop, handle_request, handle_byzantine, after_switch, regroup, spend,
  send_first, corrupt, honest, switch, target,
}
use raft_rl_test.Types.Partition.Budget.{
  limits, After, Returns, Now, recolor_to-limits, recolor_all-limits, settle-Returns,
  settle_regrouped-Returns, repaint-Returns, commit-Now,
}

module _ {Env Replica Message Request : Type 0} (sys : System Env Replica Message Request)
    (painter : Replica → Color) where
  pub ticks-cur_partition :
      (c : Chance Message) (m : GoMap ℕ) (active : List ℕ) (i n : ℕ)
      (p : PartitionEnv Env Replica Message Request)
      (s : Option (SystemState Replica Message Request))
      → (ticks sys painter c m active i n p s).0.cur_partition ≡ p.cur_partition
  unfolding ticks
  ticks-cur_partition c m active i zero p s = refl
  ticks-cur_partition c m active i (suc n) p s = ticks-cur_partition c m active (suc i) n _ _

  after_ticks-Returns :
      (P : ℤ × ℤ × List ℕ → Type 0) (parts : List (List ℕ)) (m : GoMap ℕ)
      (q : PartitionEnv Env Replica Message Request)
      (s : Option (SystemState Replica Message Request))
      → P (limits q.cur_partition)
      → Returns P (after_ticks sys painter parts m (q, s)).1
  after_ticks-Returns P parts m q none h = tt
  after_ticks-Returns P parts m q (some s) h =
      let old = q.cur_partition in
      let next = recolor_to painter s old.active_nodes q.config.num_replicas old in
      settle-Returns sys painter P q.config old.partition old.repeat_count
        (with_requests sys painter (record next { partition_map = m }) s)
        (paint_parts next.replica_colors parts)
        (rw (recolor_to-limits painter s old.active_nodes q.config.num_replicas old) h)

  run_parts-Returns :
      (P : ℤ × ℤ × List ℕ → Type 0) (c : Chance Message)
      (p : PartitionEnv Env Replica Message Request) (o : Option (List (List ℕ) × GoMap ℕ))
      → P (limits p.cur_partition)
      → Returns P (run_parts sys painter c p o).1
  run_parts-Returns P c p none h = tt
  run_parts-Returns P c p (some (parts, m)) h =
      let n = p.config.ticks_between_partition in
      let r = ticks sys painter c m p.cur_partition.active_nodes 0 n p none in
      after_ticks-Returns P parts m r.0 r.1
        (rw (ticks-cur_partition c m p.cur_partition.active_nodes 0 n p none) h)

  after_switch-Returns :
      (P : ℤ × ℤ × List ℕ → Type 0) (p : PartitionEnv Env Replica Message Request) (k : StopOrStart)
      (new : List ℕ) (r : Env × SystemState Replica Message Request)
      → P (limits (spend sys painter k p.cur_partition))
      → Returns P (after_switch sys painter p k new r).1
  after_switch-Returns P p k new (env, s) h =
      let spent = record (spend sys painter k p.cur_partition) { active_nodes = new } in
      let next = recolor_to painter s new p.config.num_replicas spent in
      settle_regrouped-Returns sys painter P p.config p.cur_partition
        (with_requests sys painter next s) (regroup sys painter p.cur_partition new)
        (rw (recolor_to-limits painter s new p.config.num_replicas spent) h)

  send_first-Returns :
      (P : ℤ × ℤ × List ℕ → Type 0) (p : PartitionEnv Env Replica Message Request)
      (rs : List Request)
      → P (limits p.cur_partition)
      → Returns P (send_first sys painter p rs).1
  send_first-Returns P p [] h = h
  send_first-Returns P p (r ∷ rs) h =
      let old = p.cur_partition in
      let s = (sys.receive_request p.underlying_env r).1 in
      repaint-Returns sys painter P (recolor_all painter s old.active_nodes old.partition_map old)
        (place_all (some (empty_parts old.partition)) old.partition_map) s
        (rw (recolor_all-limits painter s old.active_nodes old.partition_map old) h)

  corrupt-Returns :
      (color : List ℕ) (p : PartitionEnv Env Replica Message Request) (o : Option (Env → ℕ → Env))
      (ns : List ℕ)
      → Returns
          (After (byzantine color) p.cur_partition)
          (elim o
            as (λ o.
              PartitionEnv Env Replica Message Request × Outcome (Partition Replica Request)) [
                | none ↦ (p, returns p.cur_partition)
                | some become ↦ corrupt sys painter p become ns
              ]).1
  corrupt-Returns color p none ns = inl refl
  corrupt-Returns color p (some become) [] = inl refl
  corrupt-Returns color p (some become) (n ∷ ns) = inr (n, refl)

  handle-limits :
      (c : Chance Message) (p : PartitionEnv Env Replica Message Request) (a : Action)
      → Returns (After a p.cur_partition) (handle sys painter c p a).1
  unfolding handle handle_partition handle_start_stop handle_request handle_byzantine
  handle-limits c p (create_partition new) =
      run_parts-Returns (After (create_partition new) p.cur_partition) c p
        (change_parts sys painter c p.cur_partition new) refl
  handle-limits c p keep_same_partition =
      run_parts-Returns (After keep_same_partition p.cur_partition) c p
        (keep_parts sys painter p.cur_partition) refl
  handle-limits c p (stop_start color stop) =
      let r =
        switch sys painter stop (target sys painter c p.cur_partition color stop) p.underlying_env
          p.cur_partition.active_nodes in
      after_switch-Returns (After (stop_start color stop) p.cur_partition) p stop r.1 (sys.tick r.0)
        refl
  handle-limits c p (stop_start color start) =
      let r =
        switch sys painter start (target sys painter c p.cur_partition color start) p.underlying_env
          p.cur_partition.active_nodes in
      after_switch-Returns (After (stop_start color start) p.cur_partition) p start r.1
        (sys.tick r.0) refl
  handle-limits c p send_request =
      if-both {A = PartitionEnv Env Replica Message Request × Outcome (Partition Replica Request)}
        (λ r. Returns (After send_request p.cur_partition) r.1) p.cur_partition.can_deliver_request
        (send_first-Returns (After send_request p.cur_partition) p p.cur_partition.pending_requests
          refl)
        refl
  handle-limits c p (byzantine color) =
      corrupt-Returns color p sys.become_byzantine (honest sys painter c p.cur_partition color)

  -- A Step that returns uses up one crash if it is a stop, at most one Byzantine node if it makes
  -- one, and nothing otherwise.
  pub step-limits :
      (c : Chance Message) (p : PartitionEnv Env Replica Message Request) (a : Action)
      → Now (After a p.cur_partition) (step sys painter c p a)
  unfolding step
  step-limits c p a =
      commit-Now sys painter (After a p.cur_partition) (handle sys painter c p a)
        (handle-limits c p a)
