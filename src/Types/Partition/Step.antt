-- ===== src/Types/Partition/Step.antt =====
-- The handlers of crashes, requests and Byzantine nodes in types/partition_env.go, and `Step`.
use raft_rl_test.Base.{
  ℕ, not, ◌&&◌, List, [], ◌∷◌, ◌++◌, Option, some, none, if◌then◌else◌, bytes_eq, map, select,
}
use raft_rl_test.Base.Int.{pos, sub_one}
use raft_rl_test.Base.Assoc.{has, add}
use raft_rl_test.Types.Partition.Color.{Color, hash}
use raft_rl_test.Types.Partition.State.{
  Partition, Action, create_partition, keep_same_partition, stop_start, stop, start, StopOrStart,
  send_request, byzantine, SystemState, System, PartitionEnv, PartitionEnvConfig, Chance, Outcome,
  returns, panics, fails,
}
use raft_rl_test.Types.Partition.Parts.{
  place_all, empty_parts, number_parts, paint_parts, sorted_parts, recolor_to, recolor_all,
}
use raft_rl_test.Types.Partition.Handlers.{
  remove, nodes_where, pick_node, is_nonempty, with_requests, settle, handle_partition,
}

module _ {Env Replica Message Request : Type 0} (sys : System Env Replica Message Request)
    (painter : Replica → Color) where
  -- The node that a StopStartAction picks, if there is one.
  abbrev pub target : Chance Message → Partition Replica Request → List ℕ → StopOrStart → Option ℕ
  target c p color stop =
      pick_node c.pick (nodes_where (λ e. bytes_eq (hash e.1) color) (c.order p.replica_colors))
  target c p color start =
      pick_node c.pick (nodes_where (λ e. not (has e.0 p.active_nodes)) (c.order p.replica_colors))

  -- The system and the running nodes after the node is stopped or started.
  abbrev pub switch : StopOrStart → Option ℕ → Env → List ℕ → Env × List ℕ
  switch k none env active = (env, active)
  switch stop (some n) env active = (sys.stop_node env n, remove n active)
  switch start (some n) env active = (sys.start_node env n, add n active)

  -- A stop uses up a crash, also if there is no node to stop.
  abbrev pub spend : StopOrStart → Partition Replica Request → Partition Replica Request
  spend stop p = record p { remaining_crashes = sub_one p.remaining_crashes }
  spend start p = p

  -- The new parts: those that keep running stay in theirs, then the started ones, then the others.
  abbrev pub regroup : Partition Replica Request → List ℕ → Option (List (List ℕ))
  regroup p new =
      let stayed = select (λ e. has e.0 new && has e.0 p.active_nodes) p.partition_map in
      let started = select (λ e. has e.0 new && not (has e.0 p.active_nodes)) p.partition_map in
      let others = select (λ e. not (has e.0 new)) p.partition_map in
      elim (place_all (some (empty_parts p.partition)) stayed) [
        | none ↦ none
        | some parts ↦
            some (select is_nonempty (parts ++ map (λ e. e.0) started ∷ map (λ e. e.0) others ∷ []))
      ]

  abbrev pub settle_regrouped :
      PartitionEnvConfig
      → Partition Replica Request
      → Partition Replica Request
      → Option (List (List ℕ))
      → Outcome (Partition Replica Request)
  settle_regrouped config old next none = panics
  settle_regrouped config old next (some parts) =
      settle sys painter config old.partition next.repeat_count
        (record next { partition_map = number_parts 0 parts next.partition_map })
        (paint_parts next.replica_colors parts)

  -- What handleStartStop does once the node is switched and the tick has passed.
  abbrev pub after_switch :
      PartitionEnv Env Replica Message Request
      → StopOrStart
      → List ℕ
      → Env × SystemState Replica Message Request
      → PartitionEnv Env Replica Message Request × Outcome (Partition Replica Request)
  after_switch p k new (env, s) =
      let spent = record (spend k p.cur_partition) { active_nodes = new } in
      let next = recolor_to painter s new p.config.num_replicas spent in
      (
        record p { underlying_env = env; messages = s.pending_messages },
        settle_regrouped p.config p.cur_partition (with_requests sys painter next s)
            (regroup p.cur_partition new),
      )

  unfoldable pub handle_start_stop :
      Chance Message
      → PartitionEnv Env Replica Message Request
      → Action
      → PartitionEnv Env Replica Message Request × Outcome (Partition Replica Request)
  unfolding recolor_to place_all number_parts paint_parts remove
  handle_start_stop c p (stop_start color k) =
      let (env, new) =
        switch k (target c p.cur_partition color k) p.underlying_env p.cur_partition.active_nodes in
      after_switch p k new (sys.tick env)
  handle_start_stop c p (create_partition _) = (p, returns p.cur_partition)
  handle_start_stop c p keep_same_partition = (p, returns p.cur_partition)
  handle_start_stop c p send_request = (p, returns p.cur_partition)
  handle_start_stop c p (byzantine _) = (p, returns p.cur_partition)

  -- The parts of the nodes as they were, painted anew; the repeat count starts again.
  abbrev pub repaint :
      Partition Replica Request
      → Option (List (List ℕ))
      → SystemState Replica Message Request
      → Outcome (Partition Replica Request)
  repaint next none s = panics
  repaint next (some parts) s = elim (paint_parts next.replica_colors parts) [
    | none ↦ panics
    | some ps ↦ returns (record (with_requests sys painter next s) {
      partition = sorted_parts ps;
      repeat_count = pos 0;
    })
  ]

  abbrev pub after_request :
      PartitionEnv Env Replica Message Request
      → Env × SystemState Replica Message Request
      → PartitionEnv Env Replica Message Request × Outcome (Partition Replica Request)
  after_request p (env, s) =
      let old = p.cur_partition in
      (
        record p { underlying_env = env },
        repaint (recolor_all painter s old.active_nodes old.partition_map old)
            (place_all (some (empty_parts old.partition)) old.partition_map) s,
      )

  abbrev pub send_first :
      PartitionEnv Env Replica Message Request
      → List Request
      → PartitionEnv Env Replica Message Request × Outcome (Partition Replica Request)
  send_first p [] = (p, returns p.cur_partition)
  send_first p (r ∷ rs) = after_request p (sys.receive_request p.underlying_env r)

  unfoldable pub handle_request :
      Chance Message
      → PartitionEnv Env Replica Message Request
      → Action
      → PartitionEnv Env Replica Message Request × Outcome (Partition Replica Request)
  unfolding recolor_all place_all paint_parts
  handle_request c p send_request =
      if p.cur_partition.can_deliver_request
      then send_first p p.cur_partition.pending_requests
      else (p, returns p.cur_partition)
  handle_request c p (create_partition _) = (p, returns p.cur_partition)
  handle_request c p keep_same_partition = (p, returns p.cur_partition)
  handle_request c p (stop_start _ _) = (p, returns p.cur_partition)
  handle_request c p (byzantine _) = (p, returns p.cur_partition)

  -- The nodes of a colour that are not Byzantine yet.
  abbrev pub honest : Chance Message → Partition Replica Request → List ℕ → List ℕ
  honest c p color =
      nodes_where (λ e. not (has e.0 p.byzantine_nodes) && bytes_eq (hash e.1) color)
        (c.order p.replica_colors)

  abbrev pub corrupt :
      PartitionEnv Env Replica Message Request
      → (Env → ℕ → Env)
      → List ℕ
      → PartitionEnv Env Replica Message Request × Outcome (Partition Replica Request)
  corrupt p become [] = (p, returns p.cur_partition)
  corrupt p become (n ∷ ns) = (
    record p { underlying_env = become p.underlying_env n },
    returns (record p.cur_partition {
      remaining_byzantine = sub_one p.cur_partition.remaining_byzantine;
      byzantine_nodes = add n p.cur_partition.byzantine_nodes;
    }),
  )

  -- A system that has no Byzantine nodes is left alone.
  unfoldable pub handle_byzantine :
      Chance Message
      → PartitionEnv Env Replica Message Request
      → Action
      → PartitionEnv Env Replica Message Request × Outcome (Partition Replica Request)
  handle_byzantine c p (byzantine color) = elim sys.become_byzantine [
    | none ↦ (p, returns p.cur_partition)
    | some become ↦ corrupt p become (honest c p.cur_partition color)
  ]
  handle_byzantine c p (create_partition _) = (p, returns p.cur_partition)
  handle_byzantine c p keep_same_partition = (p, returns p.cur_partition)
  handle_byzantine c p (stop_start _ _) = (p, returns p.cur_partition)
  handle_byzantine c p send_request = (p, returns p.cur_partition)

  unfoldable pub handle :
      Chance Message
      → PartitionEnv Env Replica Message Request
      → Action
      → PartitionEnv Env Replica Message Request × Outcome (Partition Replica Request)
  unfolding handle_byzantine handle_start_stop handle_partition handle_request
  handle c p (byzantine color) = handle_byzantine c p (byzantine color)
  handle c p (stop_start color k) = handle_start_stop c p (stop_start color k)
  handle c p (create_partition new) = handle_partition sys painter c p (create_partition new)
  handle c p keep_same_partition = handle_partition sys painter c p keep_same_partition
  handle c p send_request = handle_request c p send_request

  -- The end of Step: the new partition becomes the current one.
  abbrev pub commit :
      PartitionEnv Env Replica Message Request × Outcome (Partition Replica Request)
      → PartitionEnv Env Replica Message Request × Outcome (Partition Replica Request)
  commit (p, returns next) = (record p { cur_partition = next }, returns next)
  commit (p, fails e) = (p, fails e)
  commit (p, panics) = (p, panics)

  unfoldable pub step :
      Chance Message
      → PartitionEnv Env Replica Message Request
      → Action
      → PartitionEnv Env Replica Message Request × Outcome (Partition Replica Request)
  unfolding handle
  step c p a = commit (handle c p a)
