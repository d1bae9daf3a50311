-- ===== src/Types/Partition/Kept.antt =====
-- The nodes that have a part keep one: no handler takes a node out of the map of a partition, but a
-- new partition that leaves it out.
use raft_rl_test.Base.{
  ℕ, ◌≡◌, refl, sym, ◌∙◌, true, List, [], ◌∷◌, Option, some, none, inl, inr, if-both,
}
use mathlib.Core.Path.{subst}
use raft_rl_test.Base.Int.{ℤ, pos}
use raft_rl_test.Base.Assoc.{GoMap, has}
use raft_rl_test.Types.Partition.Color.{Color}
use raft_rl_test.Types.Partition.State.{
  Partition, Action, create_partition, keep_same_partition, stop_start, stop, start, StopOrStart,
  send_request, byzantine, SystemState, System, PartitionEnv, PartitionEnvConfig, Chance, Outcome,
  returns, panics, fails,
}
use raft_rl_test.Types.Partition.Parts.{
  recolor_to, recolor_all, paint_parts, number_parts, empty_parts, place_all, assign_parts,
  sorted_parts,
}
use raft_rl_test.Types.Partition.Handlers.{
  ticks, after_ticks, run_parts, settle, with_requests, keep_parts, change_parts, handle_partition,
}
use raft_rl_test.Types.Partition.Step.{
  handle, handle_start_stop, handle_request, handle_byzantine, after_switch, settle_regrouped,
  regroup, spend, repaint, send_first, corrupt, honest, switch, target,
}
use raft_rl_test.Types.Partition.Placement.{flat}
use raft_rl_test.Types.Partition.Numbering.{Numbered, number_parts-Numbered}
use raft_rl_test.Types.Partition.Placing.{recolor_to-map, recolor_all-map}

module _ {Env Replica Message Request : Type 0} (sys : System Env Replica Message Request)
    (painter : Replica → Color) (n : ℕ) where
  -- If the call returns, the node has an entry in the partition that it returns.
  abbrev pub Keeps : Outcome (Partition Replica Request) → Type 0
  Keeps (returns next) = Numbered n next.partition_map
  Keeps (fails e) = Unit
  Keeps panics = Unit

  settle-Keeps :
      (config : PartitionEnvConfig) (old : List (List Color)) (count : ℤ)
      (next : Partition Replica Request) (o : Option (List (List Color)))
      → Numbered n next.partition_map
      → Keeps (settle sys painter config old count next o)
  settle-Keeps config old count next none h = tt
  settle-Keeps config old count next (some ps) h = h

  after_ticks-Keeps :
      (parts : List (List ℕ)) (m : GoMap ℕ) (p : PartitionEnv Env Replica Message Request)
      (o : Option (SystemState Replica Message Request))
      → Numbered n m
      → Keeps (after_ticks sys painter parts m (p, o)).1
  after_ticks-Keeps parts m p none h = tt
  after_ticks-Keeps parts m p (some s) h =
      let old = p.cur_partition in
      let next = recolor_to painter s old.active_nodes p.config.num_replicas old in
      settle-Keeps p.config old.partition old.repeat_count
        (with_requests sys painter (record next { partition_map = m }) s)
        (paint_parts next.replica_colors parts) h

  abbrev KeepsParts : Option (List (List ℕ) × GoMap ℕ) → Type 0
  KeepsParts none = Unit
  KeepsParts (some r) = Numbered n r.1

  run_parts-Keeps :
      (c : Chance Message) (p : PartitionEnv Env Replica Message Request)
      (o : Option (List (List ℕ) × GoMap ℕ))
      → KeepsParts o
      → Keeps (run_parts sys painter c p o).1
  run_parts-Keeps c p none h = tt
  run_parts-Keeps c p (some (parts, m)) h =
      let r =
        ticks sys painter c m p.cur_partition.active_nodes 0 p.config.ticks_between_partition p
          none in
      after_ticks-Keeps parts m r.0 r.1 h

  keep-KeepsParts :
      (m : GoMap ℕ) (o : Option (List (List ℕ)))
      → Numbered n m
      → KeepsParts (elim o as (λ o. Option (List (List ℕ) × GoMap ℕ)) [
        | none ↦ none
        | some parts ↦ some (parts, m)
      ])
  keep-KeepsParts m none h = tt
  keep-KeepsParts m (some parts) h = h

  settle_regrouped-Keeps :
      (config : PartitionEnvConfig) (old next : Partition Replica Request)
      (o : Option (List (List ℕ)))
      → Numbered n next.partition_map
      → Keeps (settle_regrouped sys painter config old next o)
  settle_regrouped-Keeps config old next none h = tt
  settle_regrouped-Keeps config old next (some parts) h =
      settle-Keeps config old.partition next.repeat_count
        (record next { partition_map = number_parts 0 parts next.partition_map })
        (paint_parts next.replica_colors parts)
        (number_parts-Numbered n 0 parts next.partition_map (inl h))

  spent-map :
      (k : StopOrStart) (p : Partition Replica Request)
      → (spend sys painter k p).partition_map ≡ p.partition_map
  spent-map stop p = refl
  spent-map start p = refl

  after_switch-Keeps :
      (p : PartitionEnv Env Replica Message Request) (k : StopOrStart) (new : List ℕ)
      (r : Env × SystemState Replica Message Request)
      → Numbered n p.cur_partition.partition_map
      → Keeps (after_switch sys painter p k new r).1
  after_switch-Keeps p k new (env, s) h =
      let spent = record (spend sys painter k p.cur_partition) { active_nodes = new } in
      let next = recolor_to painter s new p.config.num_replicas spent in
      let same : next.partition_map ≡ p.cur_partition.partition_map =
        recolor_to-map painter s new p.config.num_replicas spent ∙ spent-map k p.cur_partition in
      settle_regrouped-Keeps p.config p.cur_partition (with_requests sys painter next s)
        (regroup sys painter p.cur_partition new) (subst (Numbered n) (sym same) h)

  painted-Keeps :
      (next : Partition Replica Request) (s : SystemState Replica Message Request)
      (o : Option (List (List Color)))
      → Numbered n next.partition_map
      → Keeps (elim o as (λ o. Outcome (Partition Replica Request)) [
        | none ↦ panics
        | some ps ↦ returns (record (with_requests sys painter next s) {
          partition = sorted_parts ps;
          repeat_count = pos 0;
        })
      ])
  painted-Keeps next s none h = tt
  painted-Keeps next s (some ps) h = h

  repaint-Keeps :
      (next : Partition Replica Request) (o : Option (List (List ℕ)))
      (s : SystemState Replica Message Request)
      → Numbered n next.partition_map
      → Keeps (repaint sys painter next o s)
  repaint-Keeps next none s h = tt
  repaint-Keeps next (some parts) s h =
      painted-Keeps next s (paint_parts next.replica_colors parts) h

  send_first-Keeps :
      (p : PartitionEnv Env Replica Message Request) (rs : List Request)
      → Numbered n p.cur_partition.partition_map
      → Keeps (send_first sys painter p rs).1
  send_first-Keeps p [] h = h
  send_first-Keeps p (r ∷ rs) h =
      let old = p.cur_partition in
      let s = (sys.receive_request p.underlying_env r).1 in
      repaint-Keeps (recolor_all painter s old.active_nodes old.partition_map old)
        (place_all (some (empty_parts old.partition)) old.partition_map) s
        (subst (Numbered n) (sym (recolor_all-map painter s old.active_nodes old.partition_map old))
          h)

  corrupt-Keeps :
      (p : PartitionEnv Env Replica Message Request) (o : Option (Env → ℕ → Env)) (ns : List ℕ)
      → Numbered n p.cur_partition.partition_map
      → Keeps
          (elim o
            as (λ o.
              PartitionEnv Env Replica Message Request × Outcome (Partition Replica Request)) [
                | none ↦ (p, returns p.cur_partition)
                | some become ↦ corrupt sys painter p become ns
              ]).1
  corrupt-Keeps p none ns h = h
  corrupt-Keeps p (some become) [] h = h
  corrupt-Keeps p (some become) (k ∷ ns) h = h

  -- A new partition has the node in one of its parts.
  abbrev pub Includes : Chance Message → Partition Replica Request → Action → Type 0
  Includes c p (create_partition new) =
      (parts : List (List ℕ)) × (assign_parts new (c.order p.replica_colors) ≡ some parts)
      × (has n (flat parts) ≡ true)
  Includes c p keep_same_partition = Unit
  Includes c p (stop_start color k) = Unit
  Includes c p send_request = Unit
  Includes c p (byzantine color) = Unit

  pub handle-Keeps :
      (c : Chance Message) (p : PartitionEnv Env Replica Message Request) (a : Action)
      → Includes c p.cur_partition a
      → Numbered n p.cur_partition.partition_map
      → Keeps (handle sys painter c p a).1
  unfolding handle handle_partition handle_start_stop handle_request handle_byzantine
  handle-Keeps c p (create_partition new) (parts, e, l) h =
      let assigned : KeepsParts (change_parts sys painter c p.cur_partition new) =
        subst
          (λ o. KeepsParts (elim o as (λ o. Option (List (List ℕ) × GoMap ℕ)) [
            | none ↦ none
            | some parts ↦ some (parts, number_parts 0 parts [])
          ]))
          (sym e) (number_parts-Numbered n 0 parts [] (inr l)) in
      run_parts-Keeps c p (change_parts sys painter c p.cur_partition new) assigned
  handle-Keeps c p keep_same_partition m h =
      let old = p.cur_partition in
      run_parts-Keeps c p (keep_parts sys painter old) (
        keep-KeepsParts old.partition_map
          (place_all (some (empty_parts old.partition)) old.partition_map) h)
  handle-Keeps c p (stop_start color k) m h =
      let node = target sys painter c p.cur_partition color k in
      let r = switch sys painter k node p.underlying_env p.cur_partition.active_nodes in
      after_switch-Keeps p k r.1 (sys.tick r.0) h
  handle-Keeps c p send_request m h =
      if-both {A = PartitionEnv Env Replica Message Request × Outcome (Partition Replica Request)}
        (λ r. Keeps r.1) p.cur_partition.can_deliver_request
        (send_first-Keeps p p.cur_partition.pending_requests h) h
  handle-Keeps c p (byzantine color) m h =
      corrupt-Keeps p sys.become_byzantine (honest sys painter c p.cur_partition color) h
