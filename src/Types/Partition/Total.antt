-- ===== src/Types/Partition/Total.antt =====
-- A step returns, and each node in the map of the partition that it returns has a colour and a part.
use raft_rl_test.Base.{
  ℕ, ◌≡◌, ◌≤◌, refl, ◌∙◌, sym, true, List, [], Option, some, none, length, length-map,
}
use mathlib.Core.Path.{subst}
use raft_rl_test.Base.Assoc.{GoMap, has}
use raft_rl_test.Base.Every.{Every-with, Every, Every-weaken}
use raft_rl_test.Types.Partition.Color.{Color}
use raft_rl_test.Types.Partition.State.{
  Partition, stop, start, StopOrStart, SystemState, System, PartitionEnv, Chance,
}
use raft_rl_test.Types.Partition.Parts.{recolor_to, empty_parts, number_parts, assign_parts}
use raft_rl_test.Types.Partition.Handlers.{run_parts, with_requests, keep_parts, change_parts}
use raft_rl_test.Types.Partition.Step.{after_switch, settle_regrouped, regroup, spend}
use raft_rl_test.Types.Partition.Placement.{flat, Fits, Colored, place_all-Placed}
use raft_rl_test.Types.Partition.Assigning.{AllAssigned, assign_parts-AllAssigned, entries-Colored}
use raft_rl_test.Types.Partition.Numbering.{Unique, number_parts-Fits}
use raft_rl_test.Types.Partition.Regrouping.{regroup-some, Every-flat-empty}
use raft_rl_test.Types.Partition.Placing.{
  IsPlaced, Places, Grown, recolor_to-Grown, recolor_to-map, settle-Places, run_parts-Places,
}

module _ {Env Replica Message Request : Type 0} (sys : System Env Replica Message Request)
    (painter : Replica → Color) where
  pub keep-Places :
      (c : Chance Message) (p : PartitionEnv Env Replica Message Request)
      → 1 ≤ p.config.ticks_between_partition
      → IsPlaced p.cur_partition
      → Places (run_parts sys painter c p (keep_parts sys painter p.cur_partition)).1
  keep-Places c p h w =
      let old = p.cur_partition in
      let P = Colored old.replica_colors in
      let empty = empty_parts old.partition in
      let same : length empty ≡ length old.partition = length-map (λ part. []) old.partition in
      let fits : Every (Fits P (length empty)) old.partition_map = rw same w.fits in
      let (parts, e, l, k, n) =
        place_all-Placed P old.partition_map empty fits (Every-flat-empty P old.partition) in
      subst
        (λ o.
          Places
            (run_parts sys painter c p (elim o as (λ o. Option (List (List ℕ) × GoMap ℕ)) [
              | none ↦ none
              | some parts ↦ some (parts, old.partition_map)
            ])).1)
        (sym e)
        (run_parts-Places sys painter c p parts old.partition_map h
          (w.unique, subst (λ j. Every (Fits P j) old.partition_map) (sym l) fits, k))

  pub change-Places :
      (c : Chance Message) (p : PartitionEnv Env Replica Message Request) (new : List (List Color))
      (parts : List (List ℕ))
      → 1 ≤ p.config.ticks_between_partition
      → ((P : ℕ × Color → Type 0) (m : GoMap Color) → Every P m → Every P (c.order m))
      → assign_parts new (c.order p.cur_partition.replica_colors) ≡ some parts
      → Places (run_parts sys painter c p (change_parts sys painter c p.cur_partition new)).1
  change-Places c p new parts h ranges e =
      let colors = p.cur_partition.replica_colors in
      let P = Colored colors in
      let all : Every P (flat parts) = subst (AllAssigned P) e (
        assign_parts-AllAssigned P new (c.order colors)
          (ranges (λ x. P x.0) colors (entries-Colored colors))) in
      let r = number_parts-Fits P parts [] tt tt all in
      subst
        (λ o.
          Places
            (run_parts sys painter c p (elim o as (λ o. Option (List (List ℕ) × GoMap ℕ)) [
              | none ↦ none
              | some parts ↦ some (parts, number_parts 0 parts [])
            ])).1)
        (sym e) (run_parts-Places sys painter c p parts (number_parts 0 parts []) h (r.1, r.0, all))

  regrouped-Places :
      (p : PartitionEnv Env Replica Message Request) (spent : Partition Replica Request)
      (new : List ℕ) (s : SystemState Replica Message Request)
      → IsPlaced p.cur_partition
      → spent.replica_colors ≡ p.cur_partition.replica_colors
      → spent.partition_map ≡ p.cur_partition.partition_map
      → Places (
          settle_regrouped sys painter p.config p.cur_partition
            (with_requests sys painter (recolor_to painter s new p.config.num_replicas spent) s)
            (regroup sys painter p.cur_partition new))
  regrouped-Places p spent new s w colors map_same =
      let old = p.cur_partition in
      let next = recolor_to painter s new p.config.num_replicas spent in
      let P = Colored next.replica_colors in
      let same : next.partition_map ≡ old.partition_map =
        recolor_to-map painter s new p.config.num_replicas spent ∙ map_same in
      let grown : Grown old.replica_colors next.replica_colors = λ n h.
        recolor_to-Grown painter s new p.config.num_replicas spent n
          (subst (λ m. Colored m n) (sym colors) h) in
      let fits : Every (Fits P (length old.partition)) old.partition_map =
        Every-weaken (Fits (Colored old.replica_colors) (length old.partition))
          (Fits P (length old.partition)) (λ e h. (h.0, grown e.0 h.1)) old.partition_map w.fits in
      let (parts, e, all, covered) = regroup-some sys painter P old new fits in
      let both : Every (λ e. (has e.0 (flat parts) ≡ true) × P e.0) old.partition_map =
        Every-with (Fits P (length old.partition)) (λ e. has e.0 (flat parts) ≡ true)
          (λ e. has e.0 (flat parts) ≡ true) (λ e. (has e.0 (flat parts) ≡ true) × P e.0)
          old.partition_map (λ e f h i. (h, f.1)) fits covered covered in
      let r =
        number_parts-Fits P parts next.partition_map (subst Unique (sym same) w.unique)
          (subst (Every (λ e. (has e.0 (flat parts) ≡ true) × P e.0)) (sym same) both) all in
      subst
        (λ o.
          Places (settle_regrouped sys painter p.config old (with_requests sys painter next s) o))
        (sym e)
        (settle-Places sys painter p.config old.partition next.repeat_count
          (record (with_requests sys painter next s) {
            partition_map = number_parts 0 parts next.partition_map;
          })
          parts (r.1, r.0, all))

  pub after_switch-Places :
      (p : PartitionEnv Env Replica Message Request) (k : StopOrStart) (new : List ℕ)
      (r : Env × SystemState Replica Message Request)
      → IsPlaced p.cur_partition
      → Places (after_switch sys painter p k new r).1
  after_switch-Places p stop new (env, s) w =
      regrouped-Places p (record (spend sys painter stop p.cur_partition) { active_nodes = new })
        new s w refl refl
  after_switch-Places p start new (env, s) w =
      regrouped-Places p (record p.cur_partition { active_nodes = new }) new s w refl refl
