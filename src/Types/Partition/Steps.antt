-- ===== src/Types/Partition/Steps.antt =====
-- `Step` returns, from the start and from any partition that it has returned.
use raft_rl_test.Base.{
  ℕ, zero, suc, ◌≡◌, ◌≤◌, ◌<◌, refl, ◌∙◌, sym, true, inl, inr, if◌then◌else◌, lt-or-eq, List, [],
  ◌∷◌, Option, some, none, length, if-both, length-map, arith,
}
use mathlib.Core.Path.{subst}
use raft_rl_test.Base.Int.{pos}
use raft_rl_test.Base.Assoc.{GoMap, get, put, has, get-put}
use raft_rl_test.Base.Every.{Every, Every-weaken, Every-append}
use raft_rl_test.Types.Partition.Color.{Color}
use raft_rl_test.Types.Partition.State.{
  Partition, Action, create_partition, keep_same_partition, stop_start, send_request, byzantine,
  SystemState, System, PartitionEnv, PartitionEnvConfig, Chance, Outcome, returns, panics, fails,
}
use raft_rl_test.Types.Partition.Parts.{
  recolor_all, sorted_parts, empty_parts, assign_parts, number_part, number_parts,
}
use raft_rl_test.Types.Partition.Reset.{new_partition_env, first_partition, put_all, up_to}
use raft_rl_test.Types.Partition.Handlers.{with_requests, handle_partition}
use raft_rl_test.Types.Partition.Step.{
  step, handle, commit, handle_start_stop, handle_request, handle_byzantine, repaint, send_first,
  corrupt, honest, switch, target,
}
use raft_rl_test.Types.Partition.Placement.{
  flat, Fits, Colored, has-append, place_all-Placed, paint_parts-some, length-sorted_parts,
}
use raft_rl_test.Types.Partition.Numbering.{Unique, Numbered, number_parts-Fits}
use raft_rl_test.Types.Partition.Regrouping.{Every-flat-empty}
use raft_rl_test.Types.Partition.Placing.{
  IsPlaced, Places, put-Grown, recolor_all-Grown, recolor_all-map,
}
use raft_rl_test.Types.Partition.Kept.{Keeps, Includes, handle-Keeps}
use raft_rl_test.Types.Partition.Total.{keep-Places, change-Places, after_switch-Places}

put_all-Grown :
    (f : ℕ → Color) (ns : List ℕ) (m : GoMap Color) (n : ℕ)
    → Colored m n
    → Colored (put_all f ns m) n
unfolding put_all
put_all-Grown f [] m n h = h
put_all-Grown f (k ∷ ns) m n h = put_all-Grown f ns (put m k (f k)) n (put-Grown m k (f k) n h)

put_all-Colored :
    (f : ℕ → Color) (ns : List ℕ) (m : GoMap Color) → Every (Colored (put_all f ns m)) ns
unfolding put_all
put_all-Colored f [] m = tt
put_all-Colored f (k ∷ ns) m =
    let first : Colored (put m k (f k)) k = (f k, ground (arith, get-put m k (f k) k)) in
    (put_all-Grown f ns (put m k (f k)) k first, put_all-Colored f ns (put m k (f k)))

number_part-get :
    (i : ℕ) (ns : List ℕ) (m : GoMap ℕ) (n : ℕ)
    → get (number_part i ns m) n ≡ (if has n ns then some i else get m n)
unfolding number_part has
number_part-get i [] m n = refl
number_part-get i (k ∷ ns) m n = ground (arith, number_part-get i ns (put m k i) n, get-put m k i n)

has-up_to : (k n : ℕ) → 0 < n → n ≤ k → has n (up_to k) ≡ true
unfolding up_to has
has-up_to zero n h l = absurd (omega (arith, h, l))
has-up_to (suc k) n h l = has-append n (up_to k) (suc k ∷ []) ∙ elim (lt-or-eq n (suc k) l) [
  | inl below ↦ let rest = has-up_to k n h (omega (arith, below)) in ground (arith, rest)
  | inr same ↦ ground (arith, same)
]

module _ {Env Replica Message Request : Type 0} (sys : System Env Replica Message Request)
    (painter : Replica → Color) where
  -- The map of a new partition environment names every node of 1 to `num_replicas`.
  all_in_part_zero :
      (config : PartitionEnvConfig) (env : Env) (n : ℕ)
      → 0 < n
      → n ≤ config.num_replicas
      → get (new_partition_env sys painter config env).cur_partition.partition_map n ≡ some 0
  unfolding new_partition_env first_partition
  all_in_part_zero config env n h l =
      number_part-get 0 (up_to config.num_replicas) [] n
      ∙ rw (has-up_to config.num_replicas n h l) refl

  first_partition-IsPlaced :
      (config : PartitionEnvConfig) (env : Env)
      → IsPlaced (new_partition_env sys painter config env).cur_partition
  unfolding new_partition_env first_partition number_parts flat
  first_partition-IsPlaced config env =
      let s = (sys.reset env).1 in
      let ids = up_to config.num_replicas in
      let f = λ (n : ℕ). painter (s.get_replica_state n) in
      let P = Colored (put_all f ids []) in
      let r =
        number_parts-Fits P (ids ∷ []) [] tt tt
          (Every-append P ids [] (put_all-Colored f ids []) tt) in
      record { unique = r.1; fits = r.0 }

  -- In the map of a new partition environment each node from 1 to the number of replicas has an
  -- entry, for part 0. No node has two entries, and each entry is for a node with a colour and
  -- names a part that there is.
  pub new_partition_env-IsPlaced :
      (config : PartitionEnvConfig) (env : Env)
      → let p = (new_partition_env sys painter config env).cur_partition in
        IsPlaced p × ((n : ℕ) → 0 < n → n ≤ config.num_replicas → get p.partition_map n ≡ some 0)
  new_partition_env-IsPlaced config env =
      (first_partition-IsPlaced config env, all_in_part_zero config env)

module _ {Env Replica Message Request : Type 0} (sys : System Env Replica Message Request)
    (painter : Replica → Color) where
  repaint-Places :
      (next : Partition Replica Request) (parts : List (List ℕ))
      (s : SystemState Replica Message Request)
      → Unique next.partition_map
      → Every (Fits (Colored next.replica_colors) (length parts)) next.partition_map
      → Every (Colored next.replica_colors) (flat parts)
      → Places (repaint sys painter next (some parts) s)
  repaint-Places next parts s u f c =
      let (ps, e, l) = paint_parts-some next.replica_colors parts c in
      let same : length (sorted_parts ps) ≡ length parts = length-sorted_parts ps ∙ l in
      subst
        (λ o. Places (elim o as (λ o. Outcome (Partition Replica Request)) [
          | none ↦ panics
          | some ps ↦ returns (record (with_requests sys painter next s) {
            partition = sorted_parts ps;
            repeat_count = pos 0;
          })
        ]))
        (sym e)
        (record {
          unique = u;
          fits =
              subst (λ k. Every (Fits (Colored next.replica_colors) k) next.partition_map)
                (sym same) f;
        })

  send_first-Places :
      (p : PartitionEnv Env Replica Message Request) (rs : List Request)
      → IsPlaced p.cur_partition
      → Places (send_first sys painter p rs).1
  send_first-Places p [] w = w
  send_first-Places p (r ∷ rs) w =
      let old = p.cur_partition in
      let m = old.partition_map in
      let s = (sys.receive_request p.underlying_env r).1 in
      let next = recolor_all painter s old.active_nodes m old in
      let P = Colored next.replica_colors in
      let grown = recolor_all-Grown painter s old.active_nodes m old in
      let same : next.partition_map ≡ m = recolor_all-map painter s old.active_nodes m old in
      let empty = empty_parts old.partition in
      let size : length empty ≡ length old.partition = length-map (λ part. []) old.partition in
      let fits : Every (Fits P (length old.partition)) m =
        Every-weaken (Fits (Colored old.replica_colors) (length old.partition))
          (Fits P (length old.partition)) (λ e h. (h.0, grown e.0 h.1)) m w.fits in
      let fits' : Every (Fits P (length empty)) m = rw size fits in
      let (parts, e, l, k, n) =
        place_all-Placed P m empty fits' (Every-flat-empty P old.partition) in
      subst (λ o. Places (repaint sys painter next o s)) (sym e)
        (repaint-Places next parts s (subst Unique (sym same) w.unique)
          (subst (Every (Fits P (length parts))) (sym same)
            (subst (λ j. Every (Fits P j) m) (sym l) fits'))
          k)

  corrupt-Places :
      (p : PartitionEnv Env Replica Message Request) (o : Option (Env → ℕ → Env)) (ns : List ℕ)
      → IsPlaced p.cur_partition
      → Places
          (elim o
            as (λ o.
              PartitionEnv Env Replica Message Request × Outcome (Partition Replica Request)) [
                | none ↦ (p, returns p.cur_partition)
                | some become ↦ corrupt sys painter p become ns
              ]).1
  corrupt-Places p none ns w = w
  corrupt-Places p (some become) [] w = w
  corrupt-Places p (some become) (n ∷ ns) w = record { unique = w.unique; fits = w.fits }

  -- A new partition has a node for each of its colours. Ranging over the colours of the nodes meets
  -- only these.
  abbrev pub Matches : Chance Message → Partition Replica Request → Action → Type 1
  Matches c p (create_partition new) =
      ((P : ℕ × Color → Type 0) (m : GoMap Color) → Every P m → Every P (c.order m))
      × ((parts : List (List ℕ)) × (assign_parts new (c.order p.replica_colors) ≡ some parts))
  Matches c p keep_same_partition = Unit
  Matches c p (stop_start color k) = Unit
  Matches c p send_request = Unit
  Matches c p (byzantine color) = Unit

  handle-Places :
      (c : Chance Message) (p : PartitionEnv Env Replica Message Request) (a : Action)
      → 1 ≤ p.config.ticks_between_partition
      → IsPlaced p.cur_partition
      → Matches c p.cur_partition a
      → Places (handle sys painter c p a).1
  unfolding handle handle_partition handle_start_stop handle_request handle_byzantine
  handle-Places c p (create_partition new) h w (ranges, (parts, e)) =
      change-Places sys painter c p new parts h ranges e
  handle-Places c p keep_same_partition h w m = keep-Places sys painter c p h w
  handle-Places c p (stop_start color k) h w m =
      let node = target sys painter c p.cur_partition color k in
      let r = switch sys painter k node p.underlying_env p.cur_partition.active_nodes in
      after_switch-Places sys painter p k r.1 (sys.tick r.0) w
  handle-Places c p send_request h w m =
      if-both {A = PartitionEnv Env Replica Message Request × Outcome (Partition Replica Request)}
        (λ r. Places r.1) p.cur_partition.can_deliver_request
        (send_first-Places p p.cur_partition.pending_requests w) w
  handle-Places c p (byzantine color) h w m =
      corrupt-Places p sys.become_byzantine (honest sys painter c p.cur_partition color) w

  -- The step returns, the partition that is current then is well placed, and some nodes are in it.
  abbrev pub Steps :
      List ℕ
      → PartitionEnv Env Replica Message Request × Outcome (Partition Replica Request)
      → Type 0
  Steps nodes (q, returns next) =
      IsPlaced q.cur_partition × Every (λ n. Numbered n q.cur_partition.partition_map) nodes
  Steps nodes (q, fails e) = ⊥
  Steps nodes (q, panics) = ⊥

  handle-all :
      (nodes : List ℕ) (c : Chance Message) (p : PartitionEnv Env Replica Message Request)
      (a : Action)
      → Every (λ n. Numbered n p.cur_partition.partition_map) nodes
      → Every (λ n. Includes sys painter n c p.cur_partition a) nodes
      → Every (λ n. Keeps sys painter n (handle sys painter c p a).1) nodes
  handle-all [] c p a h m = tt
  handle-all (n ∷ nodes) c p a h m =
      (handle-Keeps sys painter n c p a m.0 h.0, handle-all nodes c p a h.1 m.1)

  commit-Steps :
      (nodes : List ℕ)
      (r : PartitionEnv Env Replica Message Request × Outcome (Partition Replica Request))
      → Places r.1
      → Every (λ n. Keeps sys painter n r.1) nodes
      → Steps nodes (commit sys painter r)
  commit-Steps nodes (q, returns next) w k = (w, k)
  commit-Steps nodes (q, fails e) w k = absurd w
  commit-Steps nodes (q, panics) w k = absurd w

  -- With at least one tick per action, Step returns: no action panics from a partition whose map has
  -- no two entries for a node and only entries for nodes with a colour and with the number of a part
  -- that there is, and the map of the partition afterwards is such a one again. Of some nodes that
  -- have an entry, each has one afterwards. A new partition has to have a node for each of its
  -- colours, and these nodes in its parts. (If ranging over the colours of the nodes meets only
  -- these.)
  pub step-Steps :
      (nodes : List ℕ) (c : Chance Message) (p : PartitionEnv Env Replica Message Request)
      (a : Action)
      → 1 ≤ p.config.ticks_between_partition
      → IsPlaced p.cur_partition
      → Matches c p.cur_partition a
      → Every (λ n. Numbered n p.cur_partition.partition_map) nodes
      → Every (λ n. Includes sys painter n c p.cur_partition a) nodes
      → Steps nodes (step sys painter c p a)
  unfolding step
  step-Steps nodes c p a h w m k i =
      commit-Steps nodes (handle sys painter c p a) (handle-Places c p a h w m)
        (handle-all nodes c p a k i)
