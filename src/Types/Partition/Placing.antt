-- ===== src/Types/Partition/Placing.antt =====
-- The end of the handlers: a partition whose map gives nodes with a colour the number of a part.
use raft_rl_test.Base.{
  ℕ, zero, suc, ◌≡◌, ◌≤◌, refl, ◌∙◌, sym, List, [], ◌∷◌, some, none, length, ◌==◌, arith,
  Bool-cases, inl, inr,
}
use mathlib.Core.Path.{subst}
use raft_rl_test.Base.Int.{ℤ}
use raft_rl_test.Base.Assoc.{GoMap, put, get-put}
use raft_rl_test.Base.Every.{Every, Every-weaken}
use raft_rl_test.Types.Partition.Color.{Color}
use raft_rl_test.Types.Partition.State.{
  Partition, SystemState, System, PartitionEnv, PartitionEnvConfig, Chance, Outcome, returns,
  panics, fails,
}
use raft_rl_test.Types.Partition.Parts.{
  color_of, recolor_to, recolor_all, paint_parts, sorted_parts,
}
use raft_rl_test.Types.Partition.Handlers.{ticks, after_ticks, run_parts, settle, with_requests}
use raft_rl_test.Types.Partition.Spending.{ticks-cur_partition}
use raft_rl_test.Types.Partition.Placement.{
  flat, Fits, Colored, paint_parts-some, length-sorted_parts,
}
use raft_rl_test.Types.Partition.Numbering.{Unique}

module _ {Replica Request : Type 0} where
  -- No node has two entries in the map, and each entry is for a node with a colour and names a part
  -- that there is.
  pub record IsPlaced (p : Partition Replica Request) : Type 0 where
    pub unique : Unique p.partition_map
    pub fits : Every (Fits (Colored p.replica_colors) (length p.partition)) p.partition_map

  -- The call returns such a partition.
  abbrev pub Places : Outcome (Partition Replica Request) → Type 0
  Places (returns next) = IsPlaced next
  Places (fails e) = ⊥
  Places panics = ⊥

-- The colours of `two` are at least those of `one`.
abbrev pub Grown : GoMap Color → GoMap Color → Type 0
Grown one two = (n : ℕ) → Colored one n → Colored two n

pub put-Grown : (m : GoMap Color) (key : ℕ) (c : Color) → Grown m (put m key c)
put-Grown m key c n (d, e) = elim (Bool-cases (key == n)) [
  | inl t ↦ (c, ground (arith, get-put m key c n, t))
  | inr f ↦ (d, ground (arith, get-put m key c n, f, e))
]

module _ {Replica Message Request : Type 0} (painter : Replica → Color)
    (s : SystemState Replica Message Request) (active : List ℕ) where
  pub recolor_to-Grown :
      (n : ℕ) (p : Partition Replica Request)
      → Grown p.replica_colors (recolor_to painter s active n p).replica_colors
  unfolding recolor_to
  recolor_to-Grown zero p k h = h
  recolor_to-Grown (suc n) p k h =
      put-Grown (recolor_to painter s active n p).replica_colors (suc n)
        (color_of painter s active (suc n)) k (recolor_to-Grown n p k h)

  pub recolor_to-map :
      (n : ℕ) (p : Partition Replica Request)
      → (recolor_to painter s active n p).partition_map ≡ p.partition_map
  unfolding recolor_to
  recolor_to-map zero p = refl
  recolor_to-map (suc n) p = recolor_to-map n p

  pub recolor_all-Grown :
      (m : GoMap ℕ) (p : Partition Replica Request)
      → Grown p.replica_colors (recolor_all painter s active m p).replica_colors
  unfolding recolor_all
  recolor_all-Grown [] p k h = h
  recolor_all-Grown (e ∷ m) p k h =
      let q = record p {
        replica_colors = put p.replica_colors e.0 (color_of painter s active e.0);
        replica_states = put p.replica_states e.0 (s.get_replica_state e.0);
      } in
      recolor_all-Grown m q k (put-Grown p.replica_colors e.0 (color_of painter s active e.0) k h)

  pub recolor_all-map :
      (m : GoMap ℕ) (p : Partition Replica Request)
      → (recolor_all painter s active m p).partition_map ≡ p.partition_map
  unfolding recolor_all
  recolor_all-map [] p = refl
  recolor_all-map (e ∷ m) p = recolor_all-map m _

-- The parts of an action, as a handler needs them.
abbrev pub Good : GoMap Color → List (List ℕ) → GoMap ℕ → Type 0
Good colors parts m =
    Unique m × Every (Fits (Colored colors) (length parts)) m × Every (Colored colors) (flat parts)

module _ {Env Replica Message Request : Type 0} (sys : System Env Replica Message Request)
    (painter : Replica → Color) where
  pub settle-Places :
      (config : PartitionEnvConfig) (old : List (List Color)) (count : ℤ)
      (next : Partition Replica Request) (parts : List (List ℕ))
      → Good next.replica_colors parts next.partition_map
      → Places (settle sys painter config old count next (paint_parts next.replica_colors parts))
  settle-Places config old count next parts (u, f, c) =
      let (ps, e, l) = paint_parts-some next.replica_colors parts c in
      let same : length (sorted_parts ps) ≡ length parts = length-sorted_parts ps ∙ l in
      subst (λ o. Places (settle sys painter config old count next o)) (sym e)
        (record {
          unique = u;
          fits =
              subst (λ k. Every (Fits (Colored next.replica_colors) k) next.partition_map)
                (sym same) f;
        })

  after_ticks-Places :
      (parts : List (List ℕ)) (m : GoMap ℕ) (q : PartitionEnv Env Replica Message Request)
      (s : SystemState Replica Message Request)
      → Good q.cur_partition.replica_colors parts m
      → Places (after_ticks sys painter parts m (q, some s)).1
  after_ticks-Places parts m q s (u, f, c) =
      let old = q.cur_partition in
      let next = recolor_to painter s old.active_nodes q.config.num_replicas old in
      let grown = recolor_to-Grown painter s old.active_nodes q.config.num_replicas old in
      settle-Places q.config old.partition old.repeat_count
        (with_requests sys painter (record next { partition_map = m }) s) parts
        (
          u,
          Every-weaken (Fits (Colored old.replica_colors) (length parts))
              (Fits (Colored next.replica_colors) (length parts)) (λ e h. (h.0, grown e.0 h.1)) m f,
          Every-weaken (Colored old.replica_colors) (Colored next.replica_colors) grown (flat parts)
              c,
        )

  ticks-some :
      (c : Chance Message) (m : GoMap ℕ) (active : List ℕ) (i n : ℕ)
      (p : PartitionEnv Env Replica Message Request) (s : SystemState Replica Message Request)
      → (t : SystemState Replica Message Request) × ((ticks sys painter c m active i n p (some s)).1
          ≡ some t)
  unfolding ticks
  ticks-some c m active i zero p s = (s, refl)
  ticks-some c m active i (suc n) p s = ticks-some c m active (suc i) n _ _

  ticks-state :
      (c : Chance Message) (m : GoMap ℕ) (active : List ℕ) (n : ℕ)
      (p : PartitionEnv Env Replica Message Request)
      → 1 ≤ n
      → (t : SystemState Replica Message Request) × ((ticks sys painter c m active 0 n p none).1
          ≡ some t)
  unfolding ticks
  ticks-state c m active zero p h = absurd (omega (arith, h))
  ticks-state c m active (suc n) p h = ticks-some c m active 1 n _ _

  pub run_parts-Places :
      (c : Chance Message) (p : PartitionEnv Env Replica Message Request) (parts : List (List ℕ))
      (m : GoMap ℕ)
      → 1 ≤ p.config.ticks_between_partition
      → Good p.cur_partition.replica_colors parts m
      → Places (run_parts sys painter c p (some (parts, m))).1
  run_parts-Places c p parts m h g =
      let n = p.config.ticks_between_partition in
      let r = ticks sys painter c m p.cur_partition.active_nodes 0 n p none in
      let (t, e) = ticks-state c m p.cur_partition.active_nodes n p h in
      let same : r.0.cur_partition ≡ p.cur_partition =
        ticks-cur_partition sys painter c m p.cur_partition.active_nodes 0 n p none in
      subst (λ o. Places (after_ticks sys painter parts m (r.0, o)).1) (sym e)
        (after_ticks-Places parts m r.0 t (subst (λ q. Good q.replica_colors parts m) (sym same) g))
