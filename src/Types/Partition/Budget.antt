-- ===== src/Types/Partition/Budget.antt =====
-- The counters that bound the crashes and the Byzantine nodes of an episode.
use raft_rl_test.Base.{ℕ, zero, suc, ◌≡◌, ◌⊎◌, refl, List, [], ◌∷◌, Option, some, none}
use raft_rl_test.Base.Int.{ℤ, pos, sub_one}
use raft_rl_test.Base.Assoc.{GoMap, add}
use raft_rl_test.Types.Partition.Color.{Color}
use raft_rl_test.Types.Partition.State.{
  Partition, Action, create_partition, keep_same_partition, stop_start, stop, start, SystemState,
  System, PartitionEnv, PartitionEnvConfig, Outcome, returns, panics, fails, send_request,
  byzantine,
}
use raft_rl_test.Types.Partition.Parts.{
  paint_parts, recolor_to, recolor_all, number_parts, sorted_parts,
}
use raft_rl_test.Types.Partition.Handlers.{settle, with_requests}
use raft_rl_test.Types.Partition.Step.{commit, settle_regrouped, repaint}

module _ {Replica Request : Type 0} where
  -- The crashes and the Byzantine nodes that are left, and the nodes that are Byzantine.
  abbrev pub limits : Partition Replica Request → ℤ × ℤ × List ℕ
  limits p = (p.remaining_crashes, p.remaining_byzantine, p.byzantine_nodes)

  -- The limits after an action.
  abbrev pub After : Action → Partition Replica Request → ℤ × ℤ × List ℕ → Type 0
  After (stop_start color stop) p l =
      l ≡ (sub_one p.remaining_crashes, p.remaining_byzantine, p.byzantine_nodes)
  After (stop_start color start) p l = l ≡ limits p
  After (byzantine color) p l =
      (l ≡ limits p)
      ⊎ ((n : ℕ) × (l
            ≡ (p.remaining_crashes, sub_one p.remaining_byzantine, add n p.byzantine_nodes)))
  After (create_partition new) p l = l ≡ limits p
  After keep_same_partition p l = l ≡ limits p
  After send_request p l = l ≡ limits p

  -- The limits of a partition that is returned.
  abbrev pub Returns : (ℤ × ℤ × List ℕ → Type 0) → Outcome (Partition Replica Request) → Type 0
  Returns P (returns next) = P (limits next)
  Returns P (fails e) = Unit
  Returns P panics = Unit

  -- The limits of the current partition after a call that returns.
  abbrev pub Now :
      {Env Message : Type 0}
      → (ℤ × ℤ × List ℕ → Type 0)
      → PartitionEnv Env Replica Message Request × Outcome (Partition Replica Request)
      → Type 0
  Now P (q, returns next) = P (limits q.cur_partition)
  Now P (q, fails e) = Unit
  Now P (q, panics) = Unit

module _ {Replica Message Request : Type 0} (painter : Replica → Color)
    (s : SystemState Replica Message Request) (active : List ℕ) where
  pub recolor_to-limits :
      (n : ℕ) (p : Partition Replica Request) → limits (recolor_to painter s active n p) ≡ limits p
  unfolding recolor_to
  recolor_to-limits zero p = refl
  recolor_to-limits (suc n) p = recolor_to-limits n p

  pub recolor_all-limits :
      (m : GoMap ℕ) (p : Partition Replica Request)
      → limits (recolor_all painter s active m p) ≡ limits p
  unfolding recolor_all
  recolor_all-limits [] p = refl
  recolor_all-limits (e ∷ m) p = recolor_all-limits m _

module _ {Env Replica Message Request : Type 0} (sys : System Env Replica Message Request)
    (painter : Replica → Color) (P : ℤ × ℤ × List ℕ → Type 0) where
  pub settle-Returns :
      (config : PartitionEnvConfig) (old : List (List Color)) (count : ℤ)
      (next : Partition Replica Request) (o : Option (List (List Color)))
      → P (limits next)
      → Returns P (settle sys painter config old count next o)
  settle-Returns config old count next none h = tt
  settle-Returns config old count next (some ps) h = h

  pub settle_regrouped-Returns :
      (config : PartitionEnvConfig) (old next : Partition Replica Request)
      (o : Option (List (List ℕ)))
      → P (limits next)
      → Returns P (settle_regrouped sys painter config old next o)
  settle_regrouped-Returns config old next none h = tt
  settle_regrouped-Returns config old next (some parts) h =
      settle-Returns config old.partition next.repeat_count
        (record next { partition_map = number_parts 0 parts next.partition_map })
        (paint_parts next.replica_colors parts) h

  pub repaint-Returns :
      (next : Partition Replica Request) (o : Option (List (List ℕ)))
      (s : SystemState Replica Message Request)
      → P (limits next)
      → Returns P (repaint sys painter next o s)
  repaint-Returns next none s h = tt
  repaint-Returns next (some parts) s h = go (paint_parts next.replica_colors parts)
    where
      go :
          (o : Option (List (List Color)))
          → Returns P (elim o as (λ o. Outcome (Partition Replica Request)) [
            | none ↦ panics
            | some ps ↦ returns (record (with_requests sys painter next s) {
              partition = sorted_parts ps;
              repeat_count = pos 0;
            })
          ])
      go none = tt
      go (some ps) = h

  pub commit-Now :
      (r : PartitionEnv Env Replica Message Request × Outcome (Partition Replica Request))
      → Returns P r.1
      → Now P (commit sys painter r)
  commit-Now (q, returns next) h = h
  commit-Now (q, fails e) h = tt
  commit-Now (q, panics) h = tt
