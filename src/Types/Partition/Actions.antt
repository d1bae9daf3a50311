-- ===== src/Types/Partition/Actions.antt =====
-- `Actions` of a Partition: what the agent may do in a state. `enumerate` is util.EnumeratePartitions
-- on the hashes of the colours.
use raft_rl_test.Base.{
  ℕ, ◌-◌, Bool, false, not, ◌&&◌, ◌||◌, List, [], ◌∷◌, ◌++◌, Option, some, none, length, map,
  if◌then◌else◌, ◌==◌, ltb, leb, bytes_eq,
}
use raft_rl_test.Base.Int.{ℤ, pos, negsuc, ltb_ℤ, eqb_ℤ}
use raft_rl_test.Base.Assoc.{GoMap, has}
use raft_rl_test.Types.Partition.Color.{Color, hash}
use raft_rl_test.Types.Partition.State.{
  Partition, Action, create_partition, keep_same_partition, stop_start, stop, start, send_request,
  byzantine,
}

abbrev pub has_hash : List ℕ → List (List ℕ) → Bool
has_hash h [] = false
has_hash h (k ∷ ks) = let rest = has_hash h ks in bytes_eq h k || rest

-- The keys of a map that the hashes are stored in.
unfoldable pub distinct : List (List ℕ) → List (List ℕ)
distinct [] = []
distinct (h ∷ hs) = let rest = distinct hs in if has_hash h rest then rest else h ∷ rest

-- The colours of the nodes of a map that pass a test.
unfoldable pub colors_where : (ℕ → Bool) → GoMap Color → List Color
colors_where keep [] = []
colors_where keep (e ∷ m) = let rest = colors_where keep m in if keep e.0 then e.1 ∷ rest else rest

abbrev pub hashes : List Color → List (List ℕ)
hashes cs = map hash cs

-- colorsHash[h]: the last colour stored under a hash.
unfoldable pub color_with : List ℕ → GoMap Color → Option Color
color_with h [] = none
color_with h (e ∷ m) = elim (color_with h m) [
  | some c ↦ some c
  | none ↦ if bytes_eq (hash e.1) h then some e.1 else none
]

-- A hash that no replica has gives a nil colour in Go, and none here.
unfoldable pub colors_with : GoMap Color → List (List ℕ) → List Color
unfolding color_with
colors_with m [] = []
colors_with m (h ∷ hs) = elim (color_with h m) [
  | some c ↦ c ∷ colors_with m hs
  | none ↦ colors_with m hs
]

-- a - b
abbrev pub difference : ℕ → ℕ → ℤ
difference a b = if leb b a then pos (a - b) else negsuc (b - a - 1)

module _ {Replica Request : Type 0} where
  abbrev pub is_active : Partition Replica Request → ℕ → Bool
  is_active p node = has node p.active_nodes

  abbrev pub inactive_replicas : Partition Replica Request → ℤ
  inactive_replicas p = difference (length p.replica_colors) (length p.active_nodes)

  -- The parts that a way to split the active colours gives, and one of the inactive replicas.
  abbrev pub partition_of : Partition Replica Request → List (List (List ℕ)) → List (List Color)
  partition_of p parts =
      map (colors_with p.replica_colors) parts
      ++ colors_where (λ n. not (is_active p n)) p.replica_colors ∷ []

  unfoldable pub partition_actions :
      (List (List ℕ) → List (List (List (List ℕ)))) → Partition Replica Request → List Action
  unfolding colors_where colors_with
  partition_actions enumerate p =
      let active = hashes (colors_where (is_active p) p.replica_colors) in
      if length active == 0
      then []
      else keep_same_partition
        ∷ map (λ parts. create_partition (partition_of p parts)) (enumerate active)

  abbrev pub may_crash : Partition Replica Request → Bool
  may_crash p =
      ltb_ℤ (pos 0) p.remaining_crashes
      && (ltb_ℤ (inactive_replicas p) p.max_inactive || eqb_ℤ p.max_inactive (pos 0))

  unfoldable pub crash_actions : Partition Replica Request → List Action
  unfolding colors_where distinct
  crash_actions p =
      let stops =
        map (λ h. stop_start h stop)
          (distinct (hashes (colors_where (is_active p) p.replica_colors))) in
      let starts = stop_start [] start ∷ [] in
      if p.with_crashes
      then (if may_crash p then stops else [])
        ++ (if ltb_ℤ (pos 0) (inactive_replicas p) then starts else [])
      else []

  unfoldable pub request_actions : Partition Replica Request → List Action
  request_actions p =
      if p.can_deliver_request && ltb 0 (length p.pending_requests) then send_request ∷ [] else []

  unfoldable pub byzantine_actions : Partition Replica Request → List Action
  unfolding colors_where distinct
  byzantine_actions p =
      if p.with_byzantine && ltb_ℤ (pos 0) p.remaining_byzantine
      then map byzantine (
          distinct (
            hashes (
              colors_where (λ n. not (has n p.byzantine_nodes) && is_active p n) p.replica_colors)))
      else []

  unfoldable pub actions :
      (List (List ℕ) → List (List (List (List ℕ)))) → Partition Replica Request → List Action
  unfolding partition_actions crash_actions request_actions byzantine_actions
  actions enumerate p =
      partition_actions enumerate p
      ++ (crash_actions p ++ (request_actions p ++ byzantine_actions p))

-- PickKeepSame
unfoldable pub pick_keep_same : List Action → Option Action
pick_keep_same [] = none
pick_keep_same (keep_same_partition ∷ rest) = some keep_same_partition
pick_keep_same (create_partition _ ∷ rest) = pick_keep_same rest
pick_keep_same (stop_start _ _ ∷ rest) = pick_keep_same rest
pick_keep_same (send_request ∷ rest) = pick_keep_same rest
pick_keep_same (byzantine _ ∷ rest) = pick_keep_same rest
