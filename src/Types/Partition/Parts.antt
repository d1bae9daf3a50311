-- ===== src/Types/Partition/Parts.antt =====
-- The parts that the handlers of types/partition_env.go compute: lists of nodes, the numbers of the
-- parts, their colours. Where Go panics (an index out of range, a nil colour) the result is none.
use raft_rl_test.Base.{
  ℕ, zero, suc, Bool, List, [], ◌∷◌, ◌++◌, Option, some, none, if◌then◌else◌, bytes_eq, map,
}
use raft_rl_test.Base.Int.{ℤ, pos, ltb_ℤ, add_int}
use raft_rl_test.Base.Assoc.{GoMap, get, put, has}
use raft_rl_test.Types.Partition.Color.{Color, inactive, hash, sort, color_less, part_less}
use raft_rl_test.Types.Partition.State.{Partition, SystemState}

abbrev pub cons_opt {ℓ} : {A : Type ℓ} → Option A → Option (List A) → Option (List A)
cons_opt (some x) (some xs) = some (x ∷ xs)
cons_opt _ _ = none

-- newPartition[i] = append(newPartition[i], n)
unfoldable pub place : List (List ℕ) → ℕ → ℕ → Option (List (List ℕ))
place [] i n = none
place (part ∷ parts) zero n = some ((part ++ n ∷ []) ∷ parts)
place (part ∷ parts) (suc i) n = cons_opt (some part) (place parts i n)

abbrev pub place_in : Option (List (List ℕ)) → ℕ × ℕ → Option (List (List ℕ))
place_in none e = none
place_in (some parts) e = place parts e.1 e.0

-- The loop over a partition map: every node goes to its part.
unfoldable pub place_all : Option (List (List ℕ)) → GoMap ℕ → Option (List (List ℕ))
unfolding place
place_all parts [] = parts
place_all parts (e ∷ m) = place_all (place_in parts e) m

-- As many empty parts as there are parts.
abbrev pub empty_parts : {A : Type 0} → List (List A) → List (List ℕ)
empty_parts parts = map (λ p. []) parts

-- The numbers of the parts from `i` on, for the nodes in them.
unfoldable pub number_part : ℕ → List ℕ → GoMap ℕ → GoMap ℕ
number_part i [] m = m
number_part i (n ∷ ns) m = number_part i ns (put m n i)

unfoldable pub number_parts : ℕ → List (List ℕ) → GoMap ℕ → GoMap ℕ
unfolding number_part
number_parts i [] m = m
number_parts i (part ∷ parts) m = number_parts (suc i) parts (number_part i part m)

-- The first node of a colour, and the nodes that are left.
unfoldable pub take_replica : List ℕ → GoMap Color → Option (ℕ × GoMap Color)
take_replica h [] = none
take_replica h (e ∷ m) =
    if bytes_eq (hash e.1) h
    then some (e.0, m)
    else elim (take_replica h m) [ some r ↦ some (r.0, e ∷ r.1) | none ↦ none ]

-- A part of nodes for a part of colours.
unfoldable pub assign_part : List Color → GoMap Color → Option (List ℕ × GoMap Color)
unfolding take_replica
assign_part [] m = some ([], m)
assign_part (c ∷ cs) m = elim (take_replica (hash c) m) [
  | none ↦ none
  | some r ↦ elim (assign_part cs r.1) [ none ↦ none | some rest ↦ some (r.0 ∷ rest.0, rest.1) ]
]

unfoldable pub assign_parts : List (List Color) → GoMap Color → Option (List (List ℕ))
unfolding assign_part
assign_parts [] m = some []
assign_parts (p ∷ ps) m = elim (assign_part p m) [
  | none ↦ none
  | some r ↦ cons_opt (some r.0) (assign_parts ps r.1)
]

-- The colours of the nodes of a part.
unfoldable pub paint : GoMap Color → List ℕ → Option (List Color)
paint colors [] = some []
paint colors (n ∷ ns) = cons_opt (get colors n) (paint colors ns)

unfoldable pub paint_parts : GoMap Color → List (List ℕ) → Option (List (List Color))
unfolding paint
paint_parts colors [] = some []
paint_parts colors (p ∷ ps) = cons_opt (paint colors p) (paint_parts colors ps)

-- The colours of all parts, sorted within and among each other.
abbrev pub sorted_parts : List (List Color) → List (List Color)
sorted_parts ps = sort part_less (map (sort color_less) ps)

-- The repeat count: one more, up to the bound, if the partition is the same.
abbrev pub repeats : ℤ → ℤ → Bool → ℤ
repeats count upto same =
    let next = add_int count 1 in if same then (if ltb_ℤ upto next then upto else next) else pos 0

module _ {Replica Message Request : Type 0} (painter : Replica → Color) where
  abbrev pub color_of : SystemState Replica Message Request → List ℕ → ℕ → Color
  color_of s active node =
      let c = painter (s.get_replica_state node) in if has node active then c else inactive c

  -- The state and the colour of one node.
  abbrev pub recolor :
      SystemState Replica Message Request
      → List ℕ
      → ℕ
      → Partition Replica Request
      → Partition Replica Request
  recolor s active node p = record p {
    replica_colors = put p.replica_colors node (color_of s active node);
    replica_states = put p.replica_states node (s.get_replica_state node);
  }

  -- The loop over the nodes 1 to `n`.
  unfoldable pub recolor_to :
      SystemState Replica Message Request
      → List ℕ
      → ℕ
      → Partition Replica Request
      → Partition Replica Request
  recolor_to s active zero p = p
  recolor_to s active (suc i) p = recolor s active (suc i) (recolor_to s active i p)

  -- The loop over the nodes of a partition map.
  unfoldable pub recolor_all :
      SystemState Replica Message Request
      → List ℕ
      → GoMap ℕ
      → Partition Replica Request
      → Partition Replica Request
  recolor_all s active [] p = p
  recolor_all s active (e ∷ m) p = recolor_all s active m (recolor s active e.0 p)
