-- ===== src/Types/Partition/Color.antt =====
-- The colours of types/partition_env.go and the two orders that partitions are sorted by. A string is
-- the list of its bytes.
use raft_rl_test.Base.{
  ℕ, Bool, true, false, ◌&&◌, ◌||◌, List, [], ◌∷◌, ◌++◌, if◌then◌else◌, length, ◌==◌, ltb, bytes_eq,
}

-- A colour that a painter makes is known by its hash; a stopped replica's colour wraps another.
pub data Color : Type 0 where
  painted : List ℕ → Color
  inactive : Color → Color

-- "Inactive_"
abbrev pub inactive_prefix : List ℕ
inactive_prefix = 73 ∷ 110 ∷ 97 ∷ 99 ∷ 116 ∷ 105 ∷ 118 ∷ 101 ∷ 95 ∷ []

unfoldable pub hash : Color → List ℕ
hash (painted k) = k
hash (inactive c) = inactive_prefix ++ hash c

-- s < t for strings.
abbrev pub bytes_less : List ℕ → List ℕ → Bool
bytes_less [] [] = false
bytes_less [] (y ∷ ys) = true
bytes_less (x ∷ xs) [] = false
bytes_less (x ∷ xs) (y ∷ ys) = let rest = bytes_less xs ys in ltb x y || (x == y && rest)

-- ColorSlice.Less
abbrev pub color_less : Color → Color → Bool
color_less c d = bytes_less (hash c) (hash d)

-- The loop of PartitionSlice.Less: whether some colour of `p` comes before the one of `q` at the
-- same place. Go fails where `p` is shorter, which the test before the loop rules out.
unfoldable pub some_less : List Color → List Color → Bool
some_less p [] = false
some_less [] (d ∷ q) = false
some_less (c ∷ p) (d ∷ q) = let rest = some_less p q in color_less c d || rest

-- PartitionSlice.Less
unfoldable pub part_less : List Color → List Color → Bool
unfolding some_less
part_less p q = ltb (length p) (length q) || some_less p q

-- sort.Sort on at most twelve elements: each element moves left while it is less than the one before
-- it. `sorted` is the part that is done, last element first.
module _ {A : Type 0} (less : A → A → Bool) where
  unfoldable pub move_left : A → List A → List A
  move_left x [] = x ∷ []
  move_left x (y ∷ sorted) =
      let rest = move_left x sorted in if less x y then y ∷ rest else x ∷ y ∷ sorted

  unfoldable pub sort_onto : List A → List A → List A
  unfolding move_left
  sort_onto sorted [] = sorted
  sort_onto sorted (x ∷ xs) = sort_onto (move_left x sorted) xs

unfoldable pub reverse_onto : {A : Type 0} → List A → List A → List A
reverse_onto [] done = done
reverse_onto (x ∷ xs) done = reverse_onto xs (x ∷ done)

unfoldable pub sort : {A : Type 0} → (A → A → Bool) → List A → List A
unfolding sort_onto reverse_onto
sort less xs = reverse_onto (sort_onto less [] xs) []

abbrev pub same_hashes : List Color → List Color → Bool
same_hashes [] [] = true
same_hashes (c ∷ p) (d ∷ q) = let rest = same_hashes p q in bytes_eq (hash c) (hash d) && rest
same_hashes _ _ = false

-- isSamePartition
unfoldable pub is_same_partition : List (List Color) → List (List Color) → Bool
is_same_partition [] [] = true
is_same_partition (p ∷ one) (q ∷ two) =
    let rest = is_same_partition one two in same_hashes p q && rest
is_same_partition _ _ = false
