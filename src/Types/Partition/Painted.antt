-- ===== src/Types/Partition/Painted.antt =====
-- The colours of nodes in the map of a partition, and the counts that its guards compare.
use raft_rl_test.Base.{
  ℕ, zero, suc, ◌+◌, ◌<◌, ◌≡◌, refl, Bool, true, false, ◌||◌, List, [], ◌∷◌, ◌⊎◌, inl, inr, some,
  length, get_elem?, Bool-cases, bytes_eq, bytes_eq_sound, ◌==◌, arith,
}
use raft_rl_test.Base.Int.{ℤ, pos, negsuc, ltb_ℤ, eqb_ℤ}
use raft_rl_test.Base.Assoc.{GoMap}
use raft_rl_test.Types.Partition.Color.{Color, hash}
use raft_rl_test.Types.Partition.Actions.{has_hash, colors_where, hashes, difference}

-- An entry of a map is for a node that passes a test.
pub record SomeNode (keep : ℕ → Bool) (m : GoMap Color) : Type 0 where
  pub place : ℕ
  pub node : ℕ
  pub color : Color
  pub entry : get_elem? m place ≡ some (node, color)
  pub kept : keep node ≡ true

SomeNode-later :
    {keep : ℕ → Bool} {m : GoMap Color} (e : ℕ × Color) → SomeNode keep m → SomeNode keep (e ∷ m)
SomeNode-later e w = record {
  place = suc w.place;
  node = w.node;
  color = w.color;
  entry = w.entry;
  kept = w.kept;
}

-- And the colour of that node has a hash.
pub record Wears (keep : ℕ → Bool) (h : List ℕ) (m : GoMap Color) : Type 0 where
  pub who : SomeNode keep m
  pub hashed : h ≡ hash who.color

module _ (keep : ℕ → Bool) where
  pub colors_where-SomeNode :
      (m : GoMap Color) → (length (hashes (colors_where keep m)) == 0) ≡ false → SomeNode keep m
  unfolding colors_where
  colors_where-SomeNode [] e = ground (arith, e)
  colors_where-SomeNode (x ∷ m) e = elim (Bool-cases (keep x.0)) [
    | inl t ↦ record { place = 0; node = x.0; color = x.1; entry = refl; kept = t }
    | inr f ↦ SomeNode-later x (colors_where-SomeNode m (rw f at e))
  ]

  Wears-later :
      (x : ℕ × Color) (h : List ℕ) (m : GoMap Color) → Wears keep h m → Wears keep h (x ∷ m)
  unfolding SomeNode-later
  Wears-later x h m w = record { who = SomeNode-later x w.who; hashed = w.hashed }

  pub has_hash-Wears :
      (h : List ℕ) (m : GoMap Color)
      → has_hash h (hashes (colors_where keep m)) ≡ true
      → Wears keep h m
  unfolding colors_where
  has_hash-Wears h [] e = ground (arith, e)
  has_hash-Wears h (x ∷ m) e = elim (Bool-cases (keep x.0)) [
    | inl t ↦
        let first : SomeNode keep (x ∷ m) = record {
          place = 0;
          node = x.0;
          color = x.1;
          entry = refl;
          kept = t;
        } in
        let found : (bytes_eq h (hash x.1) || has_hash h (hashes (colors_where keep m))) ≡ true =
          rw t at e in
        elim (Bool-cases (bytes_eq h (hash x.1))) [
          | inl b ↦ record { who = first; hashed = bytes_eq_sound h (hash x.1) b }
          | inr b ↦ Wears-later x h m (has_hash-Wears h m (rw b at found))
        ]
    | inr f ↦ Wears-later x h m (has_hash-Wears h m (rw f at e))
  ]

-- A number that is at least 1.
abbrev pub Positive : ℤ → Type 0
Positive z = (k : ℕ) × (z ≡ pos (suc k))

pub ltb-Positive : (z : ℤ) → ltb_ℤ (pos 0) z ≡ true → Positive z
ltb-Positive (pos zero) h = ground (arith, h)
ltb-Positive (pos (suc k)) h = (k, refl)
ltb-Positive (negsuc k) h = ground (arith, h)

-- Fewer than `most` of `nodes` nodes are not among the `active` ones; 0 is no bound.
abbrev pub IsBelow : ℤ → ℕ → ℕ → Type 0
IsBelow (pos most) nodes active = (most ≡ 0) ⊎ (nodes < most + active)
IsBelow (negsuc k) nodes active = nodes + suc k < active

pub difference-IsBelow :
    (most : ℤ) (nodes active : ℕ)
    → (ltb_ℤ (difference nodes active) most || eqb_ℤ most (pos 0)) ≡ true
    → IsBelow most nodes active
difference-IsBelow (pos zero) nodes active h = inl refl
difference-IsBelow (pos (suc k)) nodes active h = inr (ground (arith, h))
difference-IsBelow (negsuc k) nodes active h = ground (arith, h)

pub difference-Positive :
    (nodes active : ℕ) → ltb_ℤ (pos 0) (difference nodes active) ≡ true → active < nodes
difference-Positive nodes active h = ground (arith, h)
