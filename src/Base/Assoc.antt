-- ===== src/Base/Assoc.antt =====
-- Go maps with number keys, as association lists with each key once; sets of keys as lists.
use Prim.Native.Nat.{ℕ, ◌≤◌}
use mathlib.Core.Path.{◌≡◌, refl}
use mathlib.Core.Bool.{Bool, false, ◌||◌}
use mathlib.Core.Option.{Option, none, some}
use mathlib.Core.List.{List, [], ◌∷◌}
use native.Mathlib.Omega.{arith}
use raft_rl_test.Base.Tests.{if◌then◌else◌, ◌==◌}
use raft_rl_test.Base.Lists.{length}

-- A Go map as the list of its entries.
abbrev pub GoMap {ℓ} : Type ℓ → Type ℓ
GoMap V = List (ℕ × V)

module _ {ℓ} {V : Type ℓ} where
  -- The value at a key, with the `ok` of Go's two-valued read as the option.
  unfoldable pub get : GoMap V → ℕ → Option V
  get [] key = none
  get (entry ∷ rest) key = if entry.0 == key then some entry.1 else get rest key

  -- m[key] = value
  unfoldable pub put : GoMap V → ℕ → V → GoMap V
  put [] key value = (key, value) ∷ []
  put (entry ∷ rest) key value =
      if entry.0 == key then (key, value) ∷ rest else entry ∷ put rest key value

  pub get-put :
      (m : GoMap V) (key : ℕ) (value : V) (at : ℕ)
      → get (put m key value) at ≡ (if key == at then some value else get m at)
  unfolding get put
  get-put [] key value at = refl
  get-put (entry ∷ rest) key value at = ground (arith, get-put rest key value at)

-- s[k] for a map[uint64]bool that only ever stores `true`.
unfoldable pub has : ℕ → List ℕ → Bool
has k [] = false
has k (j ∷ s) = j == k || has k s

-- s[k] = true
unfoldable pub add : ℕ → List ℕ → List ℕ
unfolding has
add k s = if has k s then s else k ∷ s

-- A set made by adding the elements of a list one by one.
unfoldable pub set_of : List ℕ → List ℕ
unfolding add
set_of [] = []
set_of (k ∷ ks) = add k (set_of ks)

pub has-add : (k j : ℕ) (s : List ℕ) → has j (add k s) ≡ (k == j || has j s)
unfolding add
has-add k j [] = ground arith
has-add k j (i ∷ s) = ground (arith, has-add k j s)

pub length-set_of : (ks : List ℕ) → length (set_of ks) ≤ length ks
unfolding set_of
length-set_of [] = omega arith
length-set_of (k ∷ ks) = ground (arith, length-set_of ks)
