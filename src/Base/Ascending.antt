-- ===== src/Base/Ascending.antt =====
-- Lists whose elements, as far as they count, have levels that never fall.
use Prim.Native.Nat.{ℕ, ◌≤◌}
use mathlib.Core.Path.{◌≡◌}
use mathlib.Core.Bool.{Bool, true, false}
use mathlib.Core.List.{List, [], ◌∷◌, ◌++◌}
use native.Mathlib.Omega.{arith}
use raft_rl_test.Base.Tests.{if◌then◌else◌}

module _ {A : Type 0} (counts : A → Bool) (level : A → ℕ) where
  -- The level of each element that counts is at least `lo` and at least that of each one before it,
  -- and all are at most `hi`.
  abbrev pub Ascending : ℕ → List A → ℕ → Type 0
  Ascending lo [] hi = lo ≤ hi
  Ascending lo (m ∷ ms) hi =
      (counts m ≡ true → lo ≤ level m) × Ascending (if counts m then level m else lo) ms hi

  pub Ascending-le : (lo hi : ℕ) (ms : List A) → Ascending lo ms hi → lo ≤ hi
  Ascending-le lo hi [] h = h
  Ascending-le lo hi (m ∷ ms) h =
      ground (arith, Ascending-le (if counts m then level m else lo) hi ms h.1)

  Ascending-branch :
      (b : Bool) (x lo mid hi : ℕ) (ms : List A)
      → (Ascending mid ms hi → Ascending lo ms hi)
      → Ascending (if b then x else mid) ms hi
      → Ascending (if b then x else lo) ms hi
  Ascending-branch true x lo mid hi ms f h = h
  Ascending-branch false x lo mid hi ms f h = f h

  -- The lower bound may be lowered.
  pub Ascending-lower :
      (lo mid hi : ℕ) (ms : List A) → lo ≤ mid → Ascending mid ms hi → Ascending lo ms hi
  Ascending-lower lo mid hi [] l h = omega arith
  Ascending-lower lo mid hi (m ∷ ms) l h = (
    λ v. omega (arith, h.0 v),
    Ascending-branch (counts m) (level m) lo mid hi ms (Ascending-lower lo mid hi ms l) h.1,
  )

  pub Ascending-append :
      (lo mid hi : ℕ) (xs ys : List A)
      → Ascending lo xs mid
      → Ascending mid ys hi
      → Ascending lo (xs ++ ys) hi
  Ascending-append lo mid hi [] ys h k = Ascending-lower lo mid hi ys h k
  Ascending-append lo mid hi (m ∷ xs) ys h k =
      (h.0, Ascending-append (if counts m then level m else lo) mid hi xs ys h.1 k)

  -- One element: at the bound itself, or one that does not count.
  pub Ascending-one : (lo : ℕ) (m : A) → (counts m ≡ true → level m ≡ lo) → Ascending lo (m ∷ []) lo
  Ascending-one lo m h = ground arith

  -- What follows an element that counts ascends from its level.
  pub Ascending-after :
      (lo hi : ℕ) (xs : List A) (m : A) (ms : List A)
      → Ascending lo (xs ++ m ∷ ms) hi
      → counts m ≡ true
      → (lo ≤ level m) × Ascending (level m) ms hi
  Ascending-after lo hi [] m ms h v = (h.0 v, (rw v at h.1))
  Ascending-after lo hi (x ∷ xs) m ms h v =
      ground (arith, Ascending-after (if counts x then level x else lo) hi xs m ms h.1 v)

  -- No element that counts comes before one of a lower level.
  pub Ascending-ordered :
      (lo hi : ℕ) (xs : List A) (early : A) (ys : List A) (late : A) (zs : List A)
      → Ascending lo (xs ++ early ∷ (ys ++ late ∷ zs)) hi
      → counts early ≡ true
      → counts late ≡ true
      → level early ≤ level late
  Ascending-ordered lo hi xs early ys late zs h v w =
      (Ascending-after (level early) hi ys late zs
        (Ascending-after lo hi xs early (ys ++ late ∷ zs) h v).1 w).0
