-- ===== src/Base/Lists.antt =====
-- Lists measured by native numbers, under the library's names, and prefixes of lists.
use Prim.Native.Nat.{ℕ, zero, suc, ◌+◌, ◌≤◌}
use mathlib.Core.Path.{◌≡◌, refl, sym, ◌∙◌, ap}
use mathlib.Core.List.{List, [], ◌∷◌, ◌++◌, map, append-nil, append_assoc}
use mathlib.Core.Option.{Option, none, some}
use mathlib.Core.Bool.{Bool, true, false, ◌&&◌}
use native.Mathlib.Omega.{arith}
use raft_rl_test.Base.Tests.{if◌then◌else◌, ◌==◌}

module _ {ℓ} {A : Type ℓ} where
  abbrev pub length : List A → ℕ
  length [] = 0
  length (x ∷ xs) = suc (length xs)

  abbrev pub get_elem? : List A → ℕ → Option A
  get_elem? [] i = none
  get_elem? (x ∷ xs) zero = some x
  get_elem? (x ∷ xs) (suc i) = get_elem? xs i

  abbrev pub get_last? : List A → Option A
  get_last? [] = none
  get_last? (x ∷ []) = some x
  get_last? (x ∷ y ∷ ys) = get_last? (y ∷ ys)

  -- The elements that pass a Boolean test, in order.
  abbrev pub select : (A → Bool) → List A → List A
  select p [] = []
  select p (x ∷ xs) = let rest = select p xs in if p x then x ∷ rest else rest

  pub length-append : (xs ys : List A) → length (xs ++ ys) ≡ length xs + length ys
  length-append [] ys = omega arith
  length-append (x ∷ xs) ys = omega (arith, length-append xs ys)

  pub length-select : (p : A → Bool) (xs : List A) → length (select p xs) ≤ length xs
  length-select p [] = omega arith
  length-select p (x ∷ xs) = ground (arith, length-select p xs)

-- `ys` is `xs` with more behind it.
pub record IsPrefix {ℓ} {A : Type ℓ} (xs ys : List A) : Type ℓ where
  pub rest : List A
  pub splits : ys ≡ xs ++ rest

module _ {ℓ} {A : Type ℓ} where
  pub IsPrefix-refl : (xs : List A) → IsPrefix xs xs
  IsPrefix-refl xs = record { rest = []; splits = sym (append-nil xs) }

  pub IsPrefix-trans : {xs ys zs : List A} → IsPrefix xs ys → IsPrefix ys zs → IsPrefix xs zs
  IsPrefix-trans {xs} p q = record {
    rest = p.rest ++ q.rest;
    splits = q.splits ∙ ap (λ l. l ++ q.rest) p.splits ∙ append_assoc xs p.rest q.rest;
  }

  pub IsPrefix-append : (xs ys : List A) → IsPrefix xs (xs ++ ys)
  IsPrefix-append xs ys = record { rest = ys; splits = refl }

  pub length-IsPrefix : {xs ys : List A} → IsPrefix xs ys → length xs ≤ length ys
  length-IsPrefix {xs} p = omega (arith, ap length p.splits, length-append xs p.rest)

-- Equality of byte strings, as `bytes.Equal` decides it.
abbrev pub bytes_eq : List ℕ → List ℕ → Bool
bytes_eq [] [] = true
bytes_eq (x ∷ xs) (y ∷ ys) = (x == y) && bytes_eq xs ys
bytes_eq _ _ = false

pub bytes_eq_sound : (xs ys : List ℕ) → bytes_eq xs ys ≡ true → xs ≡ ys
bytes_eq_sound [] [] h = refl
bytes_eq_sound [] (y ∷ ys) h = ground arith
bytes_eq_sound (x ∷ xs) [] h = ground arith
bytes_eq_sound (x ∷ xs) (y ∷ ys) h = ground (arith, bytes_eq_sound xs ys)

pub bytes_eq_refl : (xs : List ℕ) → bytes_eq xs xs ≡ true
bytes_eq_refl [] = refl
bytes_eq_refl (x ∷ xs) = ground (arith, bytes_eq_refl xs)

module _ {ℓ} {A : Type ℓ} where
  abbrev pub take : ℕ → List A → List A
  take zero xs = []
  take (suc n) [] = []
  take (suc n) (x ∷ xs) = x ∷ take n xs

  abbrev pub drop : ℕ → List A → List A
  drop zero xs = xs
  drop (suc n) [] = []
  drop (suc n) (x ∷ xs) = drop n xs

  pub get_elem?-none : (xs : List A) (i : ℕ) → length xs ≤ i → get_elem? xs i ≡ none
  get_elem?-none [] i h = refl
  get_elem?-none (x ∷ xs) zero h = ground arith
  get_elem?-none (x ∷ xs) (suc i) h = get_elem?-none xs i (omega arith)

  -- One more element of a list that goes on.
  pub take-more :
      (xs : List A) (i : ℕ) (x : A)
      → get_elem? xs i ≡ some x
      → take i xs ++ x ∷ [] ≡ take (suc i) xs
  take-more [] i x h = ground arith
  take-more (y ∷ ys) zero x h = ground arith
  take-more (y ∷ ys) (suc i) x h = ap (λ l. y ∷ l) (take-more ys i x h)

  pub take-drop-some :
      (xs : List A) (i n : ℕ) (x : A)
      → get_elem? xs i ≡ some x
      → take (suc n) (drop i xs) ≡ x ∷ take n (drop (suc i) xs)
  take-drop-some [] i n x h = ground arith
  take-drop-some (y ∷ ys) zero n x h = ground arith
  take-drop-some (y ∷ ys) (suc i) n x h = take-drop-some ys i n x h

module _ {ℓ κ} {A : Type ℓ} {B : Type κ} (f : A → B) where
  pub length-map : (xs : List A) → length (map f xs) ≡ length xs
  length-map [] = refl
  length-map (x ∷ xs) = omega (arith, length-map xs)

  pub take-map : (n : ℕ) (xs : List A) → take n (map f xs) ≡ map f (take n xs)
  take-map zero xs = refl
  take-map (suc n) [] = refl
  take-map (suc n) (x ∷ xs) = ap (λ l. f x ∷ l) (take-map n xs)

  pub map-snoc : (xs : List A) (x : A) → map f xs ++ f x ∷ [] ≡ map f (xs ++ x ∷ [])
  map-snoc [] x = refl
  map-snoc (y ∷ ys) x = ap (λ l. f y ∷ l) (map-snoc ys x)
