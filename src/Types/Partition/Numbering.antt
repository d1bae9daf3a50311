-- ===== src/Types/Partition/Numbering.antt =====
-- The map of part numbers that the handlers make, where the parts hold every node that it has.
use raft_rl_test.Base.{
  ℕ, suc, ◌+◌, ◌≡◌, ◌≤◌, ◌<◌, ◌⊎◌, inl, inr, refl, true, false, List, [], ◌∷◌, ◌++◌, none, length,
  if-cases, ◌==◌, arith, ==_iff, some, Bool-cases, ◌∙◌,
}
use mathlib.Core.Path.{subst}
use raft_rl_test.Base.Assoc.{GoMap, get, put, has, get-put}
use raft_rl_test.Base.Every.{Every, Every-weaken}
use raft_rl_test.Types.Partition.Parts.{number_part, number_parts}
use raft_rl_test.Types.Partition.Placement.{flat, Fits, Every-split, has-append}

-- Each key has one entry.
abbrev pub Unique : {V : Type 0} → GoMap V → Type 0
Unique [] = Unit
Unique (e ∷ m) = (get m e.0 ≡ none) × Unique m

module _ {V : Type 0} where
  pub put-Unique : (m : GoMap V) (key : ℕ) (value : V) → Unique m → Unique (put m key value)
  unfolding put get
  put-Unique [] key value h = (refl, tt)
  put-Unique (e ∷ m) key value h =
      if-cases Unique (e.0 == key)
        (λ t. (subst (λ k. get m k ≡ none) ((==_iff e.0 key).0 t) h.0, h.1))
        (λ f. (ground (arith, get-put m key value e.0, h.0, f), put-Unique m key value h.1))

module _ (P : ℕ → Type 0) (k : ℕ) where
  -- An entry that fits, or whose node is still to be numbered.
  abbrev Pending : List ℕ → ℕ × ℕ → Type 0
  Pending rest e = Fits P k e ⊎ ((has e.0 rest ≡ true) × P e.0)

  done-Pending :
      (n : ℕ) (rest : List ℕ) (e : ℕ × ℕ)
      → (e.0 == n) ≡ false
      → Pending (n ∷ rest) e
      → Pending rest e
  unfolding has
  done-Pending n rest e f (inl h) = inl h
  done-Pending n rest e f (inr h) = inr (ground (arith, f, h.0), h.1)

  skip-Pending :
      (m : GoMap ℕ) (n : ℕ) (rest : List ℕ)
      → get m n ≡ none
      → Every (Pending (n ∷ rest)) m
      → Every (Pending rest) m
  unfolding get
  skip-Pending [] n rest g h = tt
  skip-Pending (e ∷ m) n rest g h =
      let other : (e.0 == n) ≡ false = ground (arith, g) in
      let later : get m n ≡ none = ground (arith, g, other) in
      (done-Pending n rest e other h.0, skip-Pending m n rest later h.1)

  put-Pending :
      (m : GoMap ℕ) (n i : ℕ) (rest : List ℕ)
      → Unique m
      → Every (Pending (n ∷ rest)) m
      → i < k
      → P n
      → Every (Pending rest) (put m n i)
  unfolding put
  put-Pending [] n i rest u h l p = (inl (l, p), tt)
  put-Pending (e ∷ m) n i rest u h l p =
      if-cases (Every (Pending rest)) (e.0 == n)
        (λ t.
          let alone : get m n ≡ none = subst (λ j. get m j ≡ none) ((==_iff e.0 n).0 t) u.0 in
          (inl (l, p), skip-Pending m n rest alone h.1))
        (λ f. (done-Pending n rest e f h.0, put-Pending m n i rest u.1 h.1 l p))

  number_part-Pending :
      (i : ℕ) (ns rest : List ℕ) (m : GoMap ℕ)
      → Unique m
      → Every (Pending (ns ++ rest)) m
      → i < k
      → Every P ns
      → Every (Pending rest) (number_part i ns m) × Unique (number_part i ns m)
  unfolding number_part
  number_part-Pending i [] rest m u h l p = (h, u)
  number_part-Pending i (n ∷ ns) rest m u h l p =
      number_part-Pending i ns rest (put m n i) (put-Unique m n i u)
        (put-Pending m n i (ns ++ rest) u h l p.0) l p.1

  number_parts-Pending :
      (i : ℕ) (parts : List (List ℕ)) (m : GoMap ℕ)
      → Unique m
      → Every (Pending (flat parts)) m
      → i + length parts ≤ k
      → Every P (flat parts)
      → Every (Pending []) (number_parts i parts m) × Unique (number_parts i parts m)
  unfolding number_parts flat
  number_parts-Pending i [] m u h l p = (h, u)
  number_parts-Pending i (part ∷ parts) m u h l p =
      let s = Every-split P part (flat parts) p in
      let r = number_part-Pending i part (flat parts) m u h (omega (arith, l)) s.0 in
      number_parts-Pending (suc i) parts (number_part i part m) r.1 r.0 (omega (arith, l)) s.1

  settled : (e : ℕ × ℕ) → Pending [] e → Fits P k e
  unfolding has
  settled e (inl h) = h
  settled e (inr h) = absurd (cc)

-- If every node of a map is in one of the parts, the numbers of the parts fit.
pub number_parts-Fits :
    (P : ℕ → Type 0) (parts : List (List ℕ)) (m : GoMap ℕ)
    → Unique m
    → Every (λ e. (has e.0 (flat parts) ≡ true) × P e.0) m
    → Every P (flat parts)
    → Every (Fits P (length parts)) (number_parts 0 parts m) × Unique (number_parts 0 parts m)
number_parts-Fits P parts m u h p =
    let k = length parts in
    let r =
      number_parts-Pending P k 0 parts m u
        (Every-weaken (λ e. (has e.0 (flat parts) ≡ true) × P e.0) (Pending P k (flat parts))
          (λ e x. inr x) m h)
        (omega arith) p in
    (Every-weaken (Pending P k []) (Fits P k) (settled P k) (number_parts 0 parts m) r.0, r.1)

module _ (n : ℕ) where
  -- The node has an entry.
  abbrev pub Numbered : GoMap ℕ → Type 0
  Numbered m = (i : ℕ) × (get m n ≡ some i)

  put-Numbered : (m : GoMap ℕ) (k i : ℕ) → Numbered m → Numbered (put m k i)
  put-Numbered m k i (j, e) = elim (Bool-cases (k == n)) [
    | inl t ↦ (i, get-put m k i n ∙ rw t refl)
    | inr f ↦ (j, get-put m k i n ∙ rw f e)
  ]

  number_part-Numbered :
      (i : ℕ) (ns : List ℕ) (m : GoMap ℕ)
      → Numbered m ⊎ (has n ns ≡ true)
      → Numbered (number_part i ns m)
  unfolding number_part has
  number_part-Numbered i [] m (inl h) = h
  number_part-Numbered i [] m (inr h) = ground (arith, h)
  number_part-Numbered i (k ∷ ns) m (inl h) =
      number_part-Numbered i ns (put m k i) (inl (put-Numbered m k i h))
  number_part-Numbered i (k ∷ ns) m (inr h) = elim (Bool-cases (k == n)) [
    | inl t ↦ number_part-Numbered i ns (put m k i) (inl (i, get-put m k i n ∙ rw t refl))
    | inr f ↦ number_part-Numbered i ns (put m k i) (inr (ground (arith, h, f)))
  ]

  -- Numbering the parts leaves no node out that had a number or is in a part.
  pub number_parts-Numbered :
      (i : ℕ) (parts : List (List ℕ)) (m : GoMap ℕ)
      → Numbered m ⊎ (has n (flat parts) ≡ true)
      → Numbered (number_parts i parts m)
  unfolding number_parts flat has
  number_parts-Numbered i [] m (inl h) = h
  number_parts-Numbered i [] m (inr h) = ground (arith, h)
  number_parts-Numbered i (part ∷ parts) m (inl h) =
      number_parts-Numbered (suc i) parts (number_part i part m)
        (inl (number_part-Numbered i part m (inl h)))
  number_parts-Numbered i (part ∷ parts) m (inr h) = elim (Bool-cases (has n part)) [
    | inl t ↦
        number_parts-Numbered (suc i) parts (number_part i part m)
          (inl (number_part-Numbered i part m (inr t)))
    | inr f ↦
        number_parts-Numbered (suc i) parts (number_part i part m)
          (inr (ground (arith, h, f, has-append n part (flat parts))))
  ]
