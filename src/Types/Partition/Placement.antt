-- ===== src/Types/Partition/Placement.antt =====
-- The parts that the handlers compute exist, where every node has a colour and a part of its own.
use raft_rl_test.Base.{
  ℕ, zero, suc, ◌+◌, ◌≡◌, ◌<◌, refl, ap, ◌∙◌, Bool, ◌||◌, List, [], ◌∷◌, ◌++◌, Option, some, length,
  if-both, ◌==◌, map, arith, length-map,
}
use raft_rl_test.Base.Assoc.{GoMap, get, has}
use raft_rl_test.Base.Every.{Every, Every-append}
use raft_rl_test.Types.Partition.Color.{
  Color, move_left, sort_onto, reverse_onto, sort, color_less, part_less,
}
use raft_rl_test.Types.Partition.Parts.{
  cons_opt, place, place_all, paint, paint_parts, sorted_parts,
}

-- All the nodes of some parts.
unfoldable pub flat : List (List ℕ) → List ℕ
flat [] = []
flat (p ∷ ps) = p ++ flat ps

-- The keys of a map.
unfoldable pub keys : {V : Type 0} → GoMap V → List ℕ
keys [] = []
keys (e ∷ m) = e.0 ∷ keys m

pub has-append : (k : ℕ) (xs ys : List ℕ) → has k (xs ++ ys) ≡ (has k xs || has k ys)
unfolding has
has-append k [] ys = refl
has-append k (x ∷ xs) ys = ground (arith, has-append k xs ys)

module _ {A : Type 0} (less : A → A → Bool) where
  length-move_left : (x : A) (done : List A) → length (move_left less x done) ≡ suc (length done)
  unfolding move_left
  length-move_left x [] = refl
  length-move_left x (y ∷ done) =
      if-both {A = List A} (λ l. length l ≡ suc (suc (length done))) (less x y)
        (ap suc (length-move_left x done)) refl

  length-sort_onto : (done xs : List A) → length (sort_onto less done xs) ≡ length done + length xs
  unfolding sort_onto
  length-sort_onto done [] = omega arith
  length-sort_onto done (x ∷ xs) =
      omega (arith, length-sort_onto (move_left less x done) xs, length-move_left x done)

length-reverse_onto :
    {A : Type 0} (xs done : List A) → length (reverse_onto xs done) ≡ length xs + length done
unfolding reverse_onto
length-reverse_onto [] done = omega arith
length-reverse_onto (x ∷ xs) done = omega (arith, length-reverse_onto xs (x ∷ done))

pub length-sorted_parts : (ps : List (List Color)) → length (sorted_parts ps) ≡ length ps
unfolding sort
length-sorted_parts ps =
    let qs = map (sort color_less) ps in
    omega (
      arith,
      length-reverse_onto (sort_onto part_less [] qs) [],
      length-sort_onto part_less [] qs,
      length-map (sort color_less) ps,
    )

module _ (P : ℕ → Type 0) where
  -- The parts after a node is placed.
  abbrev pub Placed : ℕ → List (List ℕ) → (ℕ → Bool) → Option (List (List ℕ)) → Type 0
  Placed k parts new o =
      (qs : List (List ℕ)) × (o ≡ some qs)
      × (length qs ≡ k)
      × Every P (flat qs)
      × ((x : ℕ) → has x (flat qs) ≡ (has x (flat parts) || new x))

  pub Every-split : (xs ys : List ℕ) → Every P (xs ++ ys) → Every P xs × Every P ys
  Every-split [] ys h = (tt, h)
  Every-split (x ∷ xs) ys h = let r = Every-split xs ys h.1 in ((h.0, r.0), r.1)

  pub place-Placed :
      (parts : List (List ℕ)) (i n : ℕ)
      → i < length parts
      → Every P (flat parts)
      → P n
      → Placed (length parts) parts (λ x. n == x) (place parts i n)
  unfolding place flat has
  place-Placed [] i n h e p = absurd (omega (arith, h))
  place-Placed (part ∷ parts) zero n h e p =
      let s = Every-split part (flat parts) e in
      (
        (part ++ n ∷ []) ∷ parts,
        refl,
        refl,
        Every-append P (part ++ n ∷ []) (flat parts) (Every-append P part (n ∷ []) s.0 (p, tt)) s.1,
        λ x. ground (
          arith,
          has-append x (part ++ n ∷ []) (flat parts),
          has-append x part (n ∷ []),
          has-append x part (flat parts),
        ),
      )
  place-Placed (part ∷ parts) (suc i) n h e p =
      let s = Every-split part (flat parts) e in
      let (qs, f, l, k, m) = place-Placed parts i n (omega (arith, h)) s.1 p in
      (
        part ∷ qs,
        ap (cons_opt (some part)) f,
        ap suc l,
        Every-append P part (flat qs) s.0 k,
        λ x. ground (arith, has-append x part (flat qs), has-append x part (flat parts), m x),
      )

  -- The entries of a map name a part among `k` and a node with `P`.
  abbrev pub Fits : ℕ → ℕ × ℕ → Type 0
  Fits k e = (e.1 < k) × P e.0

  pub place_all-Placed :
      (m : GoMap ℕ) (parts : List (List ℕ))
      → Every (Fits (length parts)) m
      → Every P (flat parts)
      → Placed (length parts) parts (λ x. has x (keys m)) (place_all (some parts) m)
  unfolding place_all has keys
  place_all-Placed [] parts h e = (parts, refl, refl, e, λ x. ground arith)
  place_all-Placed (e ∷ m) parts h k =
      let (qs, f, l, p, n) = place-Placed parts e.1 e.0 h.0.0 k h.0.1 in
      let fit : Every (Fits (length qs)) m = rw l h.1 in
      let (rs, g, l', p', n') = place_all-Placed m qs fit p in
      (rs, ap (λ o. place_all o m) f ∙ g, l' ∙ l, p', λ x. ground (arith, n x, n' x))

module _ (colors : GoMap Color) where
  -- A node that has a colour.
  abbrev pub Colored : ℕ → Type 0
  Colored n = (c : Color) × (get colors n ≡ some c)

  paint-some : (ns : List ℕ) → Every Colored ns → (cs : List Color) × (paint colors ns ≡ some cs)
  unfolding paint
  paint-some [] h = ([], refl)
  paint-some (n ∷ ns) h = let (cs, e) = paint-some ns h.1 in (h.0.0 ∷ cs, rw (h.0.1, e) refl)

  pub paint_parts-some :
      (parts : List (List ℕ))
      → Every Colored (flat parts)
      → (ps : List (List Color)) × (paint_parts colors parts ≡ some ps) × (length ps ≡ length parts)
  unfolding paint_parts flat
  paint_parts-some [] h = ([], refl, refl)
  paint_parts-some (p ∷ parts) h =
      let s = Every-split Colored p (flat parts) h in
      let (cs, e) = paint-some p s.0 in
      let (ps, f, l) = paint_parts-some parts s.1 in (cs ∷ ps, rw (e, f) refl, ap suc l)
