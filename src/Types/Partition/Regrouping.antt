-- ===== src/Types/Partition/Regrouping.antt =====
-- The parts after a node stops or starts hold every node that had a part.
use raft_rl_test.Base.{
  ℕ, ◌≡◌, refl, ap, ◌∙◌, Bool, true, false, not, ◌&&◌, ◌||◌, List, [], ◌∷◌, ◌++◌, Option, some,
  none, length, select, map, if-both, arith, length-map,
}
use raft_rl_test.Base.Assoc.{GoMap, has}
use raft_rl_test.Base.Every.{Every-with, Every, Every-append, Every-weaken}
use raft_rl_test.Types.Partition.Color.{Color}
use raft_rl_test.Types.Partition.State.{Partition, System}
use raft_rl_test.Types.Partition.Parts.{empty_parts}
use raft_rl_test.Types.Partition.Handlers.{is_nonempty}
use raft_rl_test.Types.Partition.Step.{regroup}
use raft_rl_test.Types.Partition.Placement.{
  flat, keys, Fits, has-append, Every-split, place_all-Placed,
}

module _ {A : Type 0} (P : A → Type 0) (test : A → Bool) where
  Every-select : (xs : List A) → Every P xs → Every P (select test xs)
  Every-select [] h = tt
  Every-select (x ∷ xs) h =
      if-both (Every P) (test x) (h.0, Every-select xs h.1) (Every-select xs h.1)

-- The nodes of the entries that pass a test.
select-has :
    {V : Type 0} (test : ℕ × V → Bool) (m : GoMap V)
    → Every (λ e. test e ≡ true → has e.0 (keys (select test m)) ≡ true) m
unfolding has keys
select-has test [] = tt
select-has {V} test (e ∷ m) = (
  λ t. rw t (ground arith),
  Every-weaken (λ x. test x ≡ true → has x.0 (keys (select test m)) ≡ true)
      (λ x. test x ≡ true → has x.0 (keys (select test (e ∷ m))) ≡ true)
      (λ x k t.
        if-both {A = GoMap V} (λ l. has x.0 (keys l) ≡ true) (test e) (ground (arith, k t)) (k t))
      m (select-has test m),
)

keys-map : {V : Type 0} (m : GoMap V) → map (λ e. e.0) m ≡ keys m
unfolding keys
keys-map [] = refl
keys-map (e ∷ m) = ap (λ l. e.0 ∷ l) (keys-map m)

flat-nonempty : (parts : List (List ℕ)) → flat (select is_nonempty parts) ≡ flat parts
unfolding flat
flat-nonempty [] = refl
flat-nonempty ([] ∷ parts) = flat-nonempty parts
flat-nonempty ((n ∷ ns) ∷ parts) = ap (λ l. n ∷ (ns ++ l)) (flat-nonempty parts)

Every-keys : {V : Type 0} (P : ℕ → Type 0) (m : GoMap V) → Every (λ e. P e.0) m → Every P (keys m)
unfolding keys
Every-keys P [] h = tt
Every-keys P (e ∷ m) h = (h.0, Every-keys P m h.1)

pub Every-flat-empty :
    {A : Type 0} (P : ℕ → Type 0) (xs : List (List A)) → Every P (flat (empty_parts xs))
unfolding flat
Every-flat-empty P [] = tt
Every-flat-empty P (x ∷ xs) = Every-flat-empty P xs

flat-append :
    (xs : List (List ℕ)) (ys zs : List ℕ) (P : ℕ → Type 0)
    → Every P (flat xs)
    → Every P ys
    → Every P zs
    → Every P (flat (xs ++ ys ∷ zs ∷ []))
unfolding flat
flat-append [] ys zs P h k l = Every-append P ys (zs ++ []) k (Every-append P zs [] l tt)
flat-append (x ∷ xs) ys zs P h k l =
    let s = Every-split P x (flat xs) h in
    Every-append P x (flat (xs ++ ys ∷ zs ∷ [])) s.0 (flat-append xs ys zs P s.1 k l)

has-flat :
    (x : ℕ) (xs : List (List ℕ)) (ys zs : List ℕ)
    → has x (flat (xs ++ ys ∷ zs ∷ [])) ≡ (has x (flat xs) || (has x ys || has x zs))
unfolding flat has
has-flat x [] ys zs = ground (arith, has-append x ys (zs ++ []), has-append x zs [])
has-flat x (y ∷ xs) ys zs = ground (
  arith,
  has-append x y (flat (xs ++ ys ∷ zs ∷ [])),
  has-append x y (flat xs),
  has-flat x xs ys zs,
)

-- One of the three lists that a node is sorted into takes it.
three_ways :
    (new active : Bool) (a b c : Bool)
    → ((new && active) ≡ true → a ≡ true)
    → ((new && not active) ≡ true → b ≡ true)
    → (not new ≡ true → c ≡ true)
    → (a || (b || c)) ≡ true
three_ways true true a b c f g h = rw (f refl) refl
three_ways true false a b c f g h = ground (arith, g refl)
three_ways false active a b c f g h = ground (arith, h refl)

module _ {Env Replica Message Request : Type 0} (sys : System Env Replica Message Request)
    (painter : Replica → Color) where
  -- The parts exist, their nodes have `P`, and every node of the old map is in one of them.
  pub regroup-some :
      (P : ℕ → Type 0) (p : Partition Replica Request) (new : List ℕ)
      → Every (Fits P (length p.partition)) p.partition_map
      → (parts : List (List ℕ)) × (regroup sys painter p new ≡ some parts)
        × Every P (flat parts)
        × Every (λ e. has e.0 (flat parts) ≡ true) p.partition_map
  regroup-some P p new h =
      let m = p.partition_map in
      let stays = λ (e : ℕ × ℕ). has e.0 new && has e.0 p.active_nodes in
      let starts = λ (e : ℕ × ℕ). has e.0 new && not (has e.0 p.active_nodes) in
      let other = λ (e : ℕ × ℕ). not (has e.0 new) in
      let empty = empty_parts p.partition in
      let same : length empty ≡ length p.partition = length-map (λ part. []) p.partition in
      let fits : Every (Fits P (length empty)) (select stays m) =
        rw same (Every-select (Fits P (length p.partition)) stays m h) in
      let (qs, f, l, k, n) =
        place_all-Placed P (select stays m) empty fits (Every-flat-empty P p.partition) in
      let started = map (λ (e : ℕ × ℕ). e.0) (select starts m) in
      let others = map (λ (e : ℕ × ℕ). e.0) (select other m) in
      let has_p : (t : ℕ × ℕ → Bool) → Every P (map (λ (e : ℕ × ℕ). e.0) (select t m)) = λ t.
        rw (keys-map (select t m)) (
          Every-keys P (select t m) (
            Every-select (λ e. P e.0) t m
              (Every-weaken (Fits P (length p.partition)) (λ e. P e.0) (λ e x. x.1) m h))) in
      let all = qs ++ started ∷ others ∷ [] in
      (
        select is_nonempty all,
        ap
            (λ o. elim o as (λ o. Option (List (List ℕ))) [
              | none ↦ none
              | some parts ↦ some (select is_nonempty (parts ++ started ∷ others ∷ []))
            ])
            f,
        rw (flat-nonempty all) (flat-append qs started others P k (has_p starts) (has_p other)),
        rw (flat-nonempty all) (
            Every-with (λ e. stays e ≡ true → has e.0 (keys (select stays m)) ≡ true)
              (λ e. starts e ≡ true → has e.0 (keys (select starts m)) ≡ true)
              (λ e. other e ≡ true → has e.0 (keys (select other m)) ≡ true)
              (λ e. has e.0 (flat all) ≡ true) m
              (λ e a b c.
                has-flat e.0 qs started others
                ∙ three_ways (has e.0 new) (has e.0 p.active_nodes) (has e.0 (flat qs))
                    (has e.0 started) (has e.0 others) (λ t. ground (arith, n e.0, a t))
                    (λ t. rw (keys-map (select starts m)) (b t))
                    (λ t. rw (keys-map (select other m)) (c t)))
              (select-has stays m) (select-has starts m) (select-has other m)),
      )
