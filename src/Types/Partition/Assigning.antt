-- ===== src/Types/Partition/Assigning.antt =====
-- The nodes that a new partition is made of.
use raft_rl_test.Base.{
  ℕ, refl, List, [], ◌∷◌, Option, some, none, if-both, ◌==◌, arith, Bool-cases, inl, inr, bytes_eq,
}
use raft_rl_test.Base.Assoc.{GoMap, get}
use raft_rl_test.Base.Every.{Every, Every-weaken, Every-append}
use raft_rl_test.Types.Partition.Color.{Color, hash}
use raft_rl_test.Types.Partition.Parts.{assign_parts, assign_part, take_replica, cons_opt}
use raft_rl_test.Types.Partition.Placement.{flat, Colored}

-- The nodes that are given to the colours of an action are nodes of the map.
module _ (P : ℕ → Type 0) where
  abbrev Taken : Option (ℕ × GoMap Color) → Type 0
  Taken none = Unit
  Taken (some r) = P r.0 × Every (λ e. P e.0) r.1

  abbrev Assigned : Option (List ℕ × GoMap Color) → Type 0
  Assigned none = Unit
  Assigned (some r) = Every P r.0 × Every (λ e. P e.0) r.1

  abbrev pub AllAssigned : Option (List (List ℕ)) → Type 0
  AllAssigned none = Unit
  AllAssigned (some parts) = Every P (flat parts)

  take-again :
      (e : ℕ × Color) (o : Option (ℕ × GoMap Color))
      → P e.0
      → Taken o
      → Taken
          (elim o as (λ o. Option (ℕ × GoMap Color)) [ some r ↦ some (r.0, e ∷ r.1) | none ↦ none ])
  take-again e none p h = tt
  take-again e (some r) p h = (h.0, (p, h.1))

  take_replica-Taken :
      (h : List ℕ) (m : GoMap Color) → Every (λ e. P e.0) m → Taken (take_replica h m)
  unfolding take_replica
  take_replica-Taken h [] k = tt
  take_replica-Taken h (e ∷ m) k =
      if-both Taken (bytes_eq (hash e.1) h) k
        (take-again e (take_replica h m) k.0 (take_replica-Taken h m k.1))

  assign-one :
      (n : ℕ) (o : Option (List ℕ × GoMap Color))
      → P n
      → Assigned o
      → Assigned (elim o as (λ o. Option (List ℕ × GoMap Color)) [
        | none ↦ none
        | some rest ↦ some (n ∷ rest.0, rest.1)
      ])
  assign-one n none p h = tt
  assign-one n (some rest) p h = ((p, h.0), h.1)

  assign-next :
      (cs : List Color) (o : Option (ℕ × GoMap Color))
      → Taken o
      → ((m : GoMap Color) → Every (λ e. P e.0) m → Assigned (assign_part cs m))
      → Assigned (elim o as (λ o. Option (List ℕ × GoMap Color)) [
        | none ↦ none
        | some r ↦ elim (assign_part cs r.1) [
          | none ↦ none
          | some rest ↦ some (r.0 ∷ rest.0, rest.1)
        ]
      ])
  assign-next cs none h k = tt
  assign-next cs (some r) h k = assign-one r.0 (assign_part cs r.1) h.0 (k r.1 h.1)

  assign_part-Assigned :
      (cs : List Color) (m : GoMap Color) → Every (λ e. P e.0) m → Assigned (assign_part cs m)
  unfolding assign_part
  assign_part-Assigned [] m k = (tt, k)
  assign_part-Assigned (c ∷ cs) m k =
      assign-next cs (take_replica (hash c) m) (take_replica-Taken (hash c) m k)
        (λ r h. assign_part-Assigned cs r h)

  cons-AllAssigned :
      (ns : List ℕ) (o : Option (List (List ℕ)))
      → Every P ns
      → AllAssigned o
      → AllAssigned (cons_opt (some ns) o)
  unfolding flat
  cons-AllAssigned ns none h k = tt
  cons-AllAssigned ns (some parts) h k = Every-append P ns (flat parts) h k

  parts-next :
      (ps : List (List Color)) (o : Option (List ℕ × GoMap Color))
      → Assigned o
      → ((m : GoMap Color) → Every (λ e. P e.0) m → AllAssigned (assign_parts ps m))
      → AllAssigned (elim o as (λ o. Option (List (List ℕ))) [
        | none ↦ none
        | some r ↦ cons_opt (some r.0) (assign_parts ps r.1)
      ])
  parts-next ps none h k = tt
  parts-next ps (some r) h k = cons-AllAssigned r.0 (assign_parts ps r.1) h.0 (k r.1 h.1)

  pub assign_parts-AllAssigned :
      (ps : List (List Color)) (m : GoMap Color)
      → Every (λ e. P e.0) m
      → AllAssigned (assign_parts ps m)
  unfolding assign_parts flat
  assign_parts-AllAssigned [] m k = tt
  assign_parts-AllAssigned (p ∷ ps) m k =
      parts-next ps (assign_part p m) (assign_part-Assigned p m k)
        (λ r h. assign_parts-AllAssigned ps r h)

pub entries-Colored : (m : GoMap Color) → Every (λ e. Colored m e.0) m
unfolding get
entries-Colored [] = tt
entries-Colored (e ∷ m) = (
  (e.1, ground arith),
  Every-weaken (λ x. Colored m x.0) (λ x. Colored (e ∷ m) x.0)
      (λ x h. elim (Bool-cases (e.0 == x.0)) [ inl t ↦ (e.1, rw t refl) | inr f ↦ (h.0, rw f h.1) ])
      m (entries-Colored m),
)
