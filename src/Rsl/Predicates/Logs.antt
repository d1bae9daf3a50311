-- ===== src/Rsl/Predicates/Logs.antt =====
-- InconsistentLogState against its meaning: two nodes have decided different commands at one index.
use mathlib.Core.Path.{subst}
use raft_rl_test.Base.{
  ℕ, zero, suc, ◌≡◌, ◌≤◌, ◌<◌, ◌↔◌, refl, ap, ◌∙◌, sym, true, false, List, [], ◌∷◌, Option, some,
  none, length, get_elem?, get_elem?-none, if-both, if-cases, Bool-cases, inl, inr, lt-or-le,
  lt-or-eq, arith, bytes_eq, bytes_eq_sound, bytes_eq_refl,
}
use raft_rl_test.Base.Assoc.{GoMap}
use raft_rl_test.Base.Every.{Every, Every-weaken}
use raft_rl_test.Types.Partition.State.{Partition}
use raft_rl_test.Types.Partition.Actions.{has_hash, distinct}
use raft_rl_test.Types.Partition.Offered.{Every-distinct}
use raft_rl_test.Rsl.Data.{Command, Message}
use raft_rl_test.Rsl.Env.{LocalState}
use raft_rl_test.Rsl.Predicates.{
  hashes_at, with_hash, differ_below, max_log_length, inconsistent_log_state,
}

-- All the hashes are one.
abbrev AllSame : List (List ℕ) → Type 0
AllSame hs = (h k : List ℕ) → has_hash h hs ≡ true → has_hash k hs ≡ true → h ≡ k

has_hash-distinct :
    (h : List ℕ) (hs : List (List ℕ)) → has_hash h hs ≡ true → has_hash h (distinct hs) ≡ true
unfolding distinct
has_hash-distinct h [] e = e
has_hash-distinct h (g ∷ hs) e = elim (Bool-cases (bytes_eq h g)) [
  | inl t ↦
      if-cases (λ l. has_hash h l ≡ true) (has_hash g (distinct hs))
        (λ d. subst (λ x. has_hash x (distinct hs) ≡ true) (sym (bytes_eq_sound h g t)) d)
        (λ d. rw t refl)
  | inr f ↦
      let rest : has_hash h hs ≡ true = ground (arith, e, f) in
      if-both (λ l. has_hash h l ≡ true) (has_hash g (distinct hs)) (has_hash-distinct h hs rest)
        (ground (arith, has_hash-distinct h hs rest))
]

few-AllSame : (hs : List (List ℕ)) → length (distinct hs) ≤ 1 → AllSame hs
few-AllSame hs l h k e f = go (distinct hs) l (has_hash-distinct h hs e) (has_hash-distinct k hs f)
  where
    go : (ds : List (List ℕ)) → length ds ≤ 1 → has_hash h ds ≡ true → has_hash k ds ≡ true → h ≡ k
    go [] l e f = absurd (cc)
    go (d ∷ []) l e f =
        bytes_eq_sound h d (ground (arith, e)) ∙ sym (bytes_eq_sound k d (ground (arith, f)))
    go (d ∷ c ∷ ds) l e f = absurd (omega (arith, l))

AllSame-few : (hs : List (List ℕ)) → AllSame hs → length (distinct hs) ≤ 1
unfolding distinct
AllSame-few [] a = omega arith
AllSame-few (h ∷ hs) a =
    let tail : AllSame hs = λ j k e f. a j k (ground (arith, e)) (ground (arith, f)) in
    if-cases {A = List (List ℕ)} (λ l. length l ≤ 1) (has_hash h (distinct hs))
      (λ t. AllSame-few hs tail) (λ f. go (distinct hs) f (Every-distinct hs))
  where
    go :
        (ds : List (List ℕ))
        → has_hash h ds ≡ false
        → Every (λ d. has_hash d hs ≡ true) ds
        → length (h ∷ ds) ≤ 1
    go [] f e = omega arith
    go (d ∷ ds) f e =
        let same : h ≡ d = a h d (ground (arith, bytes_eq_refl h)) (ground (arith, e.0)) in
        let equal : bytes_eq h d ≡ true = subst (λ x. bytes_eq h x ≡ true) same (bytes_eq_refl h) in
        absurd (ground (arith, f, equal))

module _ (hash : Command → List ℕ) where
  -- The commands that two nodes have decided at an index, if both have, have one hash.
  abbrev pub SameAt : ℕ → LocalState → LocalState → Type 0
  SameAt j a b =
      (x y : Command)
      → get_elem? a.log.decided j ≡ some x
      → get_elem? b.log.decided j ≡ some y
      → hash x ≡ hash y

  -- That of any two nodes, at all indexes.
  abbrev pub Consistent : GoMap LocalState → Type 0
  Consistent m = (j : ℕ) → Every (λ e. Every (λ f. SameAt j e.1 f.1) m) m

  Every-hashes_at :
      (j : ℕ) (m : GoMap LocalState)
      → Every
          (λ e.
            (x : Command)
            → get_elem? e.1.log.decided j ≡ some x
            → has_hash (hash x) (hashes_at hash j m) ≡ true)
          m
  unfolding hashes_at
  Every-hashes_at j [] = tt
  Every-hashes_at j (e ∷ m) = (
    λ x g.
        subst (λ o. has_hash (hash x) (with_hash hash o (hashes_at hash j m)) ≡ true) (sym g)
          (ground (arith, bytes_eq_refl (hash x))),
    Every-weaken
        (λ f.
          (x : Command)
          → get_elem? f.1.log.decided j ≡ some x
          → has_hash (hash x) (hashes_at hash j m) ≡ true)
        (λ f.
          (x : Command)
          → get_elem? f.1.log.decided j ≡ some x
          → has_hash (hash x) (hashes_at hash j (e ∷ m)) ≡ true)
        (λ f k x g.
          has_hash-with (hash x) (get_elem? e.1.log.decided j) (hashes_at hash j m) (k x g))
        m (Every-hashes_at j m),
  )
    where
      has_hash-with :
          (h : List ℕ) (o : Option Command) (hs : List (List ℕ))
          → has_hash h hs ≡ true
          → has_hash h (with_hash hash o hs) ≡ true
      has_hash-with h none hs k = k
      has_hash-with h (some c) hs k = ground (arith, k)

  -- A hash at an index is that of a node that has `Q` if all have.
  hash-decided :
      (Q : ℕ × LocalState → Type 0) (j : ℕ) (h : List ℕ) (m : GoMap LocalState)
      → Every Q m
      → has_hash h (hashes_at hash j m) ≡ true
      → (e : ℕ × LocalState) × (x : Command) × (get_elem? e.1.log.decided j ≡ some x)
        × (hash x ≡ h)
        × Q e
  unfolding hashes_at
  hash-decided Q j h [] q k = absurd (cc)
  hash-decided Q j h (e ∷ m) q k =
      go (hash-decided Q j h m q.1) (get_elem? e.1.log.decided j) refl k
    where
      go :
          (has_hash h (hashes_at hash j m) ≡ true
            → (f : ℕ × LocalState) × (x : Command) × (get_elem? f.1.log.decided j ≡ some x)
              × (hash x ≡ h)
              × Q f)
          → (o : Option Command) → get_elem? e.1.log.decided j ≡ o
          → has_hash h (with_hash hash o (hashes_at hash j m)) ≡ true
          → (f : ℕ × LocalState) × (x : Command) × (get_elem? f.1.log.decided j ≡ some x)
            × (hash x ≡ h)
            × Q f
      go later none g k' = later k'
      go later (some c) g k' = elim (Bool-cases (bytes_eq h (hash c))) [
        | inl t ↦ (e, c, g, sym (bytes_eq_sound h (hash c) t), q.0)
        | inr f ↦ later (ground (arith, k', f))
      ]

  AllSame-SameAt :
      (j : ℕ) (m : GoMap LocalState)
      → AllSame (hashes_at hash j m)
      → Every (λ e. Every (λ f. SameAt j e.1 f.1) m) m
  AllSame-SameAt j m a =
      let In = λ (e : ℕ × LocalState).
        (x : Command)
        → get_elem? e.1.log.decided j ≡ some x
        → has_hash (hash x) (hashes_at hash j m) ≡ true in
      let all : Every In m = Every-hashes_at j m in
      Every-weaken In (λ e. Every (λ f. SameAt j e.1 f.1) m)
        (λ e k.
          Every-weaken In (λ f. SameAt j e.1 f.1)
            (λ f l x y g h. a (hash x) (hash y) (k x g) (l y h)) m all)
        m all

  SameAt-AllSame :
      (j : ℕ) (m : GoMap LocalState)
      → Every (λ e. Every (λ f. SameAt j e.1 f.1) m) m
      → AllSame (hashes_at hash j m)
  SameAt-AllSame j m s h k p q =
      let (e, x, g, u, all) = hash-decided (λ e. Every (λ f. SameAt j e.1 f.1) m) j h m s p in
      let (f, y, i, v, same) = hash-decided (λ f. SameAt j e.1 f.1) j k m all q in
      sym u ∙ same x y g i ∙ v

  hashes_at-past : (j : ℕ) (m : GoMap LocalState) → max_log_length m ≤ j → hashes_at hash j m ≡ []
  unfolding hashes_at
  hashes_at-past j [] h = refl
  hashes_at-past j (e ∷ m) h =
      let long : length e.1.log.decided ≤ j = ground (arith, h) in
      let later : max_log_length m ≤ j = ground (arith, h) in
      ap (λ o. with_hash hash o (hashes_at hash j m)) (get_elem?-none e.1.log.decided j long)
      ∙ hashes_at-past j m later

  differ_below-false :
      (n : ℕ) (m : GoMap LocalState)
      → differ_below hash n m ≡ false
      → (j : ℕ) → j < n
      → AllSame (hashes_at hash j m)
  unfolding differ_below
  differ_below-false zero m e j h = absurd (omega (arith, h))
  differ_below-false (suc n) m e j h = elim (lt-or-eq j n (omega (arith, h))) [
    | inl l ↦ differ_below-false n m (ground (arith, e)) j l
    | inr same ↦
        let few : length (distinct (hashes_at hash n m)) ≤ 1 = ground (arith, e) in
        subst (λ i. AllSame (hashes_at hash i m)) (sym same) (few-AllSame (hashes_at hash n m) few)
  ]

  AllSame-differ_below :
      (n : ℕ) (m : GoMap LocalState)
      → ((j : ℕ) → AllSame (hashes_at hash j m))
      → differ_below hash n m ≡ false
  unfolding differ_below
  AllSame-differ_below zero m a = refl
  AllSame-differ_below (suc n) m a =
      ground (arith, AllSame-differ_below n m a, AllSame-few (hashes_at hash n m) (a n))

  -- InconsistentLogState is false exactly if any two nodes that have both decided a command at an
  -- index have decided commands of one hash there.
  pub inconsistent_log_state-Consistent :
      (s : Partition LocalState Message)
      → (inconsistent_log_state hash s ≡ false) ↔ Consistent s.replica_states
  unfolding inconsistent_log_state
  inconsistent_log_state-Consistent s =
      let m = s.replica_states in
      (
        λ e j. AllSame-SameAt j m (elim (lt-or-le j (max_log_length m)) [
          | inl l ↦ differ_below-false (max_log_length m) m e j l
          | inr g ↦ subst AllSame (sym (hashes_at-past j m g)) (λ h k p q. absurd (cc))
        ]),
        λ c. AllSame-differ_below (max_log_length m) m (λ j. SameAt-AllSame j m (c j)),
      )
