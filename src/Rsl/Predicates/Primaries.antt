-- ===== src/Rsl/Predicates/Primaries.antt =====
-- MultiplePrimaries against its meaning: two nodes are primaries of one ballot.
use raft_rl_test.Base.{
  ℕ, suc, ◌≡◌, ◌↔◌, refl, Bool, true, false, List, [], ◌∷◌, none, Bool-cases, inl, inr, ◌==◌, arith,
}
use raft_rl_test.Base.Assoc.{GoMap, has}
use raft_rl_test.Base.Every.{Every, Every-weaken, Every-with}
use raft_rl_test.Types.Partition.State.{Partition}
use raft_rl_test.Types.Trace.{Trace}
use raft_rl_test.Rsl.Data.{is_stable_primary, Message}
use raft_rl_test.Rsl.Env.{LocalState}
use raft_rl_test.Rsl.Predicates.{accepted_ballot, second_primary, first_state, multiple_primaries}

-- A primary of a ballot that is not in the list.
abbrev IsNew : List ℕ → ℕ × LocalState → Type 0
IsNew seen e = is_stable_primary e.1.state ≡ true → has (accepted_ballot e.1) seen ≡ false

-- Two nodes are not primaries of one ballot.
abbrev pub Apart : LocalState → LocalState → Type 0
Apart a b =
    is_stable_primary a.state ≡ true
    → is_stable_primary b.state ≡ true
    → (accepted_ballot a == accepted_ballot b) ≡ false

-- No two nodes are primaries of one ballot.
abbrev pub OnePrimary : GoMap LocalState → Type 0
OnePrimary [] = Unit
OnePrimary (e ∷ m) = Every (λ f. Apart e.1 f.1) m × OnePrimary m

second_primary-false :
    (m : GoMap LocalState) (seen : List ℕ)
    → second_primary seen m ≡ false
    → Every (IsNew seen) m × OnePrimary m
unfolding second_primary has
second_primary-false [] seen h = (tt, tt)
second_primary-false (e ∷ m) seen h = elim (Bool-cases (is_stable_primary e.1.state)) [
  | inl t ↦
      let b = accepted_ballot e.1 in
      let new : has b seen ≡ false = ground (arith, h, t) in
      let later : second_primary (b ∷ seen) m ≡ false = ground (arith, h, t, new) in
      let r = second_primary-false m (b ∷ seen) later in
      (
        (
          (λ p. new),
          Every-weaken (IsNew (b ∷ seen)) (IsNew seen) (λ f k p. ground (arith, k p)) m r.0,
        ),
        (
          Every-weaken (IsNew (b ∷ seen)) (λ f. Apart e.1 f.1) (λ f k p q. ground (arith, k q)) m
              r.0,
          r.1,
        ),
      )
  | inr f ↦
      let later : second_primary seen m ≡ false = ground (arith, h, f) in
      let r = second_primary-false m seen later in
      (
        ((λ p. absurd (cc)), r.0),
        (Every-weaken (IsNew seen) (λ g. Apart e.1 g.1) (λ g k p q. absurd (cc)) m r.0, r.1),
      )
]

OnePrimary-second_primary :
    (m : GoMap LocalState) (seen : List ℕ)
    → Every (IsNew seen) m
    → OnePrimary m
    → second_primary seen m ≡ false
unfolding second_primary has
OnePrimary-second_primary [] seen n o = refl
OnePrimary-second_primary (e ∷ m) seen n o = elim (Bool-cases (is_stable_primary e.1.state)) [
  | inl t ↦
      let b = accepted_ballot e.1 in
      let new : has b seen ≡ false = n.0 t in
      let news : Every (IsNew (b ∷ seen)) m =
        Every-with (IsNew seen) (λ f. Apart e.1 f.1) (IsNew seen) (IsNew (b ∷ seen)) m
          (λ f k a l p. ground (arith, k p, a t p)) n.1 o.0 n.1 in
      ground (arith, t, new, OnePrimary-second_primary m (b ∷ seen) news o.1)
  | inr f ↦ ground (arith, f, OnePrimary-second_primary m seen n.1 o.1)
]

Every-IsNew : (m : GoMap LocalState) → Every (IsNew []) m
unfolding has
Every-IsNew [] = tt
Every-IsNew (e ∷ m) = ((λ p. refl), Every-IsNew m)

module _ {S : Type 0} (test : S → Bool) where
  first_state-none :
      (i : ℕ) (ss : List S) → first_state test i ss ≡ none → Every (λ s. test s ≡ false) ss
  unfolding first_state
  first_state-none i [] h = tt
  first_state-none i (s ∷ ss) h = elim (Bool-cases (test s)) [
    | inl t ↦ absurd (ground (arith, h, t))
    | inr f ↦ (f, first_state-none (suc i) ss (ground (arith, h, f)))
  ]

  none-first_state :
      (i : ℕ) (ss : List S) → Every (λ s. test s ≡ false) ss → first_state test i ss ≡ none
  unfolding first_state
  none-first_state i [] h = refl
  none-first_state i (s ∷ ss) h = ground (arith, h.0, none-first_state (suc i) ss h.1)

-- MultiplePrimaries finds nothing in a trace exactly if in none of its states two nodes are primaries
-- of one ballot.
pub multiple_primaries-OnePrimary :
    {Act : Type 0} (t : Trace (Partition LocalState Message) Act)
    → (multiple_primaries t ≡ none) ↔ Every (λ s. OnePrimary s.replica_states) t.states
unfolding multiple_primaries
multiple_primaries-OnePrimary t =
    let test = λ (s : Partition LocalState Message). second_primary [] s.replica_states in
    (
      λ h.
          Every-weaken (λ s. test s ≡ false) (λ s. OnePrimary s.replica_states)
            (λ s k. (second_primary-false s.replica_states [] k).1) t.states
            (first_state-none test 0 t.states h),
      λ o. none-first_state test 0 t.states (
          Every-weaken (λ s. OnePrimary s.replica_states) (λ s. test s ≡ false)
            (λ s k. OnePrimary-second_primary s.replica_states [] (Every-IsNew s.replica_states) k)
            t.states o),
    )
