-- ===== src/Types/Trace/Steps.antt =====
-- A trace is the list of its transitions: each operation on the four slices does to that list what
-- its name says.
use mathlib.Core.List.{append-nil, append_assoc}
use raft_rl_test.Base.{
  ℕ, zero, suc, ◌+◌, ◌-◌, ◌≡◌, ◌≤◌, ◌<◌, refl, sym, ap, ◌∙◌, List, [], ◌∷◌, ◌++◌, Option, some,
  none, arith, if◌then◌else◌, leb, ltb, length, get_elem?, take, drop, map, if-cases,
  get_elem?-none, take-drop-some, lt-or-le, inl, inr, length-map, take-map, map-snoc,
}
use raft_rl_test.Types.Trace.{
  Trace, Transition, Reading, read, past_end, append_with_reward, get_with_reward, get_prefix,
  values_at, slice, slice_from,
}

module _ {State Action : Type 0} where
  -- The trace of a list of transitions.
  abbrev pub trace_of : List (Transition State Action) → Trace State Action
  trace_of ss = record {
    states = map (λ s. s.state) ss;
    actions = map (λ s. s.action) ss;
    next_states = map (λ s. s.next_state) ss;
    rewards = map (λ s. s.reward) ss;
  }

  -- Appending to the trace of some transitions gives the trace of these and the new one.
  pub append-trace_of :
      (ss : List (Transition State Action)) (s : Transition State Action)
      → append_with_reward (trace_of ss) s ≡ trace_of (ss ++ s ∷ [])
  unfolding append_with_reward
  append-trace_of ss s = λ i. record {
    states = map-snoc (λ x. x.state) ss s i;
    actions = map-snoc (λ x. x.action) ss s i;
    next_states = map-snoc (λ x. x.next_state) ss s i;
    rewards = map-snoc (λ x. x.reward) ss s i;
  }

  -- What reading an index should give, from the element of a list there.
  abbrev pub reading_of : Option (Transition State Action) → Reading State Action
  reading_of none = past_end
  reading_of (some s) = read s

  values_at-trace_of :
      (ss : List (Transition State Action)) (i : ℕ) (s : Transition State Action)
      → get_elem? ss i ≡ some s
      → values_at (trace_of ss) i ≡ read s
  values_at-trace_of [] i s h = ground (arith, h)
  values_at-trace_of (x ∷ ss) zero s h = ap reading_of h
  values_at-trace_of (x ∷ ss) (suc i) s h = values_at-trace_of ss i s h

  element_at :
      (ss : List (Transition State Action)) (i : ℕ)
      → i < length ss
      → (s : Transition State Action) × (get_elem? ss i ≡ some s)
  element_at [] i h = absurd (omega (arith, h))
  element_at (x ∷ ss) zero h = (x, refl)
  element_at (x ∷ ss) (suc i) h = element_at ss i (omega (arith, h))

  -- Reading an index of the trace of some transitions gives the transition there, or the result
  -- that there is none past the last one; it never fails.
  pub get-trace_of :
      (ss : List (Transition State Action)) (i : ℕ)
      → get_with_reward (trace_of ss) i ≡ reading_of (get_elem? ss i)
  unfolding get_with_reward
  get-trace_of ss i =
      if-cases (λ o. o ≡ reading_of (get_elem? ss i)) (leb (length (map (λ s. s.state) ss)) i)
        (λ e.
          let none_there = get_elem?-none ss i (ground (arith, e, length-map (λ s. s.state) ss)) in
          ap reading_of (sym none_there))
        (λ e.
          let (s, there) = element_at ss i (ground (arith, e, length-map (λ s. s.state) ss)) in
          values_at-trace_of ss i s there ∙ ap reading_of (sym there))

  -- A prefix of the trace of some transitions is the trace of the first ones, and there is none
  -- longer than the trace.
  pub prefix-trace_of :
      (ss : List (Transition State Action)) (i : ℕ)
      → get_prefix (trace_of ss) i
        ≡ (if ltb (length ss) i then none else some (trace_of (take i ss)))
  unfolding get_prefix
  prefix-trace_of ss i =
      rw
        (
          length-map (λ s. s.state) ss,
          take-map (λ s. s.state) i ss,
          take-map (λ s. s.action) i ss,
          take-map (λ s. s.next_state) i ss,
          take-map (λ s. s.reward) i ss,
        )
        refl

  -- The loop of Slice collects the transitions that it passes.
  slice_from-trace_of :
      (ss acc : List (Transition State Action)) (i n : ℕ)
      → i + n ≤ length ss
      → slice_from (trace_of ss) (some (trace_of acc)) i n
        ≡ some (trace_of (acc ++ take n (drop i ss)))
  unfolding slice_from
  slice_from-trace_of ss acc i zero h = ap (λ l. some (trace_of l)) (sym (append-nil acc))
  slice_from-trace_of ss acc i (suc n) h =
      let (s, there) = element_at ss i (omega (arith, h)) in
      rw (values_at-trace_of ss i s there, append-trace_of acc s)
        (slice_from-trace_of ss (acc ++ s ∷ []) (suc i) n (omega (arith, h)))
      ∙ ap (λ l. some (trace_of l))
          (append_assoc acc (s ∷ []) (take n (drop (suc i) ss))
            ∙ ap (λ l. acc ++ l) (sym (take-drop-some ss i n s there)))

  -- A slice of the trace of some transitions, up to an index within the trace, is the trace of those
  -- from the first index on; it does not fail.
  pub slice-trace_of :
      (ss : List (Transition State Action)) (from to : ℕ)
      → to ≤ length ss
      → slice (trace_of ss) from to ≡ some (trace_of (take (to - from) (drop from ss)))
  unfolding slice
  slice-trace_of ss from to h = elim (lt-or-le to from) [
    | inl empty ↦ let nothing : to - from ≡ 0 = omega (arith, empty) in rw nothing refl
    | inr some_left ↦ slice_from-trace_of ss [] from (to - from) (omega (arith, h, some_left))
  ]
