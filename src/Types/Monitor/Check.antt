-- ===== src/Types/Monitor/Check.antt =====
-- What a check says of the states that a monitor goes through.
use raft_rl_test.Base.{
  ℕ, zero, suc, ◌+◌, ◌==◌, ◌≡◌, ◌≤◌, ◌<◌, refl, sym, ap, ◌∙◌, Bool, true, false, ◌||◌, List, [],
  ◌∷◌, ◌++◌, map, length-map, Option, some, none, arith, length, take, get_elem?, take-more, inl,
  inr, if-cases, ltb, lt-or-eq,
}
use raft_rl_test.Base.Assoc.{GoMap, get}
use raft_rl_test.Types.Trace.{Trace, Transition, len}
use raft_rl_test.Types.Trace.Steps.{trace_of, reading_of, get-trace_of, prefix-trace_of}
use raft_rl_test.Types.Monitor.{
  MonitorCondition, MonitorState, Monitor, Outcome, accepted, rejected, crashed, advance, scan,
  check, check_from, init_state, enter, round,
}

module _ {State Action : Type 0}
    (order : GoMap (MonitorCondition State Action) → GoMap (MonitorCondition State Action))
    (m : Monitor State Action) where
  abbrev then_advance :
      Option (MonitorState State Action)
      → Transition State Action
      → Option (MonitorState State Action)
  then_advance none s = none
  then_advance (some q) s = advance order m q s

  -- The state of a monitor after some transitions, from a state on.
  abbrev pub state_after :
      Option (MonitorState State Action)
      → List (Transition State Action)
      → Option (MonitorState State Action)
  state_after q [] = q
  state_after q (s ∷ ss) = state_after (then_advance q s) ss

  state_after-snoc :
      (q : Option (MonitorState State Action)) (ss : List (Transition State Action))
      (s : Transition State Action)
      → state_after q (ss ++ s ∷ []) ≡ then_advance (state_after q ss) s
  state_after-snoc q [] s = refl
  state_after-snoc q (x ∷ ss) s = state_after-snoc (then_advance q x) ss s

  -- The state has the given value of `Success`.
  abbrev pub Succeeds : Bool → Option (MonitorState State Action) → Type 0
  Succeeds b none = true ≡ false
  Succeeds b (some q) = q.success ≡ b

  -- None of the states up to and with the one after `k` transitions is a success.
  abbrev pub NotYet :
      Option (MonitorState State Action) → List (Transition State Action) → ℕ → Type 0
  NotYet q ss k = (j : ℕ) → j ≤ k → Succeeds false (state_after q (take j ss))

  -- A trace is accepted at its transition `k`, the first that leads to a success; the prefix
  -- returned ends before that transition.
  pub record Accepts (q : Option (MonitorState State Action)) (ss : List (Transition State Action))
      (p : Trace State Action) : Type 0 where
    pub k : ℕ
    pub prefix : p ≡ trace_of (take k ss)
    pub not_yet : NotYet q ss k
    pub succeeds : Succeeds true (state_after q (take (suc k) ss))

  -- What the loop returns says this of a run from `q`, with no success up to here.
  abbrev Says :
      Option (MonitorState State Action)
      → List (Transition State Action)
      → ℕ
      → Outcome State Action
      → Type 0
  Says q ss n (accepted p) = Accepts q ss p
  Says q ss n rejected = NotYet q ss n
  Says q ss n crashed = Unit

  NotYet-next :
      (q : Option (MonitorState State Action)) (ss : List (Transition State Action))
      (here : MonitorState State Action) (i : ℕ)
      → NotYet q ss i
      → state_after q (take (suc i) ss) ≡ some here
      → here.success ≡ false
      → NotYet q ss (suc i)
  NotYet-next q ss here i v e f j l = elim (lt-or-eq j (suc i) l) [
    | inl h ↦ v j (omega arith)
    | inr h ↦ rw (h, e) f
  ]

  -- A round that enters a state says what the rest of the loop says, or accepts.
  enter-Says :
      (q : Option (MonitorState State Action)) (ss : List (Transition State Action)) (i n : ℕ)
      (go : MonitorState State Action → Outcome State Action)
      (o : Option (MonitorState State Action))
      → i ≤ length ss
      → NotYet q ss i
      → state_after q (take (suc i) ss) ≡ o
      → ((x : MonitorState State Action)
          → state_after q (take (suc i) ss) ≡ some x
          → NotYet q ss (suc i)
          → Says q ss n (go x))
      → Says q ss n (enter order m (trace_of ss) i go o)
  enter-Says q ss i n go none l v e h = tt
  enter-Says q ss i n go (some x) l v e h =
      if-cases (Says q ss n) x.success
        (λ t.
          rw (prefix-trace_of ss i, no_longer)
            (record { k = i; prefix = refl; not_yet = v; succeeds = rw e t }))
        (λ f. h x e (NotYet-next q ss x i v e f))
    where
      no_longer : ltb (length ss) i ≡ false
      no_longer = ground arith

  one_more :
      (q : Option (MonitorState State Action)) (ss : List (Transition State Action))
      (here : MonitorState State Action) (i : ℕ) (s : Transition State Action)
      → state_after q (take i ss) ≡ some here
      → get_elem? ss i ≡ some s
      → state_after q (take (suc i) ss) ≡ advance order m here s
  one_more q ss here i s e h =
      ap (state_after q) (sym (take-more ss i s h))
      ∙ state_after-snoc q (take i ss) s
      ∙ ap (λ o. then_advance o s) e

  round-Says :
      (q : Option (MonitorState State Action)) (ss : List (Transition State Action)) (i n : ℕ)
      (go : MonitorState State Action → Outcome State Action) (here : MonitorState State Action)
      (o : Option (Transition State Action))
      → get_elem? ss i ≡ o
      → i ≤ length ss
      → NotYet q ss i
      → state_after q (take i ss) ≡ some here
      → ((x : MonitorState State Action)
          → state_after q (take (suc i) ss) ≡ some x
          → NotYet q ss (suc i)
          → Says q ss n (go x))
      → Says q ss n (round order m (trace_of ss) i go here (reading_of o))
  round-Says q ss i n go here none g l v e h = tt
  round-Says q ss i n go here (some s) g l v e h =
      enter-Says q ss i n go (advance order m here s) l v (one_more q ss here i s e g) h

  scan-Says :
      (q : Option (MonitorState State Action)) (ss : List (Transition State Action))
      (here : MonitorState State Action) (i n : ℕ)
      → i + n ≡ length ss
      → state_after q (take i ss) ≡ some here
      → NotYet q ss i
      → Says q ss (length ss) (scan order m (trace_of ss) here i n)
  unfolding scan
  scan-Says q ss here i zero l e v = λ j h. v j (omega arith)
  scan-Says q ss here i (suc n) l e v = rw (get-trace_of ss i) (
      round-Says q ss i (length ss) (λ x. scan order m (trace_of ss) x (suc i) n) here
        (get_elem? ss i) refl (omega arith) v e
        (λ x f w. scan-Says q ss x (suc i) n (omega arith) f w))

  check_from-Says :
      (q : Option (MonitorState State Action)) (ss : List (Transition State Action))
      → 0 < length ss
      → Succeeds false q
      → Says q ss (length ss) (check_from order m (trace_of ss) q)
  unfolding len
  check_from-Says none ss l f = tt
  check_from-Says (some x) ss l f = rw goes_on (
      scan-Says (some x) ss x 0 (length (map (λ s. s.state) ss))
        (omega (arith, length-map (λ s. s.state) ss)) refl first)
    where
      goes_on : (length (map (λ s. s.state) ss) == 0 || x.success) ≡ false
      goes_on = ground (arith, length-map (λ s. s.state) ss)

      first : NotYet (some x) ss 0
      first zero h = f
      first (suc j) h = ground arith

  -- When a monitor accepts a trace with transitions, and its first state is no success, then some
  -- transition of the trace is the first that leads to a success, and the prefix that is returned
  -- ends before that transition.
  pub check-Accepts :
      (ss : List (Transition State Action)) (p : Trace State Action)
      → 0 < length ss
      → Succeeds false (get m.states init_state)
      → check order m (trace_of ss) ≡ accepted p
      → Accepts (get m.states init_state) ss p
  unfolding check
  check-Accepts ss p l f e = rw e at (check_from-Says (get m.states init_state) ss l f)

  -- When a monitor rejects a trace with transitions, and its first state is no success, then no
  -- transition of the trace leads to a success.
  pub check-NotYet :
      (ss : List (Transition State Action))
      → 0 < length ss
      → Succeeds false (get m.states init_state)
      → check order m (trace_of ss) ≡ rejected
      → NotYet (get m.states init_state) ss (length ss)
  unfolding check
  check-NotYet ss l f e = rw e at (check_from-Says (get m.states init_state) ss l f)
