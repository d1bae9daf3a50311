-- ===== src/Policies/Progress.antt =====
-- How a reward machine moves along its states, from the predicates on the next state.
use mathlib.Core.Path.{subst}
use raft_rl_test.Base.{
  ℕ, zero, suc, ◌-◌, ◌==◌, ◌≡◌, ◌<◌, refl, sym, ap, ◌∙◌, ◌&&◌, Bool, true, false, not, List, [],
  ◌∷◌, Option, some, none, arith, if◌then◌else◌, if-cases, ltb, length, get_elem?, lt-or-eq,
  lt-or-le, inl, inr,
}
use raft_rl_test.Base.Assoc.{GoMap, get, get-put}
use raft_rl_test.Policies.RewardMachine.{
  RmTrace, RewardMachinePolicy, holds, pick, scan_down, find, update, update_to, record_step,
  rm_append, segment_or_new,
}

-- At a position the list has no name or one whose predicate does not hold.
abbrev pub Fails : {State : Type 0} → GoMap (State → Bool) → State → Option ℕ → Type 0
Fails predicates s none = Unit
Fails predicates s (some name) = holds (get predicates name) s ≡ false

-- The last position below `n` whose predicate holds.
pub record IsLast {State : Type 0} (predicates : GoMap (State → Bool)) (states : List ℕ) (s : State)
    (n : ℕ) (found : ℕ × ℕ) : Type 0 where
  pub inside : found.0 < n
  pub name : get_elem? states found.0 ≡ some found.1
  pub succeeds : holds (get predicates found.1) s ≡ true
  pub later_fail : (j : ℕ) → found.0 < j → j < n → Fails predicates s (get_elem? states j)

module _ {State : Type 0} (predicates : GoMap (State → Bool)) (states : List ℕ) (s : State) where
  abbrev pub Scanned : ℕ → Option (ℕ × ℕ) → Type 0
  Scanned n none = (j : ℕ) → j < n → Fails predicates s (get_elem? states j)
  Scanned n (some found) = IsLast predicates states s n found

  -- The position `i` fails: what was found below it stays.
  Scanned-below :
      (i : ℕ) (o : Option (ℕ × ℕ))
      → Fails predicates s (get_elem? states i)
      → Scanned i o
      → Scanned (suc i) o
  Scanned-below i none f h =
      λ j l. elim (lt-or-eq j i (omega arith)) [ inl k ↦ h j k | inr e ↦ rw e f ]
  Scanned-below i (some found) f h = record {
    inside = omega (arith, h.inside);
    name = h.name;
    succeeds = h.succeeds;
    later_fail =
        λ j l k. elim (lt-or-eq j i (omega arith)) [ inl x ↦ h.later_fail j l x | inr e ↦ rw e f ];
  }

  pick-Scanned :
      (i : ℕ) (o : Option ℕ) (below : Option (ℕ × ℕ))
      → get_elem? states i ≡ o
      → Scanned i below
      → Scanned (suc i) (pick predicates s i o below)
  pick-Scanned i none below e h = Scanned-below i below (rw e tt) h
  pick-Scanned i (some name) below e h =
      if-cases (Scanned (suc i)) (holds (get predicates name) s)
        (λ t. record {
          inside = omega arith;
          name = e;
          succeeds = t;
          later_fail = λ j l k. absurd (omega arith);
        })
        (λ f. Scanned-below i below (rw e f) h)

  scan_down-Scanned : (n : ℕ) → Scanned n (scan_down predicates states s n)
  unfolding scan_down
  scan_down-Scanned zero = λ j l. absurd (omega arith)
  scan_down-Scanned (suc i) =
      pick-Scanned i (get_elem? states i) (scan_down predicates states s i) refl
        (scan_down-Scanned i)

  -- A position of a list has one name, so no other position can be the last one.
  no_later :
      (n : ℕ) (f g : ℕ × ℕ)
      → IsLast predicates states s n f
      → IsLast predicates states s n g
      → f.0 < g.0
      → ⊥
  no_later n f g h k l =
      let fails : holds (get predicates g.1) s ≡ false =
        rw k.name at (h.later_fail g.0 l k.inside) in
      absurd (let held = k.succeeds in cc)

  same_last :
      (n : ℕ) (f g : ℕ × ℕ)
      → IsLast predicates states s n f
      → IsLast predicates states s n g
      → some f ≡ some g
  same_last n f g h k = elim (lt-or-le f.0 g.0) [
    | inl below ↦ absurd (no_later n f g h k below)
    | inr above ↦ elim (lt-or-eq g.0 f.0 above) [
      | inl below ↦ absurd (no_later n g f k h below)
      | inr level ↦
          let names : some f.1 ≡ some g.1 =
            sym h.name ∙ ap (λ i. get_elem? states i) (sym level) ∙ k.name in
          ap (λ o. pair_with f.0 o) names ∙ ap (λ i. some (i, g.1)) (sym level)
    ]
  ]
    where
      pair_with : ℕ → Option ℕ → Option (ℕ × ℕ)
      pair_with i none = none
      pair_with i (some name) = some (i, name)

  -- There is one answer to what the last position is whose predicate holds.
  Scanned-unique : (n : ℕ) (o o' : Option (ℕ × ℕ)) → Scanned n o → Scanned n o' → o ≡ o'
  Scanned-unique n none none h k = refl
  Scanned-unique n none (some g) h k =
      let fails : holds (get predicates g.1) s ≡ false = rw k.name at (h g.0 k.inside) in
      absurd (let held = k.succeeds in cc)
  Scanned-unique n (some f) none h k =
      let fails : holds (get predicates f.1) s ≡ false = rw h.name at (k f.0 h.inside) in
      absurd (let held = h.succeeds in cc)
  Scanned-unique n (some f) (some g) h k = same_last n f g h k

module _ {State Action Policy : Type 0} where
  -- The last position of a machine whose predicate holds of a state, or none if all fail.
  abbrev pub Sought : RewardMachinePolicy State Action Policy → State → Option (ℕ × ℕ) → Type 0
  Sought rp ns o = Scanned rp.rm.predicates rp.rm.states ns (length rp.rm.states) o

  -- The segment of the state that is left has one more transition, and no other has changed.
  abbrev pub Records :
      RewardMachinePolicy State Action Policy
      → GoMap (RmTrace State Action)
      → State
      → Action
      → State
      → Bool
      → Bool
      → Type 0
  Records rp segments s a ns reward out =
      (get segments rp.cur_rm_state
        ≡ some (
            rm_append (segment_or_new (get rp.cur_trace_segments rp.cur_rm_state)) s a ns reward
              out))
      × ((k : ℕ) → (rp.cur_rm_state == k) ≡ false → get segments k ≡ get rp.cur_trace_segments k)

  -- Where the machine is after a step, and what it has recorded.
  abbrev pub StepsTo :
      RewardMachinePolicy State Action Policy
      → RewardMachinePolicy State Action Policy
      → State
      → Action
      → State
      → Option (ℕ × ℕ)
      → Type 0
  StepsTo rp next s a ns none =
      (next.cur_rm_state_pos ≡ length rp.rm.states - 1)
      × (next.reached ≡ false)
      × Records rp next.cur_trace_segments s a ns false false
  StepsTo rp next s a ns (some found) =
      (next.cur_rm_state_pos ≡ found.0)
      × (next.cur_rm_state ≡ found.1)
      × (next.reached ≡ (rp.one_time && found.0 == length rp.rm.states - 1))
      × Records rp next.cur_trace_segments s a ns (ltb rp.cur_rm_state_pos found.0)
          (not (found.0 == rp.cur_rm_state_pos))

  put-Records :
      (rp : RewardMachinePolicy State Action Policy) (s : State) (a : Action) (ns : State)
      (reward out : Bool)
      → Records rp (record_step rp s a ns reward out).cur_trace_segments s a ns reward out
  put-Records rp s a ns reward out =
      let old = rp.cur_trace_segments in
      let segment = rm_append (segment_or_new (get old rp.cur_rm_state)) s a ns reward out in
      let key = rp.cur_rm_state in
      let same : (key == key) ≡ true = ground arith in
      (
        get-put old key segment key ∙ rw same refl,
        λ k other. get-put old key segment k ∙ rw other refl,
      )

  update_to-StepsTo :
      (rp : RewardMachinePolicy State Action Policy) (s : State) (a : Action) (ns : State)
      (o : Option (ℕ × ℕ))
      → rp.reached ≡ false
      → StepsTo rp (update_to rp s a ns o) s a ns o
  update_to-StepsTo rp s a ns none r = (refl, r, put-Records rp s a ns false false)
  update_to-StepsTo rp s a ns (some found) r = (
    refl,
    refl,
    rw r (ground arith),
    put-Records rp s a ns (ltb rp.cur_rm_state_pos found.0) (not (found.0 == rp.cur_rm_state_pos)),
  )

  -- A step of a reward machine that has not reached its end for good moves it to the last of its
  -- states whose predicate holds of the next state, with a reward exactly if that is ahead, and to
  -- its last position without a reward if no predicate holds. The transition joins the segment of
  -- the state that it leaves, and the other segments stay. The machine has reached its end if it is
  -- a one-time machine and the state found is the last one.
  pub update-StepsTo :
      (rp : RewardMachinePolicy State Action Policy) (s : State) (a : Action) (ns : State)
      (o : Option (ℕ × ℕ))
      → rp.reached ≡ false
      → Sought rp ns o
      → StepsTo rp (update rp s a ns) s a ns o
  unfolding update find
  update-StepsTo rp s a ns o r h =
      let found : find rp.rm ns ≡ o =
        Scanned-unique rp.rm.predicates rp.rm.states ns (length rp.rm.states) (find rp.rm ns) o
          (scan_down-Scanned rp.rm.predicates rp.rm.states ns (length rp.rm.states)) h in
      let looked : (if not rp.reached then find rp.rm ns else none) ≡ o = rw r found in
      subst (λ x. StepsTo rp (update_to rp s a ns x) s a ns o) (sym looked)
        (update_to-StepsTo rp s a ns o r)

  not_looked_up :
      (rp : RewardMachinePolicy State Action Policy) (ns : State)
      → rp.reached ≡ true
      → (if not rp.reached then find rp.rm ns else none) ≡ none
  not_looked_up rp ns r = ap (λ b. if not b then find rp.rm ns else none) r

  update-reached :
      (rp : RewardMachinePolicy State Action Policy) (s : State) (a : Action) (ns : State)
      → rp.reached ≡ true
      → ((update rp s a ns).reached ≡ true)
        × ((update rp s a ns).cur_rm_state_pos ≡ length rp.rm.states - 1)
        × ((update rp s a ns).rm ≡ rp.rm)
  unfolding update
  update-reached rp s a ns r = (
    ap (λ o. (update_to rp s a ns o).reached) (not_looked_up rp ns r) ∙ r,
    ap (λ o. (update_to rp s a ns o).cur_rm_state_pos) (not_looked_up rp ns r),
    ap (λ o. (update_to rp s a ns o).rm) (not_looked_up rp ns r),
  )

  -- The steps of an episode, one after the other.
  unfoldable pub updates :
      RewardMachinePolicy State Action Policy
      → List (State × Action × State)
      → RewardMachinePolicy State Action Policy
  updates rp [] = rp
  updates rp (t ∷ ts) = updates (update rp t.0 t.1 t.2) ts

  -- Once a one-time machine has reached its last state, each later step of the episode takes it to
  -- its last position, whatever the next states are, and it still counts as reached.
  pub updates-reached :
      (rp : RewardMachinePolicy State Action Policy) (t : State × Action × State)
      (ts : List (State × Action × State))
      → rp.reached ≡ true
      → ((updates rp (t ∷ ts)).reached ≡ true)
        × ((updates rp (t ∷ ts)).cur_rm_state_pos ≡ length rp.rm.states - 1)
  unfolding updates
  updates-reached rp t [] r = let one = update-reached rp t.0 t.1 t.2 r in (one.0, one.1)
  updates-reached rp t (u ∷ ts) r =
      let one = update-reached rp t.0 t.1 t.2 r in
      let rest = updates-reached (update rp t.0 t.1 t.2) u ts one.0 in
      (rest.0, rest.1 ∙ ap (λ x. length x.states - 1) one.2)
