-- ===== src/Types/Partition/Runs.antt =====
-- Runs of the partition environment under the actions that it offers.
use raft_rl_test.Base.{
  ℕ, zero, suc, ◌+◌, ◌≡◌, ◌≤◌, inl, inr, sym, ap, ◌∙◌, List, [], ◌∷◌, some, none, length, get_elem?,
  arith,
}
use mathlib.Core.Path.{subst}
use raft_rl_test.Base.Int.{ℤ, pos, negsuc, sub_one}
use raft_rl_test.Base.Assoc.{add}
use raft_rl_test.Base.Every.{Every}
use raft_rl_test.Types.Partition.Color.{Color}
use raft_rl_test.Types.Partition.State.{
  Partition, Action, create_partition, keep_same_partition, stop_start, stop, start, System,
  PartitionEnv, PartitionEnvConfig, Chance, returns, send_request, byzantine,
}
use raft_rl_test.Types.Partition.Actions.{actions}
use raft_rl_test.Types.Partition.Reset.{new_partition_env, first_partition}
use raft_rl_test.Types.Partition.Step.{step}
use raft_rl_test.Types.Partition.Painted.{Positive}
use raft_rl_test.Types.Partition.Offered.{Allowed, actions-Allowed}
use raft_rl_test.Types.Partition.Budget.{limits, After, Now}
use raft_rl_test.Types.Partition.Spending.{step-limits}

Every-get_elem? :
    {A : Type 0} (P : A → Type 0) (xs : List A) (i : ℕ) (x : A)
    → Every P xs
    → get_elem? xs i ≡ some x
    → P x
Every-get_elem? P [] i x h e = ground arith
Every-get_elem? P (y ∷ ys) zero x h e = subst P (ap (λ o. elim o [ none ↦ y | some z ↦ z ]) e) h.0
Every-get_elem? P (y ∷ ys) (suc i) x h e = Every-get_elem? P ys i x h.1 e

module _ {Env Replica Message Request : Type 0} (sys : System Env Replica Message Request)
    (painter : Replica → Color) (enumerate : List (List ℕ) → List (List (List (List ℕ)))) where
  -- What an episode reaches by steps that return, each with an action that was on offer. The actions
  -- are listed latest first.
  pub data Run (p : PartitionEnv Env Replica Message Request)
      : List Action → PartitionEnv Env Replica Message Request → Type 0 where
    starts : Run p [] p
    acts :
        {done : List Action} {q r : PartitionEnv Env Replica Message Request} (c : Chance Message)
        (i : ℕ) (a : Action) (next : Partition Replica Request)
        → Run p done q
        → get_elem? (actions enumerate q.cur_partition) i ≡ some a
        → step sys painter c q a ≡ (r, returns next)
        → Run p (a ∷ done) r

-- How many of the actions are stops.
unfoldable pub stops : List Action → ℕ
stops [] = 0
stops (stop_start color stop ∷ done) = suc (stops done)
stops (stop_start color start ∷ done) = stops done
stops (create_partition new ∷ done) = stops done
stops (keep_same_partition ∷ done) = stops done
stops (send_request ∷ done) = stops done
stops (byzantine color ∷ done) = stops done

-- A counter that has not run out: what is left and what is used make up the whole.
abbrev pub Left : ℕ → ℕ → ℤ → Type 0
Left all used z = (j : ℕ) × (z ≡ pos j) × (j + used ≡ all)

-- A counter that has not run out: what is left and what is used are within the whole.
abbrev pub Within : ℕ → ℕ → ℤ → Type 0
Within all used z = (j : ℕ) × (z ≡ pos j) × (j + used ≤ all)

spent : (z : ℤ) (j : ℕ) → z ≡ pos j → Positive z → (i : ℕ) × (z ≡ pos (suc i)) × (suc i ≡ j)
spent z j e (i, f) = (i, f, ap size (sym f ∙ e))
  where
    size : ℤ → ℕ
    size (pos n) = n
    size (negsuc n) = 0

length-add : (n : ℕ) (s : List ℕ) → length (add n s) ≤ suc (length s)
unfolding add
length-add n s = ground arith

module _ {Replica Request : Type 0} (p : Partition Replica Request) where
  After-crashes :
      (k : ℕ) (a : Action) (done : List Action) (l : ℤ × ℤ × List ℕ)
      → Allowed p a
      → After a p l
      → Left k (stops done) p.remaining_crashes
      → Left k (stops (a ∷ done)) l.0
  unfolding stops
  After-crashes k (create_partition new) done l h e (j, f, g) = (j, ap (λ x. x.0) e ∙ f, g)
  After-crashes k keep_same_partition done l h e (j, f, g) = (j, ap (λ x. x.0) e ∙ f, g)
  After-crashes k (stop_start color start) done l h e (j, f, g) = (j, ap (λ x. x.0) e ∙ f, g)
  After-crashes k send_request done l h e (j, f, g) = (j, ap (λ x. x.0) e ∙ f, g)
  After-crashes k (byzantine color) done l h (inl e) (j, f, g) = (j, ap (λ x. x.0) e ∙ f, g)
  After-crashes k (byzantine color) done l h (inr (n, e)) (j, f, g) = (j, ap (λ x. x.0) e ∙ f, g)
  After-crashes k (stop_start color stop) done l h e (j, f, g) =
      let (i, z, w) = spent p.remaining_crashes j f h.1 in
      (i, ap (λ x. x.0) e ∙ ap sub_one z, omega (arith, w, g))

  After-byzantine :
      (k : ℕ) (a : Action) (l : ℤ × ℤ × List ℕ)
      → Allowed p a
      → After a p l
      → Within k (length p.byzantine_nodes) p.remaining_byzantine
      → Within k (length l.2) l.1
  After-byzantine k (create_partition new) l h e w =
      subst (λ x. Within k (length x.2) x.1) (sym e) w
  After-byzantine k keep_same_partition l h e w = subst (λ x. Within k (length x.2) x.1) (sym e) w
  After-byzantine k (stop_start color stop) l h e w =
      subst (λ x. Within k (length x.2) x.1) (sym e) w
  After-byzantine k (stop_start color start) l h e w =
      subst (λ x. Within k (length x.2) x.1) (sym e) w
  After-byzantine k send_request l h e w = subst (λ x. Within k (length x.2) x.1) (sym e) w
  After-byzantine k (byzantine color) l h (inl e) w =
      subst (λ x. Within k (length x.2) x.1) (sym e) w
  After-byzantine k (byzantine color) l h (inr (n, e)) (j, f, g) =
      let (i, z, w) = spent p.remaining_byzantine j f h.1 in
      subst (λ x. Within k (length x.2) x.1) (sym e)
        (i, ap sub_one z, omega (arith, w, g, length-add n p.byzantine_nodes))

module _ {Env Replica Message Request : Type 0} (sys : System Env Replica Message Request)
    (painter : Replica → Color) (enumerate : List (List ℕ) → List (List (List (List ℕ))))
    (config : PartitionEnvConfig) (env : Env) where
  Run-After :
      (q r : PartitionEnv Env Replica Message Request) (c : Chance Message) (a : Action)
      (next : Partition Replica Request)
      → step sys painter c q a ≡ (r, returns next)
      → After a q.cur_partition (limits r.cur_partition)
  Run-After q r c a next e = subst (Now (After a q.cur_partition)) e (step-limits sys painter c q a)

  offered-Allowed :
      (q : PartitionEnv Env Replica Message Request) (i : ℕ) (a : Action)
      → get_elem? (actions enumerate q.cur_partition) i ≡ some a
      → Allowed q.cur_partition a
  offered-Allowed q i a e =
      Every-get_elem? (Allowed q.cur_partition) (actions enumerate q.cur_partition) i a
        (actions-Allowed enumerate q.cur_partition) e

  -- In any run from the start, with actions that were on offer, the crashes that are left and the
  -- stops so far add up to the crash limit, if this is not negative: there are never more stops.
  pub Run-crashes :
      (k : ℕ)
      → config.crash_limit ≡ pos k
      → (done : List Action) (q : PartitionEnv Env Replica Message Request)
      → Run sys painter enumerate (new_partition_env sys painter config env) done q
      → Left k (stops done) q.cur_partition.remaining_crashes
  unfolding new_partition_env first_partition stops
  Run-crashes k h _ _ starts = (k, h, omega arith)
  Run-crashes k h _ r (acts {done = done} {q = q} c i a next run e f) =
      After-crashes q.cur_partition k a done (limits r.cur_partition) (offered-Allowed q i a e)
        (Run-After q r c a next f) (Run-crashes k h done q run)

  -- In any such run, the Byzantine nodes and those that may still become Byzantine are within the
  -- configured number, if this is not negative.
  pub Run-byzantine :
      (k : ℕ)
      → config.max_byzantine ≡ pos k
      → (done : List Action) (q : PartitionEnv Env Replica Message Request)
      → Run sys painter enumerate (new_partition_env sys painter config env) done q
      → Within k (length q.cur_partition.byzantine_nodes) q.cur_partition.remaining_byzantine
  unfolding new_partition_env first_partition
  Run-byzantine k h _ _ starts = (k, h, omega arith)
  Run-byzantine k h _ r (acts {done = done} {q = q} c i a next run e f) =
      After-byzantine q.cur_partition k a (limits r.cur_partition) (offered-Allowed q i a e)
        (Run-After q r c a next f) (Run-byzantine k h done q run)
