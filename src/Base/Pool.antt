-- ===== src/Base/Pool.antt =====
-- What the environments of rsl and lpaxos share: the pool of messages, a Go map under the hash of each
-- message, as the list of its values, and the loops that fill a new environment.
use Prim.Native.Nat.{ℕ, zero, suc, ◌+◌, ◌/◌, ◌%◌}
use mathlib.Core.Path.{◌≡◌, sym, subst}
use mathlib.Core.Bool.{Bool, true, false, ◌||◌}
use mathlib.Core.List.{List, [], ◌∷◌, ◌++◌}
use native.Mathlib.Omega.{arith}
use raft_rl_test.Base.Tests.{if◌then◌else◌, ltb, if-cases}
use raft_rl_test.Base.Lists.{bytes_eq, bytes_eq_sound}

-- strconv.Itoa, as bytes, for a number of at most `fuel` digits.
unfoldable pub itoa : ℕ → ℕ → List ℕ
itoa zero n = []
itoa (suc fuel) n =
    let digits = itoa fuel (n / 10) in
    if ltb n 10 then (48 + n) ∷ [] else digits ++ (48 + n % 10) ∷ []

-- The numbers from 1 to `n`, each through a function.
unfoldable pub one_to : {A : Type 0} → (ℕ → A) → ℕ → List A
one_to f zero = []
one_to f (suc n) = one_to f n ++ f (suc n) ∷ []

module _ {A : Type 0} (hash : A → List ℕ) where
  -- r.messages[m.Hash()] = m
  unfoldable pub put_message : A → List A → List A
  put_message m [] = m ∷ []
  put_message m (x ∷ xs) =
      let rest = put_message m xs in if bytes_eq (hash x) (hash m) then m ∷ xs else x ∷ rest

  -- delete(r.messages, m.Hash())
  unfoldable pub delete_message : A → List A → List A
  delete_message m [] = []
  delete_message m (x ∷ xs) =
      let rest = delete_message m xs in if bytes_eq (hash x) (hash m) then rest else x ∷ rest

  unfoldable pub put_messages : List A → List A → List A
  unfolding put_message
  put_messages [] pool = pool
  put_messages (m ∷ ms) pool = put_messages ms (put_message m pool)

  -- Whether a message with the hash of `x` is in the pool.
  unfoldable pub in_pool : A → List A → Bool
  in_pool x [] = false
  in_pool x (m ∷ pool) = let rest = in_pool x pool in bytes_eq (hash m) (hash x) || rest

  pub in_pool-put_message :
      (x m : A) (pool : List A) → in_pool x pool ≡ true → in_pool x (put_message m pool) ≡ true
  unfolding in_pool put_message
  in_pool-put_message x m [] h = ground (arith, h)
  in_pool-put_message x m (y ∷ pool) h =
      if-cases {A = List A} (λ l. in_pool x l ≡ true) (bytes_eq (hash y) (hash m))
        (λ e.
          subst (λ k. (bytes_eq k (hash x) || in_pool x pool) ≡ true)
            (bytes_eq_sound (hash y) (hash m) e) h)
        (λ e. ground (arith, h, in_pool-put_message x m pool))

  pub in_pool-put_messages :
      (x : A) (ms pool : List A) → in_pool x pool ≡ true → in_pool x (put_messages ms pool) ≡ true
  unfolding put_messages
  in_pool-put_messages x [] pool h = h
  in_pool-put_messages x (m ∷ ms) pool h =
      in_pool-put_messages x ms (put_message m pool) (in_pool-put_message x m pool h)

  pub in_pool-delete_message :
      (x m : A) (pool : List A)
      → bytes_eq (hash m) (hash x) ≡ false
      → in_pool x pool ≡ true
      → in_pool x (delete_message m pool) ≡ true
  unfolding in_pool delete_message
  in_pool-delete_message x m [] n h = h
  in_pool-delete_message x m (y ∷ pool) n h =
      if-cases {A = List A} (λ l. in_pool x l ≡ true) (bytes_eq (hash y) (hash m))
        (λ e.
          let other : bytes_eq (hash y) (hash x) ≡ false =
            subst (λ k. bytes_eq k (hash x) ≡ false) (sym (bytes_eq_sound (hash y) (hash m) e)) n in
          in_pool-delete_message x m pool n (ground (arith, h, other)))
        (λ e. ground (arith, h, in_pool-delete_message x m pool n))
