-- ===== src/Base/Int.antt =====
-- Go's `int` where a program counts on `math.MaxInt`: an integer with the wrap-around written out.
use Prim.Native.Nat.{ℕ, zero, suc, ◌+◌, ◌-◌}
use mathlib.Core.Bool.{Bool, true, false}
use raft_rl_test.Base.Tests.{if◌then◌else◌, ◌==◌, ltb, leb}

-- `negsuc n` is -(n + 1).
pub data ℤ : Type 0 where
  pos : ℕ → ℤ
  negsuc : ℕ → ℤ

-- math.MaxInt on a 64-bit machine.
abbrev pub max_int : ℕ
max_int = 9223372036854775807

abbrev pub ltb_ℤ : ℤ → ℤ → Bool
ltb_ℤ (pos a) (pos b) = ltb a b
ltb_ℤ (pos a) (negsuc b) = false
ltb_ℤ (negsuc a) (pos b) = true
ltb_ℤ (negsuc a) (negsuc b) = ltb b a

-- x == math.MaxInt
abbrev pub is_max_int : ℤ → Bool
is_max_int (pos a) = a == max_int
is_max_int (negsuc a) = false

-- x + d for an `int` x and a duration d that is not negative: past MaxInt the sum wraps to x + d - 2^64.
abbrev pub add_int : ℤ → ℕ → ℤ
add_int (pos a) d =
    if leb (a + d) max_int then pos (a + d) else negsuc (18446744073709551615 - (a + d))
add_int (negsuc a) d = if ltb a d then pos (d - suc a) else negsuc (a - d)

-- max(x, y) of rsl/util.go.
abbrev pub max_ℤ : ℤ → ℤ → ℤ
max_ℤ a b = if ltb_ℤ b a then a else b

-- min(x, y) of grid/env.go.
abbrev pub min_ℤ : ℤ → ℤ → ℤ
min_ℤ a b = if ltb_ℤ a b then a else b

-- x - 1, which wraps from the least `int` to the greatest.
abbrev pub sub_one : ℤ → ℤ
sub_one (pos zero) = negsuc 0
sub_one (pos (suc a)) = pos a
sub_one (negsuc a) = if a == max_int then pos max_int else negsuc (suc a)

abbrev pub eqb_ℤ : ℤ → ℤ → Bool
eqb_ℤ (pos a) (pos b) = a == b
eqb_ℤ (negsuc a) (negsuc b) = a == b
eqb_ℤ _ _ = false
