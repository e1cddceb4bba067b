-- ===== src/Base/Int.antt =====
-- Go's signed numbers over the native ones: `int` with its 64-bit wrap-around, and durations.
use Prim.Native.Nat.{ℕ, suc, ◌+◌, ◌-◌, ◌≤◌, ◌<◌}
use mathlib.Core.Path.{◌≡◌}
use mathlib.Core.Bool.{Bool}
use native.Mathlib.Omega.{arith}
use job_raft.Base.Tests.{ltb, eq_ℕ, if◌then◌else◌}

-- `negsuc n` is -(n + 1).
pub data ℤ : Type 0 where
  pos : ℕ → ℤ
  negsuc : ℕ → ℤ

abbrev pub pos_part : ℤ → ℕ
pos_part (pos n) = n
pos_part (negsuc n) = 0

abbrev pub neg_part : ℤ → ℕ
neg_part (pos n) = 0
neg_part (negsuc n) = suc n

abbrev pub ltb_ℤ : ℤ → ℤ → Bool
ltb_ℤ a b = ltb (pos_part a + neg_part b) (pos_part b + neg_part a)

abbrev pub eq_ℤ : ℤ → ℤ → Bool
eq_ℤ a b = eq_ℕ (pos_part a + neg_part b) (pos_part b + neg_part a)

-- The largest `int`.
abbrev pub max_int : ℕ
max_int = 9223372036854775807

-- 2^64, and the `int64` that has the bits of a number below it.
abbrev pub int_span : ℕ
int_span = 18446744073709551616

abbrev pub as_int : ℕ → ℤ
as_int n = if ltb max_int n then negsuc (int_span - 1 - n) else pos n

pub as_int_inj : (m n : ℕ) → m < int_span → n < int_span → as_int m ≡ as_int n → m ≡ n
as_int_inj m n h k e = ground arith

-- `x++` and `x--` at type `int`: they wrap at the ends of the 64-bit range.
abbrev pub inc_int : ℤ → ℤ
inc_int (pos n) = if eq_ℕ n max_int then negsuc max_int else pos (n + 1)
inc_int (negsuc n) = if eq_ℕ n 0 then pos 0 else negsuc (n - 1)

abbrev pub dec_int : ℤ → ℤ
dec_int (pos n) = if eq_ℕ n 0 then negsuc 0 else pos (n - 1)
dec_int (negsuc n) = if eq_ℕ n max_int then pos max_int else negsuc (n + 1)

-- The value fits an `int`.
abbrev pub IsInt : ℤ → Type 0
IsInt (pos n) = n ≤ max_int
IsInt (negsuc n) = n ≤ max_int

-- Counting down undoes counting up, also across the wrap-around.
pub dec_int-inc_int : (z : ℤ) → IsInt z → dec_int (inc_int z) ≡ z
dec_int-inc_int (pos n) h = ground arith
dec_int-inc_int (negsuc n) h = ground arith
