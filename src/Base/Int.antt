-- ===== src/Base/Int.antt =====
-- Signed integers, as far as the program tests them: `negsuc n` is -(n + 1).
pub mod Order
use Prim.Native.Nat.{ℕ, suc, ◌+◌, ◌-◌, ◌^◌, ◌<◌}
use mathlib.Core.Path.{◌≡◌}
use mathlib.Core.Bool.{Bool, true, false}
use mathlib.Core.Option.{Option, none, some}
use zeppelin.Base.Tests.{leb, ltb, ◌==◌, if◌then◌else◌, lt→ltb}

pub data ℤ : Type 0 where
  pos : ℕ → ℤ
  negsuc : ℕ → ℤ

-- The number, unless it is negative.
abbrev pub to_ℕ? : ℤ → Option ℕ
to_ℕ? (pos n) = some n
to_ℕ? (negsuc n) = none

abbrev pub sub : ℤ → ℕ → ℤ
sub (pos n) m = if leb m n then pos (n - m) else negsuc (m - n - 1)
sub (negsuc n) m = negsuc (n + m)

-- An unsigned number of 32 bits as int32_t.
abbrev pub to_int32 : ℕ → ℤ
to_int32 n = if ltb n (2 ^ 31) then pos n else negsuc (2 ^ 32 - 1 - n)

-- a ≥ b
abbrev pub int_ge : ℤ → ℤ → Bool
int_ge (pos n) (pos m) = leb m n
int_ge (pos n) (negsuc m) = true
int_ge (negsuc n) (pos m) = false
int_ge (negsuc n) (negsuc m) = leb n m

pub to_int32-small : (n : ℕ) → n < 2 ^ 31 → to_int32 n ≡ pos n
to_int32-small n h = rw (lt→ltb n (2 ^ 31) h)

-- A signed number as uint32_t; it is one of 32 bits.
abbrev pub to_uint32 : ℤ → ℕ
to_uint32 (pos n) = n
to_uint32 (negsuc n) = 2 ^ 32 - 1 - n

-- How many numbers are there from the first to the second, both counted?
abbrev pub span : ℤ → ℤ → ℕ
span (pos a) (pos b) = suc b - a
span (pos a) (negsuc b) = 0
span (negsuc a) (pos b) = suc a + suc b
span (negsuc a) (negsuc b) = suc a - b

abbrev pub is_positive : ℤ → Bool
is_positive (pos n) = ltb 0 n
is_positive (negsuc n) = false

abbrev pub int_eq : ℤ → ℤ → Bool
int_eq (pos n) (pos m) = n == m
int_eq (negsuc n) (negsuc m) = n == m
int_eq _ _ = false

abbrev pub int_lt : ℤ → ℤ → Bool
int_lt (pos n) (pos m) = ltb n m
int_lt (pos n) (negsuc m) = false
int_lt (negsuc n) (pos m) = true
int_lt (negsuc n) (negsuc m) = ltb m n

abbrev pub int_suc : ℤ → ℤ
int_suc (pos n) = pos (suc n)
int_suc (negsuc n) = sub (pos 0) n
