-- ===== src/Prelude/Int.antt =====
-- Signed integers over the native numbers: `negsuc n` is -(n + 1). An `i64` is one in range.
use Prim.Native.Nat.{ℕ, ◌-◌, ◌^◌, ◌%◌, ◌<◌}
use mathlib.Core.Path.{◌≡◌}
use mathlib.Core.Bool.{Bool, true, false}
use mathlib.Core.Logic.{◌↔◌}
use native.Mathlib.Omega.{arith}
use ferry.Prelude.Tests.{ltb, ◌==◌, if◌then◌else◌}

pub data ℤ : Type 0 where
  pos : ℕ → ℤ
  negsuc : ℕ → ℤ

abbrev pub int_eq : ℤ → ℤ → Bool
int_eq (pos a) (pos b) = a == b
int_eq (negsuc a) (negsuc b) = a == b
int_eq _ _ = false

-- `a < b`
abbrev pub int_lt : ℤ → ℤ → Bool
int_lt (pos a) (pos b) = ltb a b
int_lt (negsuc a) (negsuc b) = ltb b a
int_lt (negsuc a) (pos b) = true
int_lt (pos a) (negsuc b) = false

abbrev pub IsI64 : ℤ → Type 0
IsI64 (pos n) = n < 2 ^ 63
IsI64 (negsuc n) = n < 2 ^ 63

-- The two's complement word of an `i64`, and the `i64` of a word.
abbrev pub to_word : ℤ → ℕ
to_word (pos n) = n % 2 ^ 64
to_word (negsuc n) = 2 ^ 64 - 1 - n % 2 ^ 64

abbrev pub of_word : ℕ → ℤ
of_word w = if ltb w (2 ^ 63) then pos w else negsuc (2 ^ 64 - 1 - w)

pub to_word-lt : (z : ℤ) → to_word z < 2 ^ 64
to_word-lt (pos n) = omega arith
to_word-lt (negsuc n) = omega arith

pub of_word-to_word : (z : ℤ) → IsI64 z → of_word (to_word z) ≡ z
of_word-to_word (pos n) h = ground arith
of_word-to_word (negsuc n) h = ground arith

pub to_word-of_word : (w : ℕ) → w < 2 ^ 64 → to_word (of_word w) ≡ w
to_word-of_word w h = ground arith

pub of_word-IsI64 : (w : ℕ) → w < 2 ^ 64 → IsI64 (of_word w)
of_word-IsI64 w h = ground arith

pub int_eq_iff : (a b : ℤ) → (int_eq a b ≡ true) ↔ (a ≡ b)
int_eq_iff (pos a) (pos b) = ground arith
int_eq_iff (pos a) (negsuc b) = ground arith
int_eq_iff (negsuc a) (pos b) = ground arith
int_eq_iff (negsuc a) (negsuc b) = ground arith
