-- ===== src/Prelude/Int.antt =====
-- Signed integers over the native numbers: a number read from JSON may be negative.
use Prim.Native.Nat.{ℕ}
use mathlib.Core.Bool.{Bool, true, false}
use mindees_blockchain.Prelude.Tests.{eqb, ltb}

-- `negsuc n` is -(n + 1).
pub data ℤ : Type 0 where
  pos : ℕ → ℤ
  negsuc : ℕ → ℤ

abbrev pub int_eq : ℤ → ℤ → Bool
int_eq (pos m) (pos n) = eqb m n
int_eq (negsuc m) (negsuc n) = eqb m n
int_eq (pos m) (negsuc n) = false
int_eq (negsuc m) (pos n) = false

abbrev pub int_lt : ℤ → ℤ → Bool
int_lt (pos m) (pos n) = ltb m n
int_lt (negsuc m) (negsuc n) = ltb n m
int_lt (pos m) (negsuc n) = false
int_lt (negsuc m) (pos n) = true
