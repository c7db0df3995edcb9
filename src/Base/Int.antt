-- ===== src/Base/Int.antt =====
-- Signed integers over the native numbers: the `int` and `ptrdiff_t` results of libuv.
use Prim.Native.Nat.{ℕ, compare, Ordering}
use mathlib.Core.Bool.{Bool, true, false}

-- `negsuc n` is -(n + 1).
pub data ℤ : Type 0 where
  pos : ℕ → ℤ
  negsuc : ℕ → ℤ

-- `n < 0`
abbrev pub is_negative : ℤ → Bool
is_negative (pos n) = false
is_negative (negsuc n) = true

-- The value of an integer that is not negative, as an unsigned one.
abbrev pub to_size : ℤ → ℕ
to_size (pos n) = n
to_size (negsuc n) = 0

abbrev same_ℕ : ℕ → ℕ → Bool
same_ℕ a b = elim (compare a b) [ Ordering.eq ↦ true | _ ↦ false ]

abbrev pub eq_ℤ : ℤ → ℤ → Bool
eq_ℤ (pos a) (pos b) = same_ℕ a b
eq_ℤ (negsuc a) (negsuc b) = same_ℕ a b
eq_ℤ _ _ = false
