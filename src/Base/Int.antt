-- ===== src/Base/Int.antt =====
-- Signed integers over the native numbers, under the library's names, with their order only.
pub mod Order
use Prim.Native.Nat.{ℕ, compare, Ordering}
use mathlib.Core.Bool.{Bool, true, false}

-- `negsuc n` is -(n + 1).
pub data ℤ : Type 0 where
  pos : ℕ → ℤ
  negsuc : ℕ → ℤ

abbrev pub compare_int : ℤ → ℤ → Ordering
compare_int (pos a) (pos b) = compare a b
compare_int (pos a) (negsuc b) = Ordering.gt
compare_int (negsuc a) (pos b) = Ordering.lt
compare_int (negsuc a) (negsuc b) = compare b a

abbrev pub is_positive : ℤ → Bool
is_positive (pos a) = elim (compare 0 a) [ Ordering.lt ↦ true | _ ↦ false ]
is_positive (negsuc a) = false

abbrev pub eq_int : ℤ → ℤ → Bool
eq_int a b = elim (compare_int a b) [ Ordering.eq ↦ true | _ ↦ false ]
