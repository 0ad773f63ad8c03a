-- ===== src/Base/Int/Order.antt =====
-- The order of the integers.
use Prim.Native.Nat.{Ordering}
use mathlib.Core.Path.{◌≡◌}
use mathlib.Core.Logic.{◌≢◌}
use native.Mathlib.Omega.{arith}
use chatgpt_codex_proxy.Base.Int.{ℤ, compare_int}
use chatgpt_codex_proxy.Base.Sort.{IsLinear, flip_order}

flips_int : (a b : ℤ) → compare_int a b ≡ flip_order (compare_int b a)
flips_int a b = ground arith

equal_int : (a b : ℤ) → compare_int a b ≡ Ordering.eq → a ≡ b
equal_int a b h = ground arith

chains_int :
    (a b c : ℤ)
    → compare_int a b ≡ Ordering.lt
    → compare_int b c ≡ Ordering.lt
    → compare_int a c ≡ Ordering.lt
chains_int a b c h k = ground arith

pub int_order : IsLinear compare_int
int_order = record { flips = flips_int; equal = equal_int; chains = chains_int }

pub not_above_trans :
    (a b c : ℤ)
    → compare_int a b ≢ Ordering.gt
    → compare_int b c ≢ Ordering.gt
    → compare_int a c ≢ Ordering.gt
not_above_trans a b c h k = ground arith
