-- ===== src/Base/Bytes/Decimal.antt =====
-- `strconv.Itoa` on numbers that are not negative, and what tells two of them apart.
use Prim.Native.Nat.{ℕ, zero, suc, ◌+◌, ◌-◌, ◌*◌, ◌/◌, ◌%◌, ◌^◌, ◌≤◌, ◌<◌}
use mathlib.Core.Path.{◌≡◌, refl}
use mathlib.Core.List.{[], ◌∷◌, ◌++◌, reverse}
use native.Mathlib.Omega.{arith}
use chatgpt_codex_proxy.Base.Tests.{ltb, ◌==◌, if◌then◌else◌}
use chatgpt_codex_proxy.Base.Lists.{length}
use chatgpt_codex_proxy.Base.Bytes.{Bytes, bytes}

-- The digits from the last on, in at most so many steps and one more.
unfoldable pub digits : ℕ → ℕ → Bytes
digits zero n = (48 + n % 10) ∷ []
digits (suc fuel) n =
    let more = digits fuel (n / 10) in if ltb n 10 then (48 + n) ∷ [] else (48 + n % 10) ∷ more

unfoldable pub itoa : ℕ → Bytes
unfolding digits
itoa n = reverse (digits n n)

itoa_ten : itoa 1207 ≡ bytes "1207"
unfolding itoa
itoa_ten = refl

-- The number that the digits spell up to an underscore.
abbrev pub read_back : Bytes → ℕ
read_back [] = 0
read_back (c ∷ cs) = let rest = read_back cs in if c == 95 then 0 else c - 48 + 10 * rest

pub read_back-digits : (fuel n : ℕ) (s : Bytes) → n ≤ fuel → read_back (digits fuel n ++ 95 ∷ s) ≡ n
unfolding digits
read_back-digits zero n s h = ground arith
read_back-digits (suc fuel) n s h =
    ground (arith, read_back-digits fuel (n / 10) s (omega (arith, h)))

pub length-digits : (width fuel n : ℕ) → n < 10 ^ suc width → length (digits fuel n) ≤ suc width
unfolding digits
length-digits width zero n h = omega arith
length-digits zero (suc fuel) n h = ground arith
length-digits (suc width) (suc fuel) n h =
    ground (arith, length-digits width fuel (n / 10) (omega (arith, h)))
