-- ===== src/Base/Bytes.antt =====
-- Go strings where their bytes count: `len`, slices, `strconv.Itoa` and `strings.TrimSpace` on the UTF-8
-- encoding.
pub mod Decimal
use Prim.Native.Char.{code}
use Prim.Native.String.{String}
use Prim.Native.Nat.{ℕ, zero, suc, ◌+◌, ◌-◌, ◌*◌, ◌/◌, ◌%◌, ◌≤◌, ◌<◌}
use mathlib.Core.Path.{◌≡◌, refl}
use mathlib.Core.Bool.{Bool, true, false, ◌||◌, ◌&&◌}
use mathlib.Core.Option.{Option, none, some}
use mathlib.Core.Logic.{◌↔◌, inl, inr}
use mathlib.Core.List.{List, [], ◌∷◌, ◌++◌, reverse}
use native.Mathlib.Omega.{arith}
use chatgpt_codex_proxy.Base.Tests.{ltb, leb, ◌==◌, if◌then◌else◌, Option-cases}
use chatgpt_codex_proxy.Base.Lists.{length}

abbrev pub Bytes : Type 0
Bytes = List ℕ

-- A text of ASCII characters.
abbrev pub bytes : String → Bytes
bytes String.[] = []
bytes (String.◌∷◌ c s) = code c ∷ bytes s

unfoldable pub same : Bytes → Bytes → Bool
same [] [] = true
same [] (_ ∷ _) = false
same (_ ∷ _) [] = false
same (a ∷ s) (b ∷ t) = (a == b) && same s t

pub same_iff : (a b : Bytes) → (same a b ≡ true) ↔ (a ≡ b)
unfolding same
same_iff [] [] = ground arith
same_iff [] (b ∷ t) = ground arith
same_iff (a ∷ s) [] = ground arith
same_iff (a ∷ s) (b ∷ t) = ground (arith, same_iff s t)

-- `s[:n]`
unfoldable pub take : ℕ → Bytes → Bytes
take zero s = []
take (suc n) [] = []
take (suc n) (c ∷ s) = c ∷ take n s

pub length-take : (n : ℕ) (s : Bytes) → length (take n s) ≤ n
unfolding take
length-take zero s = omega arith
length-take (suc n) [] = omega arith
length-take (suc n) (c ∷ s) = omega (arith, length-take n s)

-- The encoding of a blank in two bytes or in three.
abbrev blank_two : ℕ → ℕ → Bool
blank_two a b = a == 0xc2 && (b == 0x85 || b == 0xa0)

abbrev blank_three : ℕ → ℕ → ℕ → Bool
blank_three a b c =
    (a == 0xe1 && (b == 0x9a && c == 0x80))
    || ((a == 0xe2
          && ((b == 0x80 && ((leb 0x80 c && leb c 0x8a) || (c == 0xa8 || (c == 0xa9 || c == 0xaf))))
              || (b == 0x81 && c == 0x9f)))
        || (a == 0xe3 && (b == 0x80 && c == 0x80)))

abbrev blank_one : ℕ → Bool
blank_one c = (leb 9 c && leb c 13) || c == 32

-- What follows a blank at the front.
abbrev pub skip_blank : Bytes → Option Bytes
skip_blank [] = none
skip_blank (a ∷ []) = if blank_one a then some [] else none
skip_blank (a ∷ b ∷ []) =
    if blank_one a then some (b ∷ []) else if blank_two a b then some [] else none
skip_blank (a ∷ b ∷ c ∷ s) =
    if blank_one a
    then some (b ∷ c ∷ s)
    else if blank_two a b
    then some (c ∷ s)
    else if blank_three a b c
    then some s
    else none

-- The same from the end, on the reversed bytes.
abbrev pub skip_blank_back : Bytes → Option Bytes
skip_blank_back [] = none
skip_blank_back (a ∷ []) = if blank_one a then some [] else none
skip_blank_back (b ∷ a ∷ []) =
    if blank_one b then some (a ∷ []) else if blank_two a b then some [] else none
skip_blank_back (c ∷ b ∷ a ∷ s) =
    if blank_one c
    then some (b ∷ a ∷ s)
    else if blank_two b c
    then some (a ∷ s)
    else if blank_three a b c
    then some s
    else none

unfoldable pub skip_all : (Bytes → Option Bytes) → ℕ → Bytes → Bytes
skip_all skip zero s = s
skip_all skip (suc n) s = elim (skip s) [ none ↦ s | some t ↦ skip_all skip n t ]

-- `strings.TrimSpace`: a blank has a byte or more, so as many steps as bytes are enough.
unfoldable pub trim : Bytes → Bytes
unfolding skip_all
trim s =
    let front = skip_all skip_blank (length s) s in
    reverse (skip_all skip_blank_back (length front) (reverse front))

skip_blank-length : (s t : Bytes) → skip_blank s ≡ some t → length t < length s
skip_blank-length [] t h = cc
skip_blank-length (a ∷ []) t h = ground arith
skip_blank-length (a ∷ b ∷ []) t h = ground arith
skip_blank-length (a ∷ b ∷ c ∷ s) t h = ground arith

skip_blank_back-length : (s t : Bytes) → skip_blank_back s ≡ some t → length t < length s
skip_blank_back-length [] t h = cc
skip_blank_back-length (a ∷ []) t h = ground arith
skip_blank_back-length (a ∷ b ∷ []) t h = ground arith
skip_blank_back-length (a ∷ b ∷ c ∷ s) t h = ground arith

-- With as many steps as bytes there is nothing left to skip.
pub skip_all_enough :
    (skip : Bytes → Option Bytes) (n : ℕ) (s : Bytes)
    → ((u t : Bytes) → skip u ≡ some t → length t < length u)
    → length s ≤ n
    → skip (skip_all skip n s) ≡ none
unfolding skip_all
skip_all_enough skip zero [] shorter h = elim (Option-cases (skip [])) [
  | inl e ↦ e
  | inr (t, e) ↦ absurd (omega (arith, shorter [] t e))
]
skip_all_enough skip zero (c ∷ s) shorter h = absurd (omega (arith, h))
skip_all_enough skip (suc n) s shorter h = elim (Option-cases (skip s)) [
  | inl e ↦ rw (e, skip_all) e
  | inr (t, e) ↦
      rw (e, skip_all) (skip_all_enough skip n t shorter (omega (arith, h, shorter s t e)))
]

trim_padded : trim (bytes " a b\n") ≡ bytes "a b"
unfolding trim
trim_padded = refl
