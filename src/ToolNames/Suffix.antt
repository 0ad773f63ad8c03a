-- ===== src/ToolNames/Suffix.antt =====
-- The search for a suffix ends: it tries more candidates than there are used names, all different.
use mathlib.Core.List.{reverse, reverse-append, reverse-cons, reverse-reverse, append_assoc}
use chatgpt_codex_proxy.Base.{
  if_keeps, leb→le, ℕ, zero, suc, ◌+◌, ◌-◌, ◌^◌, ◌≡◌, ◌≢◌, ◌≤◌, ◌<◌, refl, sym, ap, ◌∙◌, true,
  false, Option, none, some, List, [], ◌∷◌, ◌++◌, length, leb, if◌then◌else◌, is_some, arith, inl,
  inr, Bool-cases, length-append,
}
use chatgpt_codex_proxy.Base.Bytes.{Bytes, bytes, same, same_iff, take, length-take}
use chatgpt_codex_proxy.Base.Bytes.Decimal.{
  digits, itoa, read_back, read_back-digits, length-digits,
}
use chatgpt_codex_proxy.ToolNames.{
  tool_name_candidate, after_last_separator, max_tool_name_length, is_used, suffix, suffixed,
  free_suffix, free_candidate,
}

length-reverse : (s : Bytes) → length (reverse s) ≡ length s
length-reverse [] = refl
length-reverse (c ∷ s) =
    ground
      (arith, ap length (reverse-cons c s), length-append (reverse s) (c ∷ []), length-reverse s)

-- The number of a suffix is read off the end of a candidate.
number_at_end : (front : Bytes) (number : ℕ) → read_back (reverse (front ++ suffix number)) ≡ number
unfolding itoa
number_at_end front number =
    ap read_back turned ∙ read_back-digits number number (reverse front) (omega arith)
  where
    turned :
        reverse (front ++ 95 ∷ reverse (digits number number))
        ≡ digits number number ++ 95 ∷ reverse front
    turned = rw (
      reverse-append front (95 ∷ reverse (digits number number)),
      reverse-cons 95 (reverse (digits number number)),
      reverse-reverse (digits number number),
      append_assoc (digits number number) (95 ∷ []) (reverse front),
    )

length-suffix : (number : ℕ) → number < 10 ^ 63 → length (suffix number) ≤ 64
unfolding itoa
length-suffix number h =
    omega (arith, length-digits 62 number number h, length-reverse (digits number number))

abbrev candidate : Bytes → ℕ → Bytes
candidate base number = take (max_tool_name_length - length (suffix number)) base ++ suffix number

candidate_differs :
    (base : Bytes) (m n : ℕ) → m ≢ n → same (candidate base m) (candidate base n) ≡ false
candidate_differs base m n h = elim (Bool-cases (same (candidate base m) (candidate base n))) [
  | inl t ↦ absurd (
      h (
        sym (number_at_end (front m) m)
        ∙ ap (λ s. read_back (reverse s)) ((same_iff _ _).0 t)
        ∙ number_at_end (front n) n))
  | inr t ↦ t
]
  where
    front : ℕ → Bytes
    front k = take (max_tool_name_length - length (suffix k)) base

suffixed-some :
    (base : Bytes) (number : ℕ)
    → number < 10 ^ 63
    → suffixed base number ≡ some (candidate base number)
unfolding suffixed
suffixed-some base number h = ground (arith, length-suffix number h)

-- A used name crossed out.
drop_used : Bytes → List Bytes → List Bytes
drop_used name [] = []
drop_used name (n ∷ ns) = let rest = drop_used name ns in if same n name then ns else n ∷ rest

length-drop_used :
    (name : Bytes) (used : List Bytes)
    → is_used name used ≡ true
    → suc (length (drop_used name used)) ≡ length used
unfolding drop_used is_used
length-drop_used name [] h = cc
length-drop_used name (n ∷ ns) h = ground (arith, length-drop_used name ns)

is_used-drop_used :
    (name other : Bytes) (used : List Bytes)
    → same name other ≡ false
    → is_used other (drop_used name used) ≡ is_used other used
unfolding drop_used is_used
is_used-drop_used name other [] h = refl
is_used-drop_used name other (n ∷ ns) h = ground (
  arith,
  is_used-drop_used name other ns h,
  same_iff n name,
  same_iff n other,
  same_iff name other,
)

free_suffix_step :
    (base : Bytes) (used : List Bytes) (fuel number : ℕ)
    → number < 10 ^ 63
    → free_suffix base used (suc fuel) number ≡ (
        if is_used (candidate base number) used
        then free_suffix base used fuel (number + 1)
        else some (candidate base number))
unfolding free_suffix
free_suffix_step base used fuel number h = rw (free_suffix, suffixed-some base number h)

-- Two lists that agree on the candidates still to come.
free_suffix-agree :
    (base : Bytes) (used used' : List Bytes) (fuel number : ℕ)
    → number + fuel < 10 ^ 63
    → ((m : ℕ) → number ≤ m → is_used (candidate base m) used ≡ is_used (candidate base m) used')
    → free_suffix base used fuel number ≡ free_suffix base used' fuel number
unfolding free_suffix
free_suffix-agree base used used' zero number b h = refl
free_suffix-agree base used used' (suc fuel) number b h = rw (
  free_suffix_step base used fuel number (omega (arith, b)),
  free_suffix_step base used' fuel number (omega (arith, b)),
  h number (omega arith),
  free_suffix-agree base used used' fuel (number + 1) (omega (arith, b))
      (λ m l. h m (omega (arith, l))),
)

-- With more steps than used names the search finds one.
pub free_suffix_finds :
    (base : Bytes) (used : List Bytes) (fuel number : ℕ)
    → length used ≤ fuel
    → suc (number + fuel) < 10 ^ 63
    → is_some (free_suffix base used (suc fuel) number) ≡ true
free_suffix_finds base used zero number l b =
    elim (Bool-cases (is_used (candidate base number) used)) [
      | inr e ↦ rw (free_suffix_step base used zero number (omega (arith, b)), e) refl
      | inl e ↦ absurd (omega (arith, l, length-drop_used (candidate base number) used e))
    ]
free_suffix_finds base used (suc fuel) number l b =
    let less = drop_used (candidate base number) used in
    elim (Bool-cases (is_used (candidate base number) used)) [
      | inr e ↦ rw (free_suffix_step base used (suc fuel) number (omega (arith, b)), e) refl
      | inl e ↦
          rw (free_suffix_step base used (suc fuel) number (omega (arith, b)), e)
            (ap is_some (
                free_suffix-agree base used less (suc fuel) (number + 1) (omega (arith, b)) (λ m k.
                  sym (
                    is_used-drop_used (candidate base number) (candidate base m) used
                      (candidate_differs base number m (λ q. omega (arith, q, k))))))
              ∙ free_suffix_finds base less fuel (number + 1)
                  (omega (arith, l, length-drop_used (candidate base number) used e))
                  (omega (arith, b)))
    ]

length-suffixed :
    (base : Bytes) (number : ℕ) (c : Bytes) → suffixed base number ≡ some c → length c ≤ 64
unfolding suffixed
length-suffixed base number c h = ground (
  arith,
  length-append (take (max_tool_name_length - length (suffix number)) base) (suffix number),
  length-take (max_tool_name_length - length (suffix number)) base,
)

-- What the search finds is free, and short enough.
free_suffix_free :
    (base : Bytes) (used : List Bytes) (fuel number : ℕ) (c : Bytes)
    → free_suffix base used fuel number ≡ some c
    → (is_used c used ≡ false) × (length c ≤ 64)
unfolding free_suffix
free_suffix_free base used zero number c h = cc
free_suffix_free base used (suc fuel) number c h =
    ground (arith, length-suffixed base number c, free_suffix_free base used fuel (number + 1) c)

pub record IsFree (used : List Bytes) (c : Bytes) : Type 0 where
  pub unused : is_used c used ≡ false
  pub short : length c ≤ 64

pub free_candidate-IsFree :
    (name : Bytes) (used : List Bytes) (c : Bytes)
    → length name ≤ 64
    → free_candidate name used ≡ some c
    → IsFree used c
unfolding free_candidate
free_candidate-IsFree name used c l h = record {
  unused = ground (arith, free_suffix_free name used (suc (length used)) 1 c);
  short = ground (arith, free_suffix_free name used (suc (length used)) 1 c);
}

-- While there are fewer than 10 ^ 63 - 2 used names, there is a free name for every candidate.
pub free_candidate_found :
    (name : Bytes) (used : List Bytes)
    → length used + 2 < 10 ^ 63
    → is_some (free_candidate name used) ≡ true
unfolding free_candidate
free_candidate_found name used b =
    if_keeps (λ (t : Option Bytes). is_some t ≡ true) (is_used name used)
      (λ _. free_suffix_finds name used (length used) 1 (omega arith) (omega (arith, b)))
      (λ _. refl)

abbrev Fits : Bytes → Type 0
Fits s = length s ≤ 64

after_mcp-Fits :
    (name : Bytes) (rest : Option Bytes)
    → Fits (elim rest [ some t ↦ take 64 (bytes "mcp__" ++ t) | none ↦ take 64 name ])
after_mcp-Fits name (some t) = length-take 64 (bytes "mcp__" ++ t)
after_mcp-Fits name none = length-take 64 name

pub length-tool_name_candidate : (name : Bytes) → length (tool_name_candidate name) ≤ 64
unfolding tool_name_candidate
length-tool_name_candidate name =
    if_keeps Fits (leb (length name) 64) (λ h. leb→le (length name) 64 h)
      (λ _.
        if_keeps Fits (same (take 5 name) (bytes "mcp__"))
          (λ _. after_mcp-Fits name (after_last_separator name)) (λ _. length-take 64 name))
