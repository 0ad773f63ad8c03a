-- ===== src/Generation/Lost.antt =====
-- What the filter of Query loses: it writes the records that pass, from the newest on, to the front of the array that
-- it still reads.
use text.Mathlib.Text.{◌==◌ as str_eq}
use chatgpt_codex_proxy.Base.{
  ℕ, zero, suc, ◌+◌, ◌≡◌, refl, ap, ◌∙◌, subst, Bool, true, false, Option, some, List, [], ◌∷◌,
  ◌++◌, All, length, length-append, get_elem?, set, arith, Option-cases, inl, inr, if_keeps,
}
use chatgpt_codex_proxy.Generation.{GenerationRecord, Query, match_query, scan, first_of, filtered}

module _ {A : Type 0} (P : A → Type 0) where
  All-set : (rs : List A) (n : ℕ) (r : A) → P r → All P rs → All P (set rs n r)
  All-set [] n r h k = tt
  All-set (x ∷ rs) zero r h k = (h, k.1)
  All-set (x ∷ rs) (suc n) r h k = (k.0, All-set rs n r h k.1)

  All-get_elem? : (rs : List A) (n : ℕ) (r : A) → get_elem? rs n ≡ some r → All P rs → P r
  All-get_elem? [] n r e h = absurd (cc e)
  All-get_elem? (x ∷ rs) zero r e h = same e
    where
      same : Path (Option A) (some x) (some r) → P r
      same q = subst P (cc) h.0
  All-get_elem? (x ∷ rs) (suc n) r e h = All-get_elem? rs n r e h.1

  -- The loop only moves records about.
  scan-All : (test : A → Bool) (i : ℕ) (rs : List A) (n : ℕ) → All P rs → All P (scan test i rs n).0
  unfolding scan
  scan-All test zero rs n h = h
  scan-All test (suc i) rs n h = elim (Option-cases (get_elem? rs i)) [
    | inl e ↦ rw (e, scan) (scan-All test i rs n h)
    | inr (r, e) ↦
        rw (e, scan)
          (if_keeps (λ (t : List A × ℕ). All P t.0) (test r)
            (λ _.
              scan-All test i (set rs n r) (n + 1) (All-set rs n r (All-get_elem? rs i r e h) h))
            (λ _. scan-All test i rs n h))
  ]

  All-first_of : (n : ℕ) (rs : List A) → All P rs → All P (first_of n rs)
  All-first_of zero rs h = tt
  All-first_of (suc n) [] h = tt
  All-first_of (suc n) (r ∷ rs) h = (h.0, All-first_of n rs h.1)

  All-last : (ys : List A) (y : A) → All P (ys ++ y ∷ []) → P y
  All-last [] y h = h.0
  All-last (x ∷ ys) y h = All-last ys y h.1

module _ {A : Type 0} where
  get_elem?-last : (ys : List A) (y : A) → get_elem? (ys ++ y ∷ []) (length ys) ≡ some y
  get_elem?-last [] y = refl
  get_elem?-last (x ∷ ys) y = get_elem?-last ys y

  -- The newest record takes the oldest one's place before that is read.
  pub filtered-All :
      (P : A → Type 0) (test : A → Bool) (oldest : A) (ys : List A) (newest : A)
      → test newest ≡ true
      → All P (ys ++ newest ∷ [])
      → All P (filtered test (oldest ∷ ys ++ newest ∷ []))
  unfolding filtered
  filtered-All P test oldest ys newest passed h =
      All-first_of P _ _ (by_length (length (ys ++ newest ∷ [])) (length-append ys (newest ∷ [])))
    where
      next : (n : ℕ) → n ≡ length ys + 1 → n ≡ suc (length ys)
      next n e = omega (arith, e)

      found : (n : ℕ) → n ≡ length ys + 1 → get_elem? (oldest ∷ ys ++ newest ∷ []) n ≡ some newest
      found n e = ap (get_elem? (oldest ∷ ys ++ newest ∷ [])) (next n e) ∙ get_elem?-last ys newest

      by_length :
          (n : ℕ) → n ≡ length ys + 1 → All P (scan test (suc n) (oldest ∷ ys ++ newest ∷ []) 0).0
      by_length n e =
          rw (found n e, passed, scan)
            (scan-All P test n (newest ∷ ys ++ newest ∷ []) (0 + 1) (All-last P ys newest h, h))

-- A record of another id.
abbrev pub IsOther : GenerationRecord → GenerationRecord → Type 0
IsOther r x = str_eq x.id r.id ≡ false

-- If the newest record of a day of two records or more passes the filter of Query, and no record
-- but the oldest has the oldest one's id, the filtered records do not have it, whether it passes
-- the filter or not.
pub filtered_without_oldest :
    (q : Query) (oldest : GenerationRecord) (ys : List GenerationRecord) (newest : GenerationRecord)
    → match_query q newest ≡ true
    → All (IsOther oldest) (ys ++ newest ∷ [])
    → All (IsOther oldest) (filtered (match_query q) (oldest ∷ ys ++ newest ∷ []))
filtered_without_oldest q oldest ys newest passed h =
    filtered-All (IsOther oldest) (match_query q) oldest ys newest passed h
