-- ===== src/Generation/Paging.antt =====
-- Following the cursors of Query: the pages are the filtered records, each once, in their order.
use mathlib.Core.List.{append-nil}
use chatgpt_codex_proxy.Base.{
  ℕ, zero, suc, ◌+◌, ◌-◌, ◌≡◌, ◌≤◌, ◌<◌, refl, sym, ap, ◌∙◌, Bool, true, false, none, some, List,
  [], ◌∷◌, ◌++◌, String, ltb, length, arith, inl, inr, Bool-cases, if◌then◌else◌,
}
use chatgpt_codex_proxy.Base.Int.{ℤ, pos, negsuc}
use chatgpt_codex_proxy.Base.Text.{is_empty}
use chatgpt_codex_proxy.Generation.{
  IntFormat, page, invalid_cursor, offset_of, limit_of, end_of, next_cursor, page_at, first_of,
  drop_of,
}

-- What the documentation of fmt says of the cursors: an offset that is printed is read back, and its text is not
-- empty.
pub record IsFaithful (fmt : IntFormat) : Type 0 where
  pub reads_back : (n : ℕ) → fmt.read_int (fmt.print n) ≡ some (pos n)
  pub has_text : (n : ℕ) → is_empty (fmt.print (suc n)) ≡ false

limit_of_positive : (limit : ℤ) → 1 ≤ limit_of limit
limit_of_positive (pos zero) = omega arith
limit_of_positive (pos (suc n)) = omega arith
limit_of_positive (negsuc n) = omega arith

offset_of-print :
    (fmt : IntFormat) (n : ℕ) → IsFaithful fmt → 1 ≤ n → offset_of fmt (fmt.print n) ≡ some (pos n)
offset_of-print fmt zero faithful h = absurd (omega (arith, h))
offset_of-print fmt (suc n) faithful h =
    ap (λ (b : Bool). if b then some (pos 0) else fmt.read_int (fmt.print (suc n)))
      (faithful.has_text n)
    ∙ faithful.reads_back (suc n)

end_of-above : (offset limit total : ℕ) → offset ≤ total → offset ≤ end_of offset limit total
end_of-above offset limit total h = ground arith

end_of-within : (offset limit total : ℕ) → end_of offset limit total ≤ total
end_of-within offset limit total = ground arith

end_of-moves :
    (offset limit total : ℕ)
    → 1 ≤ limit
    → ltb (end_of offset limit total) total ≡ true
    → suc offset ≤ end_of offset limit total
end_of-moves offset limit total h t = ground arith

within : (k total : ℕ) → ltb k total ≡ true → k < total
within k total h = ground arith

beyond : (k total : ℕ) → ltb k total ≡ false → total ≤ k
beyond k total h = ground arith

module _ {A : Type 0} where
  -- A client that asks for page after page, so many at most.
  unfoldable pub walk : IntFormat → ℤ → List A → ℕ → String → List A
  walk fmt limit f zero cursor = []
  walk fmt limit f (suc n) cursor = elim (page_at fmt limit f (offset_of fmt cursor)) [
    | invalid_cursor ↦ []
    | page rs next ↦ rs ++ elim next [ none ↦ [] | some c ↦ walk fmt limit f n c ]
  ]

  first_of-all : (rs : List A) (n : ℕ) → length rs ≤ n → first_of n rs ≡ rs
  first_of-all [] zero h = refl
  first_of-all [] (suc n) h = refl
  first_of-all (r ∷ rs) zero h = absurd (omega (arith, h))
  first_of-all (r ∷ rs) (suc n) h = ap (λ l. r ∷ l) (first_of-all rs n (omega (arith, h)))

  length-drop_of : (n : ℕ) (rs : List A) → length (drop_of n rs) ≡ length rs - n
  length-drop_of zero rs = omega arith
  length-drop_of (suc n) [] = omega arith
  length-drop_of (suc n) (r ∷ rs) = omega (arith, length-drop_of n rs)

  first_of-drop_of : (n : ℕ) (rs : List A) → first_of n rs ++ drop_of n rs ≡ rs
  first_of-drop_of zero rs = refl
  first_of-drop_of (suc n) [] = refl
  first_of-drop_of (suc n) (r ∷ rs) = ap (λ l. r ∷ l) (first_of-drop_of n rs)

  drop_of-nil : (n : ℕ) → Path (List A) (drop_of n []) []
  drop_of-nil zero = refl
  drop_of-nil (suc n) = refl

  drop_of-twice : (m n k : ℕ) (rs : List A) → k ≡ m + n → drop_of n (drop_of m rs) ≡ drop_of k rs
  drop_of-twice zero n k rs e = ap (λ i. drop_of i rs) (omega (arith, e))
  drop_of-twice (suc m) n zero rs e = absurd (omega (arith, e))
  drop_of-twice (suc m) n (suc k) [] e = drop_of-nil n
  drop_of-twice (suc m) n (suc k) (r ∷ rs) e = drop_of-twice m n k rs (omega (arith, e))

  -- One page, with what follows it.
  abbrev after_page : IntFormat → ℤ → List A → ℕ → ℕ → List A
  after_page fmt limit f n end = elim (next_cursor fmt end (length f)) [
    | none ↦ []
    | some c ↦ walk fmt limit f n c
  ]

  walk_once :
      (fmt : IntFormat) (limit : ℤ) (f : List A) (n offset : ℕ) (cursor : String)
      → offset_of fmt cursor ≡ some (pos offset)
      → offset ≤ length f
      → walk fmt limit f (suc n) cursor
        ≡ first_of (end_of offset (limit_of limit) (length f) - offset) (drop_of offset f)
          ++ after_page fmt limit f n (end_of offset (limit_of limit) (length f))
  unfolding walk
  walk_once fmt limit f n offset cursor e h = rw (e, (no_more (length f) offset h), walk) refl
    where
      no_more : (total offset : ℕ) → offset ≤ total → ltb total offset ≡ false
      no_more total offset h = ground arith

  -- A page and the pages after it.
  page_joined :
      (fmt : IntFormat) (limit : ℤ) (f : List A) (n offset k : ℕ)
      → offset ≤ k
      → (ltb k (length f) ≡ true → walk fmt limit f n (fmt.print k) ≡ drop_of k f)
      → first_of (k - offset) (drop_of offset f) ++ after_page fmt limit f n k ≡ drop_of offset f
  page_joined fmt limit f n offset k h more = elim (Bool-cases (ltb k (length f))) [
    | inl t ↦
        rw (t, after_page)
          (ap (λ l. first_of (k - offset) (drop_of offset f) ++ l)
              (more t ∙ sym (drop_of-twice offset (k - offset) k f (omega (arith, h))))
            ∙ first_of-drop_of (k - offset) (drop_of offset f))
    | inr t ↦
        rw (t, after_page)
          (append-nil (first_of (k - offset) (drop_of offset f))
            ∙ first_of-all (drop_of offset f) (k - offset)
                (omega (arith, length-drop_of offset f, beyond k (length f) t)))
  ]

  walk_from :
      (fmt : IntFormat) (limit : ℤ) (f : List A) (n offset : ℕ) (cursor : String)
      → IsFaithful fmt
      → offset_of fmt cursor ≡ some (pos offset)
      → offset ≤ length f
      → length f ≤ n + offset
      → walk fmt limit f (suc n) cursor ≡ drop_of offset f
  walk_from fmt limit f zero offset cursor faithful e h enough =
      let k = end_of offset (limit_of limit) (length f) in
      walk_once fmt limit f zero offset cursor e h
      ∙ page_joined fmt limit f zero offset k (end_of-above offset (limit_of limit) (length f) h)
          (λ t. absurd (
            omega (
              arith,
              within k (length f) t,
              enough,
              end_of-above offset (limit_of limit) (length f) h,
            )))
  walk_from fmt limit f (suc n) offset cursor faithful e h enough =
      let k = end_of offset (limit_of limit) (length f) in
      walk_once fmt limit f (suc n) offset cursor e h
      ∙ page_joined fmt limit f (suc n) offset k (end_of-above offset (limit_of limit) (length f) h)
          (λ t.
            let moved =
              end_of-moves offset (limit_of limit) (length f) (limit_of_positive limit) t in
            walk_from fmt limit f n k (fmt.print k) faithful
              (offset_of-print fmt k faithful (omega (arith, moved)))
              (end_of-within offset (limit_of limit) (length f)) (omega (arith, moved, enough)))

  -- If an offset that is printed is read back and its text is not empty, a client that starts
  -- without a cursor and follows the cursors of Query, over any list of filtered records and with
  -- any limit, gets every record once, in the order of the list, in at most one page more than
  -- there are records.
  pub walk-pages :
      (fmt : IntFormat) (limit : ℤ) (f : List A)
      → IsFaithful fmt
      → walk fmt limit f (suc (length f)) "" ≡ f
  walk-pages fmt limit f faithful =
      walk_from fmt limit f (length f) 0 "" faithful refl (omega arith) (omega arith)
