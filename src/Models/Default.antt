-- ===== src/Models/Default.antt =====
-- The model that an account gets where a request names none.
use chatgpt_codex_proxy.Base.{
  ◌≡◌, refl, subst, Bool, true, false, ◌&&◌, not, Option, none, some, ◌⊎◌, inl, inr, String, List,
  [], ◌∷◌, arith, Bool-cases, Option-cases, if_keeps, All,
}
use chatgpt_codex_proxy.Base.Text.{trim_space, is_empty}
use chatgpt_codex_proxy.Accounts.Types.{Record}
use chatgpt_codex_proxy.Models.{
  Entry, Catalog, supports_locked, first_entry, id_or, resolve_locked, resolve_default,
}

-- No entry of a list passes a test.
abbrev pub NoneOf : (Entry → Bool) → List Entry → Type 0
NoneOf test es = All (λ e. test e ≡ false) es

first_entry-found :
    (test : Entry → Bool) (es : List Entry) (e : Entry)
    → first_entry test es ≡ some e
    → test e ≡ true
unfolding first_entry
first_entry-found test [] e h = absurd (cc h)
first_entry-found test (x ∷ es) e h = elim (Bool-cases (test x)) [
  | inl t ↦ subst (λ u. test u ≡ true) (same (rw (t, first_entry) at h)) t
  | inr t ↦ first_entry-found test es e (rw (t, first_entry) at h)
]
  where
    same : Path (Option Entry) (some x) (some e) → x ≡ e
    same q = cc

first_entry-none :
    (test : Entry → Bool) (es : List Entry) → first_entry test es ≡ none → NoneOf test es
unfolding first_entry
first_entry-none test [] h = tt
first_entry-none test (x ∷ es) h = elim (Bool-cases (test x)) [
  | inl t ↦ absurd (cc (rw (t, first_entry) at h))
  | inr t ↦ (t, first_entry-none test es (rw (t, first_entry) at h))
]

-- The account has the model, or it has none that is shown or built in, and the configured one is
-- what is left.
abbrev pub IsDefault : Record → String → Catalog → String → Type 0
IsDefault r configured c model_id =
    (supports_locked r model_id c ≡ true)
    ⊎ ((model_id ≡ configured)
        × NoneOf (λ e. supports_locked r e.id c) c.visible
        × NoneOf (λ e. supports_locked r e.id c) c.bootstrap)

or_later :
    (r : Record) (configured : String) (c : Catalog) (test : Entry → Bool) (es : List Entry)
    (later : String)
    → ((e : Entry) → test e ≡ true → supports_locked r e.id c ≡ true)
    → (NoneOf test es → IsDefault r configured c later)
    → IsDefault r configured c (id_or (first_entry test es) later)
or_later r configured c test es later has_it next = elim (Option-cases (first_entry test es)) [
  | inl q ↦ rw q (next (first_entry-none test es q))
  | inr (e, q) ↦ rw q (inl (has_it e (first_entry-found test es e q)))
]

second : (a b : Bool) → (a && b) ≡ true → b ≡ true
second a b k = ground arith

-- ResolveDefaultForRecord gives a model that the account has, or else the configured one without
-- its outer blanks, and then the account has none of the models that are shown and none of those
-- that are built in.
pub resolve_default-IsDefault :
    (r : Record) (configured : String) (c : Catalog)
    → IsDefault r (trim_space configured) c (resolve_default r configured c)
unfolding resolve_default resolve_locked
resolve_default-IsDefault r configured c =
    if_keeps (IsDefault r (trim_space configured) c)
      (not (is_empty (trim_space configured)) && supports_locked r (trim_space configured) c)
      (λ h. inl (second _ _ h))
      (λ _.
        or_later r (trim_space configured) c _ c.visible _ (λ e h. second e.is_default _ h)
          (λ _.
            or_later r (trim_space configured) c _ c.visible _ (λ e h. h)
              (λ shown.
                or_later r (trim_space configured) c _ c.bootstrap (trim_space configured)
                  (λ e h. h) (λ built_in. inr (refl, shown, built_in)))))
