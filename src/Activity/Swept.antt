-- ===== src/Activity/Swept.antt =====
-- What a sweep of the expired records does to each key.
use text.Mathlib.Text.{◌==◌ as str_eq}
use text.Mathlib.TextEquality.{eq_iff}
use text.Mathlib.TextPositions.{eq_refl}
use chatgpt_codex_proxy.Base.{
  ℕ, ◌≡◌, refl, sym, ap, ◌∙◌, subst, Bool, true, Option, none, some, List, [], ◌∷◌, String,
  if_keeps, Bool-cases, ◌⊎◌, inl, inr, arith, if◌then◌else◌,
}
use chatgpt_codex_proxy.Base.Dict.{Dict, lookup, delete, lookup-delete}
use chatgpt_codex_proxy.Base.Dict.Entries.{Entries, Entries-mono}
use chatgpt_codex_proxy.Base.Dict.Keys.{IsApart}
use chatgpt_codex_proxy.Activity.Records.{ActivityRecord}
use chatgpt_codex_proxy.Activity.{Store, Clock, publish, drop_record, has_expired, prune_among}

abbrev pub Slot : Type 0
Slot = Option ActivityRecord

-- What a sweep does to a key.
abbrev pub Swept : ℕ → ℕ → Slot → Slot → Type 0
Swept now retention before after =
    (after ≡ before)
    ⊎ ((r : ActivityRecord) × (before ≡ some r)
        × (has_expired now retention r.ended_at ≡ true)
        × (after ≡ none))

-- The entries that a sweep has still to visit are those of the map.
abbrev pub Visits : Dict ActivityRecord → List (String × ActivityRecord) → Type 0
Visits m = Entries (λ key r. lookup key m ≡ some r)

Visits-apart :
    (id : String) (m : Dict ActivityRecord) (rest : Dict ActivityRecord)
    → lookup id rest ≡ none
    → Visits m rest
    → Visits (delete id m) rest
unfolding lookup
Visits-apart id m [] e h = tt
Visits-apart id m ((key, r) ∷ rest) e h = elim (Bool-cases (str_eq key id)) [
  | inl t ↦ absurd (ground (arith, e))
  | inr t ↦ (
    ground (arith, lookup-delete id key m, h.0, eq_iff key id, eq_iff id key),
    Visits-apart id m rest (rw (t, lookup) at e) h.1,
  )
]

Swept-none :
    (now retention : ℕ) (before after : Slot)
    → before ≡ none
    → Swept now retention before after
    → after ≡ none
Swept-none now retention before after e (inl q) = q ∙ e
Swept-none now retention before after e (inr (r, q, _, _)) = absurd (cc)

pub prune_among-Swept :
    (key : String) (now : ℕ) (clock : Clock) (entries : Dict ActivityRecord) (s : Store)
    → IsApart entries
    → Visits s.records entries
    → Swept now s.terminal_retention
        (lookup key s.records)
        (lookup key (prune_among now clock entries s).records)
unfolding prune_among publish
prune_among-Swept key now clock [] s apart h = inl refl
prune_among-Swept key now clock ((id, r) ∷ rest) s apart h =
    if_keeps
      (λ (u : Store). Swept now s.terminal_retention (lookup key s.records) (lookup key u.records))
      (has_expired now s.terminal_retention r.ended_at)
      (λ over. dropped over (
        prune_among-Swept key now clock rest (drop_record clock id s) apart.1
          (Visits-apart id s.records rest apart.0 h.1)))
      (λ _. prune_among-Swept key now clock rest s apart.1 h.1)
  where
    dropped :
        has_expired now s.terminal_retention r.ended_at ≡ true
        → Swept now s.terminal_retention
            (lookup key (delete id s.records))
            (lookup key (prune_among now clock rest (drop_record clock id s)).records)
        → Swept now s.terminal_retention
            (lookup key s.records)
            (lookup key (prune_among now clock rest (drop_record clock id s)).records)
    dropped over later = elim (Bool-cases (str_eq id key)) [
      | inl t ↦ inr (
        r,
        ap (λ i. lookup i s.records) (sym ((eq_iff id key).0 t)) ∙ h.0,
        over,
        Swept-none now s.terminal_retention (lookup key (delete id s.records))
            (lookup key (prune_among now clock rest (drop_record clock id s)).records)
            (ground (arith, lookup-delete id key s.records)) later,
      )
      | inr t ↦
          subst
            (λ o.
              Swept now s.terminal_retention o
                (lookup key (prune_among now clock rest (drop_record clock id s)).records))
            (lookup-delete id key s.records
              ∙ ap (λ (b : Bool). if b then none else lookup key s.records) t)
            later
    ]

pub own_entries : (m : Dict ActivityRecord) → IsApart m → Visits m m
unfolding lookup
own_entries [] apart = tt
own_entries ((id, r) ∷ m) apart = (
  ground (arith, eq_refl id),
  Entries-mono (λ key x. lookup key m ≡ some x) (λ key x. lookup key ((id, r) ∷ m) ≡ some x)
      (λ key x q. ground (arith, q, apart.0, eq_iff id key)) m (own_entries m apart.1),
)
