-- ===== src/Activity/Told.antt =====
-- The requests of a snapshot, which are sorted, make up the records of the store.
use mathlib.Core.List.{Permᴰ}
use mathlib.Core.List.Permᴰ
use text.Mathlib.Text.{◌==◌ as str_eq}
use text.Mathlib.TextEquality.{eq_iff}
use chatgpt_codex_proxy.Base.{
  ℕ, ◌≡◌, refl, sym, ap, ◌∙◌, subst, none, some, List, [], ◌∷◌, String, arith, if◌then◌else◌,
}
use chatgpt_codex_proxy.Base.Dict.{Dict, lookup, insert, lookup-insert, values}
use chatgpt_codex_proxy.Base.Dict.Entries.{Entries}
use chatgpt_codex_proxy.Base.Dict.Keys.{IsApart}
use chatgpt_codex_proxy.Base.Sort.{sort-perm}
use chatgpt_codex_proxy.Activity.Records.{ActivityRecord}
use chatgpt_codex_proxy.Activity.{Store, snapshot_locked, latest_first}
use chatgpt_codex_proxy.Activity.Moves.{OwnKey}

-- The requests by their ids.
unfoldable pub by_id : List ActivityRecord → Dict ActivityRecord
unfolding insert
by_id [] = []
by_id (r ∷ rs) = insert r.id r (by_id rs)

-- Two maps that answer alike.
abbrev pub SameMap : Dict ActivityRecord → Dict ActivityRecord → Type 0
SameMap a b = (key : String) → lookup key a ≡ lookup key b

abbrev HasIds : List ActivityRecord → Type 0
HasIds [] = Unit
HasIds (r ∷ rs) = (lookup r.id (by_id rs) ≡ none) × HasIds rs

by_id-values : (m : Dict ActivityRecord) → Entries OwnKey m → SameMap (by_id (values m)) m
unfolding by_id lookup
by_id-values [] h key = refl
by_id-values ((k, r) ∷ m) h key =
    lookup-insert r.id key r (by_id (values m)) ∙ ground (arith, h.0, by_id-values m h.1 key)

values-HasIds : (m : Dict ActivityRecord) → Entries OwnKey m → IsApart m → HasIds (values m)
values-HasIds [] h a = tt
values-HasIds ((k, r) ∷ m) h a =
    (by_id-values m h.1 r.id ∙ ap (λ i. lookup i m) h.0 ∙ a.0, values-HasIds m h.1 a.1)

abbrev Alike : List ActivityRecord → List ActivityRecord → Type 0
Alike xs ys = HasIds ys × SameMap (by_id xs) (by_id ys)

cons-Alike :
    (r : ActivityRecord) (xs ys : List ActivityRecord)
    → lookup r.id (by_id xs) ≡ none
    → Alike xs ys
    → Alike (r ∷ xs) (r ∷ ys)
unfolding by_id
cons-Alike r xs ys fresh (ids, same) = (
  (sym (same r.id) ∙ fresh, ids),
  λ key.
      lookup-insert r.id key r (by_id xs)
      ∙ ap (λ o. if str_eq r.id key then some r else o) (same key)
      ∙ sym (lookup-insert r.id key r (by_id ys)),
)

swap-Alike :
    (a b : ActivityRecord) (rs : List ActivityRecord)
    → HasIds (a ∷ b ∷ rs)
    → Alike (a ∷ b ∷ rs) (b ∷ a ∷ rs)
unfolding by_id
swap-Alike a b rs (other, (fresh, ids)) = (
  (
    ground (
      arith,
      apart,
      fresh,
      lookup-insert a.id b.id a (by_id rs),
      eq_iff a.id b.id,
      eq_iff b.id a.id,
    ),
    (ground (arith, apart, eq_iff a.id b.id, eq_iff b.id a.id), ids),
  ),
  λ key. ground (
    arith,
    apart,
    eq_iff a.id b.id,
    eq_iff b.id a.id,
    eq_iff a.id key,
    eq_iff b.id key,
    lookup-insert a.id key a (insert b.id b (by_id rs)),
    lookup-insert b.id key b (by_id rs),
    lookup-insert b.id key b (insert a.id a (by_id rs)),
    lookup-insert a.id key a (by_id rs),
  ),
)
  where
    apart : (if str_eq b.id a.id then some b else lookup a.id (by_id rs)) ≡ none
    apart = sym (lookup-insert b.id a.id b (by_id rs)) ∙ other

perm-Alike : {xs ys : List ActivityRecord} → Permᴰ xs ys → HasIds xs → Alike xs ys
perm-Alike Permᴰ.nil h = (tt, λ key. refl)
perm-Alike (Permᴰ.cons {a} {b} {l₁} {l₂} e p) h =
    subst (λ c. Alike (a ∷ l₁) (c ∷ l₂)) e (cons-Alike a l₁ l₂ h.0 (perm-Alike p h.1))
perm-Alike (Permᴰ.swap {a} {b} {a'} {b'} {l} e e') h =
    subst (λ c. Alike (a ∷ b ∷ l) (c ∷ b' ∷ l)) e'
      (subst (λ c. Alike (a ∷ b ∷ l) (b ∷ c ∷ l)) e (swap-Alike a b l h))
perm-Alike (Permᴰ.trans p q) h =
    let (mid, same) = perm-Alike p h in
    let (last, alike) = perm-Alike q mid in (last, λ key. same key ∙ alike key)

-- The requests of a snapshot answer for every id as the records do.
pub snapshot-SameMap :
    (emitted : ℕ) (s : Store)
    → Entries OwnKey s.records
    → IsApart s.records
    → SameMap (by_id (snapshot_locked emitted s).1.requests) s.records
unfolding snapshot_locked
snapshot-SameMap emitted s h a key =
    let (_, same) =
      perm-Alike (Permᴰ.symm (sort-perm latest_first (values s.records)))
        (values-HasIds s.records h a) in
    sym (same key) ∙ by_id-values s.records h key
