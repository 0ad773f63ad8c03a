-- ===== src/Base/Dict/Entries.antt =====
-- What holds of every entry of a map.
use Prim.Native.String.{String}
use mathlib.Core.Path.{◌≡◌, subst}
use mathlib.Core.Bool.{Bool, true, false}
use mathlib.Core.Logic.{inl, inr}
use mathlib.Core.Option.{Option, some}
use mathlib.Core.List.{[], ◌∷◌}
use native.Mathlib.Omega.{arith}
use text.Mathlib.Text.{◌==◌}
use text.Mathlib.TextEquality.{eq_iff}
use chatgpt_codex_proxy.Base.Tests.{is_some, Bool-cases}
use chatgpt_codex_proxy.Base.Dict.{
  Dict, lookup, insert, delete, delete_where, map_values, lookup-insert, lookup-delete,
  lookup-map_values,
}

module _ {ℓ κ} {V : Type ℓ} (P : String → V → Type κ) where
  abbrev pub Entries : Dict V → Type κ
  Entries [] = Unit
  Entries ((k, v) ∷ m) = P k v × Entries m

  pub Entries-insert :
      (k : String) (v : V) (m : Dict V) → P k v → Entries m → Entries (insert k v m)
  unfolding insert
  Entries-insert k v [] p h = (p, tt)
  Entries-insert k v ((j, w) ∷ m) p h = elim (Bool-cases (j == k)) [
    | inl e ↦ rw (e, insert) (p, h.1)
    | inr e ↦ rw (e, insert) (h.0, Entries-insert k v m p h.1)
  ]

  pub Entries-delete : (k : String) (m : Dict V) → Entries m → Entries (delete k m)
  unfolding delete
  Entries-delete k [] h = tt
  Entries-delete k ((j, w) ∷ m) h = elim (Bool-cases (j == k)) [
    | inl e ↦ rw (e, delete) (Entries-delete k m h.1)
    | inr e ↦ rw (e, delete) (h.0, Entries-delete k m h.1)
  ]

  pub Entries-lookup : (k : String) (m : Dict V) {v : V} → Entries m → lookup k m ≡ some v → P k v
  unfolding lookup
  Entries-lookup k [] h e = cc
  Entries-lookup k ((j, w) ∷ m) {v} h e = elim (Bool-cases (j == k)) [
    | inl t ↦ go (rw (t, lookup) at e) ((eq_iff j k).0 t)
    | inr t ↦ Entries-lookup k m h.1 (rw (t, lookup) at e)
  ]
    where
      go : Path (Option V) (some w) (some v) → j ≡ k → P k v
      go q t = subst (λ u. P k u) (cc) (subst (λ i. P i w) t h.0)

module _ {ℓ κ μ} {V : Type ℓ} (P : String → V → Type κ) (Q : String → V → Type μ) where
  pub Entries-mono :
      ((k : String) (v : V) → P k v → Q k v) → (m : Dict V) → Entries P m → Entries Q m
  Entries-mono f [] h = tt
  Entries-mono f ((k, v) ∷ m) h = (f k v h.0, Entries-mono f m h.1)

  pub Entries-map_values :
      (f : V → V)
      → ((k : String) (v : V) → P k v → Q k (f v))
      → (m : Dict V) → Entries P m
      → Entries Q (map_values f m)
  unfolding map_values
  Entries-map_values f g [] h = tt
  Entries-map_values f g ((k, v) ∷ m) h = (g k v h.0, Entries-map_values f g m h.1)

  pub Entries-delete_where :
      (gone : V → Bool)
      → ((k : String) (v : V) → P k v → gone v ≡ false → Q k v)
      → (m : Dict V) → Entries P m
      → Entries Q (delete_where gone m)
  unfolding delete_where
  Entries-delete_where gone f [] h = tt
  Entries-delete_where gone f ((k, v) ∷ m) h = elim (Bool-cases (gone v)) [
    | inl e ↦ rw (e, delete_where) (Entries-delete_where gone f m h.1)
    | inr e ↦ rw (e, delete_where) (f k v h.0 e, Entries-delete_where gone f m h.1)
  ]

-- Which keys a map has.
module _ {ℓ} {V : Type ℓ} where
  abbrev pub has : String → Dict V → Bool
  has k m = is_some (lookup k m)

  pub has-insert :
      (k j : String) (v : V) (m : Dict V) → has j m ≡ true → has j (insert k v m) ≡ true
  has-insert k j v m h = ground (arith, lookup-insert k j v m)

  pub has-insert_self : (k : String) (v : V) (m : Dict V) → has k (insert k v m) ≡ true
  has-insert_self k v m = ground (arith, lookup-insert k k v m, eq_iff k k)

  pub has-map_values : (k : String) (f : V → V) (m : Dict V) → has k (map_values f m) ≡ has k m
  has-map_values k f m = ground (arith, lookup-map_values k f m)

  pub has-delete :
      (k j : String) (m : Dict V) → (j == k) ≡ false → has j m ≡ true → has j (delete k m) ≡ true
  has-delete k j m e h = ground (arith, lookup-delete k j m, eq_iff k j, eq_iff j k)
