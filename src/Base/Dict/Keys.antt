-- ===== src/Base/Dict/Keys.antt =====
-- Maps in which no key stands twice, as every Go map is; each operation leaves them so.
use Prim.Native.String.{String}
use mathlib.Core.Path.{◌≡◌, refl, subst}
use mathlib.Core.Bool.{Bool}
use mathlib.Core.Logic.{inl, inr}
use mathlib.Core.Option.{some, none}
use mathlib.Core.List.{[], ◌∷◌}
use native.Mathlib.Omega.{arith}
use text.Mathlib.Text.{◌==◌}
use text.Mathlib.TextEquality.{eq_iff}
use chatgpt_codex_proxy.Base.Tests.{Bool-cases, if◌then◌else◌}
use chatgpt_codex_proxy.Base.Dict.{
  Dict, lookup, insert, delete, delete_where, lookup-insert, lookup-delete,
}

module _ {ℓ} {V : Type ℓ} where
  abbrev pub IsApart : Dict V → Type ℓ
  IsApart [] = Unit
  IsApart ((k, v) ∷ m) = (lookup k m ≡ none) × IsApart m

  pub insert-IsApart : (k : String) (v : V) (m : Dict V) → IsApart m → IsApart (insert k v m)
  unfolding insert lookup
  insert-IsApart k v [] h = (refl, tt)
  insert-IsApart k v ((j, w) ∷ m) h = elim (Bool-cases (j == k)) [
    | inl e ↦ rw (e, insert) (subst (λ i. lookup i m ≡ none) ((eq_iff j k).0 e) h.0, h.1)
    | inr e ↦
        rw (e, insert)
          (
            ground (arith, lookup-insert k j v m, eq_iff k j, eq_iff j k, h.0),
            insert-IsApart k v m h.1,
          )
  ]

  pub lookup-delete_where :
      (gone : V → Bool) (k : String) (m : Dict V)
      → IsApart m
      → lookup k (delete_where gone m)
        ≡ elim (lookup k m) [ none ↦ none | some v ↦ if gone v then none else some v ]
  unfolding lookup delete_where
  lookup-delete_where gone k [] h = refl
  lookup-delete_where gone k ((j, w) ∷ m) h =
      ground (arith, lookup-delete_where gone k m h.1, eq_iff j k, h.0)

  pub delete_where-IsApart :
      (gone : V → Bool) (m : Dict V) → IsApart m → IsApart (delete_where gone m)
  unfolding delete_where
  delete_where-IsApart gone [] h = tt
  delete_where-IsApart gone ((j, w) ∷ m) h = elim (Bool-cases (gone w)) [
    | inl e ↦ rw (e, delete_where) (delete_where-IsApart gone m h.1)
    | inr e ↦
        rw (e, delete_where)
          (ground (arith, lookup-delete_where gone j m h.1, h.0), delete_where-IsApart gone m h.1)
  ]

  pub delete-IsApart : (k : String) (m : Dict V) → IsApart m → IsApart (delete k m)
  unfolding delete
  delete-IsApart k [] h = tt
  delete-IsApart k ((j, w) ∷ m) h = elim (Bool-cases (j == k)) [
    | inl e ↦ rw (e, delete) (delete-IsApart k m h.1)
    | inr e ↦ rw (e, delete) (ground (arith, lookup-delete k j m, h.0), delete-IsApart k m h.1)
  ]
