-- ===== src/Models/Entries.antt =====
-- Maps of entries by their ids, and the entries of a list of ids.
use mathlib.Core.Logic.{∥∥₁_elim}
use mathlib.Core.List.{Memᴰ, mem-cons_of_mem, mem-cons_self}
use text.Mathlib.Text.{◌==◌ as str_eq}
use text.Mathlib.TextEquality.{eq_iff}
use chatgpt_codex_proxy.Base.{
  ◌≡◌, refl, sym, ap, ◌∙◌, Bool, true, false, ◌||◌, Option, none, some, ◌⊎◌, inl, inr, String, List,
  [], ◌∷◌, arith, Bool-cases, Option-cases, Mem, if_keeps,
}
use chatgpt_codex_proxy.Base.Dict.{Dict, lookup, insert, lookup-insert}
use chatgpt_codex_proxy.Base.Dict.Entries.{Entries, Entries-insert, Entries-lookup, has}
use chatgpt_codex_proxy.Base.Dict.Sets.{among}
use chatgpt_codex_proxy.Models.{Entry, ids_of, put_entries, put_missing, entries_at}

abbrev pub OwnId : String → Entry → Type 0
OwnId k e = e.id ≡ k

pub put_entries-OwnId :
    (es : List Entry) (m : Dict Entry) → Entries OwnId m → Entries OwnId (put_entries es m)
unfolding put_entries
put_entries-OwnId [] m h = h
put_entries-OwnId (e ∷ es) m h = put_entries-OwnId es _ (Entries-insert OwnId e.id e m refl h)

pub put_missing-OwnId :
    (es : List Entry) (m : Dict Entry) → Entries OwnId m → Entries OwnId (put_missing es m)
unfolding put_missing
put_missing-OwnId [] m h = h
put_missing-OwnId (e ∷ es) m h =
    if_keeps (Entries OwnId) (has e.id m) (λ _. put_missing-OwnId es m h)
      (λ _. put_missing-OwnId es _ (Entries-insert OwnId e.id e m refl h))

pub has-put_entries :
    (k : String) (es : List Entry) (m : Dict Entry)
    → has k (put_entries es m) ≡ (has k m || among k (ids_of es))
unfolding put_entries
has-put_entries k [] m = ground arith
has-put_entries k (e ∷ es) m =
    ground (arith, has-put_entries k es (insert e.id e m), lookup-insert e.id k e m)

-- What is found is one of the entries, or none of them has that id.
pub lookup-put_entries :
    (k : String) (es : List Entry) (m : Dict Entry) (x : Entry)
    → lookup k (put_entries es m) ≡ some x
    → Mem x es ⊎ ((lookup k m ≡ some x) × (among k (ids_of es) ≡ false))
unfolding put_entries
lookup-put_entries k [] m x e = inr (e, refl)
lookup-put_entries k (y ∷ es) m x e = elim (lookup-put_entries k es (insert y.id y m) x e) [
  | inl h ↦ inl (mem-cons_of_mem y h)
  | inr (found, other) ↦ elim (Bool-cases (str_eq y.id k)) [
    | inl t ↦ inl ∣ Memᴰ.head (here found t) ∣₁
    | inr t ↦ inr (ground (arith, lookup-insert y.id k y m), ground arith)
  ]
]
  where
    here : lookup k (insert y.id y m) ≡ some x → str_eq y.id k ≡ true → x ≡ y
    here found t = ground (arith, lookup-insert y.id k y m)

pub among-Mem : (k : String) (ks : List String) → among k ks ≡ true → Mem k ks
among-Mem k [] h = absurd (ground arith)
among-Mem k (j ∷ ks) h = elim (Bool-cases (str_eq j k)) [
  | inl t ↦ ∣ Memᴰ.head (sym ((eq_iff j k).0 t)) ∣₁
  | inr t ↦ mem-cons_of_mem j (among-Mem k ks (ground arith))
]

pub Memᴰ-among : (k : String) (ks : List String) → Memᴰ k ks → among k ks ≡ true
Memᴰ-among k [] m = elim m [ ]
Memᴰ-among k (j ∷ ks) (Memᴰ.head e) = ground (arith, (eq_iff j k).1 (sym e))
Memᴰ-among k (j ∷ ks) (Memᴰ.tail m) = ground (arith, Memᴰ-among k ks m)

pub Bool-set : IsSet Bool
Bool-set = hlevel

pub Mem-among : (k : String) (ks : List String) → Mem k ks → among k ks ≡ true
Mem-among k ks h = ∥∥₁_elim h (Bool-set _ _) (Memᴰ-among k ks)

pub entries_at-Mem :
    (m : Dict Entry) (ks : List String) (k : String) (e : Entry)
    → Memᴰ k ks
    → lookup k m ≡ some e
    → Mem e (entries_at m ks)
unfolding entries_at
entries_at-Mem m [] k e h q = elim h [ ]
entries_at-Mem m (j ∷ ks) k e (Memᴰ.head t) q =
    rw (ap (λ i. lookup i m) (sym t) ∙ q, entries_at) (mem-cons_self)
entries_at-Mem m (j ∷ ks) k e (Memᴰ.tail h) q = elim (Option-cases (lookup j m)) [
  | inl t ↦ rw (t, entries_at) (entries_at-Mem m ks k e h q)
  | inr (x, t) ↦ rw (t, entries_at) (mem-cons_of_mem x (entries_at-Mem m ks k e h q))
]

found_first :
    (m : Dict Entry) (ks : List String) (e : Entry)
    → Entries OwnId m
    → (Memᴰ e (entries_at m ks) → Memᴰ e.id ks × (lookup e.id m ≡ some e))
    → (k : String) (found : Option Entry) → lookup k m ≡ found
    → Memᴰ e (elim found [ none ↦ entries_at m ks | some x ↦ x ∷ entries_at m ks ])
    → Memᴰ e.id (k ∷ ks) × (lookup e.id m ≡ some e)
found_first m ks e own rest k none t d = (Memᴰ.tail (rest d).0, (rest d).1)
found_first m ks e own rest k (some x) t (Memᴰ.head q) =
    let same = ap (λ u. u.id) q ∙ Entries-lookup OwnId k m own t in
    (Memᴰ.head same, ap (λ i. lookup i m) same ∙ t ∙ ap some (sym q))
found_first m ks e own rest k (some x) t (Memᴰ.tail d) = (Memᴰ.tail (rest d).0, (rest d).1)

-- An entry that is taken stands under its id.
pub entries_at-found :
    (m : Dict Entry) (ks : List String) (e : Entry)
    → Entries OwnId m
    → Memᴰ e (entries_at m ks)
    → Memᴰ e.id ks × (lookup e.id m ≡ some e)
unfolding entries_at
entries_at-found m [] e own h = elim h [ ]
entries_at-found m (k ∷ ks) e own h =
    found_first m ks e own (entries_at-found m ks e own) k (lookup k m) refl h
