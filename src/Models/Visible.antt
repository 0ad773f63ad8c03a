-- ===== src/Models/Visible.antt =====
-- The models that the catalog lists are those that it finds by their ids.
use Prim.Native.String.{compare as compare_text}
use mathlib.Core.Logic.{∥∥₁_map, ∥∥₁_elim, ∥∥₁_prop}
use mathlib.Core.List.Permᴰ
use mathlib.Core.List.{Memᴰ}
use text.Mathlib.TextEquality.{eq_iff}
use chatgpt_codex_proxy.Base.{
  ◌≡◌, sym, ap, ◌∙◌, true, some, inl, inr, String, List, [], ◌∷◌, arith, Mem, if_keeps,
}
use chatgpt_codex_proxy.Base.Sort.{sort, sort-perm}
use chatgpt_codex_proxy.Base.Dict.{Dict, lookup}
use chatgpt_codex_proxy.Base.Dict.Entries.{Entries, has}
use chatgpt_codex_proxy.Base.Dict.Sets.{TextSet, keys, add_all, among, has-add_all, among-keys}
use chatgpt_codex_proxy.Models.{
  Entry, Catalog, ids_of, put_entries, entries_at, show_ids, has_unrefreshed_routes,
  rebuild_visible,
}
use chatgpt_codex_proxy.Models.Entries.{
  OwnId, put_entries-OwnId, put_missing-OwnId, has-put_entries, lookup-put_entries, among-Mem,
  Mem-among, entries_at-Mem, entries_at-found, Bool-set,
}

-- What the catalog shows are the entries of the ids that it shows.
pub record IsConsistent (c : Catalog) : Type 0 where
  pub keyed : Entries OwnId c.entries_by_id
  pub started : c.bootstrap_ids ≡ add_all (ids_of c.bootstrap) []
  pub shown :
      (k : String) (e : Entry)
      → has k c.visible_ids ≡ true
      → lookup k c.entries_by_id ≡ some e
      → Mem e c.visible
  pub found :
      (e : Entry)
      → Mem e c.visible
      → (has e.id c.visible_ids ≡ true) × (has e.id c.entries_by_id ≡ true)

-- The parts of a catalog that a rebuild starts from.
abbrev pub IsKeyed : Catalog → Type 0
IsKeyed c = Entries OwnId c.entries_by_id × (c.bootstrap_ids ≡ add_all (ids_of c.bootstrap) [])

ids_of-Memᴰ : (e : Entry) (es : List Entry) → Memᴰ e es → among e.id (ids_of es) ≡ true
ids_of-Memᴰ e [] m = elim m [ ]
ids_of-Memᴰ e (x ∷ es) (Memᴰ.head q) = ground (arith, (eq_iff x.id e.id).1 (ap (λ u. u.id) (sym q)))
ids_of-Memᴰ e (x ∷ es) (Memᴰ.tail m) = ground (arith, ids_of-Memᴰ e es m)

pub ids_of-Mem : (e : Entry) (es : List Entry) → Mem e es → among e.id (ids_of es) ≡ true
ids_of-Mem e es h = ∥∥₁_elim h (Bool-set _ _) (ids_of-Memᴰ e es)

bootstrap-shown :
    (k : String) (e : Entry) (c : Catalog) (m : Dict Entry)
    → c.bootstrap_ids ≡ add_all (ids_of c.bootstrap) []
    → has k c.bootstrap_ids ≡ true
    → lookup k (put_entries c.bootstrap m) ≡ some e
    → Mem e c.bootstrap
unfolding lookup
bootstrap-shown k e c m started h q = elim (lookup-put_entries k c.bootstrap m e q) [
  | inl x ↦ x
  | inr (_, other) ↦
      absurd (ground (arith, ap (has k) started, has-add_all k (ids_of c.bootstrap) [], other))
]

bootstrap-found :
    (e : Entry) (c : Catalog) (m : Dict Entry)
    → c.bootstrap_ids ≡ add_all (ids_of c.bootstrap) []
    → Mem e c.bootstrap
    → (has e.id c.bootstrap_ids ≡ true) × (has e.id (put_entries c.bootstrap m) ≡ true)
bootstrap-found e c m started h = (
  ground (
    arith,
    ap (has e.id) started,
    has-add_all e.id (ids_of c.bootstrap) [],
    ids_of-Mem e c.bootstrap h,
  ),
  ground (arith, has-put_entries e.id c.bootstrap m, ids_of-Mem e c.bootstrap h),
)

sorted-Mem : (k : String) (ks : List String) → Mem k ks → Mem k (sort compare_text ks)
sorted-Mem k ks h = Permᴰ.mem (Permᴰ.symm (sort-perm compare_text ks)) h

entries_at-listed :
    (m : Dict Entry) (ks : List String) (k : String) (e : Entry)
    → Mem k ks
    → lookup k m ≡ some e
    → Mem e (entries_at m ks)
entries_at-listed m ks k e h q = ∥∥₁_elim h ∥∥₁_prop (λ d. entries_at-Mem m ks k e d q)

pub show_ids-IsConsistent :
    (ids : TextSet) (m : Dict Entry) (c : Catalog)
    → Entries OwnId m
    → c.bootstrap_ids ≡ add_all (ids_of c.bootstrap) []
    → IsConsistent (show_ids ids m c)
show_ids-IsConsistent [] m c own started = record {
  keyed = put_entries-OwnId c.bootstrap m own;
  started = started;
  shown = λ k e h q. bootstrap-shown k e c m started h q;
  found = λ e h. bootstrap-found e c m started h;
}
show_ids-IsConsistent (entry ∷ ids) m c own started = record {
  keyed = own;
  started = started;
  shown = λ k e h q.
      entries_at-listed m (sort compare_text (keys (entry ∷ ids))) k e
        (sorted-Mem k (keys (entry ∷ ids))
          (among-Mem k (keys (entry ∷ ids)) (among-keys k (entry ∷ ids) ∙ h)))
        q;
  found = λ e h.
      let at : ∥ Memᴰ e.id (sort compare_text (keys (entry ∷ ids))) × (lookup e.id m ≡ some e) ∥₁ =
        ∥∥₁_map h (entries_at-found m _ e own) in
      (
        sym (among-keys e.id (entry ∷ ids))
            ∙ Mem-among e.id (keys (entry ∷ ids))
                (Permᴰ.mem (sort-perm compare_text _) (∥∥₁_map at (λ p. p.0))),
        ∥∥₁_elim at (Bool-set _ _) (λ p. ground (arith, p.1)),
      );
}

pub rebuild_visible-IsConsistent : (c : Catalog) → IsKeyed c → IsConsistent (rebuild_visible c)
unfolding rebuild_visible
rebuild_visible-IsConsistent c h =
    if_keeps IsConsistent (has_unrefreshed_routes c)
      (λ _. show_ids-IsConsistent _ _ c (put_missing-OwnId c.bootstrap c.entries_by_id h.0) h.1)
      (λ _. show_ids-IsConsistent _ c.entries_by_id c h.0 h.1)
