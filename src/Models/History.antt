-- ===== src/Models/History.antt =====
-- Every history of the catalog: what it lists, what it finds and what it says that an account has.
use mathlib.Core.Logic.{∥∥₁_elim}
use mathlib.Core.List.{Memᴰ}
use chatgpt_codex_proxy.Base.{
  ◌≡◌, refl, sym, ap, ◌∙◌, Bool, true, false, ◌&&◌, some, String, List, [], ◌∷◌, arith,
  Option-cases, Mem, if_keeps, Bool-cases, inl, inr,
}
use chatgpt_codex_proxy.Base.Text.{trim_space, is_empty}
use chatgpt_codex_proxy.Base.Dict.{lookup, insert}
use chatgpt_codex_proxy.Base.Dict.Entries.{Entries-lookup, has}
use chatgpt_codex_proxy.Base.Dict.Sets.{keys, add_all, among}
use chatgpt_codex_proxy.Models.{
  Entry, Catalog, CacheSnapshot, ids_of, put_entries, new_catalog, get_entry, has_model,
  list_models, named_entries, load_cache, sets_of, with_route_models, register_route,
  apply_route_models,
}
use chatgpt_codex_proxy.Models.Entries.{OwnId, put_entries-OwnId, among-Mem}
use chatgpt_codex_proxy.Models.Visible.{IsConsistent, rebuild_visible-IsConsistent, ids_of-Mem}

pub data Change : Type 0 where
  loads : CacheSnapshot → Change
  registers : String → Change
  applies : String → List Entry → Change

unfoldable pub change : Change → Catalog → Catalog
unfolding load_cache register_route apply_route_models
change (loads snapshot) c = load_cache snapshot c
change (registers route_key) c = register_route route_key c
change (applies route_key entries) c = apply_route_models route_key entries c

unfoldable pub change_all : List Change → Catalog → Catalog
unfolding change
change_all [] c = c
change_all (x ∷ xs) c = change_all xs (change x c)

change-IsConsistent : (x : Change) (c : Catalog) → IsConsistent c → IsConsistent (change x c)
unfolding change load_cache register_route apply_route_models
change-IsConsistent (loads snapshot) c h =
    rebuild_visible-IsConsistent
      (record c {
        entries_by_id = put_entries (named_entries snapshot.models) c.entries_by_id;
        support = sets_of snapshot.support;
        known_routes = add_all (keys snapshot.support) [];
      })
      (put_entries-OwnId (named_entries snapshot.models) c.entries_by_id h.keyed, h.started)
change-IsConsistent (registers route_key) c h =
    if_keeps IsConsistent (is_empty (trim_space route_key)) (λ _. h)
      (λ _.
        rebuild_visible-IsConsistent
          (record c { known_routes = insert (trim_space route_key) tt c.known_routes })
          (h.keyed, h.started))
change-IsConsistent (applies route_key entries) c h =
    if_keeps IsConsistent (is_empty (trim_space route_key)) (λ _. h)
      (λ _.
        rebuild_visible-IsConsistent (with_route_models (trim_space route_key) entries c)
          (put_entries-OwnId (named_entries entries) c.entries_by_id h.keyed, h.started))

change_all-IsConsistent :
    (xs : List Change) (c : Catalog) → IsConsistent c → IsConsistent (change_all xs c)
unfolding change_all
change_all-IsConsistent [] c h = h
change_all-IsConsistent (x ∷ xs) c h =
    change_all-IsConsistent xs (change x c) (change-IsConsistent x c h)

pub new_catalog-IsConsistent : (bootstrap : List Entry) → IsConsistent (new_catalog bootstrap)
unfolding new_catalog
new_catalog-IsConsistent bootstrap =
    rebuild_visible-IsConsistent
      (record {
        bootstrap = bootstrap;
        visible = [];
        bootstrap_ids = add_all (ids_of bootstrap) [];
        visible_ids = [];
        entries_by_id = put_entries bootstrap [];
        support = [];
        known_routes = [];
      })
      (put_entries-OwnId bootstrap [] tt, refl)

history-IsConsistent :
    (bootstrap : List Entry) (xs : List Change)
    → IsConsistent (change_all xs (new_catalog bootstrap))
history-IsConsistent bootstrap xs =
    change_all-IsConsistent xs (new_catalog bootstrap) (new_catalog-IsConsistent bootstrap)

-- The id of a listed entry is the id of one.
ids_of-listed :
    (k : String) (es : List Entry) → Memᴰ k (ids_of es) → (e : Entry) × Memᴰ e es × (e.id ≡ k)
ids_of-listed k [] m = elim m [ ]
ids_of-listed k (x ∷ es) (Memᴰ.head q) = (x, Memᴰ.head refl, sym q)
ids_of-listed k (x ∷ es) (Memᴰ.tail m) =
    let (e, at, q) = ids_of-listed k es m in (e, Memᴰ.tail at, q)

both_prop : (a b : Bool) → IsProp ((a ≡ true) × (b ≡ true))
both_prop a b = hlevel

listed-shown :
    (k : String) (c : Catalog)
    → IsConsistent c
    → among k (ids_of c.visible) ≡ true
    → (has k c.entries_by_id ≡ true) × (has k c.visible_ids ≡ true)
listed-shown k c h t = ∥∥₁_elim (among-Mem k (ids_of c.visible) t) (both_prop _ _) (λ m.
    let (e, at, q) = ids_of-listed k c.visible m in
    let (shown, stored) = h.found e ∣ at ∣₁ in
    (
      ap (λ i. has i c.entries_by_id) (sym q) ∙ stored,
      ap (λ i. has i c.visible_ids) (sym q) ∙ shown,
    ))

shown-listed :
    (k : String) (c : Catalog)
    → IsConsistent c
    → has k c.entries_by_id ≡ true
    → has k c.visible_ids ≡ true
    → among k (ids_of c.visible) ≡ true
shown-listed k c h stored shown = elim (Option-cases (lookup k c.entries_by_id)) [
  | inl q ↦ absurd (ground (arith, q))
  | inr (e, q) ↦
      ap (λ i. among i (ids_of c.visible)) (sym (Entries-lookup OwnId k c.entries_by_id h.keyed q))
      ∙ ids_of-Mem e c.visible (h.shown k e shown q)
]

same_truth :
    (a b d : Bool)
    → (d ≡ true → (a ≡ true) × (b ≡ true))
    → (a ≡ true → b ≡ true → d ≡ true)
    → (a && b) ≡ d
same_truth true true d f g = sym (g refl refl)
same_truth true false true f g = (f refl).1
same_truth true false false f g = refl
same_truth false b true f g = (f refl).0
same_truth false b false f g = refl

-- After every history of LoadCache, RegisterRoute and ApplyRouteModels on a new catalog, Has is
-- true of an id exactly if the id, without outer blanks, is that of an entry that List gives.
pub has_model-list_models :
    (bootstrap : List Entry) (xs : List Change) (model_id : String)
    → has_model model_id (change_all xs (new_catalog bootstrap))
      ≡ among (trim_space model_id) (ids_of (list_models (change_all xs (new_catalog bootstrap))))
unfolding has_model
has_model-list_models bootstrap xs model_id =
    let h = history-IsConsistent bootstrap xs in
    same_truth _ _ _ (listed-shown (trim_space model_id) _ h)
      (shown-listed (trim_space model_id) _ h)

pub get_entry-list_models :
    (bootstrap : List Entry) (xs : List Change) (model_id : String) (e : Entry)
    → get_entry model_id (change_all xs (new_catalog bootstrap)) ≡ some e
    → (e.id ≡ trim_space model_id) × Mem e (list_models (change_all xs (new_catalog bootstrap)))
unfolding get_entry
get_entry-list_models bootstrap xs model_id e q =
    elim (Bool-cases
      (has (trim_space model_id) (change_all xs (new_catalog bootstrap)).visible_ids)) [
        | inl t ↦
            let found = rw t at q in
            (
              Entries-lookup OwnId (trim_space model_id) _ h.keyed found,
              h.shown (trim_space model_id) e t found,
            )
        | inr t ↦ absurd (cc (rw t at q))
      ]
  where
    h : IsConsistent (change_all xs (new_catalog bootstrap))
    h = history-IsConsistent bootstrap xs
