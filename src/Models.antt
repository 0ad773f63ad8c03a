-- ===== src/Models.antt =====
-- internal/models/catalog.go, entry.go, cache.go: the models that the proxy offers, and which account's route has
-- which of them. A list of entries is a value, so its copies are left out.
pub mod Normalize
pub mod Entries
pub mod Visible
pub mod History
pub mod Default
pub mod Routes
mod Examples
use Prim.Native.String.{compare as compare_text}
use Prim.Native.String.{◌++◌}
use chatgpt_codex_proxy.Base.{
  ◌≡◌, Bool, true, false, ◌&&◌, ◌||◌, not, Option, none, some, List, [], ◌∷◌, map, String,
  if◌then◌else◌,
}
use chatgpt_codex_proxy.Base.Int.{ℤ}
use chatgpt_codex_proxy.Base.Text.{trim_space, is_empty}
use chatgpt_codex_proxy.Base.Sort.{sort}
use chatgpt_codex_proxy.Base.Dict.{Dict, lookup, insert, values}
use chatgpt_codex_proxy.Base.Dict.Entries.{has}
use chatgpt_codex_proxy.Base.Dict.Sets.{TextSet, keys, add_all, copy_into}
use chatgpt_codex_proxy.Accounts.Types.{Record}

pub record ReasoningEffort : Type 0 where
  pub reasoning_effort : String
  pub description : String

pub record Entry : Type 0 where
  pub id : String
  pub display_name : String
  pub description : String
  pub context_window : ℤ
  pub max_context_window : ℤ
  pub is_default : Bool
  pub default_reasoning_effort : String
  pub supported_reasoning_efforts : List ReasoningEffort

pub record Catalog : Type 0 where
  pub bootstrap : List Entry
  pub visible : List Entry
  pub bootstrap_ids : TextSet
  pub visible_ids : TextSet
  pub entries_by_id : Dict Entry
  pub support : Dict TextSet
  pub known_routes : TextSet

pub record CacheSnapshot : Type 0 where
  pub models : List Entry
  pub support : Dict (List String)

abbrev pub ids_of : List Entry → List String
ids_of = map λ e. e.id

-- `makeSet`
unfoldable pub make_set_onto : TextSet → List String → TextSet
unfolding insert trim_space
make_set_onto out [] = out
make_set_onto out (id ∷ ids) =
    let skipped = make_set_onto out ids in
    let added = make_set_onto (insert (trim_space id) tt out) ids in
    if is_empty (trim_space id) then skipped else added

abbrev pub make_set : List String → TextSet
make_set ids = make_set_onto [] ids

unfoldable pub put_entries : List Entry → Dict Entry → Dict Entry
unfolding insert
put_entries [] m = m
put_entries (e ∷ es) m = put_entries es (insert e.id e m)

-- The entries whose ids the map lacks.
unfoldable pub put_missing : List Entry → Dict Entry → Dict Entry
unfolding insert lookup
put_missing [] m = m
put_missing (e ∷ es) m =
    let same = put_missing es m in
    let more = put_missing es (insert e.id e m) in if has e.id m then same else more

unfoldable pub supported_ids : TextSet → List TextSet → TextSet
unfolding copy_into
supported_ids ids [] = ids
supported_ids ids (set ∷ sets) = supported_ids (copy_into ids set) sets

-- `hasUnrefreshedRoutesLocked`
unfoldable pub lacks_one : Dict TextSet → List String → Bool
unfolding lookup
lacks_one support [] = false
lacks_one support (key ∷ routes) = not (has key support) || lacks_one support routes

abbrev pub has_unrefreshed_routes : Catalog → Bool
has_unrefreshed_routes c = lacks_one c.support (keys c.known_routes)

-- The entries of some ids, those that there are.
unfoldable pub entries_at : Dict Entry → List String → List Entry
unfolding lookup
entries_at m [] = []
entries_at m (id ∷ ids) =
    let rest = entries_at m ids in elim (lookup id m) [ none ↦ rest | some e ↦ e ∷ rest ]

abbrev pub show_ids : TextSet → Dict Entry → Catalog → Catalog
show_ids [] m c = record c {
  visible = c.bootstrap;
  visible_ids = c.bootstrap_ids;
  entries_by_id = put_entries c.bootstrap m;
}
show_ids (entry ∷ ids) m c = record c {
  visible = entries_at m (sort compare_text (keys (entry ∷ ids)));
  visible_ids = entry ∷ ids;
  entries_by_id = m;
}

-- `rebuildVisibleLocked`
unfoldable pub rebuild_visible : Catalog → Catalog
unfolding supported_ids lacks_one add_all put_missing put_entries entries_at sort
rebuild_visible c =
    let ids = supported_ids [] (values c.support) in
    if has_unrefreshed_routes c
    then show_ids (add_all (ids_of c.bootstrap) ids) (put_missing c.bootstrap c.entries_by_id) c
    else show_ids ids c.entries_by_id c

unfoldable pub new_catalog : List Entry → Catalog
unfolding rebuild_visible put_entries add_all
new_catalog bootstrap = rebuild_visible (record {
  bootstrap = bootstrap;
  visible = [];
  bootstrap_ids = add_all (ids_of bootstrap) [];
  visible_ids = [];
  entries_by_id = put_entries bootstrap [];
  support = [];
  known_routes = [];
})

unfoldable pub get_entry : String → Catalog → Option Entry
unfolding lookup trim_space
get_entry model_id c =
    if has (trim_space model_id) c.visible_ids
    then lookup (trim_space model_id) c.entries_by_id
    else none

unfoldable pub has_model : String → Catalog → Bool
unfolding lookup trim_space
has_model model_id c =
    has (trim_space model_id) c.entries_by_id && has (trim_space model_id) c.visible_ids

abbrev pub list_models : Catalog → List Entry
list_models c = c.visible

-- Those of some entries whose id is not blank.
unfoldable pub named_entries : List Entry → List Entry
unfolding trim_space
named_entries [] = []
named_entries (e ∷ es) =
    let rest = named_entries es in if is_empty (trim_space e.id) then rest else e ∷ rest

unfoldable pub sets_of : Dict (List String) → Dict TextSet
unfolding make_set_onto insert
sets_of [] = []
sets_of ((key, ids) ∷ m) = insert key (make_set ids) (sets_of m)

unfoldable pub load_cache : CacheSnapshot → Catalog → Catalog
unfolding rebuild_visible put_entries named_entries sets_of add_all
load_cache snapshot c = rebuild_visible (record c {
  entries_by_id = put_entries (named_entries snapshot.models) c.entries_by_id;
  support = sets_of snapshot.support;
  known_routes = add_all (keys snapshot.support) [];
})

unfoldable pub register_route : String → Catalog → Catalog
unfolding rebuild_visible insert trim_space
register_route route_key c =
    if is_empty (trim_space route_key)
    then c
    else rebuild_visible
        (record c { known_routes = insert (trim_space route_key) tt c.known_routes })

-- The models of a route, with its key.
abbrev pub with_route_models : String → List Entry → Catalog → Catalog
with_route_models key entries c = record c {
  entries_by_id = put_entries (named_entries entries) c.entries_by_id;
  support = insert key (make_set (ids_of (named_entries entries))) c.support;
  known_routes = insert key tt c.known_routes;
}

unfoldable pub apply_route_models : String → List Entry → Catalog → Catalog
unfolding rebuild_visible insert trim_space put_entries named_entries make_set_onto
apply_route_models route_key entries c =
    if is_empty (trim_space route_key)
    then c
    else rebuild_visible (with_route_models (trim_space route_key) entries c)

-- `RoutingKeyForRecord`
unfoldable pub routing_key : Record → String
unfolding trim_space
routing_key r = "acct:" ++ trim_space r.id

unfoldable pub sorted_sets : Dict TextSet → Dict (List String)
unfolding sort
sorted_sets [] = []
sorted_sets ((key, set) ∷ m) = (key, sort compare_text (keys set)) ∷ sorted_sets m

unfoldable pub snapshot_catalog : Catalog → CacheSnapshot
unfolding sorted_sets
snapshot_catalog c = record { models = c.visible; support = sorted_sets c.support }

abbrev pub in_bootstrap : String → Catalog → Bool
in_bootstrap model_id c = has model_id c.bootstrap_ids

abbrev pub by_route : Option TextSet → String → String → Catalog → Bool
by_route (some set) key model_id c = has model_id set
by_route none key model_id c = has key c.known_routes && in_bootstrap model_id c

abbrev pub supports_with : Dict TextSet → Record → String → Catalog → Bool
supports_with [] r model_id c = in_bootstrap model_id c
supports_with (_ ∷ _) r model_id c =
    by_route (lookup (routing_key r) c.support) (routing_key r) model_id c

-- `supportsRecordLocked`
unfoldable pub supports_locked : Record → String → Catalog → Bool
unfolding lookup routing_key
supports_locked r model_id c = supports_with c.support r model_id c

unfoldable pub supports_record : Record → String → Catalog → Bool
unfolding supports_locked trim_space
supports_record r model_id c =
    not (is_empty (trim_space model_id))
    && (has (trim_space model_id) c.visible_ids && supports_locked r (trim_space model_id) c)

-- The first entry that passes a test.
unfoldable pub first_entry : (Entry → Bool) → List Entry → Option Entry
first_entry test [] = none
first_entry test (e ∷ es) = let rest = first_entry test es in if test e then some e else rest

abbrev pub id_or : Option Entry → String → String
id_or none later = later
id_or (some e) later = e.id

-- `resolveDefaultLocked`
unfoldable pub resolve_locked : Record → String → Catalog → String
unfolding supports_locked first_entry
resolve_locked r configured c =
    if not (is_empty configured) && supports_locked r configured c
    then configured
    else id_or (first_entry (λ e. e.is_default && supports_locked r e.id c) c.visible) (
        id_or (first_entry (λ e. supports_locked r e.id c) c.visible)
          (id_or (first_entry (λ e. supports_locked r e.id c) c.bootstrap) configured))

unfoldable pub resolve_default : Record → String → Catalog → String
unfolding resolve_locked trim_space
resolve_default r configured c = resolve_locked r (trim_space configured) c
