-- ===== src/Models/Normalize.antt =====
-- internal/models/normalize.go, internal/jsonutil/jsonutil.go (FirstNonEmpty): the entries of the catalog from those
-- that the backend answers with.
pub mod Distinct
use text.Mathlib.Text.{◌==◌ as str_eq}
use chatgpt_codex_proxy.Base.{
  ◌≡◌, Bool, true, false, Option, none, some, List, [], ◌∷◌, ◌++◌, String, if◌then◌else◌,
}
use chatgpt_codex_proxy.Base.Int.{ℤ}
use chatgpt_codex_proxy.Base.Text.{trim_space, is_empty}
use chatgpt_codex_proxy.Base.Dict.{Dict, lookup, insert, values}
use chatgpt_codex_proxy.Base.Dict.Entries.{has}
use chatgpt_codex_proxy.Base.Dict.Sets.{TextSet}
use chatgpt_codex_proxy.Models.{Entry, ReasoningEffort, entries_at}

pub record BackendReasoningEffort : Type 0 where
  pub reasoning_effort : String
  pub reasoning_effort_alt : String
  pub effort : String
  pub description : String

pub record BackendModelEntry : Type 0 where
  pub slug : String
  pub id : String
  pub name : String
  pub display_name : String
  pub description : String
  pub context_window : ℤ
  pub max_context_window : ℤ
  pub is_default : Bool
  pub default_reasoning_effort : String
  pub default_reasoning_level : String
  pub supported_reasoning_efforts : List BackendReasoningEffort
  pub supported_reasoning_levels : List BackendReasoningEffort

unfoldable pub first_non_empty : List String → String
unfolding trim_space
first_non_empty [] = ""
first_non_empty (value ∷ rest) =
    let later = first_non_empty rest in if is_empty (trim_space value) then later else value

abbrev pub named_effort : String → String → List ReasoningEffort → List ReasoningEffort
named_effort name description rest =
    if is_empty name
    then rest
    else record { reasoning_effort = name; description = description } ∷ rest

-- The first loop of `normalizeEfforts`.
unfoldable pub named_efforts : List BackendReasoningEffort → List ReasoningEffort
unfolding first_non_empty trim_space
named_efforts [] = []
named_efforts (e ∷ es) =
    named_effort
      (trim_space (first_non_empty (e.reasoning_effort ∷ e.reasoning_effort_alt ∷ e.effort ∷ [])))
      (trim_space e.description) (named_efforts es)

-- The second, over the levels.
unfoldable pub named_levels : List BackendReasoningEffort → List ReasoningEffort
unfolding trim_space
named_levels [] = []
named_levels (e ∷ es) =
    named_effort (trim_space e.effort) (trim_space e.description) (named_levels es)

abbrev pub or_medium : List ReasoningEffort → List ReasoningEffort
or_medium [] = record { reasoning_effort = "medium"; description = "Default" } ∷ []
or_medium (e ∷ es) = e ∷ es

unfoldable pub dedupe_onto : TextSet → List ReasoningEffort → List ReasoningEffort
unfolding trim_space insert lookup
dedupe_onto seen [] = []
dedupe_onto seen (e ∷ es) =
    let skipped = dedupe_onto seen es in
    let kept = e ∷ dedupe_onto (insert (trim_space e.reasoning_effort) tt seen) es in
    if is_empty (trim_space e.reasoning_effort)
    then skipped
    else if has (trim_space e.reasoning_effort) seen
    then skipped
    else kept

abbrev pub dedupe_efforts : List ReasoningEffort → List ReasoningEffort
dedupe_efforts es = dedupe_onto [] es

unfoldable pub normalize_efforts : BackendModelEntry → List ReasoningEffort
unfolding named_efforts named_levels dedupe_onto
normalize_efforts raw = dedupe_efforts (
    or_medium (
      named_efforts raw.supported_reasoning_efforts ++ named_levels raw.supported_reasoning_levels))

abbrev pub first_effort : List ReasoningEffort → String
first_effort [] = ""
first_effort (e ∷ _) = e.reasoning_effort

abbrev pub or_given : String → String → String
or_given given later = if is_empty given then later else given

unfoldable pub backend_id : BackendModelEntry → String
unfolding first_non_empty trim_space
backend_id raw = trim_space (first_non_empty (raw.slug ∷ raw.id ∷ raw.name ∷ []))

unfoldable pub default_effort : BackendModelEntry → String
unfolding first_non_empty trim_space normalize_efforts
default_effort raw =
    or_given
      (or_given
        (trim_space
          (first_non_empty (raw.default_reasoning_effort ∷ raw.default_reasoning_level ∷ [])))
        (first_effort (normalize_efforts raw)))
      "medium"

-- The entry of an answer that has an id.
abbrev pub entry_of : BackendModelEntry → Entry
entry_of raw = record {
  id = backend_id raw;
  display_name =
      first_non_empty (trim_space raw.display_name ∷ trim_space raw.name ∷ backend_id raw ∷ []);
  description = trim_space raw.description;
  context_window = raw.context_window;
  max_context_window = raw.max_context_window;
  is_default = raw.is_default;
  default_reasoning_effort = default_effort raw;
  supported_reasoning_efforts = normalize_efforts raw;
}

unfoldable pub normalize_backend_entry : BackendModelEntry → Option Entry
unfolding backend_id default_effort normalize_efforts first_non_empty trim_space
normalize_backend_entry raw = if is_empty (backend_id raw) then none else some (entry_of raw)

-- What the loop has: the entries by their ids, and the ids in the order in which they came first.
pub record Gathered : Type 0 where
  pub models_by_id : Dict Entry
  pub order : List String

abbrev pub gather : Gathered → Entry → Gathered
gather g e = record {
  models_by_id = insert e.id e g.models_by_id;
  order = if has e.id g.models_by_id then g.order else g.order ++ e.id ∷ [];
}

abbrev pub gather_if : Gathered → Option Entry → Gathered
gather_if g none = g
gather_if g (some e) = gather g e

unfoldable pub gather_all : Gathered → List BackendModelEntry → Gathered
unfolding normalize_backend_entry insert lookup
gather_all g [] = g
gather_all g (raw ∷ raws) = gather_all (gather_if g (normalize_backend_entry raw)) raws

-- Each id of the order is in the map.
unfoldable pub normalize_backend_entries : List BackendModelEntry → List Entry
unfolding gather_all entries_at
normalize_backend_entries raws =
    let g = gather_all (record { models_by_id = []; order = [] }) raws in
    entries_at g.models_by_id g.order
