-- ===== src/Models/Examples.antt =====
-- A catalog with one built-in model, and a route that brings two.
use chatgpt_codex_proxy.Base.{◌≡◌, false, ◌&&◌, not, none, some, List, [], ◌∷◌, String}
use chatgpt_codex_proxy.Base.Int.{pos}
use chatgpt_codex_proxy.Base.Text.{trim_space, is_empty}
use chatgpt_codex_proxy.Base.Dict.{values}
use chatgpt_codex_proxy.Base.Dict.Entries.{Entries}
use chatgpt_codex_proxy.Base.Dict.Keys.{IsApart}
use chatgpt_codex_proxy.Base.Dict.Sets.{among}
use chatgpt_codex_proxy.Accounts.Types.{Record, Status}
use chatgpt_codex_proxy.Models.{
  Entry, ids_of, new_catalog, has_model, list_models, routing_key, supports_record,
  apply_route_models, resolve_default,
}
use chatgpt_codex_proxy.Models.History.{
  Change, loads, registers, applies, change_all, has_model-list_models,
}
use chatgpt_codex_proxy.Models.Default.{IsDefault, resolve_default-IsDefault}
use chatgpt_codex_proxy.Models.Routes.{offered, supports_record-apply_route_models}
use chatgpt_codex_proxy.Models.Normalize.{
  BackendModelEntry, BackendReasoningEffort, normalize_backend_entries,
}
use chatgpt_codex_proxy.Models.Normalize.Distinct.{
  latest_entries, NamedId, normalize_backend_entries-latest_entries,
}

abbrev model : String → Entry
model id = record {
  id = id;
  display_name = id;
  description = "";
  context_window = pos 1000;
  max_context_window = pos 1000;
  is_default = false;
  default_reasoning_effort = "medium";
  supported_reasoning_efforts = [];
}

abbrev account : Record
account = record {
  id = "a";
  account_id = "up";
  user_id = "";
  email = "";
  plan_type = "";
  label = "";
  status = Status.active;
  last_error = "";
  token = record { access_token = "t"; refresh_token = "r"; expires_at = 100 };
  cookies = some [];
  cached_quota = none;
  cooldown_until = none;
  created_at = 1;
  updated_at = 1;
}

abbrev history : List Change
history =
    registers "acct:b"
    ∷ applies "acct:a" (model "m2" ∷ model "m1" ∷ [])
    ∷ loads (record { models = model " " ∷ model "m3" ∷ []; support = ("acct:a", "m3" ∷ []) ∷ [] })
    ∷ []

has_model-list_models_example :
    has_model " m3" (change_all history (new_catalog (model "m0" ∷ [])))
    ≡ among
        (trim_space " m3")
        (ids_of (list_models (change_all history (new_catalog (model "m0" ∷ [])))))
has_model-list_models_example = has_model-list_models (model "m0" ∷ []) history " m3"

resolve_default-IsDefault_example :
    IsDefault account
      (trim_space "m9")
      (new_catalog (model "m0" ∷ []))
      (resolve_default account "m9" (new_catalog (model "m0" ∷ [])))
resolve_default-IsDefault_example =
    resolve_default-IsDefault account "m9" (new_catalog (model "m0" ∷ []))

supports_record-apply_route_models_example :
    supports_record account "m1 " (
      apply_route_models
        (routing_key account)
        (model "m2" ∷ model " m1" ∷ [])
        (new_catalog (model "m0" ∷ [])))
    ≡ (not (is_empty (trim_space "m1 "))
        && offered (trim_space "m1 ") (model "m2" ∷ model " m1" ∷ []))
supports_record-apply_route_models_example =
    supports_record-apply_route_models account (model "m2" ∷ model " m1" ∷ []) "m1 "
      (new_catalog (model "m0" ∷ []))

abbrev high : BackendReasoningEffort
high = record {
  reasoning_effort = "";
  reasoning_effort_alt = "high";
  effort = "low";
  description = "";
}

abbrev answered : String → String → BackendModelEntry
answered slug name = record {
  slug = slug;
  id = "";
  name = name;
  display_name = "";
  description = " d ";
  context_window = pos 10;
  max_context_window = pos 20;
  is_default = false;
  default_reasoning_effort = "";
  default_reasoning_level = "";
  supported_reasoning_efforts = high ∷ [];
  supported_reasoning_levels = high ∷ high ∷ [];
}

abbrev answers : List BackendModelEntry
answers = answered "m1" "first" ∷ answered "" " " ∷ answered "m2" "" ∷ answered "" "m1" ∷ []

normalize_backend_entries-latest_entries_example :
    (normalize_backend_entries answers ≡ values (latest_entries [] answers))
    × IsApart (latest_entries [] answers)
    × Entries NamedId (latest_entries [] answers)
normalize_backend_entries-latest_entries_example = normalize_backend_entries-latest_entries answers
