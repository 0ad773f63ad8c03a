-- ===== src/Activity/Records.antt =====
-- internal/activity/store.go: a record, what an update may change of it and how it ends.
use Prim.Native.Char.{code}
use text.Mathlib.Text.{◌==◌ as str_eq}
use chatgpt_codex_proxy.Base.{
  ℕ, zero, suc, ◌-◌, ◌/◌, Bool, true, false, ◌&&◌, ◌||◌, not, Option, none, some, String, ltb, leb,
  ◌==◌, if◌then◌else◌, List, [], ◌∷◌,
}
use chatgpt_codex_proxy.Base.Text.{trim_space}

-- Phase and Outcome are texts; another text than the constants is `other_phase` or `other_outcome`.
pub data Phase : Type 0 where
  routing upstream streaming finalizing complete : Phase
  other_phase : String → Phase

pub data Outcome : Type 0 where
  active succeeded failed cancelled timed_out : Outcome
  other_outcome : String → Outcome

pub record ActivityRecord : Type 0 where
  pub id : String
  pub started_at : ℕ
  pub ended_at : Option ℕ
  pub route : String
  pub model : String
  pub account_id : String
  pub account_label : String
  pub phase : Phase
  pub outcome : Outcome
  pub status : Option ℕ
  pub duration_ms : Option ℕ
  pub error_code : String
  pub error_message : String

pub record FinishInput : Type 0 where
  pub outcome : Outcome
  pub status : Option ℕ
  pub error_code : String

abbrev pub phase_rank : Phase → ℕ
phase_rank routing = 1
phase_rank upstream = 2
phase_rank streaming = 3
phase_rank finalizing = 4
phase_rank complete = 5
phase_rank (other_phase _) = 0

abbrev pub is_active : Outcome → Bool
is_active active = true
is_active _ = false

abbrev pub is_complete : Phase → Bool
is_complete complete = true
is_complete _ = false

unfoldable pub is_running : ActivityRecord → Bool
is_running r = is_active r.outcome && not (is_complete r.phase)

-- At most so many characters.
unfoldable pub first_runes : ℕ → String → String
first_runes zero s = String.[]
first_runes (suc n) String.[] = String.[]
first_runes (suc n) (String.◌∷◌ c s) = String.◌∷◌ c (first_runes n s)

-- A text of the model is valid UTF-8.
unfoldable pub sanitize_metadata : String → String
unfolding first_runes trim_space
sanitize_metadata value = first_runes 200 (trim_space value)

-- Up to the first `?` or `#`.
unfoldable pub before_query : String → String
before_query String.[] = String.[]
before_query (String.◌∷◌ c s) =
    let rest = before_query s in
    if code c == 63 || code c == 35 then String.[] else String.◌∷◌ c rest

abbrev pub is_path : String → Bool
is_path String.[] = false
is_path (String.◌∷◌ c s) = code c == 47

unfoldable pub sanitize_route : String → String
unfolding before_query sanitize_metadata trim_space
sanitize_route value =
    let route = before_query (trim_space value) in
    if is_path route then sanitize_metadata route else ""

abbrev pub kept_phase : Phase → Phase → Phase
kept_phase next before =
    if ltb (phase_rank next) (phase_rank before) || (is_complete next || phase_rank next == 0)
    then before
    else next

unfoldable pub sanitize_record_update : ActivityRecord → ActivityRecord → ActivityRecord
unfolding sanitize_route sanitize_metadata
sanitize_record_update r before = record {
  id = before.id;
  started_at = before.started_at;
  ended_at = before.ended_at;
  route = sanitize_route r.route;
  model = sanitize_metadata r.model;
  account_id = sanitize_metadata r.account_id;
  account_label = sanitize_metadata r.account_label;
  phase = kept_phase r.phase before.phase;
  outcome = before.outcome;
  status = before.status;
  duration_ms = before.duration_ms;
  error_code = before.error_code;
  error_message = before.error_message;
}

abbrev pub phase_text : Phase → String
phase_text routing = "routing"
phase_text upstream = "upstream"
phase_text streaming = "streaming"
phase_text finalizing = "finalizing"
phase_text complete = "complete"
phase_text (other_phase t) = t

abbrev pub outcome_text : Outcome → String
outcome_text active = "active"
outcome_text succeeded = "succeeded"
outcome_text failed = "failed"
outcome_text cancelled = "cancelled"
outcome_text timed_out = "timed_out"
outcome_text (other_outcome t) = t

abbrev eq_option : Option ℕ → Option ℕ → Bool
eq_option none none = true
eq_option (some a) (some b) = a == b
eq_option _ _ = false

-- The two have the same JSON.
unfoldable pub records_equal : ActivityRecord → ActivityRecord → Bool
records_equal a b =
    str_eq a.id b.id
    && (a.started_at == b.started_at
        && (eq_option a.ended_at b.ended_at
            && (str_eq a.route b.route
                && (str_eq a.model b.model
                    && (str_eq a.account_id b.account_id
                        && (str_eq a.account_label b.account_label
                            && (str_eq (phase_text a.phase) (phase_text b.phase)
                                && (str_eq (outcome_text a.outcome) (outcome_text b.outcome)
                                    && (eq_option a.status b.status
                                        && (eq_option a.duration_ms b.duration_ms
                                            && (str_eq a.error_code b.error_code
                                                && str_eq a.error_message b.error_message)))))))))))

abbrev pub terminal_outcome : Outcome → Outcome
terminal_outcome succeeded = succeeded
terminal_outcome failed = failed
terminal_outcome cancelled = cancelled
terminal_outcome timed_out = timed_out
terminal_outcome active = failed
terminal_outcome (other_outcome _) = failed

abbrev pub Failure : Type 0
Failure = String × String

-- The switch on the status.
unfoldable pub failure_of_status : Option ℕ → Failure
failure_of_status none = ("api_error", "request failed")
failure_of_status (some status) =
    if status == 401 || status == 403
    then ("authentication_error", "authentication failed")
    else if status == 408 || status == 504
    then ("request_timeout", "request timed out")
    else if status == 429
    then ("rate_limited", "all eligible accounts are rate limited")
    else if leb 400 status && ltb status 500
    then ("invalid_request_error", "invalid request")
    else ("api_error", "request failed")

-- The first row whose codes have the code.
unfoldable pub failure_among : String → List (String × Failure) → Failure → Failure
failure_among code [] later = later
failure_among code ((known, failure) ∷ rows) later =
    let rest = failure_among code rows later in if str_eq known code then failure else rest

-- The switch on the code, a row for each of its cases.
abbrev pub known_failures : List (String × Failure)
known_failures =
    ("client_canceled", ("client_canceled", "client canceled request"))
    ∷ ("request_timeout", ("request_timeout", "request timed out"))
    ∷ ("rate_limited", ("rate_limited", "all eligible accounts are rate limited"))
    ∷ ("quota_exhausted", ("quota_exhausted", "upstream account quota exhausted"))
    ∷ ("no_available_accounts", ("no_available_accounts", "no available accounts"))
    ∷ ("continuation_account_unavailable", ("no_available_accounts", "no available accounts"))
    ∷ ("model_not_found", ("model_not_found", "model not found"))
    ∷ ("invalid_api_key", ("invalid_api_key", "authentication failed"))
    ∷ ("authentication_error", ("authentication_error", "authentication failed"))
    ∷ ("invalid_json", ("invalid_json", "invalid request"))
    ∷ ("invalid_request_error", ("invalid_request_error", "invalid request"))
    ∷ ("unsupported_content_part", ("invalid_request_error", "invalid request"))
    ∷ ("stream_error", ("stream_error", "upstream request failed"))
    ∷ ("upstream_error", ("upstream_error", "upstream request failed"))
    ∷ ("upstream_unauthorized", ("upstream_error", "upstream request failed"))
    ∷ ("image_generation_failed", ("upstream_error", "upstream request failed"))
    ∷ ("api_error", ("api_error", "upstream request failed"))
    ∷ []

unfoldable pub safe_failure : (String → String) → Outcome → String → Option ℕ → Failure
unfolding failure_among failure_of_status trim_space
safe_failure lower succeeded raw_code status = ("", "")
safe_failure lower cancelled raw_code status = ("client_canceled", "client canceled request")
safe_failure lower timed_out raw_code status = ("request_timeout", "request timed out")
safe_failure lower _ raw_code status =
    failure_among (lower (trim_space raw_code)) known_failures (failure_of_status status)

abbrev or_status : Option ℕ → Option ℕ → Option ℕ
or_status none before = before
or_status (some status) before = some status

-- The record that Finish writes; milliseconds of a duration that is not negative.
unfoldable pub finished : (String → String) → ℕ → FinishInput → ActivityRecord → ActivityRecord
unfolding safe_failure
finished lower ended_at input r =
    let outcome = terminal_outcome input.outcome in
    let status = or_status input.status r.status in
    let failure = safe_failure lower outcome input.error_code status in
    record r {
      ended_at = some ended_at;
      duration_ms = some ((ended_at - r.started_at) / 1000000);
      phase = complete;
      outcome = outcome;
      status = status;
      error_code = failure.0;
      error_message = failure.1;
    }
