-- ===== src/CodexQuota.antt =====
-- internal/codex/quota.go, usage.go: the quota of an account from the headers of an answer and from the usage endpoint.
-- A percentage is a finite float64 times 2 ^ 1074.
pub mod Blocking
mod Examples
use Prim.Native.String.{◌++◌}
use chatgpt_codex_proxy.Base.{
  ℕ, ◌+◌, ◌-◌, ◌*◌, ◌%◌, ◌^◌, Bool, true, false, ◌||◌, not, Option, none, some, String, ltb,
  is_some, Ordering, if◌then◌else◌,
}
use chatgpt_codex_proxy.Base.Int.{ℤ, pos, negsuc, compare_int, eq_int}
use chatgpt_codex_proxy.Base.Text.{trim_space, is_empty}
use chatgpt_codex_proxy.Accounts.Types.{RateLimitWindow, CreditsSnapshot, QuotaSnapshot}

pub record UsageWindow : Type 0 where
  pub used_percent : ℤ
  pub limit_window_seconds : ℤ
  pub reset_at : ℤ

pub record UsageResponseRateLimit : Type 0 where
  pub allowed : Bool
  pub limit_reached : Bool
  pub primary_window : Option UsageWindow
  pub secondary_window : Option UsageWindow

pub record UsageResponseCodeReviewRateLimit : Type 0 where
  pub allowed : Bool
  pub limit_reached : Bool
  pub primary_window : Option UsageWindow

pub record UsageResponseCredits : Type 0 where
  pub has_credits : Option Bool
  pub unlimited : Option Bool
  pub balance : Option ℤ
  pub active_limit : Option String

pub record UsageResponse : Type 0 where
  pub plan_type : String
  pub rate_limit : UsageResponseRateLimit
  pub code_review_rate_limit : Option UsageResponseCodeReviewRateLimit
  pub credits : Option UsageResponseCredits

-- `pct >= 100`
unfoldable pub is_full : ℤ → Bool
is_full percent = elim (compare_int percent (pos (100 * 2 ^ 1074))) [
  | Ordering.lt ↦ false
  | _ ↦ true
]

-- `time.Unix(seconds, 0).UTC()`, in nanoseconds since Go's zero time.
unfoldable pub unix_time : ℤ → ℕ
unix_time (pos n) = (62135596800 + n) * 1000000000
unix_time (negsuc n) = (62135596800 - (n + 1)) * 1000000000

abbrev pub open_window : RateLimitWindow
open_window = record {
  allowed = true;
  limit_reached = false;
  used_percent = none;
  reset_at = none;
  limit_window_seconds = none;
}

unfoldable pub usage_window_rate_limit : Option UsageWindow → RateLimitWindow
unfolding is_full unix_time
usage_window_rate_limit none = open_window
usage_window_rate_limit (some w) = record {
  allowed = true;
  limit_reached = is_full w.used_percent;
  used_percent = some w.used_percent;
  reset_at = some (unix_time w.reset_at);
  limit_window_seconds = some w.limit_window_seconds;
}

unfoldable pub usage_window_has_data : Option UsageWindow → Bool
usage_window_has_data none = false
usage_window_has_data (some w) =
    not (eq_int w.used_percent (pos 0))
    || (not (eq_int w.limit_window_seconds (pos 0)) || not (eq_int w.reset_at (pos 0)))

abbrev pub value_or {ℓ} : {A : Type ℓ} → A → Option A → A
value_or a none = a
value_or a (some x) = x

-- A limit that is blank is none.
abbrev pub limit_of : Option String → Option String
limit_of none = none
limit_of (some text) =
    let trimmed = trim_space text in if is_empty trimmed then none else some trimmed

abbrev pub credits_if_any :
    Option Bool → Option Bool → Option ℤ → Option String → Option CreditsSnapshot
credits_if_any has_credits unlimited balance active_limit =
    if is_some has_credits || (is_some unlimited || (is_some balance || is_some active_limit))
    then some (record {
      has_credits = value_or false has_credits;
      unlimited = value_or false unlimited;
      balance = balance;
      active_limit = value_or "" active_limit;
    })
    else none

unfoldable pub parse_credits_from_usage : Option UsageResponseCredits → Option CreditsSnapshot
unfolding trim_space
parse_credits_from_usage none = none
parse_credits_from_usage (some c) =
    credits_if_any c.has_credits c.unlimited c.balance (limit_of c.active_limit)

abbrev pub code_review_of : Option UsageResponseCodeReviewRateLimit → Option RateLimitWindow
code_review_of none = none
code_review_of (some c) = some (usage_window_rate_limit c.primary_window)

-- `QuotaFromUsageResponse`
unfoldable pub quota_from_usage_response : ℕ → UsageResponse → QuotaSnapshot
unfolding usage_window_rate_limit usage_window_has_data parse_credits_from_usage
quota_from_usage_response now payload = record {
  plan_type = payload.plan_type;
  rate_limit = usage_window_rate_limit payload.rate_limit.primary_window;
  secondary_rate_limit =
      if usage_window_has_data payload.rate_limit.secondary_window
      then some (usage_window_rate_limit payload.rate_limit.secondary_window)
      else none;
  code_review_rate_limit = code_review_of payload.code_review_rate_limit;
  credits = parse_credits_from_usage payload.credits;
  origin = "usage_endpoint";
  fetched_at = now;
}

-- `headers.Get`, and ParseFloat, ParseInt, Atoi and ParseBool of strconv, with none for an error.
pub record Headers : Type 0 where
  pub header : String → String
  pub parse_float : String → Option ℤ
  pub parse_int : String → Option ℤ
  pub atoi : String → Option ℤ
  pub parse_bool : String → Option Bool

-- The int of 64 bits that a number is modulo 2 ^ 64.
abbrev pub signed : ℕ → ℤ
signed m = if ltb m (2 ^ 63) then pos m else negsuc (2 ^ 64 - 1 - m)

-- `minutes * 60`
unfoldable pub minutes_in_seconds : ℤ → ℤ
minutes_in_seconds (pos n) = signed (n * 60 % 2 ^ 64)
minutes_in_seconds (negsuc n) = signed ((2 ^ 64 - (n + 1) * 60 % 2 ^ 64) % 2 ^ 64)

abbrev pub reset_of : Option ℤ → Option ℕ
reset_of none = none
reset_of (some seconds) = some (unix_time seconds)

abbrev pub window_seconds_of : Option ℤ → Option ℤ
window_seconds_of none = none
window_seconds_of (some minutes) = some (minutes_in_seconds minutes)

-- An empty header is not parsed.
abbrev pub parsed {ℓ} : {A : Type ℓ} → (String → Option A) → String → Option A
parsed parse text = if is_empty text then none else parse text

abbrev pub window_with : Option ℤ → Option ℤ → Option ℤ → Option RateLimitWindow
window_with none reset minutes = none
window_with (some percent) reset minutes = some (record {
  allowed = true;
  limit_reached = is_full percent;
  used_percent = some percent;
  reset_at = reset_of reset;
  limit_window_seconds = window_seconds_of minutes;
})

unfoldable pub parse_rate_window : Headers → String → Option RateLimitWindow
unfolding is_full unix_time minutes_in_seconds
parse_rate_window h prefix =
    window_with (parsed h.parse_float (h.header (prefix ++ "-used-percent")))
      (parsed h.parse_int (h.header (prefix ++ "-reset-at")))
      (parsed h.atoi (h.header (prefix ++ "-window-minutes")))

abbrev pub unless_empty : String → Option String
unless_empty text = if is_empty text then none else some text

unfoldable pub parse_credits : Headers → String → Option CreditsSnapshot
parse_credits h prefix =
    credits_if_any (h.parse_bool (h.header (prefix ++ "-credits-has-credits")))
      (h.parse_bool (h.header (prefix ++ "-credits-unlimited")))
      (h.parse_float (h.header (prefix ++ "-credits-balance")))
      (unless_empty (h.header (prefix ++ "-active-limit")))

abbrev pub snapshot_with :
    ℕ
    → Option RateLimitWindow
    → Option RateLimitWindow
    → Option CreditsSnapshot
    → Option QuotaSnapshot
snapshot_with now primary secondary credits =
    if is_some primary || is_some secondary
    then some (record {
      plan_type = "unknown";
      rate_limit = value_or open_window primary;
      secondary_rate_limit = secondary;
      code_review_rate_limit = none;
      credits = credits;
      origin = "response_headers";
      fetched_at = now;
    })
    else none

-- `ParseQuotaFromHeaders`
unfoldable pub parse_quota_from_headers : ℕ → Headers → Option QuotaSnapshot
unfolding parse_rate_window parse_credits
parse_quota_from_headers now h =
    snapshot_with now (parse_rate_window h "x-codex-primary")
      (parse_rate_window h "x-codex-secondary") (parse_credits h "x-codex")
