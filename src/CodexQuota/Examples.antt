-- ===== src/CodexQuota/Examples.antt =====
-- An account whose primary window is full, by the usage endpoint and by the headers.
use text.Mathlib.Text.{◌==◌ as str_eq}
use chatgpt_codex_proxy.Base.{
  ◌≡◌, refl, false, true, none, some, ◌*◌, ◌^◌, ◌+◌, if◌then◌else◌, not, ◌&&◌, ◌||◌,
}
use chatgpt_codex_proxy.Base.Int.{pos}
use chatgpt_codex_proxy.Accounts.Examples.{account}
use chatgpt_codex_proxy.Accounts.Quota.{is_eligible}
use chatgpt_codex_proxy.Accounts.Types.{Record}
use chatgpt_codex_proxy.CodexQuota.{
  UsageWindow, UsageResponse, Headers, quota_from_usage_response, parse_quota_from_headers,
  unix_time, is_full,
}
use chatgpt_codex_proxy.CodexQuota.Blocking.{fills, header_fills, reported-eligible}

abbrev full : UsageWindow
full = record {
  used_percent = pos (100 * 2 ^ 1074);
  limit_window_seconds = pos 60;
  reset_at = pos 7;
}

abbrev payload : UsageResponse
payload = record {
  plan_type = "plus";
  rate_limit = record {
    allowed = true;
    limit_reached = false;
    primary_window = some full;
    secondary_window = none;
  };
  code_review_rate_limit = none;
  credits = none;
}

abbrev headers : Headers
headers = record {
  header = λ name. if str_eq name "x-codex-primary-used-percent" then "100" else "";
  parse_float = λ text. if str_eq text "100" then some (pos (100 * 2 ^ 1074)) else none;
  parse_int = λ _. none;
  atoi = λ _. none;
  parse_bool = λ _. none;
}

abbrev holder : Record
holder = account "a" none none

fills_before : fills ((62135596800 + 6) * 1000000000) (some full) ≡ true
unfolding unix_time is_full
fills_before = refl

fills_after : fills ((62135596800 + 7) * 1000000000) (some full) ≡ false
unfolding unix_time is_full
fills_after = refl

header_fills_always : header_fills 9 headers "x-codex-primary" ≡ true
unfolding is_full
header_fills_always = refl

reported-eligible_example :
    (is_eligible (record holder { cached_quota = some (quota_from_usage_response 5 payload) }) 9 ≡ (
      is_eligible (record holder { cached_quota = none }) 9
      && not (fills 9 (some full) || fills 9 none)))
    × (is_eligible (record holder { cached_quota = parse_quota_from_headers 5 headers }) 9 ≡ (
        is_eligible (record holder { cached_quota = none }) 9
        && not (
            header_fills 9 headers "x-codex-primary"
            || header_fills 9 headers "x-codex-secondary")))
reported-eligible_example = reported-eligible holder 5 9 payload headers
