-- ===== src/Accounts/Examples.antt =====
-- Concrete accounts, with the examples of their quota.
mod Choices
mod Histories
use mathlib.Core.List.{Mem, Memᴰ}
use mathlib.Core.List.Permᴰ
use mathlib.Core.Logic.{∥∥₁_elim}
use std.HLevel.{hedberg}
use text.Mathlib.Text.{◌==◌ as str_eq}
use text.Mathlib.TextEquality.{eq_iff}
use chatgpt_codex_proxy.Base.{
  Bool-cases, ap, sym, ◌∙◌, ℕ, ◌+◌, ◌≡◌, ◌≢◌, ◌≤◌, ◌<◌, refl, Bool, true, false, Option, none, some,
  List, [], ◌∷◌, String, arith, length, ◌⊎◌, inl, inr, All, is_some, Ordering,
}
use chatgpt_codex_proxy.Base.Int.{ℤ, pos, compare_int, eq_int}
use chatgpt_codex_proxy.Base.Text.{trim_space, is_empty}
use chatgpt_codex_proxy.Base.Dict.{Dict, lookup, values}
use chatgpt_codex_proxy.Base.Sort.{sort}
use chatgpt_codex_proxy.Accounts.Types.{
  Status, OAuthToken, RateLimitWindow, QuotaSnapshot, Record, clone_record,
}
use chatgpt_codex_proxy.Accounts.Quota.{
  is_eligible, record_recovery_at, normalize_quota_snapshot, has_token,
}
use chatgpt_codex_proxy.Accounts.Quota.Laws.{normalize_quota_snapshot_idem}
use chatgpt_codex_proxy.Accounts.Quota.Recovery.{
  recovery_sound, recovery_exact, recovery_unknown, recovery_late,
}
use chatgpt_codex_proxy.Accounts.Rotation.{
  select_round_robin, select_least_used, shared_rate_limit_window_durations,
  rate_limit_windows_by_duration, percent_at, windows_of, compare_least_used_quota, compare_use,
  next_index, int_limit,
}
use chatgpt_codex_proxy.Accounts.Rotation.RoundRobin.{
  IdsDistinct, select_round_robin-perm, select_round_robin_fair,
}
use chatgpt_codex_proxy.Accounts.Rotation.LeastUsed.{select_least_used_total}
use chatgpt_codex_proxy.Accounts.Rotation.Minimal.{Below, timed, select_least_used_minimal}
use chatgpt_codex_proxy.Accounts.Rotation.Consistency.{shared_percent_present, compare_use_cycle}
use chatgpt_codex_proxy.Accounts.Service.{
  Service, State, ThreadAffinity, RotationStrategy, least_used, sticky, Env, ok, refresh_record,
  refresh_all,
}
use chatgpt_codex_proxy.Accounts.Service.Acquire.{acquire_matching_locked}
use chatgpt_codex_proxy.Accounts.Service.Affinity.{note_thread_success, acquire_thread}
use chatgpt_codex_proxy.Accounts.Service.Calls.{
  Call, run, thread_succeeds, removes, switches, cools,
}
use chatgpt_codex_proxy.Accounts.Service.Choice.{Answers, acquire-Answers}
use chatgpt_codex_proxy.Accounts.Service.Durable.{IsSaved, Accepts, run-IsSaved}
use chatgpt_codex_proxy.Accounts.Service.Links.{IsLinked}
use chatgpt_codex_proxy.Accounts.Service.Links.Run.{run-IsLinked}
use chatgpt_codex_proxy.Accounts.Service.Threads.{
  is_eligible-refresh_record, acquire_thread-note_thread_success,
}

abbrev pub token : OAuthToken
token = record { access_token = "t"; refresh_token = "r"; expires_at = 0 }

abbrev pub window : Bool → Bool → ℤ → Option ℕ → ℤ → RateLimitWindow
window allowed reached used reset seconds = record {
  allowed = allowed;
  limit_reached = reached;
  used_percent = some used;
  reset_at = reset;
  limit_window_seconds = some seconds;
}

abbrev pub quota : RateLimitWindow → Option RateLimitWindow → QuotaSnapshot
quota primary secondary = record {
  plan_type = "plus";
  rate_limit = primary;
  secondary_rate_limit = secondary;
  code_review_rate_limit = none;
  credits = none;
  origin = "usage";
  fetched_at = 1;
}

abbrev pub account : String → Option QuotaSnapshot → Option ℕ → Record
account id q until = record {
  id = id;
  account_id = id;
  user_id = "u";
  email = "e";
  plan_type = "plus";
  label = "";
  status = Status.active;
  last_error = "";
  token = token;
  cookies = none;
  cached_quota = q;
  cooldown_until = until;
  created_at = 1;
  updated_at = 1;
}

-- Blocked by its cooldown until 20 and by its primary window until 30.
abbrev pub blocked : Record
blocked = account "a" (some (quota (window true true (pos 100) (some 30) (pos 60)) none)) (some 20)

blocked-recovery : record_recovery_at blocked 10 ≡ some 30
unfolding record_recovery_at trim_space
blocked-recovery = refl

recovery_sound_example : (10 < 30) × (is_eligible blocked 35 ≡ true)
recovery_sound_example = recovery_sound blocked 10 30 35 blocked-recovery (omega arith)

recovery_exact_example : is_eligible blocked 25 ≡ false
recovery_exact_example =
    recovery_exact blocked 10 30 25 tt blocked-recovery (omega arith) (omega arith)

-- Blocked by a window that names no reset.
abbrev pub stuck : Record
stuck = account "a" (some (quota (window false false (pos 100) none (pos 60)) none)) none

stuck-recovery : record_recovery_at stuck 10 ≡ none
unfolding record_recovery_at trim_space
stuck-recovery = refl

stuck-blocked : is_eligible stuck 10 ≡ false
unfolding is_eligible trim_space
stuck-blocked = refl

-- The secondary window is not allowed, and has not reached its limit.
abbrev pub disallowed : RateLimitWindow
disallowed = window false false (pos 3) (some 40) (pos 90)

abbrev pub two_windows : QuotaSnapshot
two_windows = quota (window true false (pos 5) (some 30) (pos 60)) (some disallowed)

abbrev pub waiting : Record
waiting = account "a" (some two_windows) (some 20)

waiting-token : has_token waiting ≡ true
unfolding trim_space
waiting-token = refl

recovery_late_example : (record_recovery_at waiting 10 ≡ some 40) × (is_eligible waiting 20 ≡ true)
recovery_late_example =
    recovery_late waiting two_windows disallowed 10 20 40 refl waiting-token refl (omega arith) refl
      refl refl refl refl refl refl (omega arith)

-- Three accounts with a window of one minute: two with a reset, one without.
abbrev pub minute : String → ℤ → Option ℕ → Record
minute id used reset = account id (some (quota (window true false used reset (pos 60)) none)) none

abbrev pub a_late : Record
a_late = minute "a" (pos 5) (some 90)

abbrev pub b_open : Record
b_open = minute "b" (pos 5) none

abbrev pub c_early : Record
c_early = minute "c" (pos 5) (some 50)

abbrev pub three : List Record
three = a_late ∷ b_open ∷ c_early ∷ []
