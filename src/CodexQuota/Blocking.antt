-- ===== src/CodexQuota/Blocking.antt =====
-- When a quota from the upstream blocks its account.
use Prim.Native.String.{◌++◌}
use chatgpt_codex_proxy.Base.{
  ℕ, ◌≡◌, refl, ap, ◌∙◌, Bool, true, false, ◌&&◌, ◌||◌, not, Option, none, some, ltb, String, arith,
  Bool-cases, inl, inr,
}
use chatgpt_codex_proxy.Base.Int.{ℤ, pos, negsuc, eq_int}
use chatgpt_codex_proxy.Accounts.Types.{Record, RateLimitWindow, QuotaSnapshot, CreditsSnapshot}
use chatgpt_codex_proxy.Accounts.Quota.{
  quota_blocks_general_routing, window_availability_blocked, window_limit_active, is_eligible,
  limit_active_optional,
}
use chatgpt_codex_proxy.CodexQuota.{
  UsageWindow, UsageResponse, is_full, unix_time, usage_window_rate_limit, usage_window_has_data,
  quota_from_usage_response, snapshot_with, Headers, parse_credits, parse_rate_window,
  parse_quota_from_headers, parsed,
}

abbrev allowed_of : Option RateLimitWindow → Bool
allowed_of none = true
allowed_of (some w) = w.allowed

-- A window of the usage endpoint that is full and resets after a time.
abbrev pub fills : ℕ → Option UsageWindow → Bool
fills at none = false
fills at (some w) = is_full w.used_percent && ltb at (unix_time w.reset_at)

empty_not_full : is_full (pos 0) ≡ false
unfolding is_full
empty_not_full = refl

fills-usage_window :
    (at : ℕ) (w : Option UsageWindow)
    → window_limit_active (usage_window_rate_limit w) at ≡ fills at w
unfolding usage_window_rate_limit window_limit_active
fills-usage_window at none = refl
fills-usage_window at (some w) = ground arith

open-usage_window :
    (at : ℕ) (w : Option UsageWindow)
    → window_availability_blocked (usage_window_rate_limit w) at ≡ false
unfolding usage_window_rate_limit window_availability_blocked
open-usage_window at none = refl
open-usage_window at (some w) = refl

zero_of : (x : ℤ) → eq_int x (pos 0) ≡ true → x ≡ pos 0
zero_of (pos n) h = ap pos (ground arith)
zero_of (negsuc n) h = absurd (cc h)

is_full-zero : (x : ℤ) → eq_int x (pos 0) ≡ true → is_full x ≡ false
is_full-zero x h = ap is_full (zero_of x h) ∙ empty_not_full

fills-has_data :
    (at : ℕ) (w : Option UsageWindow) → usage_window_has_data w ≡ false → fills at w ≡ false
unfolding usage_window_has_data
fills-has_data at none e = refl
fills-has_data at (some w) e =
    ap (λ b. b && ltb at (unix_time w.reset_at)) (is_full-zero w.used_percent (ground arith))

blocks-usage :
    (now at : ℕ) (payload : UsageResponse)
    → quota_blocks_general_routing (some (quota_from_usage_response now payload)) at
      ≡ (fills at payload.rate_limit.primary_window || fills at payload.rate_limit.secondary_window)
unfolding quota_from_usage_response quota_blocks_general_routing
blocks-usage now at payload = elim (Bool-cases (usage_window_has_data secondary)) [
  | inl e ↦ ground (
    arith,
    e,
    open-usage_window at primary,
    fills-usage_window at primary,
    fills-usage_window at secondary,
  )
  | inr e ↦ ground (
    arith,
    e,
    open-usage_window at primary,
    fills-usage_window at primary,
    fills-has_data at secondary e,
  )
]
  where
    primary : Option UsageWindow
    primary = payload.rate_limit.primary_window

    secondary : Option UsageWindow
    secondary = payload.rate_limit.secondary_window

-- A window of the headers that is full and resets after a time or at no known time.
abbrev pub header_fills : ℕ → Headers → String → Bool
header_fills at h prefix =
    full (parsed h.parse_float (h.header (prefix ++ "-used-percent")))
    && ahead (parsed h.parse_int (h.header (prefix ++ "-reset-at")))
  where
    full : Option ℤ → Bool
    full none = false
    full (some percent) = is_full percent

    ahead : Option ℤ → Bool
    ahead none = true
    ahead (some seconds) = ltb at (unix_time seconds)

fills-rate_window :
    (at : ℕ) (h : Headers) (prefix : String)
    → limit_active_optional (parse_rate_window h prefix) at ≡ header_fills at h prefix
unfolding parse_rate_window window_limit_active
fills-rate_window at h prefix = ground arith

blocks-snapshot :
    (now at : ℕ) (primary secondary : Option RateLimitWindow) (credits : Option CreditsSnapshot)
    → allowed_of primary ≡ true
    → quota_blocks_general_routing (snapshot_with now primary secondary credits) at
      ≡ (limit_active_optional primary at || limit_active_optional secondary at)
unfolding quota_blocks_general_routing window_limit_active window_availability_blocked
blocks-snapshot now at primary secondary credits h = ground arith

allowed-rate_window :
    (h : Headers) (prefix : String) → allowed_of (parse_rate_window h prefix) ≡ true
unfolding parse_rate_window
allowed-rate_window h prefix = ground arith

blocks-headers :
    (now at : ℕ) (h : Headers)
    → quota_blocks_general_routing (parse_quota_from_headers now h) at
      ≡ (header_fills at h "x-codex-primary" || header_fills at h "x-codex-secondary")
unfolding parse_quota_from_headers
blocks-headers now at h =
    blocks-snapshot now at (parse_rate_window h "x-codex-primary")
      (parse_rate_window h "x-codex-secondary") (parse_credits h "x-codex")
      (allowed-rate_window h "x-codex-primary")
    ∙ ap (λ b. b || limit_active_optional (parse_rate_window h "x-codex-secondary") at)
        (fills-rate_window at h "x-codex-primary")
    ∙ ap (λ b. header_fills at h "x-codex-primary" || b)
        (fills-rate_window at h "x-codex-secondary")

eligible-blocks :
    (r : Record) (q : Option QuotaSnapshot) (at : ℕ) (b : Bool)
    → quota_blocks_general_routing q at ≡ b
    → is_eligible (record r { cached_quota = q }) at
      ≡ (is_eligible (record r { cached_quota = none }) at && not b)
unfolding is_eligible quota_blocks_general_routing
eligible-blocks r q at b e = ground arith

-- With the quota of the usage endpoint an account is eligible at a time if and only if it is so
-- without a quota and neither window of the answer is at 100 percent and resets after that time:
-- what the answer says of allowed and of a reached limit counts for nothing, nor does the window
-- of code reviews. With the quota of the headers the same holds of their two windows, of which one
-- that is full and names no reset blocks at all times.
pub reported-eligible :
    (r : Record) (now at : ℕ) (payload : UsageResponse) (h : Headers)
    → (is_eligible (record r { cached_quota = some (quota_from_usage_response now payload) }) at ≡ (
        is_eligible (record r { cached_quota = none }) at
        && not (
            fills at payload.rate_limit.primary_window
            || fills at payload.rate_limit.secondary_window)))
      × (is_eligible (record r { cached_quota = parse_quota_from_headers now h }) at ≡ (
          is_eligible (record r { cached_quota = none }) at
          && not (header_fills at h "x-codex-primary" || header_fills at h "x-codex-secondary")))
reported-eligible r now at payload h = (
  eligible-blocks r _ at _ (blocks-usage now at payload),
  eligible-blocks r _ at _ (blocks-headers now at h),
)
