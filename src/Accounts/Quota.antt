-- ===== src/Accounts/Quota.antt =====
-- internal/accounts/rotation.go (windows, eligibility, recovery) and quota_reset.go. A record in the map is never
-- nil; `now` is the time that a call reads once.
pub mod Laws
pub mod Recovery
use chatgpt_codex_proxy.Base.{
  ℕ, Bool, true, false, ◌&&◌, ◌||◌, not, Option, none, some, List, [], ◌∷◌, String, ltb,
  if◌then◌else◌, ◌≡◌, refl,
}
use chatgpt_codex_proxy.Base.Text.{trim_space, is_empty}
use chatgpt_codex_proxy.Accounts.Types.{RateLimitWindow, QuotaSnapshot, Record, is_active}

-- `t.After(now)`
abbrev pub after : ℕ → ℕ → Bool
after t now = ltb now t

unfoldable pub normalize_rate_limit_window : RateLimitWindow → ℕ → RateLimitWindow × Bool
normalize_rate_limit_window w now = elim w.reset_at [
  | none ↦ (w, false)
  | some t ↦ if after t now then (w, false) else (
    record w { allowed = true; limit_reached = false; used_percent = none; reset_at = none },
    true,
  )
]

-- The same through a pointer.
abbrev pub normalize_optional : Option RateLimitWindow → ℕ → Option RateLimitWindow × Bool
normalize_optional none now = (none, false)
normalize_optional (some w) now =
    (some (normalize_rate_limit_window w now).0, (normalize_rate_limit_window w now).1)

unfoldable pub normalize_quota_snapshot : QuotaSnapshot → ℕ → QuotaSnapshot × Bool
unfolding normalize_rate_limit_window
normalize_quota_snapshot q now =
    let primary = normalize_rate_limit_window q.rate_limit now in
    let secondary = normalize_optional q.secondary_rate_limit now in
    let code_review = normalize_optional q.code_review_rate_limit now in
    (
      record q {
        rate_limit = primary.0;
        secondary_rate_limit = secondary.0;
        code_review_rate_limit = code_review.0;
      },
      primary.1 || (secondary.1 || code_review.1),
    )

-- A missing deadline never passes.
abbrev pub pending : Option ℕ → ℕ → Bool
pending none now = true
pending (some t) now = after t now

unfoldable pub window_availability_blocked : RateLimitWindow → ℕ → Bool
window_availability_blocked w now = if w.allowed then false else pending w.reset_at now

unfoldable pub window_limit_active : RateLimitWindow → ℕ → Bool
window_limit_active w now = if w.limit_reached then pending w.reset_at now else false

abbrev pub limit_active_optional : Option RateLimitWindow → ℕ → Bool
limit_active_optional none now = false
limit_active_optional (some w) now = window_limit_active w now

unfoldable pub quota_blocks_general_routing : Option QuotaSnapshot → ℕ → Bool
unfolding window_availability_blocked window_limit_active
quota_blocks_general_routing none now = false
quota_blocks_general_routing (some q) now =
    window_availability_blocked q.rate_limit now
    || (window_limit_active q.rate_limit now || limit_active_optional q.secondary_rate_limit now)

-- A cooldown that is set and has not passed.
abbrev pub cooling : Option ℕ → ℕ → Bool
cooling none now = false
cooling (some t) now = after t now

abbrev pub has_token : Record → Bool
has_token r = not (is_empty (trim_space r.token.access_token))

unfoldable pub is_eligible : Record → ℕ → Bool
unfolding quota_blocks_general_routing
is_eligible r now =
    if not (is_active r.status)
    then false
    else if not (has_token r)
    then false
    else if cooling r.cooldown_until now
    then false
    else not (quota_blocks_general_routing r.cached_quota now)

-- The later of the deadlines so far and a new one.
abbrev pub latest : Option ℕ → ℕ → ℕ
latest none t = t
latest (some l) t = if after t l then t else l

-- The closure `add` of the code: the deadlines so far, and whether this one is known and ahead.
abbrev pub add_deadline : ℕ → Option ℕ → Option ℕ → Option ℕ × Bool
add_deadline now so_far none = (so_far, false)
add_deadline now so_far (some t) =
    if after t now then (some (latest so_far t), true) else (so_far, false)

-- The loop over the two windows; `none` is the return inside it.
unfoldable pub recovery_windows :
    ℕ → List (Option RateLimitWindow) → Bool → Option ℕ → Option (Bool × Option ℕ)
unfolding window_availability_blocked window_limit_active
recovery_windows now [] blocked so_far = some (blocked, so_far)
recovery_windows now (none ∷ ws) blocked so_far = recovery_windows now ws blocked so_far
recovery_windows now (some w ∷ ws) blocked so_far =
    elim (window_availability_blocked w now || window_limit_active w now) [
      | false ↦ recovery_windows now ws blocked so_far
      | true ↦ elim (add_deadline now so_far w.reset_at).1 [
        | false ↦ none
        | true ↦ recovery_windows now ws true (add_deadline now so_far w.reset_at).0
      ]
    ]

abbrev pub general_windows : Option QuotaSnapshot → List (Option RateLimitWindow)
general_windows none = []
general_windows (some q) = some q.rate_limit ∷ q.secondary_rate_limit ∷ []

-- Unless something blocks, there is nothing to recover from.
abbrev pub when_blocked : Option (Bool × Option ℕ) → Option ℕ
when_blocked none = none
when_blocked (some (blocked, so_far)) = if blocked then so_far else none

unfoldable pub record_recovery_at : Record → ℕ → Option ℕ
unfolding recovery_windows
record_recovery_at r now =
    if not (is_active r.status)
    then none
    else if not (has_token r)
    then none
    else let cool = cooling r.cooldown_until now in
      let so_far = if cool then (add_deadline now none r.cooldown_until).0 else none in
      when_blocked (recovery_windows now (general_windows r.cached_quota) cool so_far)

unfoldable pub active_window_reset_window : Option RateLimitWindow → ℕ → Option ℕ
active_window_reset_window none now = none
active_window_reset_window (some w) now = elim w.reset_at [
  | none ↦ none
  | some t ↦
      if not (after t now) then none else if w.allowed && not w.limit_reached then none else some t
]

unfoldable pub primary_rate_limit_reset : Option QuotaSnapshot → ℕ → Option ℕ
unfolding active_window_reset_window
primary_rate_limit_reset none now = none
primary_rate_limit_reset (some q) now = active_window_reset_window (some q.rate_limit) now

unfoldable pub quota_reset : Option QuotaSnapshot → ℕ → Option ℕ
unfolding active_window_reset_window
quota_reset none now = none
quota_reset (some q) now = elim (active_window_reset_window (some q.rate_limit) now) [
  | some t ↦ some t
  | none ↦ active_window_reset_window q.secondary_rate_limit now
]
