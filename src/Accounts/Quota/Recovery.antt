-- ===== src/Accounts/Quota/Recovery.antt =====
-- When a blocked account comes back: rotation.go, recordRecoveryAt against isEligible.
use chatgpt_codex_proxy.Base.{ℕ, ◌≤◌, ◌<◌, ◌≡◌, true, false, Option, none, some, arith}
use chatgpt_codex_proxy.Accounts.Types.{RateLimitWindow, QuotaSnapshot, Record, is_active}
use chatgpt_codex_proxy.Accounts.Quota.{is_eligible, record_recovery_at, has_token}

-- The time that recordRecoveryAt reports lies after that of the report, and at it and at every
-- later time isEligible is true of the record.
pub recovery_sound :
    (r : Record) (now t later : ℕ)
    → record_recovery_at r now ≡ some t
    → t ≤ later
    → (now < t) × (is_eligible r later ≡ true)
unfolding record_recovery_at is_eligible
recovery_sound r now t later h k = ground arith

-- A secondary window that is not allowed has also reached its limit: where that fails, isEligible
-- does not look at the window and recordRecoveryAt waits for it.
abbrev pub IsAlike : Option QuotaSnapshot → Type 0
IsAlike none = Unit
IsAlike (some q) = AlikeWindow q.secondary_rate_limit
  where
    AlikeWindow : Option RateLimitWindow → Type 0
    AlikeWindow none = Unit
    AlikeWindow (some w) = w.allowed ≡ false → w.limit_reached ≡ true

-- A record that is not eligible and for which recordRecoveryAt reports no time is not eligible at
-- any later time, if a secondary window that is not allowed has also reached its limit.
pub recovery_unknown :
    (r : Record) (now later : ℕ)
    → IsAlike r.cached_quota
    → record_recovery_at r now ≡ none
    → is_eligible r now ≡ false
    → now ≤ later
    → is_eligible r later ≡ false
unfolding record_recovery_at is_eligible
recovery_unknown r now later a h e k = ground arith

-- Before the time that recordRecoveryAt reports, from the time of the report on, isEligible is
-- false, if a secondary window that is not allowed has also reached its limit.
pub recovery_exact :
    (r : Record) (now t before : ℕ)
    → IsAlike r.cached_quota
    → record_recovery_at r now ≡ some t
    → now ≤ before
    → before < t
    → is_eligible r before ≡ false
unfolding record_recovery_at is_eligible
recovery_exact r now t before a h k l = ground arith

-- For an active record with a token and a pending cooldown, whose primary window is open and whose
-- secondary window is not allowed, has not reached its limit and resets after the cooldown,
-- recordRecoveryAt reports the reset, though isEligible is true from the end of the cooldown.
pub recovery_late :
    (r : Record) (q : QuotaSnapshot) (w : RateLimitWindow) (now c t : ℕ)
    → is_active r.status ≡ true
    → has_token r ≡ true
    → r.cooldown_until ≡ some c
    → now < c
    → r.cached_quota ≡ some q
    → q.rate_limit.allowed ≡ true
    → q.rate_limit.limit_reached ≡ false
    → q.secondary_rate_limit ≡ some w
    → w.allowed ≡ false
    → w.limit_reached ≡ false
    → w.reset_at ≡ some t
    → c < t
    → (record_recovery_at r now ≡ some t) × (is_eligible r c ≡ true)
unfolding record_recovery_at is_eligible
recovery_late r q w now c t a b d e f g h i j k l m = ground arith
