-- ===== src/Manager.antt =====
-- internal/accountmanager/manager.go: the account that a request is to use, with a token that is good for long
-- enough. What others do between the calls of the accounts is a
-- function of the state.
pub mod Failure
pub mod Steps
pub mod Open
pub mod Ready
pub mod Disabled
pub mod Links
pub mod Lease
pub mod Matching
pub mod Usage
mod Examples
use chatgpt_codex_proxy.Base.{
  ℕ, ◌+◌, Bool, true, false, not, Option, none, some, String, ltb, if◌then◌else◌,
}
use chatgpt_codex_proxy.Base.Int.{ℤ, pos, negsuc}
use chatgpt_codex_proxy.Base.Text.{trim_space, is_empty}
use chatgpt_codex_proxy.Accounts.Types.{Status, Record, OAuthToken, disabled, expired}
use chatgpt_codex_proxy.Login.{
  OauthService, RefreshFailure, is_terminal_credential_failure, Refreshed, renewed, failed_refresh,
  refresh,
}
use chatgpt_codex_proxy.Accounts.Service.{Service, Env, Error, Result, ok, err, panic}
use chatgpt_codex_proxy.Accounts.Service.Ops.{mark_error, set_cooldown, update_auth}
use chatgpt_codex_proxy.Accounts.Service.Reads.{get_account}

pub record AccountManager : Type 0 where
  pub refresh_skew : ℤ
  pub oauth : OauthService

pub data ManagerError : Type 0 where
  from_accounts : Error → ManagerError
  no_such_account account_disabled no_access_token disappeared account_unavailable : ManagerError
  coordinator_closed context_ended : ManagerError
  refresh_failed : String → ManagerError

pub data Answer {ℓ} (A : Type ℓ) : Type ℓ where
  done : A → Answer A
  failed : ManagerError → Answer A
  panicked : Answer A

-- 60 seconds
abbrev pub default_rate_limit_fallback : ℕ
default_rate_limit_fallback = 60000000000

abbrev pub validate_ready_record : Record → Option ManagerError
validate_ready_record r = elim r.status [
  | disabled ↦ some account_disabled
  | _ ↦ if is_empty r.token.access_token then some no_access_token else none
]

abbrev pub record_or_missing : Result (Option Record) → Answer Record
record_or_missing (ok (some r)) = done r
record_or_missing (ok none) = failed no_such_account
record_or_missing (err e) = failed (from_accounts e)
record_or_missing panic = panicked

unfoldable pub get_record : Env → String → Service → Service × Answer Record
unfolding get_account
get_record env id s = ((get_account env id s).0, record_or_missing (get_account env id s).1)

-- `time.Until(expires_at) > skew`
abbrev pub outlives : ℕ → ℤ → ℕ → Bool
outlives now (pos d) expires_at = ltb (now + d) expires_at
outlives now (negsuc d) expires_at = ltb now (expires_at + (d + 1))

-- `markRefreshFailure`; an error of the store is logged.
unfoldable pub mark_refresh_failure :
    AccountManager → Env → ℕ → String → RefreshFailure → Service → Service
unfolding mark_error set_cooldown is_terminal_credential_failure
mark_refresh_failure m env now id f s =
    if is_terminal_credential_failure m.oauth f
    then (mark_error env id expired f.message s).0
    else (set_cooldown env id (some (now + default_rate_limit_fallback)) f.message s).0

-- What one run of `ensureReady` meets: the clock and the store of each of its calls, and what others
-- do to the accounts before its first read, before it has the lock, between its second read and
-- UpdateAuth, while the login service answers, and between UpdateAuth and the last read.
pub record Visit : Type 0 where
  pub first : Env
  pub second : Env
  pub update : Env
  pub last : Env
  pub checked_at : ℕ
  pub rechecked_at : ℕ
  pub exchanged_at : ℕ
  pub failed_at : ℕ
  pub before : Service → Service
  pub meanwhile : Service → Service
  pub while_exchanging : Service → Service
  pub after_update : Service → Service

abbrev pub or_disappeared : Answer Record → Answer Record
or_disappeared (done r) = done r
or_disappeared (failed no_such_account) = failed disappeared
or_disappeared (failed e) = failed e
or_disappeared panicked = panicked

abbrev pub read_updated : Visit → String → Service → Result (Unit {0}) → Service × Answer Record
read_updated v id s (ok _) =
    let found = get_record v.last id (v.after_update s) in (found.0, or_disappeared found.1)
read_updated v id s (err e) = (s, failed (from_accounts e))
read_updated v id s panic = (s, panicked)

abbrev pub store_refreshed :
    AccountManager → Visit → Record → Service → Refreshed → Service × Answer Record
store_refreshed m v r s (failed_refresh f) =
    (mark_refresh_failure m v.update v.failed_at r.id f s, failed (refresh_failed f.message))
store_refreshed m v r s (renewed token account_id) =
    let updated = update_auth v.update r.id account_id token s in
    read_updated v r.id updated.0 updated.1

unfoldable pub refresh_locked : AccountManager → Visit → Record → Service → Service × Answer Record
unfolding mark_refresh_failure update_auth get_record refresh
refresh_locked m v r s =
    store_refreshed m v r (v.while_exchanging s)
      (refresh m.oauth v.exchanged_at r.token r.account_id)

-- A record that is not usable ends the call with an error, one whose token lasts ends it with the record.
abbrev pub settled : AccountManager → ℕ → Record → Option (Answer Record)
settled m now r = elim (validate_ready_record r) [
  | some e ↦ some (failed e)
  | none ↦ if outlives now m.refresh_skew r.token.expires_at then some (done r) else none
]

abbrev pub go_on :
    (Record → Option (Answer Record))
    → (Record → Service → Service × Answer Record)
    → Service × Answer Record
    → Service × Answer Record
go_on test next (s, failed e) = (s, failed e)
go_on test next (s, panicked) = (s, panicked)
go_on test next (s, done r) = elim (test r) [ some a ↦ (s, a) | none ↦ next r s ]

-- Under the lock of the account.
unfoldable pub ensure_locked : AccountManager → Visit → String → Service → Service × Answer Record
unfolding get_record refresh_locked
ensure_locked m v id s =
    go_on (settled m v.rechecked_at) (refresh_locked m v) (get_record v.second id s)

unfoldable pub ensure_ready : AccountManager → Visit → String → Service → Service × Answer Record
unfolding get_record ensure_locked
ensure_ready m v id s =
    go_on (settled m v.checked_at) (λ _ t. ensure_locked m v id (v.meanwhile t))
      (get_record v.first id (v.before s))
