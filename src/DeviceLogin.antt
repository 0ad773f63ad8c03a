-- ===== src/DeviceLogin.antt =====
-- internal/devicelogin/service.go, types.go: the login of an account on another device. The answers of
-- the login service (internal/codexauth/client.go) are given with each call.
pub mod Tick
pub mod Polls
mod Examples
use Prim.Native.Char.{code}
use chatgpt_codex_proxy.Base.{
  ℕ, zero, suc, ◌+◌, ◌*◌, Bool, true, false, ◌&&◌, ◌||◌, not, Option, none, some, List, [], ◌∷◌,
  String, ltb, ◌==◌, if◌then◌else◌,
}
use Prim.Native.String.{◌++◌}
use chatgpt_codex_proxy.Base.Int.{ℤ, pos, negsuc}
use chatgpt_codex_proxy.Base.Text.{trim_space, is_empty}
use chatgpt_codex_proxy.Base.Dict.{Dict, lookup, insert, delete_where}
use chatgpt_codex_proxy.Accounts.Types.{Record, OAuthToken}
use chatgpt_codex_proxy.Accounts.Service.{
  Service, Env, Error, store_error, account_not_found, no_active_accounts, ambiguous_reference,
  Result, ok, err, panic,
}
use chatgpt_codex_proxy.Accounts.Service.Ops.{upsert_from_token}

pub data DeviceLoginStatus : Type 0 where
  pending ready expired failed : DeviceLoginStatus

pub record DeviceLoginRecord : Type 0 where
  pub login_id : String
  pub auth_url : String
  pub user_code : String
  pub status : DeviceLoginStatus
  pub error : String
  pub created_at : ℕ
  pub expires_at : ℕ

pub record PendingLogin : Type 0 where
  pub shown : DeviceLoginRecord
  pub device_auth_id : String
  pub interval : ℕ

pub record DeviceLoginService : Type 0 where
  pub timeout : ℕ
  pub logins : Dict PendingLogin
  pub closed : Bool

-- A goroutine of poll: in its loop, or about to call setStatus with a status that it expects.
pub data Phase : Type 0 where
  polling : Phase
  settles : Option DeviceLoginStatus → DeviceLoginStatus → String → Phase
  panicked : Phase

-- The fields of the login that poll reads are written by Start alone.
pub record Poll : Type 0 where
  pub login : PendingLogin
  pub phase : Phase

-- The service, the accounts, the goroutines that its WaitGroup counts, and the ids of the logins for
-- which UpsertFromToken has returned an account.
pub record World : Type 0 where
  pub devices : DeviceLoginService
  pub accounts : Service
  pub polls : List Poll
  pub upserted : List String

pub record DeviceCodeResponse : Type 0 where
  pub user_code : String
  pub device_auth_id : String
  pub interval : ℤ

pub data CodeRequest : Type 0 where
  code_given : DeviceCodeResponse → CodeRequest
  code_refused : String → CodeRequest

pub data Started : Type 0 where
  started : DeviceLoginRecord → Started
  not_started : String → Started
  canceled : Started

-- `max(resp.Interval, 5)` seconds
abbrev pub poll_interval : ℤ → ℕ
poll_interval (pos n) = (if ltb n 5 then 5 else n) * 1000000000
poll_interval (negsuc n) = 5 * 1000000000

abbrev pub new_login : (ℕ → String) → ℕ → String → ℕ → DeviceCodeResponse → PendingLogin
new_login format now auth_url timeout resp = record {
  shown = record {
    login_id = "login_" ++ format now;
    auth_url = auth_url;
    user_code = resp.user_code;
    status = pending;
    error = "";
    created_at = now;
    expires_at = now + timeout;
  };
  device_auth_id = resp.device_auth_id;
  interval = poll_interval resp.interval;
}

abbrev pub add_login : PendingLogin → World → World
add_login login w = record w {
  devices = record w.devices { logins = insert login.shown.login_id login w.devices.logins };
  polls = record { login = login; phase = polling } ∷ w.polls;
}

-- `format` is the layout of time.Format.
unfoldable pub start : (ℕ → String) → ℕ → String → CodeRequest → World → World × Started
unfolding insert
start format now auth_url (code_refused message) w = (w, not_started message)
start format now auth_url (code_given resp) w =
    let login = new_login format now auth_url w.devices.timeout resp in
    if w.devices.closed then (w, canceled) else (add_login login w, started login.shown)

abbrev pub shown_of : Option PendingLogin → Option DeviceLoginRecord
shown_of none = none
shown_of (some login) = some login.shown

unfoldable pub get_login : String → World → Option DeviceLoginRecord
unfolding lookup
get_login login_id w = shown_of (lookup login_id w.devices.logins)

abbrev pub same_status : DeviceLoginStatus → DeviceLoginStatus → Bool
same_status pending pending = true
same_status ready ready = true
same_status expired expired = true
same_status failed failed = true
same_status _ _ = false

-- No expected status is the empty one of the code.
abbrev pub is_expected : Option DeviceLoginStatus → DeviceLoginStatus → Bool
is_expected none status = true
is_expected (some expected) status = same_status status expected

abbrev pub status_on :
    String
    → Option DeviceLoginStatus
    → DeviceLoginStatus
    → String
    → Option PendingLogin
    → Dict PendingLogin
    → Dict PendingLogin
status_on login_id expected status message none m = m
status_on login_id expected status message (some login) m =
    if is_expected expected login.shown.status
    then insert login_id
        (record login { shown = record login.shown { status = status; error = message } }) m
    else m

unfoldable pub set_status :
    String
    → Option DeviceLoginStatus
    → DeviceLoginStatus
    → String
    → Dict PendingLogin
    → Dict PendingLogin
unfolding lookup insert
set_status login_id expected status message m =
    status_on login_id expected status message (lookup login_id m) m

abbrev pub is_stale : ℕ → PendingLogin → Bool
is_stale now login = ltb login.shown.expires_at now && not (same_status login.shown.status pending)

unfoldable pub delete_expired : ℕ → World → World
unfolding delete_where
delete_expired now w = record w {
  devices = record w.devices { logins = delete_where (is_stale now) w.devices.logins };
}

-- Close up to its wait, which ends when no goroutine is left.
abbrev pub close : World → World
close w = record w { devices = record w.devices { closed = true } }
