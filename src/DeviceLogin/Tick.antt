-- ===== src/DeviceLogin/Tick.antt =====
-- internal/devicelogin/service.go: the case of the ticker in poll, which asks the login service and adds the account.
use Prim.Native.Char.{code}
use chatgpt_codex_proxy.Base.{
  Bool, true, false, Option, some, ◌&&◌, ◌||◌, none, String, ◌==◌, if◌then◌else◌,
}
use chatgpt_codex_proxy.Base.Text.{trim_space, is_empty}
use chatgpt_codex_proxy.Accounts.Types.{Record, OAuthToken}
use chatgpt_codex_proxy.Accounts.Service.{
  Service, Env, Error, store_error, account_not_found, no_active_accounts, ambiguous_reference,
  Result, ok, err, panic,
}
use chatgpt_codex_proxy.Accounts.Service.Ops.{upsert_from_token}
use chatgpt_codex_proxy.DeviceLogin.{failed, ready, Phase, polling, settles, panicked, PendingLogin}

abbrev pub starts_with : String → String → Bool
starts_with String.[] s = true
starts_with (String.◌∷◌ c p) String.[] = false
starts_with (String.◌∷◌ c p) (String.◌∷◌ d s) = (code c == code d) && starts_with p s

-- `strings.Contains`
unfoldable pub contains_text : String → String → Bool
contains_text String.[] part = starts_with part String.[]
contains_text (String.◌∷◌ c s) part = starts_with part (String.◌∷◌ c s) || contains_text s part

pub data Exchange : Type 0 where
  exchanged : OAuthToken → String → Exchange
  exchange_failed : String → Exchange

pub data PollAnswer : Type 0 where
  authorized : String → String → PollAnswer
  not_yet : PollAnswer
  poll_failed : String → PollAnswer

-- PollDeviceCode and ExchangeAuthorizationCode at the time of a tick, and strings.ToLower.
pub record DeviceAuth : Type 0 where
  pub poll_device_code : String → String → PollAnswer
  pub exchange_authorization_code : String → String → Exchange
  pub to_lower : String → String

-- UpsertFromToken passes on the errors of the store alone.
abbrev pub error_text : Error → String
error_text (store_error message) = message
error_text account_not_found = "account not found"
error_text no_active_accounts = "no active accounts"
error_text ambiguous_reference = "account reference is ambiguous"

abbrev pub on_upserted : Result Record → Phase
on_upserted (ok _) = settles none ready ""
on_upserted (err e) = settles none failed (error_text e)
on_upserted panic = panicked

-- What a case of the select leaves: the accounts, what UpsertFromToken answered, if it was called,
-- and what the goroutine does next.
pub record Ticked : Type 0 where
  pub accounts : Service
  pub upsert : Option (Result Record)
  pub phase : Phase

abbrev pub unasked : Service → Phase → Ticked
unasked s phase = record { accounts = s; upsert = none; phase = phase }

abbrev pub on_exchanged : Env → Exchange → Service → Ticked
on_exchanged env (exchange_failed message) s = unasked s (settles none failed message)
on_exchanged env (exchanged token account_id) s =
    let upserted = upsert_from_token env account_id token s in
    if is_empty (trim_space account_id)
    then unasked s (settles none failed "oauth exchange did not return account_id")
    else record { accounts = upserted.0; upsert = some upserted.1; phase = on_upserted upserted.1 }

abbrev pub on_polled : DeviceAuth → Env → PollAnswer → Service → Ticked
on_polled o env not_yet s = unasked s polling
on_polled o env (poll_failed message) s =
    let text = o.to_lower message in
    if contains_text text "authorization_pending" || contains_text text "not found"
    then unasked s polling
    else unasked s (settles none failed message)
on_polled o env (authorized authorization_code verifier) s =
    on_exchanged env (o.exchange_authorization_code authorization_code verifier) s

-- The case of the ticker.
unfoldable pub on_tick : DeviceAuth → Env → PendingLogin → Service → Ticked
unfolding contains_text upsert_from_token trim_space
on_tick o env login s =
    on_polled o env (o.poll_device_code login.device_auth_id login.shown.user_code) s
