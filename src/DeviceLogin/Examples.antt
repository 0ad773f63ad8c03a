-- ===== src/DeviceLogin/Examples.antt =====
-- A device login from its start to an account, and one that a close ends.
use chatgpt_codex_proxy.Base.{◌≡◌, refl, false, true, none, some, List, [], ◌∷◌, ℕ, String}
use chatgpt_codex_proxy.Base.Int.{pos}
use chatgpt_codex_proxy.Base.Text.{trim_space}
use chatgpt_codex_proxy.Accounts.Examples.{token}
use chatgpt_codex_proxy.Accounts.Service.{Service, Env, least_used}
use chatgpt_codex_proxy.Accounts.Service.Ops.{upsert_from_token}
use chatgpt_codex_proxy.DeviceLogin.{ready, DeviceLoginRecord, CodeRequest, code_given, get_login}
use chatgpt_codex_proxy.DeviceLogin.Tick.{DeviceAuth, authorized, not_yet, exchanged}
use chatgpt_codex_proxy.DeviceLogin.Polls.{
  Event, starts, ticks, settles_login, closes, run, new_service,
}
use chatgpt_codex_proxy.DeviceLogin.Polls.Shown.{
  Shows, get_login-Shows, endings, is_waiting, close_settles,
}

abbrev service : Service
service = record {
  records = [];
  rotation_strategy = least_used;
  round_robin_index = 0;
  sticky_account_id = "";
  thread_affinity_ttl = 100;
  thread_affinities = [];
  disk = record { records = []; rotation_strategy = least_used };
}

abbrev env : Env
env = record { now = 50; save_error = none; next_account_id = "n"; decode_payload = λ _. none }

abbrev auth : DeviceAuth
auth = record {
  poll_device_code = λ _ _. authorized "c" "v";
  exchange_authorization_code = λ _ _. exchanged token "a";
  to_lower = λ text. text;
}

abbrev waiting : DeviceAuth
waiting = record auth { poll_device_code = λ _ _. not_yet }

abbrev format : ℕ → String
format _ = "7"

abbrev request : CodeRequest
request = code_given (record { user_code = "u"; device_auth_id = "d"; interval = pos 1 })

abbrev shown : DeviceLoginRecord
shown = record {
  login_id = "login_7";
  auth_url = "url";
  user_code = "u";
  status = ready;
  error = "";
  created_at = 7;
  expires_at = 107;
}

abbrev logged_in : List Event
logged_in = starts 7 "url" request ∷ ticks 0 waiting env ∷ ticks 0 auth env ∷ settles_login 0 ∷ []

logged_in-shown : get_login "login_7" (run format (new_service 100 service) logged_in) ≡ some shown
unfolding get_login run upsert_from_token trim_space
logged_in-shown = refl

get_login-Shows_example : Shows (run format (new_service 100 service) logged_in) shown "login_7"
get_login-Shows_example =
    get_login-Shows format 100 service logged_in "login_7" shown logged_in-shown

abbrev cut_short : List Event
cut_short = starts 7 "url" request ∷ ticks 0 waiting env ∷ closes ∷ []

cut_short-closed : (run format (new_service 100 service) cut_short).devices.closed ≡ true
unfolding run trim_space
cut_short-closed = refl

close_settles_example :
    ((run format
        (run format (new_service 100 service) cut_short)
        (endings 9 (run format (new_service 100 service) cut_short).polls)).polls
      ≡ [])
    × (is_waiting (
          get_login "login_7" (
            run format
              (run format (new_service 100 service) cut_short)
              (endings 9 (run format (new_service 100 service) cut_short).polls)))
        ≡ false)
unfolding run trim_space
close_settles_example =
    close_settles format 100 9 service cut_short "login_7" cut_short-closed (refl, tt)
