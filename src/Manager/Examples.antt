-- ===== src/Manager/Examples.antt =====
-- A manager whose login service renews each token, and one whose login service refuses.
mod Rounds
use chatgpt_codex_proxy.Base.{[], false, ℕ, ◌≡◌, refl, true, none, some, ◌∷◌, String, inl, ap, sym}
use chatgpt_codex_proxy.Base.Int.{pos}
use chatgpt_codex_proxy.Base.Text.{trim_space, is_empty}
use chatgpt_codex_proxy.Base.Dict.{lookup, insert}
use chatgpt_codex_proxy.Base.Dict.Entries.{has}
use chatgpt_codex_proxy.Accounts.Types.{Status, OAuthToken, Record, clone_record}
use chatgpt_codex_proxy.Accounts.Service.{Service, Env, least_used, refresh_all}
use chatgpt_codex_proxy.Accounts.Service.Ops.{update_auth}
use chatgpt_codex_proxy.Accounts.Service.Reads.{eligible_in, get_account}
use chatgpt_codex_proxy.Accounts.Service.Links.{IsLinked}
use chatgpt_codex_proxy.Login.{
  OauthTokenResponse, Exchanged, answered, refused, RefreshFailure, is_terminal_credential_failure,
  refresh, renewed,
}
use chatgpt_codex_proxy.Manager.{
  AccountManager, Visit, done, mark_refresh_failure, ensure_ready, ensure_locked, refresh_locked,
  get_record,
}
use chatgpt_codex_proxy.Capacity.History.{IsBalanced}
use chatgpt_codex_proxy.Capacity.Promises.{start, start-IsBalanced}
use chatgpt_codex_proxy.Manager.Lease.{
  Pool, Errand, with_slot, acquire_specific_lease, Settles, with_slot-Settles,
  acquire_specific_lease-IsBalanced,
}
use chatgpt_codex_proxy.Manager.Failure.{mark_refresh_failure-blocks}
use chatgpt_codex_proxy.Manager.Steps.{IsUsable}
use chatgpt_codex_proxy.Manager.Links.{IsOrderly}
use chatgpt_codex_proxy.Manager.Disabled.{HandsOutDisabled, refresh_locked-HandsOutDisabled}
use chatgpt_codex_proxy.Manager.Open.{Renews}
use chatgpt_codex_proxy.Manager.Ready.{ensure_ready-IsUsable}

abbrev old_token : OAuthToken
old_token = record { access_token = "old"; refresh_token = "r"; expires_at = 100 }

abbrev new_token : OAuthToken
new_token = record { access_token = "new"; refresh_token = "r"; expires_at = 3600000000072 }

abbrev answer : OauthTokenResponse
answer = record { access_token = "new"; refresh_token = ""; id_token = "id"; expires_in = none }

abbrev manager : AccountManager
manager = record {
  refresh_skew = pos 50;
  oauth = record {
    exchange = λ _. answered answer;
    decode_claims = λ _. record { chatgpt_account_id = ""; auth_account_id = "up" };
    equal_fold = λ _ _. true;
  };
}

abbrev account : Record
account = record {
  id = "a";
  account_id = "up";
  user_id = "";
  email = "";
  plan_type = "";
  label = "";
  status = Status.active;
  last_error = "";
  token = old_token;
  cookies = some [];
  cached_quota = none;
  cooldown_until = none;
  created_at = 1;
  updated_at = 1;
}

abbrev service : Service
service = record {
  records = ("a", account) ∷ [];
  rotation_strategy = least_used;
  round_robin_index = 0;
  sticky_account_id = "";
  thread_affinity_ttl = 10;
  thread_affinities = [];
  disk = record { records = account ∷ []; rotation_strategy = least_used };
}

abbrev at : ℕ → Env
at now = record { now = now; save_error = none; next_account_id = "b"; decode_payload = λ _. none }

abbrev visit : Visit
visit = record {
  first = at 70;
  second = at 71;
  update = at 75;
  last = at 76;
  checked_at = 70;
  rechecked_at = 71;
  exchanged_at = 72;
  failed_at = 75;
  before = λ s. s;
  meanwhile = λ s. s;
  while_exchanging = λ s. s;
  after_update = λ s. s;
}

abbrev renewed_account : Record
renewed_account = record account { token = new_token; updated_at = 75 }

manager-Renews : Renews manager
manager-Renews token raw e = ap (λ x. is_empty (text_of x)) (sym e)
  where
    text_of : Exchanged → String
    text_of (answered r) = r.access_token
    text_of (refused _) = ""

service-IsLinked : IsLinked service
service-IsLinked = record { keyed = (refl, tt); bound = tt; sticky = inl refl }

visit-renews : (ensure_ready manager visit "a" service).1 ≡ done renewed_account
unfolding ensure_ready ensure_locked refresh_locked refresh get_record get_account update_auth
    trim_space refresh_all clone_record
visit-renews = refl

visit-IsOrderly : IsOrderly visit
visit-IsOrderly = record {
  starting = λ s h. h;
  locking = λ s h. h;
  exchanging = λ s h. h;
  updating = λ s h. h;
}

ensure_ready-IsUsable_example : IsUsable renewed_account
ensure_ready-IsUsable_example =
    ensure_ready-IsUsable manager visit "a" service renewed_account manager-Renews visit-IsOrderly
      service-IsLinked (λ t h. h) (λ t h. h) visit-renews

abbrev revoked : RefreshFailure
revoked = record { code = some "invalid_grant"; message = "revoked" }

terminal : is_terminal_credential_failure manager.oauth revoked ≡ true
unfolding is_terminal_credential_failure
terminal = refl

service-account : lookup "a" service.records ≡ some account
unfolding lookup
service-account = refl

mark_refresh_failure-blocks_example :
    (has "a" (mark_refresh_failure manager (at 80) 80 "a" revoked service).records ≡ true)
    × (eligible_in
          (lookup "a" (mark_refresh_failure manager (at 80) 80 "a" revoked service).records)
          500
        ≡ false)
mark_refresh_failure-blocks_example =
    mark_refresh_failure-blocks manager (at 80) 80 "a" revoked service account 500 service-account
      (inl terminal)

abbrev pool : Pool
pool = record { service = service; slots = start (pos 1) }

abbrev errand : Errand
errand = record {
  found_in = at 68;
  eligible_in_env = at 69;
  visit = visit;
  before_enter = λ p. p;
  while_waiting = λ p. p;
  once_leased = λ p. p;
  is_cancelled = false;
}

with_slot-Settles_example : Settles "a" pool.slots (with_slot manager errand "a" true pool)
with_slot-Settles_example = with_slot-Settles manager errand "a" true pool
