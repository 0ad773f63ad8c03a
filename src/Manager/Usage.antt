-- ===== src/Manager/Usage.antt =====
-- internal/accountmanager/manager.go, Refresh and GetUsage: calls that hold a slot to their end, and give it back by
-- a deferred release, so also where they panic.
pub mod Sound
use chatgpt_codex_proxy.Base.{
  ◌≡◌, Bool, true, false, Option, none, some, String, if◌then◌else◌, if_keeps,
}
use chatgpt_codex_proxy.Accounts.Types.{Record, QuotaSnapshot}
use chatgpt_codex_proxy.Accounts.Service.{Service, Env, Error, Result, ok, err, panic}
use chatgpt_codex_proxy.Accounts.Service.Reads.{get_account}
use chatgpt_codex_proxy.Accounts.Service.Ops.{observe_quota}
use chatgpt_codex_proxy.Capacity.{Ending, leased, closed_error, cancelled}
use chatgpt_codex_proxy.Manager.{
  AccountManager, ManagerError, from_accounts, no_such_account, disappeared, coordinator_closed,
  context_ended, Answer, done, failed, panicked, Visit, get_record, go_on, refresh_locked,
}
use chatgpt_codex_proxy.Manager.Lease.{
  Pool, Errand, acquire_slot, give_back, in_service, acquire_specific_lease,
}

-- Under the lock of the account, for which the call waits with its slot.
abbrev pub forced : AccountManager → Visit → String → Service → Service × Answer Record
forced m v id s = go_on (λ _. none) (refresh_locked m v) (get_record v.first id (v.meanwhile s))

abbrev pub released : {A : Type 0} → String → Pool × A → Pool × A
released id (p, a) = (give_back id p, a)

abbrev pub on_forced : AccountManager → Errand → String → Pool × Ending → Pool × Answer Record
on_forced m x id (p, leased) = released id (in_service (forced m x.visit id p.service) p)
on_forced m x id (p, closed_error) = (p, failed coordinator_closed)
on_forced m x id (p, cancelled) = (p, failed context_ended)

unfoldable pub refresh_account : AccountManager → Errand → String → Pool → Pool × Answer Record
unfolding get_record refresh_locked acquire_slot
refresh_account m x id p = on_forced m x id (acquire_slot x id p)

-- The answer of `http.GetUsage`, which is a parameter.
pub data UsageReply : Type 0 where
  quota_read : Option QuotaSnapshot → UsageReply
  not_read : String → UsageReply

-- An account with its quota; an error of the request or of the store with the account that was
-- asked about; an error without an account.
pub data Usage : Type 0 where
  known : Record → Option QuotaSnapshot → Usage
  unread : Record → String → Usage
  unsaved : Record → Error → Usage
  unknown : ManagerError → Usage
  usage_panicked : Usage

pub record Inquiry : Type 0 where
  pub fetch : Record → UsageReply
  pub while_fetching : Pool → Pool
  pub observed_in : Env
  pub before_reread : Service → Service
  pub reread_in : Env

abbrev pub cached_usage : Result (Option Record) → Usage
cached_usage (ok (some r)) = known r r.cached_quota
cached_usage (ok none) = unknown no_such_account
cached_usage (err e) = unknown (from_accounts e)
cached_usage panic = usage_panicked

abbrev pub reread_usage : Option QuotaSnapshot → Result (Option Record) → Usage
reread_usage quota (ok (some r)) = known r quota
reread_usage quota (ok none) = unknown disappeared
reread_usage quota (err e) = unknown (from_accounts e)
reread_usage quota panic = usage_panicked

abbrev pub after_observing :
    Inquiry → Record → Option QuotaSnapshot → Pool → Result (Unit {0}) → Pool × Usage
after_observing q r quota p (ok _) =
    let found = get_account q.reread_in r.id (q.before_reread p.service) in
    (record p { service = found.0 }, reread_usage quota found.1)
after_observing q r quota p (err e) = (p, unsaved r e)
after_observing q r quota p panic = (p, usage_panicked)

abbrev pub after_fetching : Inquiry → Record → Pool → UsageReply → Pool × Usage
after_fetching q r p (quota_read quota) =
    let saved = observe_quota q.observed_in r.id quota p.service in
    after_observing q r quota (record p { service = saved.0 }) saved.1
after_fetching q r p (not_read message) = (p, unread r message)

-- The slot that is given back is that of the account that the call asked for.
abbrev pub on_lease : Inquiry → String → Pool × Answer Record → Pool × Usage
on_lease q id (p, done r) = released id (after_fetching q r (q.while_fetching p) (q.fetch r))
on_lease q id (p, failed e) = (p, unknown e)
on_lease q id (p, panicked) = (p, usage_panicked)

abbrev pub from_cache : Env → String → Pool → Pool × Usage
from_cache env id p =
    let found = get_account env id p.service in
    (record p { service = found.0 }, cached_usage found.1)

unfoldable pub get_usage : AccountManager → Errand → Inquiry → String → Bool → Pool → Pool × Usage
unfolding get_account observe_quota acquire_specific_lease
get_usage m x q id cached p =
    if cached
    then from_cache x.found_in id p
    else on_lease q id (acquire_specific_lease m x id true p)
