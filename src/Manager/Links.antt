-- ===== src/Manager/Links.antt =====
-- The manager's calls keep what ties the maps of the accounts together.
use chatgpt_codex_proxy.Base.{ℕ, ◌+◌, inl, inr, Option, some, String, if_keeps, Option-cases}
use chatgpt_codex_proxy.Accounts.Types.{Record, expired}
use chatgpt_codex_proxy.Accounts.Service.{Service, Env, Result, ok, err, panic}
use chatgpt_codex_proxy.Accounts.Service.Calls.{step, marks, cools, authenticates}
use chatgpt_codex_proxy.Accounts.Service.Moves.Step.{step-keeps}
use chatgpt_codex_proxy.Accounts.Service.Links.{IsLinked}
use chatgpt_codex_proxy.Accounts.Service.Links.Ops.{keeps_links}
use chatgpt_codex_proxy.Login.{
  RefreshFailure, is_terminal_credential_failure, Refreshed, renewed, failed_refresh,
}
use chatgpt_codex_proxy.Manager.{
  AccountManager, Answer, done, failed, panicked, Visit, default_rate_limit_fallback,
  mark_refresh_failure, read_updated, store_refreshed, refresh_locked, settled, go_on,
  ensure_locked, ensure_ready, get_record,
}
use chatgpt_codex_proxy.Manager.Steps.{get_record-IsLinked}

-- What others do during a run of ensureReady keeps the accounts linked.
pub record IsOrderly (v : Visit) : Type 0 where
  pub starting : (s : Service) → IsLinked s → IsLinked (v.before s)
  pub locking : (s : Service) → IsLinked s → IsLinked (v.meanwhile s)
  pub exchanging : (s : Service) → IsLinked s → IsLinked (v.while_exchanging s)
  pub updating : (s : Service) → IsLinked s → IsLinked (v.after_update s)

mark_refresh_failure-IsLinked :
    (m : AccountManager) (env : Env) (now : ℕ) (id : String) (f : RefreshFailure) (s : Service)
    → IsLinked s
    → IsLinked (mark_refresh_failure m env now id f s)
unfolding mark_refresh_failure step
mark_refresh_failure-IsLinked m env now id f s h =
    if_keeps IsLinked (is_terminal_credential_failure m.oauth f)
      (λ _. step-keeps IsLinked (keeps_links env) (marks id expired f.message) s h)
      (λ _.
        step-keeps IsLinked (keeps_links env)
          (cools id (some (now + default_rate_limit_fallback)) f.message) s h)

read_updated-IsLinked :
    (v : Visit) (id : String) (s : Service) (answer : Result (Unit {0}))
    → IsOrderly v
    → IsLinked s
    → IsLinked (read_updated v id s answer).0
read_updated-IsLinked v id s (ok _) o h = get_record-IsLinked v.last id _ (o.updating s h)
read_updated-IsLinked v id s (err e) o h = h
read_updated-IsLinked v id s panic o h = h

store_refreshed-IsLinked :
    (m : AccountManager) (v : Visit) (r : Record) (s : Service) (answer : Refreshed)
    → IsOrderly v
    → IsLinked s
    → IsLinked (store_refreshed m v r s answer).0
unfolding step
store_refreshed-IsLinked m v r s (failed_refresh f) o h =
    mark_refresh_failure-IsLinked m v.update v.failed_at r.id f s h
store_refreshed-IsLinked m v r s (renewed token account_id) o h =
    read_updated-IsLinked v r.id _ _ o
      (step-keeps IsLinked (keeps_links v.update) (authenticates r.id account_id token) s h)

pub refresh_locked-IsLinked :
    (m : AccountManager) (v : Visit) (r : Record) (s : Service)
    → IsOrderly v
    → IsLinked s
    → IsLinked (refresh_locked m v r s).0
unfolding refresh_locked
refresh_locked-IsLinked m v r s o h = store_refreshed-IsLinked m v r _ _ o (o.exchanging s h)

pub go_on-keeps :
    (P : Service → Type 0) (test : Record → Option (Answer Record))
    (next : Record → Service → Service × Answer Record) (t : Service × Answer Record)
    → ((r : Record) (s : Service) → P s → P (next r s).0)
    → P t.0
    → P (go_on test next t).0
go_on-keeps P test next (s, done r) k h = elim (Option-cases (test r)) [
  | inl e ↦ rw (e, go_on) (k r s h)
  | inr (a, e) ↦ rw (e, go_on) h
]
go_on-keeps P test next (s, failed e) k h = h
go_on-keeps P test next (s, panicked) k h = h

pub ensure_ready-IsLinked :
    (m : AccountManager) (v : Visit) (id : String) (s : Service)
    → IsOrderly v
    → IsLinked s
    → IsLinked (ensure_ready m v id s).0
unfolding ensure_ready ensure_locked
ensure_ready-IsLinked m v id s o h =
    go_on-keeps IsLinked (settled m v.checked_at) (λ _ t. ensure_locked m v id (v.meanwhile t))
      (get_record v.first id (v.before s))
      (λ _ t k.
        go_on-keeps IsLinked (settled m v.rechecked_at) (refresh_locked m v)
          (get_record v.second id (v.meanwhile t)) (λ r u. refresh_locked-IsLinked m v r u o)
          (get_record-IsLinked v.second id _ (o.locking t k)))
      (get_record-IsLinked v.first id _ (o.starting s h))
