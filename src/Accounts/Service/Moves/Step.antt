-- ===== src/Accounts/Service/Moves/Step.antt =====
-- Every call of the service, by its elementary changes.
use chatgpt_codex_proxy.Base.{List, [], ◌∷◌}
use chatgpt_codex_proxy.Base.{All}
use chatgpt_codex_proxy.Accounts.Service.{Service, Env, Result, then_on, refresh_all}
use chatgpt_codex_proxy.Accounts.Service.Ops.{set_rotation_strategy}
use chatgpt_codex_proxy.Accounts.Service.Reads.{
  list, get_account, eligible_now, earliest_availability,
}
use chatgpt_codex_proxy.Accounts.Service.Calls.{
  Call, step, run, lists, gets, tests_eligible, asks_availability, upserts, removes, patches,
  observes, authenticates, marks, cools, switches, succeeds, sets_ttl, thread_succeeds,
  thread_fails, sweeps, acquires, acquires_thread, asks_affinity,
}
use chatgpt_codex_proxy.Accounts.Service.Moves.{Keeps}
use chatgpt_codex_proxy.Accounts.Service.Moves.Ops.{
  then_on-keeps, upsert_from_token-keeps, patch-keeps, observe_quota-keeps, update_auth-keeps,
  mark_error-keeps, set_cooldown-keeps,
}
use chatgpt_codex_proxy.Accounts.Service.Moves.Bindings.{
  note_success-keeps, set_thread_affinity_ttl-keeps, note_thread_success-keeps,
  note_thread_quota_failure-keeps,
}
use chatgpt_codex_proxy.Accounts.Service.Moves.Routing.{
  acquire_matching-keeps, acquire_thread-keeps, thread_affinity-keeps,
}

module _ {env : Env} (P : Service → Type 0) (k : Keeps env P) where
  -- An operation that refreshes and then only reads.
  refreshing-keeps :
      {A : Type 0} (s : Service) (f : Service → A)
      → P s
      → P (then_on (refresh_all env s).0 (refresh_all env s).1 (λ _ t. (t, Result.ok (f t)))).0
  refreshing-keeps s f h =
      then_on-keeps P (refresh_all env s).0 (refresh_all env s).1 (λ _ t. (t, Result.ok (f t)))
        (k.refreshes s h) (λ _. k.refreshes s h)

  -- Every call keeps what its elementary changes keep.
  pub step-keeps : (c : Call) (s : Service) → P s → P (step env c s)
  unfolding step list get_account eligible_now earliest_availability set_rotation_strategy
  step-keeps lists s h = refreshing-keeps s _ h
  step-keeps (gets id) s h = refreshing-keeps s _ h
  step-keeps (tests_eligible id) s h = refreshing-keeps s _ h
  step-keeps (asks_availability allow) s h = refreshing-keeps s _ h
  step-keeps (upserts account_id token) s h = upsert_from_token-keeps P k account_id token s h
  step-keeps (removes id) s h = k.removes s id h
  step-keeps (patches id label status) s h = patch-keeps P k id label status s h
  step-keeps (observes id quota) s h = observe_quota-keeps P k id quota s h
  step-keeps (authenticates id account_id token) s h = update_auth-keeps P k id account_id token s h
  step-keeps (marks id status message) s h = mark_error-keeps P k id status message s h
  step-keeps (cools id until message) s h = set_cooldown-keeps P k id until message s h
  step-keeps (switches strategy) s h = k.switches s strategy h
  step-keeps (succeeds id) s h = note_success-keeps P k id s h
  step-keeps (sets_ttl ttl) s h = set_thread_affinity_ttl-keeps P k ttl s h
  step-keeps (thread_succeeds key id) s h = note_thread_success-keeps P k env.now key id s h
  step-keeps (thread_fails key id hold_until) s h =
      note_thread_quota_failure-keeps P k key id hold_until s h
  step-keeps sweeps s h = k.sweeps s env.now h
  step-keeps (acquires preferred_id allow) s h = acquire_matching-keeps P k preferred_id allow s h
  step-keeps (acquires_thread key preferred_id allow) s h =
      acquire_thread-keeps P k key preferred_id allow s h
  step-keeps (asks_affinity key allow) s h = thread_affinity-keeps P k key allow s h

-- A history keeps what each of its calls keeps, where each call meets what it must.
pub run-keeps :
    (P : Service → Type 0) (Meets : Env → Type 0)
    → ((env : Env) → Meets env → Keeps env P)
    → (s : Service) (cs : List (Env × Call)) → All (λ c. Meets c.0) cs
    → P s
    → P (run s cs)
unfolding run
run-keeps P Meets k s [] m h = h
run-keeps P Meets k s ((env, c) ∷ cs) m h =
    run-keeps P Meets k (step env c s) cs m.1 (step-keeps P (k env m.0) c s h)
