-- ===== src/Manager/Failure.antt =====
-- What a failed refresh does to the account: routing leaves it alone.
use text.Mathlib.TextPositions.{eq_refl}
use chatgpt_codex_proxy.Base.{
  is_some, ℕ, ◌+◌, ◌≡◌, ◌<◌, ◌⊎◌, inl, inr, refl, ap, ◌∙◌, true, false, none, some, String, arith,
  Bool-cases,
}
use chatgpt_codex_proxy.Base.Text.{trim_space}
use chatgpt_codex_proxy.Base.Dict.{lookup, insert, lookup-insert}
use chatgpt_codex_proxy.Base.Dict.Entries.{has}
use chatgpt_codex_proxy.Accounts.Types.{Record, expired}
use chatgpt_codex_proxy.Accounts.Quota.{is_eligible}
use chatgpt_codex_proxy.Accounts.Service.{Service, Env, persist}
use chatgpt_codex_proxy.Accounts.Service.Ops.{mark_error, set_cooldown, save_record}
use chatgpt_codex_proxy.Accounts.Service.Reads.{eligible_in}
use chatgpt_codex_proxy.Login.{RefreshFailure, is_terminal_credential_failure}
use chatgpt_codex_proxy.Manager.{AccountManager, default_rate_limit_fallback, mark_refresh_failure}

persist-records : (env : Env) (s : Service) → (persist env s).0.records ≡ s.records
unfolding persist
persist-records env s = ground arith

pub saved_lookup :
    (env : Env) (id : String) (r : Record) (s : Service)
    → lookup id (save_record env id r s).0.records ≡ some r
saved_lookup env id r s = ground (
  arith,
  persist-records env (record s { records = insert id r s.records }),
  lookup-insert id id r s.records,
  eq_refl id,
)

-- The record that is left, which cannot be used.
failure_record :
    (m : AccountManager) (env : Env) (now : ℕ) (id : String) (f : RefreshFailure) (s : Service)
    (r : Record) (t : ℕ)
    → lookup id s.records ≡ some r
    → (is_terminal_credential_failure m.oauth f ≡ true) ⊎ (t < now + default_rate_limit_fallback)
    → (r' : Record) × (lookup id (mark_refresh_failure m env now id f s).records ≡ some r')
      × (is_eligible r' t ≡ false)
unfolding mark_refresh_failure mark_error set_cooldown is_eligible
failure_record m env now id f s r t e c =
    elim (Bool-cases (is_terminal_credential_failure m.oauth f)) [
      | inl k ↦ (
        record r {
          status = expired;
          last_error = trim_space f.message;
          cooldown_until = none;
          updated_at = env.now;
        },
        (rw (k, e, mark_refresh_failure, mark_error) (saved_lookup env id _ s)),
        refl,
      )
      | inr k ↦ (
        record r {
          cooldown_until = some (now + default_rate_limit_fallback);
          last_error = trim_space f.message;
          updated_at = env.now;
        },
        (rw (k, e, mark_refresh_failure, set_cooldown) (saved_lookup env id _ s)),
        ground (arith, k, c),
      )
    ]

-- After markRefreshFailure on an account of the service, whatever the store answers, the account
-- is still there and is not eligible: at no time if the failure is a terminal one of the
-- credentials, and at no time before the fallback of 60 seconds has passed if it is not.
pub mark_refresh_failure-blocks :
    (m : AccountManager) (env : Env) (now : ℕ) (id : String) (f : RefreshFailure) (s : Service)
    (r : Record) (t : ℕ)
    → lookup id s.records ≡ some r
    → (is_terminal_credential_failure m.oauth f ≡ true) ⊎ (t < now + default_rate_limit_fallback)
    → (has id (mark_refresh_failure m env now id f s).records ≡ true)
      × (eligible_in (lookup id (mark_refresh_failure m env now id f s).records) t ≡ false)
mark_refresh_failure-blocks m env now id f s r t e c =
    let (r', q, blocked) = failure_record m env now id f s r t e c in
    (ap is_some q, ap (λ o. eligible_in o t) q ∙ blocked)
