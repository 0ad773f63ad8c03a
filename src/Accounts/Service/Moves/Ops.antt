-- ===== src/Accounts/Service/Moves/Ops.antt =====
-- The operations on accounts, by their elementary changes.
use chatgpt_codex_proxy.Base.{
  ℕ, ◌≡◌, refl, Option, none, some, inl, inr, String, arith, Bool-cases, Option-cases,
}
use chatgpt_codex_proxy.Base.Text.{trim_space}
use chatgpt_codex_proxy.Base.Dict.{lookup}
use chatgpt_codex_proxy.Accounts.Types.{Status, Record, OAuthToken, QuotaSnapshot, clone_record}
use chatgpt_codex_proxy.Accounts.Quota.{quota_blocks_general_routing, normalize_quota_snapshot}
use chatgpt_codex_proxy.Accounts.Metadata.{metadata_from_token}
use chatgpt_codex_proxy.Accounts.Service.{Service, Env, Result, Op, then_on}
use chatgpt_codex_proxy.Accounts.Service.Ops.{
  with_label, with_status, with_plan, find_same, store_record, save_record, upsert_from_token,
  patch, observe_snapshot, observe_quota, prolong, update_auth, mark_error, set_cooldown,
}
use chatgpt_codex_proxy.Accounts.Service.Moves.{Keeps}

module _ {ℓ} (P : Service → Type ℓ) where
  pub then_on-keeps :
      {A B : Type 0} (s : Service) (r : Result A) (f : A → Op B)
      → P s
      → ((a : A) → P (f a s).0)
      → P (then_on s r f).0
  then_on-keeps s (Result.ok a) f h k = k a
  then_on-keeps s (Result.err e) f h k = h
  then_on-keeps s Result.panic f h k = h

patched_id :
    (label : Option String) (status : Option Status) (r : Record)
    → (with_status status (with_label label r)).id ≡ r.id
patched_id label status r = ground arith

with_plan-id : (plan : String) (r : Record) → (with_plan plan r).id ≡ r.id
with_plan-id plan r = ground arith

module _ {env : Env} (P : Service → Type 0) (k : Keeps env P) where
  stored-keeps :
      (id : String) (r : Record) (s : Service)
      → P (save_record env id r s).0
      → P (store_record env id r s).0
  stored-keeps id r s h =
      then_on-keeps P t.0 t.1 (λ _ u. (u, Result.ok (clone_record r))) h (λ _. h)
    where
      t : Service × Result (Unit {0})
      t = save_record env id r s

  pub upsert_from_token-keeps :
      (account_id : String) (token : OAuthToken) (s : Service)
      → P s
      → P (upsert_from_token env account_id token s).0
  unfolding upsert_from_token
  upsert_from_token-keeps account_id token s h =
      elim (Option-cases (find_same account_id user_id s.records)) [
        | inl e ↦ rw (e, upsert_from_token) (stored-keeps env.next_account_id _ s (k.adds s _ h))
        | inr ((key, r), e) ↦
            rw (e, upsert_from_token)
              (stored-keeps key _ s (k.saves_same s account_id user_id key r _ e refl h))
      ]
    where
      user_id : String
      user_id = (metadata_from_token env.decode_payload token).user_id

  pub patch-keeps :
      (id : String) (label : Option String) (status : Option Status) (s : Service)
      → P s
      → P (patch env id label status s).0
  unfolding patch
  patch-keeps id label status s h = elim (Option-cases (lookup id s.records)) [
    | inl e ↦ rw (e, patch) h
    | inr (r, e) ↦
        rw (e, patch) (stored-keeps id _ s (k.saves s id r _ e (patched_id label status r) h))
  ]

  pub observe_snapshot-keeps :
      (id : String) (r : Record) (q : QuotaSnapshot) (s : Service)
      → P s
      → lookup id s.records ≡ some r
      → P (observe_snapshot env id r q s).0
  unfolding observe_snapshot
  observe_snapshot-keeps id r q s h e =
      elim (Bool-cases (quota_blocks_general_routing (some fresh) env.now)) [
        | inl t ↦ rw (t, observe_snapshot) (k.saves s id r _ e planned_id h)
        | inr t ↦
            rw (t, observe_snapshot)
              (k.saves (record s { thread_affinities = prolong s id env.now }) id r _ e planned_id
                (k.prolongs s id env.now h))
      ]
    where
      fresh : QuotaSnapshot
      fresh = (normalize_quota_snapshot q env.now).0

      planned_id :
          (with_plan (trim_space fresh.plan_type) (record r { cached_quota = some fresh })).id
          ≡ r.id
      planned_id =
          with_plan-id (trim_space fresh.plan_type) (record r { cached_quota = some fresh })

  pub observe_quota-keeps :
      (id : String) (quota : Option QuotaSnapshot) (s : Service)
      → P s
      → P (observe_quota env id quota s).0
  unfolding observe_quota
  observe_quota-keeps id none s h = elim (Option-cases (lookup id s.records)) [
    | inl e ↦ rw (e, observe_quota) h
    | inr (r, e) ↦ rw (e, observe_quota) (k.saves s id r _ e refl h)
  ]
  observe_quota-keeps id (some q) s h = elim (Option-cases (lookup id s.records)) [
    | inl e ↦ rw (e, observe_quota) h
    | inr (r, e) ↦ rw (e, observe_quota) (observe_snapshot-keeps id r q s h e)
  ]

  pub update_auth-keeps :
      (id account_id : String) (token : OAuthToken) (s : Service)
      → P s
      → P (update_auth env id account_id token s).0
  unfolding update_auth
  update_auth-keeps id account_id token s h = elim (Option-cases (lookup id s.records)) [
    | inl e ↦ rw (e, update_auth) h
    | inr (r, e) ↦ rw (e, update_auth) (k.saves s id r _ e refl h)
  ]

  pub mark_error-keeps :
      (id : String) (status : Status) (message : String) (s : Service)
      → P s
      → P (mark_error env id status message s).0
  unfolding mark_error
  mark_error-keeps id status message s h = elim (Option-cases (lookup id s.records)) [
    | inl e ↦ rw (e, mark_error) h
    | inr (r, e) ↦ rw (e, mark_error) (k.saves s id r _ e refl h)
  ]

  pub set_cooldown-keeps :
      (id : String) (until : Option ℕ) (message : String) (s : Service)
      → P s
      → P (set_cooldown env id until message s).0
  unfolding set_cooldown
  set_cooldown-keeps id until message s h = elim (Option-cases (lookup id s.records)) [
    | inl e ↦ rw (e, set_cooldown) h
    | inr (r, e) ↦ rw (e, set_cooldown) (k.saves s id r _ e refl h)
  ]
