-- ===== src/Manager/Steps.antt =====
-- What the steps of EnsureReady say of the record that they read.
use chatgpt_codex_proxy.Base.{
  ℕ, ◌≡◌, ◌≢◌, ◌⊎◌, inl, inr, refl, ap, ◌∙◌, subst, Bool, true, false, Option, none, some, String,
  arith, Option-cases, if◌then◌else◌,
}
use chatgpt_codex_proxy.Base.Text.{trim_space, is_empty}
use chatgpt_codex_proxy.Base.Dict.{lookup, lookup-map_values}
use chatgpt_codex_proxy.Accounts.Types.{Status, OAuthToken, Record, clone_record, disabled}
use chatgpt_codex_proxy.Accounts.Metadata.{metadata_from_token}
use chatgpt_codex_proxy.Accounts.Service.{
  Service, Env, refresh_record, clear_expired_cooldown, normalize_cached_quota,
}
use chatgpt_codex_proxy.Accounts.Service.Ops.{if_given, update_auth, status_after_auth}
use chatgpt_codex_proxy.Accounts.Service.Reads.{get_account}
use chatgpt_codex_proxy.Accounts.Service.Calls.{step, gets}
use chatgpt_codex_proxy.Accounts.Service.Moves.Step.{step-keeps}
use chatgpt_codex_proxy.Accounts.Service.Threads.{refresh_all-frame}
use chatgpt_codex_proxy.Accounts.Service.Links.{IsLinked}
use chatgpt_codex_proxy.Accounts.Service.Links.Ops.{keeps_links}
use chatgpt_codex_proxy.Manager.{
  AccountManager, Answer, done, failed, panicked, validate_ready_record, get_record, outlives,
  settled, go_on,
}
use chatgpt_codex_proxy.Manager.Failure.{saved_lookup}

abbrev pub IsUsable : Record → Type 0
IsUsable r = (r.status ≢ disabled) × (is_empty r.token.access_token ≡ false)

pub refresh_record-kept :
    (now : ℕ) (r : Record)
    → ((refresh_record now r).0.status ≡ r.status)
      × ((refresh_record now r).0.token ≡ r.token)
      × ((refresh_record now r).0.id ≡ r.id)
unfolding refresh_record clear_expired_cooldown normalize_cached_quota
refresh_record-kept now r = ground arith

-- A record that is read is the refreshed record of the map.
pub get_record_done :
    (env : Env) (id : String) (s : Service) (r : Record)
    → (get_record env id s).1 ≡ done r
    → (x : Record) × (lookup id s.records ≡ some x)
      × (lookup id (get_record env id s).0.records ≡ some (refresh_record env.now x).0)
      × (r ≡ clone_record (refresh_record env.now x).0)
unfolding get_record get_account
get_record_done env id s r e = elim (Option-cases (lookup id s.records)) [
  | inl q ↦ absurd (
      ground (
        arith,
        q,
        refresh_all-frame env s,
        lookup-map_values id (λ (x : Record). (refresh_record env.now x).0) s.records,
      ))
  | inr (x, q) ↦ (
    x,
    q,
    ground (
      arith,
      q,
      refresh_all-frame env s,
      lookup-map_values id (λ (x : Record). (refresh_record env.now x).0) s.records,
    ),
    ground (
      arith,
      q,
      refresh_all-frame env s,
      lookup-map_values id (λ (x : Record). (refresh_record env.now x).0) s.records,
    ),
  )
]

pub update_auth_done :
    (env : Env) (id account_id : String) (token : OAuthToken) (s : Service) (x : Record)
    → lookup id s.records ≡ some x
    → (z : Record) × (lookup id (update_auth env id account_id token s).0.records ≡ some z)
      × (z.token ≡ token)
      × (z.status ≡ status_after_auth x.status)
unfolding update_auth
update_auth_done env id account_id token s x e =
    let metadata = metadata_from_token env.decode_payload token in
    (
      record x {
        account_id = if_given (trim_space account_id) x.account_id;
        token = token;
        email = if_given metadata.email x.email;
        plan_type = if_given metadata.plan_type x.plan_type;
        user_id = if_given metadata.user_id x.user_id;
        status = status_after_auth x.status;
        last_error = "";
        updated_at = env.now;
      },
      (rw (e, update_auth) (saved_lookup env id _ s)),
      refl,
      refl,
    )

pub status_after_auth-enabled :
    (status : Status) → status ≢ disabled → status_after_auth status ≢ disabled
status_after_auth-enabled Status.active h e = cc
status_after_auth-enabled Status.disabled h e = h refl
status_after_auth-enabled Status.expired h e = cc
status_after_auth-enabled Status.banned h e = cc
status_after_auth-enabled (Status.other t) h e = cc

validated : (r : Record) → validate_ready_record r ≡ none → IsUsable r
validated r h = (λ e. cc (e, h), ground (arith, h))

-- A step that goes on past a record was given one.
pub go_on_done :
    (test : Record → Option (Answer Record)) (next : Record → Service → Service × Answer Record)
    (p : Service × Answer Record) (r' : Record)
    → (go_on test next p).1 ≡ done r'
    → (r : Record) × (p.1 ≡ done r)
      × ((test r ≡ some (done r')) ⊎ ((test r ≡ none) × ((next r p.0).1 ≡ done r')))
go_on_done test next (s, failed x) r' e = absurd (cc e)
go_on_done test next (s, panicked) r' e = absurd (cc e)
go_on_done test next (s, done r) r' e = elim (Option-cases (test r)) [
  | inl q ↦ (r, refl, inr (q, (rw (q, go_on) at e)))
  | inr (a, q) ↦ (r, refl, inl (q ∙ ap some (rw (q, go_on) at e)))
]

pub settled_done :
    (m : AccountManager) (now : ℕ) (r r' : Record) → settled m now r ≡ some (done r') → IsUsable r'
settled_done m now r r' e = elim (Option-cases (validate_ready_record r)) [
  | inl q ↦
      subst IsUsable (same (outlives now m.refresh_skew r.token.expires_at) (rw (q, settled) at e))
        (validated r q)
  | inr (x, q) ↦ absurd (cc (rw (q, settled) at e))
]
  where
    same :
        (b : Bool)
        → Path (Option (Answer Record)) (if b then some (done r) else none) (some (done r'))
        → r ≡ r'
    same true k = cc
    same false k = absurd (cc k)

pub settled-none : (m : AccountManager) (now : ℕ) (r : Record) → settled m now r ≡ none → IsUsable r
settled-none m now r e = elim (Option-cases (validate_ready_record r)) [
  | inl q ↦ validated r q
  | inr (x, q) ↦ absurd (cc (rw (q, settled) at e))
]

pub get_record-IsLinked :
    (env : Env) (id : String) (s : Service) → IsLinked s → IsLinked (get_record env id s).0
unfolding get_record step
get_record-IsLinked env id s h = step-keeps IsLinked (keeps_links env) (gets id) s h
