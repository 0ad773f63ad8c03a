-- ===== src/Manager/Open.antt =====
-- What leaves an account that can be used: its refresh, a read of it and UpdateAuth.
use chatgpt_codex_proxy.Base.{
  Option-cases, ℕ, ◌≡◌, ◌≢◌, inl, inr, refl, sym, ap, ◌∙◌, subst, false, Option, none, some, String,
  arith,
}
use chatgpt_codex_proxy.Base.Text.{is_empty}
use chatgpt_codex_proxy.Base.Dict.{lookup}
use chatgpt_codex_proxy.Accounts.Types.{OAuthToken, Record, clone_record, disabled}
use chatgpt_codex_proxy.Accounts.Service.{Service, Env, Result, ok, err, panic, refresh_record}
use chatgpt_codex_proxy.Accounts.Service.Ops.{update_auth}
use chatgpt_codex_proxy.Login.{
  OauthTokenResponse, Exchanged, answered, refused, Refreshed, renewed, failed_refresh, refresh,
  build_oauth_token, keep_refresh_token, refreshed_from,
}
use chatgpt_codex_proxy.Manager.{
  AccountManager, from_accounts, no_such_account, account_disabled, no_access_token, disappeared,
  account_unavailable, coordinator_closed, context_ended, refresh_failed, Answer, done, failed,
  panicked, Visit, get_record, or_disappeared, read_updated,
}
use chatgpt_codex_proxy.Manager.Steps.{
  IsUsable, refresh_record-kept, get_record_done, update_auth_done, status_after_auth-enabled,
}

-- Every answer of the login service has an access token.
abbrev pub Renews : AccountManager → Type 0
Renews m =
    (token : String) (raw : OauthTokenResponse)
    → m.oauth.exchange token ≡ answered raw
    → is_empty raw.access_token ≡ false

kept_text :
    (existing next : OAuthToken)
    → (keep_refresh_token existing next).access_token ≡ next.access_token
kept_text existing next = ground arith

abbrev token_text : Refreshed → String
token_text (renewed t _) = t.access_token
token_text (failed_refresh _) = ""

-- A token that the refresh returns has a text.
pub refresh_text :
    (m : AccountManager) (now : ℕ) (existing new : OAuthToken) (account_id next_id : String)
    → Renews m
    → refresh m.oauth now existing account_id ≡ renewed new next_id
    → is_empty new.access_token ≡ false
unfolding refresh build_oauth_token
refresh_text m now existing new account_id next_id renews e =
    of_answer (m.oauth.exchange existing.refresh_token) refl e
  where
    of_answer :
        (x : Exchanged)
        → m.oauth.exchange existing.refresh_token ≡ x
        → refreshed_from m.oauth now existing account_id x ≡ renewed new next_id
        → is_empty new.access_token ≡ false
    of_answer (refused f) q k = absurd (cc k)
    of_answer (answered raw) q k =
        ap is_empty (sym (ap token_text k) ∙ kept_text existing (build_oauth_token now raw))
        ∙ renews existing.refresh_token raw q

or_disappeared_done : (a : Answer Record) (r : Record) → or_disappeared a ≡ done r → a ≡ done r
or_disappeared_done (done x) r e = e
or_disappeared_done (failed no_such_account) r e = absurd (cc e)
or_disappeared_done (failed (from_accounts _)) r e = absurd (cc e)
or_disappeared_done (failed account_disabled) r e = absurd (cc e)
or_disappeared_done (failed no_access_token) r e = absurd (cc e)
or_disappeared_done (failed disappeared) r e = absurd (cc e)
or_disappeared_done (failed account_unavailable) r e = absurd (cc e)
or_disappeared_done (failed coordinator_closed) r e = absurd (cc e)
or_disappeared_done (failed context_ended) r e = absurd (cc e)
or_disappeared_done (failed (refresh_failed _)) r e = absurd (cc e)
or_disappeared_done panicked r e = absurd (cc e)

clone-IsUsable : (x : Record) → IsUsable x → IsUsable (clone_record x)
unfolding clone_record
clone-IsUsable x h = h

pub cloned-IsUsable : (x : Record) → IsUsable (clone_record x) → IsUsable x
unfolding clone_record
cloned-IsUsable x h = h

pub clone_id : (x : Record) → (clone_record x).id ≡ x.id
unfolding clone_record
clone_id x = refl

refresh-IsUsable : (now : ℕ) (x : Record) → IsUsable x → IsUsable (refresh_record now x).0
refresh-IsUsable now x h =
    let (status, token, _) = refresh_record-kept now x in
    (subst (λ t. t ≢ disabled) (sym status) h.0, ap (λ t. is_empty t.access_token) token ∙ h.1)

abbrev pub UsableIf : Option Record → Type 0
UsableIf none = Unit
UsableIf (some y) = IsUsable y

-- The account, if it is there, is usable.
abbrev pub IsOpen : String → Service → Type 0
IsOpen id s = UsableIf (lookup id s.records)

pub read-IsUsable :
    (env : Env) (id : String) (s : Service) (r' : Record)
    → IsOpen id s
    → (get_record env id s).1 ≡ done r'
    → IsUsable r'
read-IsUsable env id s r' h e =
    let (x, q, _, c) = get_record_done env id s r' e in
    subst IsUsable (sym c) (clone-IsUsable _ (refresh-IsUsable env.now x (subst UsableIf q h)))

pub read_updated_done :
    (v : Visit) (id : String) (s : Service) (answer : Result (Unit {0})) (r' : Record)
    → (read_updated v id s answer).1 ≡ done r'
    → (get_record v.last id (v.after_update s)).1 ≡ done r'
read_updated_done v id s (ok _) r' e = or_disappeared_done _ r' e
read_updated_done v id s (err x) r' e = absurd (cc e)
read_updated_done v id s panic r' e = absurd (cc e)

update_auth_missing :
    (env : Env) (id account_id : String) (token : OAuthToken) (s : Service)
    → lookup id s.records ≡ none
    → IsOpen id (update_auth env id account_id token s).0
unfolding update_auth
update_auth_missing env id account_id token s e = subst UsableIf (sym left) tt
  where
    left : lookup id (update_auth env id account_id token s).0.records ≡ none
    left = ground (arith, e)

-- UpdateAuth leaves an account that can be used.
pub update_auth-IsOpen :
    (env : Env) (id account_id : String) (token : OAuthToken) (s : Service)
    → is_empty token.access_token ≡ false
    → IsOpen id s
    → IsOpen id (update_auth env id account_id token s).0
update_auth-IsOpen env id account_id token s text h = elim (Option-cases (lookup id s.records)) [
  | inl e ↦ update_auth_missing env id account_id token s e
  | inr (y, e) ↦
      let (z, q, t, st) = update_auth_done env id account_id token s y e in
      subst UsableIf (sym q) (
        subst (λ u. u ≢ disabled) (sym st)
            (status_after_auth-enabled y.status (subst UsableIf e h).0),
        ap (λ u. is_empty u.access_token) t ∙ text,
      )
]
