-- ===== src/Manager/Disabled.antt =====
-- An account that others disable while its token is renewed.
use chatgpt_codex_proxy.Base.{◌≡◌, refl, ap, ◌∙◌, none, some, String, arith}
use chatgpt_codex_proxy.Base.Dict.{lookup, lookup-map_values}
use chatgpt_codex_proxy.Accounts.Types.{OAuthToken, Record, clone_record, disabled}
use chatgpt_codex_proxy.Accounts.Service.{Service, Env, ok, persist, refresh_all, refresh_record}
use chatgpt_codex_proxy.Accounts.Service.Ops.{update_auth, status_after_auth}
use chatgpt_codex_proxy.Accounts.Service.Reads.{get_account}
use chatgpt_codex_proxy.Accounts.Service.Threads.{refresh_all-frame}
use chatgpt_codex_proxy.Login.{renewed, refresh}
use chatgpt_codex_proxy.Manager.{
  AccountManager, Answer, done, Visit, get_record, or_disappeared, read_updated, store_refreshed,
  refresh_locked,
}
use chatgpt_codex_proxy.Manager.Steps.{refresh_record-kept, update_auth_done}

-- A call that hands out a disabled account.
abbrev pub HandsOutDisabled : Answer Record → Type 0
HandsOutDisabled a = (r : Record) × (a ≡ done r) × (r.status ≡ disabled)

read_found :
    (env : Env) (id : String) (s : Service) (z : Record)
    → env.save_error ≡ none
    → lookup id s.records ≡ some z
    → (get_record env id s).1 ≡ done (clone_record (refresh_record env.now z).0)
unfolding get_record get_account refresh_all persist
read_found env id s z saved e = ground (
  arith,
  saved,
  e,
  refresh_all-frame env s,
  lookup-map_values id (λ (x : Record). (refresh_record env.now x).0) s.records,
)

stored :
    (env : Env) (id account_id : String) (token : OAuthToken) (s : Service) (y : Record)
    → env.save_error ≡ none
    → lookup id s.records ≡ some y
    → (update_auth env id account_id token s).1 ≡ ok tt
unfolding update_auth persist
stored env id account_id token s y saved e = ground (arith, saved, e)

clone_status : (x : Record) → (clone_record x).status ≡ x.status
unfolding clone_record
clone_status x = refl

-- If others disable the account after it was read for its refresh, the login service renews the
-- token, the store refuses no save and others do nothing after UpdateAuth, refreshLocked returns
-- the account without an error, disabled.
pub refresh_locked-HandsOutDisabled :
    (m : AccountManager) (v : Visit) (r y : Record) (s : Service) (token : OAuthToken)
    (account_id : String)
    → refresh m.oauth v.exchanged_at r.token r.account_id ≡ renewed token account_id
    → lookup r.id (v.while_exchanging s).records ≡ some y
    → y.status ≡ disabled
    → v.update.save_error ≡ none
    → v.last.save_error ≡ none
    → ((t : Service) → v.after_update t ≡ t)
    → HandsOutDisabled (refresh_locked m v r s).1
unfolding refresh_locked
refresh_locked-HandsOutDisabled m v r y s token account_id given found off saved reread quiet =
    let (z, q, _, st) =
      update_auth_done v.update r.id account_id token (v.while_exchanging s) y found in
    let updated = update_auth v.update r.id account_id token (v.while_exchanging s) in
    (
      clone_record (refresh_record v.last.now z).0,
      ap (λ a. (store_refreshed m v r (v.while_exchanging s) a).1) given
          ∙ ap (λ a. (read_updated v r.id updated.0 a).1)
              (stored v.update r.id account_id token (v.while_exchanging s) y saved found)
          ∙ ap or_disappeared (
              ap (λ u. (get_record v.last r.id u).1) (quiet updated.0)
              ∙ read_found v.last r.id updated.0 z reread q),
      clone_status _ ∙ (refresh_record-kept v.last.now z).0 ∙ st ∙ ap status_after_auth off,
    )
