-- ===== src/Manager/Ready.antt =====
-- What EnsureReady hands out: an account that is not disabled, with a token.
use chatgpt_codex_proxy.Base.{◌≡◌, ◌⊎◌, inl, inr, refl, sym, ap, ◌∙◌, subst, none, some, String}
use chatgpt_codex_proxy.Base.Dict.{lookup}
use chatgpt_codex_proxy.Base.Dict.Entries.{Entries-lookup}
use chatgpt_codex_proxy.Accounts.Types.{Record, clone_record}
use chatgpt_codex_proxy.Accounts.Service.{Service, refresh_record}
use chatgpt_codex_proxy.Accounts.Service.Ops.{update_auth}
use chatgpt_codex_proxy.Accounts.Service.Links.{IsLinked, OwnKey}
use chatgpt_codex_proxy.Login.{Refreshed, renewed, failed_refresh, refresh}
use chatgpt_codex_proxy.Manager.{
  AccountManager, done, Visit, get_record, store_refreshed, refresh_locked, settled, ensure_locked,
  ensure_ready,
}
use chatgpt_codex_proxy.Manager.Links.{IsOrderly}
use chatgpt_codex_proxy.Manager.Steps.{
  IsUsable, get_record_done, go_on_done, settled_done, settled-none, get_record-IsLinked,
}
use chatgpt_codex_proxy.Manager.Open.{
  Renews, refresh_text, cloned-IsUsable, clone_id, UsableIf, IsOpen, read-IsUsable,
  read_updated_done, update_auth-IsOpen,
}

store_refreshed-IsUsable :
    (m : AccountManager) (v : Visit) (r r' : Record) (s : Service) (answer : Refreshed)
    → Renews m
    → ((t : Service) → IsOpen r.id t → IsOpen r.id (v.after_update t))
    → IsOpen r.id s
    → refresh m.oauth v.exchanged_at r.token r.account_id ≡ answer
    → (store_refreshed m v r s answer).1 ≡ done r'
    → IsUsable r'
store_refreshed-IsUsable m v r r' s (failed_refresh f) renews updating h given e = absurd (cc e)
store_refreshed-IsUsable m v r r' s (renewed token account_id) renews updating h given e =
    let updated = update_auth v.update r.id account_id token s in
    read-IsUsable v.last r.id (v.after_update updated.0) r'
      (updating updated.0 (
        update_auth-IsOpen v.update r.id account_id token s
          (refresh_text m v.exchanged_at r.token token r.account_id account_id renews given) h))
      (read_updated_done v r.id updated.0 updated.1 r' e)

ensure_locked-IsUsable :
    (m : AccountManager) (v : Visit) (id : String) (s : Service) (r' : Record)
    → Renews m
    → IsLinked s
    → ((t : Service) → IsOpen id t → IsOpen id (v.while_exchanging t))
    → ((t : Service) → IsOpen id t → IsOpen id (v.after_update t))
    → (ensure_locked m v id s).1 ≡ done r'
    → IsUsable r'
unfolding ensure_locked refresh_locked
ensure_locked-IsUsable m v id s r' renews h exchanging updating e = elim outcome [
  | inl q ↦ settled_done m v.rechecked_at r r' q
  | inr (q, k) ↦
      let (x, _, found, c) = get_record_done v.second id s r given in
      let y = (refresh_record v.second.now x).0 in
      let same = own y found c in
      store_refreshed-IsUsable m v r r' (v.while_exchanging (get_record v.second id s).0) _ renews
        (subst (λ i. (t : Service) → IsOpen i t → IsOpen i (v.after_update t)) (sym same) updating)
        (subst (λ i. IsOpen i (v.while_exchanging (get_record v.second id s).0)) (sym same)
          (exchanging _
            (subst UsableIf (sym found) (usable_of y c (settled-none m v.rechecked_at r q)))))
        refl k
]
  where
    read :
        (r : Record) × ((get_record v.second id s).1 ≡ done r)
        × ((settled m v.rechecked_at r ≡ some (done r'))
            ⊎ ((settled m v.rechecked_at r ≡ none)
                × ((refresh_locked m v r (get_record v.second id s).0).1 ≡ done r')))
    read =
        go_on_done (settled m v.rechecked_at) (refresh_locked m v) (get_record v.second id s) r' e

    r : Record
    r = read.0

    given : (get_record v.second id s).1 ≡ done r
    given = read.1

    outcome :
        (settled m v.rechecked_at r ≡ some (done r'))
        ⊎ ((settled m v.rechecked_at r ≡ none)
            × ((refresh_locked m v r (get_record v.second id s).0).1 ≡ done r'))
    outcome = read.2

    usable_of : (y : Record) → r ≡ clone_record y → IsUsable r → IsUsable y
    usable_of y c u = cloned-IsUsable y (subst IsUsable c u)

    own :
        (y : Record)
        → lookup id (get_record v.second id s).0.records ≡ some y
        → r ≡ clone_record y
        → r.id ≡ id
    own y found c =
        ap (λ u. u.id) c
        ∙ clone_id y
        ∙ Entries-lookup OwnKey id (get_record v.second id s).0.records
            (get_record-IsLinked v.second id s h).keyed found

-- If every answer of the login service has an access token, the service is linked, what others do
-- between the steps of the call leaves it so, and between the second read of the account and the
-- last, while its token is renewed and stored, others neither disable the account nor empty its
-- token (they may remove it), then a record that ensureReady returns without an error is not
-- disabled and has an access token, whether its token lasted, was renewed by others meanwhile or
-- was renewed by this call.
pub ensure_ready-IsUsable :
    (m : AccountManager) (v : Visit) (id : String) (s : Service) (r : Record)
    → Renews m
    → IsOrderly v
    → IsLinked s
    → ((t : Service) → IsOpen id t → IsOpen id (v.while_exchanging t))
    → ((t : Service) → IsOpen id t → IsOpen id (v.after_update t))
    → (ensure_ready m v id s).1 ≡ done r
    → IsUsable r
unfolding ensure_ready
ensure_ready-IsUsable m v id s r renews o h exchanging updating e =
    let (x, _, outcome) =
      go_on_done (settled m v.checked_at) (λ _ t. ensure_locked m v id (v.meanwhile t))
        (get_record v.first id (v.before s)) r e in
    elim outcome [
      | inl q ↦ settled_done m v.checked_at x r q
      | inr (q, k) ↦
          ensure_locked-IsUsable m v id (v.meanwhile (get_record v.first id (v.before s)).0) r
            renews (o.locking _ (get_record-IsLinked v.first id _ (o.starting s h))) exchanging
            updating k
    ]
