-- ===== src/DeviceLogin/Polls/Written.antt =====
-- What setStatus leaves under each key.
use text.Mathlib.Text.{◌==◌ as str_eq}
use text.Mathlib.TextEquality.{eq_iff}
use chatgpt_codex_proxy.Base.{
  ◌≡◌, refl, true, false, ◌||◌, not, Option, none, some, List, String, if_keeps, if◌then◌else◌,
  arith,
}
use chatgpt_codex_proxy.Base.Dict.{Dict, lookup, lookup-insert}
use chatgpt_codex_proxy.Base.Dict.Keys.{IsApart, insert-IsApart}
use chatgpt_codex_proxy.Base.Dict.Sets.{among}
use chatgpt_codex_proxy.DeviceLogin.{
  DeviceLoginStatus, pending, ready, settles, PendingLogin, set_status, status_on, is_expected,
}
use chatgpt_codex_proxy.DeviceLogin.Polls.Phases.{has_status, is_final}

abbrev pub written :
    Option DeviceLoginStatus
    → DeviceLoginStatus
    → String
    → Option PendingLogin
    → Option PendingLogin
written expected status message none = none
written expected status message (some l) =
    if is_expected expected l.shown.status
    then some (record l { shown = record l.shown { status = status; error = message } })
    else some l

module _ (id : String) (expected : Option DeviceLoginStatus) (status : DeviceLoginStatus)
    (message : String) (m : Dict PendingLogin) where
  pub lookup-set_status :
      (j : String)
      → lookup j (set_status id expected status message m)
        ≡ (if str_eq id j then written expected status message (lookup j m) else lookup j m)
  unfolding set_status
  lookup-set_status j = by_found (lookup id m) refl
    where
      by_found :
          (x : Option PendingLogin)
          → lookup id m ≡ x
          → lookup j (status_on id expected status message x m)
            ≡ (if str_eq id j then written expected status message (lookup j m) else lookup j m)
      by_found none e = ground (arith, eq_iff id j, e)
      by_found (some l) e =
          if_keeps
            (λ n.
              lookup j n
              ≡ (if str_eq id j then written expected status message (lookup j m) else lookup j m))
            (is_expected expected l.shown.status)
            (λ k. ground (
              arith,
              eq_iff id j,
              e,
              k,
              lookup-insert id j
                  (record l { shown = record l.shown { status = status; error = message } }) m,
            ))
            (λ k. ground (arith, eq_iff id j, e, k))

  pub set_status-IsApart : IsApart m → IsApart (set_status id expected status message m)
  unfolding set_status
  set_status-IsApart h = by_found (lookup id m)
    where
      by_found : (x : Option PendingLogin) → IsApart (status_on id expected status message x m)
      by_found none = h
      by_found (some l) =
          if_keeps IsApart (is_expected expected l.shown.status)
            (λ _.
              insert-IsApart id
                (record l { shown = record l.shown { status = status; error = message } }) m h)
            (λ _. h)

pub written-told :
    (ids : List String) (id : String) (expected : Option DeviceLoginStatus)
    (status : DeviceLoginStatus) (message : String) (x : Option PendingLogin)
    → is_final ids id (settles expected status message) ≡ true
    → (not (has_status ready x) || among id ids) ≡ true
    → (has_status pending (written expected status message x) ≡ false)
      × ((not (has_status ready (written expected status message x)) || among id ids) ≡ true)
written-told ids id expected status message x f h = ground arith
