-- ===== src/DeviceLogin/Polls/Shown.antt =====
-- What Get shows of a login is true of the goroutines and of the accounts, and Close comes to its end.
use chatgpt_codex_proxy.Base.{
  ℕ, ◌≡◌, refl, subst, Bool, true, false, Option, none, some, List, [], ◌∷◌, String, All, arith,
}
use chatgpt_codex_proxy.Base.Dict.{lookup}
use chatgpt_codex_proxy.Base.Dict.Sets.{among}
use chatgpt_codex_proxy.Accounts.Service.{Service}
use chatgpt_codex_proxy.DeviceLogin.{
  DeviceLoginStatus, pending, ready, expired, failed, Phase, polling, settles, panicked, Poll,
  World, PendingLogin, DeviceLoginRecord, same_status, shown_of, get_login,
}
use chatgpt_codex_proxy.DeviceLogin.Polls.{
  poll_at, put_phase, drop_poll, Event, expires, settles_login, step, run, new_service,
}
use chatgpt_codex_proxy.DeviceLogin.Polls.Phases.{is_tended}
use chatgpt_codex_proxy.DeviceLogin.Polls.Kept.{is_told, IsKept, run-IsKept, new_service-IsKept}

-- What a login that Get shows says of the goroutines and of the accounts.
abbrev pub Shows : World → DeviceLoginRecord → String → Type 0
Shows w shown id = by_status shown.status
  where
    by_status : DeviceLoginStatus → Type 0
    by_status pending = is_tended id w.polls ≡ true
    by_status ready = among id w.upserted ≡ true
    by_status expired = Unit
    by_status failed = Unit

IsKept-Shows :
    (w : World) (id : String) (shown : DeviceLoginRecord)
    → IsKept w
    → get_login id w ≡ some shown
    → Shows w shown id
unfolding get_login
IsKept-Shows w id shown h e = by_found (lookup id w.devices.logins) (h.told id) e
  where
    by_status :
        (status : DeviceLoginStatus) (message : String) (l : PendingLogin)
        → l.shown.status ≡ status
        → is_told w.polls w.upserted id (some l) ≡ true
        → Shows w (record l.shown { status = status }) id
    by_status pending message l q t = ground arith
    by_status ready message l q t = ground arith
    by_status expired message l q t = tt
    by_status failed message l q t = tt

    by_found :
        (x : Option PendingLogin)
        → is_told w.polls w.upserted id x ≡ true
        → shown_of x ≡ some shown
        → Shows w shown id
    by_found none t q = absurd (cc q)
    by_found (some l) t q =
        subst (λ (y : Option DeviceLoginRecord). shown_by y) q
          (by_status l.shown.status "" l refl t)
      where
        shown_by : Option DeviceLoginRecord → Type 0
        shown_by none = Unit
        shown_by (some y) = Shows w y id

-- After any calls of the methods and steps of the goroutines, in any order, a login that Get shows
-- as pending has a goroutine that has not ended, and one that it shows as ready had an account
-- from UpsertFromToken.
pub get_login-Shows :
    (format : ℕ → String) (timeout : ℕ) (accounts : Service) (es : List Event) (id : String)
    (shown : DeviceLoginRecord)
    → get_login id (run format (new_service timeout accounts) es) ≡ some shown
    → Shows (run format (new_service timeout accounts) es) shown id
get_login-Shows format timeout accounts es id shown e =
    IsKept-Shows _ id shown
      (run-IsKept format (new_service timeout accounts) es (new_service-IsKept timeout accounts)) e

abbrev pub is_running : Phase → Bool
is_running polling = true
is_running (settles _ _ _) = true
is_running panicked = false

-- The goroutines end one after the other, by their context.
abbrev pub endings : ℕ → List Poll → List Event
endings now [] = []
endings now (p ∷ ps) = expires 0 now ∷ settles_login 0 ∷ endings now ps

ends_one :
    (format : ℕ → String) (now : ℕ) (w : World) (p : Poll) (ps : List Poll)
    → w.polls ≡ p ∷ ps
    → w.devices.closed ≡ true
    → is_running p.phase ≡ true
    → let u = step format (settles_login 0) (step format (expires 0 now) w) in
      (u.polls ≡ ps) × (u.devices.closed ≡ true)
unfolding step poll_at put_phase drop_poll
ends_one format now w p ps e c r = ground arith

ends_all :
    (format : ℕ → String) (now : ℕ) (ps : List Poll) (w : World)
    → w.polls ≡ ps
    → w.devices.closed ≡ true
    → All (λ p. is_running p.phase ≡ true) ps
    → (run format w (endings now ps)).polls ≡ []
unfolding run
ends_all format now [] w e c r = e
ends_all format now (p ∷ ps) w e c r =
    let (left, still) = ends_one format now w p ps e c r.0 in
    ends_all format now ps (step format (settles_login 0) (step format (expires 0 now) w)) left
      still r.1

abbrev pub is_waiting : Option DeviceLoginRecord → Bool
is_waiting none = false
is_waiting (some shown) = same_status shown.status pending

IsKept-settled :
    (w : World) (id : String) → IsKept w → w.polls ≡ [] → is_waiting (get_login id w) ≡ false
unfolding get_login
IsKept-settled w id h e =
    by_found (lookup id w.devices.logins)
      (subst (λ ps. is_told ps w.upserted id (lookup id w.devices.logins) ≡ true) e (h.told id))
  where
    by_found :
        (x : Option PendingLogin)
        → is_told [] w.upserted id x ≡ true
        → is_waiting (shown_of x) ≡ false
    by_found none t = refl
    by_found (some l) t = ground arith

-- After any calls and steps that leave the service closed and no goroutine that has panicked, the
-- goroutines end by two steps of each, whatever the time is: none is left, so Close returns, and
-- Get shows no login as pending.
pub close_settles :
    (format : ℕ → String) (timeout now : ℕ) (accounts : Service) (es : List Event) (id : String)
    → (run format (new_service timeout accounts) es).devices.closed ≡ true
    → All (λ p. is_running p.phase ≡ true) (run format (new_service timeout accounts) es).polls
    → let w = run format (new_service timeout accounts) es in
      let u = run format w (endings now w.polls) in
      (u.polls ≡ []) × (is_waiting (get_login id u) ≡ false)
close_settles format timeout now accounts es id c r =
    (none_left, IsKept-settled _ id kept none_left)
  where
    w : World
    w = run format (new_service timeout accounts) es

    none_left : (run format w (endings now w.polls)).polls ≡ []
    none_left = ends_all format now w.polls w refl c r

    kept : IsKept (run format w (endings now w.polls))
    kept =
        run-IsKept format w (endings now w.polls) (
          run-IsKept format (new_service timeout accounts) es (new_service-IsKept timeout accounts))
