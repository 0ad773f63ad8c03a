-- ===== src/DeviceLogin/Polls/Kept.antt =====
-- What Get shows of a login is true of the goroutines and of the accounts.
use text.Mathlib.Text.{◌==◌ as str_eq}
use text.Mathlib.TextEquality.{eq_iff}
use chatgpt_codex_proxy.Base.{
  ℕ, ◌≡◌, refl, sym, ap, ◌∙◌, subst, Bool, true, ◌||◌, ◌&&◌, not, Option, none, some, List, [], ◌∷◌,
  String, Bool-cases, inl, inr, if_keeps, ltb, if◌then◌else◌, arith,
}
use chatgpt_codex_proxy.Base.Dict.{lookup, lookup-insert}
use chatgpt_codex_proxy.Base.Dict.Keys.{
  IsApart, insert-IsApart, lookup-delete_where, delete_where-IsApart,
}
use chatgpt_codex_proxy.Base.Dict.Sets.{among}
use chatgpt_codex_proxy.Accounts.Service.{Service, Env}
use chatgpt_codex_proxy.DeviceLogin.{
  DeviceLoginStatus, pending, ready, Phase, polling, settles, panicked, Poll, World, CodeRequest,
  PendingLogin, Started, start, set_status, delete_expired, is_stale, code_given, code_refused,
  new_login, expired,
}
use chatgpt_codex_proxy.DeviceLogin.Tick.{DeviceAuth, Ticked, unasked}
use chatgpt_codex_proxy.DeviceLogin.Polls.{
  id_of, poll_at, drop_poll, note_upsert, after_tick, tick_poll, expire_poll, settle_poll,
  with_poll, Event, starts, ticks, expires, settles_login, sweeps, closes, accounts_change, step,
  run, new_service,
}
use chatgpt_codex_proxy.DeviceLogin.Polls.Phases.{
  has_status, is_tended, is_final, IsFinal, among-noted, IsFinal-noted, put_phase-IsFinal,
  drop_poll-IsFinal, poll_at-IsFinal, is_tended-put_phase, is_tended-drop_poll, tick-is_final,
}
use chatgpt_codex_proxy.DeviceLogin.Polls.Written.{
  written, lookup-set_status, set_status-IsApart, written-told,
}

-- A login that waits has a goroutine, and one that is ready has its account.
abbrev pub is_told : List Poll → List String → String → Option PendingLogin → Bool
is_told ps ids id x =
    (not (has_status pending x) || is_tended id ps) && (not (has_status ready x) || among id ids)

pub record IsKept (w : World) : Type 0 where
  pub apart : IsApart w.devices.logins
  pub final : IsFinal w.upserted w.polls
  pub told : (id : String) → is_told w.polls w.upserted id (lookup id w.devices.logins) ≡ true

told-kept :
    (ps qs : List Poll) (ids more : List String) (id : String) (x : Option PendingLogin)
    → is_told ps ids id x ≡ true
    → is_tended id qs ≡ is_tended id ps
    → (among id ids ≡ true → among id more ≡ true)
    → is_told qs more id x ≡ true
told-kept ps qs ids more id x h e f = ground arith

after_tick-IsKept :
    (w : World) (k : ℕ) (p : Poll) (t : Ticked)
    → poll_at k w.polls ≡ some p
    → is_final (note_upsert (id_of p) t.upsert w.upserted) (id_of p) t.phase ≡ true
    → IsKept w
    → IsKept (after_tick k (id_of p) t w)
after_tick-IsKept w k p t e f h = record {
  apart = h.apart;
  final =
      put_phase-IsFinal _ k p t.phase w.polls e f
        (IsFinal-noted w.upserted (id_of p) t.upsert w.polls h.final);
  told = λ id.
      told-kept w.polls _ w.upserted _ id _ (h.told id) (is_tended-put_phase id k t.phase w.polls)
        (among-noted w.upserted id (id_of p) t.upsert);
}

start-IsKept :
    (format : ℕ → String) (now : ℕ) (auth_url : String) (request : CodeRequest) (w : World)
    → IsKept w
    → IsKept (start format now auth_url request w).0
unfolding start
start-IsKept format now auth_url (code_refused message) w h = h
start-IsKept format now auth_url (code_given resp) w h =
    if_keeps (λ (x : World × Started). IsKept x.0) w.devices.closed (λ _. h)
      (λ _. record {
        apart = insert-IsApart login.shown.login_id login w.devices.logins h.apart;
        final = (refl, h.final);
        told = λ id.
            ground (arith, lookup-insert login.shown.login_id id login w.devices.logins, h.told id);
      })
  where
    login : PendingLogin
    login = new_login format now auth_url w.devices.timeout resp

delete_expired-IsKept : (now : ℕ) (w : World) → IsKept w → IsKept (delete_expired now w)
unfolding delete_expired
delete_expired-IsKept now w h = record {
  apart = delete_where-IsApart (is_stale now) w.devices.logins h.apart;
  final = h.final;
  told = λ id.
      ground (arith, lookup-delete_where (is_stale now) id w.devices.logins h.apart, h.told id);
}

settle-IsKept :
    (w : World) (k : ℕ) (p : Poll) (expected : Option DeviceLoginStatus)
    (status : DeviceLoginStatus) (message : String)
    → poll_at k w.polls ≡ some p
    → is_final w.upserted (id_of p) (settles expected status message) ≡ true
    → IsKept w
    → IsKept (record w {
      devices = record w.devices {
        logins = set_status (id_of p) expected status message w.devices.logins;
      };
      polls = drop_poll k w.polls;
    })
settle-IsKept w k p expected status message e f h = record {
  apart = set_status-IsApart (id_of p) expected status message w.devices.logins h.apart;
  final = drop_poll-IsFinal w.upserted k w.polls h.final;
  told = λ id. elim (Bool-cases (str_eq (id_of p) id)) [
    | inl same ↦
        told_of id (ap (λ b. if b then answer id else lookup id w.devices.logins) same)
          (settled id (ground (arith, eq_iff (id_of p) id, f, same)))
    | inr other ↦ told_of id (ap (λ b. if b then answer id else lookup id w.devices.logins) other) (
        told-kept w.polls _ w.upserted _ id _ (h.told id)
          (is_tended-drop_poll id k p w.polls e other) (λ n. n))
  ];
}
  where
    answer : String → Option PendingLogin
    answer id = written expected status message (lookup id w.devices.logins)

    told_of :
        (id : String) {x : Option PendingLogin}
        → (if str_eq (id_of p) id then answer id else lookup id w.devices.logins) ≡ x
        → is_told (drop_poll k w.polls) w.upserted id x ≡ true
        → is_told
            (drop_poll k w.polls)
            w.upserted
            id
            (lookup id (set_status (id_of p) expected status message w.devices.logins))
          ≡ true
    told_of id {x} q t =
        subst (λ y. is_told (drop_poll k w.polls) w.upserted id y ≡ true)
          (sym (lookup-set_status (id_of p) expected status message w.devices.logins id ∙ q)) t

    settled :
        (id : String)
        → is_final w.upserted id (settles expected status message) ≡ true
        → is_told (drop_poll k w.polls) w.upserted id (answer id) ≡ true
    settled id g = ground (
      arith,
      written-told w.upserted id expected status message (lookup id w.devices.logins) g,
      h.told id,
    )

module _ (w : World) (k : ℕ) (p : Poll) (e : poll_at k w.polls ≡ some p) (h : IsKept w) where
  tick_poll-IsKept :
      (o : DeviceAuth) (env : Env) (phase : Phase) → IsKept (tick_poll k o env w p phase)
  tick_poll-IsKept o env polling =
      after_tick-IsKept w k p _ e (tick-is_final w.upserted (id_of p) o env p.login w.accounts) h
  tick_poll-IsKept o env (settles expected status message) = h
  tick_poll-IsKept o env panicked = h

  expire_poll-IsKept : (now : ℕ) (phase : Phase) → IsKept (expire_poll k now w p phase)
  expire_poll-IsKept now polling =
      if_keeps IsKept (w.devices.closed || not (ltb now p.login.shown.expires_at))
        (λ _.
          after_tick-IsKept w k p
            (unasked w.accounts (settles (some pending) expired "device login expired")) e refl h)
        (λ _. h)
  expire_poll-IsKept now (settles expected status message) = h
  expire_poll-IsKept now panicked = h

  settle_poll-IsKept :
      (phase : Phase)
      → is_final w.upserted (id_of p) phase ≡ true
      → IsKept (settle_poll k w p phase)
  settle_poll-IsKept polling f = h
  settle_poll-IsKept (settles expected status message) f =
      settle-IsKept w k p expected status message e f h
  settle_poll-IsKept panicked f = h

with_poll-IsKept :
    (act : World → Poll → Phase → World) (w : World) (k : ℕ)
    → IsKept w
    → ((p : Poll) → poll_at k w.polls ≡ some p → IsKept (act w p p.phase))
    → IsKept (with_poll act w (poll_at k w.polls))
with_poll-IsKept act w k h f = by_found (poll_at k w.polls) refl
  where
    by_found : (x : Option Poll) → poll_at k w.polls ≡ x → IsKept (with_poll act w x)
    by_found none e = h
    by_found (some p) e = f p e

step-IsKept : (format : ℕ → String) (x : Event) (w : World) → IsKept w → IsKept (step format x w)
unfolding step
step-IsKept format (starts now auth_url request) w h = start-IsKept format now auth_url request w h
step-IsKept format (ticks k o env) w h =
    with_poll-IsKept (tick_poll k o env) w k h (λ p e. tick_poll-IsKept w k p e h o env p.phase)
step-IsKept format (expires k now) w h =
    with_poll-IsKept (expire_poll k now) w k h (λ p e. expire_poll-IsKept w k p e h now p.phase)
step-IsKept format (settles_login k) w h =
    with_poll-IsKept (settle_poll k) w k h (λ p e.
      settle_poll-IsKept w k p e h p.phase (poll_at-IsFinal w.upserted k p w.polls e h.final))
step-IsKept format (sweeps now) w h = delete_expired-IsKept now w h
step-IsKept format closes w h = record { apart = h.apart; final = h.final; told = h.told }
step-IsKept format (accounts_change f) w h = record {
  apart = h.apart;
  final = h.final;
  told = h.told;
}

pub run-IsKept :
    (format : ℕ → String) (w : World) (es : List Event) → IsKept w → IsKept (run format w es)
unfolding run
run-IsKept format w [] h = h
run-IsKept format w (x ∷ xs) h = run-IsKept format (step format x w) xs (step-IsKept format x w h)

pub new_service-IsKept : (timeout : ℕ) (accounts : Service) → IsKept (new_service timeout accounts)
unfolding lookup
new_service-IsKept timeout accounts = record { apart = tt; final = tt; told = λ id. refl }
