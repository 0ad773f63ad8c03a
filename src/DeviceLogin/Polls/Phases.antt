-- ===== src/DeviceLogin/Polls/Phases.antt =====
-- What a goroutine of the login is about to write.
use text.Mathlib.Text.{◌==◌ as str_eq}
use text.Mathlib.TextEquality.{eq_iff}
use chatgpt_codex_proxy.Base.{
  ℕ, zero, suc, ◌≡◌, refl, sym, ap, subst, Bool, true, false, ◌||◌, ◌&&◌, not, Option, none, some,
  List, [], ◌∷◌, String, All, if_keeps, arith,
}
use chatgpt_codex_proxy.Base.Dict.Sets.{among}
use chatgpt_codex_proxy.Base.Text.{trim_space, is_empty}
use chatgpt_codex_proxy.Accounts.Types.{Record}
use chatgpt_codex_proxy.Accounts.Service.{Service, Env, Result, ok, err, panic}
use chatgpt_codex_proxy.Accounts.Service.Ops.{upsert_from_token}
use chatgpt_codex_proxy.DeviceLogin.{
  DeviceLoginStatus, pending, ready, Phase, polling, settles, panicked, Poll, PendingLogin,
  same_status,
}
use chatgpt_codex_proxy.DeviceLogin.Tick.{
  Ticked, DeviceAuth, on_tick, on_upserted, on_exchanged, on_polled, Exchange, exchanged,
  exchange_failed, PollAnswer, authorized, not_yet, poll_failed,
}
use chatgpt_codex_proxy.DeviceLogin.Polls.{id_of, poll_at, put_phase, drop_poll, note_upsert}

abbrev pub has_status : DeviceLoginStatus → Option PendingLogin → Bool
has_status status none = false
has_status status (some login) = same_status login.shown.status status

-- A goroutine for that login that has not ended.
abbrev pub is_tended : String → List Poll → Bool
is_tended id [] = false
is_tended id (p ∷ ps) = str_eq (id_of p) id || is_tended id ps

abbrev pub is_wait : Option DeviceLoginStatus → Bool
is_wait none = true
is_wait (some status) = same_status status pending

-- What a goroutine is about to write: never that it waits, and that the login is ready only for an
-- account that is there.
abbrev pub is_final : List String → String → Phase → Bool
is_final ids id polling = true
is_final ids id panicked = true
is_final ids id (settles expected status message) =
    is_wait expected
    && (not (same_status status pending) && (not (same_status status ready) || among id ids))

abbrev pub IsFinal : List String → List Poll → Type 0
IsFinal ids ps = All (λ p. is_final ids (id_of p) p.phase ≡ true) ps

among-more :
    (id new : String) (ids : List String) → among id ids ≡ true → among id (new ∷ ids) ≡ true
among-more id new ids h = ground (arith, h)

is_final-more :
    (ids : List String) (id new : String) (phase : Phase)
    → is_final ids id phase ≡ true
    → is_final (new ∷ ids) id phase ≡ true
is_final-more ids id new polling h = refl
is_final-more ids id new panicked h = refl
is_final-more ids id new (settles expected status message) h = ground (arith, h)

IsFinal-more :
    (ids : List String) (new : String) (ps : List Poll) → IsFinal ids ps → IsFinal (new ∷ ids) ps
IsFinal-more ids new [] h = tt
IsFinal-more ids new (p ∷ ps) h =
    (is_final-more ids (id_of p) new p.phase h.0, IsFinal-more ids new ps h.1)

pub IsFinal-noted :
    (ids : List String) (id : String) (answer : Option (Result Record)) (ps : List Poll)
    → IsFinal ids ps
    → IsFinal (note_upsert id answer ids) ps
IsFinal-noted ids id none ps h = h
IsFinal-noted ids id (some (ok _)) ps h = IsFinal-more ids id ps h
IsFinal-noted ids id (some (err _)) ps h = h
IsFinal-noted ids id (some panic) ps h = h

pub among-noted :
    (ids : List String) (id new : String) (answer : Option (Result Record))
    → among id ids ≡ true
    → among id (note_upsert new answer ids) ≡ true
among-noted ids id new none h = h
among-noted ids id new (some (ok _)) h = ground (arith, h)
among-noted ids id new (some (err _)) h = h
among-noted ids id new (some panic) h = h

pub put_phase-IsFinal :
    (ids : List String) (k : ℕ) (p : Poll) (phase : Phase) (ps : List Poll)
    → poll_at k ps ≡ some p
    → is_final ids (id_of p) phase ≡ true
    → IsFinal ids ps
    → IsFinal ids (put_phase k phase ps)
unfolding poll_at put_phase
put_phase-IsFinal ids k p phase [] e f h = tt
put_phase-IsFinal ids zero p phase (q ∷ ps) e f h =
    (subst (λ (x : Option Poll). final_of x) (sym e) f, h.1)
  where
    final_of : Option Poll → Type 0
    final_of none = Unit
    final_of (some x) = is_final ids (id_of x) phase ≡ true
put_phase-IsFinal ids (suc k) p phase (q ∷ ps) e f h =
    (h.0, put_phase-IsFinal ids k p phase ps e f h.1)

pub drop_poll-IsFinal :
    (ids : List String) (k : ℕ) (ps : List Poll) → IsFinal ids ps → IsFinal ids (drop_poll k ps)
unfolding drop_poll
drop_poll-IsFinal ids k [] h = tt
drop_poll-IsFinal ids zero (p ∷ ps) h = h.1
drop_poll-IsFinal ids (suc k) (p ∷ ps) h = (h.0, drop_poll-IsFinal ids k ps h.1)

pub poll_at-IsFinal :
    (ids : List String) (k : ℕ) (p : Poll) (ps : List Poll)
    → poll_at k ps ≡ some p
    → IsFinal ids ps
    → is_final ids (id_of p) p.phase ≡ true
unfolding poll_at
poll_at-IsFinal ids k p [] e h = absurd (cc e)
poll_at-IsFinal ids zero p (q ∷ ps) e h = subst final_of e h.0
  where
    final_of : Option Poll → Type 0
    final_of none = Unit
    final_of (some x) = is_final ids (id_of x) x.phase ≡ true
poll_at-IsFinal ids (suc k) p (q ∷ ps) e h = poll_at-IsFinal ids k p ps e h.1

pub is_tended-put_phase :
    (id : String) (k : ℕ) (phase : Phase) (ps : List Poll)
    → is_tended id (put_phase k phase ps) ≡ is_tended id ps
unfolding put_phase
is_tended-put_phase id k phase [] = refl
is_tended-put_phase id zero phase (p ∷ ps) = refl
is_tended-put_phase id (suc k) phase (p ∷ ps) =
    ap (λ b. str_eq (id_of p) id || b) (is_tended-put_phase id k phase ps)

pub is_tended-drop_poll :
    (id : String) (k : ℕ) (p : Poll) (ps : List Poll)
    → poll_at k ps ≡ some p
    → str_eq (id_of p) id ≡ false
    → is_tended id (drop_poll k ps) ≡ is_tended id ps
unfolding poll_at drop_poll
is_tended-drop_poll id k p [] e f = refl
is_tended-drop_poll id zero p (q ∷ ps) e f =
    ap (λ b. b || is_tended id ps) (sym (subst other (sym e) f))
  where
    other : Option Poll → Type 0
    other none = Unit
    other (some x) = str_eq (id_of x) id ≡ false
is_tended-drop_poll id (suc k) p (q ∷ ps) e f =
    ap (λ b. str_eq (id_of q) id || b) (is_tended-drop_poll id k p ps e f)

pub tick-is_final :
    (ids : List String) (id : String) (o : DeviceAuth) (env : Env) (login : PendingLogin)
    (s : Service)
    → is_final (note_upsert id (on_tick o env login s).upsert ids) id (on_tick o env login s).phase
      ≡ true
unfolding on_tick
tick-is_final ids id o env login s =
    by_answer (o.poll_device_code login.device_auth_id login.shown.user_code)
  where
    IsGood : Ticked → Type 0
    IsGood t = is_final (note_upsert id t.upsert ids) id t.phase ≡ true

    by_result :
        (x : Result Record) → is_final (note_upsert id (some x) ids) id (on_upserted x) ≡ true
    by_result (ok r) = ground (arith, eq_iff id id)
    by_result (err e) = refl
    by_result panic = refl

    by_exchange : (x : Exchange) → IsGood (on_exchanged env x s)
    by_exchange (exchange_failed message) = refl
    by_exchange (exchanged token account_id) =
        if_keeps IsGood (is_empty (trim_space account_id)) (λ _. refl)
          (λ _. by_result (upsert_from_token env account_id token s).1)

    by_answer : (x : PollAnswer) → IsGood (on_polled o env x s)
    by_answer not_yet = refl
    by_answer (poll_failed message) = ground arith
    by_answer (authorized authorization_code verifier) =
        by_exchange (o.exchange_authorization_code authorization_code verifier)
