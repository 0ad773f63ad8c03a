-- ===== src/DeviceLogin/Polls.antt =====
-- internal/devicelogin/service.go as a machine: the calls of its methods and the steps of its goroutines.
mod Phases
mod Written
mod Kept
pub mod Shown
use chatgpt_codex_proxy.Base.{
  ℕ, zero, suc, Bool, true, false, ◌||◌, not, Option, none, some, List, [], ◌∷◌, String, ltb,
  if◌then◌else◌,
}
use chatgpt_codex_proxy.Base.Dict.Sets.{among}
use chatgpt_codex_proxy.Accounts.Service.{Service, Env, Result, ok, err, panic}
use chatgpt_codex_proxy.Accounts.Types.{Record}
use chatgpt_codex_proxy.DeviceLogin.{
  DeviceLoginStatus, pending, ready, expired, failed, Phase, polling, settles, panicked, Poll,
  World, CodeRequest, PendingLogin, start, set_status, delete_expired, close, same_status,
}
use chatgpt_codex_proxy.DeviceLogin.Tick.{DeviceAuth, Ticked, unasked, on_tick}

abbrev pub id_of : Poll → String
id_of p = p.login.shown.login_id

unfoldable pub poll_at : ℕ → List Poll → Option Poll
poll_at k [] = none
poll_at zero (p ∷ ps) = some p
poll_at (suc k) (p ∷ ps) = poll_at k ps

unfoldable pub put_phase : ℕ → Phase → List Poll → List Poll
put_phase k phase [] = []
put_phase zero phase (p ∷ ps) = record p { phase = phase } ∷ ps
put_phase (suc k) phase (p ∷ ps) = p ∷ put_phase k phase ps

unfoldable pub drop_poll : ℕ → List Poll → List Poll
drop_poll k [] = []
drop_poll zero (p ∷ ps) = ps
drop_poll (suc k) (p ∷ ps) = p ∷ drop_poll k ps

abbrev pub note_upsert : String → Option (Result Record) → List String → List String
note_upsert id none ids = ids
note_upsert id (some (ok _)) ids = id ∷ ids
note_upsert id (some (err _)) ids = ids
note_upsert id (some panic) ids = ids

-- What a case of the select leaves.
abbrev pub after_tick : ℕ → String → Ticked → World → World
after_tick k id t w = record w {
  accounts = t.accounts;
  polls = put_phase k t.phase w.polls;
  upserted = note_upsert id t.upsert w.upserted;
}

abbrev pub tick_poll : ℕ → DeviceAuth → Env → World → Poll → Phase → World
tick_poll k o env w p polling = after_tick k (id_of p) (on_tick o env p.login w.accounts) w
tick_poll k o env w p (settles _ _ _) = w
tick_poll k o env w p panicked = w

-- The case of the context: it is done at the deadline of the login, and when the service is closed.
abbrev pub expire_poll : ℕ → ℕ → World → Poll → Phase → World
expire_poll k now w p polling =
    if w.devices.closed || not (ltb now p.login.shown.expires_at)
    then after_tick k (id_of p)
        (unasked w.accounts (settles (some pending) expired "device login expired")) w
    else w
expire_poll k now w p (settles _ _ _) = w
expire_poll k now w p panicked = w

-- The call of setStatus with which a goroutine ends.
abbrev pub settle_poll : ℕ → World → Poll → Phase → World
settle_poll k w p polling = w
settle_poll k w p (settles expected status message) = record w {
  devices = record w.devices {
    logins = set_status (id_of p) expected status message w.devices.logins;
  };
  polls = drop_poll k w.polls;
}
settle_poll k w p panicked = w

abbrev pub with_poll : (World → Poll → Phase → World) → World → Option Poll → World
with_poll act w none = w
with_poll act w (some p) = act w p p.phase

-- The goroutines are numbered from the last that was started; `accounts_change` is what others do
-- to the accounts.
pub data Event : Type 0 where
  starts : ℕ → String → CodeRequest → Event
  ticks : ℕ → DeviceAuth → Env → Event
  expires : ℕ → ℕ → Event
  settles_login : ℕ → Event
  sweeps : ℕ → Event
  closes : Event
  accounts_change : (Service → Service) → Event

unfoldable pub step : (ℕ → String) → Event → World → World
unfolding start delete_expired poll_at put_phase drop_poll on_tick set_status
step format (starts now auth_url request) w = (start format now auth_url request w).0
step format (ticks k o env) w = with_poll (tick_poll k o env) w (poll_at k w.polls)
step format (expires k now) w = with_poll (expire_poll k now) w (poll_at k w.polls)
step format (settles_login k) w = with_poll (settle_poll k) w (poll_at k w.polls)
step format (sweeps now) w = delete_expired now w
step format closes w = close w
step format (accounts_change f) w = record w { accounts = f w.accounts }

unfoldable pub run : (ℕ → String) → World → List Event → World
unfolding step
run format w [] = w
run format w (e ∷ es) = run format (step format e w) es

-- NewDeviceLoginService
abbrev pub new_service : ℕ → Service → World
new_service timeout accounts = record {
  devices = record { timeout = timeout; logins = []; closed = false };
  accounts = accounts;
  polls = [];
  upserted = [];
}
