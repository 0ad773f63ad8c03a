-- ===== src/Recovery.antt =====
-- internal/server/rate_limit_recovery.go: a request for which all accounts are limited waits for the first that is
-- known to recover, within a budget.
pub mod Answers
mod Examples
use chatgpt_codex_proxy.Base.{
  ℕ, ◌+◌, ◌-◌, ◌/◌, Bool, true, false, ◌&&◌, ◌||◌, not, Option, none, some, String, ltb, leb, ◌==◌,
  if◌then◌else◌,
}
use text.Mathlib.Text.{◌==◌ as str_eq}
use chatgpt_codex_proxy.Base.Text.{trim_space, is_empty}
use chatgpt_codex_proxy.Accounts.Types.{Record}
use chatgpt_codex_proxy.Accounts.Service.{Service, Env, Error, Result, ok, err, panic}
use chatgpt_codex_proxy.Accounts.Service.Reads.{earliest_availability}
use chatgpt_codex_proxy.Models.{Catalog, supports_record}

-- What one call meets: the clock before and after the wait, what others do to the accounts during it, the deadline of its context, whether
-- the context ends the wait and whether it has ended when the timer has fired.
pub record Wait : Type 0 where
  pub asked_in : Env
  pub now : ℕ
  pub started : ℕ
  pub max_wait : ℕ
  pub deadline : Option ℕ
  pub is_cancelled : Bool
  pub is_over : Bool
  pub woken_at : ℕ
  pub meanwhile : Service → Service

-- `true`; `false` without an error; the error of a recovery that is too late; the context's; the
-- store's.
pub data Recovery : Type 0 where
  retries no_recovery : Recovery
  too_late : ℕ → Recovery
  context_done : Recovery
  refused_by : Error → Recovery
  recovery_panicked : Recovery

abbrev pub sooner : ℕ → ℕ → ℕ
sooner limit t = if ltb limit t then limit else t

abbrev pub before_deadline : Option ℕ → ℕ → ℕ
before_deadline none t = t
before_deadline (some d) t = sooner d t

unfoldable pub wait_until : Wait → ℕ → ℕ
wait_until w recovery_at = before_deadline w.deadline (sooner (w.started + w.max_wait) recovery_at)

-- After the select on the timer and the context.
abbrev pub after_timer : Wait → ℕ → Recovery
after_timer w recovery_at =
    if w.is_cancelled
    then context_done
    else if w.is_over
    then context_done
    else if ltb w.woken_at recovery_at
    then too_late recovery_at
    else retries

abbrev pub with_recovery : Wait → ℕ → Service → Service × Recovery
with_recovery w recovery_at s =
    if not (ltb w.now (wait_until w recovery_at))
    then (s, if not (ltb w.now recovery_at) then retries else too_late recovery_at)
    else (w.meanwhile s, after_timer w recovery_at)

abbrev pub on_availability : Wait → Service × Result (Option ℕ) → Service × Recovery
on_availability w (s, ok none) = (s, no_recovery)
on_availability w (s, ok (some recovery_at)) = with_recovery w recovery_at s
on_availability w (s, err e) = (s, refused_by e)
on_availability w (s, panic) = (s, recovery_panicked)

-- `waitForCapacityRecovery`, with the accounts at its end.
unfoldable pub wait_for_capacity_recovery :
    Wait → Option (Record → Bool) → Service → Service × Recovery
unfolding earliest_availability wait_until
wait_for_capacity_recovery w allow s = on_availability w (earliest_availability w.asked_in allow s)

-- The start of the budget is the first time that it is asked for.
abbrev pub recovery_start : ℕ → ℕ → ℕ
recovery_start now started = if started == 0 then now else started

-- Whole seconds, rounded up, and one at least.
unfoldable pub retry_after_seconds : ℕ → ℕ → ℕ
retry_after_seconds now at =
    let seconds = (at - now + 999999999) / 1000000000 in
    if at == 0 then 1 else if ltb seconds 1 then 1 else seconds

pub record SessionResolution : Type 0 where
  pub preferred_account_id : String
  pub model : String
  pub explicit_previous : Bool
  pub implicit_resume : Bool

-- `recoveryAllowForResolution`; a nil resolution is `none`.
unfoldable pub recovery_allow : Catalog → Option SessionResolution → Option (Record → Bool)
unfolding supports_record trim_space
recovery_allow catalog none = none
recovery_allow catalog (some x) = some (λ r.
    if (x.explicit_previous || x.implicit_resume)
      && not (str_eq r.id (trim_space x.preferred_account_id))
    then false
    else is_empty (trim_space x.model) || supports_record r (trim_space x.model) catalog)
