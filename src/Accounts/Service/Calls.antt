-- ===== src/Accounts/Service/Calls.antt =====
-- service.go as a machine: the calls of its methods, one after the other, each with what it meets.
use chatgpt_codex_proxy.Base.{ℕ, Bool, Option, List, [], ◌∷◌, String}
use chatgpt_codex_proxy.Base.Int.{ℤ}
use chatgpt_codex_proxy.Accounts.Types.{Status, Record, OAuthToken, QuotaSnapshot}
use chatgpt_codex_proxy.Accounts.Service.{Service, Env, RotationStrategy}
use chatgpt_codex_proxy.Accounts.Service.Ops.{
  upsert_from_token, remove, patch, observe_quota, update_auth, mark_error, set_cooldown,
  set_rotation_strategy,
}
use chatgpt_codex_proxy.Accounts.Service.Reads.{
  list, get_account, eligible_now, earliest_availability,
}
use chatgpt_codex_proxy.Accounts.Service.Acquire.{acquire_matching}
use chatgpt_codex_proxy.Accounts.Service.Affinity.{
  note_success, set_thread_affinity_ttl, note_thread_success, note_thread_quota_failure,
  sweep_thread_affinities, acquire_thread, thread_affinity,
}

pub data Call : Type 0 where
  lists : Call
  gets : String → Call
  tests_eligible : String → Call
  asks_availability : Option (Record → Bool) → Call
  upserts : String → OAuthToken → Call
  removes : String → Call
  patches : String → Option String → Option Status → Call
  observes : String → Option QuotaSnapshot → Call
  authenticates : String → String → OAuthToken → Call
  marks : String → Status → String → Call
  cools : String → Option ℕ → String → Call
  switches : RotationStrategy → Call
  succeeds : String → Call
  sets_ttl : ℤ → Call
  thread_succeeds : String → String → Call
  thread_fails : String → String → Option ℕ → Call
  sweeps : Call
  acquires : String → Option (Record → Bool) → Call
  acquires_thread : String → String → Option (Record → Bool) → Call
  asks_affinity : String → Option (Record → Bool) → Call

-- The state after a call, whether it failed or not.
unfoldable pub step : Env → Call → Service → Service
step env lists s = (list env s).0
step env (gets id) s = (get_account env id s).0
step env (tests_eligible id) s = (eligible_now env id s).0
step env (asks_availability allow) s = (earliest_availability env allow s).0
step env (upserts account_id token) s = (upsert_from_token env account_id token s).0
step env (removes id) s = (remove env id s).0
step env (patches id label status) s = (patch env id label status s).0
step env (observes id quota) s = (observe_quota env id quota s).0
step env (authenticates id account_id token) s = (update_auth env id account_id token s).0
step env (marks id status message) s = (mark_error env id status message s).0
step env (cools id until message) s = (set_cooldown env id until message s).0
step env (switches strategy) s = (set_rotation_strategy env strategy s).0
step env (succeeds id) s = note_success id s
step env (sets_ttl ttl) s = set_thread_affinity_ttl ttl s
step env (thread_succeeds key id) s = note_thread_success env.now key id s
step env (thread_fails key id hold_until) s = note_thread_quota_failure key id hold_until s
step env sweeps s = sweep_thread_affinities env.now s
step env (acquires preferred_id allow) s = (acquire_matching env preferred_id allow s).0
step env (acquires_thread key preferred_id allow) s =
    (acquire_thread env key preferred_id allow s).0
step env (asks_affinity key allow) s = (thread_affinity env key allow s).0

unfoldable pub run : Service → List (Env × Call) → Service
run s [] = s
run s ((env, c) ∷ cs) = run (step env c s) cs
