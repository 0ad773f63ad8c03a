-- ===== src/Accounts/Examples/Histories.antt =====
-- Examples of a service with two accounts.
use chatgpt_codex_proxy.Base.{◌≡◌, refl, true, false, none, some, List, [], ◌∷◌, arith}
use chatgpt_codex_proxy.Base.Text.{trim_space, is_empty}
use chatgpt_codex_proxy.Base.Dict.{lookup}
use chatgpt_codex_proxy.Accounts.Types.{clone_record}
use chatgpt_codex_proxy.Accounts.Quota.{is_eligible}
use chatgpt_codex_proxy.Accounts.Service.{
  Service, State, least_used, sticky, Env, ok, refresh_record, refresh_all,
}
use chatgpt_codex_proxy.Accounts.Service.Load.{new_service, load_records}
use chatgpt_codex_proxy.Accounts.Service.Acquire.{acquire_matching_locked}
use chatgpt_codex_proxy.Accounts.Service.Affinity.{note_thread_success, acquire_thread}
use chatgpt_codex_proxy.Accounts.Service.Calls.{Call, run, thread_succeeds, removes, cools}
use chatgpt_codex_proxy.Accounts.Service.Choice.{Answers, acquire-Answers}
use chatgpt_codex_proxy.Accounts.Service.Durable.{IsSaved, run-IsSaved}
use chatgpt_codex_proxy.Accounts.Service.Links.{IsLinked}
use chatgpt_codex_proxy.Accounts.Service.Links.Run.{run-IsLinked}
use chatgpt_codex_proxy.Accounts.Service.Threads.{acquire_thread-note_thread_success}
use chatgpt_codex_proxy.Accounts.Examples.{a_late, b_open}

abbrev service : Service
service = record {
  records = ("a", a_late) ∷ ("b", b_open) ∷ [];
  rotation_strategy = sticky;
  round_robin_index = 3;
  sticky_account_id = "b";
  thread_affinity_ttl = 100;
  thread_affinities = [];
  disk = record {
    records = clone_record a_late ∷ clone_record b_open ∷ [];
    rotation_strategy = sticky;
  };
}

abbrev env : Env
env = record { now = 20; save_error = none; next_account_id = "acct_1"; decode_payload = λ _. none }

acquire-Answers_example : Answers none 20 service (acquire_matching_locked "c" none 20 service).1
acquire-Answers_example = acquire-Answers "c" none 20 service (omega arith)

abbrev day : List (Env × Call)
day = (env, thread_succeeds "t" "a") ∷ (env, cools "a" (some 40) "slow") ∷ (env, removes "b") ∷ []

abbrev stored : State
stored = record { records = a_late ∷ b_open ∷ []; rotation_strategy = sticky }

-- The service that starts from the stored accounts.
abbrev loaded : Service
loaded = record {
  records = ("a", clone_record a_late) ∷ ("b", clone_record b_open) ∷ [];
  rotation_strategy = sticky;
  round_robin_index = 0;
  sticky_account_id = "";
  thread_affinity_ttl = 1800000000000;
  thread_affinities = [];
  disk = stored;
}

starts : new_service env (ok stored) least_used ≡ ok loaded
unfolding new_service load_records clone_record trim_space
starts = refl

run-IsLinked_example : IsLinked (run loaded day)
run-IsLinked_example = run-IsLinked env (ok stored) least_used loaded day starts

run-IsSaved_example : IsSaved (run service day)
run-IsSaved_example = run-IsSaved service day (refl, (refl, (refl, tt))) refl

service-a : lookup (trim_space "a") service.records ≡ some a_late
unfolding lookup trim_space
service-a = refl

some_key : is_empty (trim_space "a") ≡ false
unfolding trim_space
some_key = refl

a_late-eligible : is_eligible a_late 20 ≡ true
unfolding is_eligible trim_space
a_late-eligible = refl

service-saves : (refresh_all env (note_thread_success 5 "a" "a" service)).1 ≡ ok tt
unfolding refresh_all note_thread_success trim_space lookup
service-saves = refl

acquire_thread-note_thread_success_example :
    (acquire_thread env "a" "b" none (note_thread_success 5 "a" "a" service)).1
    ≡ ok (clone_record (refresh_record 20 a_late).0)
acquire_thread-note_thread_success_example =
    acquire_thread-note_thread_success env 5 "a" "a" "b" none service a_late some_key some_key
      service-a a_late-eligible refl (omega arith) service-saves
