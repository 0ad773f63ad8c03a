-- ===== src/Activity/Examples.antt =====
-- A request that is watched: it starts, is routed, ends and expires.
use chatgpt_codex_proxy.Base.{some, List, [], ◌∷◌, String, All, arith}
use chatgpt_codex_proxy.Base.Dict.{lookup}
use chatgpt_codex_proxy.Activity.Records.{Phase, Outcome, FinishInput}
use chatgpt_codex_proxy.Activity.{new_store}
use chatgpt_codex_proxy.Activity.Calls.{
  Call, starts, updates, finishes, sweeps, subscribes, receives, step, run,
}
use chatgpt_codex_proxy.Activity.Moves.{Meets}
use chatgpt_codex_proxy.Activity.Watched.{IsWatched, run-IsWatched}
use chatgpt_codex_proxy.Activity.Times.{Past, IsInTime, run-IsInTime}
use chatgpt_codex_proxy.Activity.Advance.{TidyAt, Advances, run-TidyAt, step-Advances}

abbrev lower : String → String
lower s = s

abbrev input : FinishInput
input = record { outcome = Outcome.failed; status = some 429; error_code = "" }

abbrev calls : List Call
calls =
    subscribes 1 (λ _. 1) 1
    ∷ starts 2 2 "r" "/v1/responses?x=1"
    ∷ updates 3 "r" (some (λ r. record r { phase = Phase.streaming; model = " gpt " }))
    ∷ receives 1
    ∷ subscribes 4 (λ _. 4) 4
    ∷ finishes 5 5 "r" input
    ∷ []

calls-Past : All (Meets Past) calls
calls-Past = (
  (λ _. omega arith, omega arith),
  (omega arith, (omega arith, (tt, ((λ _. omega arith, omega arith), (omega arith, tt))))),
)

run-IsWatched_example : IsWatched (run lower (new_store 60 2) calls)
run-IsWatched_example = run-IsWatched lower 60 2 calls

run-IsInTime_example : IsInTime (run lower (new_store 60 2) calls)
run-IsInTime_example = run-IsInTime lower 60 2 calls calls-Past

run-TidyAt_example : TidyAt (lookup "r" (run lower (new_store 60 2) calls).records)
run-TidyAt_example = run-TidyAt lower 60 2 calls "r"

step-Advances_example :
    Advances
      (lookup "r" (run lower (new_store 60 2) calls).records)
      (lookup "r" (step lower (sweeps 70 (λ _. 70)) (run lower (new_store 60 2) calls)).records)
step-Advances_example = step-Advances lower 60 2 calls (sweeps 70 (λ _. 70)) "r"
