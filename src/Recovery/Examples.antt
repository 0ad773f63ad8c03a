-- ===== src/Recovery/Examples.antt =====
-- A wait for an account that is blocked until 30.
use chatgpt_codex_proxy.Base.{◌≡◌, refl, false, none, [], ◌∷◌, arith, ℕ}
use chatgpt_codex_proxy.Base.Text.{trim_space}
use chatgpt_codex_proxy.Accounts.Examples.{blocked}
use chatgpt_codex_proxy.Accounts.Quota.{record_recovery_at}
use chatgpt_codex_proxy.Accounts.Service.{Service, least_used, refresh_all}
use chatgpt_codex_proxy.Recovery.{Wait, retries, too_late, wait_for_capacity_recovery}
use chatgpt_codex_proxy.Recovery.Answers.{Honours, wait_for_capacity_recovery-Honours}

abbrev service : Service
service = record {
  records = ("a", blocked) ∷ [];
  rotation_strategy = least_used;
  round_robin_index = 0;
  sticky_account_id = "";
  thread_affinity_ttl = 100;
  thread_affinities = [];
  disk = record { records = blocked ∷ []; rotation_strategy = least_used };
}

abbrev wait : ℕ → Wait
wait woken = record {
  asked_in = record {
    now = 10;
    save_error = none;
    next_account_id = "n";
    decode_payload = λ _. none;
  };
  now = 11;
  started = 9;
  max_wait = 60;
  deadline = none;
  is_cancelled = false;
  is_over = false;
  woken_at = woken;
  meanwhile = λ s. record s { sticky_account_id = "" };
}

retried : (wait_for_capacity_recovery (wait 31) none service).1 ≡ retries
unfolding wait_for_capacity_recovery refresh_all record_recovery_at trim_space
retried = refl

woken_early : (wait_for_capacity_recovery (wait 29) none service).1 ≡ too_late 30
unfolding wait_for_capacity_recovery refresh_all record_recovery_at trim_space
woken_early = refl

wait_for_capacity_recovery-Honours_example :
    Honours (wait 31) none 5 (wait_for_capacity_recovery (wait 31) none service)
wait_for_capacity_recovery-Honours_example =
    wait_for_capacity_recovery-Honours (wait 31) none 5 service (omega arith) (λ u r m. m)
