-- ===== src/Manager/Examples/Rounds.antt =====
-- A round of AcquireMatchingLease with one free account, and a usage request.
use mathlib.Core.List.{Memᴰ}
use chatgpt_codex_proxy.Capacity.Leases.{tries, perform}
use chatgpt_codex_proxy.Capacity.History.{perform-IsBalanced}
use chatgpt_codex_proxy.Base.{◌≡◌, refl, true, false, none, [], ◌∷◌, Mem, arith}
use chatgpt_codex_proxy.Base.Int.{pos}
use chatgpt_codex_proxy.Accounts.Types.{clone_record}
use chatgpt_codex_proxy.Accounts.Quota.{is_eligible}
use chatgpt_codex_proxy.Accounts.Service.{refresh_all, refresh_record, allows}
use chatgpt_codex_proxy.Base.Dict.{values}
use chatgpt_codex_proxy.Base.Text.{trim_space}
use chatgpt_codex_proxy.Capacity.Promises.{start-IsBalanced}
use chatgpt_codex_proxy.Capacity.{has_capacity, new_coordinator}
use chatgpt_codex_proxy.Manager.Matching.{Round, round, acquire_matching_lease, with_room}
use chatgpt_codex_proxy.Manager.Matching.Sound.{
  IsGood, IsCivil, Serves, acquire_matching_lease-Serves,
}
use chatgpt_codex_proxy.Manager.Matching.Prompt.{Readies, round-Readies}
use chatgpt_codex_proxy.Manager.Usage.{Inquiry, quota_read, get_usage}
use chatgpt_codex_proxy.Manager.Usage.Sound.{IsPatient, Slots, get_usage-IsGood}
use chatgpt_codex_proxy.Manager.Examples.{
  manager, manager-Renews, at, errand, pool, service, service-IsLinked, account, visit-IsOrderly,
}

abbrev calm : Round
calm = record {
  is_over = false;
  chosen_in = at 60;
  before_take = λ p. p;
  chosen_again_in = at 61;
  before_queue = λ p. p;
  before_read = λ p. p;
  read_in = at 69;
  errand = errand;
}

abbrev crowded : Round
crowded = record calm { before_take = λ p. record p { slots = perform (tries "a") p.slots } }

pool-IsGood : IsGood pool
pool-IsGood = (start-IsBalanced (pos 1), service-IsLinked)

calm-IsCivil : IsCivil calm
calm-IsCivil = record {
  taking = λ p h. h;
  queueing = λ p h. h;
  waiting = λ p h. h;
  holding = λ p h. h;
  reading = λ p h. h;
  orderly = visit-IsOrderly;
  exchanging = λ id s h. h;
  updating = λ id s h. h;
}

crowded-IsCivil : IsCivil crowded
crowded-IsCivil = record {
  taking = λ p h. (perform-IsBalanced (tries "a") p.slots h.0, h.1);
  queueing = λ p h. h;
  waiting = λ p h. h;
  holding = λ p h. h;
  reading = λ p h. h;
  orderly = visit-IsOrderly;
  exchanging = λ id s h. h;
  updating = λ id s h. h;
}

acquire_matching_lease-Serves_example :
    Serves (acquire_matching_lease manager (crowded ∷ calm ∷ []) "b" none pool)
acquire_matching_lease-Serves_example =
    acquire_matching_lease-Serves manager (crowded ∷ calm ∷ []) "b" none pool manager-Renews
      (crowded-IsCivil, (calm-IsCivil, tt)) pool-IsGood

account_there : Mem account (values (refresh_all (at 60) service).0.records)
unfolding refresh_all refresh_record
account_there = ∣ Memᴰ.head refl ∣₁

account_eligible : is_eligible account 60 ≡ true
unfolding is_eligible trim_space
account_eligible = refl

account_room : allows (with_room none pool.slots.coordinator) (clone_record account) ≡ true
unfolding has_capacity new_coordinator
account_room = refl

round-Readies_example :
    Readies manager calm "b" none pool
      (refresh_all (at 60) service).0
      (round manager calm "b" none pool)
round-Readies_example =
    round-Readies manager calm "b" none pool account refl refl (λ q. refl) (omega arith)
      account_there account_eligible account_room

abbrev inquiry : Inquiry
inquiry = record {
  fetch = λ _. quota_read none;
  while_fetching = λ p. p;
  observed_in = at 80;
  before_reread = λ s. s;
  reread_in = at 81;
}

errand-IsPatient : IsPatient errand
errand-IsPatient = record {
  entering = λ p h. h;
  waiting = λ p h. h;
  holding = λ p h. h;
  orderly = visit-IsOrderly;
}

get_usage-IsGood_example :
    IsGood (get_usage manager errand inquiry "a" false pool).0
    × Slots manager errand inquiry "a" false pool
        (get_usage manager errand inquiry "a" false pool).0
get_usage-IsGood_example =
    get_usage-IsGood manager errand inquiry "a" false pool errand-IsPatient (λ p h. h) (λ s h. h)
      pool-IsGood
