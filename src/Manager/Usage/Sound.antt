-- ===== src/Manager/Usage/Sound.antt =====
-- Refresh and GetUsage keep the slots and the accounts sound.
use chatgpt_codex_proxy.Capacity.Leases.{releases, perform}
use chatgpt_codex_proxy.Base.{◌≡◌, refl, ap, Bool, true, false, Option, none, String, if_keeps}
use chatgpt_codex_proxy.Accounts.Types.{Record, QuotaSnapshot}
use chatgpt_codex_proxy.Accounts.Service.{Service, Result, ok, err, panic}
use chatgpt_codex_proxy.Accounts.Service.Calls.{step, gets, observes, tests_eligible}
use chatgpt_codex_proxy.Accounts.Service.Reads.{eligible_now}
use chatgpt_codex_proxy.Accounts.Service.Ops.{observe_quota}
use chatgpt_codex_proxy.Accounts.Service.Moves.Step.{step-keeps}
use chatgpt_codex_proxy.Accounts.Service.Links.{IsLinked}
use chatgpt_codex_proxy.Accounts.Service.Links.Ops.{keeps_links}
use chatgpt_codex_proxy.Capacity.{Ending, leased, closed_error, cancelled}
use chatgpt_codex_proxy.Manager.{
  AccountManager, Answer, done, failed, panicked, get_record, ensure_ready, refresh_locked,
}
use chatgpt_codex_proxy.Manager.Steps.{get_record-IsLinked}
use chatgpt_codex_proxy.Manager.Links.{
  IsOrderly, ensure_ready-IsLinked, refresh_locked-IsLinked, go_on-keeps,
}
use chatgpt_codex_proxy.Manager.Lease.{
  Pool, Errand, acquire_slot, kept_if_done, readied, if_eligible, with_slot, on_ending, on_found,
  acquire_specific_lease,
}
use chatgpt_codex_proxy.Manager.Matching.Sound.{
  IsGood, Keeps, give_back-IsGood, acquire_slot-IsGood,
}
use chatgpt_codex_proxy.Manager.Usage.{
  on_forced, refresh_account, UsageReply, quota_read, not_read, Inquiry, after_observing,
  after_fetching, on_lease, get_usage, Usage,
}

-- What others do during a call leaves slots and accounts sound.
pub record IsPatient (x : Errand) : Type 0 where
  pub waiting : Keeps x.while_waiting
  pub entering : Keeps x.before_enter
  pub holding : Keeps x.once_leased
  pub orderly : IsOrderly x.visit

kept-IsGood :
    (id : String) (p : Pool) (a : Answer Record) → IsGood p → IsGood (kept_if_done id (p, a)).0
kept-IsGood id p (done r) h = h
kept-IsGood id p (failed e) h = give_back-IsGood id p h
kept-IsGood id p panicked h = h

readied-IsGood :
    (m : AccountManager) (x : Errand) (id : String) (p : Pool)
    → IsPatient x
    → IsGood p
    → IsGood (readied m x id p).0
readied-IsGood m x id p patient h =
    kept-IsGood id _ (ensure_ready m x.visit id p.service).1
      (h.0, ensure_ready-IsLinked m x.visit id p.service patient.orderly h.1)

if_eligible-IsGood :
    (m : AccountManager) (x : Errand) (id : String) (p : Pool) (answer : Result Bool)
    → IsPatient x
    → IsGood p
    → IsGood (if_eligible m x id p answer).0
if_eligible-IsGood m x id p (ok true) patient h = readied-IsGood m x id p patient h
if_eligible-IsGood m x id p (ok false) patient h = give_back-IsGood id p h
if_eligible-IsGood m x id p (err e) patient h = give_back-IsGood id p h
if_eligible-IsGood m x id p panic patient h = h

with_slot-IsGood :
    (m : AccountManager) (x : Errand) (id : String) (require_eligible : Bool) (p : Pool)
    → IsPatient x
    → IsGood p
    → IsGood (with_slot m x id require_eligible p).0
unfolding with_slot step
with_slot-IsGood m x id require_eligible p patient h =
    if_keeps (λ (t : Pool × Answer Record). IsGood t.0) require_eligible
      (λ _. if_eligible-IsGood m x id _ (eligible_now x.eligible_in_env id p.service).1 patient (
        h.0,
        step-keeps IsLinked (keeps_links x.eligible_in_env) (tests_eligible id) p.service h.1,
      ))
      (λ _. readied-IsGood m x id p patient h)

on_ending-IsGood :
    (m : AccountManager) (x : Errand) (id : String) (require_eligible : Bool) (t : Pool × Ending)
    → IsPatient x
    → IsGood t.0
    → IsGood (on_ending m x id require_eligible t).0
on_ending-IsGood m x id require_eligible (p, leased) patient h =
    with_slot-IsGood m x id require_eligible (x.once_leased p) patient (patient.holding p h)
on_ending-IsGood m x id require_eligible (p, closed_error) patient h = h
on_ending-IsGood m x id require_eligible (p, cancelled) patient h = h

on_found-IsGood :
    (m : AccountManager) (x : Errand) (id : String) (require_eligible : Bool) (p : Pool)
    (found : Answer Record)
    → IsPatient x
    → IsGood p
    → IsGood (on_found m x id require_eligible p found).0
on_found-IsGood m x id require_eligible p (done r) patient h =
    on_ending-IsGood m x id require_eligible (acquire_slot x id (x.before_enter p)) patient
      (acquire_slot-IsGood x id patient.waiting (x.before_enter p) (patient.entering p h))
on_found-IsGood m x id require_eligible p (failed e) patient h = h
on_found-IsGood m x id require_eligible p panicked patient h = h

acquire_specific_lease-IsGood :
    (m : AccountManager) (x : Errand) (id : String) (require_eligible : Bool) (p : Pool)
    → IsPatient x
    → IsGood p
    → IsGood (acquire_specific_lease m x id require_eligible p).0
unfolding acquire_specific_lease
acquire_specific_lease-IsGood m x id require_eligible p patient h =
    on_found-IsGood m x id require_eligible _ (get_record x.found_in id p.service).1 patient
      (h.0, get_record-IsLinked x.found_in id p.service h.1)

on_forced-IsGood :
    (m : AccountManager) (x : Errand) (id : String) (t : Pool × Ending)
    → IsPatient x
    → IsGood t.0
    → IsGood (on_forced m x id t).0
on_forced-IsGood m x id (p, leased) patient h = give_back-IsGood id _ (
  h.0,
  go_on-keeps IsLinked (λ _. none) (refresh_locked m x.visit)
      (get_record x.visit.first id (x.visit.meanwhile p.service))
      (λ r u. refresh_locked-IsLinked m x.visit r u patient.orderly)
      (get_record-IsLinked x.visit.first id _ (patient.orderly.locking p.service h.1)),
)
on_forced-IsGood m x id (p, closed_error) patient h = h
on_forced-IsGood m x id (p, cancelled) patient h = h

pub refresh_account-IsGood :
    (m : AccountManager) (x : Errand) (id : String) (p : Pool)
    → IsPatient x
    → IsGood p
    → IsGood (refresh_account m x id p).0
unfolding refresh_account
refresh_account-IsGood m x id p patient h =
    on_forced-IsGood m x id (acquire_slot x id p) patient
      (acquire_slot-IsGood x id patient.waiting p h)

after_observing-IsGood :
    (q : Inquiry) (r : Record) (quota : Option QuotaSnapshot) (p : Pool) (a : Result (Unit {0}))
    → ((s : Service) → IsLinked s → IsLinked (q.before_reread s))
    → IsGood p
    → IsGood (after_observing q r quota p a).0
unfolding step
after_observing-IsGood q r quota p (ok _) rereading h =
    (h.0, step-keeps IsLinked (keeps_links q.reread_in) (gets r.id) _ (rereading p.service h.1))
after_observing-IsGood q r quota p (err e) rereading h = h
after_observing-IsGood q r quota p panic rereading h = h

after_fetching-IsGood :
    (q : Inquiry) (r : Record) (p : Pool) (reply : UsageReply)
    → ((s : Service) → IsLinked s → IsLinked (q.before_reread s))
    → IsGood p
    → IsGood (after_fetching q r p reply).0
unfolding step
after_fetching-IsGood q r p (quota_read quota) rereading h =
    after_observing-IsGood q r quota _ (observe_quota q.observed_in r.id quota p.service).1
      rereading
      (h.0, step-keeps IsLinked (keeps_links q.observed_in) (observes r.id quota) p.service h.1)
after_fetching-IsGood q r p (not_read message) rereading h = h

on_lease-IsGood :
    (q : Inquiry) (id : String) (t : Pool × Answer Record)
    → Keeps q.while_fetching
    → ((s : Service) → IsLinked s → IsLinked (q.before_reread s))
    → IsGood t.0
    → IsGood (on_lease q id t).0
on_lease-IsGood q id (p, done r) others rereading h =
    give_back-IsGood id _ (after_fetching-IsGood q r _ (q.fetch r) rereading (others p h))
on_lease-IsGood q id (p, failed e) others rereading h = h
on_lease-IsGood q id (p, panicked) others rereading h = h

-- The slots that GetUsage leaves, by what AcquireSpecificLease gave it.
abbrev pub GivesBack : Inquiry → String → Pool × Answer Record → Pool → Type 0
GivesBack q id (p, done r) after = after.slots ≡ perform (releases id) (q.while_fetching p).slots
GivesBack q id (p, failed e) after = after.slots ≡ p.slots
GivesBack q id (p, panicked) after = after.slots ≡ p.slots

observed_slots :
    (q : Inquiry) (r : Record) (quota : Option QuotaSnapshot) (p : Pool) (a : Result (Unit {0}))
    → (after_observing q r quota p a).0.slots ≡ p.slots
observed_slots q r quota p (ok _) = refl
observed_slots q r quota p (err e) = refl
observed_slots q r quota p panic = refl

fetched_slots :
    (q : Inquiry) (r : Record) (p : Pool) (reply : UsageReply)
    → (after_fetching q r p reply).0.slots ≡ p.slots
fetched_slots q r p (quota_read quota) =
    let saved = observe_quota q.observed_in r.id quota p.service in
    observed_slots q r quota (record p { service = saved.0 }) saved.1
fetched_slots q r p (not_read message) = refl

on_lease-GivesBack :
    (q : Inquiry) (id : String) (t : Pool × Answer Record) → GivesBack q id t (on_lease q id t).0
on_lease-GivesBack q id (p, done r) =
    ap (perform (releases id)) (fetched_slots q r (q.while_fetching p) (q.fetch r))
on_lease-GivesBack q id (p, failed e) = refl
on_lease-GivesBack q id (p, panicked) = refl

abbrev pub Slots : AccountManager → Errand → Inquiry → String → Bool → Pool → Pool → Type 0
Slots m x q id true p after = after.slots ≡ p.slots
Slots m x q id false p after = GivesBack q id (acquire_specific_lease m x id true p) after

get_usage-Slots :
    (m : AccountManager) (x : Errand) (q : Inquiry) (id : String) (cached : Bool) (p : Pool)
    → Slots m x q id cached p (get_usage m x q id cached p).0
unfolding get_usage
get_usage-Slots m x q id true p = refl
get_usage-Slots m x q id false p = on_lease-GivesBack q id (acquire_specific_lease m x id true p)

-- If the slots in use are the leases, within the limit, with waiters only where all slots are in
-- use, the maps of the accounts fit together, and what others do between the steps of the call
-- leaves both so, then both hold after GetUsage, cached or not, whatever each step answers. If
-- cached, GetUsage leaves the slots alone; if not, and AcquireSpecificLease gives it the account,
-- the slots and leases are those at the end of the request after exactly one release of that slot,
-- whether the request or the store fails or not; and if AcquireSpecificLease gives none, they are
-- those that it left.
pub get_usage-IsGood :
    (m : AccountManager) (x : Errand) (q : Inquiry) (id : String) (cached : Bool) (p : Pool)
    → IsPatient x
    → Keeps q.while_fetching
    → ((s : Service) → IsLinked s → IsLinked (q.before_reread s))
    → IsGood p
    → IsGood (get_usage m x q id cached p).0
      × Slots m x q id cached p (get_usage m x q id cached p).0
unfolding get_usage step
get_usage-IsGood m x q id cached p patient others rereading h = (
  if_keeps (λ (t : Pool × Usage). IsGood t.0) cached
      (λ _. (h.0, step-keeps IsLinked (keeps_links x.found_in) (gets id) p.service h.1))
      (λ _.
        on_lease-IsGood q id (acquire_specific_lease m x id true p) others rereading
          (acquire_specific_lease-IsGood m x id true p patient h)),
  get_usage-Slots m x q id cached p,
)
