-- ===== src/Manager/Lease.antt =====
-- internal/accountmanager/manager.go, AcquireSpecificLease: one required account with one of its slots. While a call
-- waits for a slot, others change the accounts and the slots.
use chatgpt_codex_proxy.Base.{
  ℕ, ◌≡◌, refl, sym, subst, Bool, true, false, String, if◌then◌else◌, if_keeps,
}
use chatgpt_codex_proxy.Accounts.Types.{Record}
use chatgpt_codex_proxy.Accounts.Service.{Service, Env, Result, ok, err, panic}
use chatgpt_codex_proxy.Accounts.Service.Reads.{eligible_now}
use chatgpt_codex_proxy.Capacity.{
  Entry, refused, acquired, waits, enter, Ending, leased, closed_error, cancelled, wake, cancel,
}
use chatgpt_codex_proxy.Capacity.Leases.{World, enters, releases, cancels, perform}
use chatgpt_codex_proxy.Capacity.History.{IsBalanced, perform-IsBalanced}
use chatgpt_codex_proxy.Manager.{
  AccountManager, Visit, from_accounts, account_unavailable, coordinator_closed, context_ended,
  Answer, done, failed, panicked, get_record, ensure_ready,
}

pub record Pool : Type 0 where
  pub service : Service
  pub slots : World

-- What one run meets: the calls of the accounts, what others do before it asks for a slot, while it
-- waits for one and once it has one, and whether its context is cancelled by then.
pub record Errand : Type 0 where
  pub found_in : Env
  pub eligible_in_env : Env
  pub visit : Visit
  pub before_enter : Pool → Pool
  pub while_waiting : Pool → Pool
  pub once_leased : Pool → Pool
  pub is_cancelled : Bool

-- `capacity.Acquire`, whose lease, if it ends in one, is among those of the slots.
abbrev after_wait : Errand → String → ℕ → Pool → Pool × Ending
after_wait x id w p =
    if x.is_cancelled
    then (record p { slots = perform (cancels id w) p.slots }, (cancel id w p.slots.coordinator).1)
    else (p, wake w p.slots.coordinator)

abbrev pub on_entry : Errand → String → Pool → Entry → Pool × Ending
on_entry x id p refused = (p, closed_error)
on_entry x id p acquired = (p, leased)
on_entry x id p (waits w) = after_wait x id w (x.while_waiting p)

unfoldable pub acquire_slot : Errand → String → Pool → Pool × Ending
unfolding perform enter cancel wake
acquire_slot x id p =
    on_entry x id (record p { slots = perform (enters id) p.slots })
      (enter id p.slots.coordinator).1

-- `release()`
abbrev pub give_back : String → Pool → Pool
give_back id p = record p { slots = perform (releases id) p.slots }

abbrev pub in_service : Service × Answer Record → Pool → Pool × Answer Record
in_service r p = (record p { service = r.0 }, r.1)

-- A slot is kept only with a record.
abbrev pub kept_if_done : String → Pool × Answer Record → Pool × Answer Record
kept_if_done id (p, done r) = (p, done r)
kept_if_done id (p, failed e) = (give_back id p, failed e)
kept_if_done id (p, panicked) = (p, panicked)

abbrev pub readied : AccountManager → Errand → String → Pool → Pool × Answer Record
readied m x id p = kept_if_done id (in_service (ensure_ready m x.visit id p.service) p)

abbrev pub if_eligible :
    AccountManager → Errand → String → Pool → Result Bool → Pool × Answer Record
if_eligible m x id p (ok true) = readied m x id p
if_eligible m x id p (ok false) = (give_back id p, failed account_unavailable)
if_eligible m x id p (err e) = (give_back id p, failed (from_accounts e))
if_eligible m x id p panic = (p, panicked)

-- With the slot.
unfoldable pub with_slot : AccountManager → Errand → String → Bool → Pool → Pool × Answer Record
unfolding eligible_now ensure_ready perform
with_slot m x id require_eligible p =
    let asked = eligible_now x.eligible_in_env id p.service in
    if require_eligible
    then if_eligible m x id (record p { service = asked.0 }) asked.1
    else readied m x id p

abbrev pub on_ending :
    AccountManager → Errand → String → Bool → Pool × Ending → Pool × Answer Record
on_ending m x id require_eligible (p, leased) = with_slot m x id require_eligible (x.once_leased p)
on_ending m x id require_eligible (p, closed_error) = (p, failed coordinator_closed)
on_ending m x id require_eligible (p, cancelled) = (p, failed context_ended)

abbrev pub on_found :
    AccountManager → Errand → String → Bool → Pool → Answer Record → Pool × Answer Record
on_found m x id require_eligible p (done _) =
    on_ending m x id require_eligible (acquire_slot x id (x.before_enter p))
on_found m x id require_eligible p (failed e) = (p, failed e)
on_found m x id require_eligible p panicked = (p, panicked)

unfoldable pub acquire_specific_lease :
    AccountManager → Errand → String → Bool → Pool → Pool × Answer Record
unfolding get_record acquire_slot with_slot
acquire_specific_lease m x id require_eligible p =
    let found = get_record x.found_in id p.service in
    on_found m x id require_eligible (record p { service = found.0 }) found.1

-- The slots that a run with a slot leaves.
abbrev pub Settles : String → World → Pool × Answer Record → Type 0
Settles id before (p, done r) = p.slots ≡ before
Settles id before (p, failed e) = p.slots ≡ perform (releases id) before
Settles id before (p, panicked) = p.slots ≡ before

readied-Settles :
    (m : AccountManager) (x : Errand) (id : String) (p : Pool)
    → Settles id p.slots (readied m x id p)
readied-Settles m x id p = by_answer (ensure_ready m x.visit id p.service).1
  where
    by_answer :
        (a : Answer Record)
        → Settles id p.slots
            (kept_if_done id (record p { service = (ensure_ready m x.visit id p.service).0 }, a))
    by_answer (done r) = refl
    by_answer (failed e) = refl
    by_answer panicked = refl

if_eligible-Settles :
    (m : AccountManager) (x : Errand) (id : String) (p : Pool) (answer : Result Bool)
    → Settles id p.slots (if_eligible m x id p answer)
if_eligible-Settles m x id p (ok true) = readied-Settles m x id p
if_eligible-Settles m x id p (ok false) = refl
if_eligible-Settles m x id p (err e) = refl
if_eligible-Settles m x id p panic = refl

-- From the moment that AcquireSpecificLease has a slot, whatever the accounts and the login
-- service answer: where it returns the account, the slots and the leases are those of that moment,
-- and where it returns an error, they are those after exactly one release of that slot; a panic
-- leaves them as they were.
pub with_slot-Settles :
    (m : AccountManager) (x : Errand) (id : String) (require_eligible : Bool) (p : Pool)
    → Settles id p.slots (with_slot m x id require_eligible p)
unfolding with_slot
with_slot-Settles m x id require_eligible p =
    if_keeps (Settles id p.slots) require_eligible
      (λ _.
        if_eligible-Settles m x id
          (record p { service = (eligible_now x.eligible_in_env id p.service).0 })
          (eligible_now x.eligible_in_env id p.service).1)
      (λ _. readied-Settles m x id p)

abbrev pub Balances : Pool × Answer Record → Type 0
Balances t = IsBalanced t.0.slots

of_Settles :
    (id : String) (w : World) (t : Pool × Answer Record)
    → IsBalanced w
    → Settles id w t
    → Balances t
of_Settles id w (p, done r) h e = subst IsBalanced (sym e) h
of_Settles id w (p, failed x) h e = subst IsBalanced (sym e) (perform-IsBalanced (releases id) w h)
of_Settles id w (p, panicked) h e = subst IsBalanced (sym e) h

on_entry-IsBalanced :
    (x : Errand) (id : String) (p : Pool) (entry : Entry)
    → ((q : Pool) → IsBalanced q.slots → IsBalanced (x.while_waiting q).slots)
    → IsBalanced p.slots
    → IsBalanced (on_entry x id p entry).0.slots
on_entry-IsBalanced x id p refused others h = h
on_entry-IsBalanced x id p acquired others h = h
on_entry-IsBalanced x id p (waits w) others h =
    if_keeps (λ (t : Pool × Ending). IsBalanced t.0.slots) x.is_cancelled
      (λ _. perform-IsBalanced (cancels id w) (x.while_waiting p).slots (others p h))
      (λ _. others p h)

-- What others do leaves the slots in use the leases.
pub record IsFair (x : Errand) : Type 0 where
  pub entering : (q : Pool) → IsBalanced q.slots → IsBalanced (x.before_enter q).slots
  pub queueing : (q : Pool) → IsBalanced q.slots → IsBalanced (x.while_waiting q).slots
  pub holding : (q : Pool) → IsBalanced q.slots → IsBalanced (x.once_leased q).slots

on_ending-Balances :
    (m : AccountManager) (x : Errand) (id : String) (require_eligible : Bool) (t : Pool × Ending)
    → IsFair x
    → IsBalanced t.0.slots
    → Balances (on_ending m x id require_eligible t)
on_ending-Balances m x id require_eligible (p, leased) fair h =
    of_Settles id (x.once_leased p).slots (with_slot m x id require_eligible (x.once_leased p))
      (fair.holding p h) (with_slot-Settles m x id require_eligible (x.once_leased p))
on_ending-Balances m x id require_eligible (p, closed_error) fair h = h
on_ending-Balances m x id require_eligible (p, cancelled) fair h = h

on_found-Balances :
    (m : AccountManager) (x : Errand) (id : String) (require_eligible : Bool) (p : Pool)
    (found : Answer Record)
    → IsFair x
    → IsBalanced p.slots
    → Balances (on_found m x id require_eligible p found)
unfolding acquire_slot
on_found-Balances m x id require_eligible p (done r) fair h =
    on_ending-Balances m x id require_eligible (acquire_slot x id (x.before_enter p)) fair (
      on_entry-IsBalanced x id _ _ fair.queueing
        (perform-IsBalanced (enters id) (x.before_enter p).slots (fair.entering p h)))
on_found-Balances m x id require_eligible p (failed e) fair h = h
on_found-Balances m x id require_eligible p panicked fair h = h

-- If the slots in use are the leases, within the limit, with waiters only where all slots are in
-- use, and what others do during the call leaves them so, then they are so after
-- AcquireSpecificLease, whether it returns the account or an error, waits, is cancelled or finds
-- the coordinator closed.
pub acquire_specific_lease-IsBalanced :
    (m : AccountManager) (x : Errand) (id : String) (require_eligible : Bool) (p : Pool)
    → IsFair x
    → IsBalanced p.slots
    → IsBalanced (acquire_specific_lease m x id require_eligible p).0.slots
unfolding acquire_specific_lease
acquire_specific_lease-IsBalanced m x id require_eligible p fair h =
    on_found-Balances m x id require_eligible
      (record p { service = (get_record x.found_in id p.service).0 })
      (get_record x.found_in id p.service).1 fair h
