-- ===== src/Manager/Matching/Sound.antt =====
-- AcquireMatchingLease keeps the slots and the accounts sound and returns an account that can be used.
use chatgpt_codex_proxy.Base.{
  All, ◌≡◌, ◌∙◌, Bool, true, false, ◌&&◌, Option, none, some, List, [], ◌∷◌, String, if_keeps,
  Option-cases, inl, inr,
}
use chatgpt_codex_proxy.Accounts.Types.{Record}
use chatgpt_codex_proxy.Accounts.Service.{Service, Env, Result, ok, err, panic, allows}
use chatgpt_codex_proxy.Accounts.Service.Calls.{step, gets, acquires, tests_eligible}
use chatgpt_codex_proxy.Accounts.Service.Moves.Step.{step-keeps}
use chatgpt_codex_proxy.Accounts.Service.Links.{IsLinked}
use chatgpt_codex_proxy.Accounts.Service.Links.Ops.{keeps_links}
use chatgpt_codex_proxy.Accounts.Service.Reads.{eligible_now, get_account}
use chatgpt_codex_proxy.Capacity.{
  Entry, refused, acquired, waits, Ending, leased, closed_error, cancelled, try_acquire, enter,
}
use chatgpt_codex_proxy.Capacity.Leases.{tries, enters, releases, cancels, perform}
use chatgpt_codex_proxy.Capacity.History.{IsBalanced, perform-IsBalanced}
use chatgpt_codex_proxy.Manager.{AccountManager, Answer, done, failed, panicked, ensure_ready}
use chatgpt_codex_proxy.Manager.Steps.{IsUsable}
use chatgpt_codex_proxy.Manager.Open.{Renews, IsOpen}
use chatgpt_codex_proxy.Manager.Ready.{ensure_ready-IsUsable}
use chatgpt_codex_proxy.Manager.Links.{IsOrderly, ensure_ready-IsLinked}
use chatgpt_codex_proxy.Manager.Lease.{
  Pool, Errand, acquire_slot, on_entry, give_back, kept_if_done, readied,
}
use chatgpt_codex_proxy.Manager.Matching.{
  Round, Turn, ends, choice_of, on_taken, take_slot, on_read, on_asked, checked_again, on_queue,
  on_full, on_choice, with_room, round, acquire_matching_lease,
}

-- The slots in use are the leases, and the maps of the accounts fit together.
abbrev pub IsGood : Pool → Type 0
IsGood p = IsBalanced p.slots × IsLinked p.service

abbrev pub Keeps : (Pool → Pool) → Type 0
Keeps f = (p : Pool) → IsGood p → IsGood (f p)

-- What others do leaves slots and accounts so, and while the login service answers and until its
-- token is read again, they neither disable the account nor empty its token.
pub record IsCivil (t : Round) : Type 0 where
  pub taking : Keeps t.before_take
  pub queueing : Keeps t.before_queue
  pub waiting : Keeps t.errand.while_waiting
  pub holding : Keeps t.errand.once_leased
  pub reading : Keeps t.before_read
  pub orderly : IsOrderly t.errand.visit
  pub exchanging :
      (id : String) (s : Service) → IsOpen id s → IsOpen id (t.errand.visit.while_exchanging s)
  pub updating :
      (id : String) (s : Service) → IsOpen id s → IsOpen id (t.errand.visit.after_update s)

abbrev pub GivesUsable : Option (Answer Record) → Type 0
GivesUsable a = (r : Record) → a ≡ some (done r) → IsUsable r

-- A turn leaves a sound pool and hands out nothing but a usable account.
abbrev pub Serves : Turn → Type 0
Serves t = IsGood t.0 × GivesUsable t.1

pub give_back-IsGood : (id : String) → Keeps (give_back id)
give_back-IsGood id p h = (perform-IsBalanced (releases id) p.slots h.0, h.1)

without_record :
    (p : Pool) (a : Option (Answer Record))
    → ((r : Record) → a ≡ some (done r) → ⊥)
    → IsGood p
    → Serves (p, a)
without_record p a never h = (h, λ r e. absurd (never r e))

kept-Serves :
    (id : String) (p : Pool) (a : Answer Record)
    → ((r : Record) → a ≡ done r → IsUsable r)
    → IsGood p
    → Serves (ends (kept_if_done id (p, a)))
kept-Serves id p (done r) u h = (h, λ x e. u x (cc e))
kept-Serves id p (failed e) u h =
    without_record (give_back id p) _ (λ r q. cc q) (give_back-IsGood id p h)
kept-Serves id p panicked u h = without_record p _ (λ r q. cc q) h

readied-Serves :
    (m : AccountManager) (t : Round) (id : String) (p : Pool)
    → Renews m
    → IsCivil t
    → IsGood p
    → Serves (ends (readied m t.errand id p))
readied-Serves m t id p renews civil h =
    kept-Serves id (record p { service = (ensure_ready m t.errand.visit id p.service).0 })
      (ensure_ready m t.errand.visit id p.service).1
      (λ r e.
        ensure_ready-IsUsable m t.errand.visit id p.service r renews civil.orderly h.1
          (civil.exchanging id) (civil.updating id) e)
      (h.0, ensure_ready-IsLinked m t.errand.visit id p.service civil.orderly h.1)

take_slot-Serves :
    (m : AccountManager) (t : Round) (id : String) (p : Pool)
    → Renews m
    → IsCivil t
    → IsGood p
    → Serves (take_slot m t.errand id p)
unfolding take_slot
take_slot-Serves m t id p renews civil h = by_answer (try_acquire id p.slots.coordinator).1
  where
    taken : IsGood (record p { slots = perform (tries id) p.slots })
    taken = (perform-IsBalanced (tries id) p.slots h.0, h.1)

    by_answer :
        (b : Bool)
        → Serves (on_taken m t.errand id (record p { slots = perform (tries id) p.slots }) b)
    by_answer true = readied-Serves m t id _ renews civil taken
    by_answer false = without_record _ none (λ r e. cc e) taken

on_read-Serves :
    (m : AccountManager) (t : Round) (allow : Option (Record → Bool)) (id : String)
    (eligible : Bool) (p : Pool) (found : Result (Option Record))
    → Renews m
    → IsCivil t
    → IsGood p
    → Serves (on_read m t.errand allow id eligible p found)
on_read-Serves m t allow id eligible p (ok none) renews civil h =
    without_record _ none (λ r e. cc e) (give_back-IsGood id p h)
on_read-Serves m t allow id eligible p (ok (some r)) renews civil h =
    if_keeps Serves (eligible && allows allow r) (λ _. readied-Serves m t id p renews civil h)
      (λ _. without_record _ none (λ r e. cc e) (give_back-IsGood id p h))
on_read-Serves m t allow id eligible p (err x) renews civil h =
    without_record _ _ (λ r e. cc e) (give_back-IsGood id p h)
on_read-Serves m t allow id eligible p panic renews civil h = without_record _ _ (λ r e. cc e) h

on_asked-Serves :
    (m : AccountManager) (t : Round) (allow : Option (Record → Bool)) (id : String) (p : Pool)
    (answer : Result Bool)
    → Renews m
    → IsCivil t
    → IsGood p
    → Serves (on_asked m t allow id p answer)
unfolding step
on_asked-Serves m t allow id p (ok eligible) renews civil h =
    let held = civil.reading p h in
    on_read-Serves m t allow id eligible _ (get_account t.read_in id (t.before_read p).service).1
      renews civil
      (
        held.0,
        step-keeps IsLinked (keeps_links t.read_in) (gets id) (t.before_read p).service held.1,
      )
on_asked-Serves m t allow id p (err x) renews civil h =
    without_record _ _ (λ r e. cc e) (give_back-IsGood id p h)
on_asked-Serves m t allow id p panic renews civil h = without_record _ _ (λ r e. cc e) h

on_queue-Serves :
    (m : AccountManager) (t : Round) (allow : Option (Record → Bool)) (id : String)
    (q : Pool × Ending)
    → Renews m
    → IsCivil t
    → IsGood q.0
    → Serves (on_queue m t allow id q)
unfolding checked_again step
on_queue-Serves m t allow id (p, leased) renews civil h =
    let q = t.errand.once_leased p in
    let held = civil.holding p h in
    on_asked-Serves m t allow id _ (eligible_now t.errand.eligible_in_env id q.service).1 renews
      civil
      (
        held.0,
        step-keeps IsLinked (keeps_links t.errand.eligible_in_env) (tests_eligible id) q.service
            held.1,
      )
on_queue-Serves m t allow id (p, closed_error) renews civil h = without_record _ _ (λ r e. cc e) h
on_queue-Serves m t allow id (p, cancelled) renews civil h = without_record _ _ (λ r e. cc e) h

on_entry-IsGood :
    (x : Errand) (id : String) (p : Pool) (entry : Entry)
    → Keeps x.while_waiting
    → IsGood p
    → IsGood (on_entry x id p entry).0
on_entry-IsGood x id p refused others h = h
on_entry-IsGood x id p acquired others h = h
on_entry-IsGood x id p (waits w) others h =
    if_keeps (λ (t : Pool × Ending). IsGood t.0) x.is_cancelled
      (λ _. (
        perform-IsBalanced (cancels id w) (x.while_waiting p).slots (others p h).0,
        (others p h).1,
      ))
      (λ _. others p h)

pub acquire_slot-IsGood :
    (x : Errand) (id : String)
    → Keeps x.while_waiting
    → (p : Pool) → IsGood p
    → IsGood (acquire_slot x id p).0
unfolding acquire_slot
acquire_slot-IsGood x id others p h =
    on_entry-IsGood x id _ (enter id p.slots.coordinator).1 others
      (perform-IsBalanced (enters id) p.slots h.0, h.1)

choice_of-IsGood :
    (env : Env) (preferred_id : String) (allow : Option (Record → Bool)) (p : Pool)
    → IsGood p
    → IsGood (choice_of env preferred_id allow p).0
unfolding step
choice_of-IsGood env preferred_id allow p h =
    (h.0, step-keeps IsLinked (keeps_links env) (acquires preferred_id allow) p.service h.1)

on_full-Serves :
    (m : AccountManager) (t : Round) (allow : Option (Record → Bool)) (c : Pool × Result Record)
    → Renews m
    → IsCivil t
    → IsGood c.0
    → Serves (on_full m t allow c)
on_full-Serves m t allow (p, ok r) renews civil h =
    on_queue-Serves m t allow r.id (acquire_slot t.errand r.id (t.before_queue p)) renews civil
      (acquire_slot-IsGood t.errand r.id civil.waiting (t.before_queue p) (civil.queueing p h))
on_full-Serves m t allow (p, err x) renews civil h = without_record _ _ (λ r e. cc e) h
on_full-Serves m t allow (p, panic) renews civil h = without_record _ _ (λ r e. cc e) h

on_choice-Serves :
    (m : AccountManager) (t : Round) (preferred_id : String) (allow : Option (Record → Bool))
    (c : Pool × Result Record)
    → Renews m
    → IsCivil t
    → IsGood c.0
    → Serves (on_choice m t preferred_id allow c)
on_choice-Serves m t preferred_id allow (p, ok r) renews civil h =
    take_slot-Serves m t r.id (t.before_take p) renews civil (civil.taking p h)
on_choice-Serves m t preferred_id allow (p, err x) renews civil h =
    on_full-Serves m t allow (choice_of t.chosen_again_in preferred_id allow p) renews civil
      (choice_of-IsGood t.chosen_again_in preferred_id allow p h)
on_choice-Serves m t preferred_id allow (p, panic) renews civil h =
    without_record _ _ (λ r e. cc e) h

round-Serves :
    (m : AccountManager) (t : Round) (preferred_id : String) (allow : Option (Record → Bool))
    (p : Pool)
    → Renews m
    → IsCivil t
    → IsGood p
    → Serves (round m t preferred_id allow p)
unfolding round
round-Serves m t preferred_id allow p renews civil h =
    if_keeps Serves t.is_over (λ _. without_record _ _ (λ r e. cc e) h)
      (λ _.
        on_choice-Serves m t preferred_id allow
          (choice_of t.chosen_in preferred_id (with_room allow p.slots.coordinator) p) renews civil
          (choice_of-IsGood t.chosen_in preferred_id (with_room allow p.slots.coordinator) p h))

-- If the slots in use are the leases, within the limit, with waiters only where all slots are in
-- use, the maps of the accounts fit together, what others do between the steps of every round
-- leaves both so, while a round renews a token and stores it others neither disable an account nor
-- empty its token, and every answer of the login service has an access token, then after any
-- number of rounds of AcquireMatchingLease both hold again, and a record that it returns is not
-- disabled and has an access token.
pub acquire_matching_lease-Serves :
    (m : AccountManager) (ts : List Round) (preferred_id : String) (allow : Option (Record → Bool))
    (p : Pool)
    → Renews m
    → All IsCivil ts
    → IsGood p
    → Serves (acquire_matching_lease m ts preferred_id allow p)
unfolding acquire_matching_lease
acquire_matching_lease-Serves m [] preferred_id allow p renews civil h =
    without_record p none (λ r e. cc e) h
acquire_matching_lease-Serves m (t ∷ ts) preferred_id allow p renews civil h =
    elim (Option-cases (round m t preferred_id allow p).1) [
      | inl e ↦
          rw (e, acquire_matching_lease)
            (acquire_matching_lease-Serves m ts preferred_id allow _ renews civil.1 now.0)
      | inr (a, e) ↦ rw (e, acquire_matching_lease) (now.0, λ r q. now.1 r (e ∙ q))
    ]
  where
    now : Serves (round m t preferred_id allow p)
    now = round-Serves m t preferred_id allow p renews civil.0 h
