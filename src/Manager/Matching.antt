-- ===== src/Manager/Matching.antt =====
-- internal/accountmanager/manager.go, AcquireMatchingLease: any account that matches, with one of its slots. The loop
-- runs over a list of rounds, each with what others do meanwhile; the answer is `none` while the
-- loop goes on.
pub mod Sound
pub mod Prompt
use chatgpt_codex_proxy.Base.{
  ℕ, Bool, true, false, ◌&&◌, Option, none, some, List, [], ◌∷◌, String, if◌then◌else◌,
}
use chatgpt_codex_proxy.Accounts.Types.{Record}
use chatgpt_codex_proxy.Accounts.Service.{Service, Env, Result, ok, err, panic, allows}
use chatgpt_codex_proxy.Accounts.Service.Reads.{eligible_now, get_account}
use chatgpt_codex_proxy.Accounts.Service.Acquire.{acquire_matching}
use chatgpt_codex_proxy.Capacity.{
  Coordinator, Ending, leased, closed_error, cancelled, has_capacity, try_acquire,
}
use chatgpt_codex_proxy.Capacity.Leases.{tries, perform}
use chatgpt_codex_proxy.Manager.{
  AccountManager, from_accounts, coordinator_closed, context_ended, Answer, done, failed, panicked,
  ensure_ready,
}
use chatgpt_codex_proxy.Manager.Lease.{Pool, Errand, acquire_slot, give_back, readied}

-- What one round meets: whether the context has ended, the calls of the accounts, and what others
-- do before each step that takes a slot and between the last two reads of the account.
pub record Round : Type 0 where
  pub is_over : Bool
  pub chosen_in : Env
  pub before_take : Pool → Pool
  pub chosen_again_in : Env
  pub before_queue : Pool → Pool
  pub before_read : Pool → Pool
  pub read_in : Env
  pub errand : Errand

abbrev pub Turn : Type 0
Turn = Pool × Option (Answer Record)

abbrev pub ends : Pool × Answer Record → Turn
ends (p, a) = (p, some a)

-- `allow`, and a slot at once.
abbrev pub with_room : Option (Record → Bool) → Coordinator → Option (Record → Bool)
with_room allow c = some (λ r. allows allow r && has_capacity r.id c)

abbrev pub choice_of : Env → String → Option (Record → Bool) → Pool → Pool × Result Record
choice_of env preferred_id allow p =
    let chosen = acquire_matching env preferred_id allow p.service in
    (record p { service = chosen.0 }, chosen.1)

-- After TryAcquire.
abbrev pub on_taken : AccountManager → Errand → String → Pool → Bool → Turn
on_taken m x id p true = ends (readied m x id p)
on_taken m x id p false = (p, none)

unfoldable pub take_slot : AccountManager → Errand → String → Pool → Turn
unfolding try_acquire perform ensure_ready
take_slot m x id p =
    on_taken m x id (record p { slots = perform (tries id) p.slots })
      (try_acquire id p.slots.coordinator).1

-- The account as it is when its queue has served the call.
abbrev pub on_read :
    AccountManager
    → Errand
    → Option (Record → Bool)
    → String
    → Bool
    → Pool
    → Result (Option Record)
    → Turn
on_read m x allow id eligible p (ok none) = (give_back id p, none)
on_read m x allow id eligible p (ok (some r)) =
    if eligible && allows allow r then ends (readied m x id p) else (give_back id p, none)
on_read m x allow id eligible p (err e) = (give_back id p, some (failed (from_accounts e)))
on_read m x allow id eligible p panic = (p, some panicked)

abbrev pub on_asked :
    AccountManager → Round → Option (Record → Bool) → String → Pool → Result Bool → Turn
on_asked m t allow id p (ok eligible) =
    let found = get_account t.read_in id (t.before_read p).service in
    on_read m t.errand allow id eligible (record (t.before_read p) { service = found.0 }) found.1
on_asked m t allow id p (err e) = (give_back id p, some (failed (from_accounts e)))
on_asked m t allow id p panic = (p, some panicked)

-- With a slot that the queue gave.
unfoldable pub checked_again :
    AccountManager → Round → Option (Record → Bool) → String → Pool → Turn
unfolding eligible_now get_account ensure_ready perform
checked_again m t allow id p =
    let asked = eligible_now t.errand.eligible_in_env id p.service in
    on_asked m t allow id (record p { service = asked.0 }) asked.1

abbrev pub on_queue :
    AccountManager → Round → Option (Record → Bool) → String → Pool × Ending → Turn
on_queue m t allow id (p, leased) = checked_again m t allow id (t.errand.once_leased p)
on_queue m t allow id (p, closed_error) = (p, some (failed coordinator_closed))
on_queue m t allow id (p, cancelled) = (p, some (failed context_ended))

-- The second choice, which asks for no room.
abbrev pub on_full : AccountManager → Round → Option (Record → Bool) → Pool × Result Record → Turn
on_full m t allow (p, ok r) =
    on_queue m t allow r.id (acquire_slot t.errand r.id (t.before_queue p))
on_full m t allow (p, err e) = (p, some (failed (from_accounts e)))
on_full m t allow (p, panic) = (p, some panicked)

abbrev pub on_choice :
    AccountManager → Round → String → Option (Record → Bool) → Pool × Result Record → Turn
on_choice m t preferred_id allow (p, ok r) = take_slot m t.errand r.id (t.before_take p)
on_choice m t preferred_id allow (p, err _) =
    on_full m t allow (choice_of t.chosen_again_in preferred_id allow p)
on_choice m t preferred_id allow (p, panic) = (p, some panicked)

-- The body of the loop.
unfoldable pub round : AccountManager → Round → String → Option (Record → Bool) → Pool → Turn
unfolding acquire_matching take_slot acquire_slot checked_again has_capacity
round m t preferred_id allow p =
    if t.is_over
    then (p, some (failed context_ended))
    else on_choice m t preferred_id allow
        (choice_of t.chosen_in preferred_id (with_room allow p.slots.coordinator) p)

unfoldable pub acquire_matching_lease :
    AccountManager → List Round → String → Option (Record → Bool) → Pool → Turn
unfolding round
acquire_matching_lease m [] preferred_id allow p = (p, none)
acquire_matching_lease m (t ∷ ts) preferred_id allow p =
    let now = round m t preferred_id allow p in
    let later = acquire_matching_lease m ts preferred_id allow now.0 in
    elim now.1 [ none ↦ later | some a ↦ (now.0, some a) ]

abbrev pub acquire_ready_lease : AccountManager → List Round → String → Pool → Turn
acquire_ready_lease m ts preferred_id p = acquire_matching_lease m ts preferred_id none p

-- The test of a model is `none` where the manager has no catalog.
abbrev pub supports : Option (Record → String → Bool) → String → Record → Bool
supports none model_id r = true
supports (some models) model_id r = models r model_id

abbrev pub acquire_ready_for_model_lease :
    AccountManager → Option (Record → String → Bool) → List Round → String → String → Pool → Turn
acquire_ready_for_model_lease m models ts preferred_id model_id p =
    acquire_matching_lease m ts preferred_id (some (supports models model_id)) p
