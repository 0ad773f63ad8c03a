-- ===== src/Manager/Matching/Prompt.antt =====
-- AcquireMatchingLease ends in one round if others leave it the slot that it saw.
use mathlib.Core.Logic.{∥∥₁_elim}
use chatgpt_codex_proxy.Base.{
  ℕ, ◌≡◌, ◌<◌, sym, ap, ◌∙◌, subst, Bool, true, false, ◌&&◌, Option, none, ◌∷◌, String, inl, inr,
  arith, Mem,
}
use chatgpt_codex_proxy.Base.Dict.{values}
use chatgpt_codex_proxy.Accounts.Types.{Record, clone_record}
use chatgpt_codex_proxy.Accounts.Quota.{is_eligible}
use chatgpt_codex_proxy.Accounts.Rotation.{int_limit}
use chatgpt_codex_proxy.Accounts.Service.{
  Service, Env, Result, ok, persist, refresh_all, allows, then_on,
}
use chatgpt_codex_proxy.Accounts.Service.Acquire.{acquire_matching, acquire_matching_locked}
use chatgpt_codex_proxy.Accounts.Service.Choice.{IsChoice, Answers, acquire-Answers}
use chatgpt_codex_proxy.Capacity.{Coordinator, has_capacity, try_acquire}
use chatgpt_codex_proxy.Capacity.Leases.{World, tries, perform}
use chatgpt_codex_proxy.Manager.{AccountManager}
use chatgpt_codex_proxy.Manager.Lease.{Pool, readied}
use chatgpt_codex_proxy.Manager.Matching.{
  Round, Turn, ends, with_room, choice_of, on_choice, on_taken, take_slot, round,
}

refreshed : (env : Env) (s : Service) → env.save_error ≡ none → (refresh_all env s).1 ≡ ok tt
unfolding refresh_all persist
refreshed env s e = ground arith

room-try_acquire :
    (id : String) (c : Coordinator) → has_capacity id c ≡ true → (try_acquire id c).1 ≡ true
unfolding has_capacity try_acquire
room-try_acquire id c h = ground arith

Bool-set : IsSet Bool
Bool-set = hlevel

neither : (a b : Bool) → a ≡ true → b ≡ true → (a && b) ≡ false → ⊥
neither a b h k e = ground arith

-- A choice has room.
choice-room :
    (allow : Option (Record → Bool)) (now : ℕ) (s : Service) (c : Coordinator) (r : Record)
    → IsChoice (with_room allow c) now s r
    → has_capacity r.id c ≡ true
choice-room allow now s c r h = ∥∥₁_elim h (Bool-set _ _) (λ p.
    let (x, _, _, room, e) = p in
    second (allows allow r) (has_capacity r.id c) (ap (allows (with_room allow c)) e ∙ room))
  where
    second : (a b : Bool) → (a && b) ≡ true → b ≡ true
    second a b k = ground arith

take_slot_at_once :
    (m : AccountManager) (t : Round) (id : String) (p : Pool)
    → has_capacity id p.slots.coordinator ≡ true
    → (take_slot m t.errand id p
        ≡ ends (readied m t.errand id (record p { slots = perform (tries id) p.slots })))
      × ((perform (tries id) p.slots).leases ≡ id ∷ p.slots.leases)
unfolding take_slot perform
take_slot_at_once m t id p h = (
  ap (on_taken m t.errand id (record p { slots = perform (tries id) p.slots }))
      (room-try_acquire id p.slots.coordinator h),
  ground (arith, room-try_acquire id p.slots.coordinator h),
)

refreshed_index :
    (env : Env) (s : Service) → (refresh_all env s).0.round_robin_index ≡ s.round_robin_index
unfolding refresh_all persist
refreshed_index env s = ground arith

acquire_matching_fresh :
    (env : Env) (preferred_id : String) (allow : Option (Record → Bool)) (s : Service)
    → env.save_error ≡ none
    → acquire_matching env preferred_id allow s
      ≡ acquire_matching_locked preferred_id allow env.now (refresh_all env s).0
unfolding acquire_matching
acquire_matching_fresh env preferred_id allow s e =
    ap
      (λ (a : Result (Unit {0})).
        then_on (refresh_all env s).0 a (λ _. acquire_matching_locked preferred_id allow env.now))
      (refreshed env s e)

-- The pool in which TryAcquire runs.
abbrev pub at_take : Round → String → Option (Record → Bool) → Pool → Pool
at_take t preferred_id allow p =
    t.before_take (choice_of t.chosen_in preferred_id (with_room allow p.slots.coordinator) p).0

-- A round that readies an account with a slot of its own.
abbrev pub Readies :
    AccountManager → Round → String → Option (Record → Bool) → Pool → Service → Turn → Type 0
Readies m t preferred_id allow p s turn =
    (r : Record) × IsChoice (with_room allow p.slots.coordinator) t.chosen_in.now s r
    × (turn
        ≡ ends (
            readied m t.errand r.id (record (at_take t preferred_id allow p) {
              slots = perform (tries r.id) (at_take t preferred_id allow p).slots;
            })))
    × ((perform (tries r.id) (at_take t preferred_id allow p).slots).leases
        ≡ r.id ∷ (at_take t preferred_id allow p).slots.leases)

-- A round of AcquireMatchingLease whose context has not ended ends the call, if the accounts, as
-- the refresh of the first choice leaves them, have one that is eligible, allowed and has a free
-- slot, the store refuses no save of that choice, others leave the slots as they were until
-- TryAcquire, and the round-robin index is in the range of a non-negative Go int: the call readies
-- an account that is all three, with a new lease of it.
pub round-Readies :
    (m : AccountManager) (t : Round) (preferred_id : String) (allow : Option (Record → Bool))
    (p : Pool) (y : Record)
    → t.is_over ≡ false
    → t.chosen_in.save_error ≡ none
    → ((q : Pool) → (t.before_take q).slots ≡ q.slots)
    → p.service.round_robin_index < int_limit
    → Mem y (values (refresh_all t.chosen_in p.service).0.records)
    → is_eligible y t.chosen_in.now ≡ true
    → allows (with_room allow p.slots.coordinator) (clone_record y) ≡ true
    → Readies m t preferred_id allow p
        (refresh_all t.chosen_in p.service).0
        (round m t preferred_id allow p)
unfolding round
round-Readies m t preferred_id allow p y going saved still index member eligible room =
    rw (going, round)
      (by_answer (
        acquire-Answers preferred_id (with_room allow p.slots.coordinator) t.chosen_in.now
          (refresh_all t.chosen_in p.service).0
          (subst (λ n. n < int_limit) (sym (refreshed_index t.chosen_in p.service)) index)))
  where
    given :
        (x : Result Record)
        → (acquire_matching_locked preferred_id
            (with_room allow p.slots.coordinator)
            t.chosen_in.now
            (refresh_all t.chosen_in p.service).0).1
          ≡ x
        → (choice_of t.chosen_in preferred_id (with_room allow p.slots.coordinator) p).1 ≡ x
    given x e =
        ap (λ u. u.1)
          (acquire_matching_fresh t.chosen_in preferred_id (with_room allow p.slots.coordinator)
            p.service saved)
        ∙ e

    taken :
        (r : Record)
        → IsChoice
            (with_room allow p.slots.coordinator)
            t.chosen_in.now
            (refresh_all t.chosen_in p.service).0
            r
        → has_capacity r.id (at_take t preferred_id allow p).slots.coordinator ≡ true
    taken r c =
        ap (λ (w : World). has_capacity r.id w.coordinator) (still _)
        ∙ choice-room allow t.chosen_in.now (refresh_all t.chosen_in p.service).0
            p.slots.coordinator r c

    by_answer :
        Answers
          (with_room allow p.slots.coordinator)
          t.chosen_in.now
          (refresh_all t.chosen_in p.service).0
          (acquire_matching_locked preferred_id
            (with_room allow p.slots.coordinator)
            t.chosen_in.now
            (refresh_all t.chosen_in p.service).0).1
        → Readies m t preferred_id allow p (refresh_all t.chosen_in p.service).0 (
            on_choice m t preferred_id allow
              (choice_of t.chosen_in preferred_id (with_room allow p.slots.coordinator) p))
    by_answer (inl (r, e, c)) =
        let (turn, leases) =
          take_slot_at_once m t r.id (at_take t preferred_id allow p) (taken r c) in
        (
          r,
          c,
          ap
                (λ x. on_choice m t preferred_id allow (
                  (choice_of t.chosen_in preferred_id (with_room allow p.slots.coordinator) p).0,
                  x,
                ))
                (given (ok r) e)
              ∙ turn,
          leases,
        )
    by_answer (inr (_, no_choice)) =
        absurd (neither (is_eligible y t.chosen_in.now) _ eligible room (no_choice y member))
