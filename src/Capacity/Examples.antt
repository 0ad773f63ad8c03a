-- ===== src/Capacity/Examples.antt =====
-- Concrete coordinators that exercise the slots and the queue.
use chatgpt_codex_proxy.Base.{ℕ, ◌≡◌, ◌≤◌, refl, false, some, List, [], ◌∷◌, arith, length}
use chatgpt_codex_proxy.Base.Dict.{lookup, insert, delete}
use chatgpt_codex_proxy.Base.Int.{pos}
use chatgpt_codex_proxy.Capacity.{
  CapacityWaiter, AccountCapacity, Coordinator, new_coordinator, capacity_of, release, enter,
  try_acquire, state_locked, wake, leased,
}
use chatgpt_codex_proxy.Capacity.Slots.{IsSound}
use chatgpt_codex_proxy.Capacity.Leases.{
  Event, tries, enters, releases, count, perform, perform_all,
}
use chatgpt_codex_proxy.Capacity.Promises.{history, leases_bounded, waiting_only_when_full}
use chatgpt_codex_proxy.Capacity.Queue.{release_times, release_hands_on, served_in_order}

abbrev crowd : List Event
crowd = tries "a" ∷ enters "a" ∷ enters "a" ∷ tries "b" ∷ enters "a" ∷ releases "a" ∷ []

-- Two slots, one of which went from its holder to the first waiter.
crowd_queue : (capacity_of "a" (history (pos 2) crowd).coordinator).waiters ≡ 1 ∷ []
unfolding new_coordinator perform_all perform try_acquire enter release state_locked lookup insert
    delete
crowd_queue = refl

leases_bounded_example : count "a" (history (pos 2) crowd).leases ≤ (new_coordinator (pos 2)).limit
leases_bounded_example = leases_bounded (pos 2) crowd "a"

waiting_only_when_full_example :
    (count "a" (history (pos 2) crowd).leases ≡ (new_coordinator (pos 2)).limit)
    × ((history (pos 2) crowd).coordinator.closed ≡ false)
waiting_only_when_full_example = waiting_only_when_full (pos 2) crowd "a" 1 [] crowd_queue

abbrev full : AccountCapacity
full = record { active = 1; waiters = 0 ∷ 1 ∷ 2 ∷ [] }

abbrev unserved : CapacityWaiter
unserved = record { ready = false; granted = false }

abbrev three_waiting : Coordinator
three_waiting = record {
  limit = 1;
  closed = false;
  accounts = ("a", full) ∷ [];
  heap = unserved ∷ unserved ∷ unserved ∷ [];
}

three_waiting-IsSound : IsSound three_waiting
unfolding lookup
three_waiting-IsSound j = record { bounded = ground arith; full = ground arith }

three_waiting-queue : (capacity_of "a" three_waiting).waiters ≡ 0 ∷ 1 ∷ 2 ∷ []
unfolding lookup
three_waiting-queue = refl

abbrev first_two : List ℕ
first_two = 0 ∷ 1 ∷ []

served_in_order_example :
    ((release "a" (release_times (length first_two) "a" three_waiting)).1 ≡ some 2)
    × ((capacity_of "a" (release_times 3 "a" three_waiting)).waiters ≡ [])
served_in_order_example =
    served_in_order "a" three_waiting first_two 2 [] three_waiting-IsSound (omega arith)
      three_waiting-queue

release_hands_on_example :
    ((release "a" three_waiting).1 ≡ some 0)
    × (wake 0 (release "a" three_waiting).0 ≡ leased)
    × ((capacity_of "a" (release "a" three_waiting).0).waiters ≡ 1 ∷ 2 ∷ [])
    × ((capacity_of "a" (release "a" three_waiting).0).active
        ≡ (capacity_of "a" three_waiting).active)
    × (capacity_of "b" (release "a" three_waiting).0 ≡ capacity_of "b" three_waiting)
release_hands_on_example =
    release_hands_on "a" "b" three_waiting 0 (1 ∷ 2 ∷ []) three_waiting-IsSound (omega arith)
      (omega arith) three_waiting-queue refl
