-- ===== src/Capacity/Promises.antt =====
-- What the callers of a coordinator rely on, along every history of their calls.
use chatgpt_codex_proxy.Base.{
  ℕ, ◌-◌, ◌≡◌, ◌≤◌, refl, ◌∙◌, false, Option, none, some, List, [], ◌∷◌, String, ◌==◌, arith,
  if_keeps,
}
use chatgpt_codex_proxy.Base.Int.{ℤ}
use chatgpt_codex_proxy.Base.Dict.{lookup}
use chatgpt_codex_proxy.Capacity.{
  AccountCapacity, Coordinator, new_coordinator, capacity_of, state_locked, try_acquire, enter,
  cancel, close, release, next_of, hand_on, snapshot, snapshot,
}
use chatgpt_codex_proxy.Capacity.Steps.{new_coordinator-IsSound}
use chatgpt_codex_proxy.Capacity.Leases.{
  World, Event, tries, enters, releases, cancels, closes, count, contains, perform, perform_all,
}
use chatgpt_codex_proxy.Capacity.History.{IsBalanced, perform_all-IsBalanced}

-- The limit is set once.
try_acquire-limit : (id : String) (c : Coordinator) → (try_acquire id c).0.limit ≡ c.limit
unfolding try_acquire state_locked
try_acquire-limit id c = ground arith

enter-limit : (id : String) (c : Coordinator) → (enter id c).0.limit ≡ c.limit
unfolding enter state_locked
enter-limit id c = ground arith

hand_on-limit :
    (id : String) (c : Coordinator) (a : AccountCapacity) (next : Option ℕ)
    → (hand_on id c a next).0.limit ≡ c.limit
hand_on-limit id c a none = ground arith
hand_on-limit id c a (some w) = ground arith

release-limit : (id : String) (c : Coordinator) → (release id c).0.limit ≡ c.limit
unfolding release
release-limit id c =
    if_keeps (λ (r : Coordinator × Option ℕ). r.0.limit ≡ c.limit) ((capacity_of id c).active == 0)
      (λ _. refl)
      (λ _.
        hand_on-limit id c (capacity_of id c)
          (next_of c.closed c.limit ((capacity_of id c).active - 1) (capacity_of id c).waiters))

cancel-limit : (id : String) (w : ℕ) (c : Coordinator) → (cancel id w c).0.limit ≡ c.limit
unfolding cancel
cancel-limit id w c = ground arith

close-limit : (c : Coordinator) → (close c).limit ≡ c.limit
unfolding close
close-limit c = ground arith

perform-limit : (e : Event) (w : World) → (perform e w).coordinator.limit ≡ w.coordinator.limit
unfolding perform
perform-limit (tries id) w = try_acquire-limit id w.coordinator
perform-limit (enters id) w = enter-limit id w.coordinator
perform-limit (releases id) w =
    if_keeps (λ (v : World). v.coordinator.limit ≡ w.coordinator.limit) (contains id w.leases)
      (λ _. release-limit id w.coordinator) (λ _. refl)
perform-limit (cancels id waiter) w = cancel-limit id waiter w.coordinator
perform-limit closes w = close-limit w.coordinator

perform_all-limit :
    (w : World) (es : List Event) → (perform_all w es).coordinator.limit ≡ w.coordinator.limit
unfolding perform_all
perform_all-limit w [] = refl
perform_all-limit w (e ∷ es) = perform_all-limit (perform e w) es ∙ perform-limit e w

-- A coordinator with no lease out.
abbrev pub start : ℤ → World
start limit = record { coordinator = new_coordinator limit; leases = [] }

pub start-IsBalanced : (limit : ℤ) → IsBalanced (start limit)
unfolding new_coordinator lookup
start-IsBalanced limit = record { sound = new_coordinator-IsSound limit; counted = λ j. refl }

abbrev pub history : ℤ → List Event → World
history limit es = perform_all (start limit) es

pub history-IsBalanced : (limit : ℤ) (es : List Event) → IsBalanced (history limit es)
history-IsBalanced limit es = perform_all-IsBalanced (start limit) es (start-IsBalanced limit)

-- However calls of TryAcquire, Acquire, release functions, cancelled contexts and Close follow
-- each other on a new coordinator, no account has more leases than the limit.
pub leases_bounded :
    (limit : ℤ) (es : List Event) (id : String)
    → count id (history limit es).leases ≤ (new_coordinator limit).limit
leases_bounded limit es id =
    omega (arith, h.counted id, (h.sound id).bounded, perform_all-limit (start limit) es)
  where
    h : IsBalanced (history limit es)
    h = history-IsBalanced limit es

-- However calls of TryAcquire, Acquire, release functions, cancelled contexts and Close follow
-- each other on a new coordinator, an account for which somebody waits has exactly as many leases
-- as the limit, and the coordinator is open: no waiter is left behind a free slot.
pub waiting_only_when_full :
    (limit : ℤ) (es : List Event) (id : String) (w : ℕ) (ws : List ℕ)
    → (capacity_of id (history limit es).coordinator).waiters ≡ w ∷ ws
    → (count id (history limit es).leases ≡ (new_coordinator limit).limit)
      × ((history limit es).coordinator.closed ≡ false)
waiting_only_when_full limit es id w ws e =
    ground (arith, h.counted id, (h.sound id).full, perform_all-limit (start limit) es)
  where
    h : IsBalanced (history limit es)
    h = history-IsBalanced limit es

-- However calls of TryAcquire, Acquire, release functions, cancelled contexts and Close follow
-- each other on a new coordinator, Snapshot reports as active the number of leases of the account,
-- and the limit that the coordinator was made with.
pub snapshot_counts :
    (limit : ℤ) (es : List Event) (id : String)
    → ((snapshot id (history limit es).coordinator).active ≡ count id (history limit es).leases)
      × ((snapshot id (history limit es).coordinator).limit ≡ (new_coordinator limit).limit)
unfolding snapshot
snapshot_counts limit es id =
    ((history-IsBalanced limit es).counted id, perform_all-limit (start limit) es)
