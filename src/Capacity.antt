-- ===== src/Capacity.antt =====
-- internal/accountmanager/capacity.go: the slots of each account and the queue for them. Each function runs under
-- the mutex from start to end; `Acquire` is the one before its select and the two after it. A waiter
-- is a position in the heap of waiters, which keeps whether its channel is closed and whether it was
-- granted a slot.
pub mod Slots
pub mod Steps
pub mod Leases
pub mod History
pub mod Promises
pub mod Queue
mod Examples
use text.Mathlib.Text.{◌==◌ as str_eq}
use chatgpt_codex_proxy.Base.{
  ℕ, zero, suc, ◌+◌, ◌-◌, Bool, true, false, ◌&&◌, not, Option, none, some, List, [], ◌∷◌, ◌++◌,
  String, ltb, leb, ◌==◌, if◌then◌else◌, length, get_elem?, set,
}
use chatgpt_codex_proxy.Base.Int.{ℤ, pos, negsuc}
use chatgpt_codex_proxy.Base.Dict.{Dict, lookup, insert, delete, map_values, values}

pub record CapacityWaiter : Type 0 where
  pub ready : Bool
  pub granted : Bool

pub record AccountCapacity : Type 0 where
  pub active : ℕ
  pub waiters : List ℕ

pub record Coordinator : Type 0 where
  pub limit : ℕ
  pub closed : Bool
  pub accounts : Dict AccountCapacity
  pub heap : List CapacityWaiter

pub record CapacitySnapshot : Type 0 where
  pub active : ℕ
  pub queued : ℕ
  pub limit : ℕ

abbrev pub default_max_active_requests_per_account : ℕ
default_max_active_requests_per_account = 2

abbrev limit_or_default : ℤ → ℕ
limit_or_default (pos zero) = default_max_active_requests_per_account
limit_or_default (pos (suc n)) = suc n
limit_or_default (negsuc n) = default_max_active_requests_per_account

unfoldable pub new_coordinator : ℤ → Coordinator
new_coordinator limit = record {
  limit = limit_or_default limit;
  closed = false;
  accounts = [];
  heap = [];
}

abbrev pub no_capacity_used : AccountCapacity
no_capacity_used = record { active = 0; waiters = [] }

abbrev pub or_unused : Option AccountCapacity → AccountCapacity
or_unused none = no_capacity_used
or_unused (some a) = a

-- The state of an account; one that the map lacks has no slot in use and nobody waiting.
abbrev pub capacity_of : String → Coordinator → AccountCapacity
capacity_of id c = or_unused (lookup id c.accounts)

abbrev pub nobody : List ℕ → Bool
nobody [] = true
nobody (_ ∷ _) = false

unfoldable pub has_capacity : String → Coordinator → Bool
unfolding lookup
has_capacity id c =
    not c.closed && (ltb (capacity_of id c).active c.limit && nobody (capacity_of id c).waiters)

-- `c.accounts[id] = state`
abbrev pub with_capacity : String → AccountCapacity → Coordinator → Coordinator
with_capacity id a c = record c { accounts = insert id a c.accounts }

-- `stateLocked`, which enters an account that the map lacks.
unfoldable pub state_locked : String → Coordinator → Coordinator
unfolding lookup insert
state_locked id c = elim (lookup id c.accounts) [
  | none ↦ with_capacity id no_capacity_used c
  | some _ ↦ c
]

-- One more slot in use.
abbrev pub taken : String → Coordinator → Coordinator
taken id c = let a = capacity_of id c in with_capacity id (record a { active = a.active + 1 }) c

-- True if the caller has the slot.
unfoldable pub try_acquire : String → Coordinator → Coordinator × Bool
unfolding state_locked lookup insert
try_acquire id c =
    let entered = state_locked id c in
    let a = capacity_of id c in
    if c.closed
    then (entered, false)
    else if leb c.limit a.active
    then (entered, false)
    else if not (nobody a.waiters)
    then (entered, false)
    else (taken id entered, true)

-- How `Acquire` goes on: with the error of a closed coordinator, with a slot, or as a waiter.
pub data Entry : Type 0 where
  refused acquired : Entry
  waits : ℕ → Entry

-- `Acquire` up to its select.
unfoldable pub enter : String → Coordinator → Coordinator × Entry
unfolding state_locked lookup insert
enter id c =
    let entered = state_locked id c in
    let a = capacity_of id c in
    let w = length c.heap in
    if c.closed
    then (c, refused)
    else if ltb a.active c.limit && nobody a.waiters
    then (taken id entered, acquired)
    else (
      record (with_capacity id (record a { waiters = a.waiters ++ w ∷ [] }) entered) {
        heap = c.heap ++ record { ready = false; granted = false } ∷ [];
      },
      waits w,
    )

pub data Ending : Type 0 where
  leased closed_error cancelled : Ending

abbrev granted_at : Option CapacityWaiter → Bool
granted_at none = false
granted_at (some w) = w.granted

abbrev pub is_granted : ℕ → Coordinator → Bool
is_granted w c = granted_at (get_elem? c.heap w)

-- The select's branch on a closed channel.
unfoldable pub wake : ℕ → Coordinator → Ending
wake w c = if is_granted w c then leased else if c.closed then closed_error else cancelled

-- The first occurrence.
unfoldable pub without : ℕ → List ℕ → List ℕ
without w [] = []
without w (v ∷ vs) = if v == w then vs else v ∷ without w vs

-- `cleanupLocked`
abbrev pub cleanup_locked : String → AccountCapacity → Coordinator → Coordinator
cleanup_locked id a c =
    if a.active == 0 && nobody a.waiters then record c { accounts = delete id c.accounts } else c

abbrev pub unqueued : ℕ → AccountCapacity → AccountCapacity
unqueued w a = record a { waiters = without w a.waiters }

-- A waiter leaves the queue of its account.
abbrev pub leave : String → ℕ → Coordinator → Option AccountCapacity → Coordinator × Ending
leave id w c none = (c, cancelled)
leave id w c (some a) =
    (cleanup_locked id (unqueued w a) (with_capacity id (unqueued w a) c), cancelled)

-- The select's branch on a cancelled context: a slot that was granted meanwhile is kept.
unfoldable pub cancel : String → ℕ → Coordinator → Coordinator × Ending
unfolding without lookup insert delete
cancel id w c = if is_granted w c then (c, leased) else leave id w c (lookup id c.accounts)

unfoldable pub snapshot : String → Coordinator → CapacitySnapshot
unfolding lookup
snapshot id c = record {
  active = (capacity_of id c).active;
  queued = length (capacity_of id c).waiters;
  limit = c.limit;
}

-- `close(waiter.ready)` for each of some waiters.
unfoldable pub wake_all : List ℕ → List CapacityWaiter → List CapacityWaiter
wake_all [] heap = heap
wake_all (w ∷ ws) heap =
    wake_all ws (set heap w (record { ready = true; granted = granted_at (get_elem? heap w) }))

unfoldable pub wake_accounts : List AccountCapacity → List CapacityWaiter → List CapacityWaiter
unfolding wake_all
wake_accounts [] heap = heap
wake_accounts (a ∷ rest) heap = wake_accounts rest (wake_all a.waiters heap)

unfoldable pub close : Coordinator → Coordinator
unfolding wake_accounts map_values
close c = if c.closed then c else record c {
  closed = true;
  accounts = map_values (λ a. record a { waiters = [] }) c.accounts;
  heap = wake_accounts (values c.accounts) c.heap;
}

-- The queue after a slot was given back, with the waiter that it goes to.
abbrev pub next_of : Bool → ℕ → ℕ → List ℕ → Option ℕ
next_of closed limit active [] = none
next_of closed limit active (w ∷ ws) =
    if closed then none else if ltb active limit then some w else none

abbrev pub drop_first : List ℕ → List ℕ
drop_first [] = []
drop_first (_ ∷ ws) = ws

-- One slot less in use.
abbrev pub freed : AccountCapacity → AccountCapacity
freed a = record a { active = a.active - 1 }

-- The slot goes from its holder to the first of the queue.
abbrev pub handed : AccountCapacity → AccountCapacity
handed a = record { active = a.active - 1 + 1; waiters = drop_first a.waiters }

abbrev pub hand_on : String → Coordinator → AccountCapacity → Option ℕ → Coordinator × Option ℕ
hand_on id c a none = (cleanup_locked id (freed a) (with_capacity id (freed a) c), none)
hand_on id c a (some w) =
    let handed_over = cleanup_locked id (handed a) (with_capacity id (handed a) c) in
    (
      record handed_over {
        heap = set handed_over.heap w (record { ready = true; granted = true });
      },
      some w,
    )

-- `release`: the waiter that was granted the slot, if one was, is told of beside the new state.
unfoldable pub release : String → Coordinator → Coordinator × Option ℕ
unfolding lookup insert delete
release id c =
    let a = capacity_of id c in
    if a.active == 0
    then (c, none)
    else hand_on id c a (next_of c.closed c.limit (a.active - 1) a.waiters)
