-- ===== src/Capacity/Queue.antt =====
-- The order in which the waiters of an account are granted slots.
use text.Mathlib.Text.{◌==◌ as str_eq}
use text.Mathlib.TextPositions.{eq_refl}
use chatgpt_codex_proxy.Base.{
  ℕ, zero, suc, ◌-◌, ◌≡◌, ◌<◌, refl, true, false, Option, some, List, [], ◌∷◌, ◌++◌, String, ◌==◌,
  length, get_elem?, set, arith,
}
use chatgpt_codex_proxy.Capacity.{
  Coordinator, capacity_of, state_locked, waits, enter, release, next_of, handed, hand_on, wake,
  leased,
}
use chatgpt_codex_proxy.Capacity.Slots.{IsSound, capacity_of-with}
use chatgpt_codex_proxy.Capacity.Steps.{release-IsSound}

get_elem?-set :
    {A : Type 0} (xs : List A) (w : ℕ) (a : A) → w < length xs → get_elem? (set xs w a) w ≡ some a
get_elem?-set [] w a h = absurd (omega (arith, h))
get_elem?-set (x ∷ xs) zero a h = refl
get_elem?-set (x ∷ xs) (suc w) a h = get_elem?-set xs w a (omega (arith, h))

-- The slot of an account with a queue.
record Handed (id : String) (c : Coordinator) (w : ℕ) (ws : List ℕ) (r : Coordinator × Option ℕ)
    : Type 0 where
  pub told : r.1 ≡ some w
  pub queue : (capacity_of id r.0).waiters ≡ ws
  pub kept : (capacity_of id r.0).active ≡ (capacity_of id c).active
  pub others : (j : String) → str_eq id j ≡ false → capacity_of j r.0 ≡ capacity_of j c
  pub heap : r.0.heap ≡ set c.heap w (record { ready = true; granted = true })
  pub limit : r.0.limit ≡ c.limit

goes_on :
    (id : String) (c : Coordinator) (w : ℕ) (ws : List ℕ)
    → IsSound c
    → 0 < c.limit
    → (capacity_of id c).waiters ≡ w ∷ ws
    → (((capacity_of id c).active == 0) ≡ false)
      × (next_of c.closed c.limit ((capacity_of id c).active - 1) (capacity_of id c).waiters
          ≡ some w)
goes_on id c w ws h p e = ground (arith, (h id).full)

hand_on-Handed :
    (id : String) (c : Coordinator) (w : ℕ) (ws : List ℕ)
    → IsSound c
    → 0 < c.limit
    → (capacity_of id c).waiters ≡ w ∷ ws
    → Handed id c w ws (hand_on id c (capacity_of id c) (some w))
hand_on-Handed id c w ws h p e = record {
  told = refl;
  queue = ground (arith, capacity_of-with id id (handed (capacity_of id c)) c, eq_refl id);
  kept =
      ground (arith, (h id).full, capacity_of-with id id (handed (capacity_of id c)) c, eq_refl id);
  others = λ j t. ground (arith, capacity_of-with id j (handed (capacity_of id c)) c);
  heap = ground arith;
  limit = ground arith;
}

release-Handed :
    (id : String) (c : Coordinator) (w : ℕ) (ws : List ℕ)
    → IsSound c
    → 0 < c.limit
    → (capacity_of id c).waiters ≡ w ∷ ws
    → Handed id c w ws (release id c)
unfolding release
release-Handed id c w ws h p e =
    rw ((goes_on id c w ws h p e).0, (goes_on id c w ws h p e).1) (hand_on-Handed id c w ws h p e)

-- On a coordinator in which every account keeps within the limit and is full while somebody waits
-- for it, with a positive limit, a release on an account with a queue whose first waiter is one of
-- the waiters made so far grants the slot to that waiter, whose Acquire then returns with a lease,
-- and takes it off the queue; the number of slots in use and any other account stay as they are.
pub release_hands_on :
    (id j : String) (c : Coordinator) (w : ℕ) (ws : List ℕ)
    → IsSound c
    → 0 < c.limit
    → w < length c.heap
    → (capacity_of id c).waiters ≡ w ∷ ws
    → str_eq id j ≡ false
    → ((release id c).1 ≡ some w)
      × (wake w (release id c).0 ≡ leased)
      × ((capacity_of id (release id c).0).waiters ≡ ws)
      × ((capacity_of id (release id c).0).active ≡ (capacity_of id c).active)
      × (capacity_of j (release id c).0 ≡ capacity_of j c)
unfolding wake
release_hands_on id j c w ws h p there e other = (r.told, woken, r.queue, r.kept, r.others j other)
  where
    r : Handed id c w ws (release id c)
    r = release-Handed id c w ws h p e

    woken : wake w (release id c).0 ≡ leased
    woken =
        ground
          (arith, r.heap, get_elem?-set c.heap w (record { ready = true; granted = true }) there)

-- So many releases of one account, one after the other.
unfoldable pub release_times : ℕ → String → Coordinator → Coordinator
unfolding release
release_times zero id c = c
release_times (suc n) id c = release_times n id (release id c).0

-- On a coordinator in which every account keeps within the limit and is full while somebody waits
-- for it, with a positive limit, a waiter of an account that has some others in front of it is
-- granted the slot by the release that follows as many releases of that account, and then those
-- behind it are the queue, in their order.
pub served_in_order :
    (id : String) (c : Coordinator) (front : List ℕ) (w : ℕ) (back : List ℕ)
    → IsSound c
    → 0 < c.limit
    → (capacity_of id c).waiters ≡ front ++ w ∷ back
    → ((release id (release_times (length front) id c)).1 ≡ some w)
      × ((capacity_of id (release_times (suc (length front)) id c)).waiters ≡ back)
unfolding release_times
served_in_order id c [] w back h p e = (r.told, r.queue)
  where
    r : Handed id c w back (release id c)
    r = release-Handed id c w back h p e
served_in_order id c (v ∷ front) w back h p e =
    served_in_order id (release id c).0 front w back (release-IsSound id c h)
      (omega (arith, p, r.limit)) r.queue
  where
    r : Handed id c v (front ++ w ∷ back) (release id c)
    r = release-Handed id c v (front ++ w ∷ back) h p e

-- Acquire on an account where somebody waits, on a coordinator that is open, goes to the end of the queue and takes no slot.
enter_waits :
    (id : String) (c : Coordinator) (w : ℕ) (ws : List ℕ)
    → c.closed ≡ false
    → (capacity_of id c).waiters ≡ w ∷ ws
    → ((enter id c).1 ≡ waits (length c.heap))
      × ((capacity_of id (enter id c).0).waiters ≡ w ∷ ws ++ length c.heap ∷ [])
      × ((capacity_of id (enter id c).0).active ≡ (capacity_of id c).active)
unfolding enter state_locked
enter_waits id c w ws open_now e = ground (
  arith,
  capacity_of-with id id
      (record {
        active = (capacity_of id c).active;
        waiters = (capacity_of id c).waiters ++ length c.heap ∷ [];
      })
      (state_locked id c),
  eq_refl id,
)
