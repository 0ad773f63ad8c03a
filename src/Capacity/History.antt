-- ===== src/Capacity/History.antt =====
-- Every history of calls of a coordinator: the slots it counts are the leases there are.
use text.Mathlib.TextPositions.{eq_refl}
use chatgpt_codex_proxy.Base.{
  ℕ, ◌≡◌, refl, sym, ap, ◌∙◌, Bool, true, ◌&&◌, not, Option, none, some, List, [], ◌∷◌, String, ltb,
  leb, ◌==◌, arith, if_keeps,
}
use chatgpt_codex_proxy.Base.Dict.{Dict, lookup, map_values, lookup-map_values}
use chatgpt_codex_proxy.Capacity.{
  AccountCapacity, Coordinator, or_unused, capacity_of, nobody, state_locked, try_acquire, Entry,
  enter, cancel, close, release, is_granted, freed, handed, hand_on, unqueued, leave, Ending,
}
use chatgpt_codex_proxy.Capacity.Slots.{IsSound}
use chatgpt_codex_proxy.Capacity.Steps.{
  try_acquire-IsSound, enter-IsSound, release-IsSound, cancel-IsSound, close-IsSound,
}
use chatgpt_codex_proxy.Capacity.Leases.{
  World, Event, tries, enters, releases, cancels, closes, count, contains, remove_one, lease_if,
  is_acquired, is_granting, perform, perform_all, Uses, with-Uses, cleanup-Uses, state_locked-Uses,
  taken-Uses, count-remove_one,
}

abbrev pub Counts : Coordinator → List String → Type 0
Counts c ls = Uses c (λ j. count j ls)

abbrev Tried : String → List String → Coordinator × Bool → Type 0
Tried id ls r = Counts r.0 (lease_if r.1 id ls)

try_acquire-Counts :
    (id : String) (c : Coordinator) (ls : List String)
    → Counts c ls
    → Tried id ls (try_acquire id c)
unfolding try_acquire
try_acquire-Counts id c ls u =
    if_keeps (Tried id ls) c.closed (λ _. entered)
      (λ _.
        if_keeps (Tried id ls) (leb c.limit (capacity_of id c).active) (λ _. entered)
          (λ _.
            if_keeps (Tried id ls) (not (nobody (capacity_of id c).waiters)) (λ _. entered)
              (λ _. taken-Uses id c ls u)))
  where
    entered : Counts (state_locked id c) ls
    entered = state_locked-Uses id c (λ j. count j ls) u

abbrev Entered : String → List String → Coordinator × Entry → Type 0
Entered id ls r = Counts r.0 (lease_if (is_acquired r.1) id ls)

enter-Counts :
    (id : String) (c : Coordinator) (ls : List String) → Counts c ls → Entered id ls (enter id c)
unfolding enter
enter-Counts id c ls u =
    if_keeps (Entered id ls) c.closed (λ _. u)
      (λ _.
        if_keeps (Entered id ls)
          (ltb (capacity_of id c).active c.limit && nobody (capacity_of id c).waiters)
          (λ _. taken-Uses id c ls u)
          (λ _.
            with-Uses id _ (state_locked id c) (λ j. count j ls) (λ j. count j ls)
              (state_locked-Uses id c (λ j. count j ls) u) (u id) (λ j _. refl)))

abbrev Released : String → List String → Coordinator × Option ℕ → Type 0
Released id ls r = Counts r.0 (lease_if (is_granting r.1) id (remove_one id ls))

hand_on-Counts :
    (id : String) (c : Coordinator) (ls : List String) (next : Option ℕ)
    → Counts c ls
    → contains id ls ≡ true
    → Released id ls (hand_on id c (capacity_of id c) next)
hand_on-Counts id c ls none u h =
    cleanup-Uses id (freed (capacity_of id c)) c (λ j. count j ls) (λ j. count j (remove_one id ls))
      u (ground (arith, u id, count-remove_one id id ls h, eq_refl id))
      (λ j t. ground (arith, count-remove_one id j ls h))
hand_on-Counts id c ls (some w) u h =
    cleanup-Uses id (handed (capacity_of id c)) c (λ j. count j ls)
      (λ j. count j (id ∷ remove_one id ls)) u
      (ground (arith, u id, count-remove_one id id ls h, eq_refl id))
      (λ j t. ground (arith, count-remove_one id j ls h))

release-Counts :
    (id : String) (c : Coordinator) (ls : List String)
    → Counts c ls
    → contains id ls ≡ true
    → Released id ls (release id c)
unfolding release
release-Counts id c ls u h =
    if_keeps (Released id ls) ((capacity_of id c).active == 0)
      (λ idle. absurd (ground (arith, u id, count-remove_one id id ls h, eq_refl id)))
      (λ _. hand_on-Counts id c ls _ u h)

leave-Counts :
    (id : String) (w : ℕ) (c : Coordinator) (ls : List String) (found : Option AccountCapacity)
    → Counts c ls
    → capacity_of id c ≡ or_unused found
    → Counts (leave id w c found).0 ls
leave-Counts id w c ls none u e = u
leave-Counts id w c ls (some a) u e =
    cleanup-Uses id (unqueued w a) c (λ j. count j ls) (λ j. count j ls) u
      (sym (ap (λ x. x.active) e) ∙ u id) (λ j _. refl)

cancel-Counts :
    (id : String) (w : ℕ) (c : Coordinator) (ls : List String)
    → Counts c ls
    → Counts (cancel id w c).0 ls
unfolding cancel
cancel-Counts id w c ls u =
    if_keeps (λ (r : Coordinator × Ending). Counts r.0 ls) (is_granted w c) (λ _. u)
      (λ _. leave-Counts id w c ls (lookup id c.accounts) u refl)

closed-active :
    (j : String) (accounts : Dict AccountCapacity)
    → (or_unused (lookup j (map_values (λ a. record a { waiters = [] }) accounts))).active
      ≡ (or_unused (lookup j accounts)).active
closed-active j accounts = ground (
  arith,
  lookup-map_values j (λ (a : AccountCapacity). record { active = a.active; waiters = [] })
      accounts,
)

close-Counts : (c : Coordinator) (ls : List String) → Counts c ls → Counts (close c) ls
unfolding close
close-Counts c ls u =
    if_keeps (λ (d : Coordinator). Counts d ls) c.closed (λ _. u)
      (λ _ j. closed-active j c.accounts ∙ u j)

pub record IsBalanced (w : World) : Type 0 where
  pub sound : IsSound w.coordinator
  pub counted : Counts w.coordinator w.leases

pub perform-IsBalanced : (e : Event) (w : World) → IsBalanced w → IsBalanced (perform e w)
unfolding perform
perform-IsBalanced (tries id) w h = record {
  sound = try_acquire-IsSound id w.coordinator h.sound;
  counted = try_acquire-Counts id w.coordinator w.leases h.counted;
}
perform-IsBalanced (enters id) w h = record {
  sound = enter-IsSound id w.coordinator h.sound;
  counted = enter-Counts id w.coordinator w.leases h.counted;
}
perform-IsBalanced (releases id) w h =
    if_keeps IsBalanced (contains id w.leases)
      (λ held. record {
        sound = release-IsSound id w.coordinator h.sound;
        counted = release-Counts id w.coordinator w.leases h.counted held;
      })
      (λ _. h)
perform-IsBalanced (cancels id waiter) w h = record {
  sound = cancel-IsSound id waiter w.coordinator h.sound;
  counted = cancel-Counts id waiter w.coordinator w.leases h.counted;
}
perform-IsBalanced closes w h = record {
  sound = close-IsSound w.coordinator h.sound;
  counted = close-Counts w.coordinator w.leases h.counted;
}

pub perform_all-IsBalanced :
    (w : World) (es : List Event) → IsBalanced w → IsBalanced (perform_all w es)
unfolding perform_all
perform_all-IsBalanced w [] h = h
perform_all-IsBalanced w (e ∷ es) h =
    perform_all-IsBalanced (perform e w) es (perform-IsBalanced e w h)
