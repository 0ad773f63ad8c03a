-- ===== src/Capacity/Steps.antt =====
-- Each operation of the coordinator keeps the slots of every account sound.
use chatgpt_codex_proxy.Base.{
  ℕ, ◌-◌, ◌≡◌, refl, sym, ◌∙◌, Bool, true, false, ◌&&◌, not, Option, none, some, List, [], ◌∷◌, inl,
  inr, String, ltb, leb, ◌==◌, arith, if_keeps,
}
use chatgpt_codex_proxy.Base.Int.{ℤ}
use chatgpt_codex_proxy.Base.Dict.{lookup, map_values, lookup-map_values}
use chatgpt_codex_proxy.Capacity.{
  AccountCapacity, Coordinator, new_coordinator, or_unused, capacity_of, nobody, state_locked,
  try_acquire, enter, cancel, without, close, release, next_of, freed, handed, hand_on, unqueued,
  leave, is_granted,
}
use chatgpt_codex_proxy.Capacity.Slots.{
  IsSlot, IsSound, state_locked-frame, with-IsSound, unused-IsSlot, cleanup-IsSound,
  state_locked-IsSound, taken-IsSound,
}

abbrev First {ℓ} : {A : Type ℓ} → Coordinator × A → Type 0
First x = IsSound x.0

pub try_acquire-IsSound : (id : String) (c : Coordinator) → IsSound c → IsSound (try_acquire id c).0
unfolding try_acquire
try_acquire-IsSound id c h =
    if_keeps First c.closed (λ _. entered)
      (λ _.
        if_keeps First (leb c.limit (capacity_of id c).active) (λ _. entered)
          (λ room.
            if_keeps First (not (nobody (capacity_of id c).waiters)) (λ _. entered)
              (λ free. taken-IsSound id c h (ground arith) (ground arith))))
  where
    entered : IsSound (state_locked id c)
    entered = state_locked-IsSound id c h

at_limit :
    (a : AccountCapacity) (limit : ℕ) (closed : Bool)
    → IsSlot limit closed a
    → (ltb a.active limit && nobody a.waiters) ≡ false
    → a.active ≡ limit
at_limit a limit closed h e = ground (arith, h.bounded, h.full)

pub enter-IsSound : (id : String) (c : Coordinator) → IsSound c → IsSound (enter id c).0
unfolding enter
enter-IsSound id c h =
    if_keeps First c.closed (λ _. h)
      (λ alive.
        if_keeps First (ltb a.active c.limit && nobody a.waiters)
          (λ free. taken-IsSound id c h (ground arith) (ground arith))
          (λ busy. with-IsSound id _ (state_locked id c) (state_locked-IsSound id c h) (record {
            bounded = omega (arith, (h id).bounded, (state_locked-frame id c).0);
            full = inr (
              at_limit a c.limit c.closed (h id) busy ∙ sym (state_locked-frame id c).0,
              (state_locked-frame id c).1 ∙ alive,
            );
          })))
  where
    a : AccountCapacity
    a = capacity_of id c

next_of-none :
    (closed : Bool) (limit : ℕ) (a : AccountCapacity)
    → IsSlot limit closed a
    → (a.active == 0) ≡ false
    → next_of closed limit (a.active - 1) a.waiters ≡ none
    → a.waiters ≡ []
next_of-none closed limit a h p e = ground (arith, h.bounded, h.full)

next_of-some :
    (closed : Bool) (limit : ℕ) (a : AccountCapacity) (w : ℕ)
    → IsSlot limit closed a
    → next_of closed limit (a.active - 1) a.waiters ≡ some w
    → (a.active ≡ limit) × (closed ≡ false)
next_of-some closed limit a w h e = ground (arith, h.full)

hand_on-IsSound :
    (id : String) (c : Coordinator) (a : AccountCapacity) (next : Option ℕ)
    → IsSound c
    → IsSlot c.limit c.closed a
    → (a.active == 0) ≡ false
    → next_of c.closed c.limit (a.active - 1) a.waiters ≡ next
    → IsSound (hand_on id c a next).0
hand_on-IsSound id c a none h k used e = cleanup-IsSound id (freed a) c h (record {
  bounded = omega (arith, k.bounded);
  full = inl (next_of-none c.closed c.limit a k used e);
})
hand_on-IsSound id c a (some w) h k used e = cleanup-IsSound id (handed a) c h (record {
  bounded = ground (arith, k.bounded);
  full = inr (
    ground (arith, next_of-some c.closed c.limit a w k e),
    (next_of-some c.closed c.limit a w k e).1,
  );
})

-- `release` keeps the slots of every account within the limit, and full while anybody waits.
pub release-IsSound : (id : String) (c : Coordinator) → IsSound c → IsSound (release id c).0
unfolding release
release-IsSound id c h =
    if_keeps First (a.active == 0) (λ _. h) (λ used. hand_on-IsSound id c a _ h (h id) used refl)
  where
    a : AccountCapacity
    a = capacity_of id c

without-nil : (w : ℕ) (vs : List ℕ) → vs ≡ [] → without w vs ≡ []
unfolding without
without-nil w [] e = refl
without-nil w (v ∷ vs) e = cc

unqueued-IsSlot :
    (w : ℕ) (limit : ℕ) (closed : Bool) (a : AccountCapacity)
    → IsSlot limit closed a
    → IsSlot limit closed (unqueued w a)
unqueued-IsSlot w limit closed a k = record {
  bounded = k.bounded;
  full = elim k.full [ inl e ↦ inl (without-nil w a.waiters e) | inr f ↦ inr f ];
}

leave-IsSound :
    (id : String) (w : ℕ) (c : Coordinator) (found : Option AccountCapacity)
    → IsSound c
    → IsSlot c.limit c.closed (or_unused found)
    → IsSound (leave id w c found).0
leave-IsSound id w c none h k = h
leave-IsSound id w c (some a) h k =
    cleanup-IsSound id (unqueued w a) c h (unqueued-IsSlot w c.limit c.closed a k)

pub cancel-IsSound : (id : String) (w : ℕ) (c : Coordinator) → IsSound c → IsSound (cancel id w c).0
unfolding cancel
cancel-IsSound id w c h =
    if_keeps First (is_granted w c) (λ _. h)
      (λ _. leave-IsSound id w c (lookup id c.accounts) h (h id))

closed-IsSlot :
    (id : String) (c : Coordinator)
    → IsSlot c.limit c.closed (capacity_of id c)
    → IsSlot c.limit true
        (or_unused (lookup id (map_values (λ a. record a { waiters = [] }) c.accounts)))
closed-IsSlot id c k = ground (
  arith,
  lookup-map_values id (λ (a : AccountCapacity). record { active = a.active; waiters = [] })
      c.accounts,
  k.bounded,
)

pub close-IsSound : (c : Coordinator) → IsSound c → IsSound (close c)
unfolding close
close-IsSound c h = if_keeps IsSound c.closed (λ _. h) (λ _ j. closed-IsSlot j c (h j))

pub new_coordinator-IsSound : (limit : ℤ) → IsSound (new_coordinator limit)
unfolding new_coordinator lookup
new_coordinator-IsSound limit j = unused-IsSlot _ false
