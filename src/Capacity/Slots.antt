-- ===== src/Capacity/Slots.antt =====
-- What holds of the slots of every account: never more in use than the limit, and nobody waits while one
-- is free.
use text.Mathlib.Text.{◌==◌ as str_eq}
use text.Mathlib.TextEquality.{eq_iff}
use chatgpt_codex_proxy.Base.{
  ℕ, ◌≡◌, ◌≤◌, ◌<◌, refl, sym, ap, ◌∙◌, subst, Bool, true, false, ◌&&◌, List, [], ◌⊎◌, inl, inr,
  String, ◌==◌, if◌then◌else◌, arith, if_keeps, Option-cases,
}
use chatgpt_codex_proxy.Base.Dict.{lookup, delete, lookup-insert, lookup-delete}
use chatgpt_codex_proxy.Capacity.{
  AccountCapacity, Coordinator, no_capacity_used, or_unused, capacity_of, nobody, with_capacity,
  state_locked, taken, cleanup_locked,
}

pub record IsSlot (limit : ℕ) (closed : Bool) (a : AccountCapacity) : Type 0 where
  pub bounded : a.active ≤ limit
  pub full : (a.waiters ≡ []) ⊎ ((a.active ≡ limit) × (closed ≡ false))

abbrev pub IsSound : Coordinator → Type 0
IsSound c = (id : String) → IsSlot c.limit c.closed (capacity_of id c)

-- Each change of the map, read at any account.
pub capacity_of-with :
    (id j : String) (a : AccountCapacity) (c : Coordinator)
    → capacity_of j (with_capacity id a c) ≡ (if str_eq id j then a else capacity_of j c)
capacity_of-with id j a c = ground (arith, lookup-insert id j a c.accounts)

pub capacity_of-state_locked :
    (id j : String) (c : Coordinator) → capacity_of j (state_locked id c) ≡ capacity_of j c
unfolding state_locked
capacity_of-state_locked id j c =
    ground (arith, lookup-insert id j no_capacity_used c.accounts, eq_iff id j)

pub state_locked-frame :
    (id : String) (c : Coordinator)
    → ((state_locked id c).limit ≡ c.limit)
      × ((state_locked id c).closed ≡ c.closed)
      × ((state_locked id c).heap ≡ c.heap)
unfolding state_locked
state_locked-frame id c = ground arith

-- The elementary changes.
pub with-IsSound :
    (id : String) (a : AccountCapacity) (c : Coordinator)
    → IsSound c
    → IsSlot c.limit c.closed a
    → IsSound (with_capacity id a c)
with-IsSound id a c h k j =
    subst (IsSlot c.limit c.closed) (sym (capacity_of-with id j a c))
      (if_keeps (IsSlot c.limit c.closed) (str_eq id j) (λ _. k) (λ _. h j))

pub unused-IsSlot : (limit : ℕ) (closed : Bool) → IsSlot limit closed no_capacity_used
unused-IsSlot limit closed = record { bounded = omega arith; full = inl refl }

pub delete-IsSound :
    (id : String) (c : Coordinator)
    → IsSound c
    → IsSound (record c { accounts = delete id c.accounts })
delete-IsSound id c h j = subst (IsSlot c.limit c.closed) (sym deleted) (
    if_keeps (IsSlot c.limit c.closed) (str_eq id j) (λ _. unused-IsSlot c.limit c.closed)
      (λ _. h j))
  where
    deleted :
        or_unused (lookup j (delete id c.accounts))
        ≡ (if str_eq id j then no_capacity_used else capacity_of j c)
    deleted = ground (arith, lookup-delete id j c.accounts)

pub cleanup-IsSound :
    (id : String) (a : AccountCapacity) (c : Coordinator)
    → IsSound c
    → IsSlot c.limit c.closed a
    → IsSound (cleanup_locked id a (with_capacity id a c))
cleanup-IsSound id a c h k =
    if_keeps IsSound (a.active == 0 && nobody a.waiters)
      (λ _. delete-IsSound id (with_capacity id a c) (with-IsSound id a c h k))
      (λ _. with-IsSound id a c h k)

pub state_locked-IsSound : (id : String) (c : Coordinator) → IsSound c → IsSound (state_locked id c)
unfolding state_locked
state_locked-IsSound id c h = elim (Option-cases (lookup id c.accounts)) [
  | inl e ↦
      rw (e, state_locked) (with-IsSound id no_capacity_used c h (unused-IsSlot c.limit c.closed))
  | inr (a, e) ↦ rw (e, state_locked) h
]

pub empty_of : (ws : List ℕ) → nobody ws ≡ true → ws ≡ []
empty_of ws h = ground arith

pub taken-IsSound :
    (id : String) (c : Coordinator)
    → IsSound c
    → (capacity_of id c).active < c.limit
    → nobody (capacity_of id c).waiters ≡ true
    → IsSound (taken id (state_locked id c))
taken-IsSound id c h lt e =
    with-IsSound id _ (state_locked id c) (state_locked-IsSound id c h) (record {
      bounded = omega (arith, ap (λ a. a.active) same, (state_locked-frame id c).0);
      full = inl (ap (λ a. a.waiters) same ∙ empty_of _ e);
    })
  where
    same : capacity_of id (state_locked id c) ≡ capacity_of id c
    same = capacity_of-state_locked id id c
