-- ===== src/Capacity/Leases.antt =====
-- The coordinator with its callers: which slots are held, along every interleaving of their calls.
use text.Mathlib.Text.{◌==◌ as str_eq}
use text.Mathlib.TextEquality.{eq_iff}
use text.Mathlib.TextPositions.{eq_refl}
use chatgpt_codex_proxy.Base.{
  ℕ, ◌+◌, ◌≡◌, sym, ap, ◌∙◌, subst, Bool, true, false, ◌||◌, Option, none, some, List, [], ◌∷◌, inl,
  inr, String, if◌then◌else◌, arith, Bool-cases,
}
use chatgpt_codex_proxy.Base.Dict.{insert, lookup-insert, lookup-delete}
use chatgpt_codex_proxy.Capacity.{
  AccountCapacity, Coordinator, capacity_of, with_capacity, state_locked, taken, try_acquire, Entry,
  refused, acquired, waits, enter, cancel, cleanup_locked, close, release,
}
use chatgpt_codex_proxy.Capacity.Slots.{capacity_of-with, capacity_of-state_locked}

-- A slot is leased from the moment it is granted to the run of its release function, which runs
-- once. `leases` has the account of each.
pub record World : Type 0 where
  pub coordinator : Coordinator
  pub leases : List String

pub data Event : Type 0 where
  tries enters releases : String → Event
  cancels : String → ℕ → Event
  closes : Event

abbrev pub count : String → List String → ℕ
count j [] = 0
count j (i ∷ is) = let rest = count j is in if str_eq i j then rest + 1 else rest

abbrev pub contains : String → List String → Bool
contains j [] = false
contains j (i ∷ is) = str_eq i j || contains j is

abbrev pub remove_one : String → List String → List String
remove_one j [] = []
remove_one j (i ∷ is) = let rest = remove_one j is in if str_eq i j then is else i ∷ rest

abbrev pub lease_if : Bool → String → List String → List String
lease_if b id ls = if b then id ∷ ls else ls

abbrev pub is_acquired : Entry → Bool
is_acquired acquired = true
is_acquired refused = false
is_acquired (waits _) = false

abbrev pub is_granting : Option ℕ → Bool
is_granting none = false
is_granting (some _) = true

-- A release happens only where there is a lease to give back.
unfoldable pub perform : Event → World → World
perform (tries id) w = record {
  coordinator = (try_acquire id w.coordinator).0;
  leases = lease_if (try_acquire id w.coordinator).1 id w.leases;
}
perform (enters id) w = record {
  coordinator = (enter id w.coordinator).0;
  leases = lease_if (is_acquired (enter id w.coordinator).1) id w.leases;
}
perform (releases id) w =
    if contains id w.leases
    then record {
      coordinator = (release id w.coordinator).0;
      leases = lease_if (is_granting (release id w.coordinator).1) id (remove_one id w.leases);
    }
    else w
perform (cancels id waiter) w = record w { coordinator = (cancel id waiter w.coordinator).0 }
perform closes w = record w { coordinator = close w.coordinator }

unfoldable pub perform_all : World → List Event → World
perform_all w [] = w
perform_all w (e ∷ es) = perform_all (perform e w) es

-- The slots in use are those of a count.
abbrev pub Uses : Coordinator → (String → ℕ) → Type 0
Uses c f = (j : String) → (capacity_of j c).active ≡ f j

pub with-Uses :
    (id : String) (a : AccountCapacity) (c : Coordinator) (f g : String → ℕ)
    → Uses c f
    → a.active ≡ g id
    → ((j : String) → str_eq id j ≡ false → g j ≡ f j)
    → Uses (with_capacity id a c) g
with-Uses id a c f g u e other j = elim (Bool-cases (str_eq id j)) [
  | inl t ↦
      ap (λ b. b.active) (capacity_of-with id j a c)
      ∙ (rw t (subst (λ i. a.active ≡ g i) ((eq_iff id j).0 t) e))
  | inr t ↦ ap (λ b. b.active) (capacity_of-with id j a c) ∙ (rw t (u j ∙ sym (other j t)))
]

pub cleanup-Uses :
    (id : String) (a : AccountCapacity) (c : Coordinator) (f g : String → ℕ)
    → Uses c f
    → a.active ≡ g id
    → ((j : String) → str_eq id j ≡ false → g j ≡ f j)
    → Uses (cleanup_locked id a (with_capacity id a c)) g
cleanup-Uses id a c f g u e other j = ground (
  arith,
  lookup-insert id j a c.accounts,
  lookup-delete id j (insert id a c.accounts),
  with-Uses id a c f g u e other j,
  eq_iff id j,
)

pub state_locked-Uses :
    (id : String) (c : Coordinator) (f : String → ℕ) → Uses c f → Uses (state_locked id c) f
state_locked-Uses id c f u j = ap (λ a. a.active) (capacity_of-state_locked id j c) ∙ u j

pub taken-Uses :
    (id : String) (c : Coordinator) (ls : List String)
    → Uses c (λ j. count j ls)
    → Uses (taken id (state_locked id c)) (λ j. count j (id ∷ ls))
taken-Uses id c ls u =
    with-Uses id _ (state_locked id c) (λ j. count j ls) (λ j. count j (id ∷ ls))
      (state_locked-Uses id c (λ j. count j ls) u)
      (ground (arith, eq_refl id, state_locked-Uses id c (λ j. count j ls) u id))
      (λ j t. ground arith)

pub count-remove_one :
    (id j : String) (ls : List String)
    → contains id ls ≡ true
    → count j ls
      ≡ (if str_eq id j then count j (remove_one id ls) + 1 else count j (remove_one id ls))
count-remove_one id j [] h = cc
count-remove_one id j (i ∷ is) h =
    ground (arith, count-remove_one id j is, eq_iff i id, eq_iff i j, eq_iff id j)
