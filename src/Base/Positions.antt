-- ===== src/Base/Positions.antt =====
-- Members of a list and their positions.
use Prim.Native.Nat.{ℕ, zero, suc, ◌+◌, ◌-◌, ◌%◌, ◌/◌, ◌*◌, ◌<◌}
use mathlib.Core.Path.{◌≡◌, refl, sym, ap, subst, ◌∙◌}
use mathlib.Core.Bool.{Bool, true, false}
use mathlib.Core.Logic.{∥∥₁_map, ∥∥₁_elim}
use mathlib.Core.List.{List, [], ◌∷◌, Mem, Memᴰ, Permᴰ, mem-cons_of_mem}
use mathlib.Core.Option.{some}
use native.Mathlib.Omega.{arith}
use native.Mathlib.Nat.{add-mod-mod, mod-eq_of_lt, add-mul-mod_self_left, mod-add-div}
use chatgpt_codex_proxy.Base.Lists.{length, get_elem?, keep}

module _ {ℓ} {A : Type ℓ} where
  pub length-perm : {xs ys : List A} → Permᴰ xs ys → length xs ≡ length ys
  length-perm Permᴰ.nil = refl
  length-perm (Permᴰ.cons e p) = ap suc (length-perm p)
  length-perm (Permᴰ.swap e e') = refl
  length-perm (Permᴰ.trans p q) = length-perm p ∙ length-perm q

  pub position :
      {x : A} {xs : List A} → Memᴰ x xs → (p : ℕ) × (p < length xs) × (get_elem? xs p ≡ some x)
  position (Memᴰ.head e) = (0, omega arith, ap some (sym e))
  position (Memᴰ.tail m) = (suc (position m).0, omega (arith, (position m).1), (position m).2)

  pub get_elem?-Mem : (xs : List A) (i : ℕ) {x : A} → get_elem? xs i ≡ some x → Mem x xs
  get_elem?-Mem [] i h = cc
  get_elem?-Mem (y ∷ ys) zero {x} h = ∣ Memᴰ.head (cc) ∣₁
  get_elem?-Mem (y ∷ ys) (suc i) h = mem-cons_of_mem y (get_elem?-Mem ys i h)

  pub get_elem?-within : (xs : List A) (i : ℕ) → i < length xs → (x : A) × (get_elem? xs i ≡ some x)
  get_elem?-within [] i h = elim h [ ]
  get_elem?-within (y ∷ ys) zero h = (y, refl)
  get_elem?-within (y ∷ ys) (suc i) h = get_elem?-within ys i (omega arith)

-- A turn of the index that reaches a given position.
pub turn-reaches : (k p n : ℕ) → p < n → (k + (p + (n - k % n)) % n) % n ≡ p
turn-reaches k p n h =
    add-mod-mod k (p + (n - k % n)) n
    ∙ ap (λ (t : ℕ). t % n) regroup
    ∙ add-mul-mod_self_left p n (k / n + 1)
    ∙ mod-eq_of_lt h
  where
    regroup : k + (p + (n - k % n)) ≡ p + n * (k / n + 1)
    regroup = grind (arith, mod-add-div k n)

module _ {ℓ} {A : Type ℓ} (p : A → Bool) where
  Bool-set : IsSet Bool
  Bool-set = hlevel

  -- What a test keeps is what passes it.
  pub keep-Memᴰ : (xs : List A) {x : A} → Memᴰ x (keep p xs) → Memᴰ x xs × (p x ≡ true)
  keep-Memᴰ [] m = elim m [ ]
  keep-Memᴰ (y ∷ ys) {x} m = go (p y) refl m (keep-Memᴰ ys)
    where
      go :
          (b : Bool)
          → p y ≡ b
          → Memᴰ x (elim b [ true ↦ y ∷ keep p ys | false ↦ keep p ys ])
          → (Memᴰ x (keep p ys) → Memᴰ x ys × (p x ≡ true))
          → Memᴰ x (y ∷ ys) × (p x ≡ true)
      go true e (Memᴰ.head h) ih = (Memᴰ.head h, ap p h ∙ e)
      go true e (Memᴰ.tail t) ih = (Memᴰ.tail (ih t).0, (ih t).1)
      go false e t ih = (Memᴰ.tail (ih t).0, (ih t).1)

  pub keep-sub : (xs : List A) {x : A} → Mem x (keep p xs) → Mem x xs
  keep-sub xs m = ∥∥₁_map m (λ d. (keep-Memᴰ xs d).0)

  pub keep-holds : (xs : List A) {x : A} → Mem x (keep p xs) → p x ≡ true
  keep-holds xs m = ∥∥₁_elim m (Bool-set _ _) (λ d. (keep-Memᴰ xs d).1)

  Memᴰ-keep : (xs : List A) {x : A} → Memᴰ x xs → p x ≡ true → Memᴰ x (keep p xs)
  Memᴰ-keep [] m e = elim m [ ]
  Memᴰ-keep (y ∷ ys) {x} (Memᴰ.head h) e =
      subst (λ b. Memᴰ x (elim b [ true ↦ y ∷ keep p ys | false ↦ keep p ys ]))
        (sym (ap p (sym h) ∙ e)) (Memᴰ.head h)
  Memᴰ-keep (y ∷ ys) {x} (Memᴰ.tail t) e = go (p y) (Memᴰ-keep ys t e)
    where
      go :
          (b : Bool)
          → Memᴰ x (keep p ys)
          → Memᴰ x (elim b [ true ↦ y ∷ keep p ys | false ↦ keep p ys ])
      go true m = Memᴰ.tail m
      go false m = m

  pub Mem-keep : (xs : List A) {x : A} → Mem x xs → p x ≡ true → Mem x (keep p xs)
  Mem-keep xs m e = ∥∥₁_map m (λ d. Memᴰ-keep xs d e)
