-- ===== src/Base/Sorted.antt =====
-- Sorted lists: what insertion sort gives for a preorder that its comparison decides, also where the
-- comparison itself is no linear order.
use Prim.Native.Nat.{Ordering}
use mathlib.Core.Path.{◌≡◌, refl, sym, subst}
use mathlib.Core.Logic.{◌≢◌, ◌⊎◌, inl, inr, ∥∥₁_elim}
use mathlib.Core.List.{List, [], ◌∷◌, ◌++◌, reverse, reverse-cons, Mem, Memᴰ}
use chatgpt_codex_proxy.Base.Lists.{All}
use chatgpt_codex_proxy.Base.Sort.{insert, insert_all, sort, insert-past, insert-stop}

module _ {ℓ κ} {A : Type ℓ} (P : A → Type κ) where
  pub All-append : (xs ys : List A) → All P xs → All P ys → All P (xs ++ ys)
  All-append [] ys h k = k
  All-append (x ∷ xs) ys h k = (h.0, All-append xs ys h.1 k)

  pub All-reverse : (xs : List A) → All P xs → All P (reverse xs)
  All-reverse [] h = tt
  All-reverse (x ∷ xs) h =
      subst (All P) (sym (reverse-cons x xs))
        (All-append (reverse xs) (x ∷ []) (All-reverse xs h.1) (h.0, tt))

  pub All-Mem : ((a : A) → IsProp (P a)) → {a : A} (xs : List A) → All P xs → Mem a xs → P a
  All-Mem prop {a} xs h m = ∥∥₁_elim m (prop a) (λ d. at xs h d)
    where
      at : (ys : List A) → All P ys → Memᴰ a ys → P a
      at [] k d = elim d [ ]
      at (y ∷ ys) k (Memᴰ.head e) = subst P (sym e) k.0
      at (y ∷ ys) k (Memᴰ.tail d) = at ys k.1 d

pub lt-or : (o : Ordering) → (o ≡ Ordering.lt) ⊎ (o ≢ Ordering.lt)
lt-or Ordering.lt = inl refl
lt-or Ordering.eq = inr (λ e. cc)
lt-or Ordering.gt = inr (λ e. cc)

-- What a preorder and a comparison that refines it have to do with one another.
pub record IsRefined {ℓ κ} {A : Type ℓ} (cmp : A → A → Ordering) (below : A → A → Type κ)
    : Type (ℓ ⊔ κ) where
  pub lower : (x y : A) → cmp x y ≡ Ordering.lt → below x y
  pub upper : (x y : A) → cmp x y ≢ Ordering.lt → below y x
  pub through : (x y z : A) → below x y → below y z → below x z

module _ {ℓ κ} {A : Type ℓ} (cmp : A → A → Ordering) (below : A → A → Type κ)
    (refined : IsRefined cmp below) where
  abbrev Descends : List A → Type κ
  Descends [] = Unit
  Descends (x ∷ xs) = All (λ y. below y x) xs × Descends xs

  abbrev pub Ascends : List A → Type κ
  Ascends [] = Unit
  Ascends (x ∷ xs) = All (below x) xs × Ascends xs

  All-insert : (P : A → Type κ) (x : A) (ys : List A) → P x → All P ys → All P (insert cmp x ys)
  unfolding insert
  All-insert P x [] h k = (h, tt)
  All-insert P x (y ∷ ys) h k = elim (lt-or (cmp x y)) [
    | inl e ↦ rw (insert-past cmp x y ys e) (k.0, All-insert P x ys h k.1)
    | inr e ↦ rw (insert-stop cmp x y ys e) (h, k)
  ]

  All-through :
      (x y : A) (zs : List A) → below y x → All (λ z. below z y) zs → All (λ z. below z x) zs
  All-through x y [] h k = tt
  All-through x y (z ∷ zs) h k = (refined.through z y x k.0 h, All-through x y zs h k.1)

  insert-Descends : (x : A) (ys : List A) → Descends ys → Descends (insert cmp x ys)
  unfolding insert
  insert-Descends x [] d = (tt, tt)
  insert-Descends x (y ∷ ys) d = elim (lt-or (cmp x y)) [
    | inl e ↦
        rw (insert-past cmp x y ys e)
          (All-insert (λ z. below z y) x ys (refined.lower x y e) d.0, insert-Descends x ys d.1)
    | inr e ↦
        rw (insert-stop cmp x y ys e)
          ((refined.upper x y e, All-through x y ys (refined.upper x y e) d.0), d)
  ]

  insert_all-Descends : (acc xs : List A) → Descends acc → Descends (insert_all cmp acc xs)
  unfolding insert_all
  insert_all-Descends acc [] d = d
  insert_all-Descends acc (x ∷ xs) d =
      insert_all-Descends (insert cmp x acc) xs (insert-Descends x acc d)

  snoc-Ascends :
      (xs : List A) (x : A) → Ascends xs → All (λ y. below y x) xs → Ascends (xs ++ x ∷ [])
  snoc-Ascends [] x a h = (tt, tt)
  snoc-Ascends (y ∷ ys) x a h =
      (All-append (below y) ys (x ∷ []) a.0 (h.0, tt), snoc-Ascends ys x a.1 h.1)

  reverse-Ascends : (xs : List A) → Descends xs → Ascends (reverse xs)
  reverse-Ascends [] d = tt
  reverse-Ascends (x ∷ xs) d =
      subst Ascends (sym (reverse-cons x xs))
        (snoc-Ascends (reverse xs) x (reverse-Ascends xs d.1) (All-reverse (λ y. below y x) xs d.0))

  -- The sorted list goes up in the preorder.
  pub sort-Ascends : (xs : List A) → Ascends (sort cmp xs)
  unfolding sort
  sort-Ascends xs = reverse-Ascends (insert_all cmp [] xs) (insert_all-Descends [] xs tt)
