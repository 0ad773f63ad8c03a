-- ===== src/Base/Sort.antt =====
-- The order of texts and Go's insertion sort, which `slices.SortFunc` runs on up to 12 elements:
-- each element moves left past those that it is less than.
use Prim.Native.Char.{Char, code}
use Prim.Native.String.{String, compare as compare_text}
use Prim.Native.Nat.{Ordering, compare}
use Prim.Native.String.compare as text_compare
use Prim.Native.String.{then}
use mathlib.Core.Path.{◌≡◌, refl, ap, ◌∙◌}
use mathlib.Core.List.{List, [], ◌∷◌, ◌++◌, reverse, Mem, mem-cons_self, mem-cons_of_mem, Permᴰ}
use mathlib.Core.List.Permᴰ
use mathlib.Core.Logic.{◌≢◌}
use native.Mathlib.Omega.{arith}
use text.Mathlib.TextEquality.{path_by_compare}

-- `cmp.Or` on two results of a comparison.
abbrev pub or_else : Ordering → Ordering → Ordering
or_else Ordering.eq o = o
or_else Ordering.lt o = Ordering.lt
or_else Ordering.gt o = Ordering.gt

abbrev pub flip_order : Ordering → Ordering
flip_order Ordering.lt = Ordering.gt
flip_order Ordering.eq = Ordering.eq
flip_order Ordering.gt = Ordering.lt

-- A comparison that orders its arguments in one line.
pub record IsLinear {ℓ} {K : Type ℓ} (cmp : K → K → Ordering) : Type ℓ where
  pub flips : (a b : K) → cmp a b ≡ flip_order (cmp b a)
  pub equal : (a b : K) → cmp a b ≡ Ordering.eq → a ≡ b
  pub chains : (a b c : K) → cmp a b ≡ Ordering.lt → cmp b c ≡ Ordering.lt → cmp a c ≡ Ordering.lt

text_nil-cons : (d : Char) (t : String) → compare_text String.[] (String.◌∷◌ d t) ≡ Ordering.lt
text_nil-cons d t i = text_compare.nil-cons d t i

text_cons-nil : (c : Char) (s : String) → compare_text (String.◌∷◌ c s) String.[] ≡ Ordering.gt
text_cons-nil c s i = text_compare.cons-nil c s i

text_cons-cons :
    (c d : Char) (s t : String)
    → compare_text (String.◌∷◌ c s) (String.◌∷◌ d t)
      ≡ or_else (compare (code c) (code d)) (compare_text s t)
text_cons-cons c d s t =
    (λ i. text_compare.cons-cons c d s t i)
    ∙ then-or_else (compare (code c) (code d)) (compare_text s t)
  where
    then-or_else : (o p : Ordering) → then o p ≡ or_else o p
    then-or_else Ordering.lt p = refl
    then-or_else Ordering.eq p = refl
    then-or_else Ordering.gt p = refl

compare_text-flips : (s t : String) → compare_text s t ≡ flip_order (compare_text t s)
compare_text-flips String.[] String.[] = refl
compare_text-flips String.[] (String.◌∷◌ d t) = rw (text_nil-cons d t, text_cons-nil d t)
compare_text-flips (String.◌∷◌ c s) String.[] = rw (text_nil-cons c s, text_cons-nil c s)
compare_text-flips (String.◌∷◌ c s) (String.◌∷◌ d t) =
    rw (text_cons-cons c d s t, text_cons-cons d c t s) (ground (arith, compare_text-flips s t))

compare_text-chains :
    (s t u : String)
    → compare_text s t ≡ Ordering.lt
    → compare_text t u ≡ Ordering.lt
    → compare_text s u ≡ Ordering.lt
compare_text-chains String.[] String.[] u h k = cc
compare_text-chains String.[] (String.◌∷◌ d t) String.[] h k = cc (text_cons-nil d t)
compare_text-chains String.[] (String.◌∷◌ d t) (String.◌∷◌ e u) h k = text_nil-cons e u
compare_text-chains (String.◌∷◌ c s) String.[] u h k = cc (text_cons-nil c s)
compare_text-chains (String.◌∷◌ c s) (String.◌∷◌ d t) String.[] h k = cc (text_cons-nil d t)
compare_text-chains (String.◌∷◌ c s) (String.◌∷◌ d t) (String.◌∷◌ e u) h k = ground (
  arith,
  text_cons-cons c d s t,
  text_cons-cons d e t u,
  text_cons-cons c e s u,
  compare_text-chains s t u,
)

pub text_order : IsLinear compare_text
text_order = record {
  flips = compare_text-flips;
  equal = path_by_compare;
  chains = compare_text-chains;
}

module _ {ℓ} {A : Type ℓ} (cmp : A → A → Ordering) where
  -- Into a prefix that is kept with its last element first.
  unfoldable pub insert : A → List A → List A
  insert x [] = x ∷ []
  insert x (y ∷ ys) =
      let rest = y ∷ insert x ys in elim (cmp x y) [ Ordering.lt ↦ rest | _ ↦ x ∷ y ∷ ys ]

  unfoldable pub insert_all : List A → List A → List A
  insert_all sorted [] = sorted
  insert_all sorted (x ∷ xs) = insert_all (insert x sorted) xs

  unfoldable pub sort : List A → List A
  unfolding insert insert_all
  sort xs = reverse (insert_all [] xs)

module _ {ℓ} {A : Type ℓ} (cmp : A → A → Ordering) where
  pub insert-past :
      (x y : A) (ys : List A) → cmp x y ≡ Ordering.lt → insert cmp x (y ∷ ys) ≡ y ∷ insert cmp x ys
  unfolding insert
  insert-past x y ys e = ground arith

  pub insert-stop :
      (x y : A) (ys : List A) → cmp x y ≢ Ordering.lt → insert cmp x (y ∷ ys) ≡ x ∷ y ∷ ys
  unfolding insert
  insert-stop x y ys e = ground arith

  pub insert-perm : (x : A) (ys : List A) → Permᴰ (insert cmp x ys) (x ∷ ys)
  unfolding insert
  insert-perm x [] = Permᴰ.refl _
  insert-perm x (y ∷ ys) = go (cmp x y) refl (insert-perm x ys)
    where
      go :
          (o : Ordering)
          → cmp x y ≡ o
          → Permᴰ (insert cmp x ys) (x ∷ ys)
          → Permᴰ (insert cmp x (y ∷ ys)) (x ∷ y ∷ ys)
      go Ordering.lt e ih = rw (e, insert) (Permᴰ.trans (Permᴰ.cons refl ih) (Permᴰ.swap refl refl))
      go Ordering.eq e ih = rw (e, insert) (Permᴰ.refl _)
      go Ordering.gt e ih = rw (e, insert) (Permᴰ.refl _)

  insert_all-perm : (acc xs : List A) → Permᴰ (insert_all cmp acc xs) (xs ++ acc)
  unfolding insert_all
  insert_all-perm acc [] = Permᴰ.refl acc
  insert_all-perm acc (x ∷ xs) =
      Permᴰ.trans (insert_all-perm (insert cmp x acc) xs)
        (Permᴰ.trans (Permᴰ.append_left xs (insert-perm x acc)) (Permᴰ.middle x xs acc))

  -- Sorting keeps the elements.
  pub sort-perm : (xs : List A) → Permᴰ (sort cmp xs) xs
  unfolding sort
  sort-perm xs =
      Permᴰ.trans (Permᴰ.reverse (insert_all cmp [] xs))
        (Permᴰ.trans (insert_all-perm [] xs) (Permᴰ.append-nil xs))

-- Sorting by a key: the order of the input is forgotten where equal keys are equal elements.
module _ {ℓ κ} {A : Type ℓ} {K : Type κ} (key : A → K) {cmp : K → K → Ordering}
    (linear : IsLinear cmp) where
  abbrev by_key : A → A → Ordering
  by_key x y = cmp (key x) (key y)

  insert_comm :
      (x y : A) (zs : List A)
      → (key x ≡ key y → x ≡ y)
      → insert by_key x (insert by_key y zs) ≡ insert by_key y (insert by_key x zs)
  unfolding insert
  insert_comm x y [] same =
      ground (arith, linear.flips (key x) (key y), linear.equal (key x) (key y))
  insert_comm x y (z ∷ zs) same = ground (
    arith,
    insert_comm x y zs same,
    linear.flips (key x) (key y),
    linear.flips (key x) (key z),
    linear.flips (key y) (key z),
    linear.equal (key x) (key y),
    linear.equal (key x) (key z),
    linear.equal (key y) (key z),
    linear.chains (key x) (key z) (key y),
    linear.chains (key y) (key z) (key x),
  )

  insert_all-perm-eq :
      {xs ys : List A} (acc : List A)
      → Permᴰ xs ys
      → ((x y : A) → Mem x xs → Mem y xs → key x ≡ key y → x ≡ y)
      → insert_all by_key acc xs ≡ insert_all by_key acc ys
  unfolding insert_all
  insert_all-perm-eq acc Permᴰ.nil same = refl
  insert_all-perm-eq acc (Permᴰ.cons {a = a} {b = b} {l₁ = l₁} {l₂ = l₂} e p) same =
      ap (λ z. insert_all by_key (insert by_key z acc) l₁) e
      ∙ insert_all-perm-eq (insert by_key b acc) p
          (λ x y mx my. same x y (mem-cons_of_mem a mx) (mem-cons_of_mem a my))
  insert_all-perm-eq acc (Permᴰ.swap {a = a} {b = b} {a' = a'} {b' = b'} {l = l} e e') same =
      ap (λ zs. insert_all by_key zs l)
        (rw (← e, ← e')
          (insert_comm b a acc (same b a (mem-cons_of_mem a mem-cons_self) mem-cons_self)))
  insert_all-perm-eq acc (Permᴰ.trans p q) same =
      insert_all-perm-eq acc p same
      ∙ insert_all-perm-eq acc q
          (λ x y mx my. same x y (Permᴰ.mem (Permᴰ.symm p) mx) (Permᴰ.mem (Permᴰ.symm p) my))

  -- Two orders of the same elements are sorted alike.
  pub sort-perm-eq :
      {xs ys : List A}
      → Permᴰ xs ys
      → ((x y : A) → Mem x xs → Mem y xs → key x ≡ key y → x ≡ y)
      → sort by_key xs ≡ sort by_key ys
  unfolding sort
  sort-perm-eq p same = ap reverse (insert_all-perm-eq [] p same)
