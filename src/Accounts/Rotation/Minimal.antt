-- ===== src/Accounts/Rotation/Minimal.antt =====
-- selectLeastUsed: the choice has used no more of the shortest shared window than any candidate that has one.
use mathlib.Core.List.{Mem, not-mem-nil}
use mathlib.Core.HLevel.{¬_prop}
use mathlib.Core.List.Permᴰ
use native.Mathlib.Nat.{mod-lt}
use chatgpt_codex_proxy.Base.{
  ℕ, zero, suc, ◌+◌, ◌<◌, ◌≡◌, ◌≢◌, refl, ap, subst, ◌∙◌, some, List, [], ◌∷◌, get_elem?, arith,
  keep, Ordering, inl, inr, Option-cases,
}
use chatgpt_codex_proxy.Base.Int.{ℤ, compare_int}
use chatgpt_codex_proxy.Base.Int.Order.{int_order, not_above_trans}
use chatgpt_codex_proxy.Base.Sort.{sort, sort-perm, flip_order}
use chatgpt_codex_proxy.Base.Sorted.{IsRefined, sort-Ascends, All-Mem, Ascends}
use chatgpt_codex_proxy.Accounts.Types.{Record}
use chatgpt_codex_proxy.Accounts.Rotation.{
  int_slot, select_at, select_first, select_least_used, count_tied, compare_use,
  compare_least_used_quota, compare_percents, has_used_percent, has_window_durations,
  shared_rate_limit_window_durations, select_sorted, select_shared, select_with_quota, select_among,
  percent_at, or_zero, windows_of,
}

abbrev pub percent : ℤ → Record → ℤ
percent d r = or_zero (percent_at (windows_of r) d)

abbrev pub Below : ℤ → Record → Record → Type 0
Below d a b = compare_int (percent d a) (percent d b) ≢ Ordering.gt

-- The first shared duration decides, unless its percentages are equal.
first_decides :
    (d : ℤ) (ds : List ℤ) (x y : Record) (o : Ordering)
    → compare_int (percent d x) (percent d y) ≡ o
    → o ≢ Ordering.eq
    → compare_use (d ∷ ds) x y ≡ o
unfolding compare_least_used_quota
first_decides d ds x y Ordering.lt e h = rw (e, compare_least_used_quota, compare_percents)
first_decides d ds x y Ordering.eq e h = absurd (h refl)
first_decides d ds x y Ordering.gt e h = rw (e, compare_least_used_quota, compare_percents)

below_of_lt :
    (d : ℤ) (ds : List ℤ) (x y : Record) → compare_use (d ∷ ds) x y ≡ Ordering.lt → Below d x y
below_of_lt d ds x y h e = cc (first_decides d ds x y Ordering.gt e (λ q. cc))

below_of_not_lt :
    (d : ℤ) (ds : List ℤ) (x y : Record) → compare_use (d ∷ ds) x y ≢ Ordering.lt → Below d y x
below_of_not_lt d ds x y h e = h (
    first_decides d ds x y Ordering.lt
      (int_order.flips (percent d x) (percent d y) ∙ ap flip_order e) (λ q. cc))

refined : (d : ℤ) (ds : List ℤ) → IsRefined (compare_use (d ∷ ds)) (Below d)
refined d ds = record {
  lower = below_of_lt d ds;
  upper = below_of_not_lt d ds;
  through = λ x y z. not_above_trans (percent d x) (percent d y) (percent d z);
}

tied_percent :
    (d : ℤ) (ds : List ℤ) (x y : Record)
    → compare_least_used_quota (d ∷ ds) x y ≡ Ordering.eq
    → compare_int (percent d x) (percent d y) ≡ Ordering.eq
unfolding compare_least_used_quota
tied_percent d ds x y h = ground arith

int_slot-lt : (index n i : ℕ) → int_slot index n ≡ some i → i < n
unfolding int_slot
int_slot-lt index n i h = ground (arith, λ (p : 0 < n). mod-lt index p)

select_at_inv :
    (xs : List Record) (n index : ℕ) {r : Record} {next : ℕ}
    → select_at xs n index ≡ some (r, next)
    → (i : ℕ) × (i < n) × (get_elem? xs i ≡ some r)
unfolding select_at
select_at_inv xs n index {r} {next} h = elim (Option-cases (int_slot index n)) [
  | inl e ↦ absurd (ground arith)
  | inr (i, e) ↦ (i, int_slot-lt index n i e, ground arith)
]

tied-eq :
    (cmp : Record → Record → Ordering) (first : Record) (rest : List Record) (i : ℕ) {r : Record}
    → get_elem? rest i ≡ some r
    → i < count_tied cmp first rest
    → cmp first r ≡ Ordering.eq
unfolding count_tied
tied-eq cmp first [] i h k = cc
tied-eq cmp first (x ∷ xs) zero h k = ground arith
tied-eq cmp first (x ∷ xs) (suc i) h k = ground (arith, tied-eq cmp first xs i h)

below_refl : (d : ℤ) (x : Record) → Below d x x
below_refl d x e = cc (int_order.flips (percent d x) (percent d x))

-- The first of a sorted list and those that tie with it are below all of it.
select_first_minimal :
    (d : ℤ) (ds : List ℤ) (xs : List Record) (index : ℕ) {r b : Record} {next : ℕ}
    → Ascends (compare_use (d ∷ ds)) (Below d) (refined d ds) xs
    → select_first (d ∷ ds) xs index ≡ some (r, next)
    → Mem b xs
    → Below d r b
unfolding select_first
select_first_minimal d ds [] index a h m = cc
select_first_minimal d ds (x ∷ xs) index {r} {b} a h m =
    let (i, lt, e) = select_at_inv (x ∷ xs) _ index h in
    let first : Below d x b = All-Mem (Below d x) (λ z. ¬_prop) (x ∷ xs) (below_refl d x, a.0) m in
    subst (λ p. compare_int p (percent d b) ≢ Ordering.gt) (level i lt e) first
  where
    level :
        (i : ℕ)
        → i < 1 + count_tied (compare_least_used_quota (d ∷ ds)) x xs
        → get_elem? (x ∷ xs) i ≡ some r
        → percent d x ≡ percent d r
    level zero lt e = let same : x ≡ r = cc in ap (percent d) same
    level (suc i) lt e =
        int_order.equal _ _ (
          tied_percent d ds x r
            (tied-eq (compare_least_used_quota (d ∷ ds)) x xs i e (omega arith)))

select_sorted_minimal :
    (d : ℤ) (ds : List ℤ) (xs : List Record) (index : ℕ) {r b : Record} {next : ℕ}
    → select_sorted (d ∷ ds) xs index ≡ some (r, next)
    → Mem b xs
    → Below d r b
select_sorted_minimal d ds xs index h m =
    select_first_minimal d ds (sort cmp xs) index (sort-Ascends cmp (Below d) (refined d ds) xs) h
      (Permᴰ.mem (Permᴰ.symm (sort-perm cmp xs)) m)
  where
    cmp : Record → Record → Ordering
    cmp = compare_use (d ∷ ds)

select_with_quota_minimal :
    (d : ℤ) (ds : List ℤ) (timed ys : List Record) (index : ℕ) {r b : Record} {next : ℕ}
    → shared_rate_limit_window_durations timed ≡ d ∷ ds
    → select_with_quota timed ys index ≡ some (r, next)
    → Mem b timed
    → Below d r b
unfolding select_with_quota
select_with_quota_minimal d ds [] ys index s h m = absurd (not-mem-nil m)
select_with_quota_minimal d ds (t ∷ ts) ys index s h m =
    select_sorted_minimal d ds (t ∷ ts) index (rw (s, select_shared) at h) m

select_among_minimal :
    (d : ℤ) (ds : List ℤ) (ys xs : List Record) (index : ℕ) {r b : Record} {next : ℕ}
    → shared_rate_limit_window_durations (keep has_window_durations ys) ≡ d ∷ ds
    → select_among ys xs index ≡ some (r, next)
    → Mem b (keep has_window_durations ys)
    → Below d r b
unfolding select_among
select_among_minimal d ds [] xs index s h m = absurd (not-mem-nil m)
select_among_minimal d ds (y ∷ ys) xs index s h m =
    select_with_quota_minimal d ds (keep has_window_durations (y ∷ ys)) (y ∷ ys) index s h m

-- The candidates that have a window of a known duration.
abbrev pub timed : List Record → List Record
timed xs = keep has_window_durations (keep has_used_percent xs)

-- Where the candidates that have a percentage and a window of known duration share a duration,
-- what selectLeastUsed chooses has used no more of the shortest shared window than any of them.
pub select_least_used_minimal :
    (d : ℤ) (ds : List ℤ) (xs : List Record) (index : ℕ) {r b : Record} {next : ℕ}
    → shared_rate_limit_window_durations (timed xs) ≡ d ∷ ds
    → select_least_used xs index ≡ some (r, next)
    → Mem b (timed xs)
    → Below d r b
unfolding select_least_used
select_least_used_minimal d ds xs index s h m =
    select_among_minimal d ds (keep has_used_percent xs) xs index s h m
