-- ===== src/Accounts/Rotation/LeastUsed.antt =====
-- selectLeastUsed: no missing window is read, a candidate is always found, and it is one of the least used.
use mathlib.Core.List.{Mem}
use mathlib.Core.List.Permᴰ
use native.Mathlib.Nat.{mod-lt}
use chatgpt_codex_proxy.Base.{
  ℕ, ◌+◌, ◌%◌, ◌<◌, ◌≤◌, ◌≡◌, refl, Option, some, List, [], ◌∷◌, length, arith, keep, Ordering,
}
use chatgpt_codex_proxy.Base.Int.{ℤ}
use chatgpt_codex_proxy.Base.Sort.{sort, sort-perm}
use chatgpt_codex_proxy.Base.Positions.{length-perm, get_elem?-Mem, get_elem?-within, keep-sub}
use chatgpt_codex_proxy.Accounts.Types.{Record}
use chatgpt_codex_proxy.Accounts.Rotation.RoundRobin.{select_at-within, select_round_robin_total}
use chatgpt_codex_proxy.Accounts.Rotation.{
  int_limit, next_index, select_least_used, select_first, count_tied, compare_use,
  compare_least_used_quota, has_used_percent, has_window_durations,
  shared_rate_limit_window_durations, select_sorted, select_shared, select_with_quota, select_among,
}

count_tied-le :
    (cmp : Record → Record → Ordering) (r : Record) (rs : List Record)
    → count_tied cmp r rs ≤ length rs
unfolding count_tied
count_tied-le cmp r [] = omega arith
count_tied-le cmp r (x ∷ xs) = ground (arith, count_tied-le cmp r xs)

-- A selection from a list: some element of it, with the next index.
abbrev pub Selects : List Record → ℕ → Option (Record × ℕ) → Type 0
Selects xs index s = (r : Record) × (s ≡ some (r, next_index index)) × Mem r xs

select_first-Selects :
    (shared : List ℤ) (xs : List Record) (index : ℕ)
    → 0 < length xs
    → index < int_limit
    → Selects xs index (select_first shared xs index)
unfolding select_first
select_first-Selects shared [] index h k = elim h [ ]
select_first-Selects shared (x ∷ xs) index h k =
    let n : ℕ = 1 + count_tied (compare_least_used_quota shared) x xs in
    let within : index % n < n = mod-lt index (omega arith) in
    let (r, e) =
      get_elem?-within (x ∷ xs) (index % n)
        (omega (arith, within, count_tied-le (compare_least_used_quota shared) x xs)) in
    (r, select_at-within (x ∷ xs) n index _ r (omega arith) k refl e, get_elem?-Mem (x ∷ xs) _ e)

select_sorted-Selects :
    (shared : List ℤ) (xs : List Record) (index : ℕ)
    → 0 < length xs
    → index < int_limit
    → Selects xs index (select_sorted shared xs index)
select_sorted-Selects shared xs index h k =
    let p = sort-perm (compare_use shared) xs in
    let (r, e, m) =
      select_first-Selects shared (sort (compare_use shared) xs) index
        (omega (arith, length-perm p)) k in
    (r, e, Permᴰ.mem p m)

select_shared-Selects :
    (shared : List ℤ) (xs : List Record) (index : ℕ)
    → 0 < length xs
    → index < int_limit
    → Selects xs index (select_shared shared xs index)
unfolding select_shared
select_shared-Selects [] xs index h k = select_round_robin_total xs index h k
select_shared-Selects (d ∷ ds) xs index h k = select_sorted-Selects (d ∷ ds) xs index h k

select_with_quota-Selects :
    (timed with_quota : List Record) (index : ℕ)
    → ((r : Record) → Mem r timed → Mem r with_quota)
    → 0 < length with_quota
    → index < int_limit
    → Selects with_quota index (select_with_quota timed with_quota index)
unfolding select_with_quota
select_with_quota-Selects [] ys index sub h k = select_sorted-Selects [] ys index h k
select_with_quota-Selects (x ∷ xs) ys index sub h k =
    let (r, e, m) =
      select_shared-Selects (shared_rate_limit_window_durations (x ∷ xs)) (x ∷ xs) index
        (omega arith) k in
    (r, e, sub r m)

select_among-Selects :
    (with_quota xs : List Record) (index : ℕ)
    → ((r : Record) → Mem r with_quota → Mem r xs)
    → 0 < length xs
    → index < int_limit
    → Selects xs index (select_among with_quota xs index)
unfolding select_among
select_among-Selects [] xs index sub h k = select_round_robin_total xs index h k
select_among-Selects (y ∷ ys) xs index sub h k =
    let (r, e, m) =
      select_with_quota-Selects (keep has_window_durations (y ∷ ys)) (y ∷ ys) index
        (λ r. keep-sub has_window_durations (y ∷ ys)) (omega arith) k in
    (r, e, sub r m)

-- From one candidate or more, with an index in the range of a non-negative Go int, selectLeastUsed
-- returns one of the candidates without a panic, and the index moves by one, modulo 2 ^ 64.
pub select_least_used_total :
    (xs : List Record) (index : ℕ)
    → 0 < length xs
    → index < int_limit
    → (r : Record) × (select_least_used xs index ≡ some (r, next_index index)) × Mem r xs
unfolding select_least_used
select_least_used_total xs index h k =
    select_among-Selects (keep has_used_percent xs) xs index (λ r. keep-sub has_used_percent xs) h k
