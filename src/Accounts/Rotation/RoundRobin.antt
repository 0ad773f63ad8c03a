-- ===== src/Accounts/Rotation/RoundRobin.antt =====
-- selectRoundRobin: the turn passes over the candidates in the order of their ids.
use mathlib.Core.List.{Permᴰ, Mem}
use mathlib.Core.List.Permᴰ
use mathlib.Core.Logic.{∥∥₁_map}
use native.Mathlib.Nat.{mod-lt}
use chatgpt_codex_proxy.Base.{
  ℕ, ◌+◌, ◌-◌, ◌%◌, ◌<◌, ◌≤◌, ◌≡◌, refl, ap, some, List, length, get_elem?, arith,
}
use chatgpt_codex_proxy.Base.Sort.{sort, sort-perm, sort-perm-eq, text_order}
use chatgpt_codex_proxy.Base.Positions.{
  length-perm, position, get_elem?-Mem, get_elem?-within, turn-reaches,
}
use chatgpt_codex_proxy.Accounts.Types.{Record}
use chatgpt_codex_proxy.Accounts.Rotation.{
  int_limit, next_index, select_at, compare_id, select_round_robin,
}

-- Records that share an id are one record, as in a map.
abbrev pub IdsDistinct : List Record → Type 0
IdsDistinct xs = (a b : Record) → Mem a xs → Mem b xs → a.id ≡ b.id → a ≡ b

-- If candidates with the same id are the same record, selectRoundRobin makes the same choice in
-- whatever order the candidates come.
pub select_round_robin-perm :
    {xs ys : List Record} (index : ℕ)
    → Permᴰ xs ys
    → IdsDistinct xs
    → select_round_robin xs index ≡ select_round_robin ys index
unfolding select_round_robin
select_round_robin-perm index p distinct =
    ap (λ sorted. select_at sorted (length sorted) index)
      (sort-perm-eq (λ r. r.id) text_order p distinct)

pub select_at-within :
    (xs : List Record) (n index p : ℕ) (r : Record)
    → 0 < n
    → index < int_limit
    → index % n ≡ p
    → get_elem? xs p ≡ some r
    → select_at xs n index ≡ some (r, next_index index)
unfolding select_at
select_at-within xs n index p r h k e g = ground arith

abbrev sorted : List Record → List Record
sorted = sort compare_id

length-sorted : (xs : List Record) → length (sorted xs) ≡ length xs
length-sorted xs = length-perm (sort-perm compare_id xs)

turn :
    (xs : List Record) (index p : ℕ) (r : Record)
    → p < length xs
    → index + length xs ≤ int_limit
    → get_elem? (sorted xs) p ≡ some r
    → (j : ℕ) × (j < length xs)
      × (select_round_robin xs (index + j) ≡ some (r, next_index (index + j)))
unfolding select_round_robin
turn xs index p r lt h e = (
  (p + (n - index % n)) % n,
  step,
  select_at-within (sorted xs) (length (sorted xs)) _ p r (omega (arith, length-sorted xs))
      (omega (arith, step)) (rw (length-sorted xs) (turn-reaches index p n lt)) e,
)
  where
    n : ℕ
    n = length xs

    step : (p + (n - index % n)) % n < n
    step = mod-lt (p + (n - index % n)) (omega arith)

-- While the index stays in the range of a Go int, each candidate of selectRoundRobin is chosen
-- within as many calls as there are candidates.
pub select_round_robin_fair :
    (xs : List Record) (r : Record) (index : ℕ)
    → Mem r xs
    → index + length xs ≤ int_limit
    → ∥ (
        (j : ℕ) × (j < length xs)
        × (select_round_robin xs (index + j) ≡ some (r, next_index (index + j)))) ∥₁
select_round_robin_fair xs r index m h =
    ∥∥₁_map (Permᴰ.mem (Permᴰ.symm (sort-perm compare_id xs)) m)
      (λ d. let (p, lt, e) = position d in turn xs index p r (omega (arith, length-sorted xs)) h e)

-- The choice among some candidates is one of them, and the index moves by one.
pub select_round_robin_total :
    (xs : List Record) (index : ℕ)
    → 0 < length xs
    → index < int_limit
    → (r : Record) × (select_round_robin xs index ≡ some (r, next_index index)) × Mem r xs
unfolding select_round_robin
select_round_robin_total xs index h k =
    let (r, e) =
      get_elem?-within (sorted xs) (index % length (sorted xs))
        (mod-lt index (omega (arith, length-sorted xs))) in
    (
      r,
      select_at-within (sorted xs) (length (sorted xs)) index _ r (omega (arith, length-sorted xs))
          k refl e,
      Permᴰ.mem (sort-perm compare_id xs) (get_elem?-Mem (sorted xs) _ e),
    )
