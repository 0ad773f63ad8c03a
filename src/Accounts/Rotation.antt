-- ===== src/Accounts/Rotation.antt =====
-- internal/accounts/rotation.go: the choice among candidates. `none` is a runtime panic. The index is a Go int,
-- kept as its 64 bits. `slices.SortFunc` is its insertion sort, which Go runs on up to 12 elements; for
-- a linear order every sort gives that list.
pub mod RoundRobin
pub mod LeastUsed
pub mod Minimal
pub mod Consistency
use chatgpt_codex_proxy.Base.{
  ℕ, ◌+◌, ◌-◌, ◌%◌, Bool, true, false, Option, none, some, List, [], ◌∷◌, ◌++◌, String, ltb, ◌==◌,
  if◌then◌else◌, compare, Ordering, length, get_elem?, keep, is_some,
}
use Prim.Native.String.{compare as compare_text}
use chatgpt_codex_proxy.Base.Int.{ℤ, pos, compare_int, is_positive, eq_int}
use chatgpt_codex_proxy.Base.Sort.{or_else, sort}
use chatgpt_codex_proxy.Accounts.Types.{RateLimitWindow, QuotaSnapshot, Record}

abbrev pub int_limit : ℕ
int_limit = 0x8000000000000000

abbrev pub word : ℕ
word = 0x10000000000000000

-- `index % n` as a position: the remainder of a negative index is not above 0, and dividing by 0
-- or reading before the first element panics.
unfoldable pub int_slot : ℕ → ℕ → Option ℕ
int_slot index n =
    if n == 0
    then none
    else if ltb index int_limit
    then some (index % n)
    else if (word - index) % n == 0
    then some 0
    else none

abbrev pub next_index : ℕ → ℕ
next_index index = (index + 1) % word

-- The element at the index, and the index of the next call.
unfoldable pub select_at : List Record → ℕ → ℕ → Option (Record × ℕ)
unfolding int_slot
select_at sorted n index = elim (int_slot index n) [
  | none ↦ none
  | some i ↦ elim (get_elem? sorted i) [ none ↦ none | some r ↦ some (r, next_index index) ]
]

abbrev pub compare_id : Record → Record → Ordering
compare_id a b = compare_text a.id b.id

unfoldable pub select_round_robin : List Record → ℕ → Option (Record × ℕ)
unfolding select_at sort
select_round_robin candidates index =
    let sorted = sort compare_id candidates in select_at sorted (length sorted) index

-- A map from durations to windows, of two entries at most.
abbrev pub Windows : Type 0
Windows = List (ℤ × RateLimitWindow)

unfoldable pub find_window : ℤ → Windows → Option RateLimitWindow
find_window d [] = none
find_window d ((e, w) ∷ ws) = if eq_int e d then some w else find_window d ws

-- The duration under which a window is entered, if it is.
abbrev pub window_duration : RateLimitWindow → Option ℤ
window_duration w = elim w.used_percent [
  | none ↦ none
  | some _ ↦ elim w.limit_window_seconds [
    | none ↦ none
    | some d ↦ if is_positive d then some d else none
  ]
]

abbrev pub add_window : Windows → Option RateLimitWindow → Windows
add_window ws none = ws
add_window ws (some w) = elim (window_duration w) [
  | none ↦ ws
  | some d ↦ if is_some (find_window d ws) then ws else ws ++ ((d, w) ∷ [])
]

unfoldable pub rate_limit_windows_by_duration : Option QuotaSnapshot → Windows
unfolding find_window
rate_limit_windows_by_duration none = []
rate_limit_windows_by_duration (some q) =
    add_window (add_window [] (some q.rate_limit)) q.secondary_rate_limit

abbrev pub windows_of : Record → Windows
windows_of r = rate_limit_windows_by_duration r.cached_quota

abbrev pub durations : Windows → List ℤ
durations [] = []
durations ((d, w) ∷ ws) = d ∷ durations ws

-- The durations left when each record's absent ones are deleted.
unfoldable pub shared_among : List ℤ → List Record → List ℤ
unfolding rate_limit_windows_by_duration
shared_among ds [] = ds
shared_among ds (r ∷ rs) = shared_among (keep (λ d. is_some (find_window d (windows_of r))) ds) rs

unfoldable pub shared_rate_limit_window_durations : List Record → List ℤ
unfolding shared_among sort
shared_rate_limit_window_durations [] = []
shared_rate_limit_window_durations (r ∷ rs) =
    sort compare_int (shared_among (durations (windows_of r)) rs)

-- `*windows[d].UsedPercent`; a missing one, where the code would panic, reads as 0.
unfoldable pub percent_at : Windows → ℤ → Option ℤ
unfolding find_window
percent_at ws d = elim (find_window d ws) [ none ↦ none | some w ↦ w.used_percent ]

abbrev pub or_zero : Option ℤ → ℤ
or_zero none = pos 0
or_zero (some p) = p

abbrev pub reset_at_duration : Windows → ℤ → Option ℕ
reset_at_duration ws d = elim (find_window d ws) [ none ↦ none | some w ↦ w.reset_at ]

unfoldable pub compare_percents : Windows → Windows → List ℤ → Ordering
unfolding percent_at
compare_percents a b [] = Ordering.eq
compare_percents a b (d ∷ ds) =
    or_else (compare_int (or_zero (percent_at a d)) (or_zero (percent_at b d)))
      (compare_percents a b ds)

-- Only where both are known.
abbrev pub compare_known : Option ℕ → Option ℕ → Ordering
compare_known (some s) (some t) = compare s t
compare_known none _ = Ordering.eq
compare_known (some s) none = Ordering.eq

unfoldable pub compare_resets : Windows → Windows → List ℤ → Ordering
unfolding find_window
compare_resets a b [] = Ordering.eq
compare_resets a b (d ∷ ds) =
    or_else (compare_known (reset_at_duration a d) (reset_at_duration b d)) (compare_resets a b ds)

abbrev pub primary_percent : Option QuotaSnapshot → ℤ
primary_percent none = pos 0
primary_percent (some q) = or_zero q.rate_limit.used_percent

abbrev pub secondary_percent : Option QuotaSnapshot → Option ℤ
secondary_percent none = none
secondary_percent (some q) = elim q.secondary_rate_limit [ none ↦ none | some w ↦ w.used_percent ]

abbrev pub primary_reset : Option QuotaSnapshot → Option ℕ
primary_reset none = none
primary_reset (some q) = q.rate_limit.reset_at

abbrev pub compare_known_int : Option ℤ → Option ℤ → Ordering
compare_known_int (some s) (some t) = compare_int s t
compare_known_int none _ = Ordering.eq
compare_known_int (some s) none = Ordering.eq

unfoldable pub compare_legacy_least_used_quota :
    Option QuotaSnapshot → Option QuotaSnapshot → Ordering
compare_legacy_least_used_quota a b =
    or_else (compare_int (primary_percent a) (primary_percent b)) (
      or_else (compare_known_int (secondary_percent a) (secondary_percent b))
        (compare_known (primary_reset a) (primary_reset b)))

unfoldable pub compare_least_used_quota : List ℤ → Record → Record → Ordering
unfolding compare_legacy_least_used_quota compare_percents compare_resets
    rate_limit_windows_by_duration
compare_least_used_quota [] a b = compare_legacy_least_used_quota a.cached_quota b.cached_quota
compare_least_used_quota (d ∷ ds) a b =
    or_else (compare_percents (windows_of a) (windows_of b) (d ∷ ds))
      (compare_resets (windows_of a) (windows_of b) (d ∷ ds))

-- The order that the candidates are sorted by.
abbrev pub compare_use : List ℤ → Record → Record → Ordering
compare_use shared a b = or_else (compare_least_used_quota shared a b) (compare_id a b)

-- How many at the front tie with the first.
unfoldable pub count_tied : (Record → Record → Ordering) → Record → List Record → ℕ
count_tied cmp first [] = 0
count_tied cmp first (r ∷ rs) =
    let more = count_tied cmp first rs + 1 in elim (cmp first r) [ Ordering.eq ↦ more | _ ↦ 0 ]

unfoldable pub select_first : List ℤ → List Record → ℕ → Option (Record × ℕ)
unfolding select_at count_tied compare_least_used_quota
select_first shared [] index = none
select_first shared (first ∷ rest) index =
    select_at (first ∷ rest) (1 + count_tied (compare_least_used_quota shared) first rest) index

abbrev pub has_used_percent : Record → Bool
has_used_percent r = elim r.cached_quota [
  | none ↦ false
  | some q ↦ is_some q.rate_limit.used_percent
]

abbrev pub has_window_durations : Record → Bool
has_window_durations r = elim (windows_of r) [ [] ↦ false | _ ∷ _ ↦ true ]

-- The first of the least used, in a turn that moves among those that tie.
abbrev pub select_sorted : List ℤ → List Record → ℕ → Option (Record × ℕ)
select_sorted shared candidates index =
    select_first shared (sort (compare_use shared) candidates) index

select_shared : List ℤ → List Record → ℕ → Option (Record × ℕ)
unfolding select_first select_round_robin
select_shared [] candidates index = select_round_robin candidates index
select_shared (d ∷ ds) candidates index = select_sorted (d ∷ ds) candidates index

-- The candidates with a quota are known to be some.
select_with_quota : List Record → List Record → ℕ → Option (Record × ℕ)
unfolding select_shared
select_with_quota [] with_quota index = select_sorted [] with_quota index
select_with_quota (r ∷ rs) with_quota index =
    select_shared (shared_rate_limit_window_durations (r ∷ rs)) (r ∷ rs) index

select_among : List Record → List Record → ℕ → Option (Record × ℕ)
unfolding select_with_quota
select_among [] candidates index = select_round_robin candidates index
select_among (r ∷ rs) candidates index =
    select_with_quota (keep has_window_durations (r ∷ rs)) (r ∷ rs) index

unfoldable pub select_least_used : List Record → ℕ → Option (Record × ℕ)
unfolding select_among
select_least_used candidates index =
    select_among (keep has_used_percent candidates) candidates index
