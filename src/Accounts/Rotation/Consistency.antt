-- ===== src/Accounts/Rotation/Consistency.antt =====
-- compareLeastUsedQuota: every window that it reads is there; with a reset that is not known it is no
-- linear order.
use mathlib.Core.List.{Mem, Memᴰ}
use mathlib.Core.List.Permᴰ
use mathlib.Core.Logic.{∥∥₁_elim}
use chatgpt_codex_proxy.Base.{
  ℕ, ◌<◌, ◌≡◌, sym, subst, Bool, true, Option, none, some, List, [], ◌∷◌, arith, keep, Ordering,
  is_some,
}
use chatgpt_codex_proxy.Base.Int.{ℤ, compare_int, eq_int}
use chatgpt_codex_proxy.Base.Sort.{sort-perm}
use chatgpt_codex_proxy.Base.Positions.{keep-sub, keep-holds}
use chatgpt_codex_proxy.Accounts.Types.{QuotaSnapshot, Record}
use chatgpt_codex_proxy.Accounts.Rotation.{
  Windows, find_window, rate_limit_windows_by_duration, durations, windows_of, shared_among,
  shared_rate_limit_window_durations, percent_at, reset_at_duration, compare_use, compare_id,
  compare_least_used_quota,
}

-- A window that is entered has its percentage.
HasPercent : Windows → Type 0
HasPercent ws = (d : ℤ) → is_some (find_window d ws) ≡ true → is_some (percent_at ws d) ≡ true

windows-HasPercent :
    (q : Option QuotaSnapshot) (d : ℤ)
    → is_some (find_window d (rate_limit_windows_by_duration q)) ≡ true
    → is_some (percent_at (rate_limit_windows_by_duration q) d) ≡ true
unfolding rate_limit_windows_by_duration percent_at
windows-HasPercent none d h = h
windows-HasPercent (some q) d h = ground arith

eq_int_refl : (d : ℤ) → eq_int d d ≡ true
eq_int_refl d = ground arith

find_window-durations :
    (ws : Windows) (d : ℤ) → Memᴰ d (durations ws) → is_some (find_window d ws) ≡ true
unfolding find_window
find_window-durations [] d m = elim m [ ]
find_window-durations ((e, w) ∷ ws) d (Memᴰ.head h) = ground (arith, eq_int_refl d)
find_window-durations ((e, w) ∷ ws) d (Memᴰ.tail m) = ground (arith, find_window-durations ws d m)

shared_among-found :
    (ds : List ℤ) (rs : List Record) (d : ℤ) (r : Record)
    → Mem d (shared_among ds rs)
    → Mem d ds × (Memᴰ r rs → is_some (find_window d (windows_of r)) ≡ true)
unfolding shared_among
shared_among-found ds [] d r m = (m, λ k. elim k [ ])
shared_among-found ds (x ∷ xs) d r m =
    let test : ℤ → Bool = λ e. is_some (find_window e (windows_of x)) in
    let (kept, later) = shared_among-found (keep test ds) xs d r m in
    (keep-sub test ds kept, at test kept later)
  where
    at :
        (test : ℤ → Bool)
        → Mem d (keep (λ e. is_some (find_window e (windows_of x))) ds)
        → (Memᴰ r xs → is_some (find_window d (windows_of r)) ≡ true)
        → Memᴰ r (x ∷ xs)
        → is_some (find_window d (windows_of r)) ≡ true
    at test kept later (Memᴰ.head e) =
        subst (λ y. is_some (find_window d (windows_of y)) ≡ true) (sym e) (keep-holds _ ds kept)
    at test kept later (Memᴰ.tail k) = later k

Bool-set : IsSet Bool
Bool-set = hlevel

shared-present :
    (rs : List Record) (d : ℤ) (r : Record)
    → Mem d (shared_rate_limit_window_durations rs)
    → Memᴰ r rs
    → is_some (find_window d (windows_of r)) ≡ true
unfolding shared_rate_limit_window_durations
shared-present [] d r m k = elim k [ ]
shared-present (x ∷ xs) d r m k =
    let (first, later) =
      shared_among-found (durations (windows_of x)) xs d r
        (Permᴰ.mem (sort-perm compare_int _) m) in
    at first later k
  where
    at :
        Mem d (durations (windows_of x))
        → (Memᴰ r xs → is_some (find_window d (windows_of r)) ≡ true)
        → Memᴰ r (x ∷ xs)
        → is_some (find_window d (windows_of r)) ≡ true
    at first later (Memᴰ.head e) =
        subst (λ y. is_some (find_window d (windows_of y)) ≡ true) (sym e)
          (∥∥₁_elim first (Bool-set _ _) (find_window-durations (windows_of x) d))
    at first later (Memᴰ.tail k') = later k'

-- At every duration that the candidates share, the window of each candidate and its percentage,
-- which compareLeastUsedQuota reads through pointers, are there.
pub shared_percent_present :
    (rs : List Record) (d : ℤ) (r : Record)
    → Mem d (shared_rate_limit_window_durations rs)
    → Mem r rs
    → is_some (percent_at (windows_of r) d) ≡ true
shared_percent_present rs d r m k =
    ∥∥₁_elim k (Bool-set _ _)
      (λ k'. windows-HasPercent r.cached_quota d (shared-present rs d r m k'))

-- Three records with equal percentages of a shared window and ascending ids, of which the first
-- and the third have a known reset and the third's is earlier, go round in the order that
-- selectLeastUsed sorts by: the first before the second, the second before the third and the third
-- before the first.
pub compare_use_cycle :
    (d : ℤ) (a b c : Record) (s t : ℕ)
    → percent_at (windows_of a) d ≡ percent_at (windows_of b) d
    → percent_at (windows_of b) d ≡ percent_at (windows_of c) d
    → reset_at_duration (windows_of a) d ≡ some s
    → reset_at_duration (windows_of b) d ≡ none
    → reset_at_duration (windows_of c) d ≡ some t
    → t < s
    → compare_id a b ≡ Ordering.lt
    → compare_id b c ≡ Ordering.lt
    → (compare_use (d ∷ []) a b ≡ Ordering.lt)
      × (compare_use (d ∷ []) b c ≡ Ordering.lt)
      × (compare_use (d ∷ []) c a ≡ Ordering.lt)
unfolding compare_least_used_quota
compare_use_cycle d a b c s t p q ra rb rc lt ab bc = ground arith
