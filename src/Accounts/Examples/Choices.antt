-- ===== src/Accounts/Examples/Choices.antt =====
-- Examples of the choice among concrete accounts.
use mathlib.Core.List.{Mem, Memᴰ}
use mathlib.Core.Logic.{∥∥₁_elim}
use std.HLevel.{hedberg}
use text.Mathlib.Text.{◌==◌ as str_eq}
use text.Mathlib.TextEquality.{eq_iff}
use chatgpt_codex_proxy.Base.{
  Bool-cases, ap, sym, ◌∙◌, ℕ, ◌+◌, ◌≡◌, ◌<◌, refl, some, List, [], ◌∷◌, String, arith, length, inl,
  inr, Ordering,
}
use chatgpt_codex_proxy.Base.Int.{pos}
use chatgpt_codex_proxy.Accounts.Types.{Record}
use chatgpt_codex_proxy.Accounts.Rotation.{
  select_round_robin, select_least_used, shared_rate_limit_window_durations,
  rate_limit_windows_by_duration, percent_at, compare_use, next_index,
}
use chatgpt_codex_proxy.Accounts.Rotation.RoundRobin.{IdsDistinct, select_round_robin_fair}
use chatgpt_codex_proxy.Accounts.Rotation.LeastUsed.{select_least_used_total}
use chatgpt_codex_proxy.Accounts.Rotation.Minimal.{Below, timed, select_least_used_minimal}
use chatgpt_codex_proxy.Accounts.Rotation.Consistency.{compare_use_cycle}
use chatgpt_codex_proxy.Accounts.Examples.{minute, a_late, b_open, c_early, three}

compare_use_cycle_example :
    (compare_use (pos 60 ∷ []) a_late b_open ≡ Ordering.lt)
    × (compare_use (pos 60 ∷ []) b_open c_early ≡ Ordering.lt)
    × (compare_use (pos 60 ∷ []) c_early a_late ≡ Ordering.lt)
unfolding percent_at rate_limit_windows_by_duration
compare_use_cycle_example =
    compare_use_cycle (pos 60) a_late b_open c_early 90 50 refl refl refl refl refl (omega arith)
      refl refl

three-shared : shared_rate_limit_window_durations three ≡ pos 60 ∷ []
unfolding shared_rate_limit_window_durations
three-shared = refl

in_three : Mem b_open three
in_three = ∣ Memᴰ.tail (Memᴰ.head refl) ∣₁

minute_shared : Mem (pos 60) (shared_rate_limit_window_durations three)
unfolding shared_rate_limit_window_durations
minute_shared = ∣ Memᴰ.head refl ∣₁

select_round_robin_fair_example : ∥ (
    (j : ℕ) × (j < length three)
    × (select_round_robin three (7 + j) ≡ some (b_open, next_index (7 + j)))) ∥₁
select_round_robin_fair_example = select_round_robin_fair three b_open 7 in_three (omega arith)

select_least_used_total_example :
    (r : Record) × (select_least_used three 4 ≡ some (r, next_index 4)) × Mem r three
select_least_used_total_example = select_least_used_total three 4 (omega arith) (omega arith)

String-set : IsSet String
String-set = hedberg (λ x y. elim (Bool-cases (str_eq x y)) [
  | inl t ↦ Dec.yes ((eq_iff x y).0 t)
  | inr t ↦ Dec.no (λ e. absurd (cc ((eq_iff x y).1 e)))
])

Record-set : IsSet Record
Record-set = hlevel String-set

apart : Path String "a" "b" → ⊥
apart e = absurd (cc ((eq_iff "a" "b").1 e))

two_distinct : IdsDistinct (a_late ∷ b_open ∷ [])
two_distinct a b ma mb e =
    ∥∥₁_elim ma (Record-set _ _) (λ p. ∥∥₁_elim mb (Record-set _ _) (λ q. same p q))
  where
    same : Memᴰ a (a_late ∷ b_open ∷ []) → Memᴰ b (a_late ∷ b_open ∷ []) → a ≡ b
    same (Memᴰ.head p) (Memᴰ.head q) = p ∙ sym q
    same (Memᴰ.head p) (Memᴰ.tail (Memᴰ.head q)) =
        absurd (apart (sym (ap (λ r. r.id) p) ∙ e ∙ ap (λ r. r.id) q))
    same (Memᴰ.tail (Memᴰ.head p)) (Memᴰ.head q) =
        absurd (apart (sym (sym (ap (λ r. r.id) p) ∙ e ∙ ap (λ r. r.id) q)))
    same (Memᴰ.tail (Memᴰ.head p)) (Memᴰ.tail (Memᴰ.head q)) = p ∙ sym q
    same (Memᴰ.tail (Memᴰ.tail p)) q = elim p [ ]
    same (Memᴰ.head _) (Memᴰ.tail (Memᴰ.tail q)) = elim q [ ]
    same (Memᴰ.tail (Memᴰ.head _)) (Memᴰ.tail (Memᴰ.tail q)) = elim q [ ]

abbrev used_less : Record
used_less = minute "d" (pos 2) (some 70)

abbrev pair : List Record
pair = a_late ∷ used_less ∷ []

pair_shared : shared_rate_limit_window_durations (timed pair) ≡ pos 60 ∷ []
unfolding shared_rate_limit_window_durations
pair_shared = refl

pair_choice : select_least_used pair 0 ≡ some (used_less, 1)
unfolding select_least_used shared_rate_limit_window_durations
pair_choice = refl

in_pair : Mem a_late (timed pair)
unfolding rate_limit_windows_by_duration
in_pair = ∣ Memᴰ.head refl ∣₁

select_least_used_minimal_example : Below (pos 60) used_less a_late
select_least_used_minimal_example =
    select_least_used_minimal (pos 60) [] pair 0 pair_shared pair_choice in_pair
