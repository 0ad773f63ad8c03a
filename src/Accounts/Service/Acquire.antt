-- ===== src/Accounts/Service/Acquire.antt =====
-- service.go: the choice of an account for a request.
use text.Mathlib.Text.{◌==◌ as str_eq}
use chatgpt_codex_proxy.Base.{
  ℕ, Bool, ◌&&◌, Option, none, some, List, [], ◌∷◌, map, String, keep, if◌then◌else◌,
}
use chatgpt_codex_proxy.Base.Text.{is_empty}
use chatgpt_codex_proxy.Base.Dict.{lookup, values}
use chatgpt_codex_proxy.Accounts.Types.{Record, clone_record}
use chatgpt_codex_proxy.Accounts.Quota.{is_eligible}
use chatgpt_codex_proxy.Accounts.Rotation.{select_round_robin, select_least_used}
use chatgpt_codex_proxy.Accounts.Service.{
  Service, Env, no_active_accounts, RotationStrategy, round_robin, sticky, Result, ok, err, panic,
  Op, ◌>>◌, refresh_all, allows,
}

-- A copy of a record of the map, if it is eligible and allowed.
abbrev pub usable : Option (Record → Bool) → ℕ → Option Record → Option Record
usable allow now none = none
usable allow now (some r) =
    if is_eligible r now && allows allow (clone_record r) then some (clone_record r) else none

abbrev pub preferred_of : Option (Record → Bool) → ℕ → String → Service → Option Record
preferred_of allow now preferred_id s =
    if is_empty preferred_id then none else usable allow now (lookup preferred_id s.records)

-- The candidates, in the order in which the map yields them.
unfoldable pub candidates_of : Option (Record → Bool) → ℕ → List Record → List Record
candidates_of allow now rs =
    keep (allows allow) (map clone_record (keep (λ r. is_eligible r now) rs))

-- The result of a selection, which moves the index.
abbrev pub selected : Service → Option (Record × ℕ) → Service × Result Record
selected s none = (s, panic)
selected s (some (r, index)) = (record s { round_robin_index = index }, ok (clone_record r))

unfoldable pub find_id : String → List Record → Option Record
find_id id [] = none
find_id id (r ∷ rs) = let rest = find_id id rs in if str_eq r.id id then some r else rest

abbrev pub sticky_of : String → List Record → Option Record
sticky_of id rs = if is_empty id then none else find_id id rs

-- The switch on the strategy, over candidates that there are.
unfoldable pub choose : RotationStrategy → List Record → Op Record
unfolding find_id select_round_robin select_least_used
choose round_robin rs s = selected s (select_round_robin rs s.round_robin_index)
choose sticky rs s = elim (sticky_of s.sticky_account_id rs) [
  | some r ↦ (s, ok (clone_record r))
  | none ↦ selected s (select_least_used rs s.round_robin_index)
]
choose _ rs s = selected s (select_least_used rs s.round_robin_index)

unfoldable pub choose_among : List Record → Op Record
unfolding choose
choose_among [] s = (s, err no_active_accounts)
choose_among (r ∷ rs) s = choose s.rotation_strategy (r ∷ rs) s

-- `acquireMatchingLocked`
unfoldable pub acquire_matching_locked : String → Option (Record → Bool) → ℕ → Op Record
unfolding choose_among candidates_of lookup
acquire_matching_locked preferred_id allow now s = elim (preferred_of allow now preferred_id s) [
  | some r ↦ (s, ok r)
  | none ↦ choose_among (candidates_of allow now (values s.records)) s
]

unfoldable pub acquire_matching : Env → String → Option (Record → Bool) → Op Record
unfolding acquire_matching_locked
acquire_matching env preferred_id allow = do
  refresh_all env
  acquire_matching_locked preferred_id allow env.now

unfoldable pub acquire : Env → String → Op Record
unfolding acquire_matching
acquire env preferred_id = acquire_matching env preferred_id none
