-- ===== src/Accounts/Service/Reads.antt =====
-- service.go: the operations that only refresh and read.
use Prim.Native.String.{compare as compare_text}
use text.Mathlib.Text.{◌==◌ as str_eq}
use chatgpt_codex_proxy.Base.{
  ℕ, Bool, false, ◌||◌, not, Option, none, some, List, [], ◌∷◌, map, String, ltb, compare, Ordering,
  if◌then◌else◌,
}
use chatgpt_codex_proxy.Base.Text.{trim_space, is_empty}
use chatgpt_codex_proxy.Base.Sort.{sort, or_else}
use chatgpt_codex_proxy.Base.Dict.{lookup, values}
use chatgpt_codex_proxy.Accounts.Types.{Record, clone_record, is_active}
use chatgpt_codex_proxy.Accounts.Quota.{is_eligible, record_recovery_at, has_token}
use chatgpt_codex_proxy.Accounts.Service.{
  Env, ambiguous_reference, Result, ok, err, Op, ◌>>=◌, ◌>>◌, return, get, refresh_all, allows,
}

abbrev by_creation : Record → Record → Ordering
by_creation a b = or_else (compare a.created_at b.created_at) (compare_text a.id b.id)

unfoldable pub list : Env → Op (List Record)
unfolding sort
list env = do
  refresh_all env
  s ← get
  return (sort by_creation (map clone_record (values s.records)))

abbrev pub cloned : Option Record → Option Record
cloned none = none
cloned (some r) = some (clone_record r)

-- The record and the Boolean of the code are one Option.
unfoldable pub get_account : Env → String → Op (Option Record)
unfolding lookup
get_account env id = do refresh_all env; s ← get; return (cloned (lookup id s.records))

abbrev refers : (String → String → Bool) → String → Record → Bool
refers equal_fold reference r =
    str_eq r.id reference
    || (str_eq r.account_id reference
        || (equal_fold r.label reference || equal_fold r.email reference))

-- The loop over the records: `err` where two accounts match.
unfoldable pub resolve_among :
    (String → String → Bool) → String → Option Record → List Record → Result (Option Record)
resolve_among equal_fold reference found [] = ok (cloned found)
resolve_among equal_fold reference found (r ∷ rs) =
    let skip = resolve_among equal_fold reference found rs in
    let take = resolve_among equal_fold reference (some r) rs in
    if not (refers equal_fold reference r) then skip else elim found [
      | none ↦ take
      | some m ↦ if str_eq m.id r.id then take else err ambiguous_reference
    ]

-- `strings.EqualFold`, which follows Unicode's tables, is a parameter.
unfoldable pub resolve_reference : (String → String → Bool) → String → Op (Option Record)
unfolding resolve_among
resolve_reference equal_fold reference s =
    let trimmed = trim_space reference in
    if is_empty trimmed
    then (s, ok none)
    else (s, resolve_among equal_fold trimmed none (values s.records))

abbrev pub eligible_in : Option Record → ℕ → Bool
eligible_in none now = false
eligible_in (some r) now = is_eligible r now

unfoldable pub eligible_now : Env → String → Op Bool
unfolding lookup
eligible_now env id = do
  refresh_all env
  s ← get
  return (eligible_in (lookup id s.records) env.now)

-- The earlier of the deadline so far and a new one.
abbrev pub earlier : Option ℕ → Option ℕ → Option ℕ
earlier so_far none = so_far
earlier none (some t) = some t
earlier (some e) (some t) = if ltb t e then some t else some e

abbrev pub recovery_of : Option (Record → Bool) → ℕ → Record → Option ℕ
recovery_of allow now r =
    if not (is_active r.status)
    then none
    else if not (has_token r)
    then none
    else if not (allows allow (clone_record r))
    then none
    else record_recovery_at r now

unfoldable pub earliest_among : Option (Record → Bool) → ℕ → Option ℕ → List Record → Option ℕ
unfolding record_recovery_at
earliest_among allow now so_far [] = so_far
earliest_among allow now so_far (r ∷ rs) =
    earliest_among allow now (earlier so_far (recovery_of allow now r)) rs

unfoldable pub earliest_availability : Env → Option (Record → Bool) → Op (Option ℕ)
unfolding earliest_among
earliest_availability env allow = do
  refresh_all env
  s ← get
  return (earliest_among allow env.now none (values s.records))
