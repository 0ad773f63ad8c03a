-- ===== src/Continuations.antt =====
-- internal/conversation/continuation.go: the records that a response can be continued from. An item of the input is
-- a type of the caller.
pub mod Lookup
mod Examples
use Prim.Native.Nat.{compare}
use Prim.Native.String.{compare as compare_text}
use text.Mathlib.Text.{◌==◌ as str_eq}
use chatgpt_codex_proxy.Base.{
  ℕ, ◌+◌, ◌-◌, Bool, true, false, not, Option, none, some, List, [], ◌∷◌, String, ltb,
  if◌then◌else◌, keep, Ordering,
}
use chatgpt_codex_proxy.Base.Int.{ℤ, pos, negsuc}
use chatgpt_codex_proxy.Base.Text.{trim_space, is_empty}
use chatgpt_codex_proxy.Base.Sort.{sort, or_else}
use chatgpt_codex_proxy.Base.Dict.{Dict, lookup, insert, delete, delete_where, values}

pub record ContinuationRecord (I : Type 0) : Type 0 where
  pub response_id : String
  pub account_id : String
  pub conversation_key : String
  pub turn_state : String
  pub instructions : String
  pub model : String
  pub input_history : List I
  pub function_call_ids : List String
  pub tool_name_aliases : Dict String
  pub created_at : ℕ
  pub expires_at : ℕ

pub record ContinuationManager (I : Type 0) : Type 0 where
  pub ttl : ℤ
  pub records : Dict (ContinuationRecord I)

-- `t.Add(d)`; a time before Go's zero time reads as it.
abbrev pub add_duration : ℕ → ℤ → ℕ
add_duration t (pos d) = t + d
add_duration t (negsuc d) = t - (d + 1)

module _ {I : Type 0} where
  unfoldable pub new_continuation_manager : ℤ → ContinuationManager I
  new_continuation_manager ttl = record { ttl = ttl; records = [] }

  -- The two stamps read the clock one after the other.
  abbrev pub stamped : ℕ → ℕ → ℤ → ContinuationRecord I → ContinuationRecord I
  stamped now later ttl r = record r { created_at = now; expires_at = add_duration later ttl }

  unfoldable pub put_record :
      ℕ → ℕ → ContinuationRecord I → ContinuationManager I → ContinuationManager I
  unfolding insert
  put_record now later r m = record m {
    records = insert r.response_id (stamped now later m.ttl r) m.records;
  }

  -- `now.After(record.ExpiresAt)`
  abbrev pub is_expired : ℕ → ContinuationRecord I → Bool
  is_expired now r = ltb r.expires_at now

  abbrev pub unexpired : ℕ → Option (ContinuationRecord I) → Option (ContinuationRecord I)
  unexpired now none = none
  unexpired now (some r) = if is_expired now r then none else some r

  -- `Get` under its read lock: the answer.
  unfoldable pub read_record : ℕ → String → ContinuationManager I → Option (ContinuationRecord I)
  unfolding lookup
  read_record now id m = unexpired now (lookup id m.records)

  abbrev pub finds_expired : ℕ → Option (ContinuationRecord I) → Bool
  finds_expired now none = false
  finds_expired now (some r) = is_expired now r

  -- `Get` after it: what it deletes, under a lock of its own, where the record that it read had expired.
  unfoldable pub forget_record : Bool → String → ContinuationManager I → ContinuationManager I
  unfolding delete
  forget_record expired id m = if expired then record m { records = delete id m.records } else m

  -- `Get` where nobody comes between its two locks.
  unfoldable pub get_continuation :
      ℕ → String → ContinuationManager I → ContinuationManager I × Option (ContinuationRecord I)
  unfolding read_record forget_record
  get_continuation now id m =
      (forget_record (finds_expired now (lookup id m.records)) id m, read_record now id m)

  unfoldable pub sweep : ℕ → ContinuationManager I → ContinuationManager I
  unfolding delete_where
  sweep now m = record m { records = delete_where (is_expired now) m.records }

  abbrev pub newest_first : ContinuationRecord I → ContinuationRecord I → Ordering
  newest_first a b =
      or_else (compare b.created_at a.created_at) (compare_text a.response_id b.response_id)

  unfoldable pub list_all :
      ℕ → ContinuationManager I → ContinuationManager I × List (ContinuationRecord I)
  unfolding delete_where sort
  list_all now m = (
    record m { records = delete_where (is_expired now) m.records },
    sort newest_first (keep (λ r. not (is_expired now r)) (values m.records)),
  )

  unfoldable pub list_by_conversation :
      ℕ → String → ContinuationManager I → ContinuationManager I × List (ContinuationRecord I)
  unfolding list_all
  list_by_conversation now raw_key m =
      let key = trim_space raw_key in
      let (after, records) = list_all now m in
      if is_empty key
      then (m, [])
      else (after, keep (λ r. str_eq (trim_space r.conversation_key) key) records)
