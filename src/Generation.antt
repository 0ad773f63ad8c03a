-- ===== src/Generation.antt =====
-- internal/generation/store.go: the calls of the upstream, while they run and in the log of a day. The files are
-- parameters: the records of a day as they are read.
pub mod Redact
pub mod Paging
pub mod Lost
pub mod Bounds
mod Examples
use text.Mathlib.Text.{◌==◌ as str_eq}
use chatgpt_codex_proxy.Base.{
  ℕ, zero, suc, ◌+◌, ◌-◌, ◌/◌, Bool, true, false, ◌&&◌, ◌||◌, not, Option, none, some, List, [],
  ◌∷◌, ◌++◌, String, ltb, leb, ◌==◌, length, get_elem?, set, if◌then◌else◌,
}
use chatgpt_codex_proxy.Base.Int.{ℤ, pos, negsuc}
use chatgpt_codex_proxy.Base.Text.{trim_space, is_empty}
use chatgpt_codex_proxy.Base.Bytes.{Bytes, take, trim}
use chatgpt_codex_proxy.Base.Dict.{Dict, lookup, insert}
use chatgpt_codex_proxy.Activity.Records.{
  Outcome, active, succeeded, failed, cancelled, timed_out, other_outcome, outcome_text, is_active,
}
use chatgpt_codex_proxy.Generation.Redact.{Json, Decoded, sanitize_payload}

-- Texts that are cut by bytes are bytes. The outcomes are those of the activity.
pub record GenerationRecord : Type 0 where
  pub id : String
  pub parent_request_id : String
  pub started_at : ℕ
  pub ended_at : Option ℕ
  pub duration_ms : Option ℕ
  pub endpoint : String
  pub transport : String
  pub attempt : ℕ
  pub account_id : String
  pub account_label : String
  pub upstream_account_id : String
  pub model : String
  pub outcome : Outcome
  pub status : Option ℕ
  pub error_code : Bytes
  pub error_message : Bytes
  pub response_id : Bytes
  pub response_model : Bytes
  pub usage : Option Json
  pub terminal_event : Bytes
  pub payload : Json

pub record StartInput : Type 0 where
  pub parent_request_id : String
  pub endpoint : String
  pub transport : String
  pub account_id : String
  pub account_label : String
  pub upstream_account_id : String
  pub model : String
  pub attempt : ℕ
  pub payload : Decoded

pub record GenerationInput : Type 0 where
  pub outcome : Outcome
  pub status : Option ℕ
  pub error_code : Bytes
  pub error_message : Bytes
  pub response_id : Bytes
  pub response_model : Bytes
  pub terminal_event : Bytes
  pub usage : Option Json

abbrev pub Generations : Type 0
Generations = Dict GenerationRecord

abbrev pub new_generation : (String → String) → String → ℕ → StartInput → GenerationRecord
new_generation lower id now input = record {
  id = id;
  parent_request_id = trim_space input.parent_request_id;
  started_at = now;
  ended_at = none;
  duration_ms = none;
  endpoint = input.endpoint;
  transport = input.transport;
  attempt = input.attempt;
  account_id = input.account_id;
  account_label = input.account_label;
  upstream_account_id = input.upstream_account_id;
  model = input.model;
  outcome = active;
  status = none;
  error_code = [];
  error_message = [];
  response_id = [];
  response_model = [];
  usage = none;
  terminal_event = [];
  payload = sanitize_payload lower input.payload;
}

-- The id is made of the clock.
unfoldable pub start_generation :
    (String → String)
    → String
    → ℕ
    → StartInput
    → Generations
    → Generations × Option GenerationRecord
unfolding insert trim_space sanitize_payload
start_generation lower id now input s =
    let r = new_generation lower id now input in
    if is_empty (trim_space input.parent_request_id) then (s, none) else (insert id r s, some r)

abbrev pub terminal_of : Outcome → Outcome
terminal_of succeeded = succeeded
terminal_of failed = failed
terminal_of cancelled = cancelled
terminal_of timed_out = timed_out
terminal_of active = failed
terminal_of (other_outcome _) = failed

-- `safe`
unfoldable pub safe_code : Bytes → Bytes
unfolding trim take
safe_code v = if ltb 200 (length (trim v)) then take 200 (trim v) else trim v

-- The three bytes of the ellipsis.
abbrev pub ellipsis : Bytes
ellipsis = 0xe2 ∷ 0x80 ∷ 0xa6 ∷ []

unfoldable pub truncate : Bytes → Bytes
unfolding trim take
truncate v = if ltb 2048 (length (trim v)) then take 2048 (trim v) ++ ellipsis else trim v

unfoldable pub ended : ℕ → GenerationInput → GenerationRecord → GenerationRecord
unfolding safe_code truncate
ended now input r = record r {
  ended_at = some now;
  duration_ms = some ((now - r.started_at) / 1000000);
  outcome = terminal_of input.outcome;
  status = input.status;
  error_code = safe_code input.error_code;
  error_message = truncate input.error_message;
  response_id = truncate input.response_id;
  response_model = truncate input.response_model;
  terminal_event = truncate input.terminal_event;
  usage = input.usage;
}

abbrev pub finish_if :
    ℕ
    → String
    → GenerationInput
    → Generations
    → Option GenerationRecord
    → Generations × Option GenerationRecord
finish_if now id input s none = (s, none)
finish_if now id input s (some r) =
    let r' = ended now input r in
    if is_active r.outcome then (insert id r' s, some r') else (s, none)

-- `Finish` up to the log file.
unfoldable pub finish_generation :
    ℕ → String → GenerationInput → Generations → Generations × Option GenerationRecord
unfolding ended insert lookup
finish_generation now id input s = finish_if now id input s (lookup id s)

unfoldable pub first_with : String → List GenerationRecord → Option GenerationRecord
first_with id [] = none
first_with id (r ∷ rs) = let rest = first_with id rs in if str_eq r.id id then some r else rest

-- A day's file, in the order of the directory; `none` is one that cannot be read.
unfoldable pub in_files : String → List (Option (List GenerationRecord)) → Option GenerationRecord
unfolding first_with
in_files id [] = none
in_files id (none ∷ files) = in_files id files
in_files id (some rs ∷ files) =
    let rest = in_files id files in elim (first_with id rs) [ some r ↦ some r | none ↦ rest ]

unfoldable pub get_generation :
    String → List (Option (List GenerationRecord)) → Generations → Option GenerationRecord
unfolding lookup in_files
get_generation id files s =
    let rest = in_files id files in elim (lookup id s) [ some r ↦ some r | none ↦ rest ]

pub record Query : Type 0 where
  pub cursor : String
  pub parent_request_id : String
  pub account : String
  pub model : String
  pub endpoint : String
  pub transport : String
  pub outcome : Outcome
  pub limit : ℤ

-- An empty filter lets every record pass.
abbrev pub passes : String → String → Bool
passes wanted value = is_empty wanted || str_eq value wanted

unfoldable pub match_query : Query → GenerationRecord → Bool
match_query q r =
    passes q.parent_request_id r.parent_request_id
    && ((passes q.account r.account_id || str_eq r.upstream_account_id q.account)
        && (passes q.model r.model
            && (passes q.endpoint r.endpoint
                && (passes q.transport r.transport
                    && passes (outcome_text q.outcome) (outcome_text r.outcome)))))

-- `f := rs[:0]` keeps the array of `rs`, in which `append` overwrites what the loop has still to
-- read: the array, with the number of records of `f`, for the indices below a number.
unfoldable pub scan : {A : Type 0} → (A → Bool) → ℕ → List A → ℕ → List A × ℕ
scan test zero rs n = (rs, n)
scan test (suc i) rs n =
    let skipped = scan test i rs n in
    elim (get_elem? rs i) [
      | none ↦ skipped
      | some r ↦ let taken = scan test i (set rs n r) (n + 1) in if test r then taken else skipped
    ]

abbrev pub first_of : {A : Type 0} → ℕ → List A → List A
first_of zero rs = []
first_of (suc n) [] = []
first_of (suc n) (r ∷ rs) = r ∷ first_of n rs

abbrev pub drop_of : {A : Type 0} → ℕ → List A → List A
drop_of zero rs = rs
drop_of (suc n) [] = []
drop_of (suc n) (r ∷ rs) = drop_of n rs

unfoldable pub filtered : {A : Type 0} → (A → Bool) → List A → List A
unfolding scan
filtered test rs = first_of (scan test (length rs) rs 0).1 (scan test (length rs) rs 0).0

-- `fmt.Sprintf` and `fmt.Sscanf` with %d.
pub record IntFormat : Type 0 where
  pub print : ℕ → String
  pub read_int : String → Option ℤ

pub data Page (A : Type 0) : Type 0 where
  page : List A → Option String → Page A
  invalid_cursor : Page A

abbrev pub offset_of : IntFormat → String → Option ℤ
offset_of fmt cursor = if is_empty cursor then some (pos 0) else fmt.read_int cursor

abbrev pub limit_of : ℤ → ℕ
limit_of (pos zero) = 50
limit_of (pos (suc n)) = suc n
limit_of (negsuc n) = 50

abbrev pub end_of : ℕ → ℕ → ℕ → ℕ
end_of offset limit total = if ltb total (offset + limit) then total else offset + limit

abbrev pub next_cursor : IntFormat → ℕ → ℕ → Option String
next_cursor fmt end total = if ltb end total then some (fmt.print end) else none

abbrev pub page_at : {A : Type 0} → IntFormat → ℤ → List A → Option ℤ → Page A
page_at fmt limit f none = invalid_cursor
page_at fmt limit f (some (negsuc _)) = invalid_cursor
page_at fmt limit f (some (pos offset)) =
    let end = end_of offset (limit_of limit) (length f) in
    if ltb (length f) offset
    then invalid_cursor
    else page (first_of (end - offset) (drop_of offset f)) (next_cursor fmt end (length f))

unfoldable pub query_generations : IntFormat → Query → List GenerationRecord → Page GenerationRecord
unfolding filtered match_query
query_generations fmt q rs =
    page_at fmt q.limit (filtered (match_query q) rs) (offset_of fmt q.cursor)
