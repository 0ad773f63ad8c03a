-- ===== src/Generation/Examples.antt =====
-- A day with two records, a payload with a token, and cursors in unary.
use Prim.Native.String.{String}
use chatgpt_codex_proxy.Base.{
  ℕ, zero, suc, ◌≡◌, refl, ap, true, none, some, List, [], ◌∷◌, ◌++◌, All,
}
use chatgpt_codex_proxy.Base.Int.{pos}
use chatgpt_codex_proxy.Base.Text.{trim_space}
use chatgpt_codex_proxy.Activity.Records.{Outcome}
use chatgpt_codex_proxy.Activity.Advance.{runes}
use chatgpt_codex_proxy.Generation.Redact.{
  Json, str, array, object, item, no_items, member, no_members, redacted, is_secret, sanitize, key,
  index, at, sanitize-redacts,
}
use chatgpt_codex_proxy.Generation.{
  GenerationRecord, GenerationInput, Query, IntFormat, match_query, filtered,
}
use chatgpt_codex_proxy.Generation.Paging.{IsFaithful, walk, walk-pages}
use chatgpt_codex_proxy.Generation.Lost.{IsOther, filtered_without_oldest}

abbrev lower : String → String
lower s = s

abbrev payload : Json
payload = object (
    member "input"
      (array (
        item (object (member " token" (str "abc") (member "text" (str "hi") no_members))) no_items))
      no_members)

token_secret : is_secret lower " token" ≡ true
unfolding is_secret trim_space
token_secret = refl

found_token :
    at ((key "input" ∷ index 0 ∷ []) ++ key " token" ∷ []) (sanitize lower payload) ≡ some redacted
unfolding sanitize is_secret trim_space
found_token = refl

sanitize-redacts_example : redacted ≡ redacted
sanitize-redacts_example =
    sanitize-redacts lower (key "input" ∷ index 0 ∷ []) " token" payload redacted token_secret
      found_token

strokes : ℕ → String
strokes zero = String.[]
strokes (suc n) = String.◌∷◌ "|" (strokes n)

runes-strokes : (n : ℕ) → runes (strokes n) ≡ n
unfolding strokes
runes-strokes zero = refl
runes-strokes (suc n) = ap suc (runes-strokes n)

abbrev unary : IntFormat
unary = record { print = strokes; read_int = λ s. some (pos (runes s)) }

unary-IsFaithful : IsFaithful unary
unfolding strokes
unary-IsFaithful = record {
  reads_back = λ n. ap (λ i. some (pos i)) (runes-strokes n);
  has_text = λ n. refl;
}

abbrev three : List ℕ
three = 1 ∷ 2 ∷ 3 ∷ []

walk-pages_example : walk unary (pos 2) three 4 "" ≡ three
walk-pages_example = walk-pages unary (pos 2) three unary-IsFaithful

abbrev called : String → GenerationRecord
called id = record {
  id = id;
  parent_request_id = "req";
  started_at = 1;
  ended_at = some 2;
  duration_ms = some 0;
  endpoint = "responses";
  transport = "http";
  attempt = 1;
  account_id = "a";
  account_label = "";
  upstream_account_id = "up";
  model = "m";
  outcome = Outcome.succeeded;
  status = some 200;
  error_code = [];
  error_message = [];
  response_id = [];
  response_model = [];
  usage = none;
  terminal_event = [];
  payload = payload;
}

abbrev anything : Query
anything = record {
  cursor = "";
  parent_request_id = "";
  account = "";
  model = "";
  endpoint = "";
  transport = "";
  outcome = Outcome.other_outcome "";
  limit = pos 50;
}

newest_passes : match_query anything (called "g2") ≡ true
unfolding match_query
newest_passes = refl

filtered_without_oldest_example :
    All
      (IsOther (called "g1"))
      (filtered (match_query anything) (called "g1" ∷ [] ++ called "g2" ∷ []))
filtered_without_oldest_example =
    filtered_without_oldest anything (called "g1") [] (called "g2") newest_passes (refl, tt)

abbrev input : GenerationInput
input = record {
  outcome = Outcome.failed;
  status = some 500;
  error_code = 32 ∷ 101 ∷ [];
  error_message = 101 ∷ [];
  response_id = [];
  response_model = [];
  terminal_event = [];
  usage = none;
}
