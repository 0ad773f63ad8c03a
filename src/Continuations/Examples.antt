-- ===== src/Continuations/Examples.antt =====
-- A manager with one continuation, whose items are texts.
use text.Mathlib.Text.{◌==◌ as str_eq}
use chatgpt_codex_proxy.Base.{Mem, ◌↔◌, ◌≤◌, ◌≡◌, refl, true, false, List, [], ◌∷◌, String}
use chatgpt_codex_proxy.Base.Int.{pos}
use chatgpt_codex_proxy.Base.Text.{trim_space, is_empty}
use chatgpt_codex_proxy.Base.Dict.{values}
use chatgpt_codex_proxy.Continuations.{
  ContinuationRecord, ContinuationManager, stamped, list_by_conversation,
}
use chatgpt_codex_proxy.Continuations.Lookup.{Access, puts, sweeps, list_by_conversation_exact}

abbrev answer : ContinuationRecord String
answer = record {
  response_id = "resp_1";
  account_id = "acct_1";
  conversation_key = "key";
  turn_state = "";
  instructions = "";
  model = "m";
  input_history = "hello" ∷ [];
  function_call_ids = [];
  tool_name_aliases = [];
  created_at = 0;
  expires_at = 0;
}

abbrev manager : ContinuationManager String
manager = record { ttl = pos 60; records = ("resp_1", stamped 10 11 (pos 60) answer) ∷ [] }

abbrev morning : List (Access String)
morning = puts 10 11 answer ∷ sweeps 30 ∷ []

some_key : is_empty (trim_space " key") ≡ false
unfolding trim_space
some_key = refl

list_by_conversation_exact_example : Mem answer (list_by_conversation 20 " key" manager).1 ↔ (
    Mem answer (values manager.records)
    × (20 ≤ answer.expires_at)
    × (str_eq (trim_space answer.conversation_key) (trim_space " key") ≡ true))
list_by_conversation_exact_example = list_by_conversation_exact 20 " key" manager answer some_key
