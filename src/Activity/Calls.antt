-- ===== src/Activity/Calls.antt =====
-- internal/activity/store.go as a machine: the calls of its methods, one after the other, and what subscribers take.
use chatgpt_codex_proxy.Base.{ℕ, Option, List, [], ◌∷◌, String}
use chatgpt_codex_proxy.Activity.Records.{ActivityRecord, FinishInput}
use chatgpt_codex_proxy.Activity.{
  Store, Clock, start, update, finish, prune_expired, prune_among, take_snapshot, subscribe,
  unsubscribe, close_all, receive,
}

pub data Call : Type 0 where
  starts : ℕ → ℕ → String → String → Call
  updates : ℕ → String → Option (ActivityRecord → ActivityRecord) → Call
  finishes : ℕ → ℕ → String → FinishInput → Call
  sweeps : ℕ → Clock → Call
  snapshots subscribes : ℕ → Clock → ℕ → Call
  unsubscribes receives : ℕ → Call
  closes : Call

unfoldable pub step : (String → String) → Call → Store → Store
unfolding start update finish prune_among take_snapshot subscribe unsubscribe receive
step lower (starts at emitted id route) s = (start at emitted id route s).0
step lower (updates emitted id mutate) s = (update emitted id mutate s).0
step lower (finishes at emitted id input) s = (finish lower at emitted id input s).0
step lower (sweeps now clock) s = prune_expired now clock s
step lower (snapshots now clock emitted) s = (take_snapshot now clock emitted s).0
step lower (subscribes now clock emitted) s = (subscribe now clock emitted s).0
step lower (unsubscribes id) s = unsubscribe id s
step lower (receives id) s = receive id s
step lower closes s = close_all s

unfoldable pub run : (String → String) → Store → List Call → Store
unfolding step
run lower s [] = s
run lower s (c ∷ cs) = run lower (step lower c s) cs
