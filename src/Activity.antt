-- ===== src/Activity.antt =====
-- internal/activity/store.go: the requests that run or ended lately, and those who watch them. The log files are
-- in Activity.Logs.
pub mod Records
pub mod Calls
pub mod Moves
pub mod Told
pub mod Watched
pub mod Times
pub mod Swept
pub mod Life
pub mod Advance
mod Examples
use Prim.Native.String.{compare as compare_text}
use text.Mathlib.Text.{◌==◌ as str_eq}
use chatgpt_codex_proxy.Base.{
  ℕ, ◌+◌, ◌-◌, ◌/◌, Bool, true, false, ◌&&◌, ◌||◌, not, Option, none, some, List, [], ◌∷◌, ◌++◌,
  map, String, ltb, leb, ◌==◌, length, compare, Ordering, if◌then◌else◌, is_some,
}
use chatgpt_codex_proxy.Base.Text.{trim_space, is_empty}
use chatgpt_codex_proxy.Base.Sort.{sort, or_else, flip_order}
use chatgpt_codex_proxy.Base.Dict.{Dict, lookup, insert, delete, values}
use chatgpt_codex_proxy.Base.Dict.Entries.{has}
use chatgpt_codex_proxy.Activity.Records.{
  ActivityRecord, Phase, routing, complete, Outcome, active, FinishInput, sanitize_route,
  sanitize_record_update, is_running, finished, records_equal,
}

pub record Snapshot : Type 0 where
  pub requests : List ActivityRecord
  pub emitted_at : ℕ

-- Event, by its type.
pub data ActivityEvent : Type 0 where
  upsert : ActivityRecord → ℕ → ActivityEvent
  removed : String → ℕ → ActivityEvent

-- An open subscription: the requests of the snapshot that its owner was given, what the owner has
-- received and what the channel holds.
pub record Subscriber : Type 0 where
  pub id : ℕ
  pub base : List ActivityRecord
  pub received : List ActivityEvent
  pub in_channel : List ActivityEvent

pub record Store : Type 0 where
  pub records : Dict ActivityRecord
  pub subscribers : List Subscriber
  pub next_subscriber_id : ℕ
  pub last_emitted_at : ℕ
  pub terminal_retention : ℕ
  pub subscriber_buffer : ℕ

abbrev pub or_default : ℕ → ℕ → ℕ
or_default default given = if given == 0 then default else given

-- 60 seconds and 64 events where none is given; a negative option is read as 0.
unfoldable pub new_store : ℕ → ℕ → Store
new_store terminal_retention subscriber_buffer = record {
  records = [];
  subscribers = [];
  next_subscriber_id = 0;
  last_emitted_at = 0;
  terminal_retention = or_default 60000000000 terminal_retention;
  subscriber_buffer = or_default 64 subscriber_buffer;
}

-- `nextEmittedAtLocked`
abbrev pub emission_time : ℕ → ℕ → ℕ
emission_time now last = if not (last == 0) && not (ltb last now) then last + 1 else now

-- A full channel is closed and its subscription dropped.
unfoldable pub deliver : ℕ → ActivityEvent → List Subscriber → List Subscriber
deliver buffer event [] = []
deliver buffer event (x ∷ xs) =
    let rest = deliver buffer event xs in
    if ltb (length x.in_channel) buffer
    then record x { in_channel = x.in_channel ++ event ∷ [] } ∷ rest
    else rest

-- `publishLocked` of an event with the next time.
unfoldable pub publish : ℕ → (ℕ → ActivityEvent) → Store → Store
unfolding deliver
publish now event s =
    let time = emission_time now s.last_emitted_at in
    record s {
      subscribers = deliver s.subscriber_buffer (event time) s.subscribers;
      last_emitted_at = time;
    }

abbrev pub keep_record : ℕ → String → ActivityRecord → Store → Store
keep_record now key r s = publish now (upsert r) (record s { records = insert key r s.records })

abbrev pub new_request : String → ℕ → String → ActivityRecord
new_request id at route = record {
  id = id;
  started_at = at;
  ended_at = none;
  route = sanitize_route route;
  model = "";
  account_id = "";
  account_label = "";
  phase = routing;
  outcome = active;
  status = none;
  duration_ms = none;
  error_code = "";
  error_message = "";
}

unfoldable pub start : ℕ → ℕ → String → String → Store → Store × Option ActivityRecord
unfolding publish lookup insert sanitize_route trim_space
start at emitted id route s =
    let r = new_request (trim_space id) at route in
    if is_empty (trim_space id)
    then (s, none)
    else if has (trim_space id) s.records
    then (s, none)
    else (keep_record emitted (trim_space id) r s, some r)

-- A record that is active and in a phase before the last.
abbrev pub running_in : Option ActivityRecord → Option ActivityRecord
running_in none = none
running_in (some r) = if is_running r then some r else none

abbrev pub update_found :
    ℕ → String → (ActivityRecord → ActivityRecord) → Store → Option ActivityRecord → Store × Bool
update_found emitted id mutate s none = (s, false)
update_found emitted id mutate s (some r) =
    let r' = sanitize_record_update (mutate r) r in
    if records_equal r r' then (s, false) else (keep_record emitted id r' s, true)

-- `Update` under the lock; a nil function is `none`.
unfoldable pub update : ℕ → String → Option (ActivityRecord → ActivityRecord) → Store → Store × Bool
unfolding publish lookup insert sanitize_record_update is_running records_equal
update emitted id none s = (s, false)
update emitted id (some mutate) s =
    update_found emitted id mutate s (running_in (lookup id s.records))

abbrev pub finish_found :
    (String → String)
    → ℕ
    → ℕ
    → String
    → FinishInput
    → Store
    → Option ActivityRecord
    → Store × Option ActivityRecord
finish_found lower at emitted id input s none = (s, none)
finish_found lower at emitted id input s (some r) =
    let r' = finished lower at input r in (keep_record emitted id r' s, some r')

-- `Finish` up to the log file; `strings.ToLower`, which follows Unicode's tables, is a parameter.
unfoldable pub finish :
    (String → String) → ℕ → ℕ → String → FinishInput → Store → Store × Option ActivityRecord
unfolding publish lookup insert finished is_running
finish lower at emitted id input s =
    finish_found lower at emitted id input s (running_in (lookup id s.records))

abbrev pub set_model : ℕ → String → String → Store → Store × Bool
set_model emitted id model = update emitted id (some (λ r. record r { model = model }))

abbrev pub set_account : ℕ → String → String → String → Store → Store × Bool
set_account emitted id account_id account_label = update emitted id (
    some (λ r. record r {
      account_id = account_id;
      account_label = account_label;
      phase = Phase.upstream;
    }))

abbrev pub set_phase : ℕ → String → Phase → Store → Store × Bool
set_phase emitted id phase = update emitted id (some (λ r. record r { phase = phase }))

abbrev pub set_route : ℕ → String → String → Store → Store × Bool
set_route emitted id route = update emitted id (some (λ r. record r { route = route }))

abbrev pub has_expired : ℕ → ℕ → Option ℕ → Bool
has_expired now retention none = false
has_expired now retention (some ended_at) = leb (ended_at + retention) now

-- The times at which the removals of a sweep read the clock.
abbrev pub Clock : Type 0
Clock = String → ℕ

abbrev pub drop_record : Clock → String → Store → Store
drop_record clock id s =
    publish (clock id) (removed id) (record s { records = delete id s.records })

unfoldable pub prune_among : ℕ → Clock → List (String × ActivityRecord) → Store → Store
unfolding publish delete
prune_among now clock [] s = s
prune_among now clock ((id, r) ∷ rest) s =
    let kept = prune_among now clock rest s in
    let dropped = prune_among now clock rest (drop_record clock id s) in
    if has_expired now s.terminal_retention r.ended_at then dropped else kept

-- `pruneExpiredLocked`, which is also Sweep: the loop over the map as it was.
abbrev pub prune_expired : ℕ → Clock → Store → Store
prune_expired now clock s = prune_among now clock s.records s

abbrev pub latest_first : ActivityRecord → ActivityRecord → Ordering
latest_first a b =
    or_else (flip_order (compare a.started_at b.started_at)) (flip_order (compare_text a.id b.id))

-- `snapshotLocked`
unfoldable pub snapshot_locked : ℕ → Store → Store × Snapshot
unfolding sort
snapshot_locked emitted s =
    let time = emission_time emitted s.last_emitted_at in
    (
      record s { last_emitted_at = time },
      record { requests = sort latest_first (values s.records); emitted_at = time },
    )

unfoldable pub take_snapshot : ℕ → Clock → ℕ → Store → Store × Snapshot
unfolding prune_among snapshot_locked
take_snapshot now clock emitted s = snapshot_locked emitted (prune_expired now clock s)

abbrev pub admitted : Store → Store
admitted s = record s {
  next_subscriber_id = s.next_subscriber_id + 1;
  subscribers =
      record { id = s.next_subscriber_id + 1; base = []; received = []; in_channel = [] }
      ∷ s.subscribers;
}

-- The owner of the new subscription is given the snapshot.
abbrev pub briefed : Store × Snapshot → Store × Snapshot
briefed (s, snapshot) = (record s { subscribers = given s.subscribers }, snapshot)
  where
    given : List Subscriber → List Subscriber
    given [] = []
    given (x ∷ xs) = record x { base = snapshot.requests } ∷ xs

-- The subscription's id is the store's next one.
unfoldable pub subscribe : ℕ → Clock → ℕ → Store → Store × Snapshot
unfolding prune_among snapshot_locked
subscribe now clock emitted s =
    briefed (snapshot_locked emitted (admitted (prune_expired now clock s)))

unfoldable pub without_subscriber : ℕ → List Subscriber → List Subscriber
without_subscriber id [] = []
without_subscriber id (x ∷ xs) =
    let rest = without_subscriber id xs in if x.id == id then rest else x ∷ rest

unfoldable pub unsubscribe : ℕ → Store → Store
unfolding without_subscriber
unsubscribe id s = record s { subscribers = without_subscriber id s.subscribers }

abbrev pub close_all : Store → Store
close_all s = record s { subscribers = [] }

-- The owner of a subscription takes the first event from its channel.
abbrev pub taken_by : Subscriber → List ActivityEvent → Subscriber
taken_by x [] = x
taken_by x (e ∷ rest) = record x { received = x.received ++ e ∷ []; in_channel = rest }

unfoldable pub take_from : ℕ → List Subscriber → List Subscriber
take_from id [] = []
take_from id (x ∷ xs) =
    let rest = take_from id xs in if x.id == id then taken_by x x.in_channel ∷ rest else x ∷ rest

unfoldable pub receive : ℕ → Store → Store
unfolding take_from
receive id s = record s { subscribers = take_from id s.subscribers }
