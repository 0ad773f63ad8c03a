-- ===== src/Activity/Watched.antt =====
-- What a subscriber knows: the snapshot that it began with and the events it was sent make up the records of the
-- store.
use mathlib.Core.List.{append_assoc}
use text.Mathlib.Text.{◌==◌ as str_eq}
use chatgpt_codex_proxy.Base.{
  ℕ, ◌≡◌, ◌≤◌, refl, sym, ap, ◌∙◌, none, some, List, [], ◌∷◌, ◌++◌, String, All, if_keeps, ltb,
  ◌==◌, length, length-append, arith, if◌then◌else◌,
}
use chatgpt_codex_proxy.Base.Dict.{Dict, lookup, insert, delete, lookup-insert, lookup-delete}
use chatgpt_codex_proxy.Base.Dict.Entries.{Entries, Entries-insert, Entries-delete}
use chatgpt_codex_proxy.Base.Dict.Keys.{IsApart, insert-IsApart, delete-IsApart}
use chatgpt_codex_proxy.Activity.Told.{by_id, SameMap, snapshot-SameMap}
use chatgpt_codex_proxy.Activity.Records.{ActivityRecord}
use chatgpt_codex_proxy.Activity.{
  Store, Subscriber, ActivityEvent, upsert, removed, new_store, deliver, publish,
  without_subscriber, unsubscribe, admitted, snapshot_locked, taken_by, take_from, receive,
}
use chatgpt_codex_proxy.Activity.Calls.{
  Call, starts, updates, finishes, sweeps, snapshots, subscribes, unsubscribes, receives, closes,
  run,
}
use chatgpt_codex_proxy.Activity.Moves.{OwnKey, Keeps, Meets, run-keeps}

-- What a subscriber makes of an event.
unfoldable pub apply_event : ActivityEvent → Dict ActivityRecord → Dict ActivityRecord
unfolding insert delete
apply_event (upsert r _) m = insert r.id r m
apply_event (removed id _) m = delete id m

unfoldable pub replay : List ActivityEvent → Dict ActivityRecord → Dict ActivityRecord
unfolding apply_event
replay [] m = m
replay (e ∷ es) m = replay es (apply_event e m)

abbrev pub known_to : Subscriber → Dict ActivityRecord
known_to x = replay (x.received ++ x.in_channel) (by_id x.base)

replay_last :
    (es : List ActivityEvent) (e : ActivityEvent) (m : Dict ActivityRecord)
    → replay (es ++ e ∷ []) m ≡ apply_event e (replay es m)
unfolding replay
replay_last [] e m = refl
replay_last (x ∷ es) e m = replay_last es e (apply_event x m)

apply_event-SameMap :
    (e : ActivityEvent) (a b : Dict ActivityRecord)
    → SameMap a b
    → SameMap (apply_event e a) (apply_event e b)
unfolding apply_event
apply_event-SameMap (upsert r t) a b h key =
    lookup-insert r.id key r a
    ∙ ap (λ o. if str_eq r.id key then some r else o) (h key)
    ∙ sym (lookup-insert r.id key r b)
apply_event-SameMap (removed id t) a b h key =
    lookup-delete id key a
    ∙ ap (λ o. if str_eq id key then none else o) (h key)
    ∙ sym (lookup-delete id key b)

-- A subscriber of a store with those records and that buffer is up to date, within its buffer.
pub record IsInStep (records : Dict ActivityRecord) (buffer : ℕ) (x : Subscriber) : Type 0 where
  pub knows : SameMap (known_to x) records
  pub fits : length x.in_channel ≤ buffer

deliver-IsInStep :
    (m next : Dict ActivityRecord) (buffer : ℕ) (e : ActivityEvent) (xs : List Subscriber)
    → SameMap (apply_event e m) next
    → All (IsInStep m buffer) xs
    → All (IsInStep next buffer) (deliver buffer e xs)
unfolding deliver
deliver-IsInStep m next buffer e [] same h = tt
deliver-IsInStep m next buffer e (x ∷ xs) same h =
    let rest = deliver-IsInStep m next buffer e xs same h.1 in
    if_keeps (All (IsInStep next buffer)) (ltb (length x.in_channel) buffer)
      (λ room. (
        record {
          knows = λ key.
              ap (λ es. lookup key (replay es (by_id x.base)))
                (sym (append_assoc x.received x.in_channel (e ∷ [])))
              ∙ ap (lookup key) (replay_last (x.received ++ x.in_channel) e (by_id x.base))
              ∙ apply_event-SameMap e (known_to x) m h.0.knows key
              ∙ same key;
          fits = ground (arith, length-append x.in_channel (e ∷ []));
        },
        rest,
      ))
      (λ _. rest)

pub without_subscriber-All :
    (P : Subscriber → Type 0) (id : ℕ) (xs : List Subscriber)
    → All P xs
    → All P (without_subscriber id xs)
unfolding without_subscriber
without_subscriber-All P id [] h = tt
without_subscriber-All P id (x ∷ xs) h =
    if_keeps (All P) (x.id == id) (λ _. without_subscriber-All P id xs h.1)
      (λ _. (h.0, without_subscriber-All P id xs h.1))

pub take_from-All :
    (P : Subscriber → Type 0) (id : ℕ) (xs : List Subscriber)
    → ((x : Subscriber) → P x → P (taken_by x x.in_channel))
    → All P xs
    → All P (take_from id xs)
unfolding take_from
take_from-All P id [] k h = tt
take_from-All P id (x ∷ xs) k h =
    if_keeps (All P) (x.id == id) (λ _. (k x h.0, take_from-All P id xs k h.1))
      (λ _. (h.0, take_from-All P id xs k h.1))

taken_by-IsInStep :
    (m : Dict ActivityRecord) (buffer : ℕ) (x : Subscriber)
    → IsInStep m buffer x
    → IsInStep m buffer (taken_by x x.in_channel)
taken_by-IsInStep m buffer x h = by_pending x.in_channel refl
  where
    by_pending : (es : List ActivityEvent) → x.in_channel ≡ es → IsInStep m buffer (taken_by x es)
    by_pending [] e = h
    by_pending (event ∷ es) e = record {
      knows = λ key.
          ap (λ l. lookup key (replay l (by_id x.base)))
            (append_assoc x.received (event ∷ []) es ∙ ap (λ l. x.received ++ l) (sym e))
          ∙ h.knows key;
      fits = ground (arith, ap length e, h.fits);
    }

-- Every open subscription is up to date.
pub record IsWatched (s : Store) : Type 0 where
  pub keyed : Entries OwnKey s.records
  pub apart : IsApart s.records
  pub in_step : All (IsInStep s.records s.subscriber_buffer) s.subscribers

IsWatched-Keeps : Keeps (λ _. Unit) IsWatched
unfolding publish apply_event unsubscribe receive replay snapshot_locked
IsWatched-Keeps = record {
  keyed = λ s h. h.keyed;
  keeps_record = λ emitted r s _ h. record {
    keyed = Entries-insert OwnKey r.id r s.records refl h.keyed;
    apart = insert-IsApart r.id r s.records h.apart;
    in_step =
        deliver-IsInStep s.records (insert r.id r s.records) s.subscriber_buffer _ s.subscribers
          (λ key. refl) h.in_step;
  };
  drops = λ clock id s _ h. record {
    keyed = Entries-delete OwnKey id s.records h.keyed;
    apart = delete-IsApart id s.records h.apart;
    in_step =
        deliver-IsInStep s.records (delete id s.records) s.subscriber_buffer _ s.subscribers
          (λ key. refl) h.in_step;
  };
  emits = λ emitted s _ h. record { keyed = h.keyed; apart = h.apart; in_step = h.in_step };
  admits = λ emitted s _ h. record {
    keyed = h.keyed;
    apart = h.apart;
    in_step = (
      record { knows = snapshot-SameMap emitted (admitted s) h.keyed h.apart; fits = omega arith },
      h.in_step,
    );
  };
  leaves = λ id s h. record {
    keyed = h.keyed;
    apart = h.apart;
    in_step = without_subscriber-All _ id s.subscribers h.in_step;
  };
  receives_one = λ id s h. record {
    keyed = h.keyed;
    apart = h.apart;
    in_step =
        take_from-All _ id s.subscribers (taken_by-IsInStep s.records s.subscriber_buffer)
          h.in_step;
  };
  ends = λ s h. record { keyed = h.keyed; apart = h.apart; in_step = tt };
}

pub any-Meets : (c : Call) → Meets (λ _. Unit) c
any-Meets (starts at emitted id route) = tt
any-Meets (updates emitted id mutate) = tt
any-Meets (finishes at emitted id input) = tt
any-Meets (sweeps now clock) = λ id. tt
any-Meets (snapshots now clock emitted) = (λ id. tt, tt)
any-Meets (subscribes now clock emitted) = (λ id. tt, tt)
any-Meets (unsubscribes id) = tt
any-Meets (receives id) = tt
any-Meets closes = tt

pub every-Meets : (cs : List Call) → All (Meets (λ _. Unit)) cs
every-Meets [] = tt
every-Meets (c ∷ cs) = (any-Meets c, every-Meets cs)

-- After every sequence of calls of a new store and of what subscribers take from their channels,
-- the requests of the snapshot that Subscribe returned for an open subscription, each under its
-- id, with the events that it was sent applied in their order, give for every key the record that
-- the store has under it, and its channel holds no more events than the buffer; each record stands
-- under its id, which no other has.
pub run-IsWatched :
    (lower : String → String) (terminal_retention subscriber_buffer : ℕ) (cs : List Call)
    → IsWatched (run lower (new_store terminal_retention subscriber_buffer) cs)
unfolding new_store
run-IsWatched lower terminal_retention subscriber_buffer cs =
    run-keeps IsWatched-Keeps lower (new_store terminal_retention subscriber_buffer) cs
      (every-Meets cs) (record { keyed = tt; apart = tt; in_step = tt })
