-- ===== src/Activity/Times.antt =====
-- The times of the events that a subscriber is sent.
use mathlib.Core.List.{append_assoc}
use chatgpt_codex_proxy.Base.{
  ℕ, ◌≡◌, ◌≤◌, ◌<◌, refl, sym, ap, ◌∙◌, subst, List, [], ◌∷◌, ◌++◌, String, All, if_keeps, ltb,
  length, arith,
}
use chatgpt_codex_proxy.Base.Dict.Entries.{Entries, Entries-insert, Entries-delete}
use chatgpt_codex_proxy.Activity.{
  snapshot_locked, Store, Subscriber, ActivityEvent, upsert, removed, new_store, emission_time,
  deliver, publish, unsubscribe, taken_by, receive,
}
use chatgpt_codex_proxy.Activity.Calls.{Call, run}
use chatgpt_codex_proxy.Activity.Moves.{OwnKey, Keeps, Meets, run-keeps}
use chatgpt_codex_proxy.Activity.Watched.{without_subscriber-All, take_from-All}

abbrev pub time_of : ActivityEvent → ℕ
time_of (upsert _ t) = t
time_of (removed _ t) = t

-- Strictly later and later, from a time on.
abbrev pub Rises : ℕ → List ActivityEvent → Type 0
Rises from [] = Unit
Rises from (e ∷ es) = (from < time_of e) × Rises (time_of e) es

-- The last time, or the given one where there is none.
abbrev pub last_time : ℕ → List ActivityEvent → ℕ
last_time from [] = from
last_time from (e ∷ es) = last_time (time_of e) es

abbrev pub sent_to : Subscriber → List ActivityEvent
sent_to x = x.received ++ x.in_channel

-- From the zero time on, up to the last time that the store gave out.
abbrev pub IsTimed : ℕ → Subscriber → Type 0
IsTimed until x = Rises 0 (sent_to x) × (last_time 0 (sent_to x) ≤ until)

emission_time-later : (now last : ℕ) → 0 < now → last < emission_time now last
emission_time-later now last h = ground arith

Rises-last :
    (from : ℕ) (es : List ActivityEvent) (e : ActivityEvent)
    → Rises from es
    → last_time from es < time_of e
    → Rises from (es ++ e ∷ []) × (last_time from (es ++ e ∷ []) ≡ time_of e)
Rises-last from [] e h k = ((k, tt), refl)
Rises-last from (x ∷ es) e h k =
    let (rises, ends) = Rises-last (time_of x) es e h.1 k in ((h.0, rises), ends)

deliver-IsTimed :
    (until buffer : ℕ) (e : ActivityEvent) (xs : List Subscriber)
    → until < time_of e
    → All (IsTimed until) xs
    → All (IsTimed (time_of e)) (deliver buffer e xs)
unfolding deliver
deliver-IsTimed until buffer e [] t h = tt
deliver-IsTimed until buffer e (x ∷ xs) t h =
    let rest = deliver-IsTimed until buffer e xs t h.1 in
    if_keeps (All (IsTimed (time_of e))) (ltb (length x.in_channel) buffer) (λ _. (sent, rest))
      (λ _. rest)
  where
    sent : IsTimed (time_of e) (record x { in_channel = x.in_channel ++ e ∷ [] })
    sent =
        let (rises, ends) = Rises-last 0 (sent_to x) e h.0.0 (omega (arith, h.0.1, t)) in
        subst (λ es. Rises 0 es × (last_time 0 es ≤ time_of e))
          (append_assoc x.received x.in_channel (e ∷ [])) (rises, omega (arith, ends))

later-IsTimed :
    (until later : ℕ) (xs : List Subscriber)
    → until ≤ later
    → All (IsTimed until) xs
    → All (IsTimed later) xs
later-IsTimed until later [] t h = tt
later-IsTimed until later (x ∷ xs) t h =
    ((h.0.0, omega (arith, h.0.1, t)), later-IsTimed until later xs t h.1)

taken_by-IsTimed :
    (until : ℕ) (x : Subscriber) → IsTimed until x → IsTimed until (taken_by x x.in_channel)
taken_by-IsTimed until x h = by_pending x.in_channel refl
  where
    by_pending : (es : List ActivityEvent) → x.in_channel ≡ es → IsTimed until (taken_by x es)
    by_pending [] e = h
    by_pending (event ∷ es) e =
        subst (λ l. Rises 0 l × (last_time 0 l ≤ until))
          (ap (λ l. x.received ++ l) e ∙ sym (append_assoc x.received (event ∷ []) es)) h

pub record IsInTime (s : Store) : Type 0 where
  pub keyed : Entries OwnKey s.records
  pub timed : All (IsTimed s.last_emitted_at) s.subscribers

-- The clock is past the zero time.
abbrev pub Past : ℕ → Type 0
Past now = 0 < now

IsInTime-Keeps : Keeps Past IsInTime
unfolding publish unsubscribe receive snapshot_locked
IsInTime-Keeps = record {
  keyed = λ s h. h.keyed;
  keeps_record = λ emitted r s t h. record {
    keyed = Entries-insert OwnKey r.id r s.records refl h.keyed;
    timed =
        deliver-IsTimed s.last_emitted_at s.subscriber_buffer _ s.subscribers
          (emission_time-later emitted s.last_emitted_at t) h.timed;
  };
  drops = λ clock id s t h. record {
    keyed = Entries-delete OwnKey id s.records h.keyed;
    timed =
        deliver-IsTimed s.last_emitted_at s.subscriber_buffer _ s.subscribers
          (emission_time-later (clock id) s.last_emitted_at t) h.timed;
  };
  emits = λ emitted s t h. record {
    keyed = h.keyed;
    timed =
        later-IsTimed s.last_emitted_at _ s.subscribers
          (omega (arith, emission_time-later emitted s.last_emitted_at t)) h.timed;
  };
  admits = λ emitted s t h. record {
    keyed = h.keyed;
    timed = (
      (tt, omega arith),
      later-IsTimed s.last_emitted_at _ s.subscribers
          (omega (arith, emission_time-later emitted s.last_emitted_at t)) h.timed,
    );
  };
  leaves = λ id s h. record {
    keyed = h.keyed;
    timed = without_subscriber-All _ id s.subscribers h.timed;
  };
  receives_one = λ id s h. record {
    keyed = h.keyed;
    timed = take_from-All _ id s.subscribers (taken_by-IsTimed s.last_emitted_at) h.timed;
  };
  ends = λ s h. record { keyed = h.keyed; timed = tt };
}

-- If the clock is past the zero time whenever it is read for an event, then after every sequence
-- of calls of a new store the events that an open subscription was sent have times that rise
-- strictly and end no later than the last one that the store gave out, though the clock may stand
-- still or go back.
pub run-IsInTime :
    (lower : String → String) (terminal_retention subscriber_buffer : ℕ) (cs : List Call)
    → All (Meets Past) cs
    → IsInTime (run lower (new_store terminal_retention subscriber_buffer) cs)
unfolding new_store
run-IsInTime lower terminal_retention subscriber_buffer cs past =
    run-keeps IsInTime-Keeps lower (new_store terminal_retention subscriber_buffer) cs past
      (record { keyed = tt; timed = tt })
