-- ===== src/Activity/Life.antt =====
-- The life of a record as a step relation: what a call of the store can do to what is kept under a key.
use text.Mathlib.Text.{◌==◌ as str_eq}
use text.Mathlib.TextEquality.{eq_iff}
use chatgpt_codex_proxy.Base.{
  ℕ, ◌≡◌, refl, sym, ap, ◌∙◌, subst, Bool, true, false, none, some, List, String, if_keeps,
  Bool-cases, inl, inr, arith, if◌then◌else◌,
}
use chatgpt_codex_proxy.Base.Text.{trim_space, is_empty}
use chatgpt_codex_proxy.Base.Dict.{Dict, lookup, insert, lookup-insert}
use chatgpt_codex_proxy.Base.Dict.Entries.{Entries, Entries-insert, Entries-delete, has}
use chatgpt_codex_proxy.Base.Dict.Keys.{IsApart, insert-IsApart, delete-IsApart}
use chatgpt_codex_proxy.Activity.Records.{
  ActivityRecord, FinishInput, sanitize_record_update, is_running, finished, records_equal,
}
use chatgpt_codex_proxy.Activity.{
  Store, Clock, new_store, publish, new_request, start, running_in, update_found, update,
  finish_found, finish, has_expired, prune_expired, snapshot_locked, take_snapshot, subscribe,
  unsubscribe, receive,
}
use chatgpt_codex_proxy.Activity.Calls.{
  Call, starts, updates, finishes, sweeps, snapshots, subscribes, unsubscribes, receives, closes,
  step, run,
}
use chatgpt_codex_proxy.Activity.Moves.{OwnKey, Keeps, step-keeps, run-keeps, running_in_found}
use chatgpt_codex_proxy.Activity.Watched.{any-Meets, every-Meets}
use chatgpt_codex_proxy.Activity.Swept.{Slot, Swept, prune_among-Swept, own_entries}

pub data Life : Slot → Slot → Type 0 where
  stays : (o : Slot) → Life o o
  begins : (id : String) (at : ℕ) (route : String) → Life none (some (new_request id at route))
  changes :
      (r next : ActivityRecord)
      → is_running r ≡ true
      → Life (some r) (some (sanitize_record_update next r))
  ends_with :
      (lower : String → String) (at : ℕ) (input : FinishInput) (r : ActivityRecord)
      → is_running r ≡ true
      → Life (some r) (some (finished lower at input r))
  expires :
      (r : ActivityRecord) (now retention : ℕ)
      → has_expired now retention r.ended_at ≡ true
      → Life (some r) none

-- A write under one key touches no other.
kept-Life :
    (key id : String) (r : ActivityRecord) (m : Dict ActivityRecord)
    → Life (lookup id m) (some r)
    → Life (lookup key m) (lookup key (insert id r m))
kept-Life key id r m life = elim (Bool-cases (str_eq id key)) [
  | inl t ↦
      subst (λ o. Life (lookup key m) o)
        (sym (lookup-insert id key r m ∙ ap (λ (b : Bool). if b then some r else lookup key m) t))
        (subst (λ i. Life (lookup i m) (some r)) ((eq_iff id key).0 t) life)
  | inr t ↦
      subst (λ o. Life (lookup key m) o)
        (sym (lookup-insert id key r m ∙ ap (λ (b : Bool). if b then some r else lookup key m) t))
        (stays _)
]

Swept-Life :
    (now retention : ℕ) (before after : Slot) → Swept now retention before after → Life before after
Swept-Life now retention before after (inl q) = subst (λ o. Life before o) (sym q) (stays before)
Swept-Life now retention before after (inr (r, q, over, gone)) =
    subst (λ o. Life o after) (sym q)
      (subst (λ o. Life (some r) o) (sym gone) (expires r now retention over))

prune_expired-Life :
    (key : String) (now : ℕ) (clock : Clock) (s : Store)
    → IsApart s.records
    → Life (lookup key s.records) (lookup key (prune_expired now clock s).records)
prune_expired-Life key now clock s apart =
    Swept-Life now s.terminal_retention _ _
      (prune_among-Swept key now clock s.records s apart (own_entries s.records apart))

update_found-Life :
    (key : String) (emitted : ℕ) (id : String) (mutate : ActivityRecord → ActivityRecord)
    (s : Store) (found : Slot)
    → running_in (lookup id s.records) ≡ found
    → Life (lookup key s.records) (lookup key (update_found emitted id mutate s found).0.records)
unfolding publish
update_found-Life key emitted id mutate s none e = stays _
update_found-Life key emitted id mutate s (some r) e =
    if_keeps (λ (u : Store × Bool). Life (lookup key s.records) (lookup key u.0.records))
      (records_equal r (sanitize_record_update (mutate r) r)) (λ _. stays _)
      (λ _.
        let (there, running) = running_in_found _ r e in
        kept-Life key id (sanitize_record_update (mutate r) r) s.records (
          subst (λ o. Life o (some (sanitize_record_update (mutate r) r))) (sym there)
            (changes r (mutate r) running)))

finish_found-Life :
    (lower : String → String) (key : String) (at emitted : ℕ) (id : String) (input : FinishInput)
    (s : Store) (found : Slot)
    → running_in (lookup id s.records) ≡ found
    → Life
        (lookup key s.records)
        (lookup key (finish_found lower at emitted id input s found).0.records)
unfolding publish
finish_found-Life lower key at emitted id input s none e = stays _
finish_found-Life lower key at emitted id input s (some r) e =
    let (there, running) = running_in_found _ r e in
    kept-Life key id (finished lower at input r) s.records (
      subst (λ o. Life o (some (finished lower at input r))) (sym there)
        (ends_with lower at input r running))

none_there : (id : String) (m : Dict ActivityRecord) → has id m ≡ false → lookup id m ≡ none
none_there id m h = ground arith

pub step-Life :
    (lower : String → String) (c : Call) (s : Store) (key : String)
    → IsApart s.records
    → Life (lookup key s.records) (lookup key (step lower c s).records)
unfolding step start update finish take_snapshot subscribe snapshot_locked publish unsubscribe
    receive
step-Life lower (starts at emitted id route) s key apart =
    if_keeps (λ (u : Store × Slot). Life (lookup key s.records) (lookup key u.0.records))
      (is_empty (trim_space id)) (λ _. stays _)
      (λ _.
        if_keeps (λ (u : Store × Slot). Life (lookup key s.records) (lookup key u.0.records))
          (has (trim_space id) s.records) (λ _. stays _)
          (λ absent.
            kept-Life key (trim_space id) (new_request (trim_space id) at route) s.records (
              subst (λ o. Life o (some (new_request (trim_space id) at route)))
                (sym (none_there (trim_space id) s.records absent))
                (begins (trim_space id) at route))))
step-Life lower (updates emitted id none) s key apart = stays _
step-Life lower (updates emitted id (some mutate)) s key apart =
    update_found-Life key emitted id mutate s _ refl
step-Life lower (finishes at emitted id input) s key apart =
    finish_found-Life lower key at emitted id input s _ refl
step-Life lower (sweeps now clock) s key apart = prune_expired-Life key now clock s apart
step-Life lower (snapshots now clock emitted) s key apart = prune_expired-Life key now clock s apart
step-Life lower (subscribes now clock emitted) s key apart =
    prune_expired-Life key now clock s apart
step-Life lower (unsubscribes id) s key apart = stays _
step-Life lower (receives id) s key apart = stays _
step-Life lower closes s key apart = stays _

pub record IsMap (s : Store) : Type 0 where
  pub keyed : Entries OwnKey s.records
  pub apart : IsApart s.records

IsMap-Keeps : Keeps (λ _. Unit) IsMap
unfolding publish unsubscribe receive snapshot_locked
IsMap-Keeps = record {
  keyed = λ s h. h.keyed;
  keeps_record = λ emitted r s _ h. record {
    keyed = Entries-insert OwnKey r.id r s.records refl h.keyed;
    apart = insert-IsApart r.id r s.records h.apart;
  };
  drops = λ clock id s _ h. record {
    keyed = Entries-delete OwnKey id s.records h.keyed;
    apart = delete-IsApart id s.records h.apart;
  };
  emits = λ emitted s _ h. record { keyed = h.keyed; apart = h.apart };
  admits = λ emitted s _ h. record { keyed = h.keyed; apart = h.apart };
  leaves = λ id s h. record { keyed = h.keyed; apart = h.apart };
  receives_one = λ id s h. record { keyed = h.keyed; apart = h.apart };
  ends = λ s h. record { keyed = h.keyed; apart = h.apart };
}

pub step-IsMap : (lower : String → String) (c : Call) (s : Store) → IsMap s → IsMap (step lower c s)
step-IsMap lower c s h = step-keeps IsMap-Keeps lower c s (any-Meets c) h

pub run-IsMap :
    (lower : String → String) (terminal_retention subscriber_buffer : ℕ) (cs : List Call)
    → IsMap (run lower (new_store terminal_retention subscriber_buffer) cs)
unfolding new_store
run-IsMap lower terminal_retention subscriber_buffer cs =
    run-keeps IsMap-Keeps lower (new_store terminal_retention subscriber_buffer) cs (every-Meets cs)
      (record { keyed = tt; apart = tt })
