-- ===== src/Activity/Moves.antt =====
-- Each call of the store as elementary moves, so that an invariant is shown once for each move.
use chatgpt_codex_proxy.Base.{
  ℕ, ◌≡◌, refl, sym, ap, ◌∙◌, subst, Bool, true, false, Option, none, some, List, [], ◌∷◌, String,
  All, if_keeps, if◌then◌else◌,
}
use chatgpt_codex_proxy.Base.Text.{trim_space, is_empty}
use chatgpt_codex_proxy.Base.Dict.{lookup}
use chatgpt_codex_proxy.Base.Dict.Entries.{Entries, Entries-lookup, has}
use chatgpt_codex_proxy.Activity.Records.{
  ActivityRecord, FinishInput, sanitize_record_update, is_running, finished, records_equal,
}
use chatgpt_codex_proxy.Activity.{
  Store, Clock, emission_time, keep_record, drop_record, admitted, briefed, new_request, start,
  running_in, update_found, update, finish_found, finish, has_expired, prune_among, snapshot_locked,
  take_snapshot, subscribe, unsubscribe, close_all, receive,
}
use chatgpt_codex_proxy.Activity.Calls.{
  Call, starts, updates, finishes, sweeps, snapshots, subscribes, unsubscribes, receives, closes,
  step, run,
}

abbrev pub OwnKey : String → ActivityRecord → Type 0
OwnKey key r = r.id ≡ key

abbrev pub with_time : ℕ → Store → Store
with_time emitted s = record s { last_emitted_at = emission_time emitted s.last_emitted_at }

-- What an invariant must survive, where the clock says what `Reads` allows.
pub record Keeps (Reads : ℕ → Type 0) (P : Store → Type 0) : Type 0 where
  pub keyed : (s : Store) → P s → Entries OwnKey s.records
  pub keeps_record :
      (emitted : ℕ) (r : ActivityRecord) (s : Store)
      → Reads emitted
      → P s
      → P (keep_record emitted r.id r s)
  pub drops :
      (clock : Clock) (id : String) (s : Store)
      → Reads (clock id)
      → P s
      → P (drop_record clock id s)
  pub emits : (emitted : ℕ) (s : Store) → Reads emitted → P s → P (with_time emitted s)
  pub admits :
      (emitted : ℕ) (s : Store)
      → Reads emitted
      → P s
      → P (briefed (snapshot_locked emitted (admitted s))).0
  pub leaves : (id : ℕ) (s : Store) → P s → P (unsubscribe id s)
  pub receives_one : (id : ℕ) (s : Store) → P s → P (receive id s)
  pub ends : (s : Store) → P s → P (close_all s)

-- What a call reads from the clock for its events.
abbrev pub Meets : (ℕ → Type 0) → Call → Type 0
Meets Reads (starts at emitted id route) = Reads emitted
Meets Reads (updates emitted id mutate) = Reads emitted
Meets Reads (finishes at emitted id input) = Reads emitted
Meets Reads (sweeps now clock) = (id : String) → Reads (clock id)
Meets Reads (snapshots now clock emitted) = ((id : String) → Reads (clock id)) × Reads emitted
Meets Reads (subscribes now clock emitted) = ((id : String) → Reads (clock id)) × Reads emitted
Meets Reads (unsubscribes id) = Unit
Meets Reads (receives id) = Unit
Meets Reads closes = Unit

pub sanitize_id : (r before : ActivityRecord) → (sanitize_record_update r before).id ≡ before.id
unfolding sanitize_record_update
sanitize_id r before = refl

pub finished_id :
    (lower : String → String) (at : ℕ) (input : FinishInput) (r : ActivityRecord)
    → (finished lower at input r).id ≡ r.id
unfolding finished
finished_id lower at input r = refl

pub running_in_found :
    (found : Option ActivityRecord) (r : ActivityRecord)
    → running_in found ≡ some r
    → (found ≡ some r) × (is_running r ≡ true)
running_in_found none r e = absurd (cc e)
running_in_found (some x) r e = by_test (is_running x) refl e
  where
    by_test :
        (b : Bool)
        → is_running x ≡ b
        → Path (Option ActivityRecord) (if b then some x else none) (some r)
        → (Path (Option ActivityRecord) (some x) (some r)) × (is_running r ≡ true)
    by_test true t q = (q, ap (λ o. running_test o) (sym q) ∙ t)
      where
        running_test : Option ActivityRecord → Bool
        running_test none = true
        running_test (some y) = is_running y
    by_test false t q = absurd (cc q)

module _ {Reads : ℕ → Type 0} {P : Store → Type 0} (k : Keeps Reads P) where
  -- A record under its own id, spelt as the caller spells it.
  kept_under :
      (emitted : ℕ) (key : String) (r : ActivityRecord) (s : Store)
      → r.id ≡ key
      → Reads emitted
      → P s
      → P (keep_record emitted key r s)
  kept_under emitted key r s e t h =
      subst (λ i. P (keep_record emitted i r s)) e (k.keeps_record emitted r s t h)

  prune_among-keeps :
      (now : ℕ) (clock : Clock) (entries : List (String × ActivityRecord)) (s : Store)
      → ((id : String) → Reads (clock id))
      → P s
      → P (prune_among now clock entries s)
  unfolding prune_among
  prune_among-keeps now clock [] s t h = h
  prune_among-keeps now clock ((id, r) ∷ rest) s t h =
      if_keeps P (has_expired now s.terminal_retention r.ended_at)
        (λ _.
          prune_among-keeps now clock rest (drop_record clock id s) t (k.drops clock id s (t id) h))
        (λ _. prune_among-keeps now clock rest s t h)

  update_found-keeps :
      (emitted : ℕ) (id : String) (mutate : ActivityRecord → ActivityRecord) (s : Store)
      (found : Option ActivityRecord)
      → running_in (lookup id s.records) ≡ found
      → Reads emitted
      → P s
      → P (update_found emitted id mutate s found).0
  update_found-keeps emitted id mutate s none e t h = h
  update_found-keeps emitted id mutate s (some r) e t h =
      if_keeps (λ (u : Store × Bool). P u.0) (records_equal r (sanitize_record_update (mutate r) r))
        (λ _. h)
        (λ _.
          kept_under emitted id (sanitize_record_update (mutate r) r) s
            (sanitize_id (mutate r) r
              ∙ Entries-lookup OwnKey id s.records (k.keyed s h) (running_in_found _ r e).0)
            t h)

  finish_found-keeps :
      (lower : String → String) (at emitted : ℕ) (id : String) (input : FinishInput) (s : Store)
      (found : Option ActivityRecord)
      → running_in (lookup id s.records) ≡ found
      → Reads emitted
      → P s
      → P (finish_found lower at emitted id input s found).0
  finish_found-keeps lower at emitted id input s none e t h = h
  finish_found-keeps lower at emitted id input s (some r) e t h =
      kept_under emitted id (finished lower at input r) s
        (finished_id lower at input r
          ∙ Entries-lookup OwnKey id s.records (k.keyed s h) (running_in_found _ r e).0)
        t h

  pub step-keeps :
      (lower : String → String) (c : Call) (s : Store) → Meets Reads c → P s → P (step lower c s)
  unfolding step start update finish take_snapshot subscribe snapshot_locked
  step-keeps lower (starts at emitted id route) s t h =
      if_keeps (λ (u : Store × Option ActivityRecord). P u.0) (is_empty (trim_space id)) (λ _. h)
        (λ _.
          if_keeps (λ (u : Store × Option ActivityRecord). P u.0) (has (trim_space id) s.records)
            (λ _. h) (λ _. k.keeps_record emitted (new_request (trim_space id) at route) s t h))
  step-keeps lower (updates emitted id none) s t h = h
  step-keeps lower (updates emitted id (some mutate)) s t h =
      update_found-keeps emitted id mutate s _ refl t h
  step-keeps lower (finishes at emitted id input) s t h =
      finish_found-keeps lower at emitted id input s _ refl t h
  step-keeps lower (sweeps now clock) s t h = prune_among-keeps now clock s.records s t h
  step-keeps lower (snapshots now clock emitted) s t h =
      k.emits emitted _ t.1 (prune_among-keeps now clock s.records s t.0 h)
  step-keeps lower (subscribes now clock emitted) s t h =
      k.admits emitted _ t.1 (prune_among-keeps now clock s.records s t.0 h)
  step-keeps lower (unsubscribes id) s t h = k.leaves id s h
  step-keeps lower (receives id) s t h = k.receives_one id s h
  step-keeps lower closes s t h = k.ends s h

  pub run-keeps :
      (lower : String → String) (s : Store) (cs : List Call)
      → All (Meets Reads) cs
      → P s
      → P (run lower s cs)
  unfolding run
  run-keeps lower s [] t h = h
  run-keeps lower s (c ∷ cs) t h =
      run-keeps lower (step lower c s) cs t.1 (step-keeps lower c s t.0 h)
