-- ===== src/Activity/Advance.antt =====
-- What holds of every record along its life: it only goes forward, and its texts are short.
use chatgpt_codex_proxy.Base.{
  ℕ, zero, suc, ◌≡◌, ◌≤◌, refl, sym, ap, ◌∙◌, true, false, not, Option, none, some, String, List,
  [], ◌∷◌, ◌⊎◌, inl, inr, arith, if_keeps, is_some,
}
use chatgpt_codex_proxy.Base.Text.{trim_space}
use chatgpt_codex_proxy.Base.Dict.{lookup}
use chatgpt_codex_proxy.Activity.Records.{
  ActivityRecord, Phase, FinishInput, Outcome, succeeded, failed, cancelled, timed_out, active,
  other_outcome, phase_rank, is_active, is_complete, is_running, first_runes, sanitize_metadata,
  sanitize_route, before_query, is_path, kept_phase, sanitize_record_update, terminal_outcome,
  finished,
}
use chatgpt_codex_proxy.Activity.{Store, new_store, new_request, has_expired}
use chatgpt_codex_proxy.Activity.Calls.{Call, step, run}
use chatgpt_codex_proxy.Activity.Swept.{Slot}
use chatgpt_codex_proxy.Activity.Life.{
  Life, stays, begins, changes, ends_with, expires, step-Life, IsMap, step-IsMap, run-IsMap,
}

abbrev pub runes : String → ℕ
runes String.[] = 0
runes (String.◌∷◌ c s) = suc (runes s)

first_runes-short : (n : ℕ) (s : String) → runes (first_runes n s) ≤ n
unfolding first_runes
first_runes-short zero s = omega arith
first_runes-short (suc n) String.[] = omega arith
first_runes-short (suc n) (String.◌∷◌ c s) = omega (arith, first_runes-short n s)

sanitize_metadata-short : (value : String) → runes (sanitize_metadata value) ≤ 200
unfolding sanitize_metadata
sanitize_metadata-short value = first_runes-short 200 (trim_space value)

sanitize_route-short : (value : String) → runes (sanitize_route value) ≤ 200
unfolding sanitize_route
sanitize_route-short value =
    if_keeps (λ t. runes t ≤ 200) (is_path (before_query (trim_space value)))
      (λ _. sanitize_metadata-short (before_query (trim_space value))) (λ _. omega arith)

-- Short texts, a phase that is one of the five, and an end exactly where it is neither active nor
-- on its way.
pub record IsTidy (r : ActivityRecord) : Type 0 where
  pub route_short : runes r.route ≤ 200
  pub model_short : runes r.model ≤ 200
  pub account_id_short : runes r.account_id ≤ 200
  pub account_label_short : runes r.account_label ≤ 200
  pub ranked : 1 ≤ phase_rank r.phase
  pub active_until : is_active r.outcome ≡ not (is_complete r.phase)
  pub ended_when : is_some r.ended_at ≡ is_complete r.phase

abbrev pub TidyAt : Slot → Type 0
TidyAt none = Unit
TidyAt (some r) = IsTidy r

new_request-IsTidy : (id : String) (at : ℕ) (route : String) → IsTidy (new_request id at route)
new_request-IsTidy id at route = record {
  route_short = sanitize_route-short route;
  model_short = omega arith;
  account_id_short = omega arith;
  account_label_short = omega arith;
  ranked = omega arith;
  active_until = refl;
  ended_when = refl;
}

kept_phase-ranked :
    (next before : Phase) → 1 ≤ phase_rank before → 1 ≤ phase_rank (kept_phase next before)
kept_phase-ranked next before h = ground arith

kept_phase-rises : (next before : Phase) → phase_rank before ≤ phase_rank (kept_phase next before)
kept_phase-rises next before = ground arith

kept_phase-open :
    (next before : Phase)
    → is_complete before ≡ false
    → is_complete (kept_phase next before) ≡ false
kept_phase-open next before h = ground arith

running_open :
    (r : ActivityRecord)
    → is_running r ≡ true
    → (is_active r.outcome ≡ true) × (is_complete r.phase ≡ false)
unfolding is_running
running_open r h = ground arith

changed-IsTidy :
    (r next : ActivityRecord)
    → is_running r ≡ true
    → IsTidy r
    → IsTidy (sanitize_record_update next r)
unfolding sanitize_record_update
changed-IsTidy r next running h =
    let (going, on_way) = running_open r running in
    let later = kept_phase-open next.phase r.phase on_way in
    record {
      route_short = sanitize_route-short next.route;
      model_short = sanitize_metadata-short next.model;
      account_id_short = sanitize_metadata-short next.account_id;
      account_label_short = sanitize_metadata-short next.account_label;
      ranked = kept_phase-ranked next.phase r.phase h.ranked;
      active_until = going ∙ sym (ap not later);
      ended_when = h.ended_when ∙ on_way ∙ sym later;
    }

terminal_outcome-over : (o : Outcome) → is_active (terminal_outcome o) ≡ false
terminal_outcome-over succeeded = refl
terminal_outcome-over failed = refl
terminal_outcome-over cancelled = refl
terminal_outcome-over timed_out = refl
terminal_outcome-over active = refl
terminal_outcome-over (other_outcome _) = refl

finished-IsTidy :
    (lower : String → String) (at : ℕ) (input : FinishInput) (r : ActivityRecord)
    → IsTidy r
    → IsTidy (finished lower at input r)
unfolding finished
finished-IsTidy lower at input r h = record {
  route_short = h.route_short;
  model_short = h.model_short;
  account_id_short = h.account_id_short;
  account_label_short = h.account_label_short;
  ranked = omega arith;
  active_until = terminal_outcome-over input.outcome;
  ended_when = refl;
}

Life-TidyAt : (before after : Slot) → Life before after → TidyAt before → TidyAt after
Life-TidyAt _ _ (stays o) h = h
Life-TidyAt _ _ (begins id at route) h = new_request-IsTidy id at route
Life-TidyAt _ _ (changes r next running) h = changed-IsTidy r next running h
Life-TidyAt _ _ (ends_with lower at input r running) h = finished-IsTidy lower at input r h
Life-TidyAt _ _ (expires r now retention over) h = tt

-- A record goes forward: it keeps its id and its start, its phase does not go back, only one that
-- is active and not complete changes, and only one that has ended goes.
abbrev pub Advances : Slot → Slot → Type 0
Advances none after = Unit
Advances (some r) none = is_some r.ended_at ≡ true
Advances (some r) (some next) =
    (next.id ≡ r.id)
    × (next.started_at ≡ r.started_at)
    × (phase_rank r.phase ≤ phase_rank next.phase)
    × ((is_running r ≡ true) ⊎ (next ≡ r))

over_ended :
    (now retention : ℕ) (ended : Option ℕ)
    → has_expired now retention ended ≡ true
    → is_some ended ≡ true
over_ended now retention none h = absurd (cc h)
over_ended now retention (some _) h = refl

below_complete : (p : Phase) → phase_rank p ≤ 5
below_complete p = ground arith

Life-Advances : (before after : Slot) → Life before after → Advances before after
unfolding sanitize_record_update finished
Life-Advances _ _ (stays none) = tt
Life-Advances _ _ (stays (some r)) = (refl, refl, omega arith, inr refl)
Life-Advances _ _ (begins id at route) = tt
Life-Advances _ _ (changes r next running) =
    (refl, refl, kept_phase-rises next.phase r.phase, inl running)
Life-Advances _ _ (ends_with lower at input r running) =
    (refl, refl, below_complete r.phase, inl running)
Life-Advances _ _ (expires r now retention over) = over_ended now retention r.ended_at over

tidy_on :
    (lower : String → String) (s : Store) (cs : List Call)
    → IsMap s
    → ((key : String) → TidyAt (lookup key s.records))
    → (key : String) → TidyAt (lookup key (run lower s cs).records)
unfolding run
tidy_on lower s [] h tidy key = tidy key
tidy_on lower s (c ∷ cs) h tidy key =
    tidy_on lower (step lower c s) cs (step-IsMap lower c s h)
      (λ k. Life-TidyAt _ _ (step-Life lower c s k h.apart) (tidy k)) key

-- After every sequence of calls of a new store, each record has a route, a model, an account and a
-- label of at most 200 characters and a known phase; it is active exactly while it is not
-- complete, and has an end exactly when it is.
pub run-TidyAt :
    (lower : String → String) (terminal_retention subscriber_buffer : ℕ) (cs : List Call)
    (key : String)
    → TidyAt (lookup key (run lower (new_store terminal_retention subscriber_buffer) cs).records)
unfolding new_store lookup run
run-TidyAt lower terminal_retention subscriber_buffer cs key =
    tidy_on lower (new_store terminal_retention subscriber_buffer) cs
      (run-IsMap lower terminal_retention subscriber_buffer []) (λ k. tt) key

-- After every sequence of calls of a new store, a further call leaves under each key the record
-- that was there, or one with the same id and start and a phase no earlier, if that record was
-- active and not complete, or none, if that record had ended.
pub step-Advances :
    (lower : String → String) (terminal_retention subscriber_buffer : ℕ) (cs : List Call) (c : Call)
    (key : String)
    → Advances
        (lookup key (run lower (new_store terminal_retention subscriber_buffer) cs).records)
        (lookup key
          (step lower c (run lower (new_store terminal_retention subscriber_buffer) cs)).records)
step-Advances lower terminal_retention subscriber_buffer cs c key = Life-Advances _ _ (
    step-Life lower c (run lower (new_store terminal_retention subscriber_buffer) cs) key
      (run-IsMap lower terminal_retention subscriber_buffer cs).apart)
