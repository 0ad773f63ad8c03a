-- ===== src/Models/Normalize/Distinct.antt =====
-- What the normalisation promises: one entry for each id, the last that the backend answered with.
use text.Mathlib.TextEquality.{eq_iff}
use chatgpt_codex_proxy.Base.{
  ◌≡◌, refl, ap, ◌∙◌, false, not, ◌&&◌, map, none, some, inl, inr, String, List, [], ◌∷◌, ◌++◌,
  arith, Bool-cases, Option-cases, if_keeps, if◌then◌else◌,
}
use chatgpt_codex_proxy.Base.Text.{trim_space, is_empty}
use chatgpt_codex_proxy.Base.Dict.{Dict, lookup, insert, values, lookup-insert}
use chatgpt_codex_proxy.Base.Dict.Entries.{Entries, Entries-insert, has, has-insert_self}
use chatgpt_codex_proxy.Base.Dict.Keys.{IsApart, insert-IsApart}
use chatgpt_codex_proxy.Base.Dict.Sets.{TextSet, keys, among, among-keys}
use chatgpt_codex_proxy.Models.{Entry, ReasoningEffort, entries_at}
use chatgpt_codex_proxy.Models.Normalize.{
  BackendModelEntry, normalize_backend_entry, backend_id, entry_of, Gathered, gather, gather_all,
  normalize_backend_entries, dedupe_onto, dedupe_efforts,
}

-- A map in which a later entry takes the place of an earlier one with its id.
unfoldable pub latest_entries : Dict Entry → List BackendModelEntry → Dict Entry
unfolding insert normalize_backend_entry
latest_entries m [] = m
latest_entries m (raw ∷ raws) = elim (normalize_backend_entry raw) [
  | none ↦ latest_entries m raws
  | some e ↦ latest_entries (insert e.id e m) raws
]

keys-insert :
    (k : String) (e : Entry) (m : Dict Entry)
    → keys (insert k e m) ≡ (if has k m then keys m else keys m ++ k ∷ [])
unfolding insert lookup
keys-insert k e [] = refl
keys-insert k e ((j, x) ∷ m) = ground (arith, keys-insert k e m, eq_iff j k)

-- The ids in order are the keys of the map.
gather_all-latest_entries :
    (g : Gathered) (raws : List BackendModelEntry)
    → g.order ≡ keys g.models_by_id
    → ((gather_all g raws).models_by_id ≡ latest_entries g.models_by_id raws)
      × ((gather_all g raws).order ≡ keys (gather_all g raws).models_by_id)
unfolding gather_all latest_entries
gather_all-latest_entries g [] h = (refl, h)
gather_all-latest_entries g (raw ∷ raws) h = elim (Option-cases (normalize_backend_entry raw)) [
  | inl q ↦ rw (q, gather_all, latest_entries) (gather_all-latest_entries g raws h)
  | inr (e, q) ↦
      rw (q, gather_all, latest_entries)
        (gather_all-latest_entries (gather g e) raws
          (ground (arith, h, keys-insert e.id e g.models_by_id)))
]

entries_at-skip :
    (k : String) (e : Entry) (m : Dict Entry) (ks : List String)
    → among k ks ≡ false
    → entries_at ((k, e) ∷ m) ks ≡ entries_at m ks
unfolding entries_at lookup
entries_at-skip k e m [] h = refl
entries_at-skip k e m (j ∷ ks) h = ground (arith, entries_at-skip k e m ks, eq_iff j k, eq_iff k j)

-- All entries in the order of the map.
entries_at-keys : (m : Dict Entry) → IsApart m → entries_at m (keys m) ≡ values m
unfolding entries_at lookup
entries_at-keys [] h = refl
entries_at-keys ((k, e) ∷ m) h =
    ground (
      arith,
      eq_iff k k,
      entries_at-skip k e m (keys m),
      among-keys k m,
      h.0,
      entries_at-keys m h.1,
    )

-- An id of the catalog, under which its entry stands.
abbrev pub NamedId : String → Entry → Type 0
NamedId k e = (e.id ≡ k) × (is_empty k ≡ false)

latest_entries-IsApart :
    (m : Dict Entry) (raws : List BackendModelEntry)
    → IsApart m
    → Entries NamedId m
    → IsApart (latest_entries m raws) × Entries NamedId (latest_entries m raws)
unfolding latest_entries normalize_backend_entry
latest_entries-IsApart m [] h k = (h, k)
latest_entries-IsApart m (raw ∷ raws) h k = elim (Bool-cases (is_empty (backend_id raw))) [
  | inl t ↦ rw (t, latest_entries) (latest_entries-IsApart m raws h k)
  | inr t ↦
      rw (t, latest_entries)
        (latest_entries-IsApart (insert (backend_id raw) (entry_of raw) m) raws
          (insert-IsApart (backend_id raw) (entry_of raw) m h)
          (Entries-insert NamedId (backend_id raw) (entry_of raw) m (refl, t) k))
]

-- NormalizeBackendEntries gives, in the order in which their ids come first, the last entry of
-- each id that the backend answered with: those of a map into which the entries with an id are put
-- one after the other; no id of it stands twice and none is empty.
pub normalize_backend_entries-latest_entries :
    (raws : List BackendModelEntry)
    → (normalize_backend_entries raws ≡ values (latest_entries [] raws))
      × IsApart (latest_entries [] raws)
      × Entries NamedId (latest_entries [] raws)
unfolding normalize_backend_entries
normalize_backend_entries-latest_entries raws =
    let (same, order) =
      gather_all-latest_entries (record { models_by_id = []; order = [] }) raws refl in
    let (apart, named) = latest_entries-IsApart [] raws tt tt in
    (
      ap (entries_at _) order
          ∙ ap (λ m. entries_at m (keys m)) same
          ∙ entries_at-keys (latest_entries [] raws) apart,
      apart,
      named,
    )

abbrev pub effort_keys : List ReasoningEffort → List String
effort_keys = map λ e. trim_space e.reasoning_effort

-- No text stands twice.
abbrev pub IsSeparate : List String → Type 0
IsSeparate [] = Unit
IsSeparate (k ∷ ks) = (among k ks ≡ false) × IsSeparate ks

dedupe_onto-among :
    (k : String) (seen : TextSet) (es : List ReasoningEffort)
    → among k (effort_keys (dedupe_onto seen es))
      ≡ (not (is_empty k) && (not (has k seen) && among k (effort_keys es)))
unfolding dedupe_onto
dedupe_onto-among k seen [] = ground arith
dedupe_onto-among k seen (e ∷ es) = ground (
  arith,
  dedupe_onto-among k seen es,
  dedupe_onto-among k (insert (trim_space e.reasoning_effort) tt seen) es,
  lookup-insert (trim_space e.reasoning_effort) k tt seen,
  eq_iff (trim_space e.reasoning_effort) k,
)

dedupe_onto-IsSeparate :
    (seen : TextSet) (es : List ReasoningEffort) → IsSeparate (effort_keys (dedupe_onto seen es))
unfolding dedupe_onto
dedupe_onto-IsSeparate seen [] = tt
dedupe_onto-IsSeparate seen (e ∷ es) =
    if_keeps (λ (xs : List ReasoningEffort). IsSeparate (effort_keys xs))
      (is_empty (trim_space e.reasoning_effort)) (λ _. dedupe_onto-IsSeparate seen es)
      (λ _.
        if_keeps (λ (xs : List ReasoningEffort). IsSeparate (effort_keys xs))
          (has (trim_space e.reasoning_effort) seen) (λ _. dedupe_onto-IsSeparate seen es)
          (λ _. (
            ground (
              arith,
              dedupe_onto-among (trim_space e.reasoning_effort)
                  (insert (trim_space e.reasoning_effort) tt seen) es,
              has-insert_self (trim_space e.reasoning_effort) tt seen,
            ),
            dedupe_onto-IsSeparate (insert (trim_space e.reasoning_effort) tt seen) es,
          )))

pub dedupe_efforts-IsSeparate :
    (es : List ReasoningEffort) (k : String)
    → IsSeparate (effort_keys (dedupe_efforts es))
      × (among k (effort_keys (dedupe_efforts es)) ≡ (not (is_empty k) && among k (effort_keys es)))
unfolding lookup
dedupe_efforts-IsSeparate es k = (dedupe_onto-IsSeparate [] es, dedupe_onto-among k [] es)
