-- ===== src/ToolNames/Sequence.antt =====
-- Sequences of calls of Shorten: different names stay apart, and each comes back.
use chatgpt_codex_proxy.Base.{
  suc, ◌+◌, ◌^◌, ◌≡◌, ◌≤◌, ◌<◌, refl, ap, ◌∙◌, subst, true, false, Option, none, some, List, [],
  ◌∷◌, length, is_some, arith, inl, inr, Bool-cases, Option-cases,
}
use chatgpt_codex_proxy.Base.Bytes.{Bytes, same_iff, trim}
use chatgpt_codex_proxy.ToolNames.{
  find, ToolNames, tool_name_candidate, free_candidate, shorten_new, shorten_found, is_blank,
  shorten, reserve, shorten_all, no_names, new_tool_names, restore_tool_name,
}
use chatgpt_codex_proxy.ToolNames.Suffix.{
  free_candidate-IsFree, free_candidate_found, length-tool_name_candidate,
}
use chatgpt_codex_proxy.ToolNames.Injective.{
  length-use_name, length-reserve, find-assign, IsMapping, enter_name-IsMapping, reserved-IsMapping,
}

-- What a call leaves: a mapping that has the name, and all that it had.
record Shortened (raw : Bytes) (m : ToolNames) (r : ToolNames × Bytes) : Type 0 where
  pub mapping : IsMapping r.0
  pub entry : is_blank (trim raw) ≡ false → find (trim raw) r.0.original_to_short ≡ some r.1
  pub grows : length r.0.used ≤ suc (length m.used)
  pub keeps :
      (a s : Bytes) → find a m.original_to_short ≡ some s → find a r.0.original_to_short ≡ some s

abbrev Answer : Bytes → ToolNames → Option (ToolNames × Bytes) → Type 0
Answer raw m t = (r : ToolNames × Bytes) → t ≡ some r → Shortened raw m r

Answer-some :
    (raw : Bytes) (m : ToolNames) (r : ToolNames × Bytes)
    → Shortened raw m r
    → Answer raw m (some r)
Answer-some raw m r h r' e = subst (Shortened raw m) (same_answer e) h
  where
    same_answer : Path (Option (ToolNames × Bytes)) (some r) (some r') → r ≡ r'
    same_answer q = cc

shorten_new-Answer :
    (raw : Bytes) (m : ToolNames) (c : Option Bytes)
    → IsMapping m
    → is_blank (trim raw) ≡ false
    → find (trim raw) m.original_to_short ≡ none
    → free_candidate (tool_name_candidate (trim raw)) m.used ≡ c
    → Answer raw m (shorten_new (trim raw) m c)
shorten_new-Answer raw m none h full new e = λ r q. absurd (cc q)
shorten_new-Answer raw m (some c) h full new e = Answer-some raw m _ (record {
  mapping =
      enter_name-IsMapping (trim raw) c m h
        (free_candidate-IsFree (tool_name_candidate (trim raw)) m.used c
          (length-tool_name_candidate (trim raw)) e)
        full new;
  entry = λ _. ground (
    arith,
    find-assign (trim raw) (trim raw) c m.original_to_short,
    same_iff (trim raw) (trim raw),
  );
  grows = length-use_name c m.used;
  keeps = λ a s q.
      ground (arith, find-assign (trim raw) a c m.original_to_short, same_iff (trim raw) a);
})

shorten_found-Answer :
    (raw : Bytes) (m : ToolNames) (found : Option Bytes)
    → IsMapping m
    → is_blank (trim raw) ≡ false
    → find (trim raw) m.original_to_short ≡ found
    → Answer raw m (shorten_found (trim raw) m found)
shorten_found-Answer raw m (some s) h full e =
    Answer-some raw m (m, s)
      (record { mapping = h; entry = λ _. e; grows = omega arith; keeps = λ a t q. q })
shorten_found-Answer raw m none h full e = shorten_new-Answer raw m _ h full e refl

shorten-Answer : (raw : Bytes) (m : ToolNames) → IsMapping m → Answer raw m (shorten raw m)
unfolding shorten
shorten-Answer raw m h = elim (Bool-cases (is_blank (trim raw))) [
  | inl e ↦
      rw (e, shorten)
        (Answer-some raw m (m, trim raw)
          (record {
            mapping = h;
            entry = λ q. absurd (cc (e, q));
            grows = omega arith;
            keeps = λ a t q. q;
          }))
  | inr e ↦ rw (e, shorten) (shorten_found-Answer raw m _ h e refl)
]

-- All the names of a list.
record AllShortened (raws : List Bytes) (m m' : ToolNames) : Type 0 where
  pub mapping : IsMapping m'
  pub keeps :
      (a s : Bytes) → find a m.original_to_short ≡ some s → find a m'.original_to_short ≡ some s

shorten_all-AllShortened :
    (raws : List Bytes) (m m' : ToolNames)
    → IsMapping m
    → shorten_all raws m ≡ some m'
    → AllShortened raws m m'
unfolding shorten_all
shorten_all-AllShortened [] m m' h e =
    subst (AllShortened [] m) (same_answer e) (record { mapping = h; keeps = λ a s q. q })
  where
    same_answer : Path (Option ToolNames) (some m) (some m') → m ≡ m'
    same_answer q = cc
shorten_all-AllShortened (raw ∷ raws) m m' h e = elim (Option-cases (shorten raw m)) [
  | inl q ↦ absurd (cc (rw (q, shorten_all) at e))
  | inr (r, q) ↦
      let first = shorten-Answer raw m h r q in
      let rest = shorten_all-AllShortened raws r.0 m' first.mapping (rw (q, shorten_all) at e) in
      record { mapping = rest.mapping; keeps = λ a s k. rest.keeps a s (first.keeps a s k) }
]

-- A call answers while there are few enough used names.
shorten_some :
    (raw : Bytes) (m : ToolNames) → length m.used + 2 < 10 ^ 63 → is_some (shorten raw m) ≡ true
unfolding shorten
shorten_some raw m b =
    ground (arith, free_candidate_found (tool_name_candidate (trim raw)) m.used b)

shorten_all_some :
    (raws : List Bytes) (m : ToolNames)
    → IsMapping m
    → length raws + length m.used + 2 < 10 ^ 63
    → is_some (shorten_all raws m) ≡ true
unfolding shorten_all
shorten_all_some [] m h b = refl
shorten_all_some (raw ∷ raws) m h b = elim (Option-cases (shorten raw m)) [
  | inl q ↦ absurd (ground (arith, shorten_some raw m (omega (arith, b)), q))
  | inr (r, q) ↦
      let first = shorten-Answer raw m h r q in
      rw (q, shorten_all) (shorten_all_some raws r.0 first.mapping (omega (arith, b, first.grows)))
]

-- For fewer than about 10 ^ 63 / 2 names (twice their number and two more stay below 10 ^ 63),
-- NewToolNames returns a mapping: each search for a free suffix ends and no slice bound is
-- negative.
pub new_tool_names_total :
    (raws : List Bytes)
    → length raws + length raws + 2 < 10 ^ 63
    → is_some (new_tool_names raws) ≡ true
unfolding new_tool_names
new_tool_names_total raws b =
    shorten_all_some raws (reserve raws no_names) (reserved-IsMapping raws)
      (omega (arith, b, length-reserve raws no_names))

new_tool_names-IsMapping :
    (raws : List Bytes) (m : ToolNames) → new_tool_names raws ≡ some m → IsMapping m
unfolding new_tool_names
new_tool_names-IsMapping raws m e =
    (shorten_all-AllShortened raws (reserve raws no_names) m (reserved-IsMapping raws) e).mapping

-- If a mapping that NewToolNames made shortens two names that are not blank, one after the other,
-- to the same name, the two are the same without their outer blanks.
pub shorten_apart :
    (raws : List Bytes) (m : ToolNames) (a b : Bytes) (r t : ToolNames × Bytes)
    → new_tool_names raws ≡ some m
    → shorten a m ≡ some r
    → shorten b r.0 ≡ some t
    → is_blank (trim a) ≡ false
    → is_blank (trim b) ≡ false
    → r.1 ≡ t.1
    → trim a ≡ trim b
shorten_apart raws m a b r t e ea eb fa fb q =
    let first = shorten-Answer a m (new_tool_names-IsMapping raws m e) r ea in
    let second = shorten-Answer b r.0 first.mapping t eb in
    second.mapping.one (trim a) (trim b) t.1
      (second.keeps (trim a) t.1 (first.entry fa ∙ ap some q)) (second.entry fb)

restored :
    (m : ToolNames) (a s : Bytes)
    → IsMapping m
    → find a m.original_to_short ≡ some s
    → trim s ≡ s
    → restore_tool_name s m.short_to_original ≡ a
unfolding restore_tool_name
restored m a s h e k = ground (arith, h.back a s e, h.named a s e, k, same_iff s a)

-- For a mapping that NewToolNames made, a name that is not blank, what Shorten gives for it and
-- any later calls of Shorten: the short name has at most 64 bytes, and RestoreToolName with the
-- aliases then there gives the name back without its outer blanks, if the short name has none
-- itself.
pub shorten_restored :
    (raws : List Bytes) (m : ToolNames) (a : Bytes) (more : List Bytes) (r : ToolNames × Bytes)
    (later : ToolNames)
    → new_tool_names raws ≡ some m
    → shorten a m ≡ some r
    → shorten_all more r.0 ≡ some later
    → is_blank (trim a) ≡ false
    → trim r.1 ≡ r.1
    → (length r.1 ≤ 64) × (restore_tool_name r.1 later.short_to_original ≡ trim a)
shorten_restored raws m a more r later e ea el full k =
    let first = shorten-Answer a m (new_tool_names-IsMapping raws m e) r ea in
    let rest = shorten_all-AllShortened more r.0 later first.mapping el in
    let entry = first.entry full in
    (
      first.mapping.short (trim a) r.1 entry,
      restored later (trim a) r.1 rest.mapping (rest.keeps (trim a) r.1 entry) k,
    )
