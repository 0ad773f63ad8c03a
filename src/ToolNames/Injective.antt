-- ===== src/ToolNames/Injective.antt =====
-- What the maps of a mapping say of each other: one short name for each original, and the way back.
use chatgpt_codex_proxy.Base.{
  suc, ◌+◌, ◌≡◌, ◌≤◌, refl, sym, ◌∙◌, true, false, ◌||◌, none, some, List, [], ◌∷◌, length, ltb,
  if◌then◌else◌, arith, inl, inr, Option-cases, if_keeps,
}
use chatgpt_codex_proxy.Base.Bytes.{Bytes, same, same_iff, trim}
use chatgpt_codex_proxy.ToolNames.{
  Names, find, assign, is_used, use_name, ToolNames, enter_name, is_blank, reserve, no_names,
  max_tool_name_length,
}
use chatgpt_codex_proxy.ToolNames.Suffix.{IsFree}

pub find-assign :
    (written read value : Bytes) (m : Names)
    → find read (assign written value m) ≡ (if same written read then some value else find read m)
unfolding find assign
find-assign written read value [] = ground arith
find-assign written read value (entry ∷ rest) = ground (
  arith,
  find-assign written read value rest,
  same_iff entry.0 written,
  same_iff entry.0 read,
  same_iff written read,
)

pub record IsMapping (m : ToolNames) : Type 0 where
  pub occupied : (a s : Bytes) → find a m.original_to_short ≡ some s → is_used s m.used ≡ true
  pub short : (a s : Bytes) → find a m.original_to_short ≡ some s → length s ≤ 64
  pub one :
      (a b s : Bytes)
      → find a m.original_to_short ≡ some s
      → find b m.original_to_short ≡ some s
      → a ≡ b
  pub back :
      (a s : Bytes)
      → find a m.original_to_short ≡ some s
      → find s m.short_to_original ≡ (if same s a then none else some a)
  pub named : (a s : Bytes) → find a m.original_to_short ≡ some s → is_blank a ≡ false
  pub known : (s a : Bytes) → find s m.short_to_original ≡ some a → is_used s m.used ≡ true

is_used-use_name :
    (c s : Bytes) (used : List Bytes) → is_used s (use_name c used) ≡ (same c s || is_used s used)
unfolding is_used
is_used-use_name c s used = ground (arith, same_iff c s)

missing :
    (m : ToolNames) (c : Bytes)
    → IsMapping m
    → is_used c m.used ≡ false
    → find c m.short_to_original ≡ none
missing m c h u = elim (Option-cases (find c m.short_to_original)) [
  | inl e ↦ e
  | inr (a, e) ↦ absurd (ground (arith, h.known c a e))
]

pub enter_name-IsMapping :
    (name c : Bytes) (m : ToolNames)
    → IsMapping m
    → IsFree m.used c
    → is_blank name ≡ false
    → find name m.original_to_short ≡ none
    → IsMapping (enter_name name c m)
enter_name-IsMapping name c m h f full new = record {
  occupied = λ a s e. ground (
    arith,
    find-assign name a c m.original_to_short,
    is_used-use_name c s m.used,
    same_iff c s,
    h.occupied a s,
  );
  short = λ a s e. ground (arith, find-assign name a c m.original_to_short, h.short a s, f.short);
  one = λ a b s e e'. ground (
    arith,
    find-assign name a c m.original_to_short,
    find-assign name b c m.original_to_short,
    same_iff name a,
    same_iff name b,
    h.occupied a s,
    h.occupied b s,
    f.unused,
    h.one a b s,
  );
  back = λ a s e. ground (
    arith,
    find-assign name a c m.original_to_short,
    find-assign c s name m.short_to_original,
    same_iff name a,
    same_iff c s,
    same_iff c name,
    same_iff s a,
    h.occupied a s,
    h.back a s,
    f.unused,
    missing m c h f.unused,
  );
  named = λ a s e.
      ground (arith, find-assign name a c m.original_to_short, same_iff name a, h.named a s, full);
  known = λ s a e.
      ground
        (arith, find-assign c s name m.short_to_original, is_used-use_name c s m.used, h.known s a);
}

-- Before anything was shortened, each name stands for itself.
record IsPlain (m : ToolNames) : Type 0 where
  itself : (a s : Bytes) → find a m.original_to_short ≡ some s → s ≡ a
  fits : (a s : Bytes) → find a m.original_to_short ≡ some s → length s ≤ 64
  full : (a s : Bytes) → find a m.original_to_short ≡ some s → is_blank a ≡ false
  entered : (a s : Bytes) → find a m.original_to_short ≡ some s → is_used s m.used ≡ true
  no_alias : m.short_to_original ≡ []

reserve-IsPlain : (raws : List Bytes) (m : ToolNames) → IsPlain m → IsPlain (reserve raws m)
unfolding reserve
reserve-IsPlain [] m h = h
reserve-IsPlain (raw ∷ raws) m h =
    if_keeps IsPlain (is_blank name || ltb max_tool_name_length (length name))
      (λ _. reserve-IsPlain raws m h) (λ e. reserve-IsPlain raws _ (next e))
  where
    name : Bytes
    name = trim raw

    next :
        (is_blank name || ltb 64 (length name)) ≡ false
        → IsPlain (record m {
          original_to_short = assign name name m.original_to_short;
          used = use_name name m.used;
        })
    next e = record {
      itself = λ a s q.
          ground
            (arith, find-assign name a name m.original_to_short, same_iff name a, h.itself a s);
      fits = λ a s q. ground (arith, find-assign name a name m.original_to_short, h.fits a s);
      full = λ a s q.
          ground (arith, find-assign name a name m.original_to_short, same_iff name a, h.full a s);
      entered = λ a s q. ground (
        arith,
        find-assign name a name m.original_to_short,
        is_used-use_name name s m.used,
        same_iff name s,
        h.entered a s,
      );
      no_alias = h.no_alias;
    }

plain-IsMapping : (m : ToolNames) → IsPlain m → IsMapping m
unfolding find
plain-IsMapping m h = record {
  occupied = h.entered;
  short = h.fits;
  one = λ a b s e e'. sym (h.itself a s e) ∙ h.itself b s e';
  back = λ a s e. ground (arith, h.itself a s e, h.no_alias, same_iff s a);
  named = h.full;
  known = λ s a e. ground (arith, h.no_alias);
}

no_names-IsPlain : IsPlain no_names
unfolding find
no_names-IsPlain = record {
  itself = λ a s e. absurd (cc e);
  fits = λ a s e. absurd (cc e);
  full = λ a s e. absurd (cc e);
  entered = λ a s e. absurd (cc e);
  no_alias = refl;
}

pub reserved-IsMapping : (raws : List Bytes) → IsMapping (reserve raws no_names)
reserved-IsMapping raws = plain-IsMapping _ (reserve-IsPlain raws no_names no_names-IsPlain)

pub length-use_name : (c : Bytes) (used : List Bytes) → length (use_name c used) ≤ suc (length used)
length-use_name c used = ground arith

pub length-reserve :
    (raws : List Bytes) (m : ToolNames) → length (reserve raws m).used ≤ length raws + length m.used
unfolding reserve
length-reserve [] m = omega arith
length-reserve (raw ∷ raws) m =
    if_keeps (λ (t : ToolNames). length t.used ≤ suc (length raws) + length m.used)
      (is_blank (trim raw) || ltb max_tool_name_length (length (trim raw)))
      (λ _. omega (arith, length-reserve raws m))
      (λ _. omega (arith, length-reserve raws _, length-use_name (trim raw) m.used))
