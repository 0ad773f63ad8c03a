-- ===== src/ToolNames.antt =====
-- internal/turn/tool_names.go: tool names of at most 64 bytes, and the way back. Names are bytes, since the code
-- measures and cuts them. The three maps are association lists, the used names a list.
pub mod Suffix
pub mod Injective
pub mod Sequence
mod Examples
use chatgpt_codex_proxy.Base.{
  ℕ, zero, suc, ◌+◌, ◌-◌, ◌≡◌, refl, Bool, true, false, ◌&&◌, ◌||◌, not, Option, none, some, List,
  [], ◌∷◌, ◌++◌, length, ltb, leb, ◌==◌, if◌then◌else◌, is_some,
}
use chatgpt_codex_proxy.Base.Bytes.{Bytes, bytes, same, take, trim}
use chatgpt_codex_proxy.Base.Bytes.Decimal.{itoa}

abbrev pub max_tool_name_length : ℕ
max_tool_name_length = 64

abbrev pub Names : Type 0
Names = List (Bytes × Bytes)

unfoldable pub find : Bytes → Names → Option Bytes
unfolding same
find key [] = none
find key (entry ∷ rest) = elim (same entry.0 key) [ true ↦ some entry.1 | false ↦ find key rest ]

-- `m[key] = value`
unfoldable pub assign : Bytes → Bytes → Names → Names
unfolding same
assign key value [] = (key, value) ∷ []
assign key value (entry ∷ rest) =
    let unchanged = entry ∷ assign key value rest in
    elim (same entry.0 key) [ true ↦ (key, value) ∷ rest | false ↦ unchanged ]

unfoldable pub is_used : Bytes → List Bytes → Bool
unfolding same
is_used name [] = false
is_used name (n ∷ ns) = same n name || is_used name ns

-- `used[name] = struct{}{}`
abbrev pub use_name : Bytes → List Bytes → List Bytes
use_name name used = if is_used name used then used else name ∷ used

pub record ToolNames : Type 0 where
  pub original_to_short : Names
  pub short_to_original : Names
  pub used : List Bytes

-- `strings.HasPrefix(name, "mcp__")`
abbrev is_mcp : Bytes → Bool
is_mcp name = same (take 5 name) (bytes "mcp__")

abbrev follows : Bytes → Option Bytes
follows [] = none
follows (c ∷ s) = if c == 95 then some s else none

-- What follows the last "__": `name[index+2:]`. After the prefix "mcp__" the index is at least 3.
unfoldable pub after_last_separator : Bytes → Option Bytes
after_last_separator [] = none
after_last_separator (c ∷ s) =
    let here = if c == 95 then follows s else none in
    elim (after_last_separator s) [ some t ↦ some t | none ↦ here ]

unfoldable pub tool_name_candidate : Bytes → Bytes
unfolding same take after_last_separator
tool_name_candidate name =
    if leb (length name) max_tool_name_length
    then name
    else if is_mcp name
    then elim (after_last_separator name) [
      | some t ↦ take max_tool_name_length (bytes "mcp__" ++ t)
      | none ↦ take max_tool_name_length name
    ]
    else take max_tool_name_length name

abbrev pub suffix : ℕ → Bytes
suffix number = 95 ∷ itoa number

-- The candidate with a suffix; a suffix that is too long gives a negative bound, a panic.
unfoldable pub suffixed : Bytes → ℕ → Option Bytes
unfolding take itoa
suffixed base number =
    let s = suffix number in
    if ltb max_tool_name_length (length s)
    then none
    else some (take (max_tool_name_length - length s) base ++ s)

-- The loop over suffixes, in at most so many steps.
unfoldable pub free_suffix : Bytes → List Bytes → ℕ → ℕ → Option Bytes
unfolding suffixed is_used
free_suffix base used zero number = none
free_suffix base used (suc fuel) number =
    let later = free_suffix base used fuel (number + 1) in
    elim (suffixed base number) [
      | none ↦ none
      | some candidate ↦ if is_used candidate used then later else some candidate
    ]

-- One suffix more than there are used names is tried: one of them is free.
unfoldable pub free_candidate : Bytes → List Bytes → Option Bytes
unfolding free_suffix is_used
free_candidate candidate used =
    if is_used candidate used
    then free_suffix candidate used (suc (length used)) 1
    else some candidate

abbrev pub enter_name : Bytes → Bytes → ToolNames → ToolNames
enter_name name candidate m = record {
  original_to_short = assign name candidate m.original_to_short;
  used = use_name candidate m.used;
  short_to_original =
      if same candidate name
      then m.short_to_original
      else assign candidate name m.short_to_original;
}

-- Of a name that is trimmed, not empty and new.
abbrev pub shorten_new : Bytes → ToolNames → Option Bytes → Option (ToolNames × Bytes)
shorten_new name m none = none
shorten_new name m (some candidate) = some (enter_name name candidate m, candidate)

abbrev pub shorten_found : Bytes → ToolNames → Option Bytes → Option (ToolNames × Bytes)
shorten_found name m (some short) = some (m, short)
shorten_found name m none = shorten_new name m (free_candidate (tool_name_candidate name) m.used)

abbrev pub is_blank : Bytes → Bool
is_blank [] = true
is_blank (_ ∷ _) = false

-- `Shorten` on a mapping that is not nil; `none` is a panic.
unfoldable pub shorten : Bytes → ToolNames → Option (ToolNames × Bytes)
unfolding trim find assign free_candidate tool_name_candidate
shorten raw m =
    let name = trim raw in
    if is_blank name then some (m, name) else shorten_found name m (find name m.original_to_short)

-- The first loop of `NewToolNames`: a name that is short enough stands for itself.
unfoldable pub reserve : List Bytes → ToolNames → ToolNames
unfolding trim assign is_used
reserve [] m = m
reserve (raw ∷ raws) m =
    let name = trim raw in
    let skipped = reserve raws m in
    let entered = reserve raws (record m {
      original_to_short = assign name name m.original_to_short;
      used = use_name name m.used;
    }) in
    if is_blank name || ltb max_tool_name_length (length name) then skipped else entered

-- The second loop.
unfoldable pub shorten_all : List Bytes → ToolNames → Option ToolNames
unfolding shorten
shorten_all [] m = some m
shorten_all (raw ∷ raws) m = elim (shorten raw m) [ none ↦ none | some r ↦ shorten_all raws r.0 ]

abbrev pub no_names : ToolNames
no_names = record { original_to_short = []; short_to_original = []; used = [] }

unfoldable pub new_tool_names : List Bytes → Option ToolNames
unfolding reserve shorten_all
new_tool_names raws = shorten_all raws (reserve raws no_names)

-- `RestoreToolName`, with the aliases of a mapping: an entry that is missing reads as empty.
abbrev pub or_name : Bytes → Option Bytes → Bytes
or_name name none = name
or_name name (some original) = if is_blank original then name else original

unfoldable pub restore_tool_name : Bytes → Names → Bytes
unfolding trim find
restore_tool_name name aliases = or_name name (find (trim name) aliases)

-- `UpstreamToolName`: the first short name of an original, in the order of the map.
unfoldable pub short_of : Bytes → Names → Option Bytes
unfolding same
short_of original [] = none
short_of original (entry ∷ rest) = elim (same entry.1 original) [
  | true ↦ some entry.0
  | false ↦ short_of original rest
]

abbrev pub or_else_name : Bytes → Option Bytes → Bytes
or_else_name name none = name
or_else_name name (some short) = short

unfoldable pub upstream_tool_name : Bytes → Names → Bytes
unfolding trim short_of
upstream_tool_name name aliases = or_else_name name (short_of (trim name) aliases)

-- `maps.Copy(previous, current)`
unfoldable pub copy_names : Names → Names → Names
unfolding assign
copy_names [] merged = merged
copy_names (entry ∷ rest) merged = copy_names rest (assign entry.0 entry.1 merged)

-- `MergeToolNameAliases`
unfoldable pub merge_tool_name_aliases : Names → Names → Names
unfolding copy_names
merge_tool_name_aliases current [] = current
merge_tool_name_aliases current (entry ∷ rest) = copy_names current (entry ∷ rest)
