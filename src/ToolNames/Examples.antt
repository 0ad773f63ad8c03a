-- ===== src/ToolNames/Examples.antt =====
-- Two long names with the same first 64 bytes.
use chatgpt_codex_proxy.Base.{
  ◌≡◌, ◌≤◌, refl, true, false, some, List, [], ◌∷◌, length, is_some, arith,
}
use chatgpt_codex_proxy.Base.Bytes.{Bytes, bytes, trim}
use chatgpt_codex_proxy.ToolNames.{
  ToolNames, new_tool_names, reserve, shorten, shorten_all, is_blank, restore_tool_name,
}
use chatgpt_codex_proxy.ToolNames.Sequence.{new_tool_names_total, shorten_apart, shorten_restored}

abbrev long_name : Bytes
long_name = bytes "aaaaaaaaaaaaaaaaaaaaaaaaaaaaaaaaaaaaaaaaaaaaaaaaaaaaaaaaaaaaaaaabcd"

abbrev twin : Bytes
twin = bytes "aaaaaaaaaaaaaaaaaaaaaaaaaaaaaaaaaaaaaaaaaaaaaaaaaaaaaaaaaaaaaaaaxyz"

abbrev short_name : Bytes
short_name = bytes "aaaaaaaaaaaaaaaaaaaaaaaaaaaaaaaaaaaaaaaaaaaaaaaaaaaaaaaaaaaaaaaa"

abbrev short_twin : Bytes
short_twin = bytes "aaaaaaaaaaaaaaaaaaaaaaaaaaaaaaaaaaaaaaaaaaaaaaaaaaaaaaaaaaaaaa_1"

abbrev offered : List Bytes
offered = long_name ∷ bytes " run " ∷ []

abbrev mapping : ToolNames
mapping = record {
  original_to_short = (bytes "run", bytes "run") ∷ (long_name, short_name) ∷ [];
  short_to_original = (short_name, long_name) ∷ [];
  used = short_name ∷ bytes "run" ∷ [];
}

abbrev with_twin : ToolNames
with_twin = record {
  original_to_short =
      (bytes "run", bytes "run") ∷ (long_name, short_name) ∷ (twin, short_twin) ∷ [];
  short_to_original = (short_name, long_name) ∷ (short_twin, twin) ∷ [];
  used = short_twin ∷ short_name ∷ bytes "run" ∷ [];
}

offered-mapping : new_tool_names offered ≡ some mapping
unfolding new_tool_names reserve shorten_all shorten
offered-mapping = refl

twin-shortened : shorten twin mapping ≡ some (with_twin, short_twin)
unfolding shorten
twin-shortened = refl

again-shortened : shorten twin with_twin ≡ some (with_twin, short_twin)
unfolding shorten
again-shortened = refl

twin-full : is_blank (trim twin) ≡ false
unfolding trim
twin-full = refl

short_twin-trimmed : trim short_twin ≡ short_twin
unfolding trim
short_twin-trimmed = refl

long-later : shorten_all offered with_twin ≡ some with_twin
unfolding shorten_all shorten
long-later = refl

new_tool_names_total_example : is_some (new_tool_names offered) ≡ true
new_tool_names_total_example = new_tool_names_total offered (omega arith)

shorten_apart_example : trim twin ≡ trim twin
shorten_apart_example =
    shorten_apart offered mapping twin twin (with_twin, short_twin) (with_twin, short_twin)
      offered-mapping twin-shortened again-shortened twin-full twin-full refl

shorten_restored_example :
    (length short_twin ≤ 64)
    × (restore_tool_name short_twin with_twin.short_to_original ≡ trim twin)
shorten_restored_example =
    shorten_restored offered mapping twin offered (with_twin, short_twin) with_twin offered-mapping
      twin-shortened long-later twin-full short_twin-trimmed
