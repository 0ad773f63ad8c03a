-- ===== src/Base/Dict/Sets.antt =====
-- Go's `map[string]struct{}`: sets of texts.
use Prim.Native.String.{String}
use mathlib.Core.Path.{◌≡◌, refl}
use mathlib.Core.Bool.{Bool, false, ◌||◌}
use mathlib.Core.List.{List, [], ◌∷◌}
use native.Mathlib.Omega.{arith}
use text.Mathlib.Text.{◌==◌}
use chatgpt_codex_proxy.Base.Dict.{Dict, lookup, insert, lookup-insert}
use chatgpt_codex_proxy.Base.Dict.Entries.{has}

abbrev pub TextSet : Type 0
TextSet = Dict (Unit {0})

abbrev pub keys {ℓ} : {V : Type ℓ} → Dict V → List String
keys [] = []
keys ((k, _) ∷ m) = k ∷ keys m

unfoldable pub add_all : List String → TextSet → TextSet
unfolding insert
add_all [] m = m
add_all (k ∷ ks) m = add_all ks (insert k tt m)

-- `maps.Copy(into, from)` on sets
unfoldable pub copy_into : TextSet → TextSet → TextSet
unfolding add_all
copy_into into from = add_all (keys from) into

abbrev pub among : String → List String → Bool
among k [] = false
among k (j ∷ js) = j == k || among k js

pub has-add_all :
    (k : String) (ks : List String) (m : TextSet) → has k (add_all ks m) ≡ (has k m || among k ks)
unfolding add_all
has-add_all k [] m = ground arith
has-add_all k (j ∷ js) m = ground (arith, has-add_all k js (insert j tt m), lookup-insert j k tt m)

pub among-keys {ℓ} : {V : Type ℓ} (k : String) (m : Dict V) → among k (keys m) ≡ has k m
unfolding lookup
among-keys k [] = refl
among-keys k ((j, _) ∷ m) = ground (arith, among-keys k m)

pub has-copy_into :
    (k : String) (into from : TextSet) → has k (copy_into into from) ≡ (has k into || has k from)
unfolding copy_into
has-copy_into k into from = ground (arith, has-add_all k (keys from) into, among-keys k from)
