-- ===== src/Base/Maps.antt =====
-- Go's `map[string]string` as an association list, the newest entry of a key replacing the older.
use native.Mathlib.Omega.{arith}
use mathlib.Core.Path.{◌≡◌, refl, ◌∙◌}
use mathlib.Core.Option.{Option, none, some}
use mathlib.Core.List.{List, [], ◌∷◌}
use mathlib.Core.Bool.{Bool, true, false}
use llm_d_scheduler_sim_oper.Base.Tests.{if◌then◌else◌, str_eq, str_eq_iff}
use Prim.Native.String.{String}

abbrev pub Labels : Type 0
Labels = List (String × String)

-- `m[k]`, with `none` for a missing key.
unfoldable pub lookup : String → Labels → Option String
lookup k [] = none
lookup k ((j, v) ∷ m) = if str_eq j k then some v else lookup k m

-- `m[k] = v`.
unfoldable pub insert : String → String → Labels → Labels
insert k v [] = (k, v) ∷ []
insert k v ((j, w) ∷ m) = if str_eq j k then (k, v) ∷ m else (j, w) ∷ insert k v m

-- `for k, v := range new { m[k] = v }`.
unfoldable pub merge : Labels → Labels → Labels
unfolding insert
merge [] m = m
merge ((k, v) ∷ new) m = merge new (insert k v m)

-- `len(m) == 0`.
abbrev pub is_empty_map : Labels → Bool
is_empty_map [] = true
is_empty_map (_ ∷ _) = false

pub lookup-insert :
    (k j v : String) (m : Labels)
    → lookup j (insert k v m) ≡ (if str_eq k j then some v else lookup j m)
unfolding lookup insert
lookup-insert k j v [] = refl
lookup-insert k j v ((i, w) ∷ m) =
    ground (arith, str_eq_iff k j, str_eq_iff i k, str_eq_iff i j, lookup-insert k j v m)

-- Writing the value that a key has already changes nothing.
pub insert_same : (k v : String) (m : Labels) → lookup k m ≡ some v → insert k v m ≡ m
unfolding lookup insert
insert_same k v [] e = cc
insert_same k v ((j, w) ∷ m) e = ground (arith, str_eq_iff j k, insert_same k v m)

pub insert_again : (k v : String) (m : Labels) → insert k v (insert k v m) ≡ insert k v m
insert_again k v m =
    insert_same k v (insert k v m) (lookup-insert k k v m ∙ (rw ((str_eq_iff k k).1 refl) refl))

-- So does merging entries that are there.
pub merge_same :
    (j v k w : String) (m : Labels)
    → lookup j m ≡ some v
    → lookup k m ≡ some w
    → merge ((j, v) ∷ (k, w) ∷ []) m ≡ m
unfolding merge
merge_same j v k w m hj hk = rw (insert_same j v m hj) (insert_same k w m hk)
