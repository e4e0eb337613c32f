-- ===== src/Observability/Labels.antt =====
-- `MetricLabels` of src/observability/metrics.rs. Texts are compared by their characters, which is the
-- order of their bytes in UTF-8; the stable sort of the standard library is by insertion.
pub mod Sorting
use Prim.Native.Char.{code}
use kaf_py.Prelude.{ℕ, Bool, true, false, String, List, [], ◌∷◌, ◌++◌, ltb, eqb, if◌then◌else◌}

abbrev pub codes : String → List ℕ
codes String.[] = []
codes (String.◌∷◌ c s) = code c ∷ codes s

unfoldable pub codes_le : List ℕ → List ℕ → Bool
codes_le [] ds = true
codes_le (c ∷ cs) [] = false
codes_le (c ∷ cs) (d ∷ ds) =
    let rest = codes_le cs ds in if ltb c d then true else if eqb c d then rest else false

unfoldable pub str_le : String → String → Bool
unfolding codes_le
str_le s t = codes_le (codes s) (codes t)

abbrev pub MetricLabels : Type 0
MetricLabels = List (String × String)

-- The pair goes before those with a key at least its own.
unfoldable pub place : String × String → MetricLabels → MetricLabels
unfolding str_le
place (k, v) [] = (k, v) ∷ []
place (k, v) ((j, w) ∷ rest) =
    let placed = place (k, v) rest in if str_le k j then (k, v) ∷ (j, w) ∷ rest else (j, w) ∷ placed

unfoldable pub sort_by_key : MetricLabels → MetricLabels
unfolding place
sort_by_key [] = []
sort_by_key (label ∷ labels) = place label (sort_by_key labels)

unfoldable pub insert : MetricLabels → String → String → MetricLabels
unfolding sort_by_key
insert labels key value = sort_by_key (labels ++ (key, value) ∷ [])
