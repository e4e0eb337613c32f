-- ===== src/Observability/Labels/Sorting.antt =====
-- The order of the labels of a metric, src/observability/metrics.rs.
use mathlib.Core.List.{Perm, append-nil, append_assoc}
use mathlib.Core.List.Perm
use kaf_py.Prelude.{
  ℕ, ◌≡◌, refl, true, false, String, List, [], ◌∷◌, ◌++◌, arith, Bool-cases, inl, inr, All,
}
use kaf_py.Observability.Labels.{MetricLabels, codes, codes_le, str_le, place, sort_by_key, insert}

codes_le_total : (cs ds : List ℕ) → codes_le cs ds ≡ false → codes_le ds cs ≡ true
unfolding codes_le
codes_le_total [] ds h = cc
codes_le_total (c ∷ cs) [] h = refl
codes_le_total (c ∷ cs) (d ∷ ds) h = ground (arith, codes_le_total cs ds)

codes_le_trans :
    (cs ds es : List ℕ) → codes_le cs ds ≡ true → codes_le ds es ≡ true → codes_le cs es ≡ true
unfolding codes_le
codes_le_trans [] ds es h k = refl
codes_le_trans (c ∷ cs) [] es h k = cc
codes_le_trans (c ∷ cs) (d ∷ ds) [] h k = cc
codes_le_trans (c ∷ cs) (d ∷ ds) (e ∷ es) h k = ground (arith, codes_le_trans cs ds es)

abbrev pub Below : String → MetricLabels → Type 0
Below k = All (λ p. str_le k p.0 ≡ true)

-- Each key is at most all that follow.
abbrev pub IsSorted : MetricLabels → Type 0
IsSorted [] = Unit
IsSorted ((k, v) ∷ labels) = Below k labels × IsSorted labels

Below-trans :
    (j k : String) (labels : MetricLabels) → str_le j k ≡ true → Below k labels → Below j labels
unfolding str_le
Below-trans j k [] h below = tt
Below-trans j k ((i, v) ∷ labels) h below =
    (codes_le_trans (codes j) (codes k) (codes i) h below.0, Below-trans j k labels h below.1)

place-Below :
    (j k v : String) (labels : MetricLabels)
    → str_le j k ≡ true
    → Below j labels
    → Below j (place (k, v) labels)
unfolding place
place-Below j k v [] h below = (h, tt)
place-Below j k v ((i, w) ∷ labels) h below = elim (Bool-cases (str_le k i)) [
  | inl before ↦ rw before (h, below)
  | inr after ↦ rw after (below.0, place-Below j k v labels h below.1)
]

place-IsSorted :
    (k v : String) (labels : MetricLabels) → IsSorted labels → IsSorted (place (k, v) labels)
unfolding place
place-IsSorted k v [] sorted = (tt, tt)
place-IsSorted k v ((j, w) ∷ labels) sorted = elim (Bool-cases (str_le k j)) [
  | inl before ↦ rw before ((before, Below-trans k j labels before sorted.0), sorted)
  | inr after ↦ rw after (
    place-Below j k v labels (codes_le_total (codes k) (codes j) after) sorted.0,
    place-IsSorted k v labels sorted.1,
  )
]

sort_by_key-IsSorted : (labels : MetricLabels) → IsSorted (sort_by_key labels)
unfolding sort_by_key
sort_by_key-IsSorted [] = tt
sort_by_key-IsSorted ((k, v) ∷ labels) =
    place-IsSorted k v (sort_by_key labels) (sort_by_key-IsSorted labels)

place-perm : (p : String × String) (labels : MetricLabels) → Perm (place p labels) (p ∷ labels)
unfolding place
place-perm (k, v) [] = Perm.rfl
place-perm (k, v) ((j, w) ∷ labels) = elim (Bool-cases (str_le k j)) [
  | inl before ↦ rw before (Perm.rfl)
  | inr after ↦
      rw after
        (Perm.trans (Perm.cons (j, w) (place-perm (k, v) labels)) (Perm.swap (k, v) (j, w) labels))
]

sort_by_key-perm : (labels : MetricLabels) → Perm (sort_by_key labels) labels
unfolding sort_by_key
sort_by_key-perm [] = Perm.rfl
sort_by_key-perm (p ∷ labels) =
    Perm.trans (place-perm p (sort_by_key labels)) (Perm.cons p (sort_by_key-perm labels))

-- The calls of `insert` one after the other.
abbrev pub insert_all : MetricLabels → List (String × String) → MetricLabels
insert_all labels [] = labels
insert_all labels ((k, v) ∷ rest) = insert_all (insert labels k v) rest

insert_all-perm :
    (labels : MetricLabels) (rest : List (String × String))
    → Perm (insert_all labels rest) (labels ++ rest)
unfolding insert
insert_all-perm labels [] = rw (append-nil labels) (Perm.rfl)
insert_all-perm labels ((k, v) ∷ rest) = Perm.trans (insert_all-perm (insert labels k v) rest) (
    rw (append_assoc labels ((k, v) ∷ []) rest) at
      (Perm.append_right rest (sort_by_key-perm (labels ++ (k, v) ∷ []))))

insert_all-IsSorted :
    (labels : MetricLabels) (rest : List (String × String))
    → IsSorted labels
    → IsSorted (insert_all labels rest)
unfolding insert
insert_all-IsSorted labels [] sorted = sorted
insert_all-IsSorted labels ((k, v) ∷ rest) sorted =
    insert_all-IsSorted (insert labels k v) rest (sort_by_key-IsSorted (labels ++ (k, v) ∷ []))

-- The labels that come of any sequence of calls of `insert` are sorted by their keys, and hold the
-- pairs of the calls, each as often as it was inserted.
pub insert_all-sorts :
    (pairs : List (String × String))
    → IsSorted (insert_all [] pairs) × Perm (insert_all [] pairs) pairs
insert_all-sorts pairs = (insert_all-IsSorted [] pairs tt, insert_all-perm [] pairs)
