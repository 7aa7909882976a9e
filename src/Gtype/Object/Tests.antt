-- ===== src/Gtype/Object/Tests.antt =====
-- An object whose key 7 is given twice.
use post_graph.Prelude.{ℕ, ◌≡◌, refl, Bool, true, List, [], ◌∷◌, All}
use post_graph.Gtype.Object.{
  Pair, memcmp, length_compare_gtype_string_value, length_compare_gtype_pair,
  uniqueify_gtype_object,
}
use post_graph.Gtype.Object.Unique.{IsSorted, IsIncreasing, Keeps, uniqueify_gtype_object_lem}

abbrev pair : (key order : ℕ) → Pair ℕ
pair key order = record { key = key ∷ []; order = order; value = order }

-- The sort of this one list.
abbrev qsort_arg : List (Pair ℕ) → List (Pair ℕ) × Bool
qsort_arg pairs = (pair 3 1 ∷ pair 7 2 ∷ pair 7 0 ∷ [], true)

sorted : IsSorted (pair 3 1) (pair 7 2 ∷ pair 7 0 ∷ [])
unfolding length_compare_gtype_pair length_compare_gtype_string_value memcmp
sorted = (refl, (refl, tt))

uniqueify_gtype_object_lem_example :
    (out : List (Pair ℕ)) × (uniqueify_gtype_object qsort_arg (pair 7 0 ∷ pair 3 1 ∷ pair 7 2 ∷ [])
      ≡ pair 3 1 ∷ out)
    × IsIncreasing (pair 3 1) out
    × All (Keeps (pair 3 1 ∷ out)) (pair 3 1 ∷ pair 7 2 ∷ pair 7 0 ∷ [])
uniqueify_gtype_object_lem_example =
    uniqueify_gtype_object_lem qsort_arg (pair 7 0) (pair 3 1) (pair 7 2 ∷ []) (pair 3 1)
      (pair 7 2 ∷ pair 7 0 ∷ []) true refl sorted (λ e. cc e)
