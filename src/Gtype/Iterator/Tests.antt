-- ===== src/Gtype/Iterator/Tests.antt =====
-- The iteration over [null, {"a": <1, 2>}].
use post_graph.Prelude.{◌≡◌, refl, false, List, [], ◌∷◌, ok}
use post_graph.Prelude.Int.{pos}
use post_graph.Gtype.Scalar.{number, Scalar}
use post_graph.Gtype.Value.{Value, Values, Fields}
use post_graph.Gtype.Iterator.{Token, Iterator, iterator_from_container}
use post_graph.Gtype.Iterator.Preorder.{Runs, preorder, iterator_from_container-Runs}

abbrev pub nested : Value
nested = Value.array false (
    Values.value (Value.scalar Scalar.null) (
      Values.value
        (Value.object (
          Fields.field (97 ∷ []) (Value.vector (number (pos 1) ∷ number (pos 2) ∷ []))
            Fields.no_fields))
        Values.no_values))

iterator_from_container-Runs_example :
    (start : List Iterator) × (iterator_from_container nested [] ≡ ok start)
    × Runs start (preorder Token.wgt_elem nested) []
iterator_from_container-Runs_example = iterator_from_container-Runs Token.wgt_elem nested [] refl
