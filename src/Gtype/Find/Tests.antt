-- ===== src/Gtype/Find/Tests.antt =====
-- Finding the key "b" in {"a": null, "b": true, "aa": false}.
use post_graph.Prelude.{◌≡◌, refl, true, false, [], ◌∷◌, ok, arith}
use post_graph.Gtype.Object.{memcmp, length_compare_gtype_string_value}
use post_graph.Gtype.Scalar.{Scalar}
use post_graph.Gtype.Scalar.Tests.{ops}
use post_graph.Gtype.Value.{Value, Fields, keys}
use post_graph.Gtype.Builder.Loop.{IsIncreasing}
use post_graph.Gtype.Find.{find_gtype_value_from_container}
use post_graph.Gtype.Find.Sorted.{lookup, find_gtype_value_from_container-lookup}

abbrev pairs : Fields
pairs = Fields.field (97 ∷ []) (Value.scalar Scalar.null) (
    Fields.field (98 ∷ []) (Value.scalar (Scalar.boolean true))
      (Fields.field (97 ∷ 97 ∷ []) (Value.scalar (Scalar.boolean false)) Fields.no_fields))

pairs-IsIncreasing : IsIncreasing (keys pairs)
unfolding length_compare_gtype_string_value memcmp
pairs-IsIncreasing = (refl, (refl, tt))

find_gtype_value_from_container-lookup_example :
    find_gtype_value_from_container ops 4 (Value.object pairs) false true (Scalar.string (98 ∷ []))
    ≡ ok (lookup (98 ∷ []) pairs)
find_gtype_value_from_container-lookup_example =
    find_gtype_value_from_container-lookup ops 4 pairs false (98 ∷ []) pairs-IsIncreasing
      (omega arith)
