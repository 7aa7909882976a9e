-- ===== src/Gtype/Contains/Tests.antt =====
-- [null, {"a": null, "b": [true]}] contains [{"b": []}].
use post_graph.Prelude.{◌≤◌, ◌≡◌, refl, true, false, [], ◌∷◌, ok, arith}
use post_graph.Gtype.Object.{memcmp, length_compare_gtype_string_value}
use post_graph.Gtype.Scalar.{Scalar}
use post_graph.Gtype.Scalar.Tests.{ops}
use post_graph.Gtype.Value.{Value, Values, Fields}
use post_graph.Gtype.Contains.{call_nested, gtype_deep_contains}
use post_graph.Gtype.Contains.Spec.{any, contained}
use post_graph.Gtype.Contains.Loops.{IsOrdered}
use post_graph.Gtype.Contains.Contained.{size, gtype_deep_contains-contained}
use post_graph.Gtype.Find.Sorted.{lookup}

abbrev single : Value → Value
single v = Value.array false (Values.value v Values.no_values)

abbrev left : Value
left = Value.array false (
    Values.value (Value.scalar Scalar.null) (
      Values.value
        (Value.object (
          Fields.field (97 ∷ []) (Value.scalar Scalar.null) (
            Fields.field (98 ∷ []) (single (Value.scalar (Scalar.boolean true))) Fields.no_fields)))
        Values.no_values))

abbrev right : Value
right =
    single
      (Value.object (Fields.field (98 ∷ []) (Value.array false Values.no_values) Fields.no_fields))

left-IsOrdered : IsOrdered left
unfolding length_compare_gtype_string_value memcmp
left-IsOrdered = (tt, (((refl, tt), (tt, ((tt, tt), tt))), tt))

right_size : size right ≤ 3
unfolding size
right_size = omega arith

-- The right side is contained in the left one.
inner_inside : contained ops right left ≡ ok true
unfolding contained any lookup length_compare_gtype_string_value memcmp
inner_inside = refl

gtype_deep_contains-contained_example :
    call_nested (gtype_deep_contains 3 ops) left right ≡ contained ops right left
gtype_deep_contains-contained_example =
    gtype_deep_contains-contained ops 3 right left right_size refl refl left-IsOrdered
