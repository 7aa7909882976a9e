-- ===== src/Gtype/Contains/Contained.antt =====
-- gtype_deep_contains decides containment.
use post_graph.Prelude.{ℕ, zero, suc, ◌+◌, ◌≤◌, ◌≡◌, refl, false, length, none, arith}
use post_graph.Gtype.Scalar.{ScalarOps}
use post_graph.Gtype.Value.{Value, Values, Fields, is_a_gtype_scalar, elements, keys, field_values}
use post_graph.Gtype.Iterator.{
  iterator_from_container, gtype_iterator_init, gtype_iterator_next, next_in, next_start,
}
use post_graph.Gtype.Iterator.Calls.{IsRest-start}
use post_graph.Gtype.Contains.{call_nested, contains_heads, gtype_deep_contains}
use post_graph.Gtype.Contains.Spec.{contained}
use post_graph.Gtype.Contains.Elements.{collect-containers, array_loop-elements_contained}
use post_graph.Gtype.Contains.Loops.{
  IsOrdered, IsRight, AreRight, FieldsRight, object_loop-pairs_contained,
}

-- The number of containers in a value.
unfoldable mutual
  pub size : Value → ℕ
  size (Value.scalar s) = 0
  size (Value.array raw vs) = suc (size_values vs)
  size (Value.object fs) = suc (size_fields fs)
  size (Value.vector xs) = 1

  pub size_values : Values → ℕ
  size_values Values.no_values = 0
  size_values (Values.value v vs) = size v + size_values vs

  pub size_fields : Fields → ℕ
  size_fields Fields.no_fields = 0
  size_fields (Fields.field k v fs) = size v + size_fields fs

module _ (ops : ScalarOps) where
  AllRight : ℕ → Type 0
  AllRight fuel = (v : Value) → size v ≤ fuel → IsRight ops (gtype_deep_contains fuel ops) v

  values-AreRight :
      (fuel : ℕ) (vs : Values)
      → AllRight fuel
      → size_values vs ≤ fuel
      → AreRight ops (gtype_deep_contains fuel ops) vs
  unfolding AllRight size
  values-AreRight fuel Values.no_values right fit = tt
  values-AreRight fuel (Values.value v vs) right fit =
      (right v (omega (arith, fit)), values-AreRight fuel vs right (omega (arith, fit)))

  fields-FieldsRight :
      (fuel : ℕ) (fs : Fields)
      → AllRight fuel
      → size_fields fs ≤ fuel
      → FieldsRight ops (gtype_deep_contains fuel ops) fs
  unfolding AllRight size
  fields-FieldsRight fuel Fields.no_fields right fit = tt
  fields-FieldsRight fuel (Fields.field k v fs) right fit =
      (right v (omega (arith, fit)), fields-FieldsRight fuel fs right (omega (arith, fit)))

  -- When the fuel is at least the number of containers in the contained one, and the keys of every
  -- object of the left side are in increasing order: gtype_deep_contains of the iterators of two
  -- containers ends, and gives what the recursive definition of containment gives, reports included.
  pub gtype_deep_contains-contained :
      (fuel : ℕ) (v lhs : Value)
      → size v ≤ fuel
      → is_a_gtype_scalar v ≡ false
      → is_a_gtype_scalar lhs ≡ false
      → IsOrdered lhs
      → call_nested (gtype_deep_contains fuel ops) lhs v ≡ contained ops v lhs
  unfolding call_nested contains_heads gtype_deep_contains contained size iterator_from_container
      gtype_iterator_init gtype_iterator_next next_in next_start AllRight
  gtype_deep_contains-contained fuel (Value.scalar s) lhs fit c d o = cc
  gtype_deep_contains-contained zero (Value.array raw vs) lhs fit c d o =
      absurd (omega (arith, fit))
  gtype_deep_contains-contained zero (Value.object fs) lhs fit c d o = absurd (omega (arith, fit))
  gtype_deep_contains-contained zero (Value.vector xs) lhs fit c d o = absurd (omega (arith, fit))
  gtype_deep_contains-contained (suc fuel) v (Value.scalar s) fit c d o = cc
  gtype_deep_contains-contained (suc fuel) (Value.object fs) (Value.object gs) fit c d (up, o) =
      let right =
        fields-FieldsRight fuel fs
          (λ w fit' lhs c' d' o'. gtype_deep_contains-contained fuel w lhs fit' c' d' o')
          (omega (arith, fit)) in
      rw
        (object_loop-pairs_contained ops (gtype_deep_contains fuel ops) fs fs gs 0
          (suc (length (keys fs))) (IsRest-start (keys fs)) (IsRest-start (field_values fs)) up o
          right (omega arith))
        refl
  gtype_deep_contains-contained (suc fuel) (Value.array raw' ys) (Value.array raw xs) fit c d o =
      let right =
        values-AreRight fuel ys
          (λ w fit' lhs c' d' o'. gtype_deep_contains-contained fuel w lhs fit' c' d' o')
          (omega (arith, fit)) in
      rw
        (array_loop-elements_contained ops (gtype_deep_contains fuel ops) raw raw' ys ys xs none 0
          (suc (length (elements ys))) (IsRest-start (elements ys)) o right
          (collect-containers ops (gtype_deep_contains fuel ops) raw xs (elements xs) 0
            (IsRest-start (elements xs)))
          (omega arith))
        refl
  gtype_deep_contains-contained (suc fuel) (Value.vector ys) (Value.vector xs) fit c d o = refl
  gtype_deep_contains-contained (suc fuel) (Value.object fs) (Value.array raw xs) fit c d o = refl
  gtype_deep_contains-contained (suc fuel) (Value.object fs) (Value.vector xs) fit c d o = refl
  gtype_deep_contains-contained (suc fuel) (Value.array raw ys) (Value.object gs) fit c d o = refl
  gtype_deep_contains-contained (suc fuel) (Value.array raw ys) (Value.vector xs) fit c d o = refl
  gtype_deep_contains-contained (suc fuel) (Value.vector ys) (Value.object gs) fit c d o = refl
  gtype_deep_contains-contained (suc fuel) (Value.vector ys) (Value.array raw xs) fit c d o = refl
