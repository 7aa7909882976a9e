-- ===== src/Gtype/Orderability/Types.antt =====
-- About NULL and the types that get its priority.
use post_graph.Prelude.{ℕ, suc, ◌≡◌, refl, sym, arith, false, ok, ◌≤◌, ◌<◌, ◌==◌}
use post_graph.Prelude.Int.{pos}
use post_graph.Gtype.Scalar.{
  Scalar, ScalarOps, ClockType, RangeTag, OtherType, clock_type, range_type, other_type,
  scalar_type, get_type_sort_priority,
}
use post_graph.Gtype.Value.{Value, Values}
use post_graph.Gtype.Iterator.{
  iterator_from_container, gtype_iterator_init, gtype_iterator_next, next_in, next_start,
  fill_gtype_value, enter_or_return,
}
use post_graph.Gtype.Orderability.{
  mixes, compared_by_value, type_order, compare_types, compare_values, compare_same, compare_round,
  compare_loop, compare_gtype_containers_orderability,
}

-- An array of one scalar.
abbrev pub single : Scalar → Value
single s = Value.array false (Values.value (Value.scalar s) Values.no_values)

type_order_same :
    (t u : ℕ) → get_type_sort_priority t ≡ get_type_sort_priority u → type_order t u ≡ pos 1
unfolding type_order
type_order_same t u same = rw same (ground arith)

clock_type-lt : (t : ClockType) → clock_type t < 256
clock_type-lt t = grind arith

range_type-lt : (t : RangeTag) → range_type t < 256
range_type-lt t = grind arith

other_type-lt : (t : OtherType) → other_type t < 256
other_type-lt t = grind arith

scalar_type-lt : (s : Scalar) → scalar_type s < 256
scalar_type-lt (Scalar.clock t n) = clock_type-lt t
scalar_type-lt (Scalar.range t d) = range_type-lt t
scalar_type-lt (Scalar.other t d) = other_type-lt t
scalar_type-lt _ = omega arith

type_priority : (t : ℕ) → 9 ≤ t → t < 256 → get_type_sort_priority t ≡ get_type_sort_priority 0
unfolding get_type_sort_priority
type_priority t late scalar = ground arith

-- NULL has the priority of the types behind it.
late_priority :
    (s : Scalar)
    → 9 ≤ scalar_type s
    → get_type_sort_priority (scalar_type s) ≡ get_type_sort_priority (scalar_type Scalar.null)
late_priority s late = type_priority (scalar_type s) late (scalar_type-lt s)

null_apart : (t : ℕ) → 9 ≤ t → compared_by_value 0 t ≡ false
unfolding compared_by_value mixes
null_apart t late = ground arith

apart_null : (t : ℕ) → 9 ≤ t → (t == 13) ≡ false → compared_by_value t 0 ≡ false
unfolding compared_by_value mixes
apart_null t late no_cidr = ground arith

module _ (ops : ScalarOps) where
  above :
      (fuel : ℕ) (a b : Scalar)
      → get_type_sort_priority (scalar_type a) ≡ get_type_sort_priority (scalar_type b)
      → compared_by_value (scalar_type a) (scalar_type b) ≡ false
      → compare_gtype_containers_orderability ops (suc (suc fuel)) (single a) (single b)
        ≡ ok (pos 1)
  unfolding compare_gtype_containers_orderability compare_loop compare_round compare_same
      compare_types compare_values gtype_iterator_init gtype_iterator_next next_in next_start
      fill_gtype_value enter_or_return iterator_from_container compared_by_value
  above fuel a b same apart = rw (apart, type_order_same (scalar_type a) (scalar_type b) same) refl

  -- A scalar whose type stands at AGTV_TIME or behind it in the enum, but is not cidr: the comparison
  -- of the array that holds NULL with the array that holds the scalar is 1, and so is the comparison
  -- in the other order.
  pub compare_gtype_containers_orderability_null :
      (fuel : ℕ) (s : Scalar)
      → 9 ≤ scalar_type s
      → (scalar_type s == 13) ≡ false
      → (compare_gtype_containers_orderability ops (suc (suc fuel)) (single Scalar.null) (single s)
          ≡ ok (pos 1))
        × (compare_gtype_containers_orderability ops
              (suc (suc fuel))
              (single s)
              (single Scalar.null)
            ≡ ok (pos 1))
  compare_gtype_containers_orderability_null fuel s late no_cidr =
      let same = late_priority s late in
      (
        above fuel Scalar.null s (sym same) (null_apart (scalar_type s) late),
        above fuel s Scalar.null same (apart_null (scalar_type s) late no_cidr),
      )
