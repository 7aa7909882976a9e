-- ===== src/Gtype/Scalar/Compare.antt =====
-- compare_gtype_scalar_values and equals_gtype_scalar_value, with compare_two_floats_orderability,
-- is_numeric_result and get_numeric_datum_from_gtype_value of gtype_ops.c.
use post_graph.Prelude.{Bool, true, false, ◌==◌, if◌then◌else◌, Report, Outcome, ok, error}
use post_graph.Prelude.Int.{ℤ, pos, negsuc, neg, is_zero, compare_ints, eq_ℤ}
use post_graph.Gtype.Object.{length_compare_gtype_string_value}
use post_graph.Gtype.Scalar.{
  Float8, nan, number, ClockType, timestamp, timestamptz, date, time, Scalar, null, string, numeric,
  integer, float, boolean, clock, timetz, interval, inet, cidr, range, tsquery, tsvector,
  gserialized, other, range_type, other_type, ScalarOps,
}
use post_graph.Gtype.Scalar.Networks.{
  network_cmp_internal, compare_range_internal, compare_tsq, silly_cmp_tsvector,
}

-- NaN equals itself, and is greater than any number.
unfoldable pub compare_two_floats_orderability : Float8 → Float8 → ℤ
compare_two_floats_orderability nan nan = pos 0
compare_two_floats_orderability nan (number b) = pos 1
compare_two_floats_orderability (number a) nan = negsuc 0
compare_two_floats_orderability (number a) (number b) = compare_ints a b

-- `==` of two float8.
unfoldable pub float_eq : Float8 → Float8 → Bool
float_eq (number a) (number b) = eq_ℤ a b
float_eq _ _ = false

unfoldable pub compare_booleans : Bool → Bool → ℤ
compare_booleans true false = pos 1
compare_booleans false true = negsuc 0
compare_booleans _ _ = pos 0

unfoldable pub boolean_eq : Bool → Bool → Bool
boolean_eq true b = b
boolean_eq false true = false
boolean_eq false false = true

module _ (ops : ScalarOps) where
  -- Two clock values, of one type or two.
  unfoldable pub compare_clocks : ClockType → ClockType → ℤ → ℤ → Outcome ℤ
  compare_clocks timestamp timestamp a b = ok (ops.timestamp_cmp_internal a b)
  compare_clocks timestamptz timestamptz a b = ok (ops.timestamptz_cmp_internal a b)
  compare_clocks date date a b = ok (compare_ints a b)
  compare_clocks time time a b = ok (compare_ints a b)
  compare_clocks timestamp timestamptz a b = ok (ops.timestamp_cmp_timestamptz_internal a b)
  compare_clocks timestamptz timestamp a b = ok (neg (ops.timestamp_cmp_timestamptz_internal b a))
  compare_clocks date timestamp a b = ok (ops.date_cmp_timestamp_internal a b)
  compare_clocks timestamp date a b = ok (neg (ops.date_cmp_timestamp_internal b a))
  compare_clocks date timestamptz a b = ok (ops.date_cmp_timestamptz_internal a b)
  compare_clocks timestamptz date a b = ok (neg (ops.date_cmp_timestamptz_internal b a))
  compare_clocks _ _ a b = error Report.scalar_mismatch

  -- Two types that the comparison of one type does not know, or that differ.
  abbrev pub mismatch : (same : Bool) → Outcome ℤ
  mismatch same = if same then error Report.invalid_scalar else error Report.scalar_mismatch

  unfoldable pub compare_gtype_scalar_values : Scalar → Scalar → Outcome ℤ
  compare_gtype_scalar_values null null = ok (pos 0)
  compare_gtype_scalar_values (string a) (string b) = ok (ops.varstr_cmp a b)
  compare_gtype_scalar_values (numeric a) (numeric b) = ok (ops.numeric_cmp a b)
  compare_gtype_scalar_values (boolean a) (boolean b) = ok (compare_booleans a b)
  compare_gtype_scalar_values (integer a) (integer b) = ok (compare_ints a b)
  compare_gtype_scalar_values (clock t a) (clock u b) = compare_clocks t u a b
  compare_gtype_scalar_values (timetz a) (timetz b) = ok (ops.timetz_cmp_internal a b)
  compare_gtype_scalar_values (interval a) (interval b) = ok (ops.interval_cmp_internal a b)
  compare_gtype_scalar_values (inet a) (inet b) = ok (network_cmp_internal ops a b)
  compare_gtype_scalar_values (cidr a) (cidr b) = ok (network_cmp_internal ops a b)
  compare_gtype_scalar_values (range t a) (range u b) =
      if range_type t == range_type u
      then ok (compare_range_internal ops a b)
      else error Report.scalar_mismatch
  compare_gtype_scalar_values (tsquery a) (tsquery b) = ok (compare_tsq ops a b)
  compare_gtype_scalar_values (tsvector a) (tsvector b) = ok (silly_cmp_tsvector ops a b)
  compare_gtype_scalar_values (float a) (float b) = ok (compare_two_floats_orderability a b)
  compare_gtype_scalar_values (gserialized a) (gserialized b) = ok (ops.gserialized_cmp a b)
  compare_gtype_scalar_values (other t a) (other u b) = mismatch (other_type t == other_type u)
  compare_gtype_scalar_values (clock time a) (timetz b) = ok (compare_ints a (ops.timetz_time b))
  compare_gtype_scalar_values (timetz a) (clock time b) = ok (compare_ints (ops.timetz_time a) b)
  compare_gtype_scalar_values (integer a) (float b) =
      ok (compare_two_floats_orderability (ops.float_of_int a) b)
  compare_gtype_scalar_values (float a) (integer b) =
      ok (compare_two_floats_orderability a (ops.float_of_int b))
  compare_gtype_scalar_values (numeric a) (integer b) =
      ok (ops.numeric_cmp a (ops.numeric_of_int b))
  compare_gtype_scalar_values (integer a) (numeric b) =
      ok (ops.numeric_cmp (ops.numeric_of_int a) b)
  compare_gtype_scalar_values (numeric a) (float b) =
      ok (ops.numeric_cmp a (ops.numeric_of_float b))
  compare_gtype_scalar_values (float a) (numeric b) =
      ok (ops.numeric_cmp (ops.numeric_of_float a) b)
  compare_gtype_scalar_values _ _ = error Report.scalar_mismatch

  unfoldable pub equal_clocks : ClockType → ClockType → ℤ → ℤ → Outcome Bool
  equal_clocks timestamp timestamp a b = ok (eq_ℤ a b)
  equal_clocks timestamptz timestamptz a b = ok (is_zero (ops.timestamptz_cmp_internal a b))
  equal_clocks date date a b = ok (eq_ℤ a b)
  equal_clocks time time a b = ok (eq_ℤ a b)
  equal_clocks _ _ a b = error Report.scalar_mismatch

  unfoldable pub equals_gtype_scalar_value : Scalar → Scalar → Outcome Bool
  equals_gtype_scalar_value null null = ok true
  equals_gtype_scalar_value (string a) (string b) =
      ok (is_zero (length_compare_gtype_string_value a b))
  equals_gtype_scalar_value (numeric a) (numeric b) = ok (ops.numeric_eq a b)
  equals_gtype_scalar_value (boolean a) (boolean b) = ok (boolean_eq a b)
  equals_gtype_scalar_value (integer a) (integer b) = ok (eq_ℤ a b)
  equals_gtype_scalar_value (clock t a) (clock u b) = equal_clocks t u a b
  equals_gtype_scalar_value (timetz a) (timetz b) = ok (is_zero (ops.timetz_cmp_internal a b))
  equals_gtype_scalar_value (interval a) (interval b) = ok (is_zero (ops.interval_cmp_internal a b))
  equals_gtype_scalar_value (inet a) (inet b) = ok (is_zero (network_cmp_internal ops a b))
  equals_gtype_scalar_value (cidr a) (cidr b) = ok (is_zero (network_cmp_internal ops a b))
  equals_gtype_scalar_value (range t a) (range u b) =
      if range_type t == range_type u
      then ok (is_zero (compare_range_internal ops a b))
      else error Report.scalar_mismatch
  equals_gtype_scalar_value (tsquery a) (tsquery b) = ok (is_zero (compare_tsq ops a b))
  equals_gtype_scalar_value (tsvector a) (tsvector b) = ok (is_zero (silly_cmp_tsvector ops a b))
  equals_gtype_scalar_value (float a) (float b) = ok (float_eq a b)
  equals_gtype_scalar_value (gserialized a) (gserialized b) = ok (is_zero (ops.gserialized_cmp a b))
  equals_gtype_scalar_value (other t a) (other u b) =
      if other_type t == other_type u
      then error Report.invalid_scalar
      else error Report.scalar_mismatch
  equals_gtype_scalar_value _ _ = error Report.scalar_mismatch
