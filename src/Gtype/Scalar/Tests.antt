-- ===== src/Gtype/Scalar/Tests.antt =====
-- Comparisons with one order for every type of PostgreSQL.
use post_graph.Prelude.{ℕ, ◌*◌, ◌≡◌, refl, ◌↔◌, true, false, List, [], ◌∷◌, ◌==◌, ok, map_ok, arith}
use post_graph.Prelude.Int.{ℤ, pos, neg, is_zero, compare_ints, neg-compare_ints}
use post_graph.Gtype.Object.{memcmp, length_compare_gtype_string_value}
use post_graph.Gtype.Object.Unique.{compare_equal, compare_refl}
use post_graph.Gtype.Object.Order.{neg-length_compare}
use post_graph.Gtype.Scalar.{Datum, number, Inet, Scalar, ScalarOps}
use post_graph.Gtype.Scalar.Compare.{compare_gtype_scalar_values, equals_gtype_scalar_value}
use post_graph.Gtype.Scalar.Antisymmetric.{IsSigned, neg-compare_gtype_scalar_values}
use post_graph.Gtype.Scalar.Equal.{IsExact, is_zero_iff, equals-compare_gtype_scalar_values}

abbrev by_number : Datum → Datum → ℤ
by_number a b = compare_ints (pos a) (pos b)

abbrev pub ops : ScalarOps
ops = record {
  varstr_cmp = length_compare_gtype_string_value;
  numeric_cmp = by_number;
  numeric_eq = λ a b. a == b;
  timestamp_cmp_internal = compare_ints;
  timestamptz_cmp_internal = compare_ints;
  timestamp_cmp_timestamptz_internal = compare_ints;
  date_cmp_timestamp_internal = λ a b. compare_ints a b;
  date_cmp_timestamptz_internal = λ a b. compare_ints a b;
  timetz_cmp_internal = by_number;
  timetz_time = pos;
  interval_cmp_internal = by_number;
  bitncmp = λ a b n. by_number a b;
  ip_maxbits = λ family. family * 32;
  range_cmp_bounds = by_number;
  qtnode_compare = by_number;
  ts_compare_string = length_compare_gtype_string_value;
  gserialized_cmp = by_number;
  float_of_int = number;
  numeric_of_int = λ n. 0;
  numeric_of_float = λ f. 0;
}

numbers_signed : (a b : Datum) → by_number b a ≡ neg (by_number a b)
numbers_signed a b = neg-compare_ints (pos a) (pos b)

pub ops-IsSigned : IsSigned ops
ops-IsSigned = record {
  strings = neg-length_compare;
  numerics = numbers_signed;
  timestamps = neg-compare_ints;
  timestamptzs = neg-compare_ints;
  timetzs = numbers_signed;
  intervals = numbers_signed;
  addresses = λ a b n. numbers_signed a b;
  bounds = numbers_signed;
  queries = numbers_signed;
  lexemes = neg-length_compare;
  geometries = numbers_signed;
}

equal_bytes : (a b : List ℕ) → (length_compare_gtype_string_value a b ≡ pos 0) ↔ (a ≡ b)
equal_bytes a b = (
  λ e. compare_equal a b (rw e refl),
  λ e. (is_zero_iff (length_compare_gtype_string_value a b)).0 (rw e (compare_refl b)),
)

equal_numbers : (a b : Datum) → ((a == b) ≡ true) ↔ (by_number a b ≡ pos 0)
equal_numbers a b = (λ e. ground (arith, e), λ e. ground (arith, e))

ops-IsExact : IsExact ops
ops-IsExact = record { strings = equal_bytes; numerics = equal_numbers; timestamps = λ a b. refl }

abbrev address : Datum → ℕ → Inet
address addr bits = record { family = 2; bits = bits; addr = addr }

-- 10.0.0.0/8 comes before 10.0.0.0/16.
neg-compare_gtype_scalar_values_example :
    compare_gtype_scalar_values ops (Scalar.inet (address 10 16)) (Scalar.inet (address 10 8))
    ≡ map_ok neg
        (compare_gtype_scalar_values ops (Scalar.inet (address 10 8)) (Scalar.inet (address 10 16)))
neg-compare_gtype_scalar_values_example =
    neg-compare_gtype_scalar_values ops ops-IsSigned (Scalar.inet (address 10 8))
      (Scalar.inet (address 10 16))

strings_differ :
    equals_gtype_scalar_value ops (Scalar.string (97 ∷ 98 ∷ [])) (Scalar.string (97 ∷ 99 ∷ []))
    ≡ ok false
unfolding equals_gtype_scalar_value length_compare_gtype_string_value memcmp
strings_differ = refl

equals-compare_gtype_scalar_values_example :
    map_ok is_zero (
      compare_gtype_scalar_values ops (Scalar.string (97 ∷ 98 ∷ [])) (Scalar.string (97 ∷ 99 ∷ [])))
    ≡ ok false
equals-compare_gtype_scalar_values_example =
    equals-compare_gtype_scalar_values ops ops-IsExact (Scalar.string (97 ∷ 98 ∷ []))
      (Scalar.string (97 ∷ 99 ∷ [])) false refl strings_differ
