-- ===== src/Gtype/Scalar/Equal.antt =====
-- equals_gtype_scalar_value against compare_gtype_scalar_values.
use post_graph.Prelude.{
  ℕ, zero, suc, ◌≡◌, refl, ap, sym, ◌∙◌, ◌↔◌, Bool, true, false, List, map_ok, Outcome, ok, arith,
}
use post_graph.Prelude.Int.{ℤ, pos, negsuc, pos_part, is_zero, compare_ints, eq_ℤ}
use post_graph.Gtype.Object.{length_compare_gtype_string_value}
use post_graph.Gtype.Object.Unique.{compare_equal, compare_refl}
use post_graph.Gtype.Scalar.{
  Datum, nan, number, ClockType, timestamp, timestamptz, date, time, Scalar, null, string, numeric,
  integer, float, boolean, clock, timetz, interval, inet, cidr, range, tsquery, tsvector,
  gserialized, other, ScalarOps,
}
use post_graph.Gtype.Scalar.Compare.{
  compare_two_floats_orderability, float_eq, compare_booleans, boolean_eq, compare_clocks,
  equal_clocks, compare_gtype_scalar_values, equals_gtype_scalar_value,
}

-- What PostgreSQL's comparisons say of equal values.
pub record IsExact (ops : ScalarOps) : Type 0 where
  pub strings : (a b : List ℕ) → (ops.varstr_cmp a b ≡ pos 0) ↔ (a ≡ b)
  pub numerics : (a b : Datum) → (ops.numeric_eq a b ≡ true) ↔ (ops.numeric_cmp a b ≡ pos 0)
  pub timestamps : (a b : ℤ) → ops.timestamp_cmp_internal a b ≡ compare_ints a b

abbrev pub is_nan : Scalar → Bool
is_nan (float nan) = true
is_nan _ = false

is_zero-compare_ints : (a b : ℤ) → eq_ℤ a b ≡ is_zero (compare_ints a b)
is_zero-compare_ints (pos a) (pos b) = ground arith
is_zero-compare_ints (pos a) (negsuc b) = ground arith
is_zero-compare_ints (negsuc a) (pos b) = ground arith
is_zero-compare_ints (negsuc a) (negsuc b) = ground arith

is_zero-compare_booleans : (a b : Bool) → boolean_eq a b ≡ is_zero (compare_booleans a b)
unfolding boolean_eq compare_booleans
is_zero-compare_booleans true true = refl
is_zero-compare_booleans true false = refl
is_zero-compare_booleans false true = refl
is_zero-compare_booleans false false = refl

pub is_zero_iff : (n : ℤ) → (is_zero n ≡ true) ↔ (n ≡ pos 0)
is_zero_iff (pos zero) = ((λ e. refl), (λ e. refl))
is_zero_iff (pos (suc n)) =
    ((λ e. absurd (ground (arith, e))), (λ e. absurd (omega (arith, ap pos_part e))))
is_zero_iff (negsuc n) = ((λ e. cc), (λ e. cc))

same_truth : (x y : Bool) → (x ≡ true → y ≡ true) → (y ≡ true → x ≡ true) → x ≡ y
same_truth true y to from = sym (to refl)
same_truth false true to from = from refl
same_truth false false to from = refl

module _ (ops : ScalarOps) (exact : IsExact ops) where
  equal_strings :
      (a b : List ℕ)
      → is_zero (length_compare_gtype_string_value a b) ≡ is_zero (ops.varstr_cmp a b)
  equal_strings a b =
      same_truth (is_zero (length_compare_gtype_string_value a b)) (is_zero (ops.varstr_cmp a b))
        (λ e. (is_zero_iff (ops.varstr_cmp a b)).1 ((exact.strings a b).1 (compare_equal a b e)))
        (λ e. rw ((exact.strings a b).0 ((is_zero_iff (ops.varstr_cmp a b)).0 e)) (compare_refl b))

  equal_numerics : (a b : Datum) → ops.numeric_eq a b ≡ is_zero (ops.numeric_cmp a b)
  equal_numerics a b =
      same_truth (ops.numeric_eq a b) (is_zero (ops.numeric_cmp a b))
        (λ e. (is_zero_iff (ops.numeric_cmp a b)).1 ((exact.numerics a b).0 e))
        (λ e. (exact.numerics a b).1 ((is_zero_iff (ops.numeric_cmp a b)).0 e))

  abbrev Agree : Outcome Bool → Outcome ℤ → Type 0
  Agree e c = (r : Bool) → e ≡ ok r → map_ok is_zero c ≡ ok r

  Agree-ok : {x : Bool} (n : ℤ) → x ≡ is_zero n → Agree (ok x) (ok n)
  Agree-ok n e r h = ap ok (sym e) ∙ h

  Agree-clocks :
      (t u : ClockType) (a b : ℤ) → Agree (equal_clocks ops t u a b) (compare_clocks ops t u a b)
  unfolding equal_clocks compare_clocks
  Agree-clocks timestamp timestamp a b =
      Agree-ok (ops.timestamp_cmp_internal a b)
        (is_zero-compare_ints a b ∙ ap is_zero (sym (exact.timestamps a b)))
  Agree-clocks timestamptz timestamptz a b = Agree-ok (ops.timestamptz_cmp_internal a b) refl
  Agree-clocks date date a b = Agree-ok (compare_ints a b) (is_zero-compare_ints a b)
  Agree-clocks time time a b = Agree-ok (compare_ints a b) (is_zero-compare_ints a b)
  Agree-clocks timestamp _ a b = λ r e. cc
  Agree-clocks timestamptz _ a b = λ r e. cc
  Agree-clocks date _ a b = λ r e. cc
  Agree-clocks time _ a b = λ r e. cc

  -- When PostgreSQL's comparisons find 0 for the equal values only, and the first of two scalars is
  -- not NaN: when equals_gtype_scalar_value returns a truth value, compare_gtype_scalar_values
  -- returns a number, and that is 0 if and only if the scalars were found equal.
  pub equals-compare_gtype_scalar_values :
      (a b : Scalar) (r : Bool)
      → is_nan a ≡ false
      → equals_gtype_scalar_value ops a b ≡ ok r
      → map_ok is_zero (compare_gtype_scalar_values ops a b) ≡ ok r
  unfolding equals_gtype_scalar_value compare_gtype_scalar_values float_eq
      compare_two_floats_orderability
  equals-compare_gtype_scalar_values null null r h e = e
  equals-compare_gtype_scalar_values (string a) (string b) r h e =
      Agree-ok (ops.varstr_cmp a b) (equal_strings a b) r e
  equals-compare_gtype_scalar_values (numeric a) (numeric b) r h e =
      Agree-ok (ops.numeric_cmp a b) (equal_numerics a b) r e
  equals-compare_gtype_scalar_values (boolean a) (boolean b) r h e =
      Agree-ok (compare_booleans a b) (is_zero-compare_booleans a b) r e
  equals-compare_gtype_scalar_values (integer a) (integer b) r h e =
      Agree-ok (compare_ints a b) (is_zero-compare_ints a b) r e
  equals-compare_gtype_scalar_values (clock t a) (clock u b) r h e = Agree-clocks t u a b r e
  equals-compare_gtype_scalar_values (timetz a) (timetz b) r h e = e
  equals-compare_gtype_scalar_values (interval a) (interval b) r h e = e
  equals-compare_gtype_scalar_values (inet a) (inet b) r h e = e
  equals-compare_gtype_scalar_values (cidr a) (cidr b) r h e = e
  equals-compare_gtype_scalar_values (tsquery a) (tsquery b) r h e = e
  equals-compare_gtype_scalar_values (tsvector a) (tsvector b) r h e = e
  equals-compare_gtype_scalar_values (gserialized a) (gserialized b) r h e = e
  equals-compare_gtype_scalar_values (range t a) (range u b) r h e = ground arith
  equals-compare_gtype_scalar_values (float nan) _ r h e = cc
  equals-compare_gtype_scalar_values (float (number a)) (float nan) r h e = e
  equals-compare_gtype_scalar_values (float (number a)) (float (number b)) r h e =
      Agree-ok (compare_ints a b) (is_zero-compare_ints a b) r e
  equals-compare_gtype_scalar_values (other t a) (other u b) r h e = ground arith
  equals-compare_gtype_scalar_values null _ r h e = cc
  equals-compare_gtype_scalar_values (string a) _ r h e = cc
  equals-compare_gtype_scalar_values (numeric a) _ r h e = cc
  equals-compare_gtype_scalar_values (integer a) _ r h e = cc
  equals-compare_gtype_scalar_values (float (number a)) _ r h e = cc
  equals-compare_gtype_scalar_values (boolean a) _ r h e = cc
  equals-compare_gtype_scalar_values (clock t a) _ r h e = cc
  equals-compare_gtype_scalar_values (timetz a) _ r h e = cc
  equals-compare_gtype_scalar_values (interval a) _ r h e = cc
  equals-compare_gtype_scalar_values (inet a) _ r h e = cc
  equals-compare_gtype_scalar_values (cidr a) _ r h e = cc
  equals-compare_gtype_scalar_values (range t a) _ r h e = cc
  equals-compare_gtype_scalar_values (tsquery a) _ r h e = cc
  equals-compare_gtype_scalar_values (tsvector a) _ r h e = cc
  equals-compare_gtype_scalar_values (gserialized a) _ r h e = cc
  equals-compare_gtype_scalar_values (other t a) _ r h e = cc
