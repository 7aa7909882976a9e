-- ===== src/Gtype/Scalar/Antisymmetric.antt =====
-- Swapping two scalars turns the sign of their comparison.
use post_graph.Prelude.{
  ℕ, zero, suc, ◌-◌, ◌<◌, ◌≡◌, refl, sym, ap, ◌∙◌, inl, inr, Bool, true, false, List, [], ◌∷◌, ◌==◌,
  ==_iff, ==_sym, ltb, if◌then◌else◌, Bool-cases, length, ok, map_ok, arith,
}
use post_graph.Prelude.Int.{ℤ, pos, negsuc, neg, neg-neg, neg-compare_ints}
use post_graph.Gtype.Scalar.{
  Datum, Float8, nan, number, Inet, Range, TsQuery, TsWord, TsVector, ClockType, timestamp,
  timestamptz, date, time, Scalar, null, string, numeric, integer, float, boolean, clock, timetz,
  interval, inet, cidr, range, tsquery, tsvector, gserialized, other, other_type, ScalarOps,
}
use post_graph.Gtype.Scalar.Networks.{
  difference, by_count, first_nonzero, network_cmp_internal, compare_range_internal, compare_tsq,
  compare_positions, compare_words, silly_cmp_tsvector,
}
use post_graph.Gtype.Scalar.Compare.{
  compare_two_floats_orderability, compare_booleans, compare_clocks, mismatch,
  compare_gtype_scalar_values,
}

-- The comparisons of PostgreSQL and PostGIS turn their sign.
pub record IsSigned (ops : ScalarOps) : Type 0 where
  pub strings : (a b : List ℕ) → ops.varstr_cmp b a ≡ neg (ops.varstr_cmp a b)
  pub numerics : (a b : Datum) → ops.numeric_cmp b a ≡ neg (ops.numeric_cmp a b)
  pub timestamps : (a b : ℤ) → ops.timestamp_cmp_internal b a ≡ neg (ops.timestamp_cmp_internal a b)
  pub timestamptzs :
      (a b : ℤ) → ops.timestamptz_cmp_internal b a ≡ neg (ops.timestamptz_cmp_internal a b)
  pub timetzs : (a b : Datum) → ops.timetz_cmp_internal b a ≡ neg (ops.timetz_cmp_internal a b)
  pub intervals :
      (a b : Datum) → ops.interval_cmp_internal b a ≡ neg (ops.interval_cmp_internal a b)
  pub addresses : (a b : Datum) (n : ℕ) → ops.bitncmp b a n ≡ neg (ops.bitncmp a b n)
  pub bounds : (a b : Datum) → ops.range_cmp_bounds b a ≡ neg (ops.range_cmp_bounds a b)
  pub queries : (a b : Datum) → ops.qtnode_compare b a ≡ neg (ops.qtnode_compare a b)
  pub lexemes : (a b : List ℕ) → ops.ts_compare_string b a ≡ neg (ops.ts_compare_string a b)
  pub geometries : (a b : Datum) → ops.gserialized_cmp b a ≡ neg (ops.gserialized_cmp a b)

neg-first_nonzero : (x y : ℤ) → first_nonzero (neg x) (neg y) ≡ neg (first_nonzero x y)
neg-first_nonzero (pos zero) y = refl
neg-first_nonzero (pos (suc n)) y = ground arith
neg-first_nonzero (negsuc n) y = ground arith

neg-two :
    (x y z : ℤ)
    → first_nonzero (neg x) (first_nonzero (neg y) (neg z))
      ≡ neg (first_nonzero x (first_nonzero y z))
neg-two x y z =
    ap (first_nonzero (neg x)) (neg-first_nonzero y z) ∙ neg-first_nonzero x (first_nonzero y z)

neg-by_count : (a b : ℕ) (e : ℤ) → by_count b a (neg e) ≡ neg (by_count a b e)
neg-by_count a b e = ground arith

neg-pos : (n : ℕ) → 0 < n → neg (pos n) ≡ negsuc (n - 1)
neg-pos zero h = absurd (omega arith)
neg-pos (suc n) h = ap negsuc (omega arith)

neg-difference : (a b : ℕ) → difference b a ≡ neg (difference a b)
neg-difference a b =
    ground (arith, neg-pos (a - b), neg-pos (b - a), neg-neg (pos (b - a)), neg-neg (pos (a - b)))

swap_booleans : (a b : Bool) → compare_booleans b a ≡ neg (compare_booleans a b)
unfolding compare_booleans
swap_booleans true true = refl
swap_booleans true false = refl
swap_booleans false true = refl
swap_booleans false false = refl

swap_floats :
    (a b : Float8) → compare_two_floats_orderability b a ≡ neg (compare_two_floats_orderability a b)
unfolding compare_two_floats_orderability
swap_floats nan nan = refl
swap_floats nan (number b) = refl
swap_floats (number a) nan = refl
swap_floats (number a) (number b) = neg-compare_ints a b

min_sym : (a b : ℕ) → (if ltb b a then b else a) ≡ (if ltb a b then a else b)
min_sym a b = ground arith

module _ (ops : ScalarOps) (signed : IsSigned ops) where
  swap_networks : (a b : Inet) → network_cmp_internal ops b a ≡ neg (network_cmp_internal ops a b)
  unfolding network_cmp_internal
  swap_networks a b = elim (Bool-cases (a.family == b.family)) [
    | inl same ↦
        let e : a.family ≡ b.family = (==_iff a.family b.family).0 same in
        rw
          (
            ==_sym b.family a.family,
            same,
            min_sym a.bits b.bits,
            neg-difference a.bits b.bits,
            sym e,
            signed.addresses a.addr b.addr (if ltb a.bits b.bits then a.bits else b.bits),
            signed.addresses a.addr b.addr (ops.ip_maxbits a.family),
          )
          (neg-two (ops.bitncmp a.addr b.addr (if ltb a.bits b.bits then a.bits else b.bits))
            (difference a.bits b.bits) (ops.bitncmp a.addr b.addr (ops.ip_maxbits a.family)))
    | inr differ ↦ rw (==_sym b.family a.family, differ) (neg-difference a.family b.family)
  ]

  swap_ranges :
      (a b : Range) → compare_range_internal ops b a ≡ neg (compare_range_internal ops a b)
  unfolding compare_range_internal
  swap_ranges a b =
      rw (signed.bounds a.lower b.lower, signed.bounds a.upper b.upper)
        (ground (
          arith,
          neg-first_nonzero (ops.range_cmp_bounds a.lower b.lower)
              (ops.range_cmp_bounds a.upper b.upper),
        ))

  swap_tsqueries : (a b : TsQuery) → compare_tsq ops b a ≡ neg (compare_tsq ops a b)
  unfolding compare_tsq
  swap_tsqueries a b = ground (arith, signed.queries a.tree b.tree)

  swap_positions :
      (xs ys : List (ℕ × ℕ)) → compare_positions ops ys xs ≡ neg (compare_positions ops xs ys)
  unfolding compare_positions
  swap_positions [] [] = refl
  swap_positions [] (y ∷ ys) = refl
  swap_positions (x ∷ xs) [] = refl
  swap_positions ((p, w) ∷ xs) ((q, v) ∷ ys) =
      rw (swap_positions xs ys) (ap (by_count p q) (neg-by_count v w _) ∙ neg-by_count q p _)

  swap_words : (xs ys : List TsWord) → compare_words ops ys xs ≡ neg (compare_words ops xs ys)
  unfolding compare_words
  swap_words [] [] = refl
  swap_words [] (y ∷ ys) = refl
  swap_words (x ∷ xs) [] = refl
  swap_words (x ∷ xs) (y ∷ ys) = elim (Bool-cases (x.haspos)) [
    | inl px ↦ elim (Bool-cases (y.haspos)) [
      | inl py ↦
          rw
            (
              px,
              py,
              signed.lexemes x.lexeme y.lexeme,
              swap_positions x.positions y.positions,
              swap_words xs ys,
            )
            (ap
                (λ k.
                  first_nonzero (neg (ops.ts_compare_string x.lexeme y.lexeme))
                    (by_count (length x.positions) (length y.positions) k))
                (neg-first_nonzero (compare_positions ops x.positions y.positions)
                  (compare_words ops xs ys))
              ∙ ap (first_nonzero (neg (ops.ts_compare_string x.lexeme y.lexeme))) (
                  neg-by_count (length y.positions) (length x.positions) (
                    first_nonzero (compare_positions ops x.positions y.positions)
                      (compare_words ops xs ys)))
              ∙ neg-first_nonzero (ops.ts_compare_string x.lexeme y.lexeme) (
                  by_count (length y.positions) (length x.positions) (
                    first_nonzero (compare_positions ops x.positions y.positions)
                      (compare_words ops xs ys))))
      | inr py ↦ rw (px, py) refl
    ]
    | inr px ↦ elim (Bool-cases (y.haspos)) [
      | inl py ↦ rw (px, py) refl
      | inr py ↦
          rw (px, py, signed.lexemes x.lexeme y.lexeme, swap_words xs ys)
            (neg-first_nonzero (ops.ts_compare_string x.lexeme y.lexeme) (compare_words ops xs ys))
    ]
  ]

  swap_tsvectors : (a b : TsVector) → silly_cmp_tsvector ops b a ≡ neg (silly_cmp_tsvector ops a b)
  unfolding silly_cmp_tsvector
  swap_tsvectors a b = rw (swap_words a.words b.words) (
      ap (by_count b.varsize a.varsize) (neg-by_count (length a.words) (length b.words) _)
      ∙ neg-by_count a.varsize b.varsize _)

  swap_clocks :
      (t u : ClockType) (a b : ℤ)
      → compare_clocks ops u t b a ≡ map_ok neg (compare_clocks ops t u a b)
  unfolding compare_clocks
  swap_clocks timestamp timestamp a b = ap ok (signed.timestamps a b)
  swap_clocks timestamptz timestamptz a b = ap ok (signed.timestamptzs a b)
  swap_clocks date date a b = ap ok (neg-compare_ints a b)
  swap_clocks time time a b = ap ok (neg-compare_ints a b)
  swap_clocks timestamp timestamptz a b = refl
  swap_clocks timestamptz timestamp a b = ap ok (sym (neg-neg _))
  swap_clocks date timestamp a b = refl
  swap_clocks timestamp date a b = ap ok (sym (neg-neg _))
  swap_clocks date timestamptz a b = refl
  swap_clocks timestamptz date a b = ap ok (sym (neg-neg _))
  swap_clocks timestamp time a b = refl
  swap_clocks timestamptz time a b = refl
  swap_clocks date time a b = refl
  swap_clocks time timestamp a b = refl
  swap_clocks time timestamptz a b = refl
  swap_clocks time date a b = refl

  swap_same : (m n : ℕ) → mismatch ops (n == m) ≡ map_ok neg (mismatch ops (m == n))
  swap_same m n = ground arith

  -- When the comparisons of PostgreSQL and PostGIS turn their sign: of two scalars in the other
  -- order compare_gtype_scalar_values gives the opposite sign, or the same report.
  pub neg-compare_gtype_scalar_values :
      (a b : Scalar)
      → compare_gtype_scalar_values ops b a ≡ map_ok neg (compare_gtype_scalar_values ops a b)
  unfolding compare_gtype_scalar_values
  neg-compare_gtype_scalar_values null null = refl
  neg-compare_gtype_scalar_values (string a) (string b) = ap ok (signed.strings a b)
  neg-compare_gtype_scalar_values (numeric a) (numeric b) = ap ok (signed.numerics a b)
  neg-compare_gtype_scalar_values (boolean a) (boolean b) = ap ok (swap_booleans a b)
  neg-compare_gtype_scalar_values (integer a) (integer b) = ap ok (neg-compare_ints a b)
  neg-compare_gtype_scalar_values (clock t a) (clock u b) = swap_clocks t u a b
  neg-compare_gtype_scalar_values (timetz a) (timetz b) = ap ok (signed.timetzs a b)
  neg-compare_gtype_scalar_values (interval a) (interval b) = ap ok (signed.intervals a b)
  neg-compare_gtype_scalar_values (inet a) (inet b) = ap ok (swap_networks a b)
  neg-compare_gtype_scalar_values (cidr a) (cidr b) = ap ok (swap_networks a b)
  neg-compare_gtype_scalar_values (range t a) (range u b) = rw (swap_ranges a b) (ground arith)
  neg-compare_gtype_scalar_values (tsquery a) (tsquery b) = ap ok (swap_tsqueries a b)
  neg-compare_gtype_scalar_values (tsvector a) (tsvector b) = ap ok (swap_tsvectors a b)
  neg-compare_gtype_scalar_values (float a) (float b) = ap ok (swap_floats a b)
  neg-compare_gtype_scalar_values (gserialized a) (gserialized b) = ap ok (signed.geometries a b)
  neg-compare_gtype_scalar_values (other t a) (other u b) = swap_same (other_type t) (other_type u)
  neg-compare_gtype_scalar_values (clock time a) (timetz b) =
      ap ok (neg-compare_ints a (ops.timetz_time b))
  neg-compare_gtype_scalar_values (timetz a) (clock time b) =
      ap ok (neg-compare_ints (ops.timetz_time a) b)
  neg-compare_gtype_scalar_values (clock timestamp a) (timetz b) = refl
  neg-compare_gtype_scalar_values (clock timestamptz a) (timetz b) = refl
  neg-compare_gtype_scalar_values (clock date a) (timetz b) = refl
  neg-compare_gtype_scalar_values (timetz a) (clock timestamp b) = refl
  neg-compare_gtype_scalar_values (timetz a) (clock timestamptz b) = refl
  neg-compare_gtype_scalar_values (timetz a) (clock date b) = refl
  neg-compare_gtype_scalar_values (integer a) (float b) = ap ok (swap_floats (ops.float_of_int a) b)
  neg-compare_gtype_scalar_values (float a) (integer b) = ap ok (swap_floats a (ops.float_of_int b))
  neg-compare_gtype_scalar_values (numeric a) (integer b) =
      ap ok (signed.numerics a (ops.numeric_of_int b))
  neg-compare_gtype_scalar_values (integer a) (numeric b) =
      ap ok (signed.numerics (ops.numeric_of_int a) b)
  neg-compare_gtype_scalar_values (numeric a) (float b) =
      ap ok (signed.numerics a (ops.numeric_of_float b))
  neg-compare_gtype_scalar_values (float a) (numeric b) =
      ap ok (signed.numerics (ops.numeric_of_float a) b)
  neg-compare_gtype_scalar_values null _ = refl
  neg-compare_gtype_scalar_values (string a) _ = refl
  neg-compare_gtype_scalar_values (numeric a) _ = refl
  neg-compare_gtype_scalar_values (integer a) _ = refl
  neg-compare_gtype_scalar_values (float a) _ = refl
  neg-compare_gtype_scalar_values (boolean a) _ = refl
  neg-compare_gtype_scalar_values (clock t a) _ = refl
  neg-compare_gtype_scalar_values (timetz a) _ = refl
  neg-compare_gtype_scalar_values (interval a) _ = refl
  neg-compare_gtype_scalar_values (inet a) _ = refl
  neg-compare_gtype_scalar_values (cidr a) _ = refl
  neg-compare_gtype_scalar_values (range t a) _ = refl
  neg-compare_gtype_scalar_values (tsquery a) _ = refl
  neg-compare_gtype_scalar_values (tsvector a) _ = refl
  neg-compare_gtype_scalar_values (gserialized a) _ = refl
  neg-compare_gtype_scalar_values (other t a) _ = refl
