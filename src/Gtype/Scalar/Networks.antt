-- ===== src/Gtype/Scalar/Networks.antt =====
-- The comparisons of inet, ranges, tsquery and tsvector: network_cmp_internal,
-- compare_range_internal, CompareTSQ and silly_cmp_tsvector.
use post_graph.Prelude.{ℕ, ◌-◌, not, ◌&&◌, List, [], ◌∷◌, ◌==◌, ltb, if◌then◌else◌, length}
use post_graph.Prelude.Int.{ℤ, pos, negsuc, is_zero}
use post_graph.Gtype.Scalar.{Inet, Range, TsQuery, TsWord, TsVector, ScalarOps}

-- The difference of two small counts, as an int.
abbrev pub difference : ℕ → ℕ → ℤ
difference a b = if ltb a b then negsuc (b - a - 1) else pos (a - b)

-- -1 if the first is less, 1 if it is greater; `equal` waits for the case that it is neither.
abbrev pub by_count : ℕ → ℕ → ℤ → ℤ
by_count a b equal = if ltb a b then negsuc 0 else if ltb b a then pos 1 else equal

abbrev pub first_nonzero : ℤ → ℤ → ℤ
first_nonzero res later = if is_zero res then later else res

module _ (ops : ScalarOps) where
  unfoldable pub network_cmp_internal : Inet → Inet → ℤ
  network_cmp_internal a1 a2 =
      if a1.family == a2.family
      then first_nonzero
          (ops.bitncmp a1.addr a2.addr (if ltb a1.bits a2.bits then a1.bits else a2.bits))
          (first_nonzero (difference a1.bits a2.bits)
            (ops.bitncmp a1.addr a2.addr (ops.ip_maxbits a1.family)))
      else difference a1.family a2.family

  unfoldable pub compare_range_internal : Range → Range → ℤ
  compare_range_internal r1 r2 =
      if r1.empty && r2.empty
      then pos 0
      else if r1.empty
      then pos 1
      else if r2.empty
      then negsuc 0
      else first_nonzero (ops.range_cmp_bounds r1.lower r2.lower)
          (ops.range_cmp_bounds r1.upper r2.upper)

  unfoldable pub compare_tsq : TsQuery → TsQuery → ℤ
  compare_tsq a b =
      if not (a.size == b.size)
      then (if ltb a.size b.size then negsuc 0 else pos 1)
      else if not (a.varsize == b.varsize)
      then (if ltb a.varsize b.varsize then negsuc 0 else pos 1)
      else if not (a.size == 0)
      then ops.qtnode_compare a.tree b.tree
      else pos 0

  -- More positions, and greater ones, come first.
  unfoldable pub compare_positions : List (ℕ × ℕ) → List (ℕ × ℕ) → ℤ
  compare_positions [] bs = pos 0
  compare_positions (a ∷ as_rest) [] = pos 0
  compare_positions ((pos_a, weight_a) ∷ rest_a) ((pos_b, weight_b) ∷ rest_b) =
      let later = compare_positions rest_a rest_b in
      by_count pos_b pos_a (by_count weight_b weight_a later)

  -- A lexeme with positions comes before one without.
  unfoldable pub compare_words : List TsWord → List TsWord → ℤ
  compare_words [] bs = pos 0
  compare_words (a ∷ rest_a) [] = pos 0
  compare_words (a ∷ rest_a) (b ∷ rest_b) =
      let later = compare_words rest_a rest_b in
      if a.haspos && not b.haspos
      then negsuc 0
      else if b.haspos && not a.haspos
      then pos 1
      else first_nonzero (ops.ts_compare_string a.lexeme b.lexeme) (
          if a.haspos
          then by_count (length b.positions) (length a.positions)
              (first_nonzero (compare_positions a.positions b.positions) later)
          else later)

  unfoldable pub silly_cmp_tsvector : TsVector → TsVector → ℤ
  silly_cmp_tsvector a b =
      by_count a.varsize b.varsize
        (by_count (length a.words) (length b.words) (compare_words a.words b.words))
