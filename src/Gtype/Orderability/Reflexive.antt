-- ===== src/Gtype/Orderability/Reflexive.antt =====
-- A container is equal to itself.
use post_graph.Prelude.{
  ℕ, zero, suc, ◌<◌, ◌≡◌, refl, sym, ap, ◌∙◌, Bool, true, false, List, [], ◌∷◌, length, ==_refl,
  Option, none, some, ok, map_ok, All, All-append, ◌==◌, arith,
}
use post_graph.Prelude.Int.{ℤ, pos, negsuc, neg, compare_ints}
use post_graph.Gtype.Scalar.{Float8, Scalar, ScalarOps, scalar_type, range_type, ClockType}
use post_graph.Gtype.Scalar.Networks.{
  network_cmp_internal, compare_range_internal, compare_tsq, silly_cmp_tsvector,
}
use post_graph.Gtype.Scalar.Compare.{
  compare_gtype_scalar_values, compare_clocks, compare_booleans, compare_two_floats_orderability,
}
use post_graph.Gtype.Scalar.Antisymmetric.{IsSigned, neg-compare_gtype_scalar_values}
use post_graph.Gtype.Value.{Value, Values, Fields, is_a_gtype_scalar}
use post_graph.Gtype.Iterator.{
  Token, Iterator, Seen, part, array_head, object_head, vector_head, gtype_iterator_init,
  gtype_iterator_next,
}
use post_graph.Gtype.Iterator.Preorder.{
  Event, Runs, stop, call, preorder, preorder_values, preorder_fields, vector_events,
  iterator_from_container-Runs,
}
use post_graph.Gtype.Orderability.{
  again, is_end, token_number, compared_by_value, compare_known, compare_values, compare_same,
  compare_round, compare_loop, compare_gtype_containers_orderability,
}

-- The types that the switch knows.
abbrev pub is_known : Scalar → Bool
is_known (Scalar.other t d) = false
is_known _ = true

abbrev mutual
  pub AllKnown : Value → Type 0
  AllKnown (Value.scalar s) = is_known s ≡ true
  AllKnown (Value.array raw vs) = ElementsKnown vs
  AllKnown (Value.object fs) = FieldsKnown fs
  AllKnown (Value.vector xs) = Unit

  pub ElementsKnown : Values → Type 0
  ElementsKnown Values.no_values = Unit
  ElementsKnown (Values.value v vs) = AllKnown v × ElementsKnown vs

  pub FieldsKnown : Fields → Type 0
  FieldsKnown Fields.no_fields = Unit
  FieldsKnown (Fields.field k v fs) = AllKnown v × FieldsKnown fs

neg-fixed : (n : ℤ) → n ≡ neg n → n ≡ pos 0
neg-fixed (pos zero) e = refl
neg-fixed (pos (suc n)) e = cc
neg-fixed (negsuc n) e = cc

ok_zero : (n : ℤ) → ok n ≡ map_ok neg (ok n) → ok n ≡ ok (pos 0)
ok_zero n e = let same : n ≡ neg n = cc in ap ok (neg-fixed n same)

module _ (ops : ScalarOps) (signed : IsSigned ops) where
  self_compare : (s : Scalar) → is_known s ≡ true → (n : ℤ) × (compare_known ops s s ≡ ok n)
  unfolding compare_gtype_scalar_values compare_clocks
  self_compare Scalar.null h = (pos 0, refl)
  self_compare (Scalar.string a) h = (ops.varstr_cmp a a, refl)
  self_compare (Scalar.numeric a) h = (ops.numeric_cmp a a, refl)
  self_compare (Scalar.integer a) h = (compare_ints a a, refl)
  self_compare (Scalar.float a) h = (compare_two_floats_orderability a a, refl)
  self_compare (Scalar.boolean a) h = (compare_booleans a a, refl)
  self_compare (Scalar.clock ClockType.timestamp a) h = (ops.timestamp_cmp_internal a a, refl)
  self_compare (Scalar.clock ClockType.timestamptz a) h = (ops.timestamptz_cmp_internal a a, refl)
  self_compare (Scalar.clock ClockType.date a) h = (compare_ints a a, refl)
  self_compare (Scalar.clock ClockType.time a) h = (compare_ints a a, refl)
  self_compare (Scalar.timetz a) h = (ops.timetz_cmp_internal a a, refl)
  self_compare (Scalar.interval a) h = (ops.interval_cmp_internal a a, refl)
  self_compare (Scalar.inet a) h = (network_cmp_internal ops a a, refl)
  self_compare (Scalar.cidr a) h = (network_cmp_internal ops a a, refl)
  self_compare (Scalar.range t a) h =
      (compare_range_internal ops a a, rw (==_refl (range_type t)) refl)
  self_compare (Scalar.tsquery a) h = (compare_tsq ops a a, refl)
  self_compare (Scalar.tsvector a) h = (silly_cmp_tsvector ops a a, refl)
  self_compare (Scalar.gserialized a) h = (ops.gserialized_cmp a a, refl)
  self_compare (Scalar.other t d) h = cc

  known_compare :
      (s : Scalar) → is_known s ≡ true → compare_known ops s s ≡ compare_gtype_scalar_values ops s s
  known_compare (Scalar.other t d) h = cc
  known_compare _ h = refl

  self_equal : (s : Scalar) → is_known s ≡ true → compare_known ops s s ≡ ok (pos 0)
  self_equal s h =
      let (n, e) = self_compare s h in
      let e' : compare_gtype_scalar_values ops s s ≡ ok n = sym (known_compare s h) ∙ e in
      e ∙ ok_zero n (sym e' ∙ neg-compare_gtype_scalar_values ops signed s s ∙ ap (map_ok neg) e')

  -- An event that, on both sides, lets the comparison go on.
  abbrev Passes : Event → Type 0
  Passes (tok, some (part (Value.scalar s))) =
      (is_known s ≡ true) × (is_end tok ≡ false) × ((token_number tok == 0) ≡ false)
  Passes (tok, some (part v)) = ⊥
  Passes (tok, some head) = (is_end tok ≡ false) × ((token_number tok == 0) ≡ false)
  Passes (tok, none) = (is_end tok ≡ true) × ((token_number tok == 0) ≡ false)

  compare_round-again :
      (tok : Token) (seen : Option Seen) (its : List Iterator)
      → Passes (tok, seen)
      → compare_round ops (tok, seen, its) (tok, seen, its) ≡ ok (again its its)
  unfolding compare_round compare_same compare_values compared_by_value
  compare_round-again tok none its (e, n) = rw (==_refl (token_number tok), n, e) refl
  compare_round-again tok (some (part (Value.scalar s))) its (known, e, n) =
      rw (==_refl (token_number tok), n, e, ==_refl (scalar_type s), self_equal s known) refl
  compare_round-again tok (some (array_head k true)) its (e, n) =
      rw (==_refl (token_number tok), n, e) refl
  compare_round-again tok (some (array_head k false)) its (e, n) =
      rw (==_refl (token_number tok), n, e) refl
  compare_round-again tok (some (object_head k)) its (e, n) =
      rw (==_refl (token_number tok), n, e) refl
  compare_round-again tok (some (vector_head k)) its (e, n) =
      rw (==_refl (token_number tok), n, e) refl
  compare_round-again tok (some (part (Value.array r vs))) its h = absurd h
  compare_round-again tok (some (part (Value.object fs))) its h = absurd h
  compare_round-again tok (some (part (Value.vector xs))) its h = absurd h

  compare_loop-equal :
      (fuel : ℕ) {its : List Iterator} {events : List Event}
      → Runs its events []
      → All Passes events
      → length events < fuel
      → compare_loop ops fuel its its ≡ ok (pos 0)
  unfolding compare_loop gtype_iterator_next compare_round
  compare_loop-equal zero runs all enough = absurd (omega (arith, enough))
  compare_loop-equal (suc fuel) stop all enough = refl
  compare_loop-equal (suc fuel) (call {its' = its'} {token = token} {seen = seen} e runs)
        (pass, all) enough =
      rw (e, compare_round-again token seen its' pass)
        (compare_loop-equal fuel runs all (omega (arith, enough)))

  vector_events-Passes : (xs : List Float8) → All Passes (vector_events xs)
  unfolding vector_events
  vector_events-Passes [] = tt
  vector_events-Passes (x ∷ xs) = ((refl, refl, refl), vector_events-Passes xs)

  mutual
    unfolding preorder

    preorder-Passes :
        (token : Token) (v : Value)
        → is_end token ≡ false
        → (token_number token == 0) ≡ false
        → AllKnown v
        → All Passes (preorder token v)
    preorder-Passes token (Value.scalar s) e n known = ((known, e, n), tt)
    preorder-Passes token (Value.array true vs) e n known = (
      (refl, refl),
      All-append Passes (preorder_values vs) _ (preorder_values-Passes vs known) ((refl, refl), tt),
    )
    preorder-Passes token (Value.array false vs) e n known = (
      (refl, refl),
      All-append Passes (preorder_values vs) _ (preorder_values-Passes vs known) ((refl, refl), tt),
    )
    preorder-Passes token (Value.object fs) e n known = (
      (refl, refl),
      All-append Passes (preorder_fields fs) _ (preorder_fields-Passes fs known) ((refl, refl), tt),
    )
    preorder-Passes token (Value.vector xs) e n known = (
      (refl, refl),
      All-append Passes (vector_events xs) _ (vector_events-Passes xs) ((refl, refl), tt),
    )

    preorder_values-Passes : (vs : Values) → ElementsKnown vs → All Passes (preorder_values vs)
    preorder_values-Passes Values.no_values known = tt
    preorder_values-Passes (Values.value v vs) (k, known) =
        All-append Passes (preorder Token.wgt_elem v) _
          (preorder-Passes Token.wgt_elem v refl refl k) (preorder_values-Passes vs known)

    preorder_fields-Passes : (fs : Fields) → FieldsKnown fs → All Passes (preorder_fields fs)
    preorder_fields-Passes Fields.no_fields known = tt
    preorder_fields-Passes (Fields.field k v fs) (o, known) = (
      (refl, refl, refl),
      All-append Passes (preorder Token.wgt_value v) _
          (preorder-Passes Token.wgt_value v refl refl o) (preorder_fields-Passes fs known),
    )

  -- When the comparisons of PostgreSQL and PostGIS turn their sign, the container has no scalar of a
  -- type that the comparison does not know, and there is fuel for its tokens: the comparison of the
  -- container with itself ends with 0.
  pub compare_gtype_containers_orderability_refl :
      (fuel : ℕ) (v : Value)
      → is_a_gtype_scalar v ≡ false
      → AllKnown v
      → length (preorder Token.wgt_elem v) < fuel
      → compare_gtype_containers_orderability ops fuel v v ≡ ok (pos 0)
  unfolding compare_gtype_containers_orderability gtype_iterator_init
  compare_gtype_containers_orderability_refl fuel v container known enough =
      let (start, started, runs) = iterator_from_container-Runs Token.wgt_elem v [] container in
      rw started
        (compare_loop-equal fuel runs (preorder-Passes Token.wgt_elem v refl refl known) enough)
