-- ===== src/Text/RoundTrip.antt =====
-- What gtype_out writes of a value gtype_in reads.
use post_graph.Prelude.{
  ℕ, ◌+◌, ◌*◌, ◌≤◌, ◌<◌, ◌≡◌, refl, sym, Bool, true, false, leb, List, [], ◌∷◌, length,
  length-append, none, some, ok, ◌>>=◌, arith,
}
use mathlib.Core.List.{append-nil}
use post_graph.Gtype.Scalar.{Scalar, Float8}
use post_graph.Gtype.Value.{Value, Values, Fields, is_a_gtype_scalar}
use post_graph.Gtype.Iterator.{Token}
use post_graph.Gtype.Iterator.Preorder.{preorder, preorder_values, preorder_fields, vector_events}
use post_graph.Gtype.Builder.{
  Limits, enlarge, write_part, append_element, attach, finish, pop_state, push_gtype_value_scalar,
  push_gtype_value,
}
use post_graph.Gtype.Builder.Loop.{IsBuilt, AreBuilt, FieldsBuilt}
use post_graph.Gtype.Builder.Steps.{KeepsSorted}
use post_graph.Text.Context.{TokenType, Encoding, make_gtype_lex_context}
use post_graph.Text.Strings.Escaped.{AsciiAlike}
use post_graph.Text.Lexer.Tokens.{context, Lexed-end, gtype_lex-Lexed}
use post_graph.Text.Lexer.Words.{SameText}
use post_graph.Text.Parser.{lex_accept, lex_expect, parse_gtype}
use post_graph.Text.Input.{InputOps, push_scalar, gtype_from_cstring}
use post_graph.Text.Input.Scalars.{Follows}
use post_graph.Text.Input.Places.{place}
use post_graph.Text.Input.Parts.{cost, cost_values, cost_fields, Parses}
use post_graph.Text.Input.Values.{read_value}
use post_graph.Text.Output.{OutputOps, gtype_to_cstring_worker}
use post_graph.Text.Output.Shown.{show, show_top, show-reread}
use post_graph.Text.Output.Printed.{
  NoPseudo, NoPseudos, NoPseudoFields, pseudo_array, pseudo, plain, show_top-plain,
  gtype_to_cstring_worker-show_top,
}
use post_graph.Text.Readable.{
  IsReadableScalar, IsReadable, floats, reread, reread_values, reread_fields,
}

number_costs : (xs : List Float8) → cost_values (floats xs) ≤ 1 + 3 * length (vector_events xs)
unfolding cost floats vector_events
number_costs [] = omega arith
number_costs (x ∷ xs) = omega (arith, number_costs xs)

-- Three rounds for each token are enough.
mutual
  unfolding cost reread preorder

  cost-le : (token : Token) (v : Value) → 2 + cost (reread v) ≤ 3 * length (preorder token v)
  cost-le token (Value.scalar s) = omega arith
  cost-le token (Value.array raw vs) =
      omega
        (arith, costs-le vs, length-append (preorder_values vs) ((Token.wgt_end_array, none) ∷ []))
  cost-le token (Value.object fs) = omega (
    arith,
    field_costs-le fs,
    length-append (preorder_fields fs) ((Token.wgt_end_object, none) ∷ []),
  )
  cost-le token (Value.vector xs) =
      omega (
        arith,
        number_costs xs,
        length-append (vector_events xs) ((Token.wgt_end_vector, none) ∷ []),
      )

  costs-le : (vs : Values) → cost_values (reread_values vs) ≤ 1 + 3 * length (preorder_values vs)
  costs-le Values.no_values = omega arith
  costs-le (Values.value v vs) = omega (
    arith,
    cost-le Token.wgt_elem v,
    costs-le vs,
    length-append (preorder Token.wgt_elem v) (preorder_values vs),
  )

  field_costs-le :
      (fs : Fields) → cost_fields (reread_fields fs) ≤ 1 + 3 * length (preorder_fields fs)
  field_costs-le Fields.no_fields = omega arith
  field_costs-le (Fields.field k v fs) = omega (
    arith,
    cost-le Token.wgt_value v,
    field_costs-le fs,
    length-append (preorder Token.wgt_value v) (preorder_fields fs),
  )

module _ (limits : Limits) where
  mutual
    unfolding reread

    no_pseudo : (v : Value) → IsBuilt limits (reread v) → NoPseudo v
    no_pseudo (Value.scalar s) built = tt
    no_pseudo (Value.array raw vs) (no_raw, fit, built) = (no_raw, no_pseudos vs built)
    no_pseudo (Value.object fs) (fit, up, built) = no_pseudo_fields fs built
    no_pseudo (Value.vector xs) built = tt

    no_pseudos : (vs : Values) → AreBuilt limits (reread_values vs) → NoPseudos vs
    no_pseudos Values.no_values built = tt
    no_pseudos (Values.value v vs) (b, built) = (no_pseudo v b, no_pseudos vs built)

    no_pseudo_fields : (fs : Fields) → FieldsBuilt limits (reread_fields fs) → NoPseudoFields fs
    no_pseudo_fields Fields.no_fields built = tt
    no_pseudo_fields (Fields.field k v fs) (b, built) = (no_pseudo v b, no_pseudo_fields fs built)

  place_top :
      (w : Value) → is_a_gtype_scalar w ≡ false → place limits (none, []) w ≡ ok (some w, [])
  unfolding place attach
  place_top (Value.scalar s) h = cc
  place_top _ h = refl

  place_single :
      (s : Scalar)
      → 0 < limits.max_elems
      → place limits (none, []) (Value.scalar s) ≡ ok (some (pseudo_array s), [])
  unfolding place push_scalar push_gtype_value push_gtype_value_scalar append_element enlarge
      write_part finish pop_state attach
  place_single s room = let fits : leb limits.max_elems 0 ≡ false = ground arith in rw fits refl

-- Nothing behind the text.
unfoldable at_end : (enc : Encoding) → Follows enc []
at_end enc = record {
  type = TokenType.end;
  start = none;
  after = [];
  stops = refl;
  lexed = Lexed-end enc;
  no_annotation = refl;
}

module _ (enc : Encoding) (limits : Limits) (in_ops : InputOps) where
  -- A text that parses as a value, and nothing behind it.
  whole_text :
      (v w : Value) (text : List ℕ) (fuel : ℕ)
      → Parses enc limits in_ops v text (at_end enc) fuel
      → place limits (none, []) v ≡ ok (some w, [])
      → gtype_from_cstring limits enc in_ops fuel text ≡ ok w
  unfolding gtype_from_cstring parse_gtype lex_expect lex_accept at_end
  whole_text v w text fuel p placed =
      let (k', run) = p.parsed [] (none, []) in
      rw
        (
          gtype_lex-Lexed enc (make_gtype_lex_context text true) [] (sym (append-nil text)) refl
              p.lexed,
          run,
          placed,
          gtype_lex-Lexed enc (context none TokenType.end [] k') k' refl refl (Lexed-end enc),
        )
        refl

-- A stored value that can be written and read: a pseudo array around a scalar, or a container, whose
-- scalars are readable and which is within the limits with its keys in increasing order, also where a
-- vector becomes an array.
pub data IsStored (limits : Limits) (out_ops : OutputOps) (in_ops : InputOps) : Value → Type 0 where
  single :
      (s : Scalar)
      → 0 < limits.max_elems
      → IsReadableScalar out_ops in_ops s
      → IsStored limits out_ops in_ops (pseudo_array s)
  container :
      (v : Value)
      → is_a_gtype_scalar v ≡ false
      → IsBuilt limits (reread v)
      → IsReadable out_ops in_ops (reread v)
      → IsStored limits out_ops in_ops v

module _ (enc : Encoding) (limits : Limits) (in_ops : InputOps) (alike : AsciiAlike enc)
    (same : SameText enc) (keeps : KeepsSorted limits) (ops : OutputOps) (indent : Bool) where
  reread-container :
      (v : Value) → is_a_gtype_scalar v ≡ false → is_a_gtype_scalar (reread v) ≡ false
  unfolding reread
  reread-container (Value.scalar s) h = cc
  reread-container _ h = refl

  single_read :
      (s : Scalar)
      → 0 < limits.max_elems
      → IsReadableScalar ops in_ops s
      → (fuel : ℕ) → 1 ≤ fuel
      → gtype_from_cstring limits enc in_ops fuel (show_top ops indent (pseudo_array s))
        ≡ ok (reread (pseudo_array s))
  unfolding show_top cost reread
  single_read s room readable fuel enough =
      whole_text enc limits in_ops (Value.scalar s) (pseudo_array s)
        (show ops indent 0 (Value.scalar s)) fuel
        (read_value enc limits in_ops alike same keeps ops indent (Value.scalar s) tt readable 0 []
          (at_end enc) fuel enough)
        (place_single limits s room)

  -- When an ASCII code point is one byte of UTF8, the comparison of texts without regard to case finds
  -- a text equal to itself, qsort_arg keeps what is in order, the value can be written and read, and
  -- there is fuel for its tokens: the text that gtype_to_cstring_worker writes of it, with indentation
  -- or without it, is read by gtype_from_cstring, and gives the value again, with each vector turned
  -- into an array of its numbers.
  pub gtype_from_cstring-to_cstring :
      (out_fuel in_fuel : ℕ) {v : Value}
      → IsStored limits ops in_ops v
      → length (preorder Token.wgt_elem v) < out_fuel
      → 3 * length (preorder Token.wgt_elem v) ≤ in_fuel
      → (gtype_to_cstring_worker ops indent out_fuel [] v
          >>= gtype_from_cstring limits enc in_ops in_fuel)
        ≡ ok (reread v)
  gtype_from_cstring-to_cstring out_fuel in_fuel (single s room readable) enough enough' =
      rw (gtype_to_cstring_worker-show_top ops indent out_fuel [] (pseudo s) enough) (
        single_read s room readable in_fuel
          (omega (arith, cost-le Token.wgt_elem (pseudo_array s), enough')))
  gtype_from_cstring-to_cstring out_fuel in_fuel (container v holds built readable) enough enough' =
      rw
        (
          gtype_to_cstring_worker-show_top ops indent out_fuel []
              (plain v holds (no_pseudo limits v built)) enough,
          show_top-plain ops indent v (no_pseudo limits v built),
          ← show-reread ops indent 0 v,
        )
        (whole_text enc limits in_ops (reread v) (reread v) (show ops indent 0 (reread v)) in_fuel
          (read_value enc limits in_ops alike same keeps ops indent (reread v) built readable 0 []
            (at_end enc) in_fuel (omega (arith, cost-le Token.wgt_elem v, enough')))
          (place_top limits (reread v) (reread-container v holds)))
