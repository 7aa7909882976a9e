-- ===== src/Text/Input/Ends.antt =====
-- About the end of gtype_from_cstring on any text.
use post_graph.Prelude.{
  ℕ, ◌+◌, ◌*◌, ◌≤◌, ◌≢◌, true, List, [], length, Option, none, some, Outcome, ok, error, Returns,
  Anything, Returns->>=, Returns-or_crash, arith,
}
use post_graph.Gtype.Scalar.{Scalar, ClockType}
use post_graph.Gtype.Builder.{Limits, push_gtype_value_scalar, push_gtype_value}
use post_graph.Text.Context.{TokenType, Encoding, make_gtype_lex_context}
use post_graph.Text.Parser.{parse_gtype}
use post_graph.Text.Parser.Ends.{IsTotal, parse_gtype-Returns}
use post_graph.Text.Input.{
  InputOps, check_string_length, annotated_type, cast_type, scalar_of_text, scalar_of,
  gtype_in_object_start, gtype_in_array_start, gtype_in_scalar, gtype_in_actions,
  gtype_from_cstring,
}
use post_graph.Text.Input.Pushes.{
  Returns-map, Returns-check_string_length, Returns-gtype_in_object_end, Returns-gtype_in_array_end,
  Returns-gtype_in_object_field_start, Returns-push_scalar,
}

-- The input functions of PostgreSQL end: they return a value or report the text.
pub record IsEnding (ops : InputOps) : Type 0 where
  pub scanint8 : (s : List ℕ) → Returns Anything (ops.scanint8 s)
  pub float8in_internal : (s : List ℕ) → Returns Anything (ops.float8in_internal s)
  pub numeric_in : (s : List ℕ) → Returns Anything (ops.numeric_in s)
  pub clock_in : (type : ClockType) (s : List ℕ) → Returns Anything (ops.clock_in type s)
  pub timetz_in : (s : List ℕ) → Returns Anything (ops.timetz_in s)
  pub interval_in : (s : List ℕ) → Returns Anything (ops.interval_in s)
  pub inet_in : (s : List ℕ) → Returns Anything (ops.inet_in s)
  pub cidr_in : (s : List ℕ) → Returns Anything (ops.cidr_in s)
  pub macaddr_in : (s : List ℕ) → Returns Anything (ops.macaddr_in s)
  pub macaddr8_in : (s : List ℕ) → Returns Anything (ops.macaddr8_in s)

Returns-ends {ℓ} :
    {A : Type ℓ} (first : Outcome A) → Returns Anything first → first ≢ Outcome.out_of_fuel
Returns-ends (ok value) p e = cc
Returns-ends (error report) p e = cc
Returns-ends Outcome.crash p e = cc
Returns-ends Outcome.out_of_fuel p e = p

Returns-cast_type :
    (enc : Encoding) (type : TokenType) (annotation : Option (List ℕ))
    → Returns Anything (cast_type enc type annotation)
unfolding cast_type annotated_type
Returns-cast_type enc type none = tt
Returns-cast_type enc type (some annotation) = ground arith

module _ (ops : InputOps) (ending : IsEnding ops) where
  Returns-scalar_of_text :
      (type : TokenType) (token : List ℕ) → Returns Anything (scalar_of_text ops type token)
  unfolding scalar_of_text
  Returns-scalar_of_text TokenType.string token =
      Returns-map (check_string_length token) Scalar.string (Returns-check_string_length token)
  Returns-scalar_of_text TokenType.integer token = Returns-map _ _ (ending.scanint8 token)
  Returns-scalar_of_text TokenType.float token = Returns-map _ _ (ending.float8in_internal token)
  Returns-scalar_of_text TokenType.numeric token = Returns-map _ _ (ending.numeric_in token)
  Returns-scalar_of_text TokenType.timestamp token =
      Returns-map _ _ (ending.clock_in ClockType.timestamp token)
  Returns-scalar_of_text TokenType.timestamptz token =
      Returns-map _ _ (ending.clock_in ClockType.timestamptz token)
  Returns-scalar_of_text TokenType.date token =
      Returns-map _ _ (ending.clock_in ClockType.date token)
  Returns-scalar_of_text TokenType.time token =
      Returns-map _ _ (ending.clock_in ClockType.time token)
  Returns-scalar_of_text TokenType.timetz token = Returns-map _ _ (ending.timetz_in token)
  Returns-scalar_of_text TokenType.interval token = Returns-map _ _ (ending.interval_in token)
  Returns-scalar_of_text TokenType.inet token = Returns-map _ _ (ending.inet_in token)
  Returns-scalar_of_text TokenType.cidr token = Returns-map _ _ (ending.cidr_in token)
  Returns-scalar_of_text TokenType.macaddr token = Returns-map _ _ (ending.macaddr_in token)
  Returns-scalar_of_text TokenType.macaddr8 token = Returns-map _ _ (ending.macaddr8_in token)
  Returns-scalar_of_text _ token = tt

  Returns-scalar_of :
      (type : TokenType) (token : Option (List ℕ)) → Returns Anything (scalar_of ops type token)
  unfolding scalar_of scalar_of_text
  Returns-scalar_of TokenType.true_token token = tt
  Returns-scalar_of TokenType.false_token token = tt
  Returns-scalar_of TokenType.null_token token = tt
  Returns-scalar_of type none = tt
  Returns-scalar_of type (some token) = Returns-scalar_of_text type token

module _ (limits : Limits) where
  module _ (enc : Encoding) (ops : InputOps) (ending : IsEnding ops) where
    gtype_in_actions-IsTotal : IsTotal (gtype_in_actions limits enc ops)
    unfolding gtype_in_object_start gtype_in_array_start gtype_in_scalar push_gtype_value
        push_gtype_value_scalar
    gtype_in_actions-IsTotal = record {
      object_start = λ state. tt;
      object_end = Returns-gtype_in_object_end limits;
      array_start = λ state. tt;
      array_end = Returns-gtype_in_array_end limits;
      object_field_start = Returns-gtype_in_object_field_start limits;
      object_field_end = λ state fname isnull. tt;
      array_element_start = λ state isnull. tt;
      array_element_end = λ state isnull. tt;
      scalar = λ state token type annotation.
          Returns->>= Anything _ (cast_type enc type annotation) _
            (Returns-cast_type enc type annotation)
            (λ cast done.
              Returns->>= Anything _ (scalar_of ops cast token) _
                (Returns-scalar_of ops ending cast token)
                (λ v done'. Returns-push_scalar limits state v));
    }

    -- When the input functions of PostgreSQL end, gtype_from_cstring ends for every text: with fuel for
    -- four calls for each byte and one more, it returns a value, reports the text, or crashes.
    pub gtype_from_cstring-ends :
        (fuel : ℕ) (str : List ℕ)
        → 4 * length str + 1 ≤ fuel
        → gtype_from_cstring limits enc ops fuel str ≢ Outcome.out_of_fuel
    unfolding gtype_from_cstring
    gtype_from_cstring-ends fuel str enough = Returns-ends _ (
        Returns->>= Anything _
          (parse_gtype enc (gtype_in_actions limits enc ops) fuel (make_gtype_lex_context str true)
            (none, []))
          _
          (parse_gtype-Returns enc (gtype_in_actions limits enc ops) gtype_in_actions-IsTotal fuel
            (make_gtype_lex_context str true) (none, []) enough)
          (λ parsed done. Returns-or_crash parsed.1.0))
