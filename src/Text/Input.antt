-- ===== src/Text/Input.antt =====
-- gtype_from_cstring of gtype.c, and the actions that it gives the parser: each pushes a token of the
-- value that is read. The push of a token that is no container never enters the loop that push_gtype_value
-- unpacks containers with, and needs no fuel.
pub mod Pushes
pub mod Ends
pub mod Reals
pub mod Scalars
pub mod Places
pub mod Parts
pub mod Loops
pub mod Values
use post_graph.Prelude.{
  ℕ, zero, Bool, true, false, List, [], ◌∷◌, ◌==◌, ◌&&◌, ltb, ◌^◌, ◌-◌, if◌then◌else◌, length,
  Option, none, some, Report, Outcome, ok, error, ◌>>=◌, ◌>>◌, or_crash, map_ok,
}
use post_graph.Prelude.Int.{ℤ}
use post_graph.Gtype.Scalar.{Scalar, Float8, Inet, Datum, ClockType, OtherType}
use post_graph.Gtype.Value.{Value}
use post_graph.Gtype.Iterator.{Token, Seen, part, array_head}
use post_graph.Gtype.Builder.{
  Building, array, object, vector, ParseState, Limits, Pushed, push_gtype_value,
}
use post_graph.Text.Context.{TokenType, LexContext, Encoding, make_gtype_lex_context}
use post_graph.Text.Parser.{SemAction, is_null_token, parse_gtype}

-- The input functions of PostgreSQL, which report a text that they cannot read.
pub record InputOps : Type 0 where
  pub scanint8 : List ℕ → Outcome ℤ
  pub float8in_internal : List ℕ → Outcome Float8
  pub numeric_in : List ℕ → Outcome Datum
  pub clock_in : ClockType → List ℕ → Outcome ℤ
  pub timetz_in : List ℕ → Outcome Datum
  pub interval_in : List ℕ → Outcome Datum
  pub inet_in : List ℕ → Outcome Inet
  pub cidr_in : List ℕ → Outcome Inet
  pub macaddr_in : List ℕ → Outcome Datum
  pub macaddr8_in : List ℕ → Outcome Datum

unfoldable pub check_string_length : List ℕ → Outcome (List ℕ)
check_string_length s = if ltb (2 ^ 28 - 1) (length s) then error Report.string_too_long else ok s

module _ (enc : Encoding) where
  -- The type that an annotation gives, its name compared without regard to case.
  unfoldable pub annotated_type : List ℕ → Outcome TokenType
  annotated_type annotation =
      let len = length annotation in
      let is = enc.pg_strcasecmp annotation in
      if is (b'n' ∷ b'u' ∷ b'm' ∷ b'e' ∷ b'r' ∷ b'i' ∷ b'c' ∷ [])
      then ok TokenType.numeric
      else if is (b'i' ∷ b'n' ∷ b't' ∷ b'e' ∷ b'g' ∷ b'e' ∷ b'r' ∷ [])
      then ok TokenType.integer
      else if is (b'f' ∷ b'l' ∷ b'o' ∷ b'a' ∷ b't' ∷ [])
      then ok TokenType.float
      else if is (b't' ∷ b'i' ∷ b'm' ∷ b'e' ∷ b's' ∷ b't' ∷ b'a' ∷ b'm' ∷ b'p' ∷ [])
      then ok TokenType.timestamp
      else if (len == 11)
          && is (b't' ∷ b'i' ∷ b'm' ∷ b'e' ∷ b's' ∷ b't' ∷ b'a' ∷ b'm' ∷ b'p' ∷ b't' ∷ b'z' ∷ [])
      then ok TokenType.timestamptz
      else if (len == 4) && is (b'd' ∷ b'a' ∷ b't' ∷ b'e' ∷ [])
      then ok TokenType.date
      else if (len == 4) && is (b't' ∷ b'i' ∷ b'm' ∷ b'e' ∷ [])
      then ok TokenType.time
      else if (len == 6) && is (b't' ∷ b'i' ∷ b'm' ∷ b'e' ∷ b't' ∷ b'z' ∷ [])
      then ok TokenType.timetz
      else if (len == 8) && is (b'i' ∷ b'n' ∷ b't' ∷ b'e' ∷ b'r' ∷ b'v' ∷ b'a' ∷ b'l' ∷ [])
      then ok TokenType.interval
      else if (len == 4) && is (b'i' ∷ b'n' ∷ b'e' ∷ b't' ∷ [])
      then ok TokenType.inet
      else if (len == 4) && is (b'c' ∷ b'i' ∷ b'd' ∷ b'r' ∷ [])
      then ok TokenType.cidr
      else if (len == 7) && is (b'm' ∷ b'a' ∷ b'c' ∷ b'a' ∷ b'd' ∷ b'd' ∷ b'r' ∷ [])
      then ok TokenType.macaddr
      else if (len == 8) && is (b'm' ∷ b'a' ∷ b'c' ∷ b'a' ∷ b'd' ∷ b'd' ∷ b'r' ∷ b'8' ∷ [])
      then ok TokenType.macaddr
      else error Report.invalid_annotation

  -- The annotation of a null is not looked at.
  unfoldable pub cast_type : TokenType → (annotation : Option (List ℕ)) → Outcome TokenType
  cast_type type none = ok type
  cast_type type (some annotation) =
      if is_null_token type then ok type else annotated_type annotation

module _ (ops : InputOps) where
  -- The scalar of a token that is not NULL.
  unfoldable pub scalar_of_text : TokenType → List ℕ → Outcome Scalar
  scalar_of_text TokenType.string token = check_string_length token >>= (λ s. ok (Scalar.string s))
  scalar_of_text TokenType.integer token = ops.scanint8 token >>= (λ n. ok (Scalar.integer n))
  scalar_of_text TokenType.float token = ops.float8in_internal token >>= (λ x. ok (Scalar.float x))
  scalar_of_text TokenType.numeric token = ops.numeric_in token >>= (λ d. ok (Scalar.numeric d))
  scalar_of_text TokenType.timestamp token =
      ops.clock_in ClockType.timestamp token >>= (λ n. ok (Scalar.clock ClockType.timestamp n))
  scalar_of_text TokenType.timestamptz token =
      ops.clock_in ClockType.timestamptz token >>= (λ n. ok (Scalar.clock ClockType.timestamptz n))
  scalar_of_text TokenType.date token =
      ops.clock_in ClockType.date token >>= (λ n. ok (Scalar.clock ClockType.date n))
  scalar_of_text TokenType.time token =
      ops.clock_in ClockType.time token >>= (λ n. ok (Scalar.clock ClockType.time n))
  scalar_of_text TokenType.timetz token = ops.timetz_in token >>= (λ d. ok (Scalar.timetz d))
  scalar_of_text TokenType.interval token = ops.interval_in token >>= (λ d. ok (Scalar.interval d))
  scalar_of_text TokenType.inet token = ops.inet_in token >>= (λ i. ok (Scalar.inet i))
  scalar_of_text TokenType.cidr token = ops.cidr_in token >>= (λ i. ok (Scalar.cidr i))
  scalar_of_text TokenType.macaddr token =
      ops.macaddr_in token >>= (λ d. ok (Scalar.other OtherType.mac d))
  scalar_of_text TokenType.macaddr8 token =
      ops.macaddr8_in token >>= (λ d. ok (Scalar.other OtherType.mac8 d))
  scalar_of_text _ token = error Report.invalid_token_type

  -- The switch of gtype_in_scalar. Each case that reads the token crashes if it is NULL, by its Assert
  -- or in the function that it calls.
  unfoldable pub scalar_of : TokenType → Option (List ℕ) → Outcome Scalar
  scalar_of TokenType.true_token token = ok (Scalar.boolean true)
  scalar_of TokenType.false_token token = ok (Scalar.boolean false)
  scalar_of TokenType.null_token token = ok Scalar.null
  scalar_of type token = or_crash token >>= scalar_of_text type

module _ (limits : Limits) where
  abbrev pub push : Pushed → Token → Option Seen → Outcome Pushed
  push state tok val = push_gtype_value limits 0 state.1 tok val

  unfoldable pub gtype_in_object_start : Pushed → Outcome Pushed
  gtype_in_object_start state = push state Token.wgt_begin_object none

  unfoldable pub gtype_in_object_end : Pushed → Outcome Pushed
  gtype_in_object_end state = push state Token.wgt_end_object none

  unfoldable pub gtype_in_array_start : Pushed → Outcome Pushed
  gtype_in_array_start state = push state Token.wgt_begin_array none

  unfoldable pub gtype_in_array_end : Pushed → Outcome Pushed
  gtype_in_array_end state = push state Token.wgt_end_array none

  unfoldable pub gtype_in_object_field_start :
      Pushed → Option (List ℕ) → (isnull : Bool) → Outcome Pushed
  gtype_in_object_field_start state fname isnull =
      or_crash fname
      >>= check_string_length
      >>= (λ key. push state Token.wgt_key (some (part (Value.scalar (Scalar.string key)))))

  -- A scalar at the top becomes a pseudo array; another goes into the innermost container.
  unfoldable pub push_scalar : Pushed → Scalar → Outcome Pushed
  push_scalar (res, []) v =
      push (res, []) Token.wgt_begin_array (some (array_head 1 true)) >>= (λ begun.
        push begun Token.wgt_elem (some (part (Value.scalar v)))
        >>= (λ filled. push filled Token.wgt_end_array none))
  push_scalar (res, st ∷ next) v = into st.cont_val
    where
      into : Building → Outcome Pushed
      into (array raw elems) = push (res, st ∷ next) Token.wgt_elem (some (part (Value.scalar v)))
      into (object pairs key) = push (res, st ∷ next) Token.wgt_value (some (part (Value.scalar v)))
      into (vector x) = error Report.unexpected_parent

  module _ (enc : Encoding) (ops : InputOps) where
    unfoldable pub gtype_in_scalar :
        Pushed → Option (List ℕ) → TokenType → Option (List ℕ) → Outcome Pushed
    gtype_in_scalar state token type annotation =
        cast_type enc type annotation >>= (λ cast. scalar_of ops cast token >>= push_scalar state)

    abbrev pub gtype_in_actions : SemAction Pushed
    gtype_in_actions = record {
      object_start = some gtype_in_object_start;
      object_end = some gtype_in_object_end;
      array_start = some gtype_in_array_start;
      array_end = some gtype_in_array_end;
      object_field_start = some gtype_in_object_field_start;
      object_field_end = none;
      array_element_start = none;
      array_element_end = none;
      scalar = some gtype_in_scalar;
    }

    -- The value that gtype_value_to_gtype is called with, which reads through the pointer.
    unfoldable pub gtype_from_cstring : (fuel : ℕ) → (str : List ℕ) → Outcome Value
    gtype_from_cstring fuel str =
        parse_gtype enc gtype_in_actions fuel (make_gtype_lex_context str true) (none, [])
        >>= (λ parsed. or_crash parsed.1.0)
