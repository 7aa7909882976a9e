-- ===== src/Text/Parser.antt =====
-- The recursive descent of gtype_parser.c over the tokens of a text. A semantic action that is NULL is
-- `none`. The functions that call one another take fuel, which counts how deep they nest and how often
-- the loops over the parts of a container go round.
pub mod Taken
pub mod Ends
use post_graph.Prelude.{
  ℕ, zero, suc, Bool, true, false, ◌==◌, ◌||◌, List, [], Option, none, some, is_some, Report,
  Outcome, ok, error, ◌>>=◌, if◌then◌else◌,
}
use post_graph.Text.Context.{TokenType, LexContext, Encoding, between}
use post_graph.Text.Lexer.{gtype_lex}

-- gtype_parse_context
pub data ParseContext : Type 0 where
  parse_value_context parse_string parse_array_start parse_array_next : ParseContext
  parse_object_start parse_object_label parse_object_next parse_object_comma : ParseContext
  parse_end : ParseContext

pub record SemAction (S : Type 0) : Type 0 where
  pub object_start : Option (S → Outcome S)
  pub object_end : Option (S → Outcome S)
  pub array_start : Option (S → Outcome S)
  pub array_end : Option (S → Outcome S)
  pub object_field_start : Option (S → Option (List ℕ) → Bool → Outcome S)
  pub object_field_end : Option (S → Option (List ℕ) → Bool → Outcome S)
  pub array_element_start : Option (S → Bool → Outcome S)
  pub array_element_end : Option (S → Bool → Outcome S)
  pub scalar : Option (S → Option (List ℕ) → TokenType → Option (List ℕ) → Outcome S)

abbrev pub token_number : TokenType → ℕ
token_number TokenType.invalid = 0
token_number TokenType.string = 1
token_number TokenType.integer = 2
token_number TokenType.float = 3
token_number TokenType.numeric = 4
token_number TokenType.timestamp = 5
token_number TokenType.timestamptz = 6
token_number TokenType.date = 7
token_number TokenType.time = 8
token_number TokenType.timetz = 9
token_number TokenType.interval = 10
token_number TokenType.inet = 12
token_number TokenType.cidr = 13
token_number TokenType.macaddr = 14
token_number TokenType.macaddr8 = 15
token_number TokenType.object_start = 16
token_number TokenType.object_end = 17
token_number TokenType.array_start = 18
token_number TokenType.array_end = 19
token_number TokenType.comma = 20
token_number TokenType.colon = 21
token_number TokenType.annotation = 22
token_number TokenType.identifier = 23
token_number TokenType.true_token = 25
token_number TokenType.false_token = 26
token_number TokenType.null_token = 27
token_number TokenType.end = 28

abbrev pub same_type : TokenType → TokenType → Bool
same_type a b = token_number a == token_number b

-- What is reported where the context expects another token.
abbrev pub expected : ParseContext → Report
expected ParseContext.parse_end = Report.expected_end
expected ParseContext.parse_value_context = Report.expected_value
expected ParseContext.parse_string = Report.expected_string
expected ParseContext.parse_array_start = Report.expected_array_element
expected ParseContext.parse_array_next = Report.expected_array_next
expected ParseContext.parse_object_start = Report.expected_object_start
expected ParseContext.parse_object_label = Report.expected_colon
expected ParseContext.parse_object_next = Report.expected_object_next
expected ParseContext.parse_object_comma = Report.expected_string

-- token_start is NULL exactly when the type is that of the end.
unfoldable pub report_parse_error {ℓ} : {A : Type ℓ} → ParseContext → LexContext → Outcome A
report_parse_error ctx lex =
    if same_type lex.token_type TokenType.end
    then error Report.unexpected_end
    else error (expected ctx)

abbrev pub start_or_empty : Option (List ℕ) → List ℕ
start_or_empty none = []
start_or_empty (some start) = start

-- The lexeme of the current token. Of a string it is strval.
unfoldable pub lexeme_of : LexContext → Option (List ℕ)
lexeme_of lex =
    if same_type lex.token_type TokenType.string
    then lex.strval
    else some (between (start_or_empty lex.token_start) lex.token_terminator)

-- Calls of an action, if there is one.
module _ {S : Type 0} where
  abbrev pub call_struct : Option (S → Outcome S) → S → Outcome S
  call_struct none state = ok state
  call_struct (some action) state = action state

  abbrev pub call_field :
      Option (S → Option (List ℕ) → Bool → Outcome S) → S → Option (List ℕ) → Bool → Outcome S
  call_field none state fname isnull = ok state
  call_field (some action) state fname isnull = action state fname isnull

  abbrev pub call_element : Option (S → Bool → Outcome S) → S → Bool → Outcome S
  call_element none state isnull = ok state
  call_element (some action) state isnull = action state isnull

  abbrev pub call_scalar :
      Option (S → Option (List ℕ) → TokenType → Option (List ℕ) → Outcome S)
      → S
      → Option (List ℕ)
      → TokenType
      → Option (List ℕ)
      → Outcome S
  call_scalar none state token type annotation = ok state
  call_scalar (some action) state token type annotation = action state token type annotation

abbrev pub is_scalar_token : TokenType → Bool
is_scalar_token TokenType.true_token = true
is_scalar_token TokenType.false_token = true
is_scalar_token TokenType.null_token = true
is_scalar_token TokenType.integer = true
is_scalar_token TokenType.float = true
is_scalar_token TokenType.string = true
is_scalar_token TokenType.inet = true
is_scalar_token _ = false

abbrev pub is_null_token : TokenType → Bool
is_null_token type = same_type type TokenType.null_token

module _ (enc : Encoding) where
  -- lex_accept: `none` if the token does not match; else the lexeme, if it is wanted, and the lexer
  -- at the next token.
  unfoldable pub lex_accept :
      LexContext → TokenType → (wanted : Bool) → Outcome (Option (Option (List ℕ) × LexContext))
  lex_accept lex type wanted =
      if same_type lex.token_type type
      then gtype_lex enc lex >>= (λ lex'. ok (some (if wanted then lexeme_of lex else none, lex')))
      else ok none

  abbrev pub or_report {ℓ} : {A : Type ℓ} → ParseContext → LexContext → Option A → Outcome A
  or_report ctx lex none = report_parse_error ctx lex
  or_report ctx lex (some accepted) = ok accepted

  unfoldable pub lex_expect : ParseContext → LexContext → TokenType → Outcome LexContext
  lex_expect ctx lex type =
      lex_accept lex type false >>= (λ accepted. or_report ctx lex accepted >>= (λ next. ok next.1))

  abbrev pub or_invalid {ℓ} : {A : Type ℓ} → Option A → Outcome A
  or_invalid none = error Report.invalid_annotation
  or_invalid (some accepted) = ok accepted

  -- The value is kept if there is an action.
  unfoldable pub parse_scalar_annotation :
      LexContext → (func : Bool) → Outcome (Option (List ℕ) × LexContext)
  parse_scalar_annotation lex func =
      let name = lex_accept lex TokenType.annotation false >>= (λ accepted.
        or_report ParseContext.parse_value_context lex accepted
        >>= (λ next. lex_accept next.1 TokenType.identifier func >>= or_invalid)) in
      if same_type lex.token_type TokenType.annotation then name else ok (none, lex)

  module _ {S : Type 0} (sem : SemAction S) where
    -- The lexer and the state of the actions.
    abbrev pub Parsed : Type 0
    Parsed = LexContext × S

    unfoldable pub parse_scalar : LexContext → S → Outcome Parsed
    parse_scalar lex state =
        let parsed = lex_accept lex lex.token_type (is_some sem.scalar) >>= (λ accepted.
          or_report ParseContext.parse_value_context lex accepted >>= (λ val.
            parse_scalar_annotation val.1 (is_some sem.scalar) >>= (λ annotation.
              call_scalar sem.scalar state val.0 lex.token_type annotation.0
              >>= (λ state'. ok (annotation.1, state'))))) in
        if is_scalar_token lex.token_type
        then parsed
        else report_parse_error ParseContext.parse_value_context lex

    unfoldable mutual
      -- The switch that parse_gtype, parse_object_field and parse_array_element share.
      pub parse_value : (fuel : ℕ) → LexContext → S → Outcome Parsed
      parse_value zero lex state = Outcome.out_of_fuel
      parse_value (suc fuel) lex state = elim lex.token_type [
        | TokenType.object_start ↦ parse_object fuel lex state
        | TokenType.array_start ↦ parse_array fuel lex state
        | _ ↦ parse_scalar lex state
      ]

      pub parse_object_field : (fuel : ℕ) → LexContext → S → Outcome Parsed
      parse_object_field zero lex state = Outcome.out_of_fuel
      parse_object_field (suc fuel) lex state =
          let wanted = is_some sem.object_field_start || is_some sem.object_field_end in
          lex_accept lex TokenType.string wanted >>= (λ accepted.
            or_report ParseContext.parse_string lex accepted >>= (λ fname.
              lex_expect ParseContext.parse_object_label fname.1 TokenType.colon >>= (λ lex'.
                call_field sem.object_field_start state fname.0 (is_null_token lex'.token_type)
                >>= (λ started. parse_value fuel lex' started >>= (λ parsed.
                    call_field sem.object_field_end parsed.1 fname.0 (is_null_token lex'.token_type)
                    >>= (λ ended. ok (parsed.0, ended)))))))

      -- `while (lex_accept(lex, GTYPE_TOKEN_COMMA, NULL)) parse_object_field(lex, sem);`
      pub field_loop : (fuel : ℕ) → LexContext → S → Outcome Parsed
      field_loop zero lex state = Outcome.out_of_fuel
      field_loop (suc fuel) lex state = lex_accept lex TokenType.comma false >>= (λ accepted.
          elim accepted [
            | none ↦ ok (lex, state)
            | some next ↦
                parse_object_field fuel next.1 state
                >>= (λ parsed. field_loop fuel parsed.0 parsed.1)
          ])

      pub parse_object : (fuel : ℕ) → LexContext → S → Outcome Parsed
      parse_object zero lex state = Outcome.out_of_fuel
      parse_object (suc fuel) lex state = call_struct sem.object_start state >>= (λ started.
          lex_expect ParseContext.parse_object_start lex TokenType.object_start >>= (λ lex'.
            object_fields fuel lex' started >>= (λ fields.
              lex_expect ParseContext.parse_object_next fields.0 TokenType.object_end
              >>= (λ lex''. call_struct sem.object_end fields.1 >>= (λ ended. ok (lex'', ended))))))

      pub object_fields : (fuel : ℕ) → LexContext → S → Outcome Parsed
      object_fields zero lex state = Outcome.out_of_fuel
      object_fields (suc fuel) lex state = elim lex.token_type [
        | TokenType.string ↦
            parse_object_field fuel lex state >>= (λ parsed. field_loop fuel parsed.0 parsed.1)
        | TokenType.object_end ↦ ok (lex, state)
        | _ ↦ report_parse_error ParseContext.parse_object_start lex
      ]

      pub parse_array_element : (fuel : ℕ) → LexContext → S → Outcome Parsed
      parse_array_element zero lex state = Outcome.out_of_fuel
      parse_array_element (suc fuel) lex state =
          call_element sem.array_element_start state (is_null_token lex.token_type) >>= (λ started.
            parse_value fuel lex started >>= (λ parsed.
              call_element sem.array_element_end parsed.1 (is_null_token lex.token_type)
              >>= (λ ended. ok (parsed.0, ended))))

      pub element_loop : (fuel : ℕ) → LexContext → S → Outcome Parsed
      element_loop zero lex state = Outcome.out_of_fuel
      element_loop (suc fuel) lex state = lex_accept lex TokenType.comma false >>= (λ accepted.
          elim accepted [
            | none ↦ ok (lex, state)
            | some next ↦
                parse_array_element fuel next.1 state
                >>= (λ parsed. element_loop fuel parsed.0 parsed.1)
          ])

      pub parse_array : (fuel : ℕ) → LexContext → S → Outcome Parsed
      parse_array zero lex state = Outcome.out_of_fuel
      parse_array (suc fuel) lex state = call_struct sem.array_start state >>= (λ started.
          lex_expect ParseContext.parse_array_start lex TokenType.array_start >>= (λ lex'.
            array_elements fuel lex' started >>= (λ parts.
              lex_expect ParseContext.parse_array_next parts.0 TokenType.array_end
              >>= (λ lex''. call_struct sem.array_end parts.1 >>= (λ ended. ok (lex'', ended))))))

      pub array_elements : (fuel : ℕ) → LexContext → S → Outcome Parsed
      array_elements zero lex state = Outcome.out_of_fuel
      array_elements (suc fuel) lex state = elim lex.token_type [
        | TokenType.array_end ↦ ok (lex, state)
        | _ ↦ parse_array_element fuel lex state >>= (λ parsed. element_loop fuel parsed.0 parsed.1)
      ]

    unfoldable pub parse_gtype : (fuel : ℕ) → LexContext → S → Outcome Parsed
    parse_gtype fuel lex state = gtype_lex enc lex >>= (λ first.
        parse_value fuel first state >>= (λ parsed.
          lex_expect ParseContext.parse_end parsed.0 TokenType.end
          >>= (λ last. ok (last, parsed.1))))
