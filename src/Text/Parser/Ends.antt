-- ===== src/Text/Parser/Ends.antt =====
-- About the end of the recursive descent: its rounds, counted by the tokens that they take.
use post_graph.Prelude.{
  ℕ, zero, suc, ◌+◌, ◌*◌, ◌≤◌, ◌≡◌, refl, sym, inl, inr, Bool, true, false, Bool-cases, List,
  is_some, length, Option, none, some, ok, ◌>>=◌, Returns, Anything, Returns->>=, Returns-weaken,
  arith,
}
use post_graph.Text.Context.{TokenType, LexContext, Encoding}
use post_graph.Text.Lexer.{gtype_lex}
use post_graph.Text.Parser.{
  ParseContext, SemAction, same_type, report_parse_error, call_struct, call_field, call_element,
  call_scalar, is_scalar_token, is_null_token, lex_accept, or_report, lex_expect,
  parse_scalar_annotation, parse_scalar, parse_value, parse_object_field, field_loop, parse_object,
  object_fields, parse_array_element, element_loop, parse_array, array_elements, parse_gtype,
}
use post_graph.Text.Parser.Taken.{
  measure, Returns-report, gtype_lex-measure, Accepted, lex_accept-Accepted, Returns-or_report,
  lex_expect-taken, Returns-lex_expect, annotation-Below,
}

-- The actions end.
pub record IsTotal {S : Type 0} (sem : SemAction S) : Type 0 where
  pub object_start : (state : S) → Returns Anything (call_struct sem.object_start state)
  pub object_end : (state : S) → Returns Anything (call_struct sem.object_end state)
  pub array_start : (state : S) → Returns Anything (call_struct sem.array_start state)
  pub array_end : (state : S) → Returns Anything (call_struct sem.array_end state)
  pub object_field_start :
      (state : S) (fname : Option (List ℕ)) (isnull : Bool)
      → Returns Anything (call_field sem.object_field_start state fname isnull)
  pub object_field_end :
      (state : S) (fname : Option (List ℕ)) (isnull : Bool)
      → Returns Anything (call_field sem.object_field_end state fname isnull)
  pub array_element_start :
      (state : S) (isnull : Bool)
      → Returns Anything (call_element sem.array_element_start state isnull)
  pub array_element_end :
      (state : S) (isnull : Bool)
      → Returns Anything (call_element sem.array_element_end state isnull)
  pub scalar :
      (state : S) (token : Option (List ℕ)) (type : TokenType) (annotation : Option (List ℕ))
      → Returns Anything (call_scalar sem.scalar state token type annotation)

module _ (enc : Encoding) where
  module _ {S : Type 0} (sem : SemAction S) (total : IsTotal sem) where
    -- What is left behind a part is at most n.
    abbrev Left : ℕ → LexContext × S → Type 0
    Left n parsed = measure parsed.0 ≤ n

    scalar_token :
        (type : TokenType) → is_scalar_token type ≡ true → same_type type TokenType.end ≡ false
    scalar_token TokenType.end h = cc
    scalar_token _ h = refl

    parse_scalar-Left :
        (lex : LexContext) (state : S)
        → Returns (Left (measure lex)) (parse_scalar enc sem lex state)
    unfolding parse_scalar
    parse_scalar-Left lex state = elim (Bool-cases (is_scalar_token lex.token_type)) [
      | inl yes_scalar ↦ rw yes_scalar (
          Returns->>= _ _ (lex_accept enc lex lex.token_type (is_some sem.scalar)) _
            (lex_accept-Accepted enc lex lex.token_type (is_some sem.scalar)
              (scalar_token lex.token_type yes_scalar))
            (λ accepted h.
              Returns->>= _ _ (or_report enc _ lex accepted) _
                (Returns-or_report enc _ lex lex accepted h)
                (λ val less.
                  Returns->>= _ _ (parse_scalar_annotation enc val.1 (is_some sem.scalar)) _
                    (annotation-Below enc val.1 (is_some sem.scalar))
                    (λ annotation below.
                      Returns->>= _ _
                        (call_scalar sem.scalar state val.0 lex.token_type annotation.0) _
                        (total.scalar state val.0 lex.token_type annotation.0)
                        (λ state' done. omega (arith, less, below))))))
      | inr no_scalar ↦ rw no_scalar (Returns-report _ _ lex)
    ]

    mutual
      unfolding parse_value parse_object_field field_loop parse_object object_fields
          parse_array_element element_loop parse_array array_elements

      parse_value-Left :
          (fuel : ℕ) (lex : LexContext) (state : S)
          → 4 * measure lex + 1 ≤ fuel
          → Returns (Left (measure lex)) (parse_value enc sem fuel lex state)
      parse_value-Left zero lex state enough = absurd (omega arith)
      parse_value-Left (suc fuel) lex state enough =
          elim lex.token_type
              as (λ type.
                type ≡ lex.token_type
                → Returns (Left (measure lex)) (elim type [
                  | TokenType.object_start ↦ parse_object enc sem fuel lex state
                  | TokenType.array_start ↦ parse_array enc sem fuel lex state
                  | _ ↦ parse_scalar enc sem lex state
                ])) [
                  | TokenType.object_start ↦
                      λ e. parse_object-Left fuel lex state (sym e) (omega (arith, enough))
                  | TokenType.array_start ↦
                      λ e. parse_array-Left fuel lex state (sym e) (omega (arith, enough))
                  | _ ↦ λ e. parse_scalar-Left lex state
                ]
            refl

      parse_object-Left :
          (fuel : ℕ) (lex : LexContext) (state : S)
          → lex.token_type ≡ TokenType.object_start
          → 4 * measure lex ≤ fuel
          → Returns (Left (measure lex)) (parse_object enc sem fuel lex state)
      parse_object-Left zero lex state begins enough = absurd (ground arith)
      parse_object-Left (suc fuel) lex state begins enough =
          Returns->>= _ _ (call_struct sem.object_start state) _ (total.object_start state)
            (λ started done.
              Returns->>= _ _ (lex_expect enc _ lex _) _ (lex_expect-taken enc _ lex _ refl)
                (λ lex' less.
                  Returns->>= _ _ (object_fields enc sem fuel lex' started) _
                    (object_fields-Left fuel lex' started (omega (arith, less, enough)))
                    (λ parts left.
                      Returns->>= _ _ (lex_expect enc _ parts.0 _) _
                        (lex_expect-taken enc _ parts.0 _ refl)
                        (λ lex'' ended.
                          Returns->>= _ _ (call_struct sem.object_end parts.1) _
                            (total.object_end parts.1)
                            (λ state' done'. omega (arith, less, left, ended))))))

      parse_array-Left :
          (fuel : ℕ) (lex : LexContext) (state : S)
          → lex.token_type ≡ TokenType.array_start
          → 4 * measure lex ≤ fuel
          → Returns (Left (measure lex)) (parse_array enc sem fuel lex state)
      parse_array-Left zero lex state begins enough = absurd (ground arith)
      parse_array-Left (suc fuel) lex state begins enough =
          Returns->>= _ _ (call_struct sem.array_start state) _ (total.array_start state)
            (λ started done.
              Returns->>= _ _ (lex_expect enc _ lex _) _ (lex_expect-taken enc _ lex _ refl)
                (λ lex' less.
                  Returns->>= _ _ (array_elements enc sem fuel lex' started) _
                    (array_elements-Left fuel lex' started (omega (arith, less, enough)))
                    (λ parts left.
                      Returns->>= _ _ (lex_expect enc _ parts.0 _) _
                        (lex_expect-taken enc _ parts.0 _ refl)
                        (λ lex'' ended.
                          Returns->>= _ _ (call_struct sem.array_end parts.1) _
                            (total.array_end parts.1)
                            (λ state' done'. omega (arith, less, left, ended))))))

      object_fields-Left :
          (fuel : ℕ) (lex : LexContext) (state : S)
          → 4 * measure lex + 3 ≤ fuel
          → Returns (Left (measure lex)) (object_fields enc sem fuel lex state)
      object_fields-Left zero lex state enough = absurd (omega arith)
      object_fields-Left (suc fuel) lex state enough =
          let more : Returns (Left (measure lex)) (
              parse_object_field enc sem fuel lex state
              >>= (λ parsed. field_loop enc sem fuel parsed.0 parsed.1)) =
            Returns->>= _ _ (parse_object_field enc sem fuel lex state) _
              (parse_object_field-Left fuel lex state (omega (arith, enough)))
              (λ parsed left.
                Returns-weaken _ _ (field_loop enc sem fuel parsed.0 parsed.1)
                  (λ last left'. omega (arith, left, left'))
                  (field_loop-Left fuel parsed.0 parsed.1 (omega (arith, left, enough)))) in
          elim lex.token_type
            as (λ type. Returns (Left (measure lex)) (elim type [
              | TokenType.string ↦
                  parse_object_field enc sem fuel lex state
                  >>= (λ parsed. field_loop enc sem fuel parsed.0 parsed.1)
              | TokenType.object_end ↦ ok (lex, state)
              | _ ↦ report_parse_error ParseContext.parse_object_start lex
            ])) [
              | TokenType.string ↦ more
              | TokenType.object_end ↦ omega arith
              | _ ↦ Returns-report _ _ lex
            ]

      array_elements-Left :
          (fuel : ℕ) (lex : LexContext) (state : S)
          → 4 * measure lex + 3 ≤ fuel
          → Returns (Left (measure lex)) (array_elements enc sem fuel lex state)
      array_elements-Left zero lex state enough = absurd (omega arith)
      array_elements-Left (suc fuel) lex state enough =
          let more : Returns (Left (measure lex)) (
              parse_array_element enc sem fuel lex state
              >>= (λ parsed. element_loop enc sem fuel parsed.0 parsed.1)) =
            Returns->>= _ _ (parse_array_element enc sem fuel lex state) _
              (parse_array_element-Left fuel lex state (omega (arith, enough)))
              (λ parsed left.
                Returns-weaken _ _ (element_loop enc sem fuel parsed.0 parsed.1)
                  (λ last left'. omega (arith, left, left'))
                  (element_loop-Left fuel parsed.0 parsed.1 (omega (arith, left, enough)))) in
          elim lex.token_type
            as (λ type. Returns (Left (measure lex)) (elim type [
              | TokenType.array_end ↦ ok (lex, state)
              | _ ↦
                  parse_array_element enc sem fuel lex state
                  >>= (λ parsed. element_loop enc sem fuel parsed.0 parsed.1)
            ])) [ TokenType.array_end ↦ omega arith | _ ↦ more ]

      field_loop-Left :
          (fuel : ℕ) (lex : LexContext) (state : S)
          → 4 * measure lex + 1 ≤ fuel
          → Returns (Left (measure lex)) (field_loop enc sem fuel lex state)
      field_loop-Left zero lex state enough = absurd (omega arith)
      field_loop-Left (suc fuel) lex state enough =
          Returns->>= _ _ (lex_accept enc lex TokenType.comma false) _
            (lex_accept-Accepted enc lex TokenType.comma false refl)
            (λ accepted h.
              elim accepted
                  as (λ o.
                    Accepted enc lex o
                    → Returns (Left (measure lex)) (elim o [
                      | none ↦ ok (lex, state)
                      | some next ↦
                          parse_object_field enc sem fuel next.1 state
                          >>= (λ parsed. field_loop enc sem fuel parsed.0 parsed.1)
                    ])) [
                      | none ↦ λ none_accepted. omega arith
                      | some next ↦ λ less.
                          Returns->>= _ _ (parse_object_field enc sem fuel next.1 state) _
                            (parse_object_field-Left fuel next.1 state
                              (omega (arith, less, enough)))
                            (λ parsed left.
                              Returns-weaken _ _ (field_loop enc sem fuel parsed.0 parsed.1)
                                (λ last left'. omega (arith, less, left, left'))
                                (field_loop-Left fuel parsed.0 parsed.1
                                  (omega (arith, less, left, enough))))
                    ]
                h)

      element_loop-Left :
          (fuel : ℕ) (lex : LexContext) (state : S)
          → 4 * measure lex + 1 ≤ fuel
          → Returns (Left (measure lex)) (element_loop enc sem fuel lex state)
      element_loop-Left zero lex state enough = absurd (omega arith)
      element_loop-Left (suc fuel) lex state enough =
          Returns->>= _ _ (lex_accept enc lex TokenType.comma false) _
            (lex_accept-Accepted enc lex TokenType.comma false refl)
            (λ accepted h.
              elim accepted
                  as (λ o.
                    Accepted enc lex o
                    → Returns (Left (measure lex)) (elim o [
                      | none ↦ ok (lex, state)
                      | some next ↦
                          parse_array_element enc sem fuel next.1 state
                          >>= (λ parsed. element_loop enc sem fuel parsed.0 parsed.1)
                    ])) [
                      | none ↦ λ none_accepted. omega arith
                      | some next ↦ λ less.
                          Returns->>= _ _ (parse_array_element enc sem fuel next.1 state) _
                            (parse_array_element-Left fuel next.1 state
                              (omega (arith, less, enough)))
                            (λ parsed left.
                              Returns-weaken _ _ (element_loop enc sem fuel parsed.0 parsed.1)
                                (λ last left'. omega (arith, less, left, left'))
                                (element_loop-Left fuel parsed.0 parsed.1
                                  (omega (arith, less, left, enough))))
                    ]
                h)

      parse_array_element-Left :
          (fuel : ℕ) (lex : LexContext) (state : S)
          → 4 * measure lex + 2 ≤ fuel
          → Returns (Left (measure lex)) (parse_array_element enc sem fuel lex state)
      parse_array_element-Left zero lex state enough = absurd (omega arith)
      parse_array_element-Left (suc fuel) lex state enough =
          let isnull = is_null_token lex.token_type in
          Returns->>= _ _ (call_element sem.array_element_start state isnull) _
            (total.array_element_start state isnull)
            (λ started done.
              Returns->>= _ _ (parse_value enc sem fuel lex started) _
                (parse_value-Left fuel lex started (omega (arith, enough)))
                (λ parsed left.
                  Returns->>= _ _ (call_element sem.array_element_end parsed.1 isnull) _
                    (total.array_element_end parsed.1 isnull) (λ ended done'. left)))

      parse_object_field-Left :
          (fuel : ℕ) (lex : LexContext) (state : S)
          → 4 * measure lex + 2 ≤ fuel
          → Returns (Left (measure lex)) (parse_object_field enc sem fuel lex state)
      parse_object_field-Left zero lex state enough = absurd (omega arith)
      parse_object_field-Left (suc fuel) lex state enough =
          Returns->>= _ _ (lex_accept enc lex TokenType.string _) _
            (lex_accept-Accepted enc lex TokenType.string _ refl)
            (λ accepted h.
              Returns->>= _ _ (or_report enc _ lex accepted) _
                (Returns-or_report enc _ lex lex accepted h)
                (λ fname less.
                  Returns->>= _ _ (lex_expect enc _ fname.1 TokenType.colon) _
                    (lex_expect-taken enc _ fname.1 TokenType.colon refl)
                    (λ lex' less'.
                      let isnull = is_null_token lex'.token_type in
                      Returns->>= _ _ (call_field sem.object_field_start state fname.0 isnull) _
                        (total.object_field_start state fname.0 isnull)
                        (λ started done.
                          Returns->>= _ _ (parse_value enc sem fuel lex' started) _
                            (parse_value-Left fuel lex' started
                              (omega (arith, less, less', enough)))
                            (λ parsed left.
                              Returns->>= _ _
                                (call_field sem.object_field_end parsed.1 fname.0 isnull) _
                                (total.object_field_end parsed.1 fname.0 isnull)
                                (λ ended done'. omega (arith, less, less', left)))))))

    -- The parser ends for every text when its actions do.
    pub parse_gtype-Returns :
        (fuel : ℕ) (lex : LexContext) (state : S)
        → 4 * length lex.token_terminator + 1 ≤ fuel
        → Returns Anything (parse_gtype enc sem fuel lex state)
    unfolding parse_gtype
    parse_gtype-Returns fuel lex state enough =
        Returns->>= _ _ (gtype_lex enc lex) _ (gtype_lex-measure enc lex) (λ first less.
          Returns->>= _ _ (parse_value enc sem fuel first state) _
            (parse_value-Left fuel first state (omega (arith, less, enough)))
            (λ parsed left.
              Returns->>= Anything _ (lex_expect enc _ parsed.0 TokenType.end) _
                (Returns-lex_expect enc _ parsed.0 TokenType.end) (λ last done. tt)))
