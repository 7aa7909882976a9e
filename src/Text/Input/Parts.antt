-- ===== src/Text/Input/Parts.antt =====
-- Single steps of the parser with the actions of gtype_in.
use post_graph.Prelude.{
  ℕ, suc, ◌+◌, ◌≡◌, refl, ◌∙◌, Bool, true, false, List, [], ◌∷◌, ◌++◌, Option, none, some, Outcome,
  ok, ◌>>=◌,
}
use post_graph.Gtype.Scalar.{Scalar}
use post_graph.Gtype.Value.{Value, Values, Fields}
use post_graph.Gtype.Builder.{
  array, object, ParseState, Limits, Pushed, finish, finish_object, pop_state, push_gtype_value,
  push_gtype_value_scalar,
}
use post_graph.Text.Context.{TokenType, LexContext, Encoding}
use post_graph.Text.Lexer.{is_space}
use post_graph.Text.Lexer.Tokens.{context, Lexed, gtype_lex-Lexed, Lexed-spaces, Plain-colon}
use post_graph.Text.Parser.{
  is_scalar_token, is_null_token, lexeme_of, parse_scalar, parse_value, parse_object_field,
  field_loop, parse_object, object_fields, parse_array_element, element_loop, parse_array,
  array_elements, lex_accept, lex_expect,
}
use post_graph.Text.Input.{
  InputOps, gtype_in_object_field_start, gtype_in_object_start, gtype_in_object_end,
  gtype_in_array_start, gtype_in_array_end,
}
use post_graph.Text.Input.Scalars.{Follows, behind, actions, Reads}
use post_graph.Text.Input.Places.{place, gap, Lexed-gap, next_part}
use post_graph.Text.Output.{OutputOps}

-- Fuel that is enough to parse a value.
unfoldable mutual
  pub cost : Value → ℕ
  cost (Value.scalar s) = 1
  cost (Value.array raw vs) = 3 + cost_values vs
  cost (Value.object fs) = 3 + cost_fields fs
  cost (Value.vector xs) = 0

  pub cost_values : Values → ℕ
  cost_values Values.no_values = 1
  cost_values (Values.value v vs) = 2 + (cost v + cost_values vs)

  pub cost_fields : Fields → ℕ
  cost_fields Fields.no_fields = 1
  cost_fields (Fields.field k v fs) = 2 + (cost v + cost_fields fs)

abbrev pub is_opening : TokenType → Bool
is_opening TokenType.object_start = true
is_opening TokenType.array_start = true
is_opening type = is_scalar_token type

module _ (enc : Encoding) (limits : Limits) (in_ops : InputOps) where
  abbrev pub value_parser : ℕ → LexContext → Pushed → Outcome (LexContext × Pushed)
  value_parser = parse_value enc (actions enc limits in_ops)

  value_scalar :
      (type : TokenType) (fuel : ℕ) (start : Option (List ℕ)) (t k : List ℕ) (state : Pushed)
      → is_scalar_token type ≡ true
      → value_parser (suc fuel) (context start type t k) state
        ≡ parse_scalar enc (actions enc limits in_ops) (context start type t k) state
  unfolding parse_value
  value_scalar TokenType.string fuel start t k state h = refl
  value_scalar TokenType.object_start fuel start t k state h = cc
  value_scalar TokenType.array_start fuel start t k state h = cc
  value_scalar _ fuel start t k state h = refl

  -- An array that does not end at once has a first element.
  pub first_element :
      (type : TokenType) (fuel : ℕ) (start : Option (List ℕ)) (t k : List ℕ) (state : Pushed)
      → is_opening type ≡ true
      → array_elements enc (actions enc limits in_ops) (suc fuel) (context start type t k) state ≡ (
          parse_array_element enc (actions enc limits in_ops) fuel (context start type t k) state
          >>= (λ parsed. element_loop enc (actions enc limits in_ops) fuel parsed.0 parsed.1))
  unfolding array_elements
  first_element TokenType.array_end fuel start t k state h = cc
  first_element _ fuel start t k state h = refl

  opening_scalar : (type : TokenType) → is_scalar_token type ≡ true → is_opening type ≡ true
  opening_scalar TokenType.object_start h = refl
  opening_scalar TokenType.array_start h = refl
  opening_scalar _ h = h

  -- The token that a text begins with, and what parse_value makes of it before `rest`.
  pub record Parses (v : Value) (text : List ℕ) {rest : List ℕ} (f : Follows enc rest) (fuel : ℕ)
      : Type 0 where
    pub token_type : TokenType
    pub token_start : Option (List ℕ)
    pub terminator : List ℕ
    pub kept : List ℕ → List ℕ
    pub lexed : Lexed enc (text ++ rest) token_type token_start terminator kept
    pub opening : is_opening token_type ≡ true
    pub parsed :
        (k : List ℕ) (state : Pushed)
        → (k' : List ℕ) × (value_parser fuel
              (context token_start token_type terminator (kept k))
              state
            ≡ (place limits state v >>= (λ st. ok (behind enc f k', st))))

  pub Parses-scalar :
      (s : Scalar) (text : List ℕ) {rest : List ℕ} (f : Follows enc rest) (fuel : ℕ)
      → Reads enc limits in_ops text s f
      → Parses (Value.scalar s) text f (suc fuel)
  unfolding place
  Parses-scalar s text f fuel reads = record {
    token_type = reads.token_type;
    token_start = reads.token_start;
    terminator = reads.terminator;
    kept = reads.kept;
    lexed = reads.lexed;
    opening = opening_scalar reads.token_type reads.is_scalar;
    parsed = λ k state. (
      reads.kept k,
      value_scalar reads.token_type fuel reads.token_start reads.terminator (reads.kept k) state
            reads.is_scalar
          ∙ reads.parsed k state,
    );
  }

  -- A Parses of an element, used.
  pub element_parsed :
      {v : Value} {text rest : List ℕ} {f : Follows enc rest} {fuel : ℕ} (p : Parses v text f fuel)
      (k : List ℕ) (state state' : Pushed)
      → place limits state v ≡ ok state'
      → (k' : List ℕ) × (parse_array_element enc
            (actions enc limits in_ops)
            (suc fuel)
            (context p.token_start p.token_type p.terminator (p.kept k))
            state
          ≡ ok (behind enc f k', state'))
  unfolding parse_array_element
  element_parsed p k state state' placed =
      let (k', run) = p.parsed k state in (k', rw (run, placed) refl)

  -- A comma, and then another element.
  pub comma_step :
      (fuel : ℕ) (s k : List ℕ) {type : TokenType} {start : Option (List ℕ)} {t : List ℕ}
      {kept : List ℕ → List ℕ} (ops : OutputOps) (indent : Bool) (state : Pushed)
      → Lexed enc s type start t kept
      → element_loop enc
          (actions enc limits in_ops)
          (suc fuel)
          (behind enc (next_part enc ops indent s) k)
          state
        ≡ (parse_array_element enc
              (actions enc limits in_ops)
              fuel
              (context start type t (kept k))
              state
            >>= (λ parsed. element_loop enc (actions enc limits in_ops) fuel parsed.0 parsed.1))
  unfolding element_loop lex_accept next_part
  comma_step fuel s k ops indent state lexed =
      rw
        (gtype_lex-Lexed enc (context _ TokenType.comma (gap enc ops indent ++ s) k) k refl refl
          (Lexed-gap enc ops indent s lexed))
        refl

  pub array_parsed :
      (fuel : ℕ) (t k k' : List ℕ) {rest : List ℕ} (f : Follows enc rest) {type : TokenType}
      {start : Option (List ℕ)} {t' : List ℕ} {kept : List ℕ → List ℕ} (res res' : Option Value)
      (st' : ParseState) (p : List ParseState)
      → Lexed enc t type start t' kept
      → array_elements enc
          (actions enc limits in_ops)
          fuel
          (context start type t' (kept k))
          (none, record { size = 4; capacity = 4; cont_val = array false [] } ∷ p)
        ≡ ok (context (some (b']' ∷ rest)) TokenType.array_end rest k', (res', st' ∷ p))
      → value_parser (suc (suc fuel)) (context (some (b'[' ∷ t)) TokenType.array_start t k) (res, p)
        ≡ (pop_state limits p (finish limits st'.cont_val)
            >>= (λ ended. ok (behind enc f k', ended)))
  unfolding parse_value parse_array lex_expect lex_accept gtype_in_array_start gtype_in_array_end
      push_gtype_value push_gtype_value_scalar
  array_parsed fuel t k k' {rest = rest} f res res' st' p lexed run =
      rw
        (
          gtype_lex-Lexed enc (context (some (b'[' ∷ t)) TokenType.array_start t k) k refl refl
              lexed,
          run,
          gtype_lex-Lexed enc (context (some (b']' ∷ rest)) TokenType.array_end rest k') k' refl
              refl f.lexed,
        )
        refl

  pub object_parsed :
      (fuel : ℕ) (t k k' : List ℕ) {rest : List ℕ} (f : Follows enc rest) {type : TokenType}
      {start : Option (List ℕ)} {t' : List ℕ} {kept : List ℕ → List ℕ} (res res' : Option Value)
      (st' : ParseState) (p : List ParseState)
      → Lexed enc t type start t' kept
      → object_fields enc
          (actions enc limits in_ops)
          fuel
          (context start type t' (kept k))
          (none, record { size = 4; capacity = 4; cont_val = object [] none } ∷ p)
        ≡ ok (context (some (b'}' ∷ rest)) TokenType.object_end rest k', (res', st' ∷ p))
      → value_parser
          (suc (suc fuel))
          (context (some (b'{' ∷ t)) TokenType.object_start t k)
          (res, p)
        ≡ (finish_object limits st'.cont_val
            >>= pop_state limits p
            >>= (λ ended. ok (behind enc f k', ended)))
  unfolding parse_value parse_object lex_expect lex_accept gtype_in_object_start gtype_in_object_end
      push_gtype_value push_gtype_value_scalar
  object_parsed fuel t k k' {rest = rest} f res res' st' p lexed run =
      rw
        (
          gtype_lex-Lexed enc (context (some (b'{' ∷ t)) TokenType.object_start t k) k refl refl
              lexed,
          run,
          gtype_lex-Lexed enc (context (some (b'}' ∷ rest)) TokenType.object_end rest k') k' refl
              refl f.lexed,
        )
        refl

  space-Lexed :
      (s : List ℕ) {type : TokenType} {start : Option (List ℕ)} {t : List ℕ}
      {kept : List ℕ → List ℕ}
      → Lexed enc s type start t kept
      → Lexed enc (b' ' ∷ s) type start t kept
  unfolding is_space
  space-Lexed s lexed = Lexed-spaces enc (b' ' ∷ []) s (refl, tt) lexed

  -- A field whose key has been read, before its colon.
  pub field_parsed :
      {v : Value} {text rest : List ℕ} {f : Follows enc rest} {fuel : ℕ} (p : Parses v text f fuel)
      (start : Option (List ℕ)) (key : List ℕ) (state state' state'' : Pushed)
      → ((null : Bool) → gtype_in_object_field_start limits state (some key) null ≡ ok state')
      → place limits state' v ≡ ok state''
      → (k' : List ℕ) × (parse_object_field enc
            (actions enc limits in_ops)
            (suc fuel)
            (context start TokenType.string (b':' ∷ b' ' ∷ (text ++ rest)) key)
            state
          ≡ ok (behind enc f k', state''))
  unfolding parse_object_field lex_expect lex_accept lexeme_of
  field_parsed {text = text} {rest = rest} p start key state state' state'' started placed =
      let (k', run) = p.parsed key state' in
      let s = text ++ rest in
      (
        k',
        rw
            (
              gtype_lex-Lexed enc (context start TokenType.string (b':' ∷ b' ' ∷ s) key) key refl
                  refl (Plain-colon enc s),
              gtype_lex-Lexed enc (context (some (b':' ∷ b' ' ∷ s)) TokenType.colon (b' ' ∷ s) key)
                  key refl refl (space-Lexed s p.lexed),
              started (is_null_token p.token_type),
              run,
              placed,
            )
            refl,
      )

  -- A comma, and then another field.
  pub field_comma_step :
      (fuel : ℕ) (s k key : List ℕ) {start : Option (List ℕ)} {t : List ℕ} (ops : OutputOps)
      (indent : Bool) (state : Pushed)
      → Lexed enc s TokenType.string start t (λ k'. key)
      → field_loop enc
          (actions enc limits in_ops)
          (suc fuel)
          (behind enc (next_part enc ops indent s) k)
          state
        ≡ (parse_object_field enc
              (actions enc limits in_ops)
              fuel
              (context start TokenType.string t key)
              state
            >>= (λ parsed. field_loop enc (actions enc limits in_ops) fuel parsed.0 parsed.1))
  unfolding field_loop lex_accept next_part
  field_comma_step fuel s k key ops indent state lexed =
      rw
        (gtype_lex-Lexed enc (context _ TokenType.comma (gap enc ops indent ++ s) k) k refl refl
          (Lexed-gap enc ops indent s lexed))
        refl
