-- ===== src/Text/Input/Scalars.antt =====
-- What the parser makes of the text of a scalar, with a token behind it that is no annotation.
use post_graph.Prelude.{
  ℕ, ◌≡◌, refl, ap, true, false, List, [], ◌∷◌, ◌++◌, ==_refl, All, Option, some, ok, ◌>>=◌, arith,
}
use mathlib.Core.List.{append_assoc}
use post_graph.Gtype.Scalar.{Scalar}
use post_graph.Gtype.Builder.{Limits, Pushed}
use post_graph.Text.Context.{TokenType, LexContext, Encoding, in_range}
use post_graph.Text.Strings.Escaped.{AsciiAlike}
use post_graph.Text.Numbers.{is_alphanumeric}
use post_graph.Text.Numbers.Grammar.{Stops, continues}
use post_graph.Text.Lexer.{is_letter, word_type}
use post_graph.Text.Lexer.Tokens.{
  context, between-append, Lexed, Plain, gtype_lex-Lexed, Plain-annotation, Lexed-escape_gtype,
}
use post_graph.Text.Lexer.Words.{SameText, Plain-NumberText, Plain-word}
use post_graph.Text.Parser.{
  SemAction, token_number, same_type, lexeme_of, is_scalar_token, is_null_token, lex_accept,
  parse_scalar_annotation, parse_scalar,
}
use post_graph.Text.Input.{
  InputOps, check_string_length, annotated_type, cast_type, scalar_of_text, scalar_of, push_scalar,
  gtype_in_scalar, gtype_in_actions,
}
use post_graph.Text.Output.{OutputOps, escape_gtype, scalar_text}
use post_graph.Text.Input.Reals.{Plain-SignedText, real_token, with_point, Plain-with_point}
use post_graph.Text.Readable.{IsPlainString, IsReadableScalar}

colon-Stops : (s : List ℕ) → Stops (b':' ∷ s)
unfolding continues is_alphanumeric in_range
colon-Stops s = refl

module _ (enc : Encoding) where
  -- What comes behind a value: a token that does not continue it and is no annotation.
  pub record Follows (rest : List ℕ) : Type 0 where
    pub type : TokenType
    pub start : Option (List ℕ)
    pub after : List ℕ
    pub stops : Stops rest
    pub lexed : Lexed enc rest type start after (λ k. k)
    pub no_annotation : same_type type TokenType.annotation ≡ false

  -- The lexer at that token.
  abbrev pub behind : {rest : List ℕ} → Follows rest → List ℕ → LexContext
  behind f k = context f.start f.type f.after k

  module _ (limits : Limits) (in_ops : InputOps) where
    abbrev pub actions : SemAction Pushed
    actions = gtype_in_actions limits enc in_ops

    -- A scalar token without an annotation.
    plain_scalar :
        (type : TokenType) (start : Option (List ℕ)) (rest k lexeme : List ℕ) (s : Scalar)
        (state : Pushed) (f : Follows rest)
        → is_scalar_token type ≡ true
        → lexeme_of (context start type rest k) ≡ some lexeme
        → scalar_of in_ops type (some lexeme) ≡ ok s
        → parse_scalar enc actions (context start type rest k) state
          ≡ (push_scalar limits state s >>= (λ st. ok (behind f k, st)))
    unfolding parse_scalar lex_accept parse_scalar_annotation gtype_in_scalar cast_type
    plain_scalar type start rest k lexeme s state f is lexeme_is scalar_is =
        rw
          (
            is,
            ==_refl (token_number type),
            gtype_lex-Lexed enc (context start type rest k) k refl refl f.lexed,
            lexeme_is,
            f.no_annotation,
            scalar_is,
          )
          refl

    abbrev numeric_text : List ℕ
    numeric_text = b'n' ∷ b'u' ∷ b'm' ∷ b'e' ∷ b'r' ∷ b'i' ∷ b'c' ∷ []

    Plain-numeric : (s : List ℕ) → Stops s → Plain enc numeric_text s TokenType.identifier
    unfolding is_letter is_alphanumeric in_range word_type
    Plain-numeric s stops =
        Plain-word enc b'n' (b'u' ∷ b'm' ∷ b'e' ∷ b'r' ∷ b'i' ∷ b'c' ∷ []) s refl
          (refl, (refl, (refl, (refl, (refl, (refl, tt)))))) stops

    lexeme_word :
        (rest k : List ℕ)
        → lexeme_of (context (some (numeric_text ++ rest)) TokenType.identifier rest k)
          ≡ some numeric_text
    unfolding lexeme_of
    lexeme_word rest k = ap some (between-append numeric_text rest)

    cast_numeric :
        SameText enc
        → (type : TokenType) → is_null_token type ≡ false
        → cast_type enc type (some numeric_text) ≡ ok TokenType.numeric
    unfolding cast_type annotated_type
    cast_numeric same type not_null = rw (not_null, same numeric_text) refl

    -- A scalar token with the annotation for numerics.
    numeric_scalar :
        SameText enc
        → (type : TokenType) (start : Option (List ℕ)) (rest k lexeme : List ℕ) (s : Scalar)
          (state : Pushed) (f : Follows rest)
        → is_scalar_token type ≡ true
        → is_null_token type ≡ false
        → lexeme_of (context start type (b':' ∷ b':' ∷ (numeric_text ++ rest)) k) ≡ some lexeme
        → scalar_of in_ops TokenType.numeric (some lexeme) ≡ ok s
        → parse_scalar enc actions
            (context start type (b':' ∷ b':' ∷ (numeric_text ++ rest)) k)
            state
          ≡ (push_scalar limits state s >>= (λ st. ok (behind f k, st)))
    unfolding parse_scalar lex_accept parse_scalar_annotation gtype_in_scalar
    numeric_scalar same type start rest k lexeme s state f is not_null lexeme_is scalar_is =
        let text = b':' ∷ b':' ∷ (numeric_text ++ rest) in
        let word = context (some text) TokenType.annotation (numeric_text ++ rest) k in
        rw
          (
            is,
            ==_refl (token_number type),
            gtype_lex-Lexed enc (context start type text k) k refl refl
                (Plain-annotation enc (numeric_text ++ rest)),
            gtype_lex-Lexed enc word k refl refl (Plain-numeric rest f.stops),
            gtype_lex-Lexed enc (context (some (numeric_text ++ rest)) TokenType.identifier rest k)
                k refl refl f.lexed,
            lexeme_is,
            lexeme_word rest k,
            cast_numeric same type not_null,
            scalar_is,
          )
          refl

    -- The token that a text begins with, and what parse_scalar makes of it before `rest`.
    pub record Reads (text : List ℕ) (s : Scalar) {rest : List ℕ} (f : Follows rest) : Type 0 where
      pub token_type : TokenType
      pub token_start : Option (List ℕ)
      pub terminator : List ℕ
      pub kept : List ℕ → List ℕ
      pub lexed : Lexed enc (text ++ rest) token_type token_start terminator kept
      pub is_scalar : is_scalar_token token_type ≡ true
      pub parsed :
          (k : List ℕ) (state : Pushed)
          → parse_scalar enc actions (context token_start token_type terminator (kept k)) state
            ≡ (push_scalar limits state s >>= (λ st. ok (behind f (kept k), st)))

    -- A token other than a string.
    lexeme_plain :
        (type : TokenType) (text rest k : List ℕ)
        → same_type type TokenType.string ≡ false
        → lexeme_of (context (some (text ++ rest)) type rest k) ≡ some text
    unfolding lexeme_of
    lexeme_plain type text rest k other = rw other (ap some (between-append text rest))

    Reads-plain :
        (type : TokenType) (text : List ℕ) (s : Scalar) {rest : List ℕ} (f : Follows rest)
        → Plain enc text rest type
        → is_scalar_token type ≡ true
        → same_type type TokenType.string ≡ false
        → scalar_of in_ops type (some text) ≡ ok s
        → Reads text s f
    Reads-plain type text s {rest = rest} f lexed is other scalar_is = record {
      token_type = type;
      token_start = some (text ++ rest);
      terminator = rest;
      kept = λ k. k;
      lexed = lexed;
      is_scalar = is;
      parsed = λ k state.
          plain_scalar type (some (text ++ rest)) rest k text s state f is
            (lexeme_plain type text rest k other) scalar_is;
    }

    Reads-numeric :
        SameText enc
        → (type : TokenType) (text : List ℕ) (s : Scalar) {rest : List ℕ} (f : Follows rest)
        → ((tail : List ℕ) → Plain enc text (b':' ∷ tail) type)
        → is_scalar_token type ≡ true
        → is_null_token type ≡ false
        → same_type type TokenType.string ≡ false
        → scalar_of in_ops TokenType.numeric (some text) ≡ ok s
        → Reads (text ++ (b':' ∷ b':' ∷ numeric_text)) s f
    Reads-numeric same type text s {rest = rest} f lexed is not_null other scalar_is = record {
      token_type = type;
      token_start = some (text ++ (b':' ∷ b':' ∷ (numeric_text ++ rest)));
      terminator = b':' ∷ b':' ∷ (numeric_text ++ rest);
      kept = λ k. k;
      lexed = rw (append_assoc text (b':' ∷ b':' ∷ numeric_text) rest) (lexed _);
      is_scalar = is;
      parsed = λ k state.
          numeric_scalar same type _ rest k text s state f is not_null
            (lexeme_plain type text _ k other) scalar_is;
    }

    -- A string literal.
    Reads-string :
        AsciiAlike enc
        → (str : List ℕ) {rest : List ℕ} (f : Follows rest) → IsPlainString str
        → Reads (escape_gtype str) (Scalar.string str) f
    unfolding scalar_of scalar_of_text check_string_length
    Reads-string alike str {rest = rest} f (short, positive) = record {
      token_type = TokenType.string;
      token_start = some (escape_gtype str ++ rest);
      terminator = rest;
      kept = λ k. str;
      lexed = Lexed-escape_gtype enc alike str rest positive;
      is_scalar = refl;
      parsed = λ k state.
          plain_scalar TokenType.string (some (escape_gtype str ++ rest)) rest str str
            (Scalar.string str) state f refl (unfold lexeme_of in refl) (ground (arith, short));
    }

    word_scalar :
        (type : TokenType) (c : ℕ) (word : List ℕ) (s : Scalar) {rest : List ℕ} (f : Follows rest)
        → word_type enc (c ∷ word) ≡ type
        → is_letter c ≡ true
        → All (λ d. is_alphanumeric d ≡ true) word
        → is_scalar_token type ≡ true
        → same_type type TokenType.string ≡ false
        → scalar_of in_ops type (some (c ∷ word)) ≡ ok s
        → Reads (c ∷ word) s f
    word_scalar type c word s {rest = rest} f e letter all is other scalar_is =
        Reads-plain type (c ∷ word) s f (rw (← e) (Plain-word enc c word rest letter all f.stops))
          is other scalar_is

    -- Every readable scalar.
    pub Reads-scalar :
        AsciiAlike enc
        → SameText enc
        → (ops : OutputOps) (s : Scalar) {rest : List ℕ} (f : Follows rest)
        → IsReadableScalar ops in_ops s
        → Reads (scalar_text ops s) s f
    unfolding scalar_text scalar_of scalar_of_text word_type is_letter is_alphanumeric in_range
    Reads-scalar alike same ops Scalar.null f readable =
        word_scalar TokenType.null_token b'n' (b'u' ∷ b'l' ∷ b'l' ∷ []) Scalar.null f refl refl
          (refl, (refl, (refl, tt))) refl refl refl
    Reads-scalar alike same ops (Scalar.boolean true) f readable =
        word_scalar TokenType.true_token b't' (b'r' ∷ b'u' ∷ b'e' ∷ []) (Scalar.boolean true) f refl
          refl (refl, (refl, (refl, tt))) refl refl refl
    Reads-scalar alike same ops (Scalar.boolean false) f readable =
        word_scalar TokenType.false_token b'f' (b'a' ∷ b'l' ∷ b's' ∷ b'e' ∷ [])
          (Scalar.boolean false) f refl refl (refl, (refl, (refl, (refl, tt)))) refl refl refl
    Reads-scalar alike same ops (Scalar.string str) f readable = Reads-string alike str f readable
    Reads-scalar alike same ops (Scalar.integer n) {rest = rest} f (signed, back) =
        Reads-plain TokenType.integer (ops.int8out n) (Scalar.integer n) f
          (Plain-SignedText enc rest signed f.stops) refl refl (rw back refl)
    Reads-scalar alike same ops (Scalar.float x) {rest = rest} f (real, back) =
        Reads-plain TokenType.float (with_point enc same (ops.float8out x)) (Scalar.float x) f
          (Plain-with_point enc same rest real f.stops) refl refl (rw back refl)
    Reads-scalar alike same ops (Scalar.numeric d) f (real, back) =
        let token = real_token enc same real in
        Reads-numeric same token.token_type (ops.numeric_out d) (Scalar.numeric d) f
          (λ tail. token.lexed (b':' ∷ tail) (colon-Stops tail)) token.is_scalar token.not_null
          token.not_string (rw back refl)
    Reads-scalar alike same ops (Scalar.inet i) {rest = rest} f (number, back) =
        Reads-plain TokenType.inet (ops.inet_out i) (Scalar.inet i) f
          (Plain-NumberText enc rest number f.stops) refl refl (rw back refl)
    Reads-scalar alike same ops _ f readable = absurd readable
