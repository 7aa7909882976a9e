-- ===== src/Text/Input/Reals.antt =====
-- The tokens of the texts that float8out and numeric_out write.
use post_graph.Prelude.{ℕ, ◌≡◌, refl, true, false, List, [], ◌∷◌, ◌++◌, if◌then◌else◌, arith}
use mathlib.Core.List.{append-nil}
use post_graph.Text.Context.{TokenType, Encoding, in_range, is_digit}
use post_graph.Text.Output.{only_digits, is_decimal_needed}
use post_graph.Text.Numbers.{is_alphanumeric, starts}
use post_graph.Text.Numbers.Grammar.{Stops, continues, skip-append}
use post_graph.Text.Lexer.{is_space, is_letter, word_type, is_infinity, lex_minus, lex_token}
use post_graph.Text.Lexer.Tokens.{between-append, Plain}
use post_graph.Text.Lexer.Words.{SameText, Plain-NumberText, Plain-minus, Plain-word}
use post_graph.Text.Parser.{same_type, is_scalar_token, is_null_token}
use post_graph.Text.Readable.{
  RealText, digits, point, not_a_number, infinity, minus_infinity, nan_text, infinity_text,
  decimal_needed-integer, decimal_needed-float, signed_with_decimal,
}
use post_graph.Text.Numbers.Grammar.{SignedText, plus, minus}

module _ (enc : Encoding) where
  pub Plain-SignedText :
      {type : TokenType} {text : List ℕ} (s : List ℕ)
      → SignedText type text
      → Stops s
      → Plain enc text s type
  Plain-SignedText s (plus number) stops = Plain-NumberText enc s number stops
  Plain-SignedText s (minus number) stops = Plain-minus enc s number stops

  no_letter : (s : List ℕ) → Stops s → starts is_letter s ≡ false
  unfolding continues is_alphanumeric is_letter
  no_letter [] h = refl
  no_letter (c ∷ s) h = ground arith

  module _ (same : SameText enc) where
    Plain-nan : (s : List ℕ) → Stops s → Plain enc nan_text s TokenType.float
    unfolding is_letter is_alphanumeric in_range
    Plain-nan s stops =
        let float_word : word_type enc nan_text ≡ TokenType.float =
          unfold word_type in rw (same nan_text) refl in
        rw (← float_word) (Plain-word enc b'N' (b'a' ∷ b'N' ∷ []) s refl (refl, (refl, tt)) stops)

    Plain-infinity : (s : List ℕ) → Stops s → Plain enc infinity_text s TokenType.float
    unfolding is_letter is_alphanumeric in_range
    Plain-infinity s stops =
        let float_word : word_type enc infinity_text ≡ TokenType.float =
          unfold word_type in rw (same infinity_text) refl in
        rw (← float_word) (
          Plain-word enc b'I' (b'n' ∷ b'f' ∷ b'i' ∷ b'n' ∷ b'i' ∷ b't' ∷ b'y' ∷ []) s refl
            (refl, (refl, (refl, (refl, (refl, (refl, (refl, tt))))))) stops)

    Plain-minus_infinity :
        (s : List ℕ) → Stops s → Plain enc (b'-' ∷ infinity_text) s TokenType.float
    unfolding lex_token lex_minus is_infinity is_space
    Plain-minus_infinity s stops lex k strval =
        rw
          (
            skip-append is_letter [] s tt (no_letter s stops),
            between-append infinity_text s,
            same infinity_text,
            strval,
          )
          refl

    -- The token of such a text: no string and no null.
    pub record RealToken (text : List ℕ) : Type 0 where
      pub token_type : TokenType
      pub lexed : (s : List ℕ) → Stops s → Plain enc text s token_type
      pub is_scalar : is_scalar_token token_type ≡ true
      pub not_string : same_type token_type TokenType.string ≡ false
      pub not_null : is_null_token token_type ≡ false

    float_token :
        (text : List ℕ)
        → ((s : List ℕ) → Stops s → Plain enc text s TokenType.float)
        → RealToken text
    float_token text lexed = record {
      token_type = TokenType.float;
      lexed = lexed;
      is_scalar = refl;
      not_string = refl;
      not_null = refl;
    }

    pub real_token : {text : List ℕ} → RealText text → RealToken text
    real_token (digits signed) = record {
      token_type = TokenType.integer;
      lexed = λ s stops. Plain-SignedText s signed stops;
      is_scalar = refl;
      not_string = refl;
      not_null = refl;
    }
    real_token (point signed) = float_token _ (λ s stops. Plain-SignedText s signed stops)
    real_token (not_a_number e) = rw e (float_token nan_text Plain-nan)
    real_token (infinity e) = rw e (float_token infinity_text Plain-infinity)
    real_token (minus_infinity e) = rw e (float_token (b'-' ∷ infinity_text) Plain-minus_infinity)

    -- What gtype_put_escaped_value writes of a float, with a decimal part behind digits alone.
    abbrev pub with_point : List ℕ → List ℕ
    with_point text = text ++ (if is_decimal_needed text then b'.' ∷ b'0' ∷ [] else [])

    word_with_point :
        (text word : List ℕ) (s : List ℕ)
        → text ≡ word
        → is_decimal_needed word ≡ false
        → Plain enc word s TokenType.float
        → Plain enc (with_point text) s TokenType.float
    word_with_point text word s e no_point lexed = rw (e, no_point, append-nil) lexed

    pub Plain-with_point :
        {text : List ℕ} (s : List ℕ)
        → RealText text
        → Stops s
        → Plain enc (with_point text) s TokenType.float
    unfolding is_decimal_needed only_digits is_digit in_range
    Plain-with_point s (digits signed) stops =
        rw (decimal_needed-integer signed) (Plain-SignedText s (signed_with_decimal signed) stops)
    Plain-with_point s (point signed) stops =
        rw (decimal_needed-float signed, append-nil) (Plain-SignedText s signed stops)
    Plain-with_point s (not_a_number e) stops =
        word_with_point _ nan_text s e refl (Plain-nan s stops)
    Plain-with_point s (infinity e) stops =
        word_with_point _ infinity_text s e refl (Plain-infinity s stops)
    Plain-with_point s (minus_infinity e) stops =
        word_with_point _ (b'-' ∷ infinity_text) s e refl (Plain-minus_infinity s stops)
