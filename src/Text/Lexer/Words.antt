-- ===== src/Text/Lexer/Words.antt =====
-- What gtype_lex makes of numbers and words, with a text behind them that does not continue them.
use post_graph.Prelude.{ℕ, ◌≡◌, true, false, List, [], ◌∷◌, ◌++◌, inl, inr, All, arith}
use post_graph.Text.Context.{TokenType, Encoding, skip, in_range, is_digit}
use post_graph.Text.Numbers.{is_alphanumeric, gtype_lex_number}
use post_graph.Text.Numbers.Grammar.{
  IsDigit, MainDigits, NumberText, whole, decimal, scientific, dotted, Stops, no_alphanumeric,
  skip-append,
}
use post_graph.Text.Numbers.Read.{gtype_lex_number-NumberText}
use post_graph.Text.Lexer.{
  is_space, is_letter, word_type, lex_number_token, lex_minus, lex_word, lex_token,
}
use post_graph.Text.Lexer.Tokens.{between-append, Plain}

-- A text begins with a digit.
abbrev pub DigitFirst : List ℕ → Type 0
DigitFirst [] = ⊥
DigitFirst (c ∷ t) = IsDigit c

DigitFirst-append : (m s : List ℕ) → MainDigits m → DigitFirst (m ++ s)
DigitFirst-append [] s h = absurd h
DigitFirst-append (c ∷ m) s (inl (e, single)) = omega arith
DigitFirst-append (c ∷ m) s (inr (low, high, digits)) = omega arith

pub NumberText-DigitFirst :
    {type : TokenType} {text : List ℕ} → NumberText type text → DigitFirst text
NumberText-DigitFirst (whole [] main) = absurd main
NumberText-DigitFirst (whole (c ∷ m) (inl (e, single))) = omega arith
NumberText-DigitFirst (whole (c ∷ m) (inr (low, high, digits))) = omega arith
NumberText-DigitFirst (decimal m d text main digits e) = rw e (DigitFirst-append m _ main)
NumberText-DigitFirst (scientific m f x d text main fraction letter signed e) =
    rw e (DigitFirst-append m _ main)
NumberText-DigitFirst (dotted m d a mask text main digits rest masked e) =
    rw e (DigitFirst-append m _ main)

-- A comparison of texts without regard to case finds a text equal to itself.
abbrev pub SameText : Encoding → Type 0
SameText enc = (s : List ℕ) → enc.pg_strcasecmp s s ≡ true

module _ (enc : Encoding) where
  number_token :
      {type : TokenType} (text s : List ℕ)
      → DigitFirst text
      → gtype_lex_number (text ++ s) ≡ record { error = false; token_type = type; s = s }
      → Plain enc text s type
  unfolding lex_token lex_number_token skip is_space is_digit in_range
  number_token [] s first read lex k strval = absurd first
  number_token (c ∷ text) s first read lex k strval = ground (arith, read, strval)

  minus_token :
      {type : TokenType} (text s : List ℕ)
      → DigitFirst text
      → gtype_lex_number (text ++ s) ≡ record { error = false; token_type = type; s = s }
      → Plain enc (b'-' ∷ text) s type
  unfolding lex_token lex_minus lex_number_token skip is_space is_digit in_range
  minus_token [] s first read lex k strval = absurd first
  minus_token (c ∷ text) s first read lex k strval = ground (arith, read, strval)

  pub Plain-NumberText :
      {type : TokenType} {text : List ℕ} (s : List ℕ)
      → NumberText type text
      → Stops s
      → Plain enc text s type
  Plain-NumberText s number stops =
      number_token _ s (NumberText-DigitFirst number) (gtype_lex_number-NumberText s number stops)

  pub Plain-minus :
      {type : TokenType} {text : List ℕ} (s : List ℕ)
      → NumberText type text
      → Stops s
      → Plain enc (b'-' ∷ text) s type
  Plain-minus s number stops =
      minus_token _ s (NumberText-DigitFirst number) (gtype_lex_number-NumberText s number stops)

  -- A word that begins with a letter.
  pub Plain-word :
      (c : ℕ) (word s : List ℕ)
      → is_letter c ≡ true
      → All (λ d. is_alphanumeric d ≡ true) word
      → Stops s
      → Plain enc (c ∷ word) s (word_type enc (c ∷ word))
  unfolding lex_token lex_word skip is_space is_digit in_range is_letter is_alphanumeric
  Plain-word c word s letter all stops lex k strval =
      let behind : skip is_alphanumeric (word ++ s) ≡ s =
        skip-append is_alphanumeric word s all (no_alphanumeric s stops) in
      ground (arith, letter, behind, between-append (c ∷ word) s, strval)
