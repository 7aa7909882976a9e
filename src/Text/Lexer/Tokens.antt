-- ===== src/Text/Lexer/Tokens.antt =====
-- What gtype_lex makes of the texts of single tokens, with any text behind them.
use post_graph.Prelude.{
  ℕ, ◌-◌, ◌<◌, ◌≡◌, refl, ap, ◌∙◌, true, List, [], ◌∷◌, ◌++◌, All, length, length-append, Option,
  none, some, ok, arith,
}
use mathlib.Core.List.{append_assoc}
use post_graph.Text.Context.{TokenType, LexContext, Encoding, take, between, skip}
use post_graph.Text.Strings.{quote}
use post_graph.Text.Strings.Escaped.{AsciiAlike, gtype_lex_string-escape_gtype}
use post_graph.Text.Lexer.{is_space, lex_colon, lex_token, gtype_lex}
use post_graph.Text.Output.{escape_loop, escape_gtype}

-- The lexer at a token, when escapes are wanted.
abbrev pub context :
    (start : Option (List ℕ)) → TokenType → (terminator strval : List ℕ) → LexContext
context start type terminator strval = record {
  token_start = start;
  token_terminator = terminator;
  token_type = type;
  strval = some strval;
}

pub skip-spaces :
    (spaces s : List ℕ)
    → All (λ c. is_space c ≡ true) spaces
    → skip is_space (spaces ++ s) ≡ skip is_space s
unfolding skip
skip-spaces [] s all = refl
skip-spaces (c ∷ spaces) s (yes_c, all) = rw yes_c (skip-spaces spaces s all)

take-length : (t s : List ℕ) → take (length t) (t ++ s) ≡ t
take-length [] [] = refl
take-length [] (c ∷ s) = refl
take-length (c ∷ t) s = ap (λ u. c ∷ u) (take-length t s)

pub between-append : (t s : List ℕ) → between (t ++ s) s ≡ t
unfolding between
between-append t s =
    let counted : length (t ++ s) - length s ≡ length t = omega (arith, length-append t s) in
    rw counted (take-length t s)

module _ (enc : Encoding) where
  -- Whatever strval holds, the text's next token is of that type, starts and ends there, and leaves
  -- strval as `kept` says.
  abbrev pub Lexed :
      (s : List ℕ)
      → TokenType
      → Option (List ℕ)
      → (terminator : List ℕ) → (List ℕ → List ℕ)
      → Type 0
  Lexed s type start terminator kept =
      (lex : LexContext) (k : List ℕ)
      → lex.strval ≡ some k
      → lex_token enc lex (skip is_space s) ≡ ok (context start type terminator (kept k))

  -- A token that begins with its text and leaves strval as it is.
  abbrev pub Plain : (text s : List ℕ) → TokenType → Type 0
  Plain text s type = Lexed (text ++ s) type (some (text ++ s)) s (λ k. k)

  pub gtype_lex-Lexed :
      {s : List ℕ} {type : TokenType} {start : Option (List ℕ)} {terminator : List ℕ}
      {kept : List ℕ → List ℕ} (lex : LexContext) (k : List ℕ)
      → lex.token_terminator ≡ s
      → lex.strval ≡ some k
      → Lexed s type start terminator kept
      → gtype_lex enc lex ≡ ok (context start type terminator (kept k))
  unfolding gtype_lex
  gtype_lex-Lexed lex k at strval lexed =
      ap (λ t. lex_token enc lex (skip is_space t)) at ∙ lexed lex k strval

  pub Lexed-spaces :
      (spaces s : List ℕ) {type : TokenType} {start : Option (List ℕ)} {terminator : List ℕ}
      {kept : List ℕ → List ℕ}
      → All (λ c. is_space c ≡ true) spaces
      → Lexed s type start terminator kept
      → Lexed (spaces ++ s) type start terminator kept
  Lexed-spaces spaces s all lexed lex k strval =
      ap (lex_token enc lex) (skip-spaces spaces s all) ∙ lexed lex k strval

  pub Lexed-end : Lexed [] TokenType.end none [] (λ k. k)
  unfolding lex_token skip
  Lexed-end lex k strval = simp strval refl

  -- The punctuation.
  pub Plain-object_start : (s : List ℕ) → Plain (b'{' ∷ []) s TokenType.object_start
  unfolding lex_token skip is_space
  Plain-object_start s lex k strval = simp strval refl

  pub Plain-object_end : (s : List ℕ) → Plain (b'}' ∷ []) s TokenType.object_end
  unfolding lex_token skip is_space
  Plain-object_end s lex k strval = simp strval refl

  pub Plain-array_start : (s : List ℕ) → Plain (b'[' ∷ []) s TokenType.array_start
  unfolding lex_token skip is_space
  Plain-array_start s lex k strval = simp strval refl

  pub Plain-array_end : (s : List ℕ) → Plain (b']' ∷ []) s TokenType.array_end
  unfolding lex_token skip is_space
  Plain-array_end s lex k strval = simp strval refl

  pub Plain-comma : (s : List ℕ) → Plain (b',' ∷ []) s TokenType.comma
  unfolding lex_token skip is_space
  Plain-comma s lex k strval = simp strval refl

  -- A colon before a space, and two colons.
  pub Plain-colon : (s : List ℕ) → Plain (b':' ∷ []) (b' ' ∷ s) TokenType.colon
  unfolding lex_token lex_colon skip is_space
  Plain-colon s lex k strval = simp strval refl

  pub Plain-annotation : (s : List ℕ) → Plain (b':' ∷ b':' ∷ []) s TokenType.annotation
  unfolding lex_token lex_colon skip is_space
  Plain-annotation s lex k strval = simp strval refl

  -- A string literal.
  pub Lexed-escape_gtype :
      AsciiAlike enc
      → (str s : List ℕ) → All (λ c. 0 < c) str
      → Lexed (escape_gtype str ++ s) TokenType.string (some (escape_gtype str ++ s)) s (λ k. str)
  unfolding lex_token skip is_space escape_gtype
  Lexed-escape_gtype alike str s positive lex k strval =
      rw
        (
          strval,
          append_assoc (escape_loop str) (quote ∷ []) s,
          gtype_lex_string-escape_gtype enc alike str s k positive,
        )
        refl
