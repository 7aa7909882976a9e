-- ===== src/Text/Lexer.antt =====
-- gtype_lex of gtype_parser.c: the next token of the input. A byte behind the end of the input, which
-- the code reads after a minus sign, makes an invalid token in either branch.
pub mod Ends
pub mod Tokens
pub mod Words
use post_graph.Prelude.{
  ℕ, suc, ◌+◌, ◌-◌, Bool, true, false, List, [], ◌∷◌, ◌==◌, ◌||◌, leb, if◌then◌else◌, length,
  Option, none, some, Report, Outcome, ok, error, ◌>>=◌,
}
use post_graph.Text.Context.{
  TokenType, LexContext, Encoding, same_bytes, take, between, skip, in_range, is_digit,
}
use post_graph.Text.Strings.{quote, gtype_lex_string}
use post_graph.Text.Numbers.{Scan, is_alphanumeric, starts, gtype_lex_number}

unfoldable pub is_space : ℕ → Bool
is_space c = c == b' ' || c == b'\t' || c == b'\n' || c == b'\r'

unfoldable pub is_letter : ℕ → Bool
unfolding in_range
is_letter c = in_range b'a' b'z' c || in_range b'A' b'Z' c

-- A token that ends at a pointer. It begins at `start`.
abbrev pub token : LexContext → (start terminator : List ℕ) → TokenType → LexContext
token lex start terminator type = record lex {
  token_start = some start;
  token_terminator = terminator;
  token_type = type;
}

module _ (enc : Encoding) where
  -- An alphanumeric token, by its length and its bytes.
  unfoldable pub word_type : List ℕ → TokenType
  word_type word =
      if length word == 3
      then if enc.pg_strcasecmp word (b'N' ∷ b'a' ∷ b'N' ∷ [])
          || enc.pg_strcasecmp word (b'i' ∷ b'n' ∷ b'f' ∷ [])
        then TokenType.float
        else TokenType.identifier
      else if same_bytes word (b't' ∷ b'r' ∷ b'u' ∷ b'e' ∷ [])
      then TokenType.true_token
      else if same_bytes word (b'n' ∷ b'u' ∷ b'l' ∷ b'l' ∷ [])
      then TokenType.null_token
      else if same_bytes word (b'f' ∷ b'a' ∷ b'l' ∷ b's' ∷ b'e' ∷ [])
      then TokenType.false_token
      else if length word == 8
      then if enc.pg_strcasecmp word (b'I' ∷ b'n' ∷ b'f' ∷ b'i' ∷ b'n' ∷ b'i' ∷ b't' ∷ b'y' ∷ [])
        then TokenType.float
        else TokenType.identifier
      else TokenType.identifier

  -- The letters behind a minus sign that an `i` follows.
  unfoldable pub is_infinity : List ℕ → Bool
  is_infinity word =
      if length word == 3
      then enc.pg_strcasecmp word (b'i' ∷ b'n' ∷ b'f' ∷ [])
      else if length word == 8
      then enc.pg_strcasecmp word (b'I' ∷ b'n' ∷ b'f' ∷ b'i' ∷ b'n' ∷ b'i' ∷ b't' ∷ b'y' ∷ [])
      else false

  -- `start` is the token's begin, and `s` the number behind a minus sign.
  unfoldable pub lex_number_token : LexContext → (start s : List ℕ) → Outcome LexContext
  lex_number_token lex start s =
      let scan = gtype_lex_number s in
      if scan.error then error Report.invalid_token else ok (token lex start scan.s scan.token_type)

  unfoldable pub lex_minus : LexContext → (c : ℕ) → (s : List ℕ) → Outcome LexContext
  unfolding is_letter lex_number_token skip
  lex_minus lex c s =
      if starts (λ d. d == b'i' || d == b'I') s
      then if is_infinity (between s (skip is_letter s))
        then ok (token lex (c ∷ s) (skip is_letter s) TokenType.float)
        else error Report.invalid_token
      else lex_number_token lex (c ∷ s) s

  unfoldable pub lex_word : LexContext → (c : ℕ) → (s : List ℕ) → Outcome LexContext
  unfolding skip
  lex_word lex c s =
      let behind = skip is_alphanumeric s in
      if is_alphanumeric c
      then ok (token lex (c ∷ s) behind (word_type (between (c ∷ s) behind)))
      else error Report.invalid_token

  unfoldable pub lex_colon : LexContext → (c : ℕ) → (s : List ℕ) → LexContext
  lex_colon lex c [] = token lex (c ∷ []) [] TokenType.colon
  lex_colon lex c (d ∷ s) =
      if d == b':'
      then token lex (c ∷ d ∷ s) s TokenType.annotation
      else token lex (c ∷ d ∷ s) (d ∷ s) TokenType.colon

  -- The switch on the first byte of a token.
  unfoldable pub lex_token : LexContext → List ℕ → Outcome LexContext
  unfolding is_digit in_range lex_colon lex_minus lex_number_token lex_word
  lex_token lex [] =
      ok (record lex { token_start = none; token_terminator = []; token_type = TokenType.end })
  lex_token lex (c ∷ s) =
      if c == b'{'
      then ok (token lex (c ∷ s) s TokenType.object_start)
      else if c == b'}'
      then ok (token lex (c ∷ s) s TokenType.object_end)
      else if c == b'['
      then ok (token lex (c ∷ s) s TokenType.array_start)
      else if c == b']'
      then ok (token lex (c ∷ s) s TokenType.array_end)
      else if c == b','
      then ok (token lex (c ∷ s) s TokenType.comma)
      else if c == b':'
      then ok (lex_colon lex c s)
      else if c == quote
      then gtype_lex_string enc s lex.strval
        >>= (λ read. ok (record (token lex (c ∷ s) read.1 TokenType.string) { strval = read.0 }))
      else if c == b'-'
      then lex_minus lex c s
      else if is_digit c
      then lex_number_token lex (c ∷ s) (c ∷ s)
      else lex_word lex c s

  unfoldable pub gtype_lex : LexContext → Outcome LexContext
  unfolding lex_token skip is_space
  gtype_lex lex = lex_token lex (skip is_space lex.token_terminator)
