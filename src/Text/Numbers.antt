-- ===== src/Text/Numbers.antt =====
-- gtype_lex_number and is_valid_gtype_number of gtype_parser.c: the parts of a number token, one after
-- the other. `s` points behind what has been read.
pub mod Grammar
pub mod Read
pub mod Parts
pub mod Valid
use post_graph.Prelude.{
  ℕ, Bool, true, false, not, List, [], ◌∷◌, ◌==◌, ◌&&◌, ◌||◌, leb, if◌then◌else◌,
}
use post_graph.Text.Context.{TokenType, skip, in_range, is_digit}

pub record Scan : Type 0 where
  pub error : Bool
  pub token_type : TokenType
  pub s : List ℕ

-- GTYPE_ALPHANUMERIC_CHAR
unfoldable pub is_alphanumeric : ℕ → Bool
unfolding in_range
is_alphanumeric c =
    in_range b'a' b'z' c || in_range b'A' b'Z' c || in_range b'0' b'9' c || c == b'_' || leb 128 c

-- Does the text begin with a byte of that kind?
abbrev pub starts : (ℕ → Bool) → List ℕ → Bool
starts test [] = false
starts test (c ∷ s) = test c

abbrev pub tail : List ℕ → List ℕ
tail [] = []
tail (c ∷ s) = s

-- A digit is an error if it is missing, and else the loop over the bytes that may follow.
unfoldable pub one_or_more : (ℕ → Bool) → Scan → Scan
unfolding skip is_digit in_range
one_or_more follow scan =
    if starts is_digit scan.s
    then record scan { s = skip follow scan.s }
    else record scan { error = true }

-- Part (2)
unfoldable pub main_digits : List ℕ → Scan
unfolding skip is_digit in_range
main_digits s =
    if starts (λ c. c == b'0') s
    then record { error = false; token_type = TokenType.integer; s = tail s }
    else if starts (in_range b'1' b'9') s
    then record { error = false; token_type = TokenType.integer; s = skip is_digit s }
    else record { error = true; token_type = TokenType.integer; s = s }

abbrev pub starts_with : ℕ → List ℕ → Bool
starts_with c s = starts (λ d. d == c) s

-- A part begins: a byte is read, and the type is known better.
abbrev pub begin_part : TokenType → Scan → Scan
begin_part type scan = record scan { token_type = type; s = tail scan.s }

-- Part (3)
unfoldable pub decimal_portion : Scan → Scan
unfolding one_or_more
decimal_portion scan =
    if starts_with b'.' scan.s then one_or_more is_digit (begin_part TokenType.float scan) else scan

-- Part (4A), the rest of an IP4 address with its netmask.
unfoldable pub address_digit : ℕ → Bool
unfolding is_digit in_range
address_digit c = is_digit c || c == b'.'

unfoldable pub netmask : Scan → Scan
unfolding one_or_more
netmask scan =
    if starts_with b'/' scan.s then one_or_more is_digit (begin_part scan.token_type scan) else scan

-- Part (4b)
unfoldable pub exponent : Scan → Scan
unfolding one_or_more
exponent scan = one_or_more is_digit (sign (begin_part TokenType.float scan))
  where
    sign : Scan → Scan
    sign read =
        if starts (λ c. c == b'+' || c == b'-') read.s
        then record read { s = tail read.s }
        else read

unfoldable pub address_or_exponent : Scan → Scan
unfolding one_or_more netmask exponent address_digit
address_or_exponent scan =
    if starts_with b'.' scan.s
    then netmask (one_or_more address_digit (begin_part TokenType.inet scan))
    else if starts (λ c. c == b'e' || c == b'E') scan.s
    then exponent scan
    else scan

-- Trailing garbage is taken into the token.
unfoldable pub trailing : Scan → Scan
unfolding skip is_alphanumeric
trailing scan =
    if starts is_alphanumeric scan.s
    then record scan { error = true; s = skip is_alphanumeric scan.s }
    else scan

-- The error flag, the type of the token and its end, for a text behind an optional minus sign.
unfoldable pub gtype_lex_number : List ℕ → Scan
unfolding main_digits decimal_portion address_or_exponent trailing
gtype_lex_number s = trailing (address_or_exponent (decimal_portion (main_digits s)))

abbrev pub is_end : List ℕ → Bool
is_end [] = true
is_end (c ∷ s) = false

-- `(!numeric_error) && (total_len == dummy_lex.input_length)`
abbrev pub is_whole : Scan → Bool
is_whole scan = not scan.error && is_end scan.s

unfoldable pub is_valid_gtype_number : List ℕ → Bool
unfolding gtype_lex_number
is_valid_gtype_number [] = false
is_valid_gtype_number (c ∷ str) = is_whole (gtype_lex_number (if c == b'-' then str else c ∷ str))
