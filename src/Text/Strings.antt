-- ===== src/Text/Strings.antt =====
-- gtype_lex_string of gtype_parser.c: the bytes of a string token behind the opening quote. The loop
-- takes fuel for one round more than there are bytes. Bytes are unsigned, as the code casts them.
pub mod Escaped
pub mod Ends
use post_graph.Prelude.{
  ℕ, zero, suc, ◌+◌, ◌-◌, ◌*◌, ◌%◌, Bool, true, false, List, [], ◌∷◌, ◌++◌, ltb, leb, ◌==◌, ◌||◌,
  if◌then◌else◌, length, Option, none, some, is_some, Report, Outcome, ok, error, ◌>>=◌, ◌>>◌,
  guard, not, ◌&&◌,
}
use post_graph.Text.Context.{Encoding, in_range}

abbrev pub quote : ℕ
quote = b'"'

abbrev pub backslash : ℕ
backslash = b'\\'

-- One digit behind `\u`.
unfoldable pub hex_digit : ℕ → Outcome ℕ
unfolding in_range
hex_digit c =
    if in_range b'0' b'9' c
    then ok (c - b'0')
    else if in_range b'a' b'f' c
    then ok (c - b'a' + 10)
    else if in_range b'A' b'F' c
    then ok (c - b'A' + 10)
    else error Report.hex_digits

-- The digits that are left to read, and the pointer behind them.
unfoldable pub hex_loop : (left ch : ℕ) → List ℕ → Outcome (ℕ × List ℕ)
hex_loop zero ch s = ok (ch, s)
hex_loop (suc left) ch [] = error Report.invalid_token
hex_loop (suc left) ch (c ∷ s) = hex_digit c >>= (λ d. hex_loop left (ch * 16 + d) s)

-- hi_surrogate, which is -1 or a number, and strval.
abbrev pub Chars : Type 0
Chars = Option ℕ × Option (List ℕ)

abbrev pub is_high_surrogate : ℕ → Bool
is_high_surrogate ch = leb 0xd800 ch && leb ch 0xdbff

abbrev pub is_low_surrogate : ℕ → Bool
is_low_surrogate ch = leb 0xdc00 ch && leb ch 0xdfff

-- The code point of `ch` as UTF8, or in another encoding as one ASCII byte.
unfoldable pub append_unicode : Encoding → (ch : ℕ) → (strval : List ℕ) → Outcome Chars
append_unicode enc ch strval =
    if ch == 0
    then error Report.untranslatable
    else if enc.utf8
    then ok (none, some (strval ++ enc.unicode_to_utf8 ch))
    else if leb ch 0x7f
    then ok (none, some (strval ++ (ch ∷ [])))
    else error Report.untranslatable

-- `\u` with the number of its digits.
unfoldable pub unicode_escape : Encoding → (ch : ℕ) → Chars → Outcome Chars
unicode_escape enc ch (hi, none) = ok (hi, none)
unicode_escape enc ch (none, some strval) =
    if is_high_surrogate ch
    then ok (some (ch % 0x400 * 0x400), some strval)
    else if is_low_surrogate ch
    then error Report.lone_surrogate
    else append_unicode enc ch strval
unicode_escape enc ch (some hi, some strval) =
    if is_high_surrogate ch
    then error Report.lone_surrogate
    else if is_low_surrogate ch
    then append_unicode enc (0x10000 + hi + ch % 0x400) strval
    else error Report.lone_surrogate

-- The bytes that `\c` stands for. The test in the default case for an `x` comes behind `case 'x'`.
unfoldable pub char_escape : ℕ → Outcome (List ℕ)
unfolding in_range
char_escape c =
    if c == quote || c == backslash || c == b'/'
    then ok (c ∷ [])
    else if c == b'b'
    then ok (8 ∷ [])
    else if c == b'f'
    then ok (12 ∷ [])
    else if c == b'n'
    then ok (10 ∷ [])
    else if c == b'r'
    then ok (13 ∷ [])
    else if c == b't'
    then ok (9 ∷ [])
    else if c == b'x' || in_range b'0' b'9' c
    then ok (backslash ∷ c ∷ [])
    else error Report.invalid_escape

-- `strchr("\"\\/bfnrt", c) != NULL`; strchr finds the terminating NUL too.
unfoldable pub is_plain_escape : ℕ → Bool
is_plain_escape c =
    c == quote
    || c == backslash
    || c == b'/'
    || c == b'b'
    || c == b'f'
    || c == b'n'
    || c == b'r'
    || c == b't'
    || c == 0

-- An escape character that is not `u`.
unfoldable pub simple_escape : ℕ → Chars → Outcome Chars
simple_escape c (hi, none) =
    if is_plain_escape c then ok (hi, none) else error Report.invalid_escape
simple_escape c (some hi, some strval) = error Report.lone_surrogate
simple_escape c (none, some strval) = char_escape c >>= (λ bytes. ok (none, some (strval ++ bytes)))

-- Behind a backslash.
unfoldable pub read_escape : Encoding → List ℕ → Chars → Outcome (Chars × List ℕ)
read_escape enc [] chars = error Report.invalid_token
read_escape enc (c ∷ s) chars =
    if c == b'u'
    then hex_loop 4 0 s
      >>= (λ digits. unicode_escape enc digits.0 chars >>= (λ chars'. ok (chars', digits.1)))
    else simple_escape c chars >>= (λ chars'. ok (chars', s))

-- A byte that stands for itself.
unfoldable pub plain_char : ℕ → Chars → Outcome Chars
plain_char c (hi, none) = ok (hi, none)
plain_char c (some hi, some strval) = error Report.lone_surrogate
plain_char c (none, some strval) = ok (none, some (strval ++ (c ∷ [])))

-- The closing quote: strval, and the pointer behind the quote.
unfoldable pub close_string : Chars → List ℕ → Outcome (Option (List ℕ) × List ℕ)
close_string (some hi, strval) s = error Report.lone_surrogate
close_string (none, strval) s = ok (strval, s)

unfoldable pub lex_chars :
    Encoding → (fuel : ℕ) → List ℕ → Chars → Outcome (Option (List ℕ) × List ℕ)
lex_chars enc zero s chars = Outcome.out_of_fuel
lex_chars enc (suc fuel) [] chars = error Report.invalid_token
lex_chars enc (suc fuel) (c ∷ s) chars =
    let escaped = read_escape enc s chars >>= (λ next. lex_chars enc fuel next.1 next.0) in
    let plain = plain_char c chars >>= (λ chars'. lex_chars enc fuel s chars') in
    if c == quote
    then close_string chars s
    else if ltb c 32
    then error Report.unescaped_control
    else if c == backslash
    then escaped
    else plain

-- resetStringInfo empties strval if there is one.
abbrev pub reset : Option (List ℕ) → Option (List ℕ)
reset none = none
reset (some strval) = some []

-- `s` is the pointer behind the opening quote.
unfoldable pub gtype_lex_string :
    Encoding → List ℕ → (strval : Option (List ℕ)) → Outcome (Option (List ℕ) × List ℕ)
gtype_lex_string enc s strval = lex_chars enc (suc (length s)) s (none, reset strval)
