-- ===== src/Text/Context.antt =====
-- gtype_token_type and gtype_lex_context of src/include/utils/gtype_parser.h, make_gtype_lex_context,
-- and what the text modules use of PostgreSQL. Of the context the fields are kept that are read:
-- line_number, line_start, lex_level and prev_token_terminator are written and never read, and input
-- only serves the line of context in a report.
use post_graph.Prelude.{
  ℕ, ◌-◌, Bool, true, false, List, [], ◌∷◌, length, Option, none, some, ◌==◌, ◌&&◌, leb,
  if◌then◌else◌, zero, suc,
}

pub data TokenType : Type 0 where
  invalid string integer float numeric timestamp timestamptz date time timetz interval : TokenType
  inet cidr macaddr macaddr8 : TokenType
  object_start object_end array_start array_end comma colon annotation identifier : TokenType
  true_token false_token null_token end : TokenType

-- token_start is NULL at the end of the input.
pub record LexContext : Type 0 where
  pub token_start : Option (List ℕ)
  pub token_terminator : List ℕ
  pub token_type : TokenType
  pub strval : Option (List ℕ)

-- `pg_strcasecmp(a, b) == 0`, which pg_strncasecmp is of texts of the length given; is the server
-- encoding UTF8; and the bytes that unicode_to_utf8 writes of a code point, as many as pg_utf_mblen
-- counts.
pub record Encoding : Type 0 where
  pub pg_strcasecmp : List ℕ → List ℕ → Bool
  pub utf8 : Bool
  pub unicode_to_utf8 : ℕ → List ℕ

abbrev pub make_gtype_lex_context : List ℕ → (need_escapes : Bool) → LexContext
make_gtype_lex_context str need_escapes = record {
  token_start = none;
  token_terminator = str;
  token_type = invalid;
  strval = if need_escapes then some [] else none;
}

abbrev pub same_bytes : List ℕ → List ℕ → Bool
same_bytes [] [] = true
same_bytes [] (y ∷ ys) = false
same_bytes (x ∷ xs) [] = false
same_bytes (x ∷ xs) (y ∷ ys) = (x == y) && same_bytes xs ys

-- The first n of a list.
abbrev pub take : ℕ → List ℕ → List ℕ
take zero s = []
take (suc n) [] = []
take (suc n) (c ∷ s) = c ∷ take n s

-- The bytes between two pointers.
unfoldable pub between : (start terminator : List ℕ) → List ℕ
between start terminator = take (length start - length terminator) start

-- A loop that advances a pointer while a test holds.
unfoldable pub skip : (ℕ → Bool) → List ℕ → List ℕ
skip test [] = []
skip test (c ∷ s) = let rest = skip test s in if test c then rest else c ∷ s

unfoldable pub in_range : (low high : ℕ) → ℕ → Bool
in_range low high c = leb low c && leb c high

unfoldable pub is_digit : ℕ → Bool
is_digit c = in_range b'0' b'9' c
