-- ===== src/Text/Strings/Ends.antt =====
-- About the end of gtype_lex_string: the bytes that its rounds take.
use post_graph.Prelude.{
  ℕ, zero, suc, ◌+◌, ◌≤◌, ◌<◌, List, [], ◌∷◌, ◌==◌, length, Option, none, some, ◌>>=◌, Returns,
  Anything, Returns->>=, Returns-weaken, Bool-cases, inl, inr, ◌*◌, ◌%◌, arith,
}
use post_graph.Text.Context.{Encoding}
use post_graph.Text.Strings.{
  hex_digit, hex_loop, Chars, append_unicode, unicode_escape, char_escape, simple_escape,
  read_escape, plain_char, close_string, reset, lex_chars, gtype_lex_string,
}

-- No more is left than before.
abbrev pub Within : ℕ → {A : Type 0} → A × List ℕ → Type 0
Within n read = length read.1 ≤ n

Returns-hex_digit : (c : ℕ) → Returns Anything (hex_digit c)
unfolding hex_digit
Returns-hex_digit c = ground arith

Returns-hex_loop : (left ch : ℕ) (s : List ℕ) → Returns (Within (length s)) (hex_loop left ch s)
unfolding hex_loop
Returns-hex_loop zero ch s = omega arith
Returns-hex_loop (suc left) ch [] = tt
Returns-hex_loop (suc left) ch (c ∷ s) =
    Returns->>= _ _ (hex_digit c) _ (Returns-hex_digit c) (λ d done.
      Returns-weaken _ _ (hex_loop left (ch * 16 + d) s) (λ read shorter. omega (arith, shorter))
        (Returns-hex_loop left (ch * 16 + d) s))

module _ (enc : Encoding) where
  Returns-append_unicode :
      (ch : ℕ) (strval : List ℕ) → Returns Anything (append_unicode enc ch strval)
  unfolding append_unicode
  Returns-append_unicode ch strval = ground arith

  Returns-unicode_escape : (ch : ℕ) (chars : Chars) → Returns Anything (unicode_escape enc ch chars)
  unfolding unicode_escape
  Returns-unicode_escape ch (hi, none) = tt
  Returns-unicode_escape ch (none, some strval) = ground (arith, Returns-append_unicode ch strval)
  Returns-unicode_escape ch (some hi, some strval) =
      ground (arith, Returns-append_unicode (0x10000 + hi + ch % 0x400) strval)

  Returns-char_escape : (c : ℕ) → Returns Anything (char_escape c)
  unfolding char_escape
  Returns-char_escape c = ground arith

  Returns-simple_escape : (c : ℕ) (chars : Chars) → Returns Anything (simple_escape c chars)
  unfolding simple_escape
  Returns-simple_escape c (hi, none) = ground arith
  Returns-simple_escape c (some hi, some strval) = tt
  Returns-simple_escape c (none, some strval) =
      Returns->>= _ _ (char_escape c) _ (Returns-char_escape c) (λ bytes done. tt)

  Returns-plain_char : (c : ℕ) (chars : Chars) → Returns Anything (plain_char c chars)
  unfolding plain_char
  Returns-plain_char c (hi, none) = tt
  Returns-plain_char c (some hi, some strval) = tt
  Returns-plain_char c (none, some strval) = tt

  Returns-read_escape :
      (s : List ℕ) (chars : Chars) → Returns (Within (length s)) (read_escape enc s chars)
  unfolding read_escape
  Returns-read_escape [] chars = tt
  Returns-read_escape (c ∷ s) chars = elim (Bool-cases (c == b'u')) [
    | inl unicode ↦ rw unicode (
        Returns->>= _ _ (hex_loop 4 0 s) _ (Returns-hex_loop 4 0 s) (λ digits shorter.
          Returns->>= _ _ (unicode_escape enc digits.0 chars) _
            (Returns-unicode_escape digits.0 chars) (λ chars' done. omega (arith, shorter))))
    | inr other ↦ rw other (
        Returns->>= _ _ (simple_escape c chars) _ (Returns-simple_escape c chars)
          (λ chars' done. omega arith))
  ]

  Returns-close_string :
      (chars : Chars) (s : List ℕ) → Returns (Within (length s)) (close_string chars s)
  unfolding close_string
  Returns-close_string (some hi, strval) s = tt
  Returns-close_string (none, strval) s = omega arith

  Returns-lex_chars :
      (fuel : ℕ) (s : List ℕ) (chars : Chars)
      → length s < fuel
      → Returns (Within (length s)) (lex_chars enc fuel s chars)
  unfolding lex_chars
  Returns-lex_chars zero s chars enough = absurd (omega arith)
  Returns-lex_chars (suc fuel) [] chars enough = tt
  Returns-lex_chars (suc fuel) (c ∷ s) chars enough =
      let escaped : Returns (Within (length (c ∷ s)))
          (read_escape enc s chars >>= (λ next. lex_chars enc fuel next.1 next.0)) =
        Returns->>= _ _ (read_escape enc s chars) _ (Returns-read_escape s chars) (λ next shorter.
          Returns-weaken _ _ (lex_chars enc fuel next.1 next.0)
            (λ read less. omega (arith, shorter, less))
            (Returns-lex_chars fuel next.1 next.0 (omega (arith, shorter, enough)))) in
      let plain : Returns (Within (length (c ∷ s)))
          (plain_char c chars >>= (λ chars'. lex_chars enc fuel s chars')) =
        Returns->>= _ _ (plain_char c chars) _ (Returns-plain_char c chars) (λ chars' done.
          Returns-weaken _ _ (lex_chars enc fuel s chars') (λ read less. omega (arith, less))
            (Returns-lex_chars fuel s chars' (omega (arith, enough)))) in
      let closed : Returns (Within (length (c ∷ s))) (close_string chars s) =
        Returns-weaken _ _ (close_string chars s) (λ read less. omega (arith, less))
          (Returns-close_string chars s) in
      ground (arith, escaped, plain, closed)

  pub Returns-gtype_lex_string :
      (s : List ℕ) (strval : Option (List ℕ))
      → Returns (Within (length s)) (gtype_lex_string enc s strval)
  unfolding gtype_lex_string
  Returns-gtype_lex_string s strval =
      Returns-lex_chars (suc (length s)) s (none, reset strval) (omega arith)
