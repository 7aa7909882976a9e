-- ===== src/Text/Strings/Escaped.antt =====
-- About gtype_lex_string on what escape_gtype writes of a string.
use post_graph.Prelude.{
  ℕ, zero, suc, ◌+◌, ◌*◌, ◌/◌, ◌%◌, ◌<◌, ◌≡◌, refl, ap, ◌∙◌, false, List, [], ◌∷◌, ◌++◌, ◌==◌, All,
  length, length-append, if◌then◌else◌, none, some, ok, arith,
}
use mathlib.Core.List.{append_assoc, append-nil}
use post_graph.Text.Context.{Encoding}
use post_graph.Text.Strings.{
  quote, hex_digit, hex_loop, append_unicode, unicode_escape, char_escape, simple_escape,
  read_escape, plain_char, close_string, lex_chars, gtype_lex_string,
}
use post_graph.Text.Output.{hex_of, escape_byte, escape_loop}

hex_digit-hex_of : (d : ℕ) → d < 16 → hex_digit (hex_of d) ≡ ok d
unfolding hex_digit hex_of
hex_digit-hex_of d h = ground arith

-- The four digits of a control character.
hex_loop-digits :
    (c : ℕ) (s : List ℕ)
    → c < 32
    → hex_loop 4 0
        (hex_of (c / 4096) ∷ hex_of (c / 256 % 16) ∷ hex_of (c / 16 % 16) ∷ hex_of (c % 16) ∷ s)
      ≡ ok (c, s)
unfolding hex_loop
hex_loop-digits c s h =
    let value : (((0 * 16 + c / 4096) * 16 + c / 256 % 16) * 16 + c / 16 % 16) * 16 + c % 16 ≡ c =
      omega arith in
    rw
      (
        hex_digit-hex_of (c / 4096) (omega arith),
        hex_digit-hex_of (c / 256 % 16) (omega arith),
        hex_digit-hex_of (c / 16 % 16) (omega arith),
        hex_digit-hex_of (c % 16) (omega arith),
      )
      (ap (λ ch. ok (ch, s)) value)

-- An ASCII code point is one byte of UTF8.
abbrev pub AsciiAlike : Encoding → Type 0
AsciiAlike enc = (ch : ℕ) → ch < 128 → enc.unicode_to_utf8 ch ≡ ch ∷ []

module _ (enc : Encoding) (alike : AsciiAlike enc) where
  control_escape :
      (c : ℕ) (done : List ℕ)
      → 0 < c
      → c < 32
      → unicode_escape enc c (none, some done) ≡ ok (none, some (done ++ (c ∷ [])))
  unfolding unicode_escape append_unicode
  control_escape c done pos h = ground (arith, alike c (omega arith))

  -- One byte of the string.
  lex_chars-escape_byte :
      (fuel c : ℕ) (s done : List ℕ)
      → 0 < c
      → lex_chars enc (suc fuel) (escape_byte c ++ s) (none, some done)
        ≡ lex_chars enc fuel s (none, some (done ++ (c ∷ [])))
  unfolding lex_chars escape_byte read_escape simple_escape char_escape plain_char
  lex_chars-escape_byte fuel c s done pos =
      ground (arith, hex_loop-digits c s, control_escape c done)

  escape_byte-pos : (c : ℕ) → 0 < length (escape_byte c)
  unfolding escape_byte
  escape_byte-pos c = ground arith

  lex_chars-escape_loop :
      (str : List ℕ) (fuel : ℕ) (s done : List ℕ)
      → All (λ c. 0 < c) str
      → length (escape_loop str) < fuel
      → lex_chars enc fuel (escape_loop str ++ (quote ∷ s)) (none, some done)
        ≡ ok (some (done ++ str), s)
  unfolding escape_loop
  lex_chars-escape_loop str zero s done pos enough = absurd (omega arith)
  lex_chars-escape_loop [] (suc fuel) s done pos enough =
      rw append-nil (unfold lex_chars close_string in refl)
  lex_chars-escape_loop (c ∷ str) (suc fuel) s done (p, pos) enough =
      let some_byte : (c == 0) ≡ false = ground arith in
      let split : (if c == 0 then [] else escape_byte c ++ escape_loop str)
          ≡ escape_byte c ++ escape_loop str =
        rw some_byte refl in
      let left : length (escape_byte c) + length (escape_loop str) < suc fuel =
        omega (arith, ap length split, length-append (escape_byte c) (escape_loop str), enough) in
      rw (split, append_assoc (escape_byte c) (escape_loop str) (quote ∷ s))
        (lex_chars-escape_byte fuel c (escape_loop str ++ (quote ∷ s)) done p
          ∙ lex_chars-escape_loop str fuel s (done ++ (c ∷ [])) pos
              (omega (arith, left, escape_byte-pos c))
          ∙ ap (λ read. ok (some read, s)) (append_assoc done (c ∷ []) str))

  -- The literal that escape_gtype writes of a string without NUL is read by gtype_lex_string, behind
  -- its opening quote, as the string, up to what follows its closing quote.
  pub gtype_lex_string-escape_gtype :
      (str s kept : List ℕ)
      → All (λ c. 0 < c) str
      → gtype_lex_string enc (escape_loop str ++ (quote ∷ s)) (some kept) ≡ ok (some str, s)
  unfolding gtype_lex_string
  gtype_lex_string-escape_gtype str s kept pos =
      lex_chars-escape_loop str (suc (length (escape_loop str ++ (quote ∷ s)))) s [] pos
        (omega (arith, length-append (escape_loop str) (quote ∷ s)))
