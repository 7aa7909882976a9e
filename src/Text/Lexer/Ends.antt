-- ===== src/Text/Lexer/Ends.antt =====
-- About the end of gtype_lex, and the bytes that it takes.
use post_graph.Prelude.{
  ℕ, suc, ◌≤◌, ◌<◌, ◌≡◌, refl, ◌⊎◌, Bool, true, Bool-cases, inl, inr, List, [], ◌∷◌, ◌==◌, length,
  ok, ◌>>=◌, Returns, Returns->>=, Returns-weaken, arith,
}
use post_graph.Text.Context.{TokenType, LexContext, Encoding, skip, in_range, is_digit}
use post_graph.Text.Strings.{gtype_lex_string}
use post_graph.Text.Strings.Ends.{Returns-gtype_lex_string}
use post_graph.Text.Numbers.{
  Scan, is_alphanumeric, tail, one_or_more, main_digits, begin_part, decimal_portion, address_digit,
  netmask, exponent, address_or_exponent, trailing, gtype_lex_number,
}
use post_graph.Text.Lexer.{
  is_space, is_letter, token, lex_number_token, lex_minus, lex_word, lex_colon, lex_token,
  gtype_lex,
}

length-skip : (test : ℕ → Bool) (s : List ℕ) → length (skip test s) ≤ length s
unfolding skip
length-skip test [] = omega arith
length-skip test (c ∷ s) = ground (arith, length-skip test s)

length-tail : (s : List ℕ) → length (tail s) ≤ length s
length-tail [] = omega arith
length-tail (c ∷ s) = omega arith

-- A part of a number ends no earlier than it begins.
one_or_more-shorter :
    (follow : ℕ → Bool) (scan : Scan) → length (one_or_more follow scan).s ≤ length scan.s
unfolding one_or_more
one_or_more-shorter follow scan = ground (arith, length-skip follow scan.s)

decimal_portion-shorter : (scan : Scan) → length (decimal_portion scan).s ≤ length scan.s
unfolding decimal_portion
decimal_portion-shorter scan =
    ground
      (arith, length-tail scan.s, one_or_more-shorter is_digit (begin_part TokenType.float scan))

netmask-shorter : (scan : Scan) → length (netmask scan).s ≤ length scan.s
unfolding netmask
netmask-shorter scan =
    ground
      (arith, length-tail scan.s, one_or_more-shorter is_digit (begin_part scan.token_type scan))

exponent-shorter : (scan : Scan) → length (exponent scan).s ≤ length scan.s
unfolding exponent one_or_more
exponent-shorter scan = ground (
  arith,
  length-tail scan.s,
  length-tail (tail scan.s),
  length-skip is_digit (tail scan.s),
  length-skip is_digit (tail (tail scan.s)),
)

address_or_exponent-shorter : (scan : Scan) → length (address_or_exponent scan).s ≤ length scan.s
unfolding address_or_exponent
address_or_exponent-shorter scan = ground (
  arith,
  length-tail scan.s,
  one_or_more-shorter address_digit (begin_part TokenType.inet scan),
  netmask-shorter (one_or_more address_digit (begin_part TokenType.inet scan)),
  exponent-shorter scan,
)

trailing-shorter : (scan : Scan) → length (trailing scan).s ≤ length scan.s
unfolding trailing
trailing-shorter scan = ground (arith, length-skip is_alphanumeric scan.s)

main_digits-shorter : (s : List ℕ) → length (main_digits s).s ≤ length s
unfolding main_digits
main_digits-shorter s = ground (arith, length-skip is_digit s, length-tail s)

-- A digit is taken.
main_digits-digit :
    (c : ℕ) (s : List ℕ) → is_digit c ≡ true → length (main_digits (c ∷ s)).s ≤ length s
unfolding main_digits is_digit in_range skip
main_digits-digit c s digit = ground (arith, length-skip is_digit s)

gtype_lex_number-main_digits :
    (s : List ℕ) → length (gtype_lex_number s).s ≤ length (main_digits s).s
unfolding gtype_lex_number
gtype_lex_number-main_digits s = omega (
  arith,
  decimal_portion-shorter (main_digits s),
  address_or_exponent-shorter (decimal_portion (main_digits s)),
  trailing-shorter (address_or_exponent (decimal_portion (main_digits s))),
)

-- What is left is less than n bytes, or nothing.
abbrev pub Taken : ℕ → LexContext → Type 0
Taken n lex =
    (length lex.token_terminator < n)
    ⊎ ((lex.token_type ≡ TokenType.end) × (lex.token_terminator ≡ []))

module _ (enc : Encoding) where
  lex_number_token-Taken :
      (lex : LexContext) (start s : List ℕ) (n : ℕ)
      → length (gtype_lex_number s).s < n
      → Returns (Taken n) (lex_number_token enc lex start s)
  unfolding lex_number_token
  lex_number_token-Taken lex start s n less = elim (Bool-cases (gtype_lex_number s).error) [
    | inl bad ↦ rw bad tt
    | inr good ↦ rw good (inl less)
  ]

  lex_minus-Taken :
      (lex : LexContext) (c : ℕ) (s : List ℕ)
      → Returns (Taken (suc (length s))) (lex_minus enc lex c s)
  unfolding lex_minus
  lex_minus-Taken lex c s =
      let number : Returns (Taken (suc (length s))) (lex_number_token enc lex (c ∷ s) s) =
        lex_number_token-Taken lex (c ∷ s) s (suc (length s))
          (omega (arith, gtype_lex_number-main_digits s, main_digits-shorter s)) in
      let word : Taken (suc (length s)) (token lex (c ∷ s) (skip is_letter s) TokenType.float) =
        inl (omega (arith, length-skip is_letter s)) in
      ground (arith, number, word)

  lex_word-Taken :
      (lex : LexContext) (c : ℕ) (s : List ℕ)
      → Returns (Taken (suc (length s))) (lex_word enc lex c s)
  unfolding lex_word
  lex_word-Taken lex c s = elim (Bool-cases (is_alphanumeric c)) [
    | inl yes_c ↦ rw yes_c (inl (omega (arith, length-skip is_alphanumeric s)))
    | inr no_c ↦ rw no_c tt
  ]

  lex_colon-Taken :
      (lex : LexContext) (c : ℕ) (s : List ℕ) → Taken (suc (length s)) (lex_colon enc lex c s)
  unfolding lex_colon
  lex_colon-Taken lex c [] = inl (omega arith)
  lex_colon-Taken lex c (d ∷ s) = elim (Bool-cases (d == b':')) [
    | inl two ↦ rw two (inl (omega arith))
    | inr single ↦ rw single (inl (omega arith))
  ]

  lex_token-Taken :
      (lex : LexContext) (s : List ℕ) → Returns (Taken (length s)) (lex_token enc lex s)
  unfolding lex_token
  lex_token-Taken lex [] = inr (refl, refl)
  lex_token-Taken lex (c ∷ s) =
      let string : Returns (Taken (suc (length s))) (
          gtype_lex_string enc s lex.strval >>= (λ read.
            ok (record (token lex (c ∷ s) read.1 TokenType.string) { strval = read.0 }))) =
        Returns->>= _ _ (gtype_lex_string enc s lex.strval) _
          (Returns-gtype_lex_string enc s lex.strval)
          (λ read shorter. inl (omega (arith, shorter))) in
      let number : is_digit c ≡ true
          → Returns (Taken (suc (length s))) (lex_number_token enc lex (c ∷ s) (c ∷ s)) =
        λ digit.
          lex_number_token-Taken lex (c ∷ s) (c ∷ s) (suc (length s))
            (omega (arith, gtype_lex_number-main_digits (c ∷ s), main_digits-digit c s digit)) in
      let one_byte : (type : TokenType) → Taken (suc (length s)) (token lex (c ∷ s) s type) =
        λ type. inl (omega arith) in
      ground (
        arith,
        string,
        number,
        one_byte,
        lex_colon-Taken lex c s,
        lex_minus-Taken lex c s,
        lex_word-Taken lex c s,
      )

  -- gtype_lex ends. What it returns is behind at least one byte, or is the end of the input.
  pub gtype_lex-Taken :
      (lex : LexContext) → Returns (Taken (length lex.token_terminator)) (gtype_lex enc lex)
  unfolding gtype_lex
  gtype_lex-Taken lex =
      Returns-weaken _ _ (lex_token enc lex (skip is_space lex.token_terminator))
        (shorter lex.token_terminator) (lex_token-Taken lex (skip is_space lex.token_terminator))
    where
      shorter :
          (s : List ℕ) (lex' : LexContext)
          → Taken (length (skip is_space s)) lex'
          → Taken (length s) lex'
      shorter s lex' (inl less) = inl (omega (arith, less, length-skip is_space s))
      shorter s lex' (inr at_end) = inr at_end
