-- ===== src/Text/Numbers/Valid.antt =====
-- About the texts that is_valid_gtype_number accepts.
use post_graph.Prelude.{
  ℕ, ◌≡◌, refl, sym, ap, ◌∙◌, ◌⊎◌, ◌↔◌, inl, inr, true, false, Bool-cases, List, [], ◌∷◌, ◌++◌,
  ◌==◌, arith,
}
use mathlib.Core.List.{append-nil}
use post_graph.Text.Context.{TokenType}
use post_graph.Text.Numbers.{
  Scan, is_alphanumeric, starts, tail, main_digits, starts_with, decimal_portion,
  address_or_exponent, trailing, gtype_lex_number, is_end, is_whole, is_valid_gtype_number,
}
use post_graph.Text.Numbers.Read.{at, gtype_lex_number-NumberText}
use post_graph.Text.Lexer.Words.{NumberText-DigitFirst}
use post_graph.Text.Numbers.Grammar.{
  IsDigit, Digits, MainDigits, SignedText, plus, minus, NumberText, whole, decimal, scientific,
  dotted,
}
use post_graph.Text.Numbers.Parts.{
  Split, main_digits-good, decimal_portion-good, Continued, rest_of_address, with_exponent,
  nothing_more, address_or_exponent-good,
}

trailing-good : (scan : Scan) → (trailing scan).error ≡ false → trailing scan ≡ scan
unfolding trailing
trailing-good scan good = elim (Bool-cases (starts is_alphanumeric scan.s)) [
  | inl garbage ↦ absurd (ground (arith, good, garbage))
  | inr none_left ↦ rw none_left refl
]

-- The parts that were read without an error make up the text.
parts_read :
    (s m : List ℕ) (main read after : Scan)
    → MainDigits m
    → s ≡ m ++ main.s
    → main.token_type ≡ TokenType.integer
    → ((starts_with b'.' main.s ≡ false) × (read ≡ main))
      ⊎ (Split Digits (tail main.s) read.s
          × (main.s ≡ b'.' ∷ tail main.s)
          × (read.token_type ≡ TokenType.float))
    → Continued read after
    → after.s ≡ []
    → NumberText after.token_type s
parts_read s m main read after is_main e type (inl (no_dot, same)) (rest_of_address e' split type')
      ended =
    let dot : starts_with b'.' main.s ≡ true =
      ap (starts_with b'.') (sym (ap (λ x. x.s) same) ∙ e') in
    absurd cc
parts_read s m main read after is_main e type (inl (no_dot, same))
      (with_exponent c e' letter (d, signed, e'') type') ended =
    rw type' (
      scientific m [] c d s is_main tt letter signed (
        e
        ∙ ap (λ u. m ++ u)
            (sym (ap (λ x. x.s) same)
              ∙ e'
              ∙ ap (λ u. c ∷ u) (e'' ∙ ap (λ u. d ++ u) ended ∙ append-nil d))))
parts_read s m main read after is_main e type (inl (no_dot, same)) (nothing_more same') ended =
    let left : main.s ≡ [] = sym (ap (λ x. x.s) (same' ∙ same)) ∙ ended in
    rw (ap (λ x. x.token_type) (same' ∙ same) ∙ type, e ∙ ap (λ u. m ++ u) left ∙ append-nil m)
      (whole m is_main)
parts_read s m main read after is_main e type (inr ((d, digits, e'), dot, type'))
      (rest_of_address e'' (rest, (a, mask, is_address, is_mask, e3), e4) type'') ended =
    rw type'' (
      dotted m d a mask s is_main digits is_address is_mask (
        e
        ∙ ap (λ u. m ++ u)
            (dot
              ∙ ap (λ u. b'.' ∷ u)
                  (e'
                    ∙ ap (λ u. d ++ u)
                        (e''
                          ∙ ap (λ u. b'.' ∷ u)
                              (e4 ∙ ap (λ u. rest ++ u) ended ∙ append-nil rest ∙ e3))))))
parts_read s m main read after is_main e type (inr ((d, digits, e'), dot, type'))
      (with_exponent c e'' letter (d', signed, e3) type'') ended =
    rw type'' (
      scientific m (b'.' ∷ d) c d' s is_main (refl, digits) letter signed
        (e
          ∙ ap (λ u. m ++ u)
              (dot
                ∙ ap (λ u. b'.' ∷ u)
                    (e'
                      ∙ ap (λ u. d ++ u)
                          (e'' ∙ ap (λ u. c ∷ u) (e3 ∙ ap (λ u. d' ++ u) ended ∙ append-nil d'))))))
parts_read s m main read after is_main e type (inr ((d, digits, e'), dot, type'))
      (nothing_more same') ended =
    rw (ap (λ x. x.token_type) same' ∙ type') (
      decimal m d s is_main digits (
        e
        ∙ ap (λ u. m ++ u)
            (dot
              ∙ ap (λ u. b'.' ∷ u)
                  (e' ∙ ap (λ u. d ++ u) (sym (ap (λ x. x.s) same') ∙ ended) ∙ append-nil d))))

number_read :
    (s : List ℕ)
    → (gtype_lex_number s).error ≡ false
    → (gtype_lex_number s).s ≡ []
    → NumberText (gtype_lex_number s).token_type s
number_read s good ended =
    let main = main_digits s in
    let read = decimal_portion main in
    let after = address_or_exponent read in
    let made : gtype_lex_number s ≡ trailing after = unfold gtype_lex_number in refl in
    let same : trailing after ≡ after = trailing-good after (ap (λ x. x.error) (sym made) ∙ good) in
    let (fine, continued) =
      address_or_exponent-good read (ap (λ x. x.error) (sym (made ∙ same)) ∙ good) in
    let (fine', fraction) = decimal_portion-good main fine in
    let ((m, is_main, e), type) = main_digits-good s fine' in
    rw (made ∙ same) (
      parts_read s m main read after is_main e type fraction continued
        (ap (λ x. x.s) (sym (made ∙ same)) ∙ ended))

is_end-nil : (s : List ℕ) → is_end s ≡ true → s ≡ []
is_end-nil [] h = refl
is_end-nil (c ∷ s) h = cc

whole_number :
    (s : List ℕ) → is_whole (gtype_lex_number s) ≡ true → (type : TokenType) × NumberText type s
whole_number s h =
    let scan = gtype_lex_number s in
    let good : scan.error ≡ false = ground (arith, h) in
    let ended : is_end scan.s ≡ true = ground (arith, h) in
    (scan.token_type, number_read s good (is_end-nil scan.s ended))

number_whole :
    {type : TokenType} (s : List ℕ) → NumberText type s → is_whole (gtype_lex_number s) ≡ true
number_whole s number =
    let read : gtype_lex_number s ≡ at _ [] =
      ap gtype_lex_number (sym (append-nil s)) ∙ gtype_lex_number-NumberText [] number refl in
    rw read refl

valid_minus :
    (c : ℕ) (s : List ℕ) → c ≡ b'-' → is_valid_gtype_number (c ∷ s) ≡ is_whole (gtype_lex_number s)
unfolding is_valid_gtype_number
valid_minus c s e = rw e refl

valid_plus :
    (c : ℕ) (s : List ℕ)
    → (c == b'-') ≡ false
    → is_valid_gtype_number (c ∷ s) ≡ is_whole (gtype_lex_number (c ∷ s))
unfolding is_valid_gtype_number
valid_plus c s e = rw e refl

valid_signed :
    (s : List ℕ) → is_valid_gtype_number s ≡ true → (type : TokenType) × SignedText type s
valid_signed [] h = absurd (unfold is_valid_gtype_number in cc)
valid_signed (c ∷ s) h = elim (Bool-cases (c == b'-')) [
  | inl sign ↦
      let e : c ≡ b'-' = ground arith in
      let (type, number) = whole_number s (sym (valid_minus c s e) ∙ h) in rw e (type, minus number)
  | inr no_sign ↦
      let (type, number) = whole_number (c ∷ s) (sym (valid_plus c s no_sign) ∙ h) in
      (type, plus number)
]

digit_no_sign : (c : ℕ) → IsDigit c → (c == b'-') ≡ false
digit_no_sign c h = ground arith

signed_valid : {type : TokenType} (s : List ℕ) → SignedText type s → is_valid_gtype_number s ≡ true
signed_valid [] (plus number) = absurd (NumberText-DigitFirst number)
signed_valid (c ∷ s) (plus number) =
    valid_plus c s (digit_no_sign c (NumberText-DigitFirst number)) ∙ number_whole (c ∷ s) number
signed_valid _ (minus number) = valid_minus b'-' _ refl ∙ number_whole _ number

by_kind :
    {type : TokenType} (s : List ℕ)
    → SignedText type s
    → SignedText TokenType.integer s ⊎ (SignedText TokenType.float s ⊎ SignedText TokenType.inet s)
by_kind _ (plus (whole m main)) = inl (plus (whole m main))
by_kind _ (plus (decimal m d text main ds e)) = inr (inl (plus (decimal m d text main ds e)))
by_kind _ (plus (scientific m f x d text main fr l sg e)) =
    inr (inl (plus (scientific m f x d text main fr l sg e)))
by_kind _ (plus (dotted m d a k text main ds r n e)) =
    inr (inr (plus (dotted m d a k text main ds r n e)))
by_kind _ (minus (whole m main)) = inl (minus (whole m main))
by_kind _ (minus (decimal m d text main ds e)) = inr (inl (minus (decimal m d text main ds e)))
by_kind _ (minus (scientific m f x d text main fr l sg e)) =
    inr (inl (minus (scientific m f x d text main fr l sg e)))
by_kind _ (minus (dotted m d a k text main ds r n e)) =
    inr (inr (minus (dotted m d a k text main ds r n e)))

-- is_valid_gtype_number accepts a text exactly when, with a minus sign before it or without one, it is
-- an integer of the grammar, or a number with a decimal part or an exponent, or a dotted text: an
-- integer, a dot, digits, a dot, a digit, digits and dots in any order, and perhaps a netmask. Among
-- the dotted texts are addresses of IPv4, and texts that are neither numbers nor addresses.
pub is_valid_gtype_number-SignedText :
    (s : List ℕ)
    → (is_valid_gtype_number s ≡ true) ↔ (
        SignedText TokenType.integer s
        ⊎ (SignedText TokenType.float s ⊎ SignedText TokenType.inet s))
is_valid_gtype_number-SignedText s = (to, from)
  where
    to :
        is_valid_gtype_number s ≡ true
        → SignedText TokenType.integer s
          ⊎ (SignedText TokenType.float s ⊎ SignedText TokenType.inet s)
    to h = let (type, signed) = valid_signed s h in by_kind s signed

    from :
        SignedText TokenType.integer s
          ⊎ (SignedText TokenType.float s ⊎ SignedText TokenType.inet s)
        → is_valid_gtype_number s ≡ true
    from (inl whole_number) = signed_valid s whole_number
    from (inr (inl real)) = signed_valid s real
    from (inr (inr dots)) = signed_valid s dots
