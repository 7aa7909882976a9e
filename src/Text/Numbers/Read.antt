-- ===== src/Text/Numbers/Read.antt =====
-- About gtype_lex_number on the texts of the grammar.
use post_graph.Prelude.{
  ℕ, ◌≡◌, refl, ap, ◌∙◌, Bool, true, false, List, [], ◌∷◌, ◌++◌, ◌==◌, ◌⊎◌, inl, inr, All, All-imp,
  arith,
}
use mathlib.Core.List.{append_assoc}
use post_graph.Text.Context.{TokenType, skip, in_range, is_digit}
use post_graph.Text.Numbers.{
  Scan, is_alphanumeric, starts, one_or_more, main_digits, decimal_portion, address_digit, netmask,
  exponent, address_or_exponent, trailing, gtype_lex_number,
}
use post_graph.Text.Numbers.Grammar.{
  IsDigit, Digits, MainDigits, Fraction, Signed, Netmask, DottedRest, NumberText, whole, decimal,
  scientific, dotted, continues, Stops, no_digit, no_address_digit, no_alphanumeric,
  is_digit-IsDigit, skip-append,
}

abbrev pub at : TokenType → List ℕ → Scan
at type s = record { error = false; token_type = type; s = s }

one_or_more-append :
    (follow : ℕ → Bool) (type : TokenType) (c : ℕ) (d s : List ℕ)
    → IsDigit c
    → All (λ x. follow x ≡ true) (c ∷ d)
    → starts follow s ≡ false
    → one_or_more follow (at type (c ∷ (d ++ s))) ≡ at type s
unfolding one_or_more
one_or_more-append follow type c d s digit all stop =
    rw (is_digit-IsDigit c digit) (ap (at type) (skip-append follow (c ∷ d) s all stop))

some-Digits :
    (type : TokenType) (d s : List ℕ)
    → Digits d
    → starts is_digit s ≡ false
    → one_or_more is_digit (at type (d ++ s)) ≡ at type s
some-Digits type [] s digits stop = absurd digits
some-Digits type (c ∷ d) s (digit, digits) stop =
    one_or_more-append is_digit type c d s digit
      (is_digit-IsDigit c digit, All-imp d is_digit-IsDigit digits) stop

main_digits-append :
    (m s : List ℕ)
    → MainDigits m
    → starts is_digit s ≡ false
    → main_digits (m ++ s) ≡ at TokenType.integer s
unfolding main_digits in_range
main_digits-append [] s h stop = absurd h
main_digits-append (c ∷ m) s (inl (zero_digit, single)) stop =
    rw single (ground (arith, zero_digit))
main_digits-append (c ∷ m) s (inr (low, high, digits)) stop =
    let read : skip is_digit (c ∷ (m ++ s)) ≡ s =
      skip-append is_digit (c ∷ m) s
        (is_digit-IsDigit c (omega arith, high), All-imp m is_digit-IsDigit digits) stop in
    ground (arith, read)

-- Parts that are not there.
no_decimal :
    (type : TokenType) (s : List ℕ)
    → starts (λ c. c == b'.') s ≡ false
    → decimal_portion (at type s) ≡ at type s
unfolding decimal_portion
no_decimal type s h = rw h refl

no_rest : (type : TokenType) (s : List ℕ) → Stops s → address_or_exponent (at type s) ≡ at type s
unfolding address_or_exponent continues is_alphanumeric in_range
no_rest type [] h = refl
no_rest type (c ∷ s) h = ground arith

no_trailing : (type : TokenType) (s : List ℕ) → Stops s → trailing (at type s) ≡ at type s
unfolding trailing
no_trailing type s h = rw (no_alphanumeric s h) refl

no_point : (s : List ℕ) → Stops s → starts (λ c. c == b'.') s ≡ false
unfolding continues
no_point [] h = refl
no_point (c ∷ s) h = ground arith

-- A decimal part, if there is one.
abbrev fraction_type : List ℕ → TokenType
fraction_type [] = TokenType.integer
fraction_type (c ∷ s) = TokenType.float

read-Fraction :
    (f s : List ℕ)
    → Fraction f
    → starts is_digit s ≡ false
    → starts (λ c. c == b'.') s ≡ false
    → decimal_portion (at TokenType.integer (f ++ s)) ≡ at (fraction_type f) s
unfolding decimal_portion
read-Fraction [] s h stop point = no_decimal TokenType.integer s point
read-Fraction (c ∷ f) s (e, digits) stop point = rw e (some-Digits TokenType.float f s digits stop)

read_exponent :
    (type : TokenType) (e : ℕ) (d s : List ℕ)
    → ((e ≡ b'e') ⊎ (e ≡ b'E'))
    → Signed d
    → Stops s
    → address_or_exponent (at type (e ∷ (d ++ s))) ≡ at TokenType.float s
unfolding address_or_exponent exponent
read_exponent type e [] s letter h stops = absurd h
read_exponent type e (c ∷ d) s letter (inl (sign, digits)) stops =
    ground (arith, some-Digits TokenType.float d s digits (no_digit s stops))
read_exponent type e (c ∷ d) s letter (inr digits) stops =
    ground (arith, some-Digits TokenType.float (c ∷ d) s digits (no_digit s stops))

read_netmask :
    (mask s : List ℕ)
    → Netmask mask
    → Stops s
    → netmask (at TokenType.inet (mask ++ s)) ≡ at TokenType.inet s
unfolding netmask continues
read_netmask [] [] h stops = refl
read_netmask [] (c ∷ s) h stops = ground arith
read_netmask (c ∷ mask) s (e, digits) stops =
    rw e (some-Digits TokenType.inet mask s digits (no_digit s stops))

address_pass : (c : ℕ) → IsDigit c ⊎ (c ≡ b'.') → address_digit c ≡ true
unfolding address_digit is_digit in_range
address_pass c h = ground arith

mask-Stops : (mask s : List ℕ) → Netmask mask → Stops s → starts address_digit (mask ++ s) ≡ false
unfolding address_digit is_digit in_range
mask-Stops [] s h stops = no_address_digit s stops
mask-Stops (c ∷ mask) s (e, digits) stops = rw e refl

read_address :
    (type : TokenType) (a mask s : List ℕ)
    → DottedRest a
    → Netmask mask
    → Stops s
    → address_or_exponent (at type (b'.' ∷ (a ++ (mask ++ s)))) ≡ at TokenType.inet s
unfolding address_or_exponent
read_address type [] mask s h masked stops = absurd h
read_address type (c ∷ a) mask s (digit, rest) masked stops =
    ap netmask (
      one_or_more-append address_digit TokenType.inet c a (mask ++ s) digit
        (address_pass c (inl digit), All-imp a address_pass rest) (mask-Stops mask s masked stops))
    ∙ read_netmask mask s masked stops

exponent_stop : (e : ℕ) (s : List ℕ) → (e ≡ b'e') ⊎ (e ≡ b'E') → starts is_digit (e ∷ s) ≡ false
unfolding is_digit in_range
exponent_stop e s h = ground arith

exponent_no_point :
    (e : ℕ) (s : List ℕ) → (e ≡ b'e') ⊎ (e ≡ b'E') → starts (λ c. c == b'.') (e ∷ s) ≡ false
exponent_no_point e s h = ground arith

Fraction-stop :
    (f s : List ℕ) → Fraction f → starts is_digit s ≡ false → starts is_digit (f ++ s) ≡ false
unfolding is_digit in_range
Fraction-stop [] s h stop = stop
Fraction-stop (c ∷ f) s (e, digits) stop = rw e refl

-- gtype_lex_number reads a text of the grammar as one token of its type, without an error, up to
-- what follows it.
pub gtype_lex_number-NumberText :
    {type : TokenType} {text : List ℕ} (s : List ℕ)
    → NumberText type text
    → Stops s
    → gtype_lex_number (text ++ s) ≡ at type s
unfolding gtype_lex_number
gtype_lex_number-NumberText s (whole m main) stops =
    rw
      (
        main_digits-append m s main (no_digit s stops),
        no_decimal TokenType.integer s (no_point s stops),
        no_rest TokenType.integer s stops,
      )
      (no_trailing TokenType.integer s stops)
gtype_lex_number-NumberText s (decimal m d text main digits e) stops =
    rw
      (
        e,
        append_assoc m (b'.' ∷ d) s,
        main_digits-append m (b'.' ∷ (d ++ s)) main refl,
        read-Fraction (b'.' ∷ d) s (refl, digits) (no_digit s stops) (no_point s stops),
        no_rest TokenType.float s stops,
      )
      (no_trailing TokenType.float s stops)
gtype_lex_number-NumberText s (scientific m f x d text main fraction letter signed e) stops =
    rw
      (
        e,
        append_assoc m (f ++ (x ∷ d)) s,
        append_assoc f (x ∷ d) s,
        main_digits-append m (f ++ (x ∷ (d ++ s))) main
            (Fraction-stop f (x ∷ (d ++ s)) fraction (exponent_stop x (d ++ s) letter)),
        read-Fraction f (x ∷ (d ++ s)) fraction (exponent_stop x (d ++ s) letter)
            (exponent_no_point x (d ++ s) letter),
        read_exponent (fraction_type f) x d s letter signed stops,
      )
      (no_trailing TokenType.float s stops)
gtype_lex_number-NumberText s (dotted m d a mask text main digits rest masked e) stops =
    rw
      (
        e,
        append_assoc m (b'.' ∷ (d ++ (b'.' ∷ (a ++ mask)))) s,
        append_assoc d (b'.' ∷ (a ++ mask)) s,
        append_assoc a mask s,
        main_digits-append m (b'.' ∷ (d ++ (b'.' ∷ (a ++ (mask ++ s))))) main refl,
        decimal_then d (b'.' ∷ (a ++ (mask ++ s))) digits refl,
        read_address TokenType.float a mask s rest masked stops,
      )
      (no_trailing TokenType.inet s stops)
  where
    decimal_then :
        (d s : List ℕ)
        → Digits d
        → starts is_digit s ≡ false
        → decimal_portion (at TokenType.integer (b'.' ∷ (d ++ s))) ≡ at TokenType.float s
    decimal_then d s digits stop =
        unfold decimal_portion in some-Digits TokenType.float d s digits stop
