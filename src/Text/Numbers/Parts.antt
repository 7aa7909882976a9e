-- ===== src/Text/Numbers/Parts.antt =====
-- What gtype_lex_number has read when a part of a number ends without an error.
use post_graph.Prelude.{
  ℕ, ◌≡◌, refl, sym, ap, ◌∙◌, ◌⊎◌, inl, inr, Bool, true, false, Bool-cases, ◌||◌, List, [], ◌∷◌,
  ◌++◌, ◌==◌, All, arith,
}
use mathlib.Core.List.{append_assoc}
use post_graph.Text.Context.{TokenType, skip, in_range, is_digit}
use post_graph.Text.Numbers.{
  Scan, starts, tail, one_or_more, main_digits, starts_with, begin_part, decimal_portion,
  address_digit, netmask, exponent, address_or_exponent,
}
use post_graph.Text.Numbers.Grammar.{IsDigit, Digits, MainDigits, Signed, Netmask, DottedRest}

-- A text is a part of a kind, and what follows it.
abbrev pub Split : (List ℕ → Type 0) → (s rest : List ℕ) → Type 0
Split P s rest = (d : List ℕ) × P d × (s ≡ d ++ rest)

Split-skip : (test : ℕ → Bool) (s : List ℕ) → Split (All (λ c. test c ≡ true)) s (skip test s)
unfolding skip
Split-skip test [] = ([], tt, refl)
Split-skip test (c ∷ s) = elim (Bool-cases (test c)) [
  | inl yes_c ↦
      let (d, all, e) = Split-skip test s in rw yes_c (c ∷ d, (yes_c, all), ap (λ t. c ∷ t) e)
  | inr no_c ↦ rw no_c ([], tt, refl)
]

IsDigit-is_digit : (c : ℕ) → is_digit c ≡ true → IsDigit c
unfolding is_digit in_range
IsDigit-is_digit c h = ground arith

All-IsDigit : (d : List ℕ) → All (λ c. is_digit c ≡ true) d → All IsDigit d
All-IsDigit [] all = tt
All-IsDigit (c ∷ d) (h, all) = (IsDigit-is_digit c h, All-IsDigit d all)

AddressAll :
    (d : List ℕ) → All (λ c. address_digit c ≡ true) d → All (λ c. IsDigit c ⊎ (c ≡ b'.')) d
unfolding address_digit
AddressAll [] all = tt
AddressAll (c ∷ d) (h, all) = (either, AddressAll d all)
  where
    either : IsDigit c ⊎ (c ≡ b'.')
    either = elim (Bool-cases (is_digit c)) [
      | inl digit ↦ inl (IsDigit-is_digit c digit)
      | inr no_digit ↦ inr (ground arith)
    ]

begins :
    (s : List ℕ) (test : ℕ → Bool)
    → starts test s ≡ true
    → (c : ℕ) × (t : List ℕ) × (s ≡ c ∷ t) × (test c ≡ true)
begins [] test h = cc
begins (c ∷ t) test h = (c, t, refl, h)

-- A part that was read without an error: nothing was wrong before, and it is a digit and what follows.
one_or_more-good :
    (follow : ℕ → Bool) (scan : Scan)
    → (one_or_more follow scan).error ≡ false
    → (scan.error ≡ false)
      × (starts is_digit scan.s ≡ true)
      × ((one_or_more follow scan).s ≡ skip follow scan.s)
unfolding one_or_more
one_or_more-good follow scan good = elim (Bool-cases (starts is_digit scan.s)) [
  | inl yes_digit ↦ (ground (arith, good, yes_digit), yes_digit, ground (arith, yes_digit))
  | inr no_digit ↦ absurd (ground (arith, good, no_digit))
]

Split-Digits : (s : List ℕ) → starts is_digit s ≡ true → Split Digits s (skip is_digit s)
unfolding skip
Split-Digits [] h = cc
Split-Digits (c ∷ t) h =
    let (d, all, e) = Split-skip is_digit t in
    rw h (c ∷ d, (IsDigit-is_digit c h, All-IsDigit d all), ap (λ u. c ∷ u) e)

pub main_digits-good :
    (s : List ℕ)
    → (main_digits s).error ≡ false
    → Split MainDigits s (main_digits s).s × ((main_digits s).token_type ≡ TokenType.integer)
unfolding main_digits in_range skip
main_digits-good [] good = cc
main_digits-good (c ∷ t) good = elim (Bool-cases (c == b'0')) [
  | inl null ↦ let e : c ≡ b'0' = ground arith in rw null ((c ∷ [], inl (e, refl), refl), refl)
  | inr some_other ↦ elim (Bool-cases (in_range b'1' b'9' c)) [
    | inl digit ↦
        let (d, all, e) = Split-skip is_digit t in
        let is_one : is_digit c ≡ true = ground arith in
        rw (some_other, digit, is_one)
          ((c ∷ d, inr (ground arith, ground arith, All-IsDigit d all), ap (λ u. c ∷ u) e), refl)
    | inr none_of_it ↦ absurd (ground (arith, good, some_other, none_of_it))
  ]
]

one_or_more-token_type :
    (follow : ℕ → Bool) (scan : Scan) → (one_or_more follow scan).token_type ≡ scan.token_type
unfolding one_or_more
one_or_more-token_type follow scan = ground arith

starts_with-tail : (c : ℕ) (s : List ℕ) → starts_with c s ≡ true → s ≡ c ∷ tail s
starts_with-tail c [] h = cc
starts_with-tail c (d ∷ s) h = let e : d ≡ c = ground arith in ap (λ x. x ∷ s) e

-- There is no decimal part, or there is one.
pub decimal_portion-good :
    (scan : Scan)
    → (decimal_portion scan).error ≡ false
    → (scan.error ≡ false)
      × (((starts_with b'.' scan.s ≡ false) × (decimal_portion scan ≡ scan))
          ⊎ (Split Digits (tail scan.s) (decimal_portion scan).s
              × (scan.s ≡ b'.' ∷ tail scan.s)
              × ((decimal_portion scan).token_type ≡ TokenType.float)))
decimal_portion-good scan good = elim (Bool-cases (starts_with b'.' scan.s)) [
  | inl dot ↦
      let read = begin_part TokenType.float scan in
      let same : decimal_portion scan ≡ one_or_more is_digit read =
        unfold decimal_portion in rw dot refl in
      let (fine, digit, rest) =
        one_or_more-good is_digit read (ap (λ x. x.error) (sym same) ∙ good) in
      let (d, digits, e) = Split-Digits (tail scan.s) digit in
      (
        fine,
        inr (
          (d, digits, e ∙ ap (λ u. d ++ u) (sym (ap (λ x. x.s) same ∙ rest))),
          starts_with-tail b'.' scan.s dot,
          ap (λ x. x.token_type) same ∙ one_or_more-token_type is_digit read,
        ),
      )
  | inr no_dot ↦
      let same : decimal_portion scan ≡ scan = unfold decimal_portion in rw no_dot refl in
      (ap (λ x. x.error) (sym same) ∙ good, inl (no_dot, same))
]

-- A netmask may be left out.
netmask-good :
    (scan : Scan)
    → (netmask scan).error ≡ false
    → (scan.error ≡ false)
      × Split Netmask scan.s (netmask scan).s
      × ((netmask scan).token_type ≡ scan.token_type)
netmask-good scan good = elim (Bool-cases (starts_with b'/' scan.s)) [
  | inl slash ↦
      let read = begin_part scan.token_type scan in
      let same : netmask scan ≡ one_or_more is_digit read = unfold netmask in rw slash refl in
      let (fine, digit, rest) =
        one_or_more-good is_digit read (ap (λ x. x.error) (sym same) ∙ good) in
      let (d, digits, e) = Split-Digits (tail scan.s) digit in
      (
        fine,
        (
          b'/' ∷ d,
          (refl, digits),
          starts_with-tail b'/' scan.s slash
              ∙ ap (λ u. b'/' ∷ u) (e ∙ ap (λ u. d ++ u) (sym (ap (λ x. x.s) same ∙ rest))),
        ),
        ap (λ x. x.token_type) same ∙ one_or_more-token_type is_digit read,
      )
  | inr no_slash ↦
      let same : netmask scan ≡ scan = unfold netmask in rw no_slash refl in
      (
        ap (λ x. x.error) (sym same) ∙ good,
        ([], tt, sym (ap (λ x. x.s) same)),
        ap (λ x. x.token_type) same,
      )
]

Split-address : (s : List ℕ) → starts is_digit s ≡ true → Split DottedRest s (skip address_digit s)
unfolding skip address_digit
Split-address [] h = cc
Split-address (c ∷ t) h =
    let (d, all, e) = Split-skip address_digit t in
    rw h (c ∷ d, (IsDigit-is_digit c h, AddressAll d all), ap (λ u. c ∷ u) e)

abbrev is_sign : ℕ → Bool
is_sign c = c == b'+' || c == b'-'

abbrev is_exponent : ℕ → Bool
is_exponent c = c == b'e' || c == b'E'

sign_cases : (c : ℕ) → is_sign c ≡ true → (c ≡ b'+') ⊎ (c ≡ b'-')
sign_cases c h = ground arith

letter_cases : (c : ℕ) → is_exponent c ≡ true → (c ≡ b'e') ⊎ (c ≡ b'E')
letter_cases c h = ground arith

Signed-Digits : (d : List ℕ) → Digits d → Signed d
Signed-Digits [] digits = digits
Signed-Digits (c ∷ d) digits = inr digits

exponent-good :
    (scan : Scan)
    → (exponent scan).error ≡ false
    → (scan.error ≡ false)
      × Split Signed (tail scan.s) (exponent scan).s
      × ((exponent scan).token_type ≡ TokenType.float)
exponent-good scan good = elim (Bool-cases (starts is_sign (tail scan.s))) [
  | inl sign ↦
      let read = record (begin_part TokenType.float scan) { s = tail (tail scan.s) } in
      let same : exponent scan ≡ one_or_more is_digit read = unfold exponent in rw sign refl in
      let (fine, digit, rest) =
        one_or_more-good is_digit read (ap (λ x. x.error) (sym same) ∙ good) in
      let (d, digits, e) = Split-Digits (tail (tail scan.s)) digit in
      let (c, t, e', yes_c) = begins (tail scan.s) is_sign sign in
      (
        fine,
        (
          c ∷ d,
          inl (sign_cases c yes_c, digits),
          e'
              ∙ ap (λ u. c ∷ u)
                  (sym (ap tail e') ∙ e ∙ ap (λ u. d ++ u) (sym (ap (λ x. x.s) same ∙ rest))),
        ),
        ap (λ x. x.token_type) same ∙ one_or_more-token_type is_digit read,
      )
  | inr no_sign ↦
      let read = begin_part TokenType.float scan in
      let same : exponent scan ≡ one_or_more is_digit read = unfold exponent in rw no_sign refl in
      let (fine, digit, rest) =
        one_or_more-good is_digit read (ap (λ x. x.error) (sym same) ∙ good) in
      let (d, digits, e) = Split-Digits (tail scan.s) digit in
      (
        fine,
        (d, Signed-Digits d digits, e ∙ ap (λ u. d ++ u) (sym (ap (λ x. x.s) same ∙ rest))),
        ap (λ x. x.token_type) same ∙ one_or_more-token_type is_digit read,
      )
]

-- A dotted text goes on, an exponent follows, or neither.
pub data Continued (scan after : Scan) : Type 0 where
  rest_of_address :
      scan.s ≡ b'.' ∷ tail scan.s
      → Split
          (λ d. (a : List ℕ) × (mask : List ℕ) × DottedRest a × Netmask mask × (d ≡ a ++ mask))
          (tail scan.s)
          after.s
      → after.token_type ≡ TokenType.inet
      → Continued scan after
  with_exponent :
      (c : ℕ)
      → scan.s ≡ c ∷ tail scan.s
      → ((c ≡ b'e') ⊎ (c ≡ b'E'))
      → Split Signed (tail scan.s) after.s
      → after.token_type ≡ TokenType.float
      → Continued scan after
  nothing_more : after ≡ scan → Continued scan after

pub address_or_exponent-good :
    (scan : Scan)
    → (address_or_exponent scan).error ≡ false
    → (scan.error ≡ false) × Continued scan (address_or_exponent scan)
address_or_exponent-good scan good = elim (Bool-cases (starts_with b'.' scan.s)) [
  | inl dot ↦
      let read = begin_part TokenType.inet scan in
      let follow = one_or_more address_digit read in
      let same : address_or_exponent scan ≡ netmask follow =
        unfold address_or_exponent in rw dot refl in
      let (fine, (mask, is_mask, e), type) =
        netmask-good follow (ap (λ x. x.error) (sym same) ∙ good) in
      let (fine', digit, rest) = one_or_more-good address_digit read fine in
      let (a, is_address, e') = Split-address (tail scan.s) digit in
      (
        fine',
        rest_of_address (starts_with-tail b'.' scan.s dot)
            (
              a ++ mask,
              (a, mask, is_address, is_mask, refl),
              e'
                  ∙ ap (λ u. a ++ u) (sym rest ∙ e ∙ ap (λ u. mask ++ u) (sym (ap (λ x. x.s) same)))
                  ∙ sym (append_assoc a mask (address_or_exponent scan).s),
            )
            (ap (λ x. x.token_type) same ∙ type ∙ one_or_more-token_type address_digit read),
      )
  | inr no_dot ↦ elim (Bool-cases (starts is_exponent scan.s)) [
    | inl letter ↦
        let same : address_or_exponent scan ≡ exponent scan =
          unfold address_or_exponent in rw (no_dot, letter) refl in
        let (fine, (d, signed, e), type) =
          exponent-good scan (ap (λ x. x.error) (sym same) ∙ good) in
        let (c, t, e', yes_c) = begins scan.s is_exponent letter in
        (
          fine,
          with_exponent c (e' ∙ ap (λ u. c ∷ u) (sym (ap tail e'))) (letter_cases c yes_c)
              (d, signed, e ∙ ap (λ u. d ++ u) (sym (ap (λ x. x.s) same)))
              (ap (λ x. x.token_type) same ∙ type),
        )
    | inr no_letter ↦
        let same : address_or_exponent scan ≡ scan =
          unfold address_or_exponent in rw (no_dot, no_letter) refl in
        (ap (λ x. x.error) (sym same) ∙ good, nothing_more same)
  ]
]
