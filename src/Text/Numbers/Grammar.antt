-- ===== src/Text/Numbers/Grammar.antt =====
-- The number texts by a grammar, as the comment above gtype_lex_number describes them, with the
-- dotted texts that part (4A) of the code adds for addresses of IPv4, without their limits.
use post_graph.Prelude.{
  ℕ, ◌≤◌, ◌≡◌, refl, Bool, true, false, List, [], ◌∷◌, ◌++◌, ◌==◌, ◌||◌, ◌⊎◌, All, arith,
}
use post_graph.Text.Context.{TokenType, skip, in_range, is_digit}
use post_graph.Text.Numbers.{is_alphanumeric, starts, address_digit}

abbrev pub IsDigit : ℕ → Type 0
IsDigit c = (b'0' ≤ c) × (c ≤ b'9')

-- One digit or more.
abbrev pub Digits : List ℕ → Type 0
Digits [] = ⊥
Digits (c ∷ s) = IsDigit c × All IsDigit s

-- A single 0, or digits that do not begin with one.
abbrev pub MainDigits : List ℕ → Type 0
MainDigits [] = ⊥
MainDigits (c ∷ s) = ((c ≡ b'0') × (s ≡ [])) ⊎ ((b'1' ≤ c) × (c ≤ b'9') × All IsDigit s)

-- A decimal part that may be left out.
abbrev pub Fraction : List ℕ → Type 0
Fraction [] = Unit
Fraction (c ∷ s) = (c ≡ b'.') × Digits s

-- An exponent behind its letter, with a sign or without one.
abbrev pub Signed : List ℕ → Type 0
Signed [] = ⊥
Signed (c ∷ s) = (((c ≡ b'+') ⊎ (c ≡ b'-')) × Digits s) ⊎ Digits (c ∷ s)

abbrev pub Netmask : List ℕ → Type 0
Netmask [] = Unit
Netmask (c ∷ s) = (c ≡ b'/') × Digits s

-- The third part of a dotted text and what is taken into it: a digit, and then digits and dots in any
-- order. The last two parts of an address of IPv4 are of this kind, and so is `3...`.
abbrev pub DottedRest : List ℕ → Type 0
DottedRest [] = ⊥
DottedRest (c ∷ s) = IsDigit c × All (λ d. IsDigit d ⊎ (d ≡ b'.')) s

-- A number or a dotted text without a sign, and the type of its token.
pub data NumberText : TokenType → List ℕ → Type 0 where
  whole : (m : List ℕ) → MainDigits m → NumberText TokenType.integer m
  decimal :
      (m d text : List ℕ)
      → MainDigits m
      → Digits d
      → text ≡ m ++ (b'.' ∷ d)
      → NumberText TokenType.float text
  scientific :
      (m f : List ℕ) (e : ℕ) (d text : List ℕ)
      → MainDigits m
      → Fraction f
      → ((e ≡ b'e') ⊎ (e ≡ b'E'))
      → Signed d
      → text ≡ m ++ (f ++ (e ∷ d))
      → NumberText TokenType.float text
  dotted :
      (m d a mask text : List ℕ)
      → MainDigits m
      → Digits d
      → DottedRest a
      → Netmask mask
      → text ≡ m ++ (b'.' ∷ (d ++ (b'.' ∷ (a ++ mask))))
      → NumberText TokenType.inet text

-- The same, with a minus sign or without one.
pub data SignedText : TokenType → List ℕ → Type 0 where
  plus : {type : TokenType} {text : List ℕ} → NumberText type text → SignedText type text
  minus : {type : TokenType} {text : List ℕ} → NumberText type text → SignedText type (b'-' ∷ text)

-- A byte that would be taken into a number before it.
unfoldable pub continues : ℕ → Bool
unfolding is_alphanumeric in_range
continues c = is_alphanumeric c || c == b'.' || c == b'/'

abbrev pub Stops : List ℕ → Type 0
Stops s = starts continues s ≡ false

pub no_digit : (s : List ℕ) → Stops s → starts is_digit s ≡ false
unfolding continues is_digit
no_digit [] h = refl
no_digit (c ∷ s) h = ground arith

pub no_address_digit : (s : List ℕ) → Stops s → starts address_digit s ≡ false
unfolding continues address_digit
no_address_digit [] h = refl
no_address_digit (c ∷ s) h = ground arith

pub no_alphanumeric : (s : List ℕ) → Stops s → starts is_alphanumeric s ≡ false
unfolding continues is_alphanumeric
no_alphanumeric [] h = refl
no_alphanumeric (c ∷ s) h = ground arith

pub is_digit-IsDigit : (c : ℕ) → IsDigit c → is_digit c ≡ true
unfolding is_digit in_range
is_digit-IsDigit c h = ground arith

-- The loop over the bytes that pass the test stops at the first other one.
pub skip-append :
    (test : ℕ → Bool) (d s : List ℕ)
    → All (λ c. test c ≡ true) d
    → starts test s ≡ false
    → skip test (d ++ s) ≡ s
unfolding skip
skip-append test [] [] all stop = refl
skip-append test [] (c ∷ s) all stop = rw stop refl
skip-append test (c ∷ d) s (yes_c, all) stop = rw yes_c (skip-append test d s all stop)
