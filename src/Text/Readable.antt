-- ===== src/Text/Readable.antt =====
-- The values that gtype_out writes so that gtype_in can read them: what their scalars need of the
-- output and input functions of PostgreSQL. The text of a number is one of the grammar or a word.
use post_graph.Prelude.{
  ℕ, ◌<◌, ◌^◌, ◌≡◌, refl, ◌∙◌, true, false, List, [], ◌∷◌, ◌++◌, ◌⊎◌, inl, inr, All, length, ok,
  arith,
}
use mathlib.Core.List.{append_assoc}
use post_graph.Gtype.Scalar.{Scalar, Float8}
use post_graph.Gtype.Value.{Value, Values, Fields}
use post_graph.Text.Context.{TokenType, is_digit, in_range}
use post_graph.Text.Numbers.Grammar.{
  IsDigit, MainDigits, SignedText, plus, minus, NumberText, whole, decimal, scientific, dotted,
  is_digit-IsDigit,
}
use post_graph.Text.Lexer.Words.{DigitFirst, NumberText-DigitFirst}
use post_graph.Text.Input.{InputOps}
use post_graph.Text.Output.{OutputOps, only_digits, is_decimal_needed, scalar_text}

abbrev pub nan_text : List ℕ
nan_text = b'N' ∷ b'a' ∷ b'N' ∷ []

abbrev pub infinity_text : List ℕ
infinity_text = b'I' ∷ b'n' ∷ b'f' ∷ b'i' ∷ b'n' ∷ b'i' ∷ b't' ∷ b'y' ∷ []

-- What float8out and numeric_out write.
pub data RealText : List ℕ → Type 0 where
  digits : {text : List ℕ} → SignedText TokenType.integer text → RealText text
  point : {text : List ℕ} → SignedText TokenType.float text → RealText text
  not_a_number : {text : List ℕ} → text ≡ nan_text → RealText text
  infinity : {text : List ℕ} → text ≡ infinity_text → RealText text
  minus_infinity : {text : List ℕ} → text ≡ b'-' ∷ infinity_text → RealText text

-- A string that fits an entry, and is a C string: without NUL.
abbrev pub IsPlainString : List ℕ → Type 0
IsPlainString s = (length s < 2 ^ 28) × All (λ c. 0 < c) s

module _ (out_ops : OutputOps) (in_ops : InputOps) where
  -- Its text is that of a token of its type, and the input function reads the text back.
  abbrev pub IsReadableScalar : Scalar → Type 0
  IsReadableScalar Scalar.null = Unit
  IsReadableScalar (Scalar.string s) = IsPlainString s
  IsReadableScalar (Scalar.boolean b) = Unit
  IsReadableScalar (Scalar.integer n) =
      SignedText TokenType.integer (out_ops.int8out n)
      × (in_ops.scanint8 (out_ops.int8out n) ≡ ok n)
  IsReadableScalar (Scalar.float x) =
      RealText (out_ops.float8out x)
      × (in_ops.float8in_internal (scalar_text out_ops (Scalar.float x)) ≡ ok x)
  IsReadableScalar (Scalar.numeric d) =
      RealText (out_ops.numeric_out d) × (in_ops.numeric_in (out_ops.numeric_out d) ≡ ok d)
  IsReadableScalar (Scalar.inet i) =
      NumberText TokenType.inet (out_ops.inet_out i) × (in_ops.inet_in (out_ops.inet_out i) ≡ ok i)
  IsReadableScalar _ = ⊥

  abbrev mutual
    pub IsReadable : Value → Type 0
    IsReadable (Value.scalar s) = IsReadableScalar s
    IsReadable (Value.array raw vs) = AreReadable vs
    IsReadable (Value.object fs) = FieldsReadable fs
    IsReadable (Value.vector xs) = ⊥

    pub AreReadable : Values → Type 0
    AreReadable Values.no_values = Unit
    AreReadable (Values.value v vs) = IsReadable v × AreReadable vs

    pub FieldsReadable : Fields → Type 0
    FieldsReadable Fields.no_fields = Unit
    FieldsReadable (Fields.field k v fs) = IsPlainString k × IsReadable v × FieldsReadable fs

-- What is read of a vector is the array of its numbers.
unfoldable pub floats : List Float8 → Values
floats [] = Values.no_values
floats (x ∷ xs) = Values.value (Value.scalar (Scalar.float x)) (floats xs)

unfoldable mutual
  pub reread : Value → Value
  reread (Value.scalar s) = Value.scalar s
  reread (Value.array raw vs) = Value.array raw (reread_values vs)
  reread (Value.object fs) = Value.object (reread_fields fs)
  reread (Value.vector xs) = Value.array false (floats xs)

  pub reread_values : Values → Values
  reread_values Values.no_values = Values.no_values
  reread_values (Values.value v vs) = Values.value (reread v) (reread_values vs)

  pub reread_fields : Fields → Fields
  reread_fields Fields.no_fields = Fields.no_fields
  reread_fields (Fields.field k v fs) = Fields.field k (reread v) (reread_fields fs)

all_digits : (s : List ℕ) → All IsDigit s → only_digits s ≡ true
unfolding only_digits
all_digits [] h = refl
all_digits (c ∷ s) (digit, h) = rw (is_digit-IsDigit c digit, all_digits s h) refl

other_byte :
    (s : List ℕ) (c : ℕ) (t : List ℕ) → is_digit c ≡ false → only_digits (s ++ (c ∷ t)) ≡ false
unfolding only_digits
other_byte [] c t h = rw h refl
other_byte (d ∷ s) c t h = ground (arith, other_byte s c t h)

main_only_digits : (m : List ℕ) → MainDigits m → only_digits m ≡ true
unfolding only_digits in_range
main_only_digits [] h = absurd h
main_only_digits (c ∷ m) (inl (e, single)) = rw (e, single) refl
main_only_digits (c ∷ m) (inr (low, high, rest)) = all_digits (c ∷ m) ((omega arith, high), rest)

text_type_digits :
    {type : TokenType} {text : List ℕ}
    → NumberText type text
    → ((type ≡ TokenType.integer) × (only_digits text ≡ true)) ⊎ (only_digits text ≡ false)
unfolding is_digit in_range
text_type_digits (whole m main) = inl (refl, main_only_digits m main)
text_type_digits (decimal m d text main ds e) = inr (rw e (other_byte m b'.' d refl))
text_type_digits (scientific m f x d text main fraction (inl letter) signed e) =
    inr (rw (e, letter, ← append_assoc m f (b'e' ∷ d)) (other_byte (m ++ f) b'e' d refl))
text_type_digits (scientific m f x d text main fraction (inr letter) signed e) =
    inr (rw (e, letter, ← append_assoc m f (b'E' ∷ d)) (other_byte (m ++ f) b'E' d refl))
text_type_digits (dotted m d a mask text main ds rest masked e) =
    inr (rw e (other_byte m b'.' _ refl))

float_digits : {text : List ℕ} → NumberText TokenType.float text → only_digits text ≡ false
float_digits h = elim (text_type_digits h) [ inl (wrong, all) ↦ cc | inr some_other ↦ some_other ]

integer_digits : {text : List ℕ} → NumberText TokenType.integer text → only_digits text ≡ true
integer_digits (whole m main) = main_only_digits m main

-- A number does not begin with a minus sign.
no_minus : (text : List ℕ) → DigitFirst text → is_decimal_needed text ≡ only_digits text
unfolding is_decimal_needed only_digits
no_minus [] first = absurd first
no_minus (c ∷ s) first = ground arith

pub decimal_needed-integer :
    {text : List ℕ} → SignedText TokenType.integer text → is_decimal_needed text ≡ true
unfolding is_decimal_needed
decimal_needed-integer (plus number) =
    no_minus _ (NumberText-DigitFirst number) ∙ integer_digits number
decimal_needed-integer (minus number) = integer_digits number

pub decimal_needed-float :
    {text : List ℕ} → SignedText TokenType.float text → is_decimal_needed text ≡ false
unfolding is_decimal_needed
decimal_needed-float (plus number) = no_minus _ (NumberText-DigitFirst number) ∙ float_digits number
decimal_needed-float (minus number) = float_digits number

with_decimal :
    {text : List ℕ}
    → NumberText TokenType.integer text
    → NumberText TokenType.float (text ++ (b'.' ∷ b'0' ∷ []))
with_decimal (whole m main) =
    decimal m (b'0' ∷ []) (m ++ (b'.' ∷ b'0' ∷ [])) main ((omega arith, omega arith), tt) refl

pub signed_with_decimal :
    {text : List ℕ}
    → SignedText TokenType.integer text
    → SignedText TokenType.float (text ++ (b'.' ∷ b'0' ∷ []))
signed_with_decimal (plus number) = plus (with_decimal number)
signed_with_decimal (minus number) = minus (with_decimal number)
