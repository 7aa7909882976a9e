-- ===== src/Text/Tests.antt =====
-- Texts that are read and written.
use post_graph.Prelude.{
  ◌≢◌, ◌↔◌, ◌⊎◌, Returns, Anything, ℕ, ◌+◌, ◌-◌, ◌<◌, ◌≤◌, ◌≡◌, refl, true, false, List, [], ◌∷◌,
  ◌++◌, ◌&&◌, inr, map, length, Outcome, ok, error, ◌>>=◌, Report, if◌then◌else◌, leb, arith,
}
use Prim.Native.String.{String}
use Prim.Native.Char.{code}
use post_graph.Prelude.Int.{ℤ, pos, pos_part}
use post_graph.Gtype.Scalar.{Scalar, Float8, number}
use post_graph.Gtype.Value.{Value, Values, Fields}
use post_graph.Gtype.Iterator.{Token}
use post_graph.Gtype.Iterator.Preorder.{preorder, preorder_values, preorder_fields, vector_events}
use post_graph.Gtype.Builder.{Limits}
use post_graph.Gtype.Builder.Loop.{IsBuilt}
use post_graph.Text.Context.{TokenType, Encoding, same_bytes}
use post_graph.Text.Numbers.{is_valid_gtype_number}
use post_graph.Text.Numbers.Valid.{is_valid_gtype_number-SignedText}
use post_graph.Text.Numbers.Grammar.{dotted, whole}
use post_graph.Text.Input.{InputOps, gtype_from_cstring}
use post_graph.Text.Input.Ends.{IsEnding, gtype_from_cstring-ends}
use post_graph.Text.Output.{OutputOps, gtype_to_cstring_worker}
use post_graph.Text.Output.Shown.{show_top}
use post_graph.Text.Output.Printed.{plain, gtype_to_cstring_worker-show_top}
use post_graph.Gtype.Object.{length_compare_gtype_string_value, memcmp}
use post_graph.Text.Readable.{IsPlainString, digits, IsReadable, floats, reread}
use post_graph.Text.Numbers.Grammar.{SignedText, plus}
use post_graph.Text.RoundTrip.{container, gtype_from_cstring-to_cstring}

abbrev codes : String → List ℕ
codes String.[] = []
codes (String.◌∷◌ c s) = code c ∷ codes s

abbrev to_lower : ℕ → ℕ
to_lower c = if leb b'A' c && leb c b'Z' then c + 32 else c

abbrev ascii : Encoding
ascii = record {
  pg_strcasecmp = λ a b. same_bytes (map to_lower a) (map to_lower b);
  utf8 = true;
  unicode_to_utf8 = λ ch. ch ∷ [];
}

abbrev limits : Limits
limits = record {
  max_elems = 1000;
  max_pairs = 1000;
  unset_size = 4;
  qsort_arg = λ pairs. (pairs, false);
}

-- One digit.
abbrev digit_in : List ℕ → Outcome ℤ
digit_in (c ∷ []) = ok (pos (c - b'0'))
digit_in s = error Report.conversion

abbrev input : InputOps
input = record {
  scanint8 = digit_in;
  float8in_internal = λ s. ok (number (pos 1));
  numeric_in = λ s. ok (length s);
  clock_in = λ t. digit_in;
  timetz_in = λ s. ok 0;
  interval_in = λ s. ok 0;
  inet_in = λ s. ok (record { family = 2; bits = 32; addr = 0 });
  cidr_in = λ s. ok (record { family = 2; bits = 32; addr = 0 });
  macaddr_in = λ s. ok 6;
  macaddr8_in = λ s. ok 8;
}

-- One digit, and a float that is always 1.
abbrev output : OutputOps
output = record {
  numeric_out = λ d. codes "7";
  int8out = λ n. (b'0' + pos_part n) ∷ [];
  float8out = λ x. codes "1";
  clock_out = λ t n. [];
  timetz_out = λ d. [];
  interval_out = λ d. [];
  inet_out = λ i. codes "10.0.0.1";
  cidr_out = λ i. [];
  range_out = λ t r. [];
  tsqueryout = λ q. [];
  tsvectorout = λ v. [];
  geometry_out = λ d. [];
  other_out = λ t d. [];
}

abbrev one : Float8
one = number (pos 1)

abbrev stored : Value
stored = Value.object (
    Fields.field (codes "a") (Value.array false items) (
      Fields.field (codes "v") (Value.vector (one ∷ []))
        (Fields.field (codes "z") (Value.scalar Scalar.null) Fields.no_fields)))
  where
    items : Values
    items = Values.value (Value.scalar (Scalar.integer (pos 4))) (
        Values.value (Value.scalar (Scalar.string (codes "x\n\"")))
          (Values.value (Value.scalar (Scalar.boolean true)) Values.no_values))

stored-IsBuilt : IsBuilt limits (reread stored)
unfolding reread floats length_compare_gtype_string_value memcmp
stored-IsBuilt = (
  omega arith,
  (refl, (refl, tt)),
  ((refl, omega arith, (tt, (tt, (tt, tt)))), ((refl, omega arith, (tt, tt)), (tt, tt))),
)

digit_text : (c : ℕ) → b'1' ≤ c → c ≤ b'9' → SignedText TokenType.integer (c ∷ [])
digit_text c low high = plus (whole (c ∷ []) (inr (low, high, tt)))

byte_text : (c : ℕ) → 0 < c → IsPlainString (c ∷ [])
byte_text c some_byte = (omega arith, (some_byte, tt))

stored-IsReadable : IsReadable output input (reread stored)
unfolding reread floats
stored-IsReadable = (
  byte_text b'a' (omega arith),
  (
    (digit_text b'4' (omega arith) (omega arith), refl),
    ((omega arith, (omega arith, (omega arith, (omega arith, tt)))), (tt, tt)),
  ),
  (
    byte_text b'v' (omega arith),
    ((digits (digit_text b'1' (omega arith) (omega arith)), refl), tt),
    (byte_text b'z' (omega arith), tt, tt),
  ),
)

same_bytes_refl : (s : List ℕ) → same_bytes s s ≡ true
same_bytes_refl [] = refl
same_bytes_refl (c ∷ s) = ground (arith, same_bytes_refl s)

stored_tokens : length (preorder Token.wgt_elem stored) < 20
unfolding preorder preorder_values preorder_fields vector_events
stored_tokens = omega arith

gtype_from_cstring-to_cstring_example :
    (gtype_to_cstring_worker output true 20 [] stored >>= gtype_from_cstring limits ascii input 60)
    ≡ ok (reread stored)
gtype_from_cstring-to_cstring_example =
    gtype_from_cstring-to_cstring ascii limits input (λ ch h. refl)
      (λ s. same_bytes_refl (map to_lower s)) (λ ps up. refl) output true 20 60
      (container stored refl stored-IsBuilt stored-IsReadable) stored_tokens
      (omega (arith, stored_tokens))

gtype_to_cstring_worker-show_top_example :
    gtype_to_cstring_worker output true 20 (codes "= ") stored
    ≡ ok (codes "= " ++ show_top output true stored)
gtype_to_cstring_worker-show_top_example =
    gtype_to_cstring_worker-show_top output true 20 (codes "= ")
      (plain stored refl ((refl, (tt, (tt, (tt, tt)))), (tt, (tt, tt)))) stored_tokens

Returns-digit_in : (s : List ℕ) → Returns Anything (digit_in s)
Returns-digit_in [] = tt
Returns-digit_in (c ∷ []) = tt
Returns-digit_in (c ∷ d ∷ s) = tt

input-IsEnding : IsEnding input
input-IsEnding = record {
  scanint8 = Returns-digit_in;
  float8in_internal = λ s. tt;
  numeric_in = λ s. tt;
  clock_in = λ type. Returns-digit_in;
  timetz_in = λ s. tt;
  interval_in = λ s. tt;
  inet_in = λ s. tt;
  cidr_in = λ s. tt;
  macaddr_in = λ s. tt;
  macaddr8_in = λ s. tt;
}

-- The array is not closed.
gtype_from_cstring-ends_example :
    gtype_from_cstring limits ascii input 81 (codes "[1, {\"b\": null}, 2::") ≢ Outcome.out_of_fuel
gtype_from_cstring-ends_example =
    gtype_from_cstring-ends limits ascii input input-IsEnding 81 (codes "[1, {\"b\": null}, 2::")
      (omega arith)

is_valid_gtype_number-SignedText_example : (is_valid_gtype_number (codes "1.2.3...") ≡ true) ↔ (
    SignedText TokenType.integer (codes "1.2.3...")
    ⊎ (SignedText TokenType.float (codes "1.2.3...")
        ⊎ SignedText TokenType.inet (codes "1.2.3...")))
is_valid_gtype_number-SignedText_example = is_valid_gtype_number-SignedText (codes "1.2.3...")

-- The dotted text is accepted.
dots_accepted : is_valid_gtype_number (codes "1.2.3...") ≡ true
dots_accepted = (is_valid_gtype_number-SignedText (codes "1.2.3...")).1 (
    inr (
      inr (
        plus (
          dotted (b'1' ∷ []) (b'2' ∷ []) (codes "3...") [] (codes "1.2.3...")
            (inr (omega arith, omega arith, tt)) ((omega arith, omega arith), tt)
            ((omega arith, omega arith), (inr refl, (inr refl, (inr refl, tt)))) tt refl))))
