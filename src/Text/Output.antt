-- ===== src/Text/Output.antt =====
-- gtype_put_escaped_value, escape_gtype, is_decimal_needed, add_indent and gtype_to_cstring_worker of
-- gtype.c: the text of a container. `out` is what the string buffer holds, and the output functions of
-- PostgreSQL and PostGIS are the fields of `OutputOps`.
pub mod Shown
pub mod Events
pub mod Steps
pub mod Printed
use post_graph.Prelude.{
  ℕ, zero, suc, ◌+◌, ◌-◌, ◌*◌, ◌/◌, ◌%◌, Bool, true, false, not, List, [], ◌∷◌, ◌++◌, ◌==◌, ◌&&◌,
  ltb, leb, if◌then◌else◌, replicate, Option, none, some, Report, Outcome, ok, error, ◌>>=◌,
  or_crash,
}
use post_graph.Prelude.Int.{ℤ}
use post_graph.Gtype.Scalar.{
  Scalar, Float8, Inet, Datum, ClockType, OtherType, RangeTag, Range, TsQuery, TsVector,
}
use post_graph.Gtype.Value.{Value}
use post_graph.Gtype.Iterator.{
  Token, Iterator, Seen, part, array_head, gtype_iterator_init, gtype_iterator_next,
}
use post_graph.Gtype.Builder.{token_done}
use post_graph.Text.Context.{is_digit}
use post_graph.Text.Strings.{quote, backslash}

pub record OutputOps : Type 0 where
  pub numeric_out : Datum → List ℕ
  pub int8out : ℤ → List ℕ
  pub float8out : Float8 → List ℕ
  pub clock_out : ClockType → ℤ → List ℕ
  pub timetz_out : Datum → List ℕ
  pub interval_out : Datum → List ℕ
  pub inet_out : Inet → List ℕ
  pub cidr_out : Inet → List ℕ
  pub range_out : RangeTag → Range → List ℕ
  pub tsqueryout : TsQuery → List ℕ
  pub tsvectorout : TsVector → List ℕ
  pub geometry_out : Datum → List ℕ
  pub other_out : OtherType → Datum → List ℕ

-- One digit of `%x`.
unfoldable pub hex_of : ℕ → ℕ
hex_of d = if ltb d 10 then b'0' + d else b'a' + (d - 10)

-- What one byte of a string adds to the literal.
unfoldable pub escape_byte : ℕ → List ℕ
unfolding hex_of
escape_byte c =
    if c == 8
    then backslash ∷ b'b' ∷ []
    else if c == 12
    then backslash ∷ b'f' ∷ []
    else if c == 10
    then backslash ∷ b'n' ∷ []
    else if c == 13
    then backslash ∷ b'r' ∷ []
    else if c == 9
    then backslash ∷ b't' ∷ []
    else if c == quote
    then backslash ∷ quote ∷ []
    else if c == backslash
    then backslash ∷ backslash ∷ []
    else if ltb c 32
    then backslash
      ∷ b'u'
      ∷ hex_of (c / 4096)
      ∷ hex_of (c / 256 % 16)
      ∷ hex_of (c / 16 % 16)
      ∷ hex_of (c % 16)
      ∷ []
    else c ∷ []

-- The loop up to the terminating NUL.
unfoldable pub escape_loop : List ℕ → List ℕ
escape_loop [] = []
escape_loop (c ∷ str) = let later = escape_loop str in if c == 0 then [] else escape_byte c ++ later

unfoldable pub escape_gtype : List ℕ → List ℕ
escape_gtype str = quote ∷ (escape_loop str ++ (quote ∷ []))

unfoldable pub only_digits : List ℕ → Bool
unfolding is_digit
only_digits [] = true
only_digits (c ∷ s) = is_digit c && only_digits s

unfoldable pub is_decimal_needed : List ℕ → Bool
unfolding only_digits
is_decimal_needed [] = true
is_decimal_needed (c ∷ s) = if c == b'-' then only_digits s else only_digits (c ∷ s)

module _ (ops : OutputOps) where
  unfoldable pub scalar_text : Scalar → List ℕ
  scalar_text Scalar.null = b'n' ∷ b'u' ∷ b'l' ∷ b'l' ∷ []
  scalar_text (Scalar.string s) = escape_gtype s
  scalar_text (Scalar.numeric d) =
      ops.numeric_out d ++ (b':' ∷ b':' ∷ b'n' ∷ b'u' ∷ b'm' ∷ b'e' ∷ b'r' ∷ b'i' ∷ b'c' ∷ [])
  scalar_text (Scalar.integer n) = ops.int8out n
  scalar_text (Scalar.float x) =
      ops.float8out x ++ (if is_decimal_needed (ops.float8out x) then b'.' ∷ b'0' ∷ [] else [])
  scalar_text (Scalar.clock t n) = ops.clock_out t n
  scalar_text (Scalar.timetz d) = ops.timetz_out d
  scalar_text (Scalar.interval d) = ops.interval_out d
  scalar_text (Scalar.inet i) = ops.inet_out i
  scalar_text (Scalar.cidr i) = ops.cidr_out i
  scalar_text (Scalar.range t r) = ops.range_out t r
  scalar_text (Scalar.tsquery q) = ops.tsqueryout q
  scalar_text (Scalar.tsvector v) = ops.tsvectorout v
  scalar_text (Scalar.gserialized d) = ops.geometry_out d
  scalar_text (Scalar.other t d) = ops.other_out t d
  scalar_text (Scalar.boolean true) = b't' ∷ b'r' ∷ b'u' ∷ b'e' ∷ []
  scalar_text (Scalar.boolean false) = b'f' ∷ b'a' ∷ b'l' ∷ b's' ∷ b'e' ∷ []

  -- A value that is not a scalar is reported.
  unfoldable pub gtype_put_escaped_value : (out : List ℕ) → Option Seen → Outcome (List ℕ)
  gtype_put_escaped_value out (some (part (Value.scalar s))) = ok (out ++ scalar_text s)
  gtype_put_escaped_value out (some _) = error Report.unknown_scalar
  gtype_put_escaped_value out none = Outcome.crash

abbrev pub spaces : ℕ → List ℕ
spaces n = replicate n b' '

unfoldable pub add_indent : (out : List ℕ) → (indent : Bool) → (level : ℕ) → List ℕ
add_indent out indent level = if indent then out ++ (b'\n' ∷ spaces (level * 4)) else out

-- The variables of the loop of gtype_to_cstring_worker. `level` never falls below 0.
pub record Printer : Type 0 where
  pub out : List ℕ
  pub first : Bool
  pub use_indent : Bool
  pub raw_scalar : Bool
  pub last_was_key : Bool
  pub level : ℕ

-- An event that the loop comes to without a call of the iterator, when redo_switch is set.
abbrev pub Event : Type 0
Event = Token × Option Seen

module _ (ops : OutputOps) (indent : Bool) where
  -- `if (!first) appendBinaryStringInfo(out, ", ", ispaces)`
  unfoldable pub separated : Printer → List ℕ
  separated p =
      if p.first
      then p.out
      else if indent
      then p.out ++ (b',' ∷ [])
      else p.out ++ (b',' ∷ b' ' ∷ [])

  -- A container begins with a bracket.
  unfoldable pub open_container : Printer → (bracket : ℕ) → Printer
  open_container p bracket = record p {
    out = add_indent (separated p) (p.use_indent && not p.last_was_key) p.level ++ (bracket ∷ []);
    first = true;
    level = p.level + 1;
  }

  -- A pseudo array has no bracket.
  unfoldable pub open_array : Printer → (raw_scalar : Bool) → Printer
  open_array p false = open_container p b'['
  open_array p true = record p {
    out = separated p;
    first = true;
    raw_scalar = true;
    level = p.level + 1;
  }

  unfoldable pub close_container : Printer → (bracket : ℕ) → Printer
  close_container p bracket = record p {
    out = add_indent p.out p.use_indent (p.level - 1) ++ (bracket ∷ []);
    first = false;
    level = p.level - 1;
  }

  unfoldable pub close_array : Printer → (raw_scalar : Bool) → Printer
  close_array p false = close_container p b']'
  close_array p true = record p { first = false; level = p.level - 1 }

  -- An element, or a number of a vector.
  unfoldable pub put_element : Printer → Option Seen → Outcome Printer
  put_element p v =
      gtype_put_escaped_value ops
        (if p.raw_scalar then separated p else add_indent (separated p) p.use_indent p.level) v
      >>= (λ out. ok (record p { out = out; first = false }))

  unfoldable pub put_key : Printer → Option Seen → Outcome Printer
  put_key p v =
      gtype_put_escaped_value ops (add_indent (separated p) p.use_indent p.level) v
      >>= (λ out. ok (record p { out = out ++ (b':' ∷ b' ' ∷ []); first = true }))

  -- The event behind a key: a scalar is written, and a container is left to the next round.
  unfoldable pub put_value : Printer → Event → Outcome (Printer × Option Event)
  put_value p (Token.wgt_value, v) =
      gtype_put_escaped_value ops p.out v
      >>= (λ out. ok (record p { out = out; first = false }, none))
  put_value p (Token.wgt_begin_object, v) = ok (p, some (Token.wgt_begin_object, v))
  put_value p (Token.wgt_begin_array, v) = ok (p, some (Token.wgt_begin_array, v))
  put_value p (Token.wgt_begin_vector, v) = ok (p, some (Token.wgt_begin_vector, v))
  put_value p (_, v) = Outcome.crash

  -- The switch, for an event that is not a key.
  unfoldable pub put_event : Printer → Token → Option Seen → Outcome Printer
  put_event p Token.wgt_begin_array (some (array_head n raw)) = ok (open_array p raw)
  put_event p Token.wgt_begin_array v = Outcome.crash
  put_event p Token.wgt_begin_vector v = ok (open_container p b'[')
  put_event p Token.wgt_begin_object v = ok (open_container p b'{')
  put_event p Token.wgt_vector_value v = put_element p v
  put_event p Token.wgt_elem v = put_element p v
  put_event p Token.wgt_end_array v = ok (close_array p p.raw_scalar)
  put_event p Token.wgt_end_vector v = ok (close_container p b']')
  put_event p Token.wgt_end_object v = ok (close_container p b'}')
  put_event p _ v = error Report.unknown_scalar

  -- `use_indent = indent; last_was_key = redo_switch;`
  abbrev pub settled : Printer → (redo_switch : Bool) → Printer
  settled p redo_switch = record p { use_indent = indent; last_was_key = redo_switch }

  abbrev pub Round : Type 0
  Round = Printer × Option Event × List Iterator

  -- The end of the round of a key.
  abbrev pub after_key : List Iterator → Printer × Option Event → Outcome Round
  after_key it (p, none) = ok (settled p false, none, it)
  after_key it (p, some event) = ok (settled p true, some event, it)

  -- One round of the loop for an event that the iterator gave, or that the round before left.
  unfoldable pub round : Printer → Token → Option Seen → List Iterator → Outcome Round
  round p Token.wgt_key v it = put_key p v >>= (λ keyed.
      gtype_iterator_next it false
      >>= (λ next. put_value keyed (next.0, next.1) >>= after_key next.2))
  round p token v it = put_event p token v >>= (λ p'. ok (settled p' false, none, it))

  -- `Assert(level == 0)`
  unfoldable pub finished : Printer → Outcome (List ℕ)
  finished p = if p.level == 0 then ok p.out else Outcome.crash

  unfoldable pub print_loop :
      (fuel : ℕ) → (redo : Option Event) → List Iterator → Printer → Outcome (List ℕ)
  print_loop zero redo it p = Outcome.out_of_fuel
  print_loop (suc fuel) (some event) it p =
      round p event.0 event.1 it >>= (λ next. print_loop fuel next.1 next.2 next.0)
  print_loop (suc fuel) none it p = gtype_iterator_next it false >>= (λ next.
      let more = round p next.0 next.1 next.2 >>= (λ left. print_loop fuel left.1 left.2 left.0) in
      if token_done next.0 then finished p else more)

  -- The text behind what the buffer holds.
  unfoldable pub gtype_to_cstring_worker : (fuel : ℕ) → (out : List ℕ) → Value → Outcome (List ℕ)
  gtype_to_cstring_worker fuel out container = gtype_iterator_init container >>= (λ it.
      print_loop fuel none it (record {
        out = out;
        first = true;
        use_indent = false;
        raw_scalar = false;
        last_was_key = false;
        level = 0;
      }))

module _ (ops : OutputOps) where
  unfoldable pub gtype_to_cstring : (fuel : ℕ) → (out : List ℕ) → Value → Outcome (List ℕ)
  gtype_to_cstring fuel = gtype_to_cstring_worker ops false fuel

  unfoldable pub gtype_to_cstring_indent : (fuel : ℕ) → (out : List ℕ) → Value → Outcome (List ℕ)
  gtype_to_cstring_indent fuel = gtype_to_cstring_worker ops true fuel
