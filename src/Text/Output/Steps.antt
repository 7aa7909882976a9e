-- ===== src/Text/Output/Steps.antt =====
-- Single events of gtype_to_cstring and what they add to the buffer.
use post_graph.Prelude.{
  ℕ, ◌+◌, ◌-◌, ◌*◌, ◌≡◌, refl, sym, ap, ◌∙◌, Bool, true, false, ◌&&◌, List, [], ◌∷◌, ◌++◌, none,
  some, Outcome, arith, if◌then◌else◌,
}
use mathlib.Core.List.{append_assoc, append-nil}
use post_graph.Gtype.Scalar.{Scalar, Float8}
use post_graph.Gtype.Value.{Value, is_a_gtype_scalar}
use post_graph.Gtype.Iterator.{Token, part}
use post_graph.Gtype.Iterator.Preorder.{preorder}
use post_graph.Text.Output.{
  OutputOps, Printer, Event, gtype_put_escaped_value, add_indent, separated, open_container,
  close_container, close_array, put_element, put_key, put_value, put_event, settled, spaces,
  escape_gtype, scalar_text,
}
use post_graph.Text.Output.Shown.{newline, separator}
use post_graph.Text.Output.Events.{print_all, put_left}

module _ (ops : OutputOps) (indent : Bool) where
  -- The variables of the loop behind the first round, within a container.
  abbrev pub at : (out : List ℕ) → (first : Bool) → (level : ℕ) → Printer
  at out first level = record {
    out = out;
    first = first;
    use_indent = indent;
    raw_scalar = false;
    last_was_key = false;
    level = level;
  }

  abbrev pub run : List Event → Printer → Outcome Printer
  run = print_all ops indent

  abbrev pub sep : Bool → List ℕ
  sep = separator ops indent

  abbrev pub nl : ℕ → List ℕ
  nl = newline ops indent

  add_indent-newline : (out : List ℕ) (level : ℕ) → add_indent out indent level ≡ out ++ nl level
  unfolding add_indent newline
  add_indent-newline out level = by_indent indent
    where
      by_indent :
          (b : Bool)
          → (if b then out ++ (b'\n' ∷ spaces (level * 4)) else out)
            ≡ out ++ (if b then b'\n' ∷ spaces (level * 4) else [])
      by_indent true = refl
      by_indent false = sym (append-nil out)

  separated-separator :
      (out : List ℕ) (first : Bool) (level : ℕ)
      → separated ops indent (at out first level) ≡ out ++ sep first
  unfolding separated separator
  separated-separator out true level = sym (append-nil out)
  separated-separator out false level = by_indent indent
    where
      by_indent :
          (b : Bool)
          → (if b then out ++ (b',' ∷ []) else out ++ (b',' ∷ b' ' ∷ []))
            ≡ out ++ (b',' ∷ (if b then [] else b' ' ∷ []))
      by_indent true = refl
      by_indent false = refl

  -- Before a part.
  abbrev pub lead : (out : List ℕ) → (first : Bool) → (level : ℕ) → List ℕ
  lead out first level = out ++ (sep first ++ nl level)

  before_part :
      (out : List ℕ) (first : Bool) (level : ℕ)
      → add_indent (separated ops indent (at out first level)) indent level ≡ lead out first level
  before_part out first level =
      rw (separated-separator out first level)
        (add_indent-newline (out ++ sep first) level ∙ append_assoc out (sep first) (nl level))

  close_round :
      (out : List ℕ) (first : Bool) (level bracket : ℕ)
      → settled ops indent (close_container ops indent (at out first (level + 1)) bracket) false
        ≡ at (out ++ (nl level ++ (bracket ∷ []))) false level
  unfolding close_container
  close_round out first level bracket =
      let back : level + 1 - 1 ≡ level = omega arith in
      rw (back, add_indent-newline out level)
        (ap (λ o. at o false level) (append_assoc out (nl level) (bracket ∷ [])))

  -- Where a container that is no pseudo array begins: before its bracket stands `start`.
  abbrev pub Begins : Printer → List ℕ → ℕ → Type 0
  Begins p start level =
      (bracket : ℕ)
      → settled ops indent (open_container ops indent p bracket) false
        ≡ at (start ++ (bracket ∷ [])) true (level + 1)

  pub Begins-element :
      (out : List ℕ) (first : Bool) (level : ℕ)
      → Begins (at out first level) (lead out first level) level
  unfolding open_container
  Begins-element out first level bracket =
      let all : (indent && true) ≡ indent = and_true indent in
      rw (all, before_part out first level) refl
    where
      and_true : (b : Bool) → (b && true) ≡ b
      and_true true = refl
      and_true false = refl

  -- Behind a key.
  pub Begins-value :
      (out : List ℕ) (level : ℕ)
      → Begins (record (at out true level) { last_was_key = true }) out level
  unfolding open_container add_indent separated
  Begins-value out level bracket =
      let no_indent : (indent && false) ≡ false = and_false indent in rw no_indent refl
    where
      and_false : (b : Bool) → (b && false) ≡ false
      and_false true = refl
      and_false false = refl

  pub bracket_text :
      (start parts rest : List ℕ) (bracket : ℕ)
      → ((start ++ (bracket ∷ [])) ++ parts) ++ rest ≡ start ++ (bracket ∷ (parts ++ rest))
  bracket_text start parts rest bracket =
      append_assoc (start ++ (bracket ∷ [])) parts rest
      ∙ append_assoc start (bracket ∷ []) (parts ++ rest)

  pub end_array :
      (out : List ℕ) (first : Bool) (level : ℕ) (tail : List Event)
      → run ((Token.wgt_end_array, none) ∷ tail) (at out first (level + 1))
        ≡ run tail (at (out ++ (nl level ++ (b']' ∷ []))) false level)
  unfolding print_all put_event close_array
  end_array out first level tail = ap (run tail) (close_round out first level b']')

  pub end_vector :
      (out : List ℕ) (first : Bool) (level : ℕ) (tail : List Event)
      → run ((Token.wgt_end_vector, none) ∷ tail) (at out first (level + 1))
        ≡ run tail (at (out ++ (nl level ++ (b']' ∷ []))) false level)
  unfolding print_all put_event
  end_vector out first level tail = ap (run tail) (close_round out first level b']')

  pub end_object :
      (out : List ℕ) (first : Bool) (level : ℕ) (tail : List Event)
      → run ((Token.wgt_end_object, none) ∷ tail) (at out first (level + 1))
        ≡ run tail (at (out ++ (nl level ++ (b'}' ∷ []))) false level)
  unfolding print_all put_event
  end_object out first level tail = ap (run tail) (close_round out first level b'}')

  pub put_scalar :
      (out : List ℕ) (first : Bool) (level : ℕ) (s : Scalar) (tail : List Event)
      → run ((Token.wgt_elem, some (part (Value.scalar s))) ∷ tail) (at out first level)
        ≡ run tail (at (lead out first level ++ scalar_text ops s) false level)
  unfolding print_all put_event put_element gtype_put_escaped_value
  put_scalar out first level s tail = rw (before_part out first level) refl

  pub put_number :
      (out : List ℕ) (first : Bool) (level : ℕ) (x : Float8) (tail : List Event)
      → run
          ((Token.wgt_vector_value, some (part (Value.scalar (Scalar.float x)))) ∷ tail)
          (at out first level)
        ≡ run tail (at (lead out first level ++ scalar_text ops (Scalar.float x)) false level)
  unfolding print_all put_event put_element gtype_put_escaped_value
  put_number out first level x tail = rw (before_part out first level) refl

  -- What the buffer holds behind a key.
  abbrev pub keyed : (out : List ℕ) → (first : Bool) → (level : ℕ) → (key : List ℕ) → List ℕ
  keyed out first level key = (lead out first level ++ escape_gtype key) ++ (b':' ∷ b' ' ∷ [])

  pub key_scalar :
      (out : List ℕ) (first : Bool) (level : ℕ) (key : List ℕ) (s : Scalar) (tail : List Event)
      → run
          ((Token.wgt_key, some (part (Value.scalar (Scalar.string key))))
            ∷ (Token.wgt_value, some (part (Value.scalar s)))
            ∷ tail)
          (at out first level)
        ≡ run tail (at (keyed out first level key ++ scalar_text ops s) false level)
  unfolding print_all put_left put_key put_value gtype_put_escaped_value scalar_text
  key_scalar out first level key s tail = rw (before_part out first level) refl

  pub key_container :
      (out : List ℕ) (first : Bool) (level : ℕ) (key : List ℕ) (v : Value) (tail : List Event)
      → is_a_gtype_scalar v ≡ false
      → run
          ((Token.wgt_key, some (part (Value.scalar (Scalar.string key))))
            ∷ (preorder Token.wgt_value v ++ tail))
          (at out first level)
        ≡ run
            (preorder Token.wgt_value v ++ tail)
            (record (at (keyed out first level key) true level) { last_was_key = true })
  unfolding print_all put_left put_key put_value put_event gtype_put_escaped_value scalar_text
      preorder
  key_container out first level key (Value.scalar s) tail h = cc
  key_container out first level key (Value.array raw vs) tail h =
      rw (before_part out first level) refl
  key_container out first level key _ tail h = rw (before_part out first level) refl
