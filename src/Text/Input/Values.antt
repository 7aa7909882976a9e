-- ===== src/Text/Input/Values.antt =====
-- About the parser with the actions of gtype_in on the text that Shown describes.
use post_graph.Prelude.{
  ℕ, zero, suc, ◌+◌, ◌≤◌, ◌<◌, ◌≡◌, refl, ap, ◌∙◌, Bool, true, false, List, [], ◌∷◌, ◌++◌, length,
  Option, none, some, ok, arith,
}
use mathlib.Core.List.{append_assoc}
use post_graph.Gtype.Object.{uniqueify_gtype_object}
use post_graph.Gtype.Scalar.{Scalar}
use post_graph.Gtype.Value.{Value, Values, Fields, elements, keys}
use post_graph.Gtype.Builder.{array, object, ParseState, Limits, finish, finish_object, pop_state}
use post_graph.Gtype.Builder.Loop.{IsBuilt, AreBuilt, FieldsBuilt}
use post_graph.Gtype.Builder.Steps.{
  numbered, KeepsSorted, element_room, values-elements, fields-numbered, pair_keys-numbered,
  keep_sorted,
}
use post_graph.Text.Context.{TokenType, Encoding}
use post_graph.Text.Strings.Escaped.{AsciiAlike}
use post_graph.Text.Lexer.Tokens.{
  context, Lexed, Plain-array_end, Plain-object_end, Plain-array_start, Plain-object_start,
  Lexed-escape_gtype,
}
use post_graph.Text.Lexer.Words.{SameText}
use post_graph.Text.Parser.{object_fields, array_elements}
use post_graph.Text.Input.{InputOps}
use post_graph.Text.Input.Scalars.{Follows, actions, Reads-scalar}
use post_graph.Text.Input.Places.{place, place_element, Lexed-newline}
use post_graph.Text.Input.Parts.{
  cost, cost_values, cost_fields, first_element, Parses, Parses-scalar, element_parsed,
  array_parsed, object_parsed,
}
use post_graph.Text.Output.{OutputOps, scalar_text}
use post_graph.Text.Output.Shown.{separator, show, show_values, show_fields}
use post_graph.Text.Readable.{IsPlainString, IsReadable, AreReadable, FieldsReadable}
use post_graph.Text.Input.Loops.{
  nl, text_values, text_fields, show_values-append, show_fields-append, follows_values,
  ElementsRead, ValueRead, FieldsRead, no_elements, more_elements, no_fields, more_fields,
  field_then,
}

module _ (enc : Encoding) (limits : Limits) (in_ops : InputOps) (alike : AsciiAlike enc)
    (same : SameText enc) (keeps : KeepsSorted limits) (ops : OutputOps) (indent : Bool) where
  abbrev ReadValue : Value → Type 0
  ReadValue = ValueRead enc limits in_ops alike same keeps ops indent

  abbrev ReadElements : Values → Type 0
  ReadElements = ElementsRead enc limits in_ops alike same keeps ops indent

  abbrev ReadFields : Fields → Type 0
  ReadFields = FieldsRead enc limits in_ops alike same keeps ops indent

  -- The elements of an array with the bracket behind them, as array_elements reads them.
  record ArrayBody (vs : Values) (level : ℕ) (rest : List ℕ) (fuel : ℕ) : Type 0 where
    token_type : TokenType
    token_start : Option (List ℕ)
    terminator : List ℕ
    kept : List ℕ → List ℕ
    lexed :
        Lexed enc
          (text_values ops indent true (level + 1) vs (nl ops indent level ++ (b']' ∷ rest)))
          token_type
          token_start
          terminator
          kept
    run :
        (k : List ℕ) (p : List ParseState)
        → (k' : List ℕ) × (st' : ParseState) × (res' : Option Value) × (array_elements enc
              (actions enc limits in_ops)
              fuel
              (context token_start token_type terminator (kept k))
              (none, record { size = 4; capacity = 4; cont_val = array false [] } ∷ p)
            ≡ ok (context (some (b']' ∷ rest)) TokenType.array_end rest k', (res', st' ∷ p)))
          × (st'.cont_val ≡ array false (elements vs))

  empty_body :
      (level : ℕ) (rest : List ℕ) (fuel : ℕ) → ArrayBody Values.no_values level rest (suc fuel)
  unfolding text_values array_elements
  empty_body level rest fuel = record {
    token_type = TokenType.array_end;
    token_start = some (b']' ∷ rest);
    terminator = rest;
    kept = λ k. k;
    lexed = Lexed-newline enc ops indent level (b']' ∷ rest) (Plain-array_end enc rest);
    run =
        λ k p. (k, record { size = 4; capacity = 4; cont_val = array false [] }, none, refl, refl);
  }

  full_body :
      (v : Value) (vs : Values)
      → ReadValue v
      → ReadElements vs
      → (level : ℕ) (rest : List ℕ) (fuel : ℕ) → cost v + cost_values vs ≤ fuel
      → suc (length (elements vs)) ≤ limits.max_elems
      → ArrayBody (Values.value v vs) level rest (suc (suc fuel))
  unfolding text_values separator
  full_body v vs read later level rest fuel enough fit =
      let p =
        read (level + 1) _ (follows_values ops indent enc vs level rest) fuel
          (omega (arith, enough)) in
      let st0 : ParseState = record { size = 4; capacity = 4; cont_val = array false [] } in
      let (st1, appended, holds) =
        element_room limits st0 false [] v (refl, (omega arith, omega arith, omega arith))
          (omega (arith, fit)) in
      record {
        token_type = p.token_type;
        token_start = p.token_start;
        terminator = p.terminator;
        kept = p.kept;
        lexed = Lexed-newline enc ops indent (level + 1) _ p.lexed;
        run = λ k next.
            let (res1, placed) = place_element limits none st0 st1 false [] v next refl appended in
            let (k1, first) =
              element_parsed enc limits in_ops p k (none, st0 ∷ next) (res1, st1 ∷ next) placed in
            let (k', st', res', run, cont) =
              later level rest (v ∷ []) st1 res1 next k1 (suc fuel) (omega (arith, enough))
                (omega (arith, fit)) holds in
            (
              k',
              st',
              res',
              first_element enc limits in_ops p.token_type (suc fuel) p.token_start p.terminator
                    (p.kept k) (none, st0 ∷ next) p.opening
                  ∙ rw first run,
              cont,
            );
      }

  -- The fields of an object with the brace behind them, as object_fields reads them.
  record ObjectBody (fs : Fields) (level : ℕ) (rest : List ℕ) (fuel : ℕ) : Type 0 where
    token_type : TokenType
    token_start : Option (List ℕ)
    terminator : List ℕ
    kept : List ℕ → List ℕ
    lexed :
        Lexed enc
          (text_fields ops indent true (level + 1) fs (nl ops indent level ++ (b'}' ∷ rest)))
          token_type
          token_start
          terminator
          kept
    run :
        (k : List ℕ) (p : List ParseState)
        → (k' : List ℕ) × (st' : ParseState) × (res' : Option Value) × (object_fields enc
              (actions enc limits in_ops)
              fuel
              (context token_start token_type terminator (kept k))
              (none, record { size = 4; capacity = 4; cont_val = object [] none } ∷ p)
            ≡ ok (context (some (b'}' ∷ rest)) TokenType.object_end rest k', (res', st' ∷ p)))
          × (st'.cont_val ≡ object (numbered 0 fs) none)

  empty_object :
      (level : ℕ) (rest : List ℕ) (fuel : ℕ) → ObjectBody Fields.no_fields level rest (suc fuel)
  unfolding text_fields object_fields
  empty_object level rest fuel = record {
    token_type = TokenType.object_end;
    token_start = some (b'}' ∷ rest);
    terminator = rest;
    kept = λ k. k;
    lexed = Lexed-newline enc ops indent level (b'}' ∷ rest) (Plain-object_end enc rest);
    run =
        λ k p. (k, record { size = 4; capacity = 4; cont_val = object [] none }, none, refl, refl);
  }

  full_object :
      (key : List ℕ) (v : Value) (fs : Fields)
      → IsPlainString key
      → ReadValue v
      → ReadFields fs
      → (level : ℕ) (rest : List ℕ) (fuel : ℕ) → cost v + cost_fields fs < fuel
      → suc (length (keys fs)) ≤ limits.max_pairs
      → ObjectBody (Fields.field key v fs) level rest (suc fuel)
  unfolding text_fields separator object_fields
  full_object key v fs fine read later level rest fuel enough fit = record {
    token_type = TokenType.string;
    token_start = _;
    terminator = _;
    kept = λ k. key;
    lexed = Lexed-newline enc ops indent (level + 1) _ (Lexed-escape_gtype enc alike key _ fine.1);
    run = λ k next.
        field_then enc limits in_ops alike same keeps ops indent key v fs fine read later level rest
          [] (record { size = 4; capacity = 4; cont_val = object [] none }) none next _ fuel enough
          (omega (arith, fit)) (refl, (omega arith, omega arith, omega arith));
  }

  array_text :
      (level : ℕ) (raw : Bool) (vs : Values) (rest : List ℕ)
      → show ops indent level (Value.array raw vs) ++ rest
        ≡ b'[' ∷ text_values ops indent true (level + 1) vs (nl ops indent level ++ (b']' ∷ rest))
  unfolding show
  array_text level raw vs rest =
      ap (λ t. b'[' ∷ t)
        (append_assoc (show_values ops indent true (level + 1) vs)
            (nl ops indent level ++ (b']' ∷ [])) rest
          ∙ ap (λ t. show_values ops indent true (level + 1) vs ++ t)
              (append_assoc (nl ops indent level) (b']' ∷ []) rest)
          ∙ show_values-append ops indent true (level + 1) vs
              (nl ops indent level ++ (b']' ∷ rest)))

  object_text :
      (level : ℕ) (fs : Fields) (rest : List ℕ)
      → show ops indent level (Value.object fs) ++ rest
        ≡ b'{' ∷ text_fields ops indent true (level + 1) fs (nl ops indent level ++ (b'}' ∷ rest))
  unfolding show
  object_text level fs rest =
      ap (λ t. b'{' ∷ t)
        (append_assoc (show_fields ops indent true (level + 1) fs)
            (nl ops indent level ++ (b'}' ∷ [])) rest
          ∙ ap (λ t. show_fields ops indent true (level + 1) fs ++ t)
              (append_assoc (nl ops indent level) (b'}' ∷ []) rest)
          ∙ show_fields-append ops indent true (level + 1) fs
              (nl ops indent level ++ (b'}' ∷ rest)))

  read_array :
      (vs : Values) (level : ℕ) (rest : List ℕ) (f : Follows enc rest) (fuel : ℕ)
      → ArrayBody vs level rest fuel
      → Parses enc limits in_ops
          (Value.array false vs)
          (show ops indent level (Value.array false vs))
          f
          (suc (suc fuel))
  unfolding place pop_state finish
  read_array vs level rest f fuel body = record {
    token_type = TokenType.array_start;
    token_start = _;
    terminator = _;
    kept = λ k. k;
    lexed = rw (array_text level false vs rest) (Plain-array_start enc _);
    opening = refl;
    parsed = λ k state.
        let (k', st', res', run, cont) = body.run k state.1 in
        (
          k',
          array_parsed enc limits in_ops fuel _ k k' f state.0 res' st' state.1 body.lexed run
              ∙ rw (cont, values-elements vs) refl,
        );
  }

  read_object :
      (fs : Fields) (level : ℕ) (rest : List ℕ) (f : Follows enc rest) (fuel : ℕ)
      → uniqueify_gtype_object limits.qsort_arg (numbered 0 fs) ≡ numbered 0 fs
      → ObjectBody fs level rest fuel
      → Parses enc limits in_ops
          (Value.object fs)
          (show ops indent level (Value.object fs))
          f
          (suc (suc fuel))
  unfolding place pop_state finish_object
  read_object fs level rest f fuel sorted body = record {
    token_type = TokenType.object_start;
    token_start = _;
    terminator = _;
    kept = λ k. k;
    lexed = rw (object_text level fs rest) (Plain-object_start enc _);
    opening = refl;
    parsed = λ k state.
        let (k', st', res', run, cont) = body.run k state.1 in
        (
          k',
          object_parsed enc limits in_ops fuel _ k k' f state.0 res' st' state.1 body.lexed run
              ∙ rw (cont, sorted, fields-numbered 0 fs) refl,
        );
  }

  read_scalar :
      (s : Scalar)
      → IsReadable ops in_ops (Value.scalar s)
      → (level : ℕ) (rest : List ℕ) (f : Follows enc rest) (fuel : ℕ)
      → Parses enc limits in_ops
          (Value.scalar s)
          (show ops indent level (Value.scalar s))
          f
          (suc fuel)
  unfolding show
  read_scalar s readable level rest f fuel =
      Parses-scalar enc limits in_ops s (scalar_text ops s) f fuel
        (Reads-scalar enc limits in_ops alike same ops s f readable)

  mutual
    unfolding cost

    pub read_value : (v : Value) → IsBuilt limits v → IsReadable ops in_ops v → ReadValue v
    read_value (Value.scalar s) built readable level rest f zero enough =
        absurd (omega (arith, enough))
    read_value (Value.scalar s) built readable level rest f (suc fuel) enough =
        read_scalar s readable level rest f fuel
    read_value (Value.array raw vs) (no_raw, fit, built) readable level rest f
          (suc (suc (suc fuel))) enough =
        rw no_raw (
          read_array vs level rest f (suc fuel)
            (read_body vs built readable level rest fuel (omega (arith, enough)) fit))
    read_value (Value.object fs) (fit, up, built) readable level rest f (suc (suc (suc fuel)))
          enough =
        read_object fs level rest f (suc fuel)
          (keep_sorted limits keeps (numbered 0 fs) (rw (pair_keys-numbered 0 fs) up))
          (read_fields_body fs built readable level rest fuel (omega (arith, enough)) fit)
    read_value (Value.vector xs) built readable level rest f fuel enough = absurd readable
    read_value v built readable level rest f fuel enough = absurd (omega (arith, enough))

    read_body :
        (vs : Values)
        → AreBuilt limits vs
        → AreReadable ops in_ops vs
        → (level : ℕ) (rest : List ℕ) (fuel : ℕ) → cost_values vs ≤ fuel
        → length (elements vs) ≤ limits.max_elems
        → ArrayBody vs level rest (suc fuel)
    read_body Values.no_values built readable level rest fuel enough fit =
        empty_body level rest fuel
    read_body (Values.value v vs) (b, built) (r, readable) level rest (suc fuel) enough fit =
        full_body v vs (read_value v b r) (read_elements vs built readable) level rest fuel
          (omega (arith, enough)) fit
    read_body (Values.value v vs) built readable level rest zero enough fit =
        absurd (omega (arith, enough))

    read_fields_body :
        (fs : Fields)
        → FieldsBuilt limits fs
        → FieldsReadable ops in_ops fs
        → (level : ℕ) (rest : List ℕ) (fuel : ℕ) → cost_fields fs ≤ fuel
        → length (keys fs) ≤ limits.max_pairs
        → ObjectBody fs level rest (suc fuel)
    read_fields_body Fields.no_fields built readable level rest fuel enough fit =
        empty_object level rest fuel
    read_fields_body (Fields.field k v fs) (b, built) (fine, r, readable) level rest fuel enough
          fit =
        full_object k v fs fine (read_value v b r) (read_fields fs built readable) level rest fuel
          (omega (arith, enough)) fit

    read_elements : (vs : Values) → AreBuilt limits vs → AreReadable ops in_ops vs → ReadElements vs
    read_elements Values.no_values built readable =
        no_elements enc limits in_ops alike same keeps ops indent
    read_elements (Values.value v vs) (b, built) (r, readable) =
        more_elements enc limits in_ops alike same keeps ops indent v vs (read_value v b r)
          (read_elements vs built readable)

    read_fields :
        (fs : Fields) → FieldsBuilt limits fs → FieldsReadable ops in_ops fs → ReadFields fs
    read_fields Fields.no_fields built readable =
        no_fields enc limits in_ops alike same keeps ops indent
    read_fields (Fields.field k v fs) (b, built) (fine, r, readable) =
        more_fields enc limits in_ops alike same keeps ops indent k v fs fine (read_value v b r)
          (read_fields fs built readable)
