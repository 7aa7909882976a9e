-- ===== src/Text/Input/Places.antt =====
-- Where gtype_in puts a value that has been read, and the tokens between the parts of a container.
use post_graph.Prelude.{
  ℕ, zero, suc, ◌-◌, ◌*◌, ◌^◌, ◌<◌, ◌≡◌, refl, Bool, true, false, List, [], ◌∷◌, ◌++◌, All, ltb,
  length, if◌then◌else◌, Option, none, some, Outcome, ok, ◌>>=◌, arith,
}
use post_graph.Gtype.Object.{Pair}
use post_graph.Gtype.Value.{Value}
use post_graph.Gtype.Builder.{
  array, object, ParseState, Limits, Pushed, append_key, append_value, append_element, attach,
  push_gtype_value, push_gtype_value_scalar,
}
use post_graph.Gtype.Builder.Steps.{attach_element, attach_pair}
use post_graph.Text.Context.{TokenType, Encoding, in_range}
use post_graph.Text.Numbers.{is_alphanumeric}
use post_graph.Text.Numbers.Grammar.{Stops, continues}
use post_graph.Text.Lexer.{is_space}
use post_graph.Text.Lexer.Tokens.{
  Lexed, Lexed-spaces, Plain-comma, Plain-array_end, Plain-object_end,
}
use post_graph.Text.Input.{check_string_length, gtype_in_object_field_start, push_scalar}
use post_graph.Text.Input.Scalars.{Follows}
use post_graph.Text.Output.{OutputOps, spaces}
use post_graph.Text.Output.Shown.{separator, newline}

module _ (limits : Limits) where
  -- A value that has been read goes into the innermost state, or becomes the result.
  unfoldable pub place : Pushed → Value → Outcome Pushed
  place state (Value.scalar s) = push_scalar limits state s
  place state v = attach limits v state.1 >>= (λ p. ok (some v, p))

  pub place_element :
      (res : Option Value) (st st' : ParseState) (raw : Bool) (es : List Value) (v : Value)
      (next : List ParseState)
      → st.cont_val ≡ array raw es
      → append_element limits st v ≡ ok st'
      → (res' : Option Value) × (place (res, st ∷ next) v ≡ ok (res', st' ∷ next))
  unfolding place push_scalar push_gtype_value push_gtype_value_scalar
  place_element res st st' raw es (Value.scalar s) next e appended =
      (none, simp e (rw appended refl))
  place_element res st st' raw es v next e appended =
      (some v, rw (attach_element limits st st' raw es v next e appended) refl)

  pub place_value :
      (res : Option Value) (st st' : ParseState) (ps : List (Pair Value)) (k : Option (List ℕ))
      (v : Value) (next : List ParseState)
      → st.cont_val ≡ object ps k
      → append_value limits st v ≡ ok st'
      → (res' : Option Value) × (place (res, st ∷ next) v ≡ ok (res', st' ∷ next))
  unfolding place push_scalar push_gtype_value push_gtype_value_scalar
  place_value res st st' ps k (Value.scalar s) next e appended = (none, simp e (rw appended refl))
  place_value res st st' ps k v next e appended =
      (some v, rw (attach_pair limits st st' ps k v next e appended) refl)

  pub place_key :
      (res : Option Value) (st st' : ParseState) (k : List ℕ) (next : List ParseState) (null : Bool)
      → length k < 2 ^ 28
      → append_key limits st k ≡ ok st'
      → gtype_in_object_field_start limits (res, st ∷ next) (some k) null ≡ ok (none, st' ∷ next)
  unfolding gtype_in_object_field_start check_string_length push_gtype_value push_gtype_value_scalar
  place_key res st st' k next null short appended =
      let fits : ltb (2 ^ 28 - 1) (length k) ≡ false = ground arith in rw (fits, appended) refl

spaces_are : (n : ℕ) → All (λ c. is_space c ≡ true) (spaces n)
unfolding is_space
spaces_are zero = tt
spaces_are (suc n) = (refl, spaces_are n)

module _ (enc : Encoding) (ops : OutputOps) (indent : Bool) where
  newline_spaces : (level : ℕ) → All (λ c. is_space c ≡ true) (newline ops indent level)
  unfolding newline is_space
  newline_spaces level = by_indent indent
    where
      by_indent :
          (b : Bool) → All (λ c. is_space c ≡ true) (if b then b'\n' ∷ spaces (level * 4) else [])
      by_indent true = (refl, spaces_are (level * 4))
      by_indent false = tt

  pub Lexed-newline :
      (level : ℕ) (s : List ℕ) {type : TokenType} {start : Option (List ℕ)} {terminator : List ℕ}
      {kept : List ℕ → List ℕ}
      → Lexed enc s type start terminator kept
      → Lexed enc (newline ops indent level ++ s) type start terminator kept
  Lexed-newline level s lexed =
      Lexed-spaces enc (newline ops indent level) s (newline_spaces level) lexed

  pub Stops-newline : (level : ℕ) (s : List ℕ) → Stops s → Stops (newline ops indent level ++ s)
  unfolding newline continues is_alphanumeric in_range
  Stops-newline level s stops = by_indent indent
    where
      by_indent : (b : Bool) → Stops ((if b then b'\n' ∷ spaces (level * 4) else []) ++ s)
      by_indent true = refl
      by_indent false = stops

  -- Behind the last part of an array, of an object, and behind another part.
  unfoldable pub end_of_array :
      (level : ℕ) (rest : List ℕ) → Follows enc (newline ops indent level ++ (b']' ∷ rest))
  unfolding continues is_alphanumeric in_range
  end_of_array level rest = record {
    type = TokenType.array_end;
    start = some (b']' ∷ rest);
    after = rest;
    stops = Stops-newline level (b']' ∷ rest) refl;
    lexed = Lexed-newline level (b']' ∷ rest) (Plain-array_end enc rest);
    no_annotation = refl;
  }

  unfoldable pub end_of_object :
      (level : ℕ) (rest : List ℕ) → Follows enc (newline ops indent level ++ (b'}' ∷ rest))
  unfolding continues is_alphanumeric in_range
  end_of_object level rest = record {
    type = TokenType.object_end;
    start = some (b'}' ∷ rest);
    after = rest;
    stops = Stops-newline level (b'}' ∷ rest) refl;
    lexed = Lexed-newline level (b'}' ∷ rest) (Plain-object_end enc rest);
    no_annotation = refl;
  }

  -- What a separator has behind its comma.
  abbrev pub gap : List ℕ
  gap = if indent then [] else b' ' ∷ []

  pub Lexed-gap :
      (s : List ℕ) {type : TokenType} {start : Option (List ℕ)} {terminator : List ℕ}
      {kept : List ℕ → List ℕ}
      → Lexed enc s type start terminator kept
      → Lexed enc (gap ++ s) type start terminator kept
  unfolding is_space
  Lexed-gap s lexed = Lexed-spaces enc gap s (by_indent indent) lexed
    where
      by_indent : (b : Bool) → All (λ c. is_space c ≡ true) (if b then [] else b' ' ∷ [])
      by_indent true = tt
      by_indent false = (refl, tt)

  unfoldable pub next_part : (s : List ℕ) → Follows enc (separator ops indent false ++ s)
  unfolding continues is_alphanumeric in_range separator
  next_part s = record {
    type = TokenType.comma;
    start = some (b',' ∷ (gap ++ s));
    after = gap ++ s;
    stops = refl;
    lexed = Plain-comma enc (gap ++ s);
    no_annotation = refl;
  }
