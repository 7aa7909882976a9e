-- ===== src/Text/Input/Loops.antt =====
-- The loops of the parser over the parts of a container, from the text that Shown describes.
use post_graph.Prelude.{
  ℕ, zero, suc, ◌+◌, ◌≤◌, ◌<◌, ◌≡◌, refl, sym, ap, ◌∙◌, Bool, false, List, [], ◌∷◌, ◌++◌, length,
  length-append, Option, none, some, ok, ◌>>=◌, arith,
}
use mathlib.Core.List.{append_assoc, append-nil}
use post_graph.Gtype.Object.{Pair}
use post_graph.Gtype.Value.{Value, Values, Fields, elements, keys}
use post_graph.Gtype.Builder.{array, object, ParseState, Limits}
use post_graph.Gtype.Builder.Steps.{Holds, numbered, KeepsSorted, element_room, pair_room}
use post_graph.Text.Context.{TokenType, Encoding}
use post_graph.Text.Strings.Escaped.{AsciiAlike}
use post_graph.Text.Lexer.Tokens.{context, Lexed-escape_gtype}
use post_graph.Text.Lexer.Words.{SameText}
use post_graph.Text.Parser.{parse_object_field, field_loop, element_loop, lex_accept}
use post_graph.Text.Input.{InputOps}
use post_graph.Text.Input.Scalars.{Follows, behind, actions}
use post_graph.Text.Input.Places.{
  place_element, place_value, place_key, Lexed-newline, end_of_array, end_of_object, next_part,
}
use post_graph.Text.Input.Parts.{
  cost, cost_values, cost_fields, Parses, element_parsed, comma_step, field_parsed,
  field_comma_step,
}
use post_graph.Text.Output.{OutputOps, escape_gtype}
use post_graph.Text.Output.Shown.{separator, newline, show, show_values, show_fields}
use post_graph.Text.Readable.{IsPlainString}

module _ (ops : OutputOps) (indent : Bool) where
  abbrev pub nl : ℕ → List ℕ
  nl = newline ops indent

  -- The parts of a container with what follows them.
  unfoldable pub text_values : (first : Bool) → (level : ℕ) → Values → (tail : List ℕ) → List ℕ
  text_values first level Values.no_values tail = tail
  text_values first level (Values.value v vs) tail =
      separator ops indent first
      ++ (nl level ++ (show ops indent level v ++ text_values false level vs tail))

  unfoldable pub text_fields : (first : Bool) → (level : ℕ) → Fields → (tail : List ℕ) → List ℕ
  text_fields first level Fields.no_fields tail = tail
  text_fields first level (Fields.field k v fs) tail =
      separator ops indent first
      ++ (nl level
          ++ (escape_gtype k
              ++ (b':' ∷ b' ' ∷ (show ops indent level v ++ text_fields false level fs tail))))

  pub show_values-append :
      (first : Bool) (level : ℕ) (vs : Values) (tail : List ℕ)
      → show_values ops indent first level vs ++ tail ≡ text_values first level vs tail
  unfolding show_values text_values
  show_values-append first level Values.no_values tail = refl
  show_values-append first level (Values.value v vs) tail =
      simp (append_assoc, show_values-append false level vs tail)

  pub show_fields-append :
      (first : Bool) (level : ℕ) (fs : Fields) (tail : List ℕ)
      → show_fields ops indent first level fs ++ tail ≡ text_fields first level fs tail
  unfolding show_fields text_fields
  show_fields-append first level Fields.no_fields tail = refl
  show_fields-append first level (Fields.field k v fs) tail =
      simp (append_assoc, show_fields-append false level fs tail)

  module _ (enc : Encoding) where
    unfoldable pub follows_values :
        (vs : Values) (level : ℕ) (rest : List ℕ)
        → Follows enc (text_values false (level + 1) vs (nl level ++ (b']' ∷ rest)))
    unfolding text_values
    follows_values Values.no_values level rest = end_of_array enc ops indent level rest
    follows_values (Values.value v vs) level rest = next_part enc ops indent _

    unfoldable pub follows_fields :
        (fs : Fields) (level : ℕ) (rest : List ℕ)
        → Follows enc (text_fields false (level + 1) fs (nl level ++ (b'}' ∷ rest)))
    unfolding text_fields
    follows_fields Fields.no_fields level rest = end_of_object enc ops indent level rest
    follows_fields (Fields.field k v fs) level rest = next_part enc ops indent _

module _ (enc : Encoding) (limits : Limits) (in_ops : InputOps) (alike : AsciiAlike enc)
    (same : SameText enc) (keeps : KeepsSorted limits) (ops : OutputOps) (indent : Bool) where
  -- The loop over the elements behind the first.
  abbrev pub ElementsRead : (vs : Values) → Type 0
  ElementsRead vs =
      (level : ℕ) (rest : List ℕ) (done : List Value) (st : ParseState) (res : Option Value)
      (next : List ParseState) (k : List ℕ) (fuel : ℕ)
      → cost_values vs ≤ fuel
      → length done + length (elements vs) ≤ limits.max_elems
      → Holds st (array false done) (length done)
      → (k' : List ℕ) × (st' : ParseState) × (res' : Option Value) × (element_loop enc
            (actions enc limits in_ops) fuel
            (behind enc (follows_values ops indent enc vs level rest) k) (res, st ∷ next)
          ≡ ok (context (some (b']' ∷ rest)) TokenType.array_end rest k', (res', st' ∷ next)))
        × (st'.cont_val ≡ array false (done ++ elements vs))

  abbrev pub ValueRead : Value → Type 0
  ValueRead v =
      (level : ℕ) (rest : List ℕ) (f : Follows enc rest) (fuel : ℕ)
      → cost v ≤ fuel
      → Parses enc limits in_ops v (show ops indent level v) f fuel

  pub no_elements : ElementsRead Values.no_values
  unfolding cost element_loop lex_accept follows_values end_of_array
  no_elements level rest done st res next k zero enough fit (e, room) =
      absurd (omega (arith, enough))
  no_elements level rest done st res next k (suc fuel) enough fit (e, room) =
      (k, st, res, refl, e ∙ ap (array false) (sym (append-nil done)))

  pub more_elements :
      (v : Value) (vs : Values) → ValueRead v → ElementsRead vs → ElementsRead (Values.value v vs)
  unfolding cost follows_values text_values
  more_elements v vs read later level rest done st res next k zero enough fit h =
      absurd (omega (arith, enough))
  more_elements v vs read later level rest done st res next k (suc zero) enough fit h =
      absurd (omega (arith, enough))
  more_elements v vs read later level rest done st res next k (suc (suc fuel)) enough fit
        (e, room) =
      let p =
        read (level + 1) _ (follows_values ops indent enc vs level rest) fuel
          (omega (arith, enough)) in
      let (st1, appended, holds) =
        element_room limits st false done v (e, room) (omega (arith, fit)) in
      let (res1, placed) = place_element limits res st st1 false done v next e appended in
      let (k1, first) =
        element_parsed enc limits in_ops p k (res, st ∷ next) (res1, st1 ∷ next) placed in
      let (k', st', res', run, cont) =
        later level rest (done ++ (v ∷ [])) st1 res1 next k1 (suc fuel) (omega (arith, enough))
          (omega (arith, fit, length-append done (v ∷ []))) holds in
      (
        k',
        st',
        res',
        comma_step enc limits in_ops (suc fuel) _ k ops indent (res, st ∷ next)
              (Lexed-newline enc ops indent (level + 1) _ p.lexed)
            ∙ rw first run,
        cont ∙ ap (array false) (append_assoc done (v ∷ []) (elements vs)),
      )

  -- The loop over the fields behind the first.
  abbrev pub FieldsRead : (fs : Fields) → Type 0
  FieldsRead fs =
      (level : ℕ) (rest : List ℕ) (done : List (Pair Value)) (st : ParseState) (res : Option Value)
      (next : List ParseState) (k : List ℕ) (fuel : ℕ)
      → cost_fields fs ≤ fuel
      → length done + length (keys fs) ≤ limits.max_pairs
      → Holds st (object done none) (length done)
      → (k' : List ℕ) × (st' : ParseState) × (res' : Option Value) × (field_loop enc
            (actions enc limits in_ops) fuel
            (behind enc (follows_fields ops indent enc fs level rest) k) (res, st ∷ next)
          ≡ ok (context (some (b'}' ∷ rest)) TokenType.object_end rest k', (res', st' ∷ next)))
        × (st'.cont_val ≡ object (done ++ numbered (length done) fs) none)

  pub no_fields : FieldsRead Fields.no_fields
  unfolding cost field_loop lex_accept follows_fields end_of_object
  no_fields level rest done st res next k zero enough fit (e, room) = absurd (omega (arith, enough))
  no_fields level rest done st res next k (suc fuel) enough fit (e, room) =
      (k, st, res, refl, e ∙ ap (λ ps. object ps none) (sym (append-nil done)))

  -- A field with its key, before the loop over the later ones.
  pub field_then :
      (key : List ℕ) (v : Value) (fs : Fields)
      → IsPlainString key
      → ValueRead v
      → FieldsRead fs
      → (level : ℕ) (rest : List ℕ) (done : List (Pair Value)) (st : ParseState)
        (res : Option Value) (next : List ParseState) (start : Option (List ℕ)) (fuel : ℕ)
      → cost v + cost_fields fs < fuel
      → length done + length (keys (Fields.field key v fs)) ≤ limits.max_pairs
      → Holds st (object done none) (length done)
      → (k' : List ℕ) × (st' : ParseState) × (res' : Option Value) × ((parse_object_field enc
              (actions enc limits in_ops)
              fuel
              (context start TokenType.string
                (b':'
                  ∷ b' '
                  ∷ (show ops indent (level + 1) v
                      ++ text_fields ops indent false
                          (level + 1)
                          fs
                          (newline ops indent level ++ (b'}' ∷ rest))))
                key)
              (res, st ∷ next)
            >>= (λ parsed. field_loop enc (actions enc limits in_ops) fuel parsed.0 parsed.1))
          ≡ ok (context (some (b'}' ∷ rest)) TokenType.object_end rest k', (res', st' ∷ next)))
        × (st'.cont_val ≡ object (done ++ numbered (length done) (Fields.field key v fs)) none)
  field_then key v fs (short, positive) read later level rest done st res next start zero enough fit
        h =
      absurd (omega (arith, enough))
  field_then key v fs (short, positive) read later level rest done st res next start (suc fuel)
        enough fit (e, room) =
      let p =
        read (level + 1) _ (follows_fields ops indent enc fs level rest) fuel
          (omega (arith, enough)) in
      let pair : Pair Value = record { key = key; order = length done; value = v } in
      let (st1, keyed, st2, appended, e1, holds) =
        pair_room limits st done key v (e, room) (omega (arith, fit)) in
      let (res2, placed) = place_value limits none st1 st2 done (some key) v next e1 appended in
      let (k1, first) =
        field_parsed enc limits in_ops p start key (res, st ∷ next) (none, st1 ∷ next)
          (res2, st2 ∷ next) (λ null. place_key limits res st st1 key next null short keyed)
          placed in
      let n : length (done ++ (pair ∷ [])) ≡ length done + 1 = length-append done (pair ∷ []) in
      let (k', st', res', run, cont) =
        later level rest (done ++ (pair ∷ [])) st2 res2 next k1 (suc fuel) (omega (arith, enough))
          (omega (arith, fit, n)) (rw n holds) in
      (
        k',
        st',
        res',
        rw first run,
        cont ∙ rw (n, append_assoc done (pair ∷ []) (numbered (length done + 1) fs)) refl,
      )

  pub more_fields :
      (key : List ℕ) (v : Value) (fs : Fields)
      → IsPlainString key
      → ValueRead v
      → FieldsRead fs
      → FieldsRead (Fields.field key v fs)
  unfolding cost follows_fields text_fields
  more_fields key v fs fine read later level rest done st res next k zero enough fit h =
      absurd (omega (arith, enough))
  more_fields key v fs fine read later level rest done st res next k (suc fuel) enough fit h =
      let (k', st', res', run, cont) =
        field_then key v fs fine read later level rest done st res next _ fuel
          (omega (arith, enough)) fit h in
      (
        k',
        st',
        res',
        field_comma_step enc limits in_ops fuel _ k key ops indent (res, st ∷ next)
              (Lexed-newline enc ops indent (level + 1) _
                (Lexed-escape_gtype enc alike key _ fine.1))
            ∙ run,
        cont,
      )
