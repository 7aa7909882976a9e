-- ===== src/Text/Output/Printed.antt =====
-- About gtype_to_cstring and the text that Shown describes.
use post_graph.Prelude.{
  ℕ, ◌+◌, ◌<◌, ◌≡◌, refl, ap, ◌∙◌, Bool, true, false, List, [], ◌∷◌, ◌++◌, length, none, some, ok,
  ◌>>=◌,
}
use mathlib.Core.List.{append_assoc, append-nil}
use post_graph.Gtype.Scalar.{Scalar, Float8}
use post_graph.Gtype.Value.{Value, Values, Fields, is_a_gtype_scalar, elements, keys}
use post_graph.Gtype.Iterator.{Token, part}
use post_graph.Gtype.Iterator.Preorder.{
  Event, preorder, preorder_values, preorder_fields, vector_events,
}
use post_graph.Text.Output.{
  OutputOps, Printer, put_event, open_array, open_container, add_indent, separated, put_element,
  close_array, gtype_put_escaped_value, finished, gtype_to_cstring_worker, escape_gtype,
  scalar_text,
}
use post_graph.Text.Output.Shown.{show_numbers, show, show_values, show_fields, show_top}
use post_graph.Text.Output.Events.{print_all, at_start, gtype_to_cstring_worker-print_all}
use post_graph.Text.Output.Steps.{
  at, run, sep, nl, lead, Begins, keyed, Begins-element, Begins-value, bracket_text, end_array,
  end_vector, end_object, put_scalar, put_number, key_scalar, key_container,
}

-- There is no pseudo array in the value.
abbrev mutual
  pub NoPseudo : Value → Type 0
  NoPseudo (Value.scalar s) = Unit
  NoPseudo (Value.array raw vs) = (raw ≡ false) × NoPseudos vs
  NoPseudo (Value.object fs) = NoPseudoFields fs
  NoPseudo (Value.vector xs) = Unit

  pub NoPseudos : Values → Type 0
  NoPseudos Values.no_values = Unit
  NoPseudos (Values.value v vs) = NoPseudo v × NoPseudos vs

  pub NoPseudoFields : Fields → Type 0
  NoPseudoFields Fields.no_fields = Unit
  NoPseudoFields (Fields.field k v fs) = NoPseudo v × NoPseudoFields fs

module _ (ops : OutputOps) (indent : Bool) where
  -- The text of one part behind its lead, and the parts behind it.
  part_text :
      (out a b text rest : List ℕ)
      → ((out ++ (a ++ b)) ++ text) ++ rest ≡ out ++ (a ++ (b ++ (text ++ rest)))
  part_text out a b text rest =
      append_assoc (out ++ (a ++ b)) text rest
      ∙ append_assoc out (a ++ b) (text ++ rest)
      ∙ ap (λ u. out ++ u) (append_assoc a b (text ++ rest))

  field_text :
      (out a b key colon text rest : List ℕ)
      → ((((out ++ (a ++ b)) ++ key) ++ colon) ++ text) ++ rest
        ≡ out ++ (a ++ (b ++ (key ++ (colon ++ (text ++ rest)))))
  field_text out a b key colon text rest =
      append_assoc (((out ++ (a ++ b)) ++ key) ++ colon) text rest
      ∙ append_assoc ((out ++ (a ++ b)) ++ key) colon (text ++ rest)
      ∙ part_text out a b key (colon ++ (text ++ rest))

  -- Is the next part still the first?
  abbrev still : {A : Type 0} → Bool → List A → Bool
  still first [] = first
  still first (x ∷ xs) = false

  still-false : {A : Type 0} (xs : List A) → still false xs ≡ false
  still-false [] = refl
  still-false (x ∷ xs) = refl

  run_numbers :
      (xs : List Float8) (out : List ℕ) (first : Bool) (level : ℕ) (tail : List Event)
      → run ops indent (vector_events xs ++ tail) (at ops indent out first level)
        ≡ run ops indent tail
            (at ops indent (out ++ show_numbers ops indent first level xs) (still first xs) level)
  unfolding vector_events show_numbers
  run_numbers [] out first level tail = rw append-nil refl
  run_numbers (x ∷ xs) out first level tail =
      put_number ops indent out first level x (vector_events xs ++ tail)
      ∙ run_numbers xs _ false level tail
      ∙ rw
          (
            part_text out (sep ops indent first) (nl ops indent level)
                (scalar_text ops (Scalar.float x)) (show_numbers ops indent false level xs),
            still-false xs,
          )
          refl

  -- The events of a container write its text.
  unfoldable Writes : Value → Type 0
  Writes v =
      (token : Token) (p : Printer) (start : List ℕ) (level : ℕ) (tail : List Event)
      → is_a_gtype_scalar v ≡ false
      → Begins ops indent p start level
      → run ops indent (preorder token v ++ tail) p
        ≡ run ops indent tail (at ops indent (start ++ show ops indent level v) false level)

  element_step :
      (v : Value) (out : List ℕ) (first : Bool) (level : ℕ) (tail : List Event)
      → Writes v
      → run ops indent (preorder Token.wgt_elem v ++ tail) (at ops indent out first level)
        ≡ run ops indent tail
            (at ops indent (lead ops indent out first level ++ show ops indent level v) false level)
  unfolding Writes preorder show
  element_step (Value.scalar s) out first level tail writes =
      put_scalar ops indent out first level s tail
  element_step v out first level tail writes =
      writes Token.wgt_elem _ (lead ops indent out first level) level tail refl
        (Begins-element ops indent out first level)

  field_step :
      (k : List ℕ) (v : Value) (out : List ℕ) (first : Bool) (level : ℕ) (tail : List Event)
      → Writes v
      → run ops indent
          ((Token.wgt_key, some (part (Value.scalar (Scalar.string k))))
            ∷ (preorder Token.wgt_value v ++ tail))
          (at ops indent out first level)
        ≡ run ops indent tail (
            at ops indent
              (keyed ops indent out first level k ++ show ops indent level v)
              false
              level)
  unfolding Writes preorder show
  field_step k (Value.scalar s) out first level tail writes =
      key_scalar ops indent out first level k s tail
  field_step k v out first level tail writes =
      key_container ops indent out first level k v tail refl
      ∙ writes Token.wgt_value _ (keyed ops indent out first level k) level tail refl
          (Begins-value ops indent (keyed ops indent out first level k) level)

  mutual
    unfolding Writes print_all put_event open_array preorder show show_values show_fields

    writes : (v : Value) → NoPseudo v → Writes v
    writes (Value.scalar s) plain token p start level tail h begins = cc
    writes (Value.array raw vs) (no_raw, plain) token p start level tail h begins =
        rw (no_raw, append_assoc (preorder_values vs) ((Token.wgt_end_array, none) ∷ []) tail)
          (ap (run ops indent (preorder_values vs ++ ((Token.wgt_end_array, none) ∷ tail)))
              (begins b'[')
            ∙ run_values vs plain (start ++ (b'[' ∷ [])) true (level + 1)
                ((Token.wgt_end_array, none) ∷ tail)
            ∙ end_array ops indent _ (still true (elements vs)) level tail
            ∙ ap (λ o. run ops indent tail (at ops indent o false level))
                (bracket_text ops indent start (show_values ops indent true (level + 1) vs)
                  (nl ops indent level ++ (b']' ∷ [])) b'['))
    writes (Value.object fs) plain token p start level tail h begins =
        rw (append_assoc (preorder_fields fs) ((Token.wgt_end_object, none) ∷ []) tail) (
          ap (run ops indent (preorder_fields fs ++ ((Token.wgt_end_object, none) ∷ tail)))
            (begins b'{')
          ∙ run_fields fs plain (start ++ (b'{' ∷ [])) true (level + 1)
              ((Token.wgt_end_object, none) ∷ tail)
          ∙ end_object ops indent _ (still true (keys fs)) level tail
          ∙ ap (λ o. run ops indent tail (at ops indent o false level))
              (bracket_text ops indent start (show_fields ops indent true (level + 1) fs)
                (nl ops indent level ++ (b'}' ∷ [])) b'{'))
    writes (Value.vector xs) plain token p start level tail h begins =
        rw (append_assoc (vector_events xs) ((Token.wgt_end_vector, none) ∷ []) tail) (
          ap (run ops indent (vector_events xs ++ ((Token.wgt_end_vector, none) ∷ tail)))
            (begins b'[')
          ∙ run_numbers xs (start ++ (b'[' ∷ [])) true (level + 1)
              ((Token.wgt_end_vector, none) ∷ tail)
          ∙ end_vector ops indent _ (still true xs) level tail
          ∙ ap (λ o. run ops indent tail (at ops indent o false level))
              (bracket_text ops indent start (show_numbers ops indent true (level + 1) xs)
                (nl ops indent level ++ (b']' ∷ [])) b'['))

    run_values :
        (vs : Values)
        → NoPseudos vs
        → (out : List ℕ) (first : Bool) (level : ℕ) (tail : List Event)
        → run ops indent (preorder_values vs ++ tail) (at ops indent out first level)
          ≡ run ops indent tail (
              at ops indent
                (out ++ show_values ops indent first level vs)
                (still first (elements vs))
                level)
    run_values Values.no_values plain out first level tail = rw append-nil refl
    run_values (Values.value v vs) (p, plain) out first level tail =
        rw (append_assoc (preorder Token.wgt_elem v) (preorder_values vs) tail) (
          element_step v out first level (preorder_values vs ++ tail) (writes v p)
          ∙ run_values vs plain _ false level tail
          ∙ rw
              (
                part_text out (sep ops indent first) (nl ops indent level) (show ops indent level v)
                    (show_values ops indent false level vs),
                still-false (elements vs),
              )
              refl)

    run_fields :
        (fs : Fields)
        → NoPseudoFields fs
        → (out : List ℕ) (first : Bool) (level : ℕ) (tail : List Event)
        → run ops indent (preorder_fields fs ++ tail) (at ops indent out first level)
          ≡ run ops indent tail (
              at ops indent
                (out ++ show_fields ops indent first level fs)
                (still first (keys fs))
                level)
    run_fields Fields.no_fields plain out first level tail = rw append-nil refl
    run_fields (Fields.field k v fs) (p, plain) out first level tail =
        rw (append_assoc (preorder Token.wgt_value v) (preorder_fields fs) tail) (
          field_step k v out first level (preorder_fields fs ++ tail) (writes v p)
          ∙ run_fields fs plain _ false level tail
          ∙ rw
              (
                field_text out (sep ops indent first) (nl ops indent level) (escape_gtype k)
                    (b':' ∷ b' ' ∷ []) (show ops indent level v)
                    (show_fields ops indent false level fs),
                still-false (keys fs),
              )
              refl)

-- A container of the top level: a pseudo array around one scalar, or one with no pseudo array in it.
abbrev pub pseudo_array : Scalar → Value
pseudo_array s = Value.array true (Values.value (Value.scalar s) Values.no_values)

pub data IsTop : Value → Type 0 where
  pseudo : (s : Scalar) → IsTop (pseudo_array s)
  plain : (v : Value) → is_a_gtype_scalar v ≡ false → NoPseudo v → IsTop v

module _ (ops : OutputOps) (indent : Bool) where
  Begins-start : (out : List ℕ) → Begins ops indent (at_start ops indent out) out 0
  unfolding open_container add_indent separated
  Begins-start out bracket = refl

  raw_events :
      (out : List ℕ) (s : Scalar)
      → (print_all ops indent (preorder Token.wgt_elem (pseudo_array s)) (at_start ops indent out)
          >>= finished ops indent)
        ≡ ok (out ++ show_top ops indent (pseudo_array s))
  unfolding print_all preorder preorder_values put_event open_array put_element separated
      gtype_put_escaped_value close_array finished show_top show
  raw_events out s = refl

  pub show_top-plain : (v : Value) → NoPseudo v → show_top ops indent v ≡ show ops indent 0 v
  unfolding show_top
  show_top-plain (Value.array true vs) (no_raw, p) = cc
  show_top-plain (Value.array false vs) p = refl
  show_top-plain _ p = refl

  -- For a container with no pseudo array but one around a scalar at the top, and fuel for its tokens,
  -- gtype_to_cstring_worker, with indentation or without it, ends and appends the text of the
  -- recursive description to the buffer.
  pub gtype_to_cstring_worker-show_top :
      (fuel : ℕ) (out : List ℕ) {v : Value}
      → IsTop v
      → length (preorder Token.wgt_elem v) < fuel
      → gtype_to_cstring_worker ops indent fuel out v ≡ ok (out ++ show_top ops indent v)
  unfolding finished Writes
  gtype_to_cstring_worker-show_top fuel out (pseudo s) enough =
      gtype_to_cstring_worker-print_all ops indent fuel out (pseudo_array s) refl enough
      ∙ raw_events out s
  gtype_to_cstring_worker-show_top fuel out (plain v container p) enough =
      gtype_to_cstring_worker-print_all ops indent fuel out v container enough
      ∙ rw
          (
            ← append-nil (preorder Token.wgt_elem v),
            writes ops indent v p Token.wgt_elem (at_start ops indent out) out 0 [] container
                (Begins-start out),
            show_top-plain v p,
          )
          (unfold print_all in refl)
