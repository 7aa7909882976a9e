-- ===== src/Gtype/Builder/Steps.antt =====
-- One part more: the pushes that write_part an element, a pair or a number of a vector.
use post_graph.Prelude.{
  ℕ, ◌+◌, ◌<◌, ◌≡◌, refl, sym, ap, ◌∙◌, Bool, true, false, List, [], ◌∷◌, ◌++◌, length,
  length-append, Option, none, some, ok, ◌>>=◌, arith,
}
use mathlib.Core.List.{append_assoc, append-nil}
use post_graph.Gtype.Object.{Pair, uniqueify_gtype_object}
use post_graph.Gtype.Scalar.{Float8, Scalar}
use post_graph.Gtype.Value.{Value, Values, Fields, is_a_gtype_scalar, elements, keys}
use post_graph.Gtype.Iterator.{Token, part}
use post_graph.Gtype.Iterator.Preorder.{Event, preorder, vector_events}
use post_graph.Gtype.Builder.{
  Building, array, object, vector, ParseState, Limits, values, fields, has_value, write_part,
  append_key, append_value, append_element, append_number, attach, pop_state,
  push_gtype_value_scalar,
}
use post_graph.Gtype.Builder.Loop.{IsIncreasing, pair_keys, push_all, bind_map, Roomy, write_room}

-- A state with room for `num` parts that holds the container `b`.
abbrev pub Holds : ParseState → Building → ℕ → Type 0
Holds st b num = (st.cont_val ≡ b) × Roomy st num

-- The pairs of an object, numbered from `n` on.
abbrev pub numbered : ℕ → Fields → List (Pair Value)
numbered n Fields.no_fields = []
numbered n (Fields.field k v fs) = record { key = k; order = n; value = v } ∷ numbered (n + 1) fs

pub values-elements : (vs : Values) → values (elements vs) ≡ vs
values-elements Values.no_values = refl
values-elements (Values.value v vs) = ap (Values.value v) (values-elements vs)

pub fields-numbered : (n : ℕ) (fs : Fields) → fields (numbered n fs) ≡ fs
fields-numbered n Fields.no_fields = refl
fields-numbered n (Fields.field k v fs) = ap (Fields.field k v) (fields-numbered (n + 1) fs)

pub pair_keys-numbered : (n : ℕ) (fs : Fields) → pair_keys (numbered n fs) ≡ keys fs
pair_keys-numbered n Fields.no_fields = refl
pair_keys-numbered n (Fields.field k v fs) = ap (λ ks. k ∷ ks) (pair_keys-numbered (n + 1) fs)

module _ (limits : Limits) where
  pub element_room :
      (st : ParseState) (raw : Bool) (es : List Value) (v : Value)
      → Holds st (array raw es) (length es)
      → length es < limits.max_elems
      → (st' : ParseState) × (append_element limits st v ≡ ok st')
        × Holds st' (array raw (es ++ (v ∷ []))) (length (es ++ (v ∷ [])))
  unfolding append_element
  element_room st raw es v (e, room) within =
      let (st', written, holds, fits, backed) =
        write_room st (length es) (array raw (es ++ (v ∷ []))) room in
      (
        st',
        rw e (ground (arith, within, written)),
        (holds, (omega (arith, fits), omega (arith, fits, length-append es (v ∷ [])), backed)),
      )

  pub number_room :
      (st : ParseState) (xs : List Float8) (x : Float8)
      → Holds st (vector xs) (length xs)
      → (st' : ParseState) × (append_number limits st x ≡ ok st')
        × Holds st' (vector (xs ++ (x ∷ []))) (length (xs ++ (x ∷ [])))
  unfolding append_number
  number_room st xs x (e, room) =
      let (st', written, holds, fits, backed) =
        write_room st (length xs) (vector (xs ++ (x ∷ []))) room in
      (
        st',
        simp (e, written) refl,
        (holds, (omega (arith, fits), omega (arith, fits, length-append xs (x ∷ [])), backed)),
      )

  pub pair_room :
      (st : ParseState) (ps : List (Pair Value)) (k : List ℕ) (v : Value)
      → Holds st (object ps none) (length ps)
      → length ps < limits.max_pairs
      → (st' : ParseState) × (append_key limits st k ≡ ok st')
        × (st'' : ParseState) × (append_value limits st' v ≡ ok st'')
        × (st'.cont_val ≡ object ps (some k))
        × Holds st''
            (object (ps ++ (record { key = k; order = length ps; value = v } ∷ [])) none)
            (length ps + 1)
  unfolding append_key append_value write_part
  pair_room st ps k v (e, room) within =
      let (st', written, holds, fits, backed) =
        write_room st (length ps) (object ps (some k)) room in
      (
        st',
        rw e (ground (arith, within, written)),
        record st' {
          cont_val = object (ps ++ (record { key = k; order = length ps; value = v } ∷ [])) none;
        },
        rw holds (ground (arith, fits, backed)),
        holds,
        (refl, (omega (arith, fits), omega (arith, fits), backed)),
      )

  pub push_numbers :
      (rest done : List Float8) (st : ParseState) (res : Option Value) (next : List ParseState)
      (tail : List Event)
      → Holds st (vector done) (length done)
      → (st' : ParseState) × (res' : Option Value) × (push_all limits
            (vector_events rest ++ tail)
            res
            (st ∷ next)
          ≡ push_all limits tail res' (st' ∷ next))
        × (st'.cont_val ≡ vector (done ++ rest))
  unfolding push_all vector_events push_gtype_value_scalar
  push_numbers [] done st res next tail (e, room) =
      (st, res, refl, e ∙ ap vector (sym (append-nil done)))
  push_numbers (x ∷ xs) done st res next tail h =
      let (st1, appended, holds) = number_room st done x h in
      let (st', res', run, e) = push_numbers xs (done ++ (x ∷ [])) st1 none next tail holds in
      (st', res', rw appended run, e ∙ ap vector (append_assoc done (x ∷ []) xs))

  -- The tokens of a container put it into the container around it.
  unfoldable pub Whole : Value → Type 0
  Whole v =
      (token : Token) (res : Option Value) (p : List ParseState) (tail : List Event)
      → is_a_gtype_scalar v ≡ false
      → push_all limits (preorder token v ++ tail) res p
        ≡ (attach limits v p >>= (λ p'. push_all limits tail (some v) p'))

  pub attach_element :
      (st st' : ParseState) (raw : Bool) (es : List Value) (v : Value) (next : List ParseState)
      → st.cont_val ≡ array raw es
      → append_element limits st v ≡ ok st'
      → attach limits v (st ∷ next) ≡ ok (st' ∷ next)
  unfolding attach
  attach_element st st' raw es v next e appended = simp e (rw appended refl)

  pub attach_pair :
      (st st' : ParseState) (ps : List (Pair Value)) (k : Option (List ℕ)) (v : Value)
      (next : List ParseState)
      → st.cont_val ≡ object ps k
      → append_value limits st v ≡ ok st'
      → attach limits v (st ∷ next) ≡ ok (st' ∷ next)
  unfolding attach
  attach_pair st st' ps k v next e appended = simp e (rw appended refl)

  -- The tokens of a part of an array or an object put it into the innermost state.
  pub part_step :
      (token : Token) (v : Value) (st st' : ParseState) (res : Option Value)
      (next : List ParseState) (tail : List Event)
      → has_value token ≡ true
      → attach limits v (st ∷ next) ≡ ok (st' ∷ next)
      → ((s : Scalar)
          → v ≡ Value.scalar s
          → push_gtype_value_scalar limits (st ∷ next) token (some (part (Value.scalar s)))
            ≡ ok (none, st' ∷ next))
      → Whole v
      → (res' : Option Value) × (push_all limits (preorder token v ++ tail) res (st ∷ next)
          ≡ push_all limits tail res' (st' ∷ next))
  unfolding push_all preorder Whole
  part_step token (Value.scalar s) st st' res next tail set attached entry whole =
      (none, rw (set, entry s refl) refl)
  part_step token v st st' res next tail set attached entry whole =
      (some v, whole token res (st ∷ next) tail refl ∙ rw attached refl)

  -- A popped state whose container is `v`.
  pub pop_then :
      (v : Value) (p : List ParseState) (tail : List Event)
      → (pop_state limits p v >>= (λ pushed. push_all limits tail pushed.0 pushed.1))
        ≡ (attach limits v p >>= (λ p'. push_all limits tail (some v) p'))
  unfolding pop_state
  pop_then v p tail =
      bind_map (attach limits v p) (λ p'. (some v, p'))
        (λ pushed. push_all limits tail pushed.0 pushed.1)

  -- Sorting what is in order already changes nothing, and reports no equal keys.
  abbrev pub KeepsSorted : Type 0
  KeepsSorted =
      (ps : List (Pair Value)) → IsIncreasing (pair_keys ps) → limits.qsort_arg ps ≡ (ps, false)

  pub keep_sorted :
      KeepsSorted
      → (ps : List (Pair Value)) → IsIncreasing (pair_keys ps)
      → uniqueify_gtype_object limits.qsort_arg ps ≡ ps
  unfolding uniqueify_gtype_object
  keep_sorted keeps [] up = refl
  keep_sorted keeps (p ∷ []) up = refl
  keep_sorted keeps (p ∷ q ∷ ps) up = rw (keeps (p ∷ q ∷ ps) up) refl
