-- ===== src/Gtype/Builder/Pushed.antt =====
-- Pushing the tokens of a container builds the container again.
use post_graph.Prelude.{
  ℕ, suc, ◌+◌, ◌≤◌, ◌<◌, ◌≡◌, refl, sym, ap, ◌∙◌, Bool, false, List, [], ◌∷◌, ◌++◌, leb, length,
  length-append, Option, none, some, Outcome, ok, ◌>>=◌, arith,
}
use mathlib.Core.List.{append_assoc, append-nil}
use post_graph.Gtype.Object.{Pair, uniqueify_gtype_object}
use post_graph.Gtype.Scalar.{Float8}
use post_graph.Gtype.Value.{Value, Values, Fields, is_a_gtype_scalar, elements, keys}
use post_graph.Gtype.Iterator.{Token, part}
use post_graph.Gtype.Iterator.Preorder.{
  Event, preorder, preorder_values, preorder_fields, vector_events,
}
use post_graph.Gtype.Builder.{
  array, object, vector, ParseState, Limits, values, enlarge, write_part, append_number, attach,
  finish, finish_object, push_gtype_value_scalar, push_gtype_value,
}
use post_graph.Gtype.Builder.Loop.{
  push_gtype_value-push_all, IsBuilt, AreBuilt, FieldsBuilt, push_all,
}
use post_graph.Gtype.Builder.Steps.{
  Holds, numbered, Whole, KeepsSorted, element_room, pair_room, push_numbers, attach_element,
  attach_pair, part_step, values-elements, fields-numbered, pair_keys-numbered, pop_then,
  keep_sorted,
}

module _ (limits : Limits) (room : 0 < limits.unset_size) (short : limits.unset_size ≤ 4)
    (keeps : KeepsSorted limits) where
  mutual
    unfolding push_all preorder push_gtype_value_scalar Whole finish finish_object

    whole : (v : Value) → IsBuilt limits v → Whole limits v
    whole (Value.scalar s) built token res p tail h = cc
    whole (Value.array raw vs) (plain, fit, built) token res p tail h =
        let (st', res', run, e) =
          run_values vs false [] (record { size = 4; capacity = 4; cont_val = array false [] }) none
            p ((Token.wgt_end_array, none) ∷ tail) built (omega (arith, fit))
            (refl, (omega arith, omega arith, omega arith)) in
        let back : Value.array raw vs ≡ Value.array false (values (elements vs)) =
          rw (plain, values-elements vs) refl in
        rw (append_assoc (preorder_values vs) ((Token.wgt_end_array, none) ∷ []) tail)
          (run ∙ rw (e, back) (pop_then limits (Value.array false (values (elements vs))) p tail))
    whole (Value.object fs) (fit, up, built) token res p tail h =
        let (st', res', run, e) =
          run_fields fs [] (record { size = 4; capacity = 4; cont_val = object [] none }) none p
            ((Token.wgt_end_object, none) ∷ tail) built (omega (arith, fit))
            (refl, (omega arith, omega arith, omega arith)) in
        let sorted : uniqueify_gtype_object limits.qsort_arg (numbered 0 fs) ≡ numbered 0 fs =
          keep_sorted limits keeps (numbered 0 fs) (rw (pair_keys-numbered 0 fs) up) in
        rw (append_assoc (preorder_fields fs) ((Token.wgt_end_object, none) ∷ []) tail)
          (run ∙ rw (e, sorted, fields-numbered 0 fs) (pop_then limits (Value.object fs) p tail))
    whole (Value.vector xs) built token res p tail h =
        let (st', res', run, e) =
          push_numbers limits xs []
            (record { size = limits.unset_size; capacity = 4; cont_val = vector [] }) none p
            ((Token.wgt_end_vector, none) ∷ tail) (refl, (room, omega arith, short)) in
        rw (append_assoc (vector_events xs) ((Token.wgt_end_vector, none) ∷ []) tail)
          (run ∙ rw e (pop_then limits (Value.vector xs) p tail))

    run_values :
        (vs : Values) (raw : Bool) (done : List Value) (st : ParseState) (res : Option Value)
        (next : List ParseState) (tail : List Event)
        → AreBuilt limits vs
        → length done + length (elements vs) ≤ limits.max_elems
        → Holds st (array raw done) (length done)
        → (st' : ParseState) × (res' : Option Value) × (push_all limits
              (preorder_values vs ++ tail)
              res
              (st ∷ next)
            ≡ push_all limits tail res' (st' ∷ next))
          × (st'.cont_val ≡ array raw (done ++ elements vs))
    run_values Values.no_values raw done st res next tail built fit (e, roomy) =
        (st, res, refl, e ∙ ap (array raw) (sym (append-nil done)))
    run_values (Values.value v vs) raw done st res next tail (b, built) fit (e, roomy) =
        let (st1, appended, holds) =
          element_room limits st raw done v (e, roomy) (omega (arith, fit)) in
        let (res1, step) =
          part_step limits Token.wgt_elem v st st1 res next (preorder_values vs ++ tail) refl
            (attach_element limits st st1 raw done v next e appended)
            (λ s same. rw (sym same, appended) refl) (whole v b) in
        let (st', res', run, e') =
          run_values vs raw (done ++ (v ∷ [])) st1 res1 next tail built
            (omega (arith, fit, length-append done (v ∷ []))) holds in
        (
          st',
          res',
          rw (append_assoc (preorder Token.wgt_elem v) (preorder_values vs) tail) (step ∙ run),
          e' ∙ ap (array raw) (append_assoc done (v ∷ []) (elements vs)),
        )

    run_fields :
        (fs : Fields) (done : List (Pair Value)) (st : ParseState) (res : Option Value)
        (next : List ParseState) (tail : List Event)
        → FieldsBuilt limits fs
        → length done + length (keys fs) ≤ limits.max_pairs
        → Holds st (object done none) (length done)
        → (st' : ParseState) × (res' : Option Value) × (push_all limits
              (preorder_fields fs ++ tail)
              res
              (st ∷ next)
            ≡ push_all limits tail res' (st' ∷ next))
          × (st'.cont_val ≡ object (done ++ numbered (length done) fs) none)
    run_fields Fields.no_fields done st res next tail built fit (e, roomy) =
        (st, res, refl, e ∙ ap (λ ps. object ps none) (sym (append-nil done)))
    run_fields (Fields.field k v fs) done st res next tail (b, built) fit (e, roomy) =
        let pair : Pair Value = record { key = k; order = length done; value = v } in
        let (st1, keyed, st2, appended, e1, holds) =
          pair_room limits st done k v (e, roomy) (omega (arith, fit)) in
        let (res1, step) =
          part_step limits Token.wgt_value v st1 st2 none next (preorder_fields fs ++ tail) refl
            (attach_pair limits st1 st2 done (some k) v next e1 appended)
            (λ s same. rw (sym same, appended) refl) (whole v b) in
        let n : length (done ++ (pair ∷ [])) ≡ length done + 1 = length-append done (pair ∷ []) in
        let (st', res', run, e') =
          run_fields fs (done ++ (pair ∷ [])) st2 res1 next tail built (omega (arith, fit, n))
            (rw n holds) in
        (
          st',
          res',
          rw (keyed, append_assoc (preorder Token.wgt_value v) (preorder_fields fs) tail)
              (step ∙ run),
          e' ∙ rw (n, append_assoc done (pair ∷ []) (numbered (length done + 1) fs)) refl,
        )

  -- When qsort_arg keeps what is in order, the size that a vector's state happens to hold is from 1
  -- to 4, the container is within the limits, its keys are in increasing order and it has no pseudo
  -- array, and there is fuel for its tokens: push_gtype_value, which iterates over the serialized
  -- container and pushes its tokens, returns the same container, and puts it into the innermost
  -- state that was there before, if any, as one value.
  pub push_gtype_value-attach :
      (fuel : ℕ) (pstate : List ParseState) (v : Value)
      → IsBuilt limits v
      → is_a_gtype_scalar v ≡ false
      → length (preorder Token.wgt_elem v) < fuel
      → push_gtype_value limits fuel pstate Token.wgt_elem (some (part v))
        ≡ (attach limits v pstate >>= (λ pstate'. ok (some v, pstate')))
  unfolding Whole push_all
  push_gtype_value-attach fuel pstate v built container enough =
      push_gtype_value-push_all limits fuel pstate v container enough
      ∙ ap (λ events. push_all limits events none pstate)
          (sym (append-nil (preorder Token.wgt_elem v)))
      ∙ whole v built Token.wgt_elem none pstate [] container

length-vector_events : (xs : List Float8) → length (vector_events xs) ≡ length xs
unfolding vector_events
length-vector_events [] = refl
length-vector_events (x ∷ xs) = ap suc (length-vector_events xs)

module _ (limits : Limits) where
  -- When the size that a new state happens to hold is more than 4, a vector of five numbers or more
  -- is not pushed: the fifth number is written behind the block that WGT_BEGIN_VECTOR allocates.
  pub push_vector-crash :
      (fuel : ℕ) (pstate : List ParseState) (a b c d e : Float8) (xs : List Float8)
      → 4 < limits.unset_size
      → length xs + 7 < fuel
      → push_gtype_value limits fuel pstate Token.wgt_elem
          (some (part (Value.vector (a ∷ b ∷ c ∷ d ∷ e ∷ xs))))
        ≡ Outcome.crash
  unfolding push_all preorder vector_events push_gtype_value_scalar append_number enlarge write_part
  push_vector-crash fuel pstate a b c d e xs big enough =
      push_gtype_value-push_all limits fuel pstate (Value.vector (a ∷ b ∷ c ∷ d ∷ e ∷ xs)) refl (
        omega (
          arith,
          enough,
          length-vector_events xs,
          length-append (vector_events xs) ((Token.wgt_end_vector, none) ∷ []),
        ))
      ∙ simp
          (
            full 0 (omega (arith, big)),
            full 1 (omega (arith, big)),
            full 2 (omega (arith, big)),
            full 3 (omega (arith, big)),
            full 4 (omega (arith, big)),
          )
          refl
    where
      full : (n : ℕ) → n < limits.unset_size → leb limits.unset_size n ≡ false
      full n less = ground (arith, less)
