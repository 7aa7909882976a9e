-- ===== src/Gtype/Contains/Elements.antt =====
-- The loop over the elements of an array against the specification.
use post_graph.Prelude.{
  ℕ, zero, suc, ◌+◌, ◌<◌, ◌≡◌, refl, sym, Bool, true, false, List, [], ◌∷◌, if◌then◌else◌, length,
  Option, some, is_some, ok, ◌==◌, arith,
}
use post_graph.Gtype.Scalar.{Scalar, ScalarOps}
use post_graph.Gtype.Value.{Value, Values, is_a_gtype_scalar, elements}
use post_graph.Gtype.Iterator.{IteratorState, enter_or_return}
use post_graph.Gtype.Iterator.Calls.{
  IsRest, cursor, IsRest-next, IsRest-head, array_end_call, elem_call,
}
use post_graph.Gtype.Builder.Loop.{bind_map}
use post_graph.Gtype.Find.{search_elements, find_gtype_value_from_container}
use post_graph.Gtype.Contains.{Call, collect, first_containing, collected, element, array_loop}
use post_graph.Gtype.Contains.Spec.{any, contained, elements_contained}
use post_graph.Gtype.Contains.Loops.{AreOrdered, IsRight, AreRight}

module _ (ops : ScalarOps) (rec : Call) where
  abbrev pub containers : List Value → List Value
  containers [] = []
  containers (Value.scalar s ∷ vs) = containers vs
  containers (v ∷ vs) = v ∷ containers vs

  pub collect-containers :
      (raw : Bool) (all : Values) (rest : List Value) (i : ℕ)
      → IsRest (elements all) i rest
      → collect (length rest) (cursor (Value.array raw all) raw i IteratorState.gti_array_elem ∷ [])
        ≡ ok (containers rest)
  unfolding collect enter_or_return
  collect-containers raw all [] i h = refl
  collect-containers raw all (Value.scalar s ∷ vs) i (len, at) =
      rw
        (elem_call raw all i [] true (Value.scalar s) (omega (arith, len))
          (IsRest-head (elements all) i (Value.scalar s) vs (len, at)))
        (collect-containers raw all vs (i + 1)
          (IsRest-next (elements all) i (Value.scalar s) vs (len, at)))
  collect-containers raw all (v ∷ vs) i (len, at) =
      rw
        (
          elem_call raw all i [] true v (omega (arith, len))
              (IsRest-head (elements all) i v vs (len, at)),
          collect-containers raw all vs (i + 1) (IsRest-next (elements all) i v vs (len, at)),
        )
        refl

  first_containing-any :
      (v : Value) (xs : Values)
      → is_a_gtype_scalar v ≡ false
      → IsRight ops rec v
      → AreOrdered xs
      → first_containing rec (containers (elements xs)) v ≡ any (contained ops v) (elements xs)
  unfolding first_containing any
  first_containing-any v Values.no_values h right o = refl
  first_containing-any v (Values.value (Value.scalar s) xs) h right (o, ordered) =
      first_containing-any v xs h right ordered
  first_containing-any v (Values.value lhs xs) h right (o, ordered) =
      rw (right lhs h refl o, first_containing-any v xs h right ordered) refl

  find_element :
      (raw : Bool) (xs : Values) (s : Scalar)
      → find_gtype_value_from_container ops 0 (Value.array raw xs) true false s
        ≡ search_elements ops s (elements xs)
  unfolding find_gtype_value_from_container search_elements
  find_element raw Values.no_values s = refl
  find_element raw (Values.value v xs) s =
      let some_elem : (suc (length (elements xs)) == 0) ≡ false = ground arith in rw some_elem refl

  pub array_loop-elements_contained :
      (raw raw' : Bool) (all rest xs : Values) (conts : Option (List Value)) (i fuel : ℕ)
      → IsRest (elements all) i (elements rest)
      → AreOrdered xs
      → AreRight ops rec rest
      → collected
          (length (elements xs))
          (cursor (Value.array raw xs) raw 0 IteratorState.gti_array_elem ∷ [])
          conts
        ≡ ok (containers (elements xs))
      → length (elements rest) < fuel
      → array_loop ops rec fuel
          (cursor (Value.array raw xs) raw 0 IteratorState.gti_array_elem ∷ [])
          (Value.array raw xs)
          (length (elements xs))
          conts
          (cursor (Value.array raw' all) raw' i IteratorState.gti_array_elem ∷ [])
        ≡ elements_contained ops rest (elements xs)
  unfolding array_loop contained element enter_or_return
  array_loop-elements_contained raw raw' all rest xs conts i zero h o right c enough =
      absurd (omega (arith, enough))
  array_loop-elements_contained raw raw' all Values.no_values xs conts i (suc fuel) (len, at) o
        right c enough =
      rw (array_end_call raw' all i [] true (omega (arith, len))) refl
  array_loop-elements_contained raw raw' all (Values.value (Value.scalar s) vs) xs conts i
        (suc fuel) (len, at) o (r, right) c enough =
      rw
        (
          elem_call raw' all i [] true (Value.scalar s) (omega (arith, len))
              (IsRest-head (elements all) i (Value.scalar s) (elements vs) (len, at)),
          find_element raw xs s,
          array_loop-elements_contained raw raw' all vs xs conts (i + 1) fuel
              (IsRest-next (elements all) i (Value.scalar s) (elements vs) (len, at)) o right c
              (omega (arith, enough)),
        )
        (sym (
          bind_map (search_elements ops s (elements xs)) is_some
            (λ b. if b then elements_contained ops vs (elements xs) else ok false)))
  array_loop-elements_contained raw raw' all (Values.value v vs) xs conts i (suc fuel) (len, at) o
        (r, right) c enough =
      rw
        (
          elem_call raw' all i [] true v (omega (arith, len))
              (IsRest-head (elements all) i v (elements vs) (len, at)),
          c,
          first_containing-any v xs refl r o,
          array_loop-elements_contained raw raw' all vs xs (some (containers (elements xs))) (i + 1)
              fuel (IsRest-next (elements all) i v (elements vs) (len, at)) o right refl
              (omega (arith, enough)),
        )
        refl
