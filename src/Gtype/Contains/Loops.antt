-- ===== src/Gtype/Contains/Loops.antt =====
-- The loop over the pairs of an object in gtype_deep_contains against the specification, when the
-- recursive calls are right.
use post_graph.Prelude.{
  ℕ, zero, suc, ◌+◌, ◌<◌, ◌≡◌, refl, inl, inr, true, false, List, [], ◌∷◌, length, some,
  Option-cases, Bool-cases, arith,
}
use mathlib.Core.Path.{subst}
use post_graph.Gtype.Scalar.{ScalarOps}
use post_graph.Gtype.Object.{length_compare_gtype_string_value}
use post_graph.Prelude.Int.{is_zero}
use post_graph.Gtype.Value.{Value, Values, Fields, is_a_gtype_scalar, keys, field_values}
use post_graph.Gtype.Iterator.{IteratorState, enter_or_return}
use post_graph.Gtype.Iterator.Calls.{
  IsRest, cursor, IsRest-next, IsRest-head, object_end_call, key_call, value_call,
}
use post_graph.Gtype.Builder.Loop.{IsIncreasing}
use post_graph.Gtype.Find.Sorted.{lookup, find_gtype_value_from_container-lookup}
use post_graph.Gtype.Contains.{
  Call, call_nested, value_contained, pair_value, found_pair, pair_key, object_loop,
}
use post_graph.Gtype.Contains.Spec.{contained, pairs_contained}

-- The keys of every object are in increasing order.
abbrev mutual
  pub IsOrdered : Value → Type 0
  IsOrdered (Value.scalar s) = Unit
  IsOrdered (Value.array raw vs) = AreOrdered vs
  IsOrdered (Value.object fs) = IsIncreasing (keys fs) × FieldsOrdered fs
  IsOrdered (Value.vector xs) = Unit

  pub AreOrdered : Values → Type 0
  AreOrdered Values.no_values = Unit
  AreOrdered (Values.value v vs) = IsOrdered v × AreOrdered vs

  pub FieldsOrdered : Fields → Type 0
  FieldsOrdered Fields.no_fields = Unit
  FieldsOrdered (Fields.field k v fs) = IsOrdered v × FieldsOrdered fs

lookup-IsOrdered :
    (key : List ℕ) (fs : Fields) (v : Value)
    → FieldsOrdered fs
    → lookup key fs ≡ some v
    → IsOrdered v
unfolding lookup
lookup-IsOrdered key Fields.no_fields v ordered found = cc
lookup-IsOrdered key (Fields.field k w fs) v (o, ordered) found =
    elim (Bool-cases (is_zero (length_compare_gtype_string_value k key))) [
      | inl here ↦ let same : w ≡ v = cc (rw here at found) in subst IsOrdered same o
      | inr later ↦ lookup-IsOrdered key fs v ordered (rw later at found)
    ]

module _ (ops : ScalarOps) (rec : Call) where
  -- The recursive call is right for this container on the right side.
  abbrev pub IsRight : Value → Type 0
  IsRight v =
      (lhs : Value)
      → is_a_gtype_scalar v ≡ false
      → is_a_gtype_scalar lhs ≡ false
      → IsOrdered lhs
      → call_nested rec lhs v ≡ contained ops v lhs

  abbrev pub AreRight : Values → Type 0
  AreRight Values.no_values = Unit
  AreRight (Values.value v vs) = IsRight v × AreRight vs

  abbrev pub FieldsRight : Fields → Type 0
  FieldsRight Fields.no_fields = Unit
  FieldsRight (Fields.field k v fs) = IsRight v × FieldsRight fs

  value_contained-contained :
      (lhs v : Value)
      → IsRight v
      → IsOrdered lhs
      → value_contained ops rec lhs v ≡ contained ops v lhs
  unfolding value_contained contained
  value_contained-contained (Value.scalar a) (Value.scalar b) right o = refl
  value_contained-contained (Value.scalar a) (Value.array raw vs) right o = refl
  value_contained-contained (Value.scalar a) (Value.object fs) right o = refl
  value_contained-contained (Value.scalar a) (Value.vector xs) right o = refl
  value_contained-contained (Value.array r ws) (Value.scalar b) right o = refl
  value_contained-contained (Value.object gs) (Value.scalar b) right o = refl
  value_contained-contained (Value.vector ys) (Value.scalar b) right o = refl
  value_contained-contained (Value.array r ws) (Value.array raw vs) right o =
      right (Value.array r ws) refl refl o
  value_contained-contained (Value.array r ws) (Value.object fs) right o =
      right (Value.array r ws) refl refl o
  value_contained-contained (Value.array r ws) (Value.vector xs) right o =
      right (Value.array r ws) refl refl o
  value_contained-contained (Value.object gs) (Value.array raw vs) right o =
      right (Value.object gs) refl refl o
  value_contained-contained (Value.object gs) (Value.object fs) right o =
      right (Value.object gs) refl refl o
  value_contained-contained (Value.object gs) (Value.vector xs) right o =
      right (Value.object gs) refl refl o
  value_contained-contained (Value.vector ys) (Value.array raw vs) right o =
      right (Value.vector ys) refl refl o
  value_contained-contained (Value.vector ys) (Value.object fs) right o =
      right (Value.vector ys) refl refl o
  value_contained-contained (Value.vector ys) (Value.vector xs) right o =
      right (Value.vector ys) refl refl o

  pub object_loop-pairs_contained :
      (all rest gs : Fields) (i fuel : ℕ)
      → IsRest (keys all) i (keys rest)
      → IsRest (field_values all) i (field_values rest)
      → IsIncreasing (keys gs)
      → FieldsOrdered gs
      → FieldsRight rest
      → length (keys rest) < fuel
      → object_loop ops rec fuel
          (Value.object gs)
          (cursor (Value.object all) false i IteratorState.gti_object_key ∷ [])
        ≡ pairs_contained ops rest gs
  unfolding object_loop contained pair_key found_pair pair_value enter_or_return
  object_loop-pairs_contained all rest gs i zero ks vs up o right enough =
      absurd (omega (arith, enough))
  object_loop-pairs_contained all Fields.no_fields gs i (suc fuel) (len, at) vs up o right enough =
      rw (object_end_call all i [] false (omega (arith, len))) refl
  object_loop-pairs_contained all (Fields.field k v fs) gs i (suc fuel) (len, at) vs up o (r, right)
        enough =
      let key =
        key_call all i [] false k (omega (arith, len))
          (IsRest-head (keys all) i k (keys fs) (len, at)) in
      let val =
        value_call all i [] true v (IsRest-head (field_values all) i v (field_values fs) vs) in
      let later =
        object_loop-pairs_contained all fs gs (i + 1) fuel
          (IsRest-next (keys all) i k (keys fs) (len, at))
          (IsRest-next (field_values all) i v (field_values fs) vs) up o right
          (omega (arith, enough)) in
      let found =
        find_gtype_value_from_container-lookup ops (suc (length (keys gs))) gs false k up
          (omega arith) in
      elim (Option-cases (lookup k gs)) [
        | inl missing ↦ rw (key, found, missing) refl
        | inr (w, present) ↦
            rw
              (
                key,
                found,
                present,
                val,
                value_contained-contained w v r (lookup-IsOrdered k gs w o present),
                later,
              )
              refl
      ]
