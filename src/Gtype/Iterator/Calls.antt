-- ===== src/Gtype/Iterator/Calls.antt =====
-- Single calls of gtype_iterator_next at an index of a container.
use post_graph.Prelude.{
  ℕ, suc, ◌+◌, ◌-◌, ◌≤◌, ◌<◌, ◌≡◌, refl, ap, ◌∙◌, Bool, false, List, ◌∷◌, ltb, length, get_elem?,
  none, some, ok, arith,
}
use post_graph.Gtype.Scalar.{Float8, Scalar}
use post_graph.Gtype.Value.{
  Value, Values, Fields, elements, keys, field_values, gtype_container_size,
}
use post_graph.Gtype.Iterator.{
  Token, IteratorState, Iterator, part, fill_gtype_value, vector_number, enter_or_return, next_in,
  gtype_iterator_next,
}

-- `rest` is what the list has from index `i` on.
abbrev pub IsRest : {A : Type 0} → List A → ℕ → List A → Type 0
IsRest all i rest =
    (length all ≡ i + length rest) × ((j : ℕ) → get_elem? all (i + j) ≡ get_elem? rest j)

pub IsRest-start : {A : Type 0} (xs : List A) → IsRest xs 0 xs
IsRest-start xs = (omega arith, λ j. let e : 0 + j ≡ j = omega arith in ap (get_elem? xs) e)

pub IsRest-next :
    {A : Type 0} (all : List A) (i : ℕ) (x : A) (rest : List A)
    → IsRest all i (x ∷ rest)
    → IsRest all (i + 1) rest
IsRest-next all i x rest (len, at) = (
  omega (arith, len),
  λ j. let e : i + 1 + j ≡ i + suc j = omega arith in ap (get_elem? all) e ∙ at (suc j),
)

pub IsRest-head :
    {A : Type 0} (all : List A) (i : ℕ) (x : A) (rest : List A)
    → IsRest all i (x ∷ rest)
    → get_elem? all i ≡ some x
IsRest-head all i x rest (len, at) = let e : i ≡ i + 0 = omega arith in ap (get_elem? all) e ∙ at 0

-- The iterator of a container at an index.
abbrev pub cursor : Value → Bool → ℕ → IteratorState → Iterator
cursor v raw i s = record {
  container = v;
  num_elems = gtype_container_size v;
  is_scalar = raw;
  curr_index = i;
  state = s;
}

module _ (raw : Bool) (all : Values) (i : ℕ) (its : List Iterator) (skip : Bool) where
  pub array_end_call :
      length (elements all) ≤ i
      → gtype_iterator_next
          (cursor (Value.array raw all) raw i IteratorState.gti_array_elem ∷ its)
          skip
        ≡ ok (Token.wgt_end_array, none, its)
  unfolding gtype_iterator_next next_in
  array_end_call e = ground (arith, e)

  pub elem_call :
      (v : Value)
      → i < length (elements all)
      → get_elem? (elements all) i ≡ some v
      → gtype_iterator_next
          (cursor (Value.array raw all) raw i IteratorState.gti_array_elem ∷ its)
          skip
        ≡ enter_or_return Token.wgt_elem skip
            (cursor (Value.array raw all) raw (i + 1) IteratorState.gti_array_elem ∷ its)
            v
  unfolding gtype_iterator_next next_in fill_gtype_value
  elem_call v within at = rw at (ground (arith, within))

module _ (fs : Fields) (i : ℕ) (its : List Iterator) (skip : Bool) where
  pub object_end_call :
      length (keys fs) ≤ i
      → gtype_iterator_next
          (cursor (Value.object fs) false i IteratorState.gti_object_key ∷ its)
          skip
        ≡ ok (Token.wgt_end_object, none, its)
  unfolding gtype_iterator_next next_in
  object_end_call e = ground (arith, e)

  pub key_call :
      (k : List ℕ)
      → i < length (keys fs)
      → get_elem? (keys fs) i ≡ some k
      → gtype_iterator_next
          (cursor (Value.object fs) false i IteratorState.gti_object_key ∷ its)
          skip
        ≡ ok (
          Token.wgt_key,
          some (part (Value.scalar (Scalar.string k))),
          cursor (Value.object fs) false i IteratorState.gti_object_value ∷ its,
        )
  unfolding gtype_iterator_next next_in fill_gtype_value
  key_call k within at = rw at (ground (arith, within))

  pub value_call :
      (v : Value)
      → get_elem? (field_values fs) i ≡ some v
      → gtype_iterator_next
          (cursor (Value.object fs) false i IteratorState.gti_object_value ∷ its)
          skip
        ≡ enter_or_return Token.wgt_value skip
            (cursor (Value.object fs) false (i + 1) IteratorState.gti_object_key ∷ its)
            v
  unfolding gtype_iterator_next next_in fill_gtype_value
  value_call v at =
      let behind : i + length (keys fs) - length (keys fs) ≡ i = omega arith in
      let past : ltb (i + length (keys fs)) (length (keys fs)) ≡ false = ground arith in
      rw (past, behind, at) refl

module _ (xs : List Float8) (i : ℕ) (its : List Iterator) where
  pub vector_end_call :
      length xs ≤ i
      → gtype_iterator_next
          (cursor (Value.vector xs) false i IteratorState.gti_vector_value ∷ its)
          false
        ≡ ok (Token.wgt_end_vector, none, its)
  unfolding gtype_iterator_next next_in
  vector_end_call e = ground (arith, e)

  pub number_call :
      (x : Float8)
      → i < length xs
      → get_elem? xs i ≡ some x
      → gtype_iterator_next
          (cursor (Value.vector xs) false i IteratorState.gti_vector_value ∷ its)
          false
        ≡ ok (
          Token.wgt_vector_value,
          some (part (Value.scalar (Scalar.float x))),
          cursor (Value.vector xs) false (i + 1) IteratorState.gti_vector_value ∷ its,
        )
  unfolding gtype_iterator_next next_in vector_number
  number_call x within at = rw at (ground (arith, within))
