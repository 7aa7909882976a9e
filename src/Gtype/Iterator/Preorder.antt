-- ===== src/Gtype/Iterator/Preorder.antt =====
-- The tokens of a whole iteration: the pre-order traversal of the container.
use post_graph.Prelude.{
  ℕ, ◌+◌, ◌≡◌, refl, ◌∙◌, Bool, false, List, [], ◌∷◌, ◌++◌, length, Option, none, some, ok, arith,
}
use mathlib.Core.List.{append_assoc}
use post_graph.Gtype.Scalar.{Float8, Scalar}
use post_graph.Gtype.Value.{Value, Values, Fields, is_a_gtype_scalar, elements, keys, field_values}
use post_graph.Gtype.Iterator.{
  Token, IteratorState, Iterator, Seen, created, part, array_head, object_head, vector_head,
  iterator_from_container, next_start, recurse, enter_or_return, next_in, gtype_iterator_next,
}
use post_graph.Gtype.Iterator.Calls.{
  IsRest, cursor, IsRest-start, IsRest-next, IsRest-head, array_end_call, elem_call,
  object_end_call, key_call, value_call, vector_end_call, number_call,
}

-- A token and the value that was set with it.
abbrev pub Event : Type 0
Event = Token × Option Seen

-- Calls of gtype_iterator_next, not skipping nested containers, that return the events in turn.
pub data Runs : List Iterator → List Event → List Iterator → Type 0 where
  stop : {its : List Iterator} → Runs its [] its
  call :
      {its its' last : List Iterator} {token : Token} {seen : Option Seen} {events : List Event}
      → gtype_iterator_next its false ≡ ok (token, seen, its')
      → Runs its' events last
      → Runs its ((token, seen) ∷ events) last

unfoldable pub vector_events : List Float8 → List Event
vector_events [] = []
vector_events (x ∷ xs) =
    (Token.wgt_vector_value, some (part (Value.scalar (Scalar.float x)))) ∷ vector_events xs

-- The traversal of a value: a scalar is one event with the token of the place it stands at.
unfoldable mutual
  pub preorder : Token → Value → List Event
  preorder token (Value.scalar s) = (token, some (part (Value.scalar s))) ∷ []
  preorder token (Value.array raw vs) =
      (Token.wgt_begin_array, some (array_head (length (elements vs)) raw))
      ∷ (preorder_values vs ++ ((Token.wgt_end_array, none) ∷ []))
  preorder token (Value.object fs) =
      (Token.wgt_begin_object, some (object_head (length (keys fs))))
      ∷ (preorder_fields fs ++ ((Token.wgt_end_object, none) ∷ []))
  preorder token (Value.vector xs) =
      (Token.wgt_begin_vector, some (vector_head (length xs)))
      ∷ (vector_events xs ++ ((Token.wgt_end_vector, none) ∷ []))

  pub preorder_values : Values → List Event
  preorder_values Values.no_values = []
  preorder_values (Values.value v vs) = preorder Token.wgt_elem v ++ preorder_values vs

  pub preorder_fields : Fields → List Event
  preorder_fields Fields.no_fields = []
  preorder_fields (Fields.field k v fs) =
      (Token.wgt_key, some (part (Value.scalar (Scalar.string k))))
      ∷ (preorder Token.wgt_value v ++ preorder_fields fs)

Runs-append :
    {a b c : List Iterator} {events events' : List Event}
    → Runs a events b
    → Runs b events' c
    → Runs a (events ++ events') c
Runs-append Runs.stop r = r
Runs-append (Runs.call e q) r = Runs.call e (Runs-append q r)

run_numbers :
    (all rest : List Float8) (i : ℕ) (its : List Iterator)
    → IsRest all i rest
    → Runs
        (cursor (Value.vector all) false i IteratorState.gti_vector_value ∷ its)
        (vector_events rest ++ ((Token.wgt_end_vector, none) ∷ []))
        its
unfolding vector_events
run_numbers all [] i its (len, at) =
    Runs.call (vector_end_call all i its (omega (arith, len))) Runs.stop
run_numbers all (x ∷ xs) i its (len, at) =
    Runs.call (number_call all i its x (omega (arith, len)) (IsRest-head all i x xs (len, at)))
      (run_numbers all xs (i + 1) its (IsRest-next all i x xs (len, at)))

-- The first event of a nested value, and then the rest of its events.
Enters : Token → Value → List Iterator → Type 0
Enters token v its =
    (first : Token) × (seen : Option Seen) × (inner : List Iterator) × (events : List Event)
    × (preorder token v ≡ (first, seen) ∷ events)
    × (enter_or_return token false its v ≡ ok (first, seen, inner))
    × Runs inner events its

-- A call that enters a value, and then the events of the value and the later ones.
run_entered :
    (token : Token) (v : Value) (later tail : List Event) {a b its : List Iterator}
    → Enters token v b
    → gtype_iterator_next a false ≡ enter_or_return token false b v
    → Runs b (later ++ tail) its
    → Runs a ((preorder token v ++ later) ++ tail) its
unfolding Enters
run_entered token v later tail (first, seen, inner, events, e, enter, run) entering rest =
    rw (e, append_assoc events later tail) (Runs.call (entering ∙ enter) (Runs-append run rest))

mutual
  unfolding Enters preorder enter_or_return iterator_from_container recurse next_start

  enters : (token : Token) (v : Value) (its : List Iterator) → Enters token v its
  enters token (Value.scalar s) its =
      (token, some (part (Value.scalar s)), its, [], refl, refl, Runs.stop)
  enters token (Value.array raw vs) its = (
    Token.wgt_begin_array,
    some (array_head (length (elements vs)) raw),
    cursor (Value.array raw vs) raw 0 IteratorState.gti_array_elem ∷ its,
    preorder_values vs ++ ((Token.wgt_end_array, none) ∷ []),
    refl,
    refl,
    run_values raw vs vs 0 its (IsRest-start (elements vs)),
  )
  enters token (Value.object fs) its = (
    Token.wgt_begin_object,
    some (object_head (length (keys fs))),
    cursor (Value.object fs) false 0 IteratorState.gti_object_key ∷ its,
    preorder_fields fs ++ ((Token.wgt_end_object, none) ∷ []),
    refl,
    refl,
    run_fields fs fs 0 its (IsRest-start (keys fs)) (IsRest-start (field_values fs)),
  )
  enters token (Value.vector xs) its = (
    Token.wgt_begin_vector,
    some (vector_head (length xs)),
    cursor (Value.vector xs) false 0 IteratorState.gti_vector_value ∷ its,
    vector_events xs ++ ((Token.wgt_end_vector, none) ∷ []),
    refl,
    refl,
    run_numbers xs xs 0 its (IsRest-start xs),
  )

  run_values :
      (raw : Bool) (all rest : Values) (i : ℕ) (its : List Iterator)
      → IsRest (elements all) i (elements rest)
      → Runs
          (cursor (Value.array raw all) raw i IteratorState.gti_array_elem ∷ its)
          (preorder_values rest ++ ((Token.wgt_end_array, none) ∷ []))
          its
  run_values raw all Values.no_values i its (len, at) =
      Runs.call (array_end_call raw all i its false (omega (arith, len))) Runs.stop
  run_values raw all (Values.value v vs) i its (len, at) =
      let its' = cursor (Value.array raw all) raw (i + 1) IteratorState.gti_array_elem ∷ its in
      let entering =
        elem_call raw all i its false v (omega (arith, len))
          (IsRest-head (elements all) i v (elements vs) (len, at)) in
      let later =
        run_values raw all vs (i + 1) its
          (IsRest-next (elements all) i v (elements vs) (len, at)) in
      run_entered Token.wgt_elem v (preorder_values vs) ((Token.wgt_end_array, none) ∷ [])
        (enters Token.wgt_elem v its') entering later

  run_fields :
      (all rest : Fields) (i : ℕ) (its : List Iterator)
      → IsRest (keys all) i (keys rest)
      → IsRest (field_values all) i (field_values rest)
      → Runs
          (cursor (Value.object all) false i IteratorState.gti_object_key ∷ its)
          (preorder_fields rest ++ ((Token.wgt_end_object, none) ∷ []))
          its
  run_fields all Fields.no_fields i its (len, at) values =
      Runs.call (object_end_call all i its false (omega (arith, len))) Runs.stop
  run_fields all (Fields.field k v fs) i its (len, at) values =
      let its' = cursor (Value.object all) false (i + 1) IteratorState.gti_object_key ∷ its in
      let entering =
        value_call all i its false v
          (IsRest-head (field_values all) i v (field_values fs) values) in
      let later =
        run_fields all fs (i + 1) its (IsRest-next (keys all) i k (keys fs) (len, at))
          (IsRest-next (field_values all) i v (field_values fs) values) in
      Runs.call
        (key_call all i its false k (omega (arith, len))
          (IsRest-head (keys all) i k (keys fs) (len, at)))
        (run_entered Token.wgt_value v (preorder_fields fs) ((Token.wgt_end_object, none) ∷ [])
          (enters Token.wgt_value v its') entering later)

-- For every container, iterator_from_container below any parents succeeds, and the calls of
-- gtype_iterator_next that do not skip nested containers then return the tokens and values of its
-- pre-order traversal, one each, and leave the parents: the iteration ends.
pub iterator_from_container-Runs :
    (token : Token) (v : Value) (its : List Iterator)
    → is_a_gtype_scalar v ≡ false
    → (start : List Iterator) × (iterator_from_container v its ≡ ok start)
      × Runs start (preorder token v) its
unfolding iterator_from_container preorder gtype_iterator_next next_in next_start
iterator_from_container-Runs token (Value.scalar s) its h = cc
iterator_from_container-Runs token (Value.array raw vs) its h = (
  created (Value.array raw vs) raw IteratorState.gti_array_start ∷ its,
  refl,
  Runs.call refl (run_values raw vs vs 0 its (IsRest-start (elements vs))),
)
iterator_from_container-Runs token (Value.object fs) its h = (
  created (Value.object fs) false IteratorState.gti_object_start ∷ its,
  refl,
  Runs.call refl (run_fields fs fs 0 its (IsRest-start (keys fs)) (IsRest-start (field_values fs))),
)
iterator_from_container-Runs token (Value.vector xs) its h = (
  created (Value.vector xs) false IteratorState.gti_vector_start ∷ its,
  refl,
  Runs.call refl (run_numbers xs xs 0 its (IsRest-start xs)),
)
