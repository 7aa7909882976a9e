-- ===== src/Gtype/Iterator.antt =====
-- The iterator over a container: gtype_iterator_init, iterator_from_container, gtype_iterator_next,
-- free_and_get_parent and fill_gtype_value of gtype_util.c. An iterator and its parents are a list,
-- the innermost first; NULL is the empty list. The data offsets that the iterator carries along are
-- left out: a part is read by its index.
pub mod Calls
pub mod Preorder
pub mod Tests
use post_graph.Prelude.{
  ℕ, ◌+◌, ◌-◌, Bool, true, false, List, [], ◌∷◌, ltb, leb, if◌then◌else◌, length, get_elem?, Option,
  none, some, Report, Outcome, ok, error, ◌>>=◌, or_crash,
}
use post_graph.Gtype.Scalar.{Float8, Scalar}
use post_graph.Gtype.Value.{
  Value, is_a_gtype_scalar, elements, keys, field_values, gtype_container_size,
}

-- gtype_iterator_token
pub data Token : Type 0 where
  wgt_done wgt_key wgt_value wgt_vector_value wgt_elem : Token
  wgt_begin_array wgt_end_array wgt_begin_object wgt_end_object : Token
  wgt_begin_vector wgt_end_vector : Token

-- gt_iterator_state
pub data IteratorState : Type 0 where
  gti_array_start gti_array_elem gti_object_start gti_object_key gti_object_value : IteratorState
  gti_vector_start gti_vector_value : IteratorState

pub record Iterator : Type 0 where
  pub container : Value
  pub num_elems : ℕ
  pub is_scalar : Bool
  pub curr_index : ℕ
  pub state : IteratorState

-- What the caller's gtype_value is set to: a part, or the head of a container that begins.
pub data Seen : Type 0 where
  part : Value → Seen
  array_head : (num_elems : ℕ) → (raw_scalar : Bool) → Seen
  object_head : (num_pairs : ℕ) → Seen
  vector_head : (dim : ℕ) → Seen

-- The token, the value if it is set, and the iterator that the caller goes on with.
abbrev pub Next : Type 0
Next = Token × Option Seen × List Iterator

unfoldable pub fill_gtype_value : Value → ℕ → Outcome Value
fill_gtype_value (Value.scalar s) index = Outcome.crash
fill_gtype_value (Value.array raw vs) index = or_crash (get_elem? (elements vs) index)
fill_gtype_value (Value.object fs) index =
    if ltb index (length (keys fs))
    then or_crash (get_elem? (keys fs) index) >>= (λ k. ok (Value.scalar (Scalar.string k)))
    else or_crash (get_elem? (field_values fs) (index - length (keys fs)))
fill_gtype_value (Value.vector xs) index = Outcome.crash

-- The number at an index of a vector, read as a float8.
unfoldable pub vector_number : Value → ℕ → Outcome Float8
vector_number (Value.vector xs) index = or_crash (get_elem? xs index)
vector_number _ index = Outcome.crash

abbrev pub created : Value → Bool → IteratorState → Iterator
created v raw s = record {
  container = v;
  num_elems = gtype_container_size v;
  is_scalar = raw;
  curr_index = 0;
  state = s;
}

unfoldable pub iterator_from_container : Value → List Iterator → Outcome (List Iterator)
iterator_from_container (Value.scalar s) parent = error Report.invalid_container
iterator_from_container (Value.array raw vs) parent =
    ok (created (Value.array raw vs) raw IteratorState.gti_array_start ∷ parent)
iterator_from_container (Value.object fs) parent =
    ok (created (Value.object fs) false IteratorState.gti_object_start ∷ parent)
iterator_from_container (Value.vector xs) parent =
    ok (created (Value.vector xs) false IteratorState.gti_vector_start ∷ parent)

unfoldable pub gtype_iterator_init : Value → Outcome (List Iterator)
gtype_iterator_init container = iterator_from_container container []

abbrev pub set_state : Iterator → IteratorState → Iterator
set_state it s = record it { state = s }

abbrev pub restart : Iterator → IteratorState → Iterator
restart it s = record it { curr_index = 0; state = s }

abbrev pub advanced : Iterator → IteratorState → Iterator
advanced it s = record it { curr_index = it.curr_index + 1; state = s }

-- The states in which the processing of a container begins.
unfoldable pub next_start : IteratorState → Iterator → (parent : List Iterator) → Outcome Next
next_start IteratorState.gti_array_start it parent = ok (
  Token.wgt_begin_array,
  some (array_head it.num_elems it.is_scalar),
  restart it IteratorState.gti_array_elem ∷ parent,
)
next_start IteratorState.gti_object_start it parent = ok (
  Token.wgt_begin_object,
  some (object_head it.num_elems),
  restart it IteratorState.gti_object_key ∷ parent,
)
next_start IteratorState.gti_vector_start it parent = ok (
  Token.wgt_begin_vector,
  some (vector_head it.num_elems),
  restart it IteratorState.gti_vector_value ∷ parent,
)
next_start _ it parent = error Report.state_token

-- `goto recurse`: an iterator that iterator_from_container has just made.
unfoldable pub recurse : List Iterator → Outcome Next
recurse [] = ok (Token.wgt_done, none, [])
recurse (it ∷ parent) = next_start it.state it parent

-- An element or a value has been read; `its` has the iterator behind it on top.
unfoldable pub enter_or_return : Token → (skip_nested : Bool) → List Iterator → Value → Outcome Next
enter_or_return token true its val = ok (token, some (part val), its)
enter_or_return token false its val =
    let child = iterator_from_container val its >>= recurse in
    if is_a_gtype_scalar val then ok (token, some (part val), its) else child

unfoldable pub next_in :
    IteratorState → Iterator → (parent : List Iterator) → (skip_nested : Bool) → Outcome Next
next_in IteratorState.gti_array_elem it parent skip_nested =
    if leb it.num_elems it.curr_index
    then ok (Token.wgt_end_array, none, parent)
    else fill_gtype_value it.container it.curr_index
      >>= enter_or_return Token.wgt_elem skip_nested
          (advanced it IteratorState.gti_array_elem ∷ parent)
next_in IteratorState.gti_object_key it parent skip_nested =
    if leb it.num_elems it.curr_index
    then ok (Token.wgt_end_object, none, parent)
    else fill_gtype_value it.container it.curr_index >>= (λ val.
      ok (Token.wgt_key, some (part val), set_state it IteratorState.gti_object_value ∷ parent))
next_in IteratorState.gti_object_value it parent skip_nested =
    fill_gtype_value it.container (it.curr_index + it.num_elems)
    >>= enter_or_return Token.wgt_value skip_nested
        (advanced it IteratorState.gti_object_key ∷ parent)
next_in IteratorState.gti_vector_value it parent skip_nested =
    if leb it.num_elems it.curr_index
    then ok (Token.wgt_end_vector, none, parent)
    else vector_number it.container it.curr_index >>= (λ x. ok (
      Token.wgt_vector_value,
      some (part (Value.scalar (Scalar.float x))),
      advanced it IteratorState.gti_vector_value ∷ parent,
    ))
next_in s it parent skip_nested = next_start s it parent

unfoldable pub gtype_iterator_next : List Iterator → (skip_nested : Bool) → Outcome Next
gtype_iterator_next [] skip_nested = ok (Token.wgt_done, none, [])
gtype_iterator_next (it ∷ parent) skip_nested = next_in it.state it parent skip_nested
