-- ===== src/Gtype/Builder.antt =====
-- Building a container from tokens: push_gtype_value, push_gtype_value_scalar, push_state,
-- append_key, append_value and append_element of gtype_util.c. A gtype_parse_state and the ones that
-- `next` leads to are a list, the innermost first. `capacity` is the number of parts that the
-- allocated block has room for; a write_part behind it, a NULL pointer and a failed Assert are a crash.
-- Of the result of a BEGIN token, a pointer to the container that the state holds, nothing is kept.
pub mod Tokens
pub mod Loop
pub mod Steps
pub mod Pushed
pub mod Tests
use post_graph.Prelude.{
  ℕ, zero, suc, ◌+◌, ◌*◌, Bool, true, false, List, [], ◌∷◌, ◌++◌, ltb, leb, if◌then◌else◌, length,
  Option, none, some, Report, Outcome, ok, error, ◌>>=◌,
}
use post_graph.Gtype.Object.{Pair, uniqueify_gtype_object}
use post_graph.Gtype.Scalar.{Float8, Scalar}
use post_graph.Gtype.Value.{Value, Values, Fields, is_a_gtype_scalar}
use post_graph.Gtype.Iterator.{
  Token, Iterator, Seen, part, array_head, Next, gtype_iterator_init, gtype_iterator_next,
}

-- The container that a state builds; `key` is the key that append_key has written behind the pairs.
-- The numbers of a vector have no bound here, while Vector.dim of gtype.h is a uint16.
pub data Building : Type 0 where
  array : (raw_scalar : Bool) → (elems : List Value) → Building
  object : (pairs : List (Pair Value)) → (key : Option (List ℕ)) → Building
  vector : (x : List Float8) → Building

pub record ParseState : Type 0 where
  pub size : ℕ
  pub capacity : ℕ
  pub cont_val : Building

-- GTYPE_MAX_ELEMS, GTYPE_MAX_PAIRS, what `size` of a new state happens to hold (palloc leaves it as it
-- is, and WGT_BEGIN_VECTOR does not set it), and qsort_arg.
pub record Limits : Type 0 where
  pub max_elems : ℕ
  pub max_pairs : ℕ
  pub unset_size : ℕ
  pub qsort_arg : List (Pair Value) → List (Pair Value) × Bool

abbrev pub values : List Value → Values
values [] = Values.no_values
values (v ∷ vs) = Values.value v (values vs)

abbrev pub fields : List (Pair Value) → Fields
fields [] = Fields.no_fields
fields (p ∷ ps) = Fields.field p.key p.value (fields ps)

abbrev pub token_done : Token → Bool
token_done Token.wgt_done = true
token_done _ = false

-- `tok < WGT_BEGIN_ARRAY`
abbrev pub has_value : Token → Bool
has_value Token.wgt_done = true
has_value Token.wgt_key = true
has_value Token.wgt_value = true
has_value Token.wgt_vector_value = true
has_value Token.wgt_elem = true
has_value _ = false

-- What a push returns, and the state behind it.
abbrev pub Pushed : Type 0
Pushed = Option Value × List ParseState

-- `if (num >= size) { size *= 2; repalloc }`
unfoldable pub enlarge : ParseState → (num : ℕ) → ParseState
enlarge st num =
    if leb st.size num then record st { size = st.size * 2; capacity = st.size * 2 } else st

-- The container, with the part at index `num` written.
unfoldable pub write_part : ParseState → (num : ℕ) → Building → Outcome ParseState
write_part st num cont_val =
    if ltb num st.capacity then ok (record st { cont_val = cont_val }) else Outcome.crash

module _ (limits : Limits) where
  unfoldable pub append_key : ParseState → List ℕ → Outcome ParseState
  append_key st string = append st.cont_val
    where
      append : Building → Outcome ParseState
      append (object pairs key) =
          if leb limits.max_pairs (length pairs)
          then error Report.too_many
          else write_part (enlarge st (length pairs)) (length pairs) (object pairs (some string))
      append _ = Outcome.crash

  -- A value with no key before it makes a pair with an unset key: here a crash.
  unfoldable pub append_value : ParseState → Value → Outcome ParseState
  append_value st scalar_val = append st.cont_val
    where
      append : Building → Outcome ParseState
      append (object pairs (some key)) = write_part st (length pairs) (
          object (pairs ++ (record { key = key; order = length pairs; value = scalar_val } ∷ []))
            none)
      append _ = Outcome.crash

  unfoldable pub append_element : ParseState → Value → Outcome ParseState
  append_element st scalar_val = append st.cont_val
    where
      append : Building → Outcome ParseState
      append (array raw elems) =
          if leb limits.max_elems (length elems)
          then error Report.too_many
          else write_part (enlarge st (length elems)) (length elems)
              (array raw (elems ++ (scalar_val ∷ [])))
      append _ = Outcome.crash

  unfoldable pub append_number : ParseState → Float8 → Outcome ParseState
  append_number st x = append st.cont_val
    where
      append : Building → Outcome ParseState
      append (vector xs) = write_part (enlarge st (length xs)) (length xs) (vector (xs ++ (x ∷ [])))
      append _ = Outcome.crash

  -- The last part of a pop_state: the finished container goes into the container around it.
  unfoldable pub attach : Value → List ParseState → Outcome (List ParseState)
  attach result [] = ok []
  attach result (st ∷ next) = into st.cont_val
    where
      into : Building → Outcome (List ParseState)
      into (array raw elems) = append_element st result >>= (λ st'. ok (st' ∷ next))
      into (object pairs key) = append_value st result >>= (λ st'. ok (st' ∷ next))
      into (vector xs) = error Report.invalid_container

  -- The finished container, and the Assert of uniqueify_gtype_object.
  unfoldable pub finish : Building → Value
  finish (array raw elems) = Value.array raw (values elems)
  finish (object pairs key) = Value.object (fields pairs)
  finish (vector xs) = Value.vector xs

  unfoldable pub finish_object : Building → Outcome Value
  finish_object (object pairs key) =
      ok (Value.object (fields (uniqueify_gtype_object limits.qsort_arg pairs)))
  finish_object _ = Outcome.crash

  -- The state is popped, and its container goes into the one around it.
  unfoldable pub pop_state : List ParseState → Value → Outcome Pushed
  pop_state next result = attach result next >>= (λ next'. ok (some result, next'))

  -- `raw_scalar` and `size` of a new array, by the pseudo array that may be passed.
  abbrev pub array_state : Option Seen → Outcome ParseState
  array_state none = ok (record { size = 4; capacity = 4; cont_val = array false [] })
  array_state (some (array_head zero raw)) =
      ok (record { size = 4; capacity = 4; cont_val = array raw [] })
  array_state (some (array_head (suc n) raw)) =
      ok (record { size = suc n; capacity = suc n; cont_val = array raw [] })
  array_state (some _) = Outcome.crash

  -- A call that leaves the state in `st'` and returns no container.
  abbrev pub append_result : List ParseState → Outcome ParseState → Outcome Pushed
  append_result next result = result >>= (λ st'. ok (none, st' ∷ next))

  unfoldable pub push_gtype_value_scalar : List ParseState → Token → Option Seen → Outcome Pushed
  push_gtype_value_scalar pstate Token.wgt_begin_array val = append_result pstate (array_state val)
  push_gtype_value_scalar pstate Token.wgt_begin_object none =
      append_result pstate (ok (record { size = 4; capacity = 4; cont_val = object [] none }))
  push_gtype_value_scalar pstate Token.wgt_begin_vector val =
      append_result pstate
        (ok (record { size = limits.unset_size; capacity = 4; cont_val = vector [] }))
  push_gtype_value_scalar (st ∷ next) Token.wgt_vector_value
        (some (part (Value.scalar (Scalar.float x)))) =
      append_result next (append_number st x)
  push_gtype_value_scalar (st ∷ next) Token.wgt_vector_value (some _) =
      error Report.unexpected_value
  push_gtype_value_scalar (st ∷ next) Token.wgt_key (some (part (Value.scalar (Scalar.string k)))) =
      append_result next (append_key st k)
  push_gtype_value_scalar (st ∷ next) Token.wgt_value (some (part (Value.scalar s))) =
      append_result next (append_value st (Value.scalar s))
  push_gtype_value_scalar (st ∷ next) Token.wgt_elem (some (part (Value.scalar s))) =
      append_result next (append_element st (Value.scalar s))
  push_gtype_value_scalar (st ∷ next) Token.wgt_end_object none =
      finish_object st.cont_val >>= pop_state next
  push_gtype_value_scalar (st ∷ next) Token.wgt_end_vector none =
      pop_state next (finish st.cont_val)
  push_gtype_value_scalar (st ∷ next) Token.wgt_end_array none = pop_state next (finish st.cont_val)
  push_gtype_value_scalar pstate Token.wgt_done val = error Report.state_token
  push_gtype_value_scalar pstate _ val = Outcome.crash

  -- The loop that unpacks a serialized container.
  unfoldable pub unpack_loop :
      (fuel : ℕ) → List Iterator → Option Value → List ParseState → Outcome Pushed
  unpack_loop zero it res pstate = Outcome.out_of_fuel
  unpack_loop (suc fuel) it res pstate = gtype_iterator_next it false >>= (λ next.
      if token_done next.0
      then ok (res, pstate)
      else push_gtype_value_scalar pstate next.0 (if has_value next.0 then next.1 else none)
        >>= (λ pushed. unpack_loop fuel next.2 pushed.0 pushed.1))

  unfoldable pub push_gtype_value :
      (fuel : ℕ) → List ParseState → Token → Option Seen → Outcome Pushed
  push_gtype_value fuel pstate Token.wgt_elem (some (part v)) =
      let unpacked = gtype_iterator_init v >>= (λ it. unpack_loop fuel it none pstate) in
      if is_a_gtype_scalar v
      then push_gtype_value_scalar pstate Token.wgt_elem (some (part v))
      else unpacked
  push_gtype_value fuel pstate Token.wgt_value (some (part v)) =
      let unpacked = gtype_iterator_init v >>= (λ it. unpack_loop fuel it none pstate) in
      if is_a_gtype_scalar v
      then push_gtype_value_scalar pstate Token.wgt_value (some (part v))
      else unpacked
  push_gtype_value fuel pstate seq agtval = push_gtype_value_scalar pstate seq agtval
