-- ===== src/Text/Input/Pushes.antt =====
-- About the actions of gtype_in that push a token: whether they end.
use post_graph.Prelude.{
  ℕ, ◌≡◌, refl, Bool, true, List, [], ◌∷◌, ◌++◌, length, Option, none, some, Outcome, ok, ◌>>=◌,
  Returns, Anything, Returns->>=, arith,
}
use post_graph.Gtype.Scalar.{Scalar}
use post_graph.Gtype.Value.{Value}
use post_graph.Gtype.Iterator.{Token, part, array_head}
use post_graph.Gtype.Builder.{
  Building, array, object, vector, ParseState, Limits, Pushed, append_key, append_value,
  append_element, attach, finish, finish_object, enlarge, write_part, pop_state,
  push_gtype_value_scalar, push_gtype_value,
}
use post_graph.Text.Input.{
  push, check_string_length, gtype_in_object_end, gtype_in_array_end, gtype_in_object_field_start,
  push_scalar,
}

pub Returns-map {ℓ κ} :
    {A : Type ℓ} {B : Type κ} (first : Outcome A) (f : A → B)
    → Returns Anything first
    → Returns Anything (first >>= (λ value. ok (f value)))
Returns-map first f p = Returns->>= Anything _ first _ p (λ value done. tt)

pub Returns-check_string_length : (s : List ℕ) → Returns Anything (check_string_length s)
unfolding check_string_length
Returns-check_string_length s = ground arith

Returns-write_part :
    (st : ParseState) (num : ℕ) (cont_val : Building)
    → Returns Anything (write_part st num cont_val)
unfolding write_part
Returns-write_part st num cont_val = ground arith

module _ (limits : Limits) where
  Returns-append_key : (st : ParseState) (k : List ℕ) → Returns Anything (append_key limits st k)
  unfolding append_key
  Returns-append_key st k = go st.cont_val refl
    where
      go : (b : Building) → st.cont_val ≡ b → Returns Anything (append_key limits st k)
      go (array raw elems) e = rw e tt
      go (object pairs key) e = rw e (
          ground (
            arith,
            Returns-write_part (enlarge st (length pairs)) (length pairs) (object pairs (some k)),
          ))
      go (vector xs) e = rw e tt

  Returns-append_value : (st : ParseState) (v : Value) → Returns Anything (append_value limits st v)
  unfolding append_value
  Returns-append_value st v = go st.cont_val refl
    where
      go : (b : Building) → st.cont_val ≡ b → Returns Anything (append_value limits st v)
      go (array raw elems) e = rw e tt
      go (object pairs (some key)) e = rw e (Returns-write_part _ (length pairs) _)
      go (object pairs none) e = rw e tt
      go (vector xs) e = rw e tt

  Returns-append_element :
      (st : ParseState) (v : Value) → Returns Anything (append_element limits st v)
  unfolding append_element
  Returns-append_element st v = go st.cont_val refl
    where
      go : (b : Building) → st.cont_val ≡ b → Returns Anything (append_element limits st v)
      go (array raw elems) e = rw e (
          ground (
            arith,
            Returns-write_part (enlarge st (length elems)) (length elems)
                (array raw (elems ++ (v ∷ []))),
          ))
      go (object pairs key) e = rw e tt
      go (vector xs) e = rw e tt

  Returns-attach :
      (result : Value) (next : List ParseState) → Returns Anything (attach limits result next)
  unfolding attach
  Returns-attach result [] = tt
  Returns-attach result (st ∷ next) = go st.cont_val refl
    where
      go : (b : Building) → st.cont_val ≡ b → Returns Anything (attach limits result (st ∷ next))
      go (array raw elems) e = rw e (Returns-map _ _ (Returns-append_element _ result))
      go (object pairs key) e = rw e (Returns-map _ _ (Returns-append_value _ result))
      go (vector xs) e = rw e tt

  Returns-pop_state :
      (next : List ParseState) (result : Value) → Returns Anything (pop_state limits next result)
  unfolding pop_state
  Returns-pop_state next result = Returns-map _ _ (Returns-attach result next)

  Returns-finish_object : (b : Building) → Returns Anything (finish_object limits b)
  unfolding finish_object
  Returns-finish_object (array raw elems) = tt
  Returns-finish_object (object pairs key) = tt
  Returns-finish_object (vector xs) = tt

  -- The actions end.
  pub Returns-gtype_in_object_end :
      (state : Pushed) → Returns Anything (gtype_in_object_end limits state)
  unfolding gtype_in_object_end push_gtype_value push_gtype_value_scalar
  Returns-gtype_in_object_end (res, []) = tt
  Returns-gtype_in_object_end (res, st ∷ next) =
      Returns->>= Anything _ (finish_object limits st.cont_val) _
        (Returns-finish_object st.cont_val) (λ result done. Returns-pop_state next result)

  pub Returns-gtype_in_array_end :
      (state : Pushed) → Returns Anything (gtype_in_array_end limits state)
  unfolding gtype_in_array_end push_gtype_value push_gtype_value_scalar
  Returns-gtype_in_array_end (res, []) = tt
  Returns-gtype_in_array_end (res, st ∷ next) = Returns-pop_state next (finish limits st.cont_val)

  Returns-push_key :
      (state : Pushed) (key : List ℕ)
      → Returns Anything
          (push limits state Token.wgt_key (some (part (Value.scalar (Scalar.string key)))))
  unfolding push_gtype_value push_gtype_value_scalar
  Returns-push_key (res, []) key = tt
  Returns-push_key (res, st ∷ next) key = Returns-map _ _ (Returns-append_key st key)

  pub Returns-gtype_in_object_field_start :
      (state : Pushed) (fname : Option (List ℕ)) (isnull : Bool)
      → Returns Anything (gtype_in_object_field_start limits state fname isnull)
  unfolding gtype_in_object_field_start
  Returns-gtype_in_object_field_start state none isnull = tt
  Returns-gtype_in_object_field_start state (some fname) isnull =
      Returns->>= Anything _ (check_string_length fname) _ (Returns-check_string_length fname)
        (λ key done. Returns-push_key state key)

  Returns-push_array :
      (res : Option Value)
      → Returns Anything (push limits (res, []) Token.wgt_begin_array (some (array_head 1 true)))
  unfolding push_gtype_value push_gtype_value_scalar
  Returns-push_array res = tt

  Returns-push_element :
      (state : Pushed) (v : Scalar)
      → Returns Anything (push limits state Token.wgt_elem (some (part (Value.scalar v))))
  unfolding push_gtype_value push_gtype_value_scalar
  Returns-push_element (res, []) v = tt
  Returns-push_element (res, st ∷ next) v =
      Returns-map _ _ (Returns-append_element st (Value.scalar v))

  Returns-push_value :
      (state : Pushed) (v : Scalar)
      → Returns Anything (push limits state Token.wgt_value (some (part (Value.scalar v))))
  unfolding push_gtype_value push_gtype_value_scalar
  Returns-push_value (res, []) v = tt
  Returns-push_value (res, st ∷ next) v = Returns-map _ _ (Returns-append_value st (Value.scalar v))

  pub Returns-push_scalar :
      (state : Pushed) (v : Scalar) → Returns Anything (push_scalar limits state v)
  unfolding push_scalar gtype_in_array_end
  Returns-push_scalar (res, []) v =
      Returns->>= Anything _
        (push limits (res, []) Token.wgt_begin_array (some (array_head 1 true))) _
        (Returns-push_array res)
        (λ begun done.
          Returns->>= Anything _ (push limits begun Token.wgt_elem (some (part (Value.scalar v)))) _
            (Returns-push_element begun v) (λ filled done'. Returns-gtype_in_array_end filled))
  Returns-push_scalar (res, st ∷ next) v = go st.cont_val refl
    where
      go :
          (b : Building)
          → st.cont_val ≡ b
          → Returns Anything (push_scalar limits (res, st ∷ next) v)
      go (array raw elems) e =
          rw e (Returns-push_element (res, record st { cont_val = array raw elems } ∷ next) v)
      go (object pairs key) e =
          rw e (Returns-push_value (res, record st { cont_val = object pairs key } ∷ next) v)
      go (vector xs) e = rw e tt
