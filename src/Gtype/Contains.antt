-- ===== src/Gtype/Contains.antt =====
-- gtype_deep_contains of gtype_util.c. A failed Assert is a crash. The loops have fuel for one round
-- more than the contained container has parts, the binary search for one more than the object has
-- pairs; the fuel of gtype_deep_contains bounds the depth of its recursion.
pub mod Spec
pub mod Loops
pub mod Elements
pub mod Contained
pub mod Tests
use post_graph.Prelude.{
  ℕ, zero, suc, ◌+◌, Bool, true, false, ◌&&◌, not, List, [], ◌∷◌, ◌++◌, ltb, if◌then◌else◌, Option,
  none, some, is_some, Report, Outcome, ok, error, ◌>>=◌, ◌==◌,
}
use post_graph.Gtype.Scalar.{Scalar, scalar_type, ScalarOps}
use post_graph.Gtype.Scalar.Compare.{equals_gtype_scalar_value}
use post_graph.Gtype.Value.{Value, is_a_gtype_scalar, gtype_container_size}
use post_graph.Gtype.Iterator.{
  Token, Iterator, Seen, part, array_head, object_head, Next, gtype_iterator_init,
  gtype_iterator_next,
}
use post_graph.Gtype.Find.{is_element, find_gtype_value_from_container}

-- How the recursion is called: with the iterators of the two containers.
abbrev pub Call : Type 0
Call = List Iterator → List Iterator → Outcome Bool

unfoldable pub call_nested : Call → (lhs rhs : Value) → Outcome Bool
call_nested rec lhs rhs =
    gtype_iterator_init lhs
    >>= (λ nestval. gtype_iterator_init rhs >>= (λ nest_contained. rec nestval nest_contained))

abbrev pub add_element : (List Iterator → Outcome (List Value)) → Next → Outcome (List Value)
add_element later (Token.wgt_elem, some (part (Value.scalar s)), val) = later val
add_element later (Token.wgt_elem, some (part v), val) = later val >>= (λ rest. ok (v ∷ rest))
add_element later _ = Outcome.crash

-- All elements of the left side are read once, and the containers among them kept.
unfoldable pub collect : (num_lhs_elems : ℕ) → List Iterator → Outcome (List Value)
collect zero val = ok []
collect (suc num) val = gtype_iterator_next val true >>= add_element (collect num)

-- Whether some container of the left side contains the one of the right.
unfoldable pub first_containing : Call → (lhs_conts : List Value) → Value → Outcome Bool
first_containing rec [] rhs = ok false
first_containing rec (lhs ∷ conts) rhs =
    let later = first_containing rec conts rhs in
    call_nested rec lhs rhs >>= (λ contains. if contains then ok true else later)

abbrev pub continue_if : Outcome Bool → Outcome Bool → Outcome Bool
continue_if test later = test >>= (λ b. if b then later else ok false)

abbrev pub collected : ℕ → List Iterator → Option (List Value) → Outcome (List Value)
collected num_lhs_elems val none = collect num_lhs_elems val
collected num_lhs_elems val (some lhs_conts) = ok lhs_conts

module _ (ops : ScalarOps) (rec : Call) where
  -- A value of the right side against the value of the left that has the same key.
  unfoldable pub value_contained : Value → Value → Outcome Bool
  value_contained (Value.scalar a) (Value.scalar b) =
      if scalar_type a == scalar_type b then equals_gtype_scalar_value ops a b else ok false
  value_contained (Value.scalar a) rhs = ok false
  value_contained lhs (Value.scalar b) = ok false
  value_contained lhs rhs = call_nested rec lhs rhs

  unfoldable pub pair_value : (again : List Iterator → Outcome Bool) → Value → Next → Outcome Bool
  pair_value again lhs_val (Token.wgt_value, some (part v), it) =
      continue_if (value_contained lhs_val v) (again it)
  pair_value again lhs_val _ = Outcome.crash

  unfoldable pub found_pair :
      (again : List Iterator → Outcome Bool) → List Iterator → Option Value → Outcome Bool
  found_pair again it none = ok false
  found_pair again it (some lhs_val) = gtype_iterator_next it true >>= pair_value again lhs_val

  unfoldable pub pair_key :
      (container : Value) → (again : List Iterator → Outcome Bool) → Next → Outcome Bool
  pair_key container again (Token.wgt_end_object, seen, it) = ok true
  pair_key container again (Token.wgt_key, some (part (Value.scalar key)), it) =
      find_gtype_value_from_container ops (suc (gtype_container_size container)) container false
        true key
      >>= found_pair again it
  pair_key container again _ = Outcome.crash

  unfoldable pub object_loop : (fuel : ℕ) → (container : Value) → List Iterator → Outcome Bool
  object_loop zero container m_contained = Outcome.out_of_fuel
  object_loop (suc fuel) container m_contained =
      gtype_iterator_next m_contained false >>= pair_key container (object_loop fuel container)

  unfoldable pub element :
      (val : List Iterator)
      → (container : Value) → (num_lhs_elems : ℕ)
      → (again : Option (List Value) → List Iterator → Outcome Bool) → Option (List Value)
      → Next
      → Outcome Bool
  element val container num again lhs_conts (Token.wgt_end_array, seen, it) = ok true
  element val container num again lhs_conts (Token.wgt_elem, some (part (Value.scalar s)), it) =
      find_gtype_value_from_container ops 0 container true false s
      >>= (λ found. if is_some found then again lhs_conts it else ok false)
  element val container num again lhs_conts (Token.wgt_elem, some (part v), it) =
      collected num val lhs_conts
      >>= (λ conts. continue_if (first_containing rec conts v) (again (some conts) it))
  element val container num again lhs_conts _ = Outcome.crash

  unfoldable pub array_loop :
      (fuel : ℕ)
      → (val : List Iterator) → (container : Value) → (num_lhs_elems : ℕ)
      → (lhs_conts : Option (List Value)) → List Iterator
      → Outcome Bool
  array_loop zero val container num lhs_conts m_contained = Outcome.out_of_fuel
  array_loop (suc fuel) val container num lhs_conts m_contained =
      gtype_iterator_next m_contained true
      >>= element val container num (array_loop fuel val container num) lhs_conts

  -- The two heads. `(*val)->container` is that of the iterator on top.
  unfoldable pub contains_heads : Next → Next → Outcome Bool
  contains_heads (Token.wgt_begin_object, some (object_head n), it ∷ val)
        (Token.wgt_begin_object, some (object_head k), m) =
      if ltb n k then ok false else object_loop (suc k) it.container m
  contains_heads (Token.wgt_begin_array, some (array_head n raw), it ∷ val)
        (Token.wgt_begin_array, some (array_head k raw'), m) =
      if raw && not raw' then ok false else array_loop (suc k) (it ∷ val) it.container n none m
  contains_heads (Token.wgt_begin_object, seen, val) (Token.wgt_begin_array, seen', m) = ok false
  contains_heads (Token.wgt_begin_array, seen, val) (Token.wgt_begin_object, seen', m) = ok false
  contains_heads (Token.wgt_begin_vector, seen, val) (Token.wgt_begin_vector, seen', m) =
      error Report.invalid_container
  contains_heads _ _ = Outcome.crash

unfoldable pub gtype_deep_contains : (fuel : ℕ) → ScalarOps → Call
gtype_deep_contains zero ops val m_contained = Outcome.out_of_fuel
gtype_deep_contains (suc fuel) ops val m_contained = gtype_iterator_next val false >>= (λ rval.
    gtype_iterator_next m_contained false
    >>= contains_heads ops (gtype_deep_contains fuel ops) rval)
