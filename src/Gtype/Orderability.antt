-- ===== src/Gtype/Orderability.antt =====
-- compare_gtype_containers_orderability of gtype_util.c. A gtype_value that no call has set is read
-- as a crash; the loop has fuel.
pub mod Reflexive
pub mod Types
pub mod Tests
use post_graph.Prelude.{
  ℕ, zero, suc, ◌+◌, Bool, true, false, ◌&&◌, ◌||◌, not, List, [], ◌∷◌, ltb, if◌then◌else◌, Option,
  none, some, Report, Outcome, ok, error, ◌>>=◌, ◌==◌,
}
use post_graph.Prelude.Int.{ℤ, pos, negsuc, is_zero, ltb_ℤ}
use post_graph.Gtype.Scalar.{
  Scalar, scalar_type, ScalarOps, get_type_sort_priority, agtv_array, agtv_object,
}
use post_graph.Gtype.Scalar.Compare.{compare_gtype_scalar_values}
use post_graph.Gtype.Value.{Value}
use post_graph.Gtype.Iterator.{
  Token, Iterator, Seen, part, array_head, object_head, vector_head, Next, gtype_iterator_init,
  gtype_iterator_next,
}

abbrev pub agtv_vector : ℕ
agtv_vector = 258

abbrev pub agtv_binary : ℕ
agtv_binary = 259

abbrev pub seen_type : Seen → ℕ
seen_type (part (Value.scalar s)) = scalar_type s
seen_type (part v) = agtv_binary
seen_type (array_head n raw) = agtv_array
seen_type (object_head n) = agtv_object
seen_type (vector_head n) = agtv_vector

-- The types of which two different ones are compared by their values.
unfoldable pub mixes : ℕ → Bool
mixes t =
    t == 3
    || t == 4
    || t == 2
    || t == 6
    || t == 8
    || t == 7
    || t == 10
    || t == 9
    || t == 12
    || t == 30
    || t == 31
    || t == 32
    || t == 33
    || t == 34
    || t == 29

-- The test reads `va.type == AGTV_CIDR` in the part on vb too.
unfoldable pub compared_by_value : (va vb : ℕ) → Bool
compared_by_value va vb = (va == vb) || ((mixes va || va == 13) && (mixes vb || va == 13))

-- `get_type_sort_priority(va.type) < get_type_sort_priority(vb.type) ? -1 : 1`
unfoldable pub type_order : (va vb : ℕ) → ℤ
type_order va vb =
    if ltb_ℤ (get_type_sort_priority va) (get_type_sort_priority vb) then negsuc 0 else pos 1

-- What a round leaves: the result is decided, or both iterations go on.
pub data Verdict : Type 0 where
  decided : ℤ → Verdict
  again : (ita itb : List Iterator) → Verdict

abbrev pub decide : ℤ → (ita itb : List Iterator) → Outcome Verdict
decide res ita itb = ok (if is_zero res then again ita itb else decided res)

abbrev pub is_end : Token → Bool
is_end Token.wgt_end_array = true
is_end Token.wgt_end_object = true
is_end Token.wgt_end_vector = true
is_end _ = false

-- The number of a token in the enum.
abbrev pub token_number : Token → ℕ
token_number Token.wgt_done = 0
token_number Token.wgt_key = 1
token_number Token.wgt_value = 2
token_number Token.wgt_vector_value = 3
token_number Token.wgt_elem = 4
token_number Token.wgt_begin_array = 5
token_number Token.wgt_end_array = 6
token_number Token.wgt_begin_object = 7
token_number Token.wgt_end_object = 8
token_number Token.wgt_begin_vector = 9
token_number Token.wgt_end_vector = 10

-- The type of a value that the call has set.
abbrev pub set_type : Option Seen → Outcome ℕ
set_type none = Outcome.crash
set_type (some seen) = ok (seen_type seen)

unfoldable pub compare_types :
    Option Seen → Option Seen → (ita itb : List Iterator) → Outcome Verdict
compare_types va vb ita itb =
    set_type va >>= (λ ta. set_type vb >>= (λ tb. decide (type_order ta tb) ita itb))

module _ (ops : ScalarOps) where
  -- The types of the switch; the others are reported.
  abbrev pub compare_known : Scalar → Scalar → Outcome ℤ
  compare_known (Scalar.other t d) vb = error Report.unexpected_value
  compare_known va vb = compare_gtype_scalar_values ops va vb

  unfoldable pub compare_values : Seen → Seen → (ita itb : List Iterator) → Outcome Verdict
  compare_values (part (Value.scalar a)) (part (Value.scalar b)) ita itb =
      compare_known a b >>= (λ res. decide res ita itb)
  compare_values (array_head n true) (array_head k false) ita itb =
      gtype_iterator_next ita false
      >>= (λ next. compare_types next.1 (some (array_head k false)) next.2 itb)
  compare_values (array_head n false) (array_head k true) ita itb =
      gtype_iterator_next itb false
      >>= (λ next. compare_types (some (array_head n false)) next.1 ita next.2)
  compare_values (array_head n raw) (array_head k raw') ita itb = ok (again ita itb)
  compare_values (vector_head n) (vector_head k) ita itb = ok (again ita itb)
  compare_values (object_head n) (object_head k) ita itb = ok (again ita itb)
  compare_values (part (Value.scalar a)) vb ita itb = Outcome.crash
  compare_values _ vb ita itb = error Report.unexpected_value

  -- Two calls that returned the same token, which is not WGT_DONE and ends no container.
  unfoldable pub compare_same :
      Option Seen → Option Seen → (ita itb : List Iterator) → Outcome Verdict
  compare_same (some va) (some vb) ita itb =
      if compared_by_value (seen_type va) (seen_type vb)
      then compare_values va vb ita itb
      else compare_types (some va) (some vb) ita itb
  compare_same va vb ita itb = Outcome.crash

  -- Two calls that returned different tokens; the Assert wants the types to differ.
  unfoldable pub compare_different :
      Token → Token → Option Seen → Option Seen → (ita itb : List Iterator) → Outcome Verdict
  compare_different ra rb va vb ita itb =
      if is_end ra
      then ok (decided (negsuc 0))
      else if is_end rb
      then ok (decided (pos 1))
      else set_type va >>= (λ ta.
        set_type vb >>= (λ tb. if ta == tb then Outcome.crash else compare_types va vb ita itb))

  unfoldable pub compare_round : Next → Next → Outcome Verdict
  compare_round (ra, va, ita) (rb, vb, itb) =
      if token_number ra == token_number rb
      then (if token_number ra == 0
          then ok (decided (pos 0))
          else if is_end ra
          then ok (again ita itb)
          else compare_same va vb ita itb)
      else compare_different ra rb va vb ita itb

  abbrev pub go_on : (List Iterator → List Iterator → Outcome ℤ) → Verdict → Outcome ℤ
  go_on later (decided res) = ok res
  go_on later (again ita itb) = later ita itb

  -- `do … while (res == 0)`
  unfoldable pub compare_loop : (fuel : ℕ) → (ita itb : List Iterator) → Outcome ℤ
  compare_loop zero ita itb = Outcome.out_of_fuel
  compare_loop (suc fuel) ita itb = gtype_iterator_next ita false >>= (λ a.
      gtype_iterator_next itb false >>= (λ b. compare_round a b >>= go_on (compare_loop fuel)))

  unfoldable pub compare_gtype_containers_orderability : (fuel : ℕ) → Value → Value → Outcome ℤ
  compare_gtype_containers_orderability fuel a b =
      gtype_iterator_init a
      >>= (λ ita. gtype_iterator_init b >>= (λ itb. compare_loop fuel ita itb))
