-- ===== src/Gtype/Find.antt =====
-- Finding a part of a container: find_gtype_value_from_container and
-- get_ith_gtype_value_from_container of gtype_util.c. NULL is none. The bounds of the binary search
-- are below 2^28, so no sum of them wraps.
pub mod Sorted
pub mod Tests
use post_graph.Prelude.{
  ℕ, zero, suc, ◌+◌, ◌-◌, ◌/◌, Bool, true, false, ◌&&◌, List, [], ◌∷◌, ◌==◌, ltb, leb,
  if◌then◌else◌, length, get_elem?, Option, none, some, Report, Outcome, ok, error, ◌>>=◌, or_crash,
  map_ok,
}
use post_graph.Prelude.Int.{ℤ, pos, negsuc, is_zero}
use post_graph.Gtype.Object.{length_compare_gtype_string_value}
use post_graph.Gtype.Scalar.{Scalar, scalar_type, ScalarOps}
use post_graph.Gtype.Scalar.Compare.{equals_gtype_scalar_value}
use post_graph.Gtype.Value.{
  Value, Values, Fields, elements, keys, field_values, gtype_container_size,
}
use post_graph.Gtype.Iterator.{fill_gtype_value}

abbrev pub is_negative : ℤ → Bool
is_negative (pos n) = false
is_negative (negsuc n) = true

-- `while (stop_low < stop_high)`
unfoldable pub search_keys :
    (fuel : ℕ) → Fields → List ℕ → (stop_low stop_high : ℕ) → Outcome (Option Value)
search_keys zero fs key stop_low stop_high = Outcome.out_of_fuel
search_keys (suc fuel) fs key stop_low stop_high =
    let stop_middle = stop_low + (stop_high - stop_low) / 2 in
    if ltb stop_low stop_high
    then or_crash (get_elem? (keys fs) stop_middle) >>= (λ candidate.
      let difference = length_compare_gtype_string_value candidate key in
      if is_zero difference
      then map_ok some (fill_gtype_value (Value.object fs) (stop_middle + length (keys fs)))
      else if is_negative difference
      then search_keys fuel fs key (stop_middle + 1) stop_high
      else search_keys fuel fs key stop_low stop_middle)
    else ok none

module _ (ops : ScalarOps) where
  -- The type of a nested container is AGTV_BINARY, which no scalar has.
  unfoldable pub is_element : Scalar → Value → Outcome Bool
  is_element key (Value.scalar s) =
      if scalar_type key == scalar_type s then equals_gtype_scalar_value ops key s else ok false
  is_element key _ = ok false

  unfoldable pub search_elements : Scalar → List Value → Outcome (Option Value)
  search_elements key [] = ok none
  search_elements key (result ∷ rest) =
      let later = search_elements key rest in
      is_element key result >>= (λ same. if same then ok (some result) else later)

  unfoldable pub find_gtype_value_from_container :
      (fuel : ℕ) → Value → (array_flag object_flag : Bool) → Scalar → Outcome (Option Value)
  find_gtype_value_from_container fuel container array_flag object_flag key =
      if gtype_container_size container == 0
      then ok none
      else find container array_flag object_flag key
    where
      find : Value → (array_flag object_flag : Bool) → Scalar → Outcome (Option Value)
      find (Value.array raw vs) true object_flag key' = search_elements key' (elements vs)
      find (Value.object fs) array_flag true (Scalar.string k) =
          search_keys fuel fs k 0 (length (keys fs))
      find (Value.object fs) array_flag true key' = Outcome.crash
      find container' array_flag object_flag key' = ok none

unfoldable pub get_ith_gtype_value_from_container : Value → ℕ → Outcome (Option Value)
get_ith_gtype_value_from_container (Value.array raw vs) i =
    if leb (length (elements vs)) i
    then ok none
    else map_ok some (fill_gtype_value (Value.array raw vs) i)
get_ith_gtype_value_from_container container i = error Report.invalid_container
