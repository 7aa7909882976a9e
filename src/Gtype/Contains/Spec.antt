-- ===== src/Gtype/Contains/Spec.antt =====
-- Containment of values as a recursion on the contained one, with no iterator.
use post_graph.Prelude.{
  Bool, true, false, ◌&&◌, not, List, [], ◌∷◌, ltb, if◌then◌else◌, length, Option, none, some,
  is_some, Report, Outcome, ok, error, ◌>>=◌, ◌==◌,
}
use post_graph.Gtype.Scalar.{Scalar, scalar_type, ScalarOps}
use post_graph.Gtype.Scalar.Compare.{equals_gtype_scalar_value}
use post_graph.Gtype.Value.{Value, Values, Fields, is_a_gtype_scalar, elements, keys}
use post_graph.Gtype.Find.{search_elements}
use post_graph.Gtype.Find.Sorted.{lookup}

-- The first of the values that the test accepts, if any.
unfoldable pub any : (Value → Outcome Bool) → List Value → Outcome Bool
any test [] = ok false
any test (v ∷ vs) =
    let later = any test vs in
    if is_a_gtype_scalar v then later else test v >>= (λ b. if b then ok true else later)

abbrev pub pair_contained : Option Value → (Value → Outcome Bool) → Outcome Bool → Outcome Bool
pair_contained none test later = ok false
pair_contained (some lhs) test later = test lhs >>= (λ b. if b then later else ok false)

module _ (ops : ScalarOps) where
  abbrev pub scalar_contained : Scalar → Value → Outcome Bool
  scalar_contained s (Value.scalar a) =
      if scalar_type a == scalar_type s then equals_gtype_scalar_value ops a s else ok false
  scalar_contained s lhs = ok false

  abbrev pub element_contained : Value → List Value → Outcome Bool → Outcome Bool
  element_contained (Value.scalar s) xs nested =
      search_elements ops s xs >>= (λ found. ok (is_some found))
  element_contained v xs nested = nested

  -- Every pair of an object has a pair with its key in the other one whose value contains its own;
  -- every element of an array that is a scalar equals an element of the other one, and every other
  -- element is contained in one. A raw scalar contains no array that is none.
  unfoldable mutual
    pub contained : Value → Value → Outcome Bool
    contained (Value.scalar s) lhs = scalar_contained s lhs
    contained (Value.object fs) (Value.object gs) =
        let pairs = pairs_contained fs gs in
        if ltb (length (keys gs)) (length (keys fs)) then ok false else pairs
    contained (Value.object fs) (Value.vector xs) = Outcome.crash
    contained (Value.object fs) lhs = ok false
    contained (Value.array raw' ys) (Value.array raw xs) =
        let elems = elements_contained ys (elements xs) in
        if raw && not raw' then ok false else elems
    contained (Value.array raw' ys) (Value.vector xs) = Outcome.crash
    contained (Value.array raw' ys) lhs = ok false
    contained (Value.vector ys) (Value.vector xs) = error Report.invalid_container
    contained (Value.vector ys) (Value.scalar s) = ok false
    contained (Value.vector ys) lhs = Outcome.crash

    pub pairs_contained : Fields → Fields → Outcome Bool
    pairs_contained Fields.no_fields gs = ok true
    pairs_contained (Fields.field k v fs) gs =
        let later = pairs_contained fs gs in pair_contained (lookup k gs) (contained v) later

    pub elements_contained : Values → List Value → Outcome Bool
    elements_contained Values.no_values xs = ok true
    elements_contained (Values.value v vs) xs =
        let later = elements_contained vs xs in
        element_contained v xs (any (contained v) xs) >>= (λ b. if b then later else ok false)
