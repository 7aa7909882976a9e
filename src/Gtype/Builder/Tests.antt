-- ===== src/Gtype/Builder/Tests.antt =====
-- Building a small container, and a vector that is too long for an unset size.
use post_graph.Prelude.{ℕ, ◌<◌, ◌≡◌, refl, false, [], ◌∷◌, length, some, Outcome, ok, arith, ◌>>=◌}
use post_graph.Prelude.Int.{pos}
use post_graph.Gtype.Scalar.{Float8, number}
use post_graph.Gtype.Value.{Value}
use post_graph.Gtype.Iterator.{Token, part}
use post_graph.Gtype.Iterator.Preorder.{preorder, vector_events}
use post_graph.Gtype.Iterator.Tests.{nested}
use post_graph.Gtype.Builder.{Limits, attach, push_gtype_value}
use post_graph.Gtype.Builder.Loop.{IsBuilt}
use post_graph.Gtype.Builder.Steps.{KeepsSorted}
use post_graph.Gtype.Builder.Pushed.{push_gtype_value-attach, push_vector-crash}

-- A sort for lists of one pair, or sorted ones.
abbrev limits : ℕ → Limits
limits size = record {
  max_elems = 1000;
  max_pairs = 1000;
  unset_size = size;
  qsort_arg = λ pairs. (pairs, false);
}

limits-KeepsSorted : (size : ℕ) → KeepsSorted (limits size)
limits-KeepsSorted size pairs up = refl

nested-IsBuilt : IsBuilt (limits 4) nested
nested-IsBuilt = (refl, omega arith, (tt, ((omega arith, tt, (tt, tt)), tt)))

few_tokens : length (preorder Token.wgt_elem nested) < 20
unfolding preorder vector_events
few_tokens = omega arith

push_gtype_value-attach_example :
    push_gtype_value (limits 4) 20 [] Token.wgt_elem (some (part nested))
    ≡ (attach (limits 4) nested [] >>= (λ pstate'. ok (some nested, pstate')))
push_gtype_value-attach_example =
    push_gtype_value-attach (limits 4) (omega arith) (omega arith) (limits-KeepsSorted 4) 20 []
      nested nested-IsBuilt refl few_tokens

abbrev one : Float8
one = number (pos 1)

push_vector-crash_example :
    push_gtype_value
      (limits 100)
      20
      []
      Token.wgt_elem
      (some (part (Value.vector (one ∷ one ∷ one ∷ one ∷ one ∷ []))))
    ≡ Outcome.crash
push_vector-crash_example =
    push_vector-crash (limits 100) 20 [] one one one one one [] (omega arith) (omega arith)
