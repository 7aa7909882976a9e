-- ===== src/Gtype/Orderability/Tests.antt =====
-- A container against itself, and an array of NULL against an array of an interval.
use post_graph.Prelude.{◌<◌, ◌≡◌, refl, length, ok, arith}
use post_graph.Prelude.Int.{pos}
use post_graph.Gtype.Scalar.{Scalar}
use post_graph.Gtype.Scalar.Tests.{ops, ops-IsSigned}
use post_graph.Gtype.Iterator.{Token}
use post_graph.Gtype.Iterator.Tests.{nested}
use post_graph.Gtype.Iterator.Preorder.{preorder, vector_events}
use post_graph.Gtype.Orderability.{compare_gtype_containers_orderability}
use post_graph.Gtype.Orderability.Reflexive.{compare_gtype_containers_orderability_refl}
use post_graph.Gtype.Orderability.Types.{single, compare_gtype_containers_orderability_null}

tokens_of_nested : length (preorder Token.wgt_elem nested) < 20
unfolding preorder vector_events
tokens_of_nested = omega arith

compare_gtype_containers_orderability_refl_example :
    compare_gtype_containers_orderability ops 20 nested nested ≡ ok (pos 0)
compare_gtype_containers_orderability_refl_example =
    compare_gtype_containers_orderability_refl ops ops-IsSigned 20 nested refl
      (refl, ((tt, tt), tt)) tokens_of_nested

compare_gtype_containers_orderability_null_example :
    (compare_gtype_containers_orderability ops 2 (single Scalar.null) (single (Scalar.interval 5))
      ≡ ok (pos 1))
    × (compare_gtype_containers_orderability ops 2 (single (Scalar.interval 5)) (single Scalar.null)
        ≡ ok (pos 1))
compare_gtype_containers_orderability_null_example =
    compare_gtype_containers_orderability_null ops 0 (Scalar.interval 5) (omega arith) refl
