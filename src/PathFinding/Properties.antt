-- ===== src/PathFinding/Properties.antt =====
-- check_edge_constraints of dfs.c with the containment of gtype_util.c: the properties that a search
-- asks for, and those of an edge, are gtype objects.
pub mod Tests
use post_graph.Prelude.{
  ℕ, ◌≤◌, ◌≡◌, refl, inl, inr, Bool, true, false, if◌then◌else◌, Bool-cases, leb, ltb, length,
  Option, some, Outcome, ok, arith,
}
use post_graph.GlobalGraph.{EdgeEntry}
use post_graph.PathFinding.{
  PropertyOps, Search, check_label, check_properties, check_edge_constraints,
}
use post_graph.Gtype.Scalar.{ScalarOps}
use post_graph.Gtype.Value.{Value, Fields, keys, gtype_container_size}
use post_graph.Gtype.Contains.{call_nested, gtype_deep_contains}
use post_graph.Gtype.Contains.Spec.{contained}
use post_graph.Gtype.Contains.Loops.{IsOrdered}
use post_graph.Gtype.Contains.Contained.{size, gtype_deep_contains-contained}

-- AGT_ROOT_COUNT, and gtype_deep_contains of the two iterators.
abbrev pub value_ops : (fuel : ℕ) → ScalarOps → PropertyOps Value
value_ops fuel ops = record {
  root_count = gtype_container_size;
  deep_contains = λ edge_property properties.
      call_nested (gtype_deep_contains fuel ops) edge_property properties;
}

contained_count :
    (ops : ScalarOps) (fs gs : Fields)
    → (if leb (length (keys fs)) (length (keys gs))
        then contained ops (Value.object fs) (Value.object gs)
        else ok false)
      ≡ contained ops (Value.object fs) (Value.object gs)
unfolding contained
contained_count ops fs gs = elim (Bool-cases (ltb (length (keys gs)) (length (keys fs)))) [
  | inl fewer ↦ rw fewer (ground (arith, fewer))
  | inr enough ↦
      let fits : leb (length (keys fs)) (length (keys gs)) ≡ true = ground (arith, enough) in
      rw fits refl
]

-- When the search compares properties by gtype_deep_contains, it asks for the pairs of an object, the
-- properties of the edge are an object with its keys in increasing order, nested ones too, and the
-- fuel is at least the number of containers that are asked for: the test of an edge with the label of
-- the search ends with the answer or the report of the recursive containment, and that of another
-- edge with false.
pub check_edge_constraints-contained :
    (s : Search Value) (ee : EdgeEntry Value) (ops : ScalarOps) (fuel : ℕ) (fs gs : Fields)
    → s.property_ops ≡ value_ops fuel ops
    → s.properties ≡ some (Value.object fs)
    → ee.properties ≡ Value.object gs
    → IsOrdered (Value.object gs)
    → size (Value.object fs) ≤ fuel
    → check_edge_constraints s ee
      ≡ (if check_label s ee then contained ops (Value.object fs) (Value.object gs) else ok false)
unfolding check_edge_constraints check_properties
check_edge_constraints-contained s ee ops fuel fs gs by_gtype asked has ordered enough =
    rw
      (
        check_properties,
        asked,
        by_gtype,
        has,
        gtype_deep_contains-contained ops fuel (Value.object fs) (Value.object gs) enough refl refl
            ordered,
        contained_count ops fs gs,
      )
      refl
