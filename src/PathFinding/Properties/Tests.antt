-- ===== src/PathFinding/Properties/Tests.antt =====
-- An edge with the properties {"a": null, "b": true}, and a search that asks for {"b": true}.
use post_graph.Prelude.{◌≤◌, ◌≡◌, refl, true, false, if◌then◌else◌, ok, [], ◌∷◌, none, some, arith}
use post_graph.Prelude.Int.{pos}
use post_graph.GlobalGraph.{GraphContext, EdgeEntry}
use post_graph.PathFinding.{RelDir, Search, check_label, check_edge_constraints}
use post_graph.PathFinding.Properties.{value_ops, check_edge_constraints-contained}
use post_graph.Gtype.Object.{memcmp, length_compare_gtype_string_value}
use post_graph.Gtype.Scalar.{Scalar}
use post_graph.Gtype.Scalar.Tests.{ops}
use post_graph.Gtype.Value.{Value, Fields}
use post_graph.Gtype.Contains.Spec.{contained}
use post_graph.Gtype.Contains.Loops.{IsOrdered}
use post_graph.Gtype.Contains.Contained.{size}

abbrev asked : Fields
asked = Fields.field (98 ∷ []) (Value.scalar (Scalar.boolean true)) Fields.no_fields

abbrev held : Fields
held = Fields.field (97 ∷ []) (Value.scalar Scalar.null) asked

abbrev no_graph : GraphContext Value
no_graph = record {
  graph_oid = 1;
  vertex_hashtable = λ id. none;
  edge_hashtable = λ id. none;
  xmin = 0;
  xmax = 0;
  curcid = 0;
  vertex_cnt = 0;
  edge_cnt = 0;
  vertices = none;
}

abbrev search_for : Search Value
search_for = record {
  ggctx = no_graph;
  vsid = 1;
  veid = 2;
  label_name = none;
  properties = some (Value.object asked);
  lidx = pos 1;
  uidx = pos 1;
  uidx_infinite = false;
  edge_direction = RelDir.dir_right;
  get_rel_name = λ oid. "";
  property_ops = value_ops 1 ops;
}

abbrev edge_with : EdgeEntry Value
edge_with = record { id = 11; oid = 5; properties = Value.object held; start_id = 1; end_id = 2 }

held-IsOrdered : IsOrdered (Value.object held)
unfolding length_compare_gtype_string_value memcmp
held-IsOrdered = ((refl, tt), (tt, (tt, tt)))

asked_size : size (Value.object asked) ≤ 1
unfolding size
asked_size = omega arith

check_edge_constraints-contained_example : check_edge_constraints search_for edge_with ≡ (
    if check_label search_for edge_with
    then contained ops (Value.object asked) (Value.object held)
    else ok false)
check_edge_constraints-contained_example =
    check_edge_constraints-contained search_for edge_with ops 1 asked held refl refl refl
      held-IsOrdered asked_size
