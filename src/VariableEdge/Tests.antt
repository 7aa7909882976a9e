-- ===== src/VariableEdge/Tests.antt =====
-- The path of the edges 11 and 12, and arguments that name them.
use post_graph.Prelude.{ℕ, arith, ◌≡◌, refl, List, [], ◌∷◌, ok}
use post_graph.GraphId.{Graphid}
use post_graph.GlobalGraph.Loading.Tests.{graph, graph_test, vertex_2, edge}
use post_graph.GlobalGraph.Contexts.Tests.{graph_found}
use post_graph.VariableEdge.{
  Element, VariableEdge, Argument, create_variable_edge, enforce_edge_uniqueness,
}
use post_graph.VariableEdge.Unique.{
  edge_places, IsCounted, all_distinct, enforce_edge_uniqueness_lem,
}
use post_graph.VariableEdge.Built.{create_variable_edge_lem}

create_variable_edge_lem_example :
    (ve : VariableEdge ℕ) × (create_variable_edge (graph ∷ []) 1 (1 ∷ 11 ∷ 2 ∷ 12 ∷ 2 ∷ []) ≡ ok ve)
    × IsCounted ve
    × (edge_places 0 ve.elements ≡ 11 ∷ 12 ∷ [])
create_variable_edge_lem_example =
    create_variable_edge_lem graph (graph ∷ []) 1 1 (11, 2) ((12, 2) ∷ []) graph_found
      (
        ((edge 11 1 2, graph_test.1, refl), (vertex_2, graph_test.0)),
        (((edge 12 2 3, graph_test.2, refl), (vertex_2, graph_test.0)), tt),
      )
      (omega arith)

abbrev edge_element : (id start_id end_id : Graphid) → Element ℕ
edge_element id start_id end_id = Element.edge id start_id end_id 1 0

abbrev path : VariableEdge ℕ
path = record {
  size = 3;
  elements = edge_element 11 1 2 ∷ Element.vertex 12 1 0 ∷ edge_element 12 2 3 ∷ [];
}

-- The vertex with the number 12 is not an edge.
abbrev arguments : List (Argument ℕ)
arguments = Argument.graphid 13 ∷ Argument.null ∷ Argument.variable_edge path ∷ []

enforce_edge_uniqueness_lem_example :
    enforce_edge_uniqueness arguments ≡ ok (all_distinct (13 ∷ 11 ∷ 12 ∷ []))
enforce_edge_uniqueness_lem_example = enforce_edge_uniqueness_lem arguments (tt, (tt, (refl, tt)))
