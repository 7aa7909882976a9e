-- ===== src/GlobalGraph/Tests.antt =====
-- An edge between two vertices.
use post_graph.Prelude.{[], ◌∷◌, ℕ, ◌≡◌, refl, none, some, ◌==◌, if◌then◌else◌, ok}
use post_graph.GraphId.{Graphid}
use post_graph.GlobalGraph.HashTable.{empty}
use post_graph.GlobalGraph.{VertexEntry, GraphContext, insert_vertex}
use post_graph.GlobalGraph.Freeing.{Walked, free_graph_context, free_graph_context_lem}
use post_graph.GlobalGraph.Insertion.{grow, insert_vertex-grow}

abbrev lone : Graphid → VertexEntry ℕ
lone id = record {
  id = id;
  edges_in = none;
  edges_out = none;
  loop = none;
  oid = 10;
  properties = 0;
}

abbrev two_vertices : GraphContext ℕ
two_vertices = record {
  graph_oid = 1;
  vertex_hashtable = λ v. if v == 1 then some (lone 1) else if v == 2 then some (lone 2) else none;
  edge_hashtable = empty;
  xmin = 0;
  xmax = 0;
  curcid = 0;
  vertex_cnt = 2;
  edge_cnt = 0;
  vertices = none;
}

insert_vertex-grow_example :
    insert_vertex two_vertices 1 2 11
    ≡ ok (record two_vertices { vertex_hashtable = grow 1 2 11 two_vertices.vertex_hashtable })
insert_vertex-grow_example = insert_vertex-grow two_vertices 1 2 11 (lone 1) (lone 2) refl refl

abbrev listed : GraphContext ℕ
listed = record two_vertices { vertices = some (1 ∷ 2 ∷ []) }

abbrev freed : GraphContext ℕ → GraphContext ℕ
freed g = record g {
  graph_oid = 0;
  vertices = none;
  vertex_hashtable = empty;
  edge_hashtable = empty;
}

free_graph_context_lem_example :
    (g' : GraphContext ℕ) × Walked (1 ∷ 2 ∷ []) listed g'
    × (free_graph_context listed ≡ ok (freed g'))
free_graph_context_lem_example =
    free_graph_context_lem listed ((lone 1, refl), ((lone 2, refl), tt))
