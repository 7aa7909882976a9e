-- ===== src/GlobalGraph/Loading/Tests.antt =====
-- A graph of three vertices and three edges, one of them a self loop, loaded from its label tables.
use post_graph.Prelude.{ℕ, ◌≡◌, refl, none, some, [], ◌∷◌, ◌==◌, if◌then◌else◌, ok}
use mathlib.Core.Path.{subst}
use post_graph.GraphId.{Graphid}
use post_graph.GlobalGraph.{
  LabelKind, GraphContext, Catalog, Snapshot, EdgeEntry, VertexEntry, get_labels, VertexRow,
  EdgeRow, insert_edge, insert_vertex, update_vertex, insert_vertex_entry,
}
use post_graph.GlobalGraph.HashTable.{enter}
use post_graph.GlobalGraph.WellFormed.{IsGraph}
use post_graph.GlobalGraph.Loading.{
  load_hashtables, new_context, load_vertex_hashtable, load_edge_hashtable, load_vertex_labels,
  load_edge_labels, load_vertex_rows, load_edge_rows, load_edge_row,
}
use post_graph.GlobalGraph.Loading.Loaded.{IsConsistent, edge_ids, load_hashtables_correct}
use post_graph.GlobalGraph.Loading.Edges.{IsLoading, LabelsStored}
use post_graph.GlobalGraph.Loading.Vertices.{vertex_ids}

abbrev vertex_row : Graphid → VertexRow ℕ
vertex_row id = record { id = id; properties = 0 }

abbrev edge_row : (id start_id end_id : Graphid) → EdgeRow ℕ
edge_row id start_id end_id = record {
  id = id;
  start_id = start_id;
  end_id = end_id;
  properties = 0;
}

abbrev pub catalog : Catalog ℕ
catalog = record {
  ag_label =
      record { relation = 10; graph = 1; kind = LabelKind.vertex_label }
      ∷ record { relation = 20; graph = 1; kind = LabelKind.edge_label }
      ∷ record { relation = 30; graph = 2; kind = LabelKind.edge_label }
      ∷ [];
  vertex_rows = λ oid. if oid == 10 then vertex_row 1 ∷ vertex_row 2 ∷ vertex_row 3 ∷ [] else [];
  edge_rows = λ oid.
      if oid == 20
      then edge_row 11 1 2 ∷ edge_row 12 2 3 ∷ edge_row 13 2 2 ∷ []
      else edge_row 99 7 8 ∷ [];
}

abbrev pub snapshot : Snapshot
snapshot = record { xmin = 5; xmax = 6; curcid = 0 }

pub catalog-IsConsistent : IsConsistent catalog 1
unfolding get_labels
catalog-IsConsistent = ((refl, refl, refl, (refl, refl, refl, (refl, refl, refl, tt))), tt)

load_hashtables_correct_example :
    (g : GraphContext ℕ) × (load_hashtables catalog (new_context 1 snapshot) ≡ ok g)
    × IsLoading (vertex_ids catalog 1) (edge_ids catalog 1) g
    × LabelsStored catalog (20 ∷ []) g
unfolding get_labels
load_hashtables_correct_example = load_hashtables_correct catalog 1 snapshot catalog-IsConsistent

-- The graph that the load gives.
unfoldable pub graph : GraphContext ℕ
graph = elim (load_hashtables catalog (new_context 1 snapshot)) [
  | ok g ↦ g
  | _ ↦ new_context 1 snapshot
]

pub load_hashtables_test : load_hashtables catalog (new_context 1 snapshot) ≡ ok graph
unfolding graph load_hashtables load_vertex_hashtable load_edge_hashtable load_vertex_labels
    load_edge_labels load_vertex_rows load_edge_rows load_edge_row insert_edge insert_vertex
    update_vertex insert_vertex_entry get_labels new_context enter
load_hashtables_test = refl

pub graph-IsGraph : IsGraph graph (edge_ids catalog 1)
graph-IsGraph =
    let (g, run, h, _) = load_hashtables_correct catalog 1 snapshot catalog-IsConsistent in
    let same : g ≡ graph = cc (run, load_hashtables_test) in
    subst (λ g. IsGraph g (edge_ids catalog 1)) same h.graph

abbrev pub vertex_2 : VertexEntry ℕ
vertex_2 = record {
  id = 2;
  edges_in = some (11 ∷ []);
  edges_out = some (12 ∷ []);
  loop = some (13 ∷ []);
  oid = 10;
  properties = 0;
}

abbrev pub edge : (id start_id end_id : Graphid) → EdgeEntry ℕ
edge id start_id end_id = record {
  id = id;
  oid = 20;
  properties = 0;
  start_id = start_id;
  end_id = end_id;
}

pub graph_test :
    (graph.vertex_hashtable 2 ≡ some vertex_2)
    × (graph.edge_hashtable 11 ≡ some (edge 11 1 2))
    × (graph.edge_hashtable 12 ≡ some (edge 12 2 3))
    × (graph.edge_hashtable 13 ≡ some (edge 13 2 2))
    × (graph.edge_hashtable 99 ≡ none)
unfolding graph load_hashtables load_vertex_hashtable load_edge_hashtable load_vertex_labels
    load_edge_labels load_vertex_rows load_edge_rows load_edge_row insert_edge insert_vertex
    update_vertex insert_vertex_entry get_labels new_context enter
graph_test = (refl, refl, refl, refl, refl)

pub graph_oid_test : graph.graph_oid ≡ 1
unfolding graph load_hashtables load_vertex_hashtable load_edge_hashtable load_vertex_labels
    load_edge_labels load_vertex_rows load_edge_rows load_edge_row insert_edge insert_vertex
    update_vertex insert_vertex_entry get_labels new_context enter
graph_oid_test = refl
