-- ===== src/GlobalGraph/Loading/Loaded.antt =====
-- `load_hashtables` as a whole.
use post_graph.Prelude.{ap, ◌∙◌, ◌≡◌, refl, List, [], ok}
use post_graph.GraphId.{Graphid}
use post_graph.GlobalGraph.{Oid, GraphContext, Catalog, Snapshot, LabelKind, get_labels}
use post_graph.GlobalGraph.Loading.{
  load_vertex_hashtable, load_edge_hashtable, load_hashtables, new_context, load_edge_labels,
}
use post_graph.GlobalGraph.Loading.Vertices.{
  HasVertices, vertex_ids, load_vertex_hashtable-HasVertices, HasVertices-IsGraph,
  load_vertex_hashtable-graph_oid,
}
use post_graph.GlobalGraph.Loading.Edges.{
  IsLoading, LabelsFit, with_edge_labels, LabelsStored, load_edge_labels-Stored,
}

module _ {D : Type 0} (catalog : Catalog D) (graph_oid : Oid) where
  abbrev edge_labels : List Oid
  edge_labels = get_labels catalog.ag_label graph_oid LabelKind.edge_label

  -- The ids in all tables of edge labels of the graph.
  abbrev pub edge_ids : List Graphid
  edge_ids = with_edge_labels catalog [] edge_labels

  -- No two edges of the graph have one id, and each begins and ends at a vertex of the graph.
  abbrev pub IsConsistent : Type 0
  IsConsistent = LabelsFit catalog (vertex_ids catalog graph_oid) [] edge_labels

  new_context-HasVertices : (snap : Snapshot) → HasVertices {D = D} (new_context graph_oid snap) []
  unfolding new_context
  new_context-HasVertices snap = record {
    bare = λ v ve h. cc;
    present = λ v h. cc;
    absent = λ v h. refl;
    no_edges = λ e. refl;
  }

  load_hashtables-new_context :
      (snap : Snapshot)
      → load_hashtables catalog (new_context graph_oid snap)
        ≡ load_edge_labels catalog edge_labels
            (load_vertex_hashtable catalog (new_context graph_oid snap))
  unfolding load_hashtables load_edge_hashtable new_context load_vertex_hashtable
  load_hashtables-new_context snap =
      let loaded = load_vertex_hashtable catalog (new_context graph_oid snap) in
      ap
        (λ oid.
          load_edge_labels catalog (get_labels catalog.ag_label oid LabelKind.edge_label) loaded)
        (load_vertex_hashtable-graph_oid catalog (new_context graph_oid snap))

  -- Over consistent tables the load fails at no edge. The graph that it gives is well formed, has
  -- an entry for each row of a vertex table, and for each row of an edge table an entry that says
  -- what the row says, and no other edges.
  pub load_hashtables_correct :
      (snap : Snapshot)
      → IsConsistent
      → (g : GraphContext D) × (load_hashtables catalog (new_context graph_oid snap) ≡ ok g)
        × IsLoading (vertex_ids catalog graph_oid) edge_ids g
        × LabelsStored catalog edge_labels g
  unfolding new_context
  load_hashtables_correct snap fit =
      let fresh = new_context {D = D} graph_oid snap in
      let loaded = load_vertex_hashtable catalog fresh in
      let vertices =
        load_vertex_hashtable-HasVertices catalog fresh (new_context-HasVertices snap) in
      let start : IsLoading (vertex_ids catalog graph_oid) [] loaded = record {
        graph = HasVertices-IsGraph loaded (vertex_ids catalog graph_oid) vertices;
        vertices = vertices.present;
        unknown = λ e _. vertices.no_edges e;
      } in
      let (g, run, h, stored, kept) =
        load_edge_labels-Stored catalog (vertex_ids catalog graph_oid) [] loaded edge_labels start
          fit in
      (g, load_hashtables-new_context snap ∙ run, h, stored)
