-- ===== src/GlobalGraph/Loading.antt =====
-- load_vertex_hashtable, load_edge_hashtable and load_hashtables of global_graph.c.
pub mod Vertices
pub mod Edges
pub mod Loaded
pub mod Keys
pub mod Tests
use post_graph.Prelude.{ℕ, Bool, none, List, [], ◌∷◌, Outcome, ok, ◌>>=◌}
use post_graph.GlobalGraph.HashTable.{empty}
use post_graph.GlobalGraph.{
  Oid, VertexRow, EdgeRow, GraphContext, LabelKind, Catalog, Snapshot, get_labels, insert_edge,
  insert_vertex_entry, insert_vertex,
}

module _ {D : Type 0} where
  -- The scan of one vertex label's table.
  pub load_vertex_rows : Oid → List (VertexRow D) → GraphContext D → GraphContext D
  load_vertex_rows oid [] ggctx = ggctx
  load_vertex_rows oid (row ∷ rows) ggctx =
      load_vertex_rows oid rows (insert_vertex_entry ggctx row.id oid row.properties)

  pub load_vertex_labels : Catalog D → List Oid → GraphContext D → GraphContext D
  load_vertex_labels catalog [] ggctx = ggctx
  load_vertex_labels catalog (oid ∷ oids) ggctx =
      load_vertex_labels catalog oids (load_vertex_rows oid (catalog.vertex_rows oid) ggctx)

  pub load_vertex_hashtable : Catalog D → GraphContext D → GraphContext D
  load_vertex_hashtable catalog ggctx =
      load_vertex_labels catalog
        (get_labels catalog.ag_label ggctx.graph_oid LabelKind.vertex_label) ggctx

  -- One row of an edge label's table. That `insert_edge` returned true is only asserted.
  pub load_edge_row : Oid → EdgeRow D → GraphContext D → Outcome (GraphContext D)
  load_edge_row oid row ggctx =
      let (inserted, ggctx') =
        insert_edge ggctx row.id row.properties row.start_id row.end_id oid in
      insert_vertex ggctx' row.start_id row.end_id row.id

  pub load_edge_rows : Oid → List (EdgeRow D) → GraphContext D → Outcome (GraphContext D)
  load_edge_rows oid [] ggctx = ok ggctx
  load_edge_rows oid (row ∷ rows) ggctx = load_edge_row oid row ggctx >>= load_edge_rows oid rows

  pub load_edge_labels : Catalog D → List Oid → GraphContext D → Outcome (GraphContext D)
  load_edge_labels catalog [] ggctx = ok ggctx
  load_edge_labels catalog (oid ∷ oids) ggctx =
      load_edge_rows oid (catalog.edge_rows oid) ggctx >>= load_edge_labels catalog oids

  pub load_edge_hashtable : Catalog D → GraphContext D → Outcome (GraphContext D)
  load_edge_hashtable catalog ggctx =
      load_edge_labels catalog (get_labels catalog.ag_label ggctx.graph_oid LabelKind.edge_label)
        ggctx

  pub load_hashtables : Catalog D → GraphContext D → Outcome (GraphContext D)
  load_hashtables catalog ggctx =
      load_edge_hashtable catalog
        (load_vertex_hashtable catalog (record ggctx { vertex_cnt = 0; edge_cnt = 0 }))

  -- The context that `manage_graph_contexts` allocates, before the load.
  pub new_context : Oid → Snapshot → GraphContext D
  new_context oid snap = record {
    graph_oid = oid;
    vertex_hashtable = empty;
    edge_hashtable = empty;
    xmin = snap.xmin;
    xmax = snap.xmax;
    curcid = snap.curcid;
    vertex_cnt = 0;
    edge_cnt = 0;
    vertices = none;
  }
