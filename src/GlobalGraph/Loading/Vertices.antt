-- ===== src/GlobalGraph/Loading/Vertices.antt =====
-- After the load of the vertex labels each vertex has an entry, and no edge is known.
use post_graph.Prelude.{
  ◌≡◌, refl, ◌∙◌, inl, inr, true, false, none, some, List, [], ◌∷◌, ◌==◌, Bool-cases, has, arith,
}
use post_graph.GraphId.{Graphid}
use post_graph.GlobalGraph.HashTable.{enter}
use post_graph.GlobalGraph.{
  Oid, VertexEntry, VertexRow, GraphContext, Catalog, insert_vertex_entry, LabelKind, get_labels,
}
use post_graph.GlobalGraph.WellFormed.{IsGraph}
use post_graph.GlobalGraph.Loading.{load_vertex_rows, load_vertex_labels, load_vertex_hashtable}

-- An entry with no edge yet.
pub record IsBare {D : Type 0} (v : Graphid) (ve : VertexEntry D) : Type 0 where
  pub own_id : ve.id ≡ v
  pub no_in : ve.edges_in ≡ none
  pub no_out : ve.edges_out ≡ none
  pub no_loop : ve.loop ≡ none

-- The vertices are those of `vs`, and there are no edges.
pub record HasVertices {D : Type 0} (g : GraphContext D) (vs : List Graphid) : Type 0 where
  pub bare : (v : Graphid) (ve : VertexEntry D) → g.vertex_hashtable v ≡ some ve → IsBare v ve
  pub present :
      (v : Graphid) → has v vs ≡ true → (ve : VertexEntry D) × (g.vertex_hashtable v ≡ some ve)
  pub absent : (v : Graphid) → has v vs ≡ false → g.vertex_hashtable v ≡ none
  pub no_edges : (e : Graphid) → g.edge_hashtable e ≡ none

module _ {D : Type 0} where
  -- The ids of the rows, on top of those before.
  abbrev pub with_vertex_rows : List Graphid → List (VertexRow D) → List Graphid
  with_vertex_rows vs [] = vs
  with_vertex_rows vs (row ∷ rows) = with_vertex_rows (row.id ∷ vs) rows

  abbrev pub with_vertex_labels : Catalog D → List Graphid → List Oid → List Graphid
  with_vertex_labels catalog vs [] = vs
  with_vertex_labels catalog vs (oid ∷ oids) =
      with_vertex_labels catalog (with_vertex_rows vs (catalog.vertex_rows oid)) oids

  -- The ids in all tables of vertex labels of the graph.
  abbrev pub vertex_ids : Catalog D → Oid → List Graphid
  vertex_ids catalog graph_oid =
      with_vertex_labels catalog [] (get_labels catalog.ag_label graph_oid LabelKind.vertex_label)

  abbrev bare_entry : Graphid → Oid → D → VertexEntry D
  bare_entry id oid d = record {
    id = id;
    edges_in = none;
    edges_out = none;
    loop = none;
    oid = oid;
    properties = d;
  }

  insert_vertex_entry-HasVertices :
      (g : GraphContext D) (vs : List Graphid) (id : Graphid) (oid : Oid) (d : D)
      → HasVertices g vs
      → HasVertices (insert_vertex_entry g id oid d) (id ∷ vs)
  unfolding insert_vertex_entry enter
  insert_vertex_entry-HasVertices g vs id oid d h = record {
    bare = λ v ve there. ground (arith, h.bare v ve);
    present = λ v there. elim (Bool-cases (v == id)) [
      | inl same ↦ (bare_entry id oid d, rw same refl)
      | inr other ↦ let (ve, found) = h.present v (ground (arith, there)) in (ve, rw other found)
    ];
    absent = λ v there. ground (arith, h.absent v);
    no_edges = h.no_edges;
  }

  load_vertex_rows-HasVertices :
      (g : GraphContext D) (vs : List Graphid) (oid : Oid) (rows : List (VertexRow D))
      → HasVertices g vs
      → HasVertices (load_vertex_rows oid rows g) (with_vertex_rows vs rows)
  unfolding load_vertex_rows
  load_vertex_rows-HasVertices g vs oid [] h = h
  load_vertex_rows-HasVertices g vs oid (row ∷ rows) h =
      load_vertex_rows-HasVertices (insert_vertex_entry g row.id oid row.properties) (row.id ∷ vs)
        oid rows (insert_vertex_entry-HasVertices g vs row.id oid row.properties h)

  load_vertex_labels-HasVertices :
      (catalog : Catalog D) (g : GraphContext D) (vs : List Graphid) (oids : List Oid)
      → HasVertices g vs
      → HasVertices (load_vertex_labels catalog oids g) (with_vertex_labels catalog vs oids)
  unfolding load_vertex_labels
  load_vertex_labels-HasVertices catalog g vs [] h = h
  load_vertex_labels-HasVertices catalog g vs (oid ∷ oids) h =
      load_vertex_labels-HasVertices catalog (load_vertex_rows oid (catalog.vertex_rows oid) g)
        (with_vertex_rows vs (catalog.vertex_rows oid)) oids
        (load_vertex_rows-HasVertices g vs oid (catalog.vertex_rows oid) h)

  pub load_vertex_hashtable-HasVertices :
      (catalog : Catalog D) (g : GraphContext D)
      → HasVertices g []
      → HasVertices (load_vertex_hashtable catalog g) (vertex_ids catalog g.graph_oid)
  unfolding load_vertex_hashtable
  load_vertex_hashtable-HasVertices catalog g h =
      load_vertex_labels-HasVertices catalog g []
        (get_labels catalog.ag_label g.graph_oid LabelKind.vertex_label) h

  load_vertex_rows-graph_oid :
      (g : GraphContext D) (oid : Oid) (rows : List (VertexRow D))
      → (load_vertex_rows oid rows g).graph_oid ≡ g.graph_oid
  unfolding load_vertex_rows insert_vertex_entry
  load_vertex_rows-graph_oid g oid [] = refl
  load_vertex_rows-graph_oid g oid (row ∷ rows) =
      load_vertex_rows-graph_oid (insert_vertex_entry g row.id oid row.properties) oid rows

  load_vertex_labels-graph_oid :
      (catalog : Catalog D) (g : GraphContext D) (oids : List Oid)
      → (load_vertex_labels catalog oids g).graph_oid ≡ g.graph_oid
  unfolding load_vertex_labels
  load_vertex_labels-graph_oid catalog g [] = refl
  load_vertex_labels-graph_oid catalog g (oid ∷ oids) =
      load_vertex_labels-graph_oid catalog (load_vertex_rows oid (catalog.vertex_rows oid) g) oids
      ∙ load_vertex_rows-graph_oid g oid (catalog.vertex_rows oid)

  pub load_vertex_hashtable-graph_oid :
      (catalog : Catalog D) (g : GraphContext D)
      → (load_vertex_hashtable catalog g).graph_oid ≡ g.graph_oid
  unfolding load_vertex_hashtable
  load_vertex_hashtable-graph_oid catalog g =
      load_vertex_labels-graph_oid catalog g
        (get_labels catalog.ag_label g.graph_oid LabelKind.vertex_label)

  -- Without edges there is nothing to agree on.
  pub HasVertices-IsGraph :
      (g : GraphContext D) (vs : List Graphid) → HasVertices g vs → IsGraph g []
  HasVertices-IsGraph g vs h = record {
    vertex_id = λ v ve there. (h.bare v ve there).own_id;
    out_edges = λ v ve there. rw ((h.bare v ve there).no_out) tt;
    in_edges = λ v ve there. rw ((h.bare v ve there).no_in) tt;
    self_edges = λ v ve there. rw ((h.bare v ve there).no_loop) tt;
    listed = λ e ee there. cc (h.no_edges e);
  }
