-- ===== src/GlobalGraph/Loading/Keys.antt =====
-- The load writes neither the graph's oid nor the snapshot of a context.
use post_graph.Prelude.{
  ℕ, ◌≡◌, refl, sym, ap, ◌∙◌, inl, inr, List, [], ◌∷◌, ◌==◌, Bool-cases, ok, >>=-eq-ok, or_crash,
  is_some,
}
use post_graph.GraphId.{Graphid}
use post_graph.GlobalGraph.{
  Oid, VertexEntry, EdgeRow, VertexRow, GraphContext, Catalog, Snapshot, insert_edge, insert_vertex,
  insert_vertex_entry, update_vertex,
}
use post_graph.GlobalGraph.Loading.{
  load_vertex_rows, load_vertex_labels, load_vertex_hashtable, load_edge_row, load_edge_rows,
  load_edge_labels, load_edge_hashtable, load_hashtables, new_context,
}

pub ok_injective : {A : Type 0} {a b : A} → ok a ≡ ok b → a ≡ b
ok_injective h = cc

module _ {D : Type 0} where
  -- The graph that a context is of, and the snapshot that it is loaded under.
  abbrev pub key : GraphContext D → Oid × ℕ × ℕ × ℕ
  key g = (g.graph_oid, g.xmin, g.xmax, g.curcid)

  load_vertex_rows-key :
      (oid : Oid) (rows : List (VertexRow D)) (g : GraphContext D)
      → key (load_vertex_rows oid rows g) ≡ key g
  unfolding load_vertex_rows insert_vertex_entry
  load_vertex_rows-key oid [] g = refl
  load_vertex_rows-key oid (row ∷ rows) g =
      load_vertex_rows-key oid rows (insert_vertex_entry g row.id oid row.properties)

  load_vertex_labels-key :
      (catalog : Catalog D) (oids : List Oid) (g : GraphContext D)
      → key (load_vertex_labels catalog oids g) ≡ key g
  unfolding load_vertex_labels
  load_vertex_labels-key catalog [] g = refl
  load_vertex_labels-key catalog (oid ∷ oids) g =
      load_vertex_labels-key catalog oids (load_vertex_rows oid (catalog.vertex_rows oid) g)
      ∙ load_vertex_rows-key oid (catalog.vertex_rows oid) g

  update_vertex-key :
      (g g' : GraphContext D) (id : Graphid) (change : VertexEntry D → VertexEntry D)
      → update_vertex g id change ≡ ok g'
      → key g' ≡ key g
  unfolding update_vertex
  update_vertex-key g g' id change run =
      let (ve, found, e) = >>=-eq-ok (or_crash (g.vertex_hashtable id)) _ run in
      sym (ap key (ok_injective e))

  insert_vertex-key :
      (g g' : GraphContext D) (a b id : Graphid) → insert_vertex g a b id ≡ ok g' → key g' ≡ key g
  unfolding insert_vertex
  insert_vertex-key g g' a b id run = elim (Bool-cases (a == b)) [
    | inl self ↦ update_vertex-key g g' a _ (rw self at run)
    | inr other ↦
        let (g1, first, second) = >>=-eq-ok (update_vertex g a _) _ (rw other at run) in
        update_vertex-key g1 g' b _ second ∙ update_vertex-key g g1 a _ first
  ]

  insert_edge-key :
      (g : GraphContext D) (id a b : Graphid) (d : D) (oid : Oid)
      → key (insert_edge g id d a b oid).1 ≡ key g
  unfolding insert_edge
  insert_edge-key g id a b d oid = elim (Bool-cases (is_some (g.edge_hashtable id))) [
    | inl there ↦ rw (there, insert_edge) refl
    | inr new ↦ rw (new, insert_edge) refl
  ]

  load_edge_rows-key :
      (oid : Oid) (rows : List (EdgeRow D)) (g g' : GraphContext D)
      → load_edge_rows oid rows g ≡ ok g'
      → key g' ≡ key g
  unfolding load_edge_rows load_edge_row
  load_edge_rows-key oid [] g g' run = sym (ap key (ok_injective run))
  load_edge_rows-key oid (row ∷ rows) g g' run =
      let (g1, first, rest) = >>=-eq-ok (load_edge_row oid row g) _ run in
      let inserted = (insert_edge g row.id row.properties row.start_id row.end_id oid).1 in
      load_edge_rows-key oid rows g1 g' rest
      ∙ insert_vertex-key inserted g1 row.start_id row.end_id row.id first
      ∙ insert_edge-key g row.id row.start_id row.end_id row.properties oid

  load_edge_labels-key :
      (catalog : Catalog D) (oids : List Oid) (g g' : GraphContext D)
      → load_edge_labels catalog oids g ≡ ok g'
      → key g' ≡ key g
  unfolding load_edge_labels
  load_edge_labels-key catalog [] g g' run = sym (ap key (ok_injective run))
  load_edge_labels-key catalog (oid ∷ oids) g g' run =
      let (g1, first, rest) = >>=-eq-ok (load_edge_rows oid (catalog.edge_rows oid) g) _ run in
      load_edge_labels-key catalog oids g1 g' rest
      ∙ load_edge_rows-key oid (catalog.edge_rows oid) g g1 first

  load_hashtables-key :
      (catalog : Catalog D) (g g' : GraphContext D)
      → load_hashtables catalog g ≡ ok g'
      → key g' ≡ key g
  unfolding load_hashtables load_edge_hashtable load_vertex_hashtable
  load_hashtables-key catalog g g' run =
      load_edge_labels-key catalog _ _ g' run ∙ load_vertex_labels-key catalog _ _

  pub load_new_context-key :
      (catalog : Catalog D) (oid : Oid) (snap : Snapshot) (g : GraphContext D)
      → load_hashtables catalog (new_context oid snap) ≡ ok g
      → key g ≡ (oid, snap.xmin, snap.xmax, snap.curcid)
  unfolding new_context
  load_new_context-key catalog oid snap g run =
      load_hashtables-key catalog (new_context oid snap) g run
