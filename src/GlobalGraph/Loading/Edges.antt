-- ===== src/GlobalGraph/Loading/Edges.antt =====
-- The load of the edge labels over a graph whose vertices are loaded.
use post_graph.Prelude.{
  ◌+◌, ◌≡◌, ◌≢◌, refl, ◌∙◌, true, false, none, some, List, [], ◌∷◌, ==_refl, has, All, ok, arith,
}
use mathlib.Core.Path.{subst}
use post_graph.GraphId.{Graphid}
use post_graph.GlobalGraph.HashTable.{enter_self, enter-ne}
use post_graph.GlobalGraph.{
  Oid, VertexEntry, EdgeEntry, EdgeRow, GraphContext, Catalog, insert_edge,
}
use post_graph.GlobalGraph.WellFormed.{IsGraph}
use post_graph.GlobalGraph.Insertion.{insert_vertex-grow}
use post_graph.GlobalGraph.Preserved.{with_edge, HasVertex-with_edge, IsGraph-with_edge}
use post_graph.GlobalGraph.Loading.{load_edge_row, load_edge_rows, load_edge_labels}

apart : {a b : Graphid} (ids : List Graphid) → has a ids ≡ true → has b ids ≡ false → a ≢ b
apart ids h k eq = cc (subst (λ c. has c ids ≡ true) eq h)

module _ {D : Type 0} where
  -- The ids of the rows, on top of those before.
  abbrev pub with_edge_rows : List Graphid → List (EdgeRow D) → List Graphid
  with_edge_rows ids [] = ids
  with_edge_rows ids (row ∷ rows) = with_edge_rows (row.id ∷ ids) rows

  abbrev pub with_edge_labels : Catalog D → List Graphid → List Oid → List Graphid
  with_edge_labels catalog ids [] = ids
  with_edge_labels catalog ids (oid ∷ oids) =
      with_edge_labels catalog (with_edge_rows ids (catalog.edge_rows oid)) oids

  -- Each row has a new id and ends at two of the vertices `vs`.
  abbrev pub RowsFit : List Graphid → List Graphid → List (EdgeRow D) → Type 0
  RowsFit vs ids [] = Unit
  RowsFit vs ids (row ∷ rows) =
      (has row.id ids ≡ false)
      × (has row.start_id vs ≡ true)
      × (has row.end_id vs ≡ true)
      × RowsFit vs (row.id ∷ ids) rows

  abbrev pub LabelsFit : Catalog D → List Graphid → List Graphid → List Oid → Type 0
  LabelsFit catalog vs ids [] = Unit
  LabelsFit catalog vs ids (oid ∷ oids) =
      RowsFit vs ids (catalog.edge_rows oid)
      × LabelsFit catalog vs (with_edge_rows ids (catalog.edge_rows oid)) oids

  abbrev pub edge_entry : Oid → EdgeRow D → EdgeEntry D
  edge_entry oid row = record {
    id = row.id;
    oid = oid;
    properties = row.properties;
    start_id = row.start_id;
    end_id = row.end_id;
  }

  -- The invariant, with what the next row needs.
  pub record IsLoading (vs ids : List Graphid) (g : GraphContext D) : Type 0 where
    pub graph : IsGraph g ids
    pub vertices :
        (v : Graphid) → has v vs ≡ true → (ve : VertexEntry D) × (g.vertex_hashtable v ≡ some ve)
    pub unknown : (e : Graphid) → has e ids ≡ false → g.edge_hashtable e ≡ none

  load_edge_row-IsLoading :
      (vs ids : List Graphid) (g : GraphContext D) (oid : Oid) (row : EdgeRow D)
      → IsLoading vs ids g
      → has row.id ids ≡ false
      → has row.start_id vs ≡ true
      → has row.end_id vs ≡ true
      → (g' : GraphContext D) × (load_edge_row oid row g ≡ ok g')
        × IsLoading vs (row.id ∷ ids) g'
        × (g'.edge_hashtable row.id ≡ some (edge_entry oid row))
        × ((e : Graphid) → has e ids ≡ true → g'.edge_hashtable e ≡ g.edge_hashtable e)
  unfolding load_edge_row insert_edge
  load_edge_row-IsLoading vs ids g oid row h new s t =
      let (ve, found) = h.vertices row.start_id s in
      let (we, found') = h.vertices row.end_id t in
      (
        with_edge g ids h.graph (edge_entry oid row) row.id new (g.edge_cnt + 1),
        rw (h.unknown row.id new)
            (insert_vertex-grow _ row.start_id row.end_id row.id ve we found found'),
        record {
          graph =
              IsGraph-with_edge g ids h.graph (edge_entry oid row) row.id new (g.edge_cnt + 1)
                (ve, found) (we, found');
          vertices = λ v i.
              HasVertex-with_edge g ids h.graph (edge_entry oid row) row.id new (g.edge_cnt + 1) v
                (h.vertices v i);
          unknown = λ e out.
              enter-ne g.edge_hashtable row.id e (edge_entry oid row) (ground (arith, out))
              ∙ h.unknown e (ground (arith, out));
        },
        enter_self g.edge_hashtable row.id (edge_entry oid row),
        λ e old. enter-ne g.edge_hashtable row.id e (edge_entry oid row) (apart ids old new),
      )

  has-with_edge_rows :
      (e : Graphid) (ids : List Graphid) (rows : List (EdgeRow D))
      → has e ids ≡ true
      → has e (with_edge_rows ids rows) ≡ true
  has-with_edge_rows e ids [] h = h
  has-with_edge_rows e ids (row ∷ rows) h =
      has-with_edge_rows e (row.id ∷ ids) rows (ground (arith, h))

  -- The rows of one table are in the edge table, and the entries from before are still there.
  record RowsLoaded (vs ids : List Graphid) (oid : Oid) (rows : List (EdgeRow D))
      (g g' : GraphContext D) : Type 0 where
    loading : IsLoading vs (with_edge_rows ids rows) g'
    stored : All (λ row. g'.edge_hashtable row.id ≡ some (edge_entry oid row)) rows
    kept : (e : Graphid) → has e ids ≡ true → g'.edge_hashtable e ≡ g.edge_hashtable e

  load_edge_rows-RowsLoaded :
      (vs ids : List Graphid) (g : GraphContext D) (oid : Oid) (rows : List (EdgeRow D))
      → IsLoading vs ids g
      → RowsFit vs ids rows
      → (g' : GraphContext D) × (load_edge_rows oid rows g ≡ ok g')
        × RowsLoaded vs ids oid rows g g'
  unfolding load_edge_rows
  load_edge_rows-RowsLoaded vs ids g oid [] h fit =
      (g, refl, record { loading = h; stored = tt; kept = λ e i. refl })
  load_edge_rows-RowsLoaded vs ids g oid (row ∷ rows) h (new, s, t, fit) =
      let (g1, run, h1, mine, kept1) = load_edge_row-IsLoading vs ids g oid row h new s t in
      let (g2, rest, h2) = load_edge_rows-RowsLoaded vs (row.id ∷ ids) g1 oid rows h1 fit in
      (
        g2,
        rw run rest,
        record {
          loading = h2.loading;
          stored = (h2.kept row.id (rw (==_refl row.id) refl) ∙ mine, h2.stored);
          kept = λ e i. h2.kept e (ground (arith, i)) ∙ kept1 e i;
        },
      )

  -- The rows of all tables are in the edge table.
  abbrev pub LabelsStored : Catalog D → List Oid → GraphContext D → Type 0
  LabelsStored catalog [] g = Unit
  LabelsStored catalog (oid ∷ oids) g =
      All (λ row. g.edge_hashtable row.id ≡ some (edge_entry oid row)) (catalog.edge_rows oid)
      × LabelsStored catalog oids g

  rows-has :
      (ids : List Graphid) (rows : List (EdgeRow D))
      → All (λ row. has row.id (with_edge_rows ids rows) ≡ true) rows
  rows-has ids [] = tt
  rows-has ids (row ∷ rows) = (
    has-with_edge_rows row.id (row.id ∷ ids) rows (rw (==_refl row.id) refl),
    rows-has (row.id ∷ ids) rows,
  )

  stored_later :
      (oid : Oid) (ids : List Graphid) (g g' : GraphContext D) (rows : List (EdgeRow D))
      → All (λ row. g.edge_hashtable row.id ≡ some (edge_entry oid row)) rows
      → All (λ row. has row.id ids ≡ true) rows
      → ((e : Graphid) → has e ids ≡ true → g'.edge_hashtable e ≡ g.edge_hashtable e)
      → All (λ row. g'.edge_hashtable row.id ≡ some (edge_entry oid row)) rows
  stored_later oid ids g g' [] h i kept = tt
  stored_later oid ids g g' (row ∷ rows) h i kept =
      (kept row.id i.0 ∙ h.0, stored_later oid ids g g' rows h.1 i.1 kept)

  pub load_edge_labels-Stored :
      (catalog : Catalog D) (vs ids : List Graphid) (g : GraphContext D) (oids : List Oid)
      → IsLoading vs ids g
      → LabelsFit catalog vs ids oids
      → (g' : GraphContext D) × (load_edge_labels catalog oids g ≡ ok g')
        × IsLoading vs (with_edge_labels catalog ids oids) g'
        × LabelsStored catalog oids g'
        × ((e : Graphid) → has e ids ≡ true → g'.edge_hashtable e ≡ g.edge_hashtable e)
  unfolding load_edge_labels
  load_edge_labels-Stored catalog vs ids g [] h fit = (g, refl, h, tt, λ e i. refl)
  load_edge_labels-Stored catalog vs ids g (oid ∷ oids) h (fit, fits) =
      let rows = catalog.edge_rows oid in
      let (g1, run, h1) = load_edge_rows-RowsLoaded vs ids g oid rows h fit in
      let (g2, rest, h2, stored, kept) =
        load_edge_labels-Stored catalog vs (with_edge_rows ids rows) g1 oids h1.loading fits in
      (
        g2,
        rw run rest,
        h2,
        (
          stored_later oid (with_edge_rows ids rows) g1 g2 rows h1.stored (rows-has ids rows) kept,
          stored,
        ),
        λ e i. kept e (has-with_edge_rows e ids rows i) ∙ h1.kept e i,
      )
