-- ===== src/GlobalGraph/WellFormed.antt =====
-- The invariant of a loaded graph: its two tables agree with one another.
use post_graph.Prelude.{◌≡◌, ◌⊎◌, true, some, List, ◌==◌, if◌then◌else◌, has, All}
use post_graph.GraphId.{Graphid}
use post_graph.GlobalGraph.{VertexEntry, EdgeEntry, GraphContext, items}

-- Both ends of the edge are vertices, and `v` is one of them.
pub record AtVertex {D : Type 0} (g : GraphContext D) (v : Graphid) (ee : EdgeEntry D)
    : Type 0 where
  pub incident : (ee.start_id ≡ v) ⊎ (ee.end_id ≡ v)
  pub start_vertex : (ve : VertexEntry D) × (g.vertex_hashtable ee.start_id ≡ some ve)
  pub end_vertex : (ve : VertexEntry D) × (g.vertex_hashtable ee.end_id ≡ some ve)

-- The edge table has the edge, one of `ids`, and its entry satisfies `P`.
abbrev pub Entry :
    {D : Type 0} → GraphContext D → List Graphid → (EdgeEntry D → Type 0) → Graphid → Type 0
Entry {D} g ids P e =
    (ee : EdgeEntry D) × (g.edge_hashtable e ≡ some ee) × (has e ids ≡ true) × P ee

-- The edge is one of `ids`, and the lists of its two ends hold it.
pub record Listed {D : Type 0} (g : GraphContext D) (ids : List Graphid) (e : Graphid)
    (ee : EdgeEntry D) : Type 0 where
  pub among : has e ids ≡ true
  pub at_start :
      (ve : VertexEntry D) × (g.vertex_hashtable ee.start_id ≡ some ve)
      × (has e (items (if ee.start_id == ee.end_id then ve.loop else ve.edges_out)) ≡ true)
  pub at_end :
      (ve : VertexEntry D) × (g.vertex_hashtable ee.end_id ≡ some ve)
      × (has e (items (if ee.start_id == ee.end_id then ve.loop else ve.edges_in)) ≡ true)

-- A loaded graph whose edges are among `ids`: the lists of each vertex hold the edges that leave
-- it, enter it, or do both, and no others, and the ends of an edge are vertices.
pub record IsGraph {D : Type 0} (g : GraphContext D) (ids : List Graphid) : Type 0 where
  pub vertex_id : (v : Graphid) (ve : VertexEntry D) → g.vertex_hashtable v ≡ some ve → ve.id ≡ v
  pub out_edges :
      (v : Graphid) (ve : VertexEntry D)
      → g.vertex_hashtable v ≡ some ve
      → All (Entry g ids (λ ee. (ee.start_id ≡ v) × AtVertex g v ee)) (items ve.edges_out)
  pub in_edges :
      (v : Graphid) (ve : VertexEntry D)
      → g.vertex_hashtable v ≡ some ve
      → All (Entry g ids (λ ee. (ee.end_id ≡ v) × AtVertex g v ee)) (items ve.edges_in)
  pub self_edges :
      (v : Graphid) (ve : VertexEntry D)
      → g.vertex_hashtable v ≡ some ve
      → All
          (Entry g ids (λ ee. (ee.start_id ≡ v) × (ee.end_id ≡ v) × AtVertex g v ee))
          (items ve.loop)
  pub listed : (e : Graphid) (ee : EdgeEntry D) → g.edge_hashtable e ≡ some ee → Listed g ids e ee
