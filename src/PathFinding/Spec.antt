-- ===== src/PathFinding/Spec.antt =====
-- What the search of dfs.c is to find, with no stacks and no flags: the branches below a path, in
-- the order in which they are tried.
use post_graph.Prelude.{
  ℕ, zero, suc, ◌≡◌, Bool, false, not, ◌&&◌, ◌||◌, Option, none, some, List, [], ◌∷◌, ◌++◌, ◌==◌,
  if◌then◌else◌, length, has, ok, returns_true,
}
use post_graph.Prelude.Int.{pos, ltb_ℤ}
use post_graph.GraphId.{Graphid}
use post_graph.GlobalGraph.HashTable.{Table}
use post_graph.GlobalGraph.{VertexEntry, EdgeEntry, items}
pub use post_graph.GlobalGraph.WellFormed.{AtVertex, Entry, Listed, IsGraph}
use post_graph.PathFinding.{
  RelDir, Search, State, check_edge_constraints, edges_out_of, edges_in_of, push_vertex,
  within_bounds,
}

abbrev pub state : Table Bool → (vertex_queue edge_queue path_queue : List Graphid) → State
state t vertex_queue edge_queue path_queue = record {
  edge_state = t;
  vertex_queue = vertex_queue;
  edge_queue = edge_queue;
  path_queue = path_queue;
}

-- An edge that has no entry is not visited.
abbrev pub is_visited : Option Bool → Bool
is_visited none = false
is_visited (some visited) = visited

abbrev pub flag : Table Bool → Graphid → Bool
flag t e = is_visited (t e)

-- The visited edges are those of the path.
abbrev pub Marks : Table Bool → List Graphid → Type 0
Marks t path = (e : Graphid) → flag t e ≡ has e path

module _ {D : Type 0} (s : Search D) where
  abbrev pub entry_allowed : Option (EdgeEntry D) → Bool
  entry_allowed none = false
  entry_allowed (some ee) = returns_true (check_edge_constraints s ee)

  -- For every edge of the graph the comparison of its properties returns.
  abbrev pub Answers : Type 0
  Answers =
      (e : Graphid) (ee : EdgeEntry D)
      → s.ggctx.edge_hashtable e ≡ some ee
      → (fits : Bool) × (check_edge_constraints s ee ≡ ok fits)

  abbrev pub allowed : Graphid → Bool
  allowed e = entry_allowed (s.ggctx.edge_hashtable e)

  -- The edges at a vertex that the direction lets pass, in the order of the three cursors.
  abbrev pub incident_edges : VertexEntry D → List Graphid
  incident_edges ve =
      edges_out_of s.edge_direction ve ++ (edges_in_of s.edge_direction ve ++ items ve.loop)

  abbrev pub usable : List Graphid → Graphid → Bool
  usable path e = not (has e path) && allowed e

  -- Each usable edge goes on top of the ones before.
  abbrev pub stack_edges : List Graphid → (acc edges : List Graphid) → List Graphid
  stack_edges path acc [] = acc
  stack_edges path acc (e ∷ es) = stack_edges path (if usable path e then e ∷ acc else acc) es

  -- The edges to try at a vertex, the first to be tried in front.
  abbrev pub edges_of : List Graphid → Option (VertexEntry D) → List Graphid
  edges_of path none = []
  edges_of path (some ve) = stack_edges path [] (incident_edges ve)

  abbrev pub next_edges : List Graphid → Graphid → List Graphid
  next_edges path v = edges_of path (s.ggctx.vertex_hashtable v)

  abbrev pub far_end : RelDir → Graphid → EdgeEntry D → Graphid
  far_end RelDir.dir_right v ee = ee.end_id
  far_end RelDir.dir_left v ee = ee.start_id
  far_end RelDir.dir_none v ee = if ee.start_id == v then ee.end_id else ee.start_id
  far_end RelDir.unknown v ee = v

  -- Where the edge leads from `v`.
  abbrev pub far_from : Graphid → Option (EdgeEntry D) → Graphid
  far_from v none = v
  far_from v (some ee) = far_end s.edge_direction v ee

  abbrev pub far : Graphid → Graphid → Graphid
  far v e = far_from v (s.ggctx.edge_hashtable e)

  -- A path (its last edge in front) that ends at `u` is to be returned.
  abbrev pub hit : List Graphid → Graphid → Bool
  hit path u = (u == s.veid) && within_bounds s (length path)

  -- A longer path may still be within the upper bound.
  abbrev pub deeper : List Graphid → Bool
  deeper path = s.uidx_infinite || ltb_ℤ (pos (length path)) s.uidx

  abbrev pub emit : Bool → List Graphid → List (List Graphid) → List (List Graphid)
  emit b path rest = if b then path ∷ rest else rest

  -- The paths to be returned that go on from `path`, which ends at `v`, by one of the edges `es`.
  -- `d` bounds the number of edges that are not on the path.
  unfoldable pub branches : ℕ → List Graphid → Graphid → List Graphid → List (List Graphid)
  branches zero path v es = []
  branches (suc d) path v [] = []
  branches (suc d) path v (e ∷ es) =
      let u = far v e in
      let below = branches d (e ∷ path) u (next_edges (e ∷ path) u) in
      emit (hit (e ∷ path) u) (e ∷ path)
        ((if deeper (e ∷ path) then below else []) ++ branches (suc d) path v es)

-- One entry of the vertex stack for each edge of the edge stack, if there is no direction.
abbrev pub stamps : RelDir → Graphid → List Graphid → List Graphid → List Graphid
stamps dir v [] vertex_queue = vertex_queue
stamps dir v (e ∷ es) vertex_queue = push_vertex dir v (stamps dir v es vertex_queue)

-- The edges of `ids` that are not on the path.
unfoldable pub unused : List Graphid → List Graphid → ℕ
unused [] path = 0
unused (e ∷ ids) path = if has e path then unused ids path else suc (unused ids path)
