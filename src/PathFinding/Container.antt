-- ===== src/PathFinding/Container.antt =====
-- create_path_container and build_path_container of dfs.c: the array of a found path, with the
-- vertices between the edges. The array is a list; its cells hold `junk` until they are written,
-- since palloc does not clear them.
pub mod Filled
use post_graph.Prelude.{
  ℕ, zero, suc, ◌+◌, ◌-◌, ◌*◌, Option, none, some, List, [], ◌∷◌, ◌==◌, if◌then◌else◌, length, set,
  get_elem?, replicate, Outcome, ok, ◌>>=◌, or_crash,
}
use post_graph.GraphId.{Graphid}
use post_graph.GlobalGraph.{EdgeEntry, get_edge_entry}
use post_graph.PathFinding.{Search, State}

-- The array of a new container.
abbrev pub create_path_container : Graphid → ℕ → List Graphid
create_path_container junk path_size = replicate path_size junk

-- graphid_array[index], which the source never reads beyond the end.
abbrev pub read : List Graphid → ℕ → Outcome Graphid
read array index = or_crash (get_elem? array index)

-- The loop over the path queue, from the back of the array to the front. After the first edge's
-- cell, 1, the source's index is -1, and no edge is left.
pub store_edges : List Graphid → ℕ → List Graphid → List Graphid
store_edges array index [] = array
store_edges array index (edge ∷ path) = store_edges (set array index edge) (index - 2) path

module _ {D : Type 0} (s : Search D) where
  -- The vertex that is stored behind an edge: `vid` is the start vertex in every round.
  pub stored_vertex : EdgeEntry D → Graphid
  stored_vertex ee = if s.vsid == ee.start_id then ee.end_id else ee.start_id

  -- `for (index = 1; index < size - 1; index += 2)`, with the rounds that are left.
  pub store_vertices : ℕ → ℕ → List Graphid → Outcome (List Graphid)
  store_vertices zero index array = ok array
  store_vertices (suc rounds) index array = do
    edge ← read array index
    ee ← get_edge_entry s.ggctx edge
    store_vertices rounds (index + 2) (set array (index + 1) (stored_vertex ee))

  pub build_path_container : Graphid → State → Outcome (List Graphid)
  build_path_container junk st =
      let ssize = length st.path_queue in
      let array = set (create_path_container junk (ssize * 2 + 1)) 0 s.vsid in
      store_vertices ssize 1 (store_edges array (ssize * 2 + 1 - 2) st.path_queue)
