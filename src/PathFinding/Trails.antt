-- ===== src/PathFinding/Trails.antt =====
-- The paths that a variable-length edge of a MATCH stands for: the trails from the start vertex,
-- which use no edge twice, follow the direction of the pattern, and have edges with its label and
-- properties.
use post_graph.Prelude.{◌≡◌, ◌⊎◌, true, false, some, List, [], ◌∷◌, ◌==◌, length, has, ok}
use post_graph.GraphId.{Graphid}
use post_graph.GlobalGraph.{EdgeEntry}
use post_graph.PathFinding.{RelDir, Search, check_edge_constraints, within_bounds}

-- The edge leads from `v` to `u` in the direction.
abbrev pub Leads : {D : Type 0} → RelDir → EdgeEntry D → Graphid → Graphid → Type 0
Leads RelDir.dir_right ee v u = (ee.start_id ≡ v) × (ee.end_id ≡ u)
Leads RelDir.dir_left ee v u = (ee.end_id ≡ v) × (ee.start_id ≡ u)
Leads RelDir.dir_none ee v u =
    ((ee.start_id ≡ v) × (ee.end_id ≡ u)) ⊎ ((ee.end_id ≡ v) × (ee.start_id ≡ u))
Leads RelDir.unknown ee v u = ⊥

-- One of the paths, by its place.
abbrev pub In : List Graphid → List (List Graphid) → Type 0
In path [] = ⊥
In path (p ∷ ps) = (path ≡ p) ⊎ In path ps

module _ {D : Type 0} (s : Search D) where
  pub record Link (v e u : Graphid) : Type 0 where
    pub entry : EdgeEntry D
    pub there : s.ggctx.edge_hashtable e ≡ some entry
    pub passes : check_edge_constraints s entry ≡ ok true
    pub leads : Leads s.edge_direction entry v u

  -- The trails from the start vertex to `v`, with the last edge in front.
  pub data Trail : Graphid → List Graphid → Type 0 where
    start : Trail s.vsid []
    step :
        {v e u : Graphid} {path : List Graphid}
        → Trail v path
        → Link v e u
        → has e path ≡ false
        → Trail u (e ∷ path)

  -- The paths to be returned.
  pub record IsResult (path : List Graphid) : Type 0 where
    pub trail : Trail s.veid path
    pub some_edge : (length path == 0) ≡ false
    pub bounds : within_bounds s (length path) ≡ true
