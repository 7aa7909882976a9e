-- ===== src/VariableEdge.antt =====
-- create_variable_edge and _ag_enforce_edge_uniqueness of src/backend/utils/path_finding/dfs.c: the
-- SQL value of a found path, and the test that the edges of a MATCH are pairwise different.
-- The buffer of a variable edge is its count, a uint32, and the list of the vertices and edges that
-- stand in it one after the other. get_vertex_entry_id, which the source calls on an edge's entry,
-- reads the first field, and that is the id of an edge too.
pub mod Built
pub mod Unique
pub mod Tests
use post_graph.Prelude.{
  ℕ, zero, suc, ◌+◌, ◌-◌, ◌%◌, ◌^◌, Bool, true, false, Option, none, some, List, [], ◌∷◌, ◌++◌,
  ◌==◌, if◌then◌else◌, length, is_some, Outcome, ok, ◌>>=◌, or_crash,
}
use post_graph.GraphId.{Graphid}
use post_graph.GlobalGraph.HashTable.{Table, empty, enter}
use post_graph.GlobalGraph.{Oid, GraphContext, get_vertex_entry, get_edge_entry}
use post_graph.GlobalGraph.Contexts.{find_graph_context}

-- What create_vertex and create_edge pack.
pub data Element (D : Type 0) : Type 0 where
  vertex : (id : Graphid) (graph_oid : Oid) (properties : D) → Element D
  edge : (id start_id end_id : Graphid) (graph_oid : Oid) (properties : D) → Element D

pub record VariableEdge (D : Type 0) : Type 0 where
  pub size : ℕ
  pub elements : List (Element D)

-- One argument of _ag_enforce_edge_uniqueness, by its type.
pub data Argument (D : Type 0) : Type 0 where
  null : Argument D
  graphid : Graphid → Argument D
  variable_edge : VariableEdge D → Argument D
  other : Argument D

module _ {D : Type 0} where
  -- The loop of create_variable_edge over the rest of the array, from an even index. The first
  -- vertex and the last one of the array are left out.
  pub array_elements :
      GraphContext D → Oid → (first : Bool) → List Graphid → Outcome (List (Element D))
  array_elements ggctx graph_oid first [] = ok []
  array_elements ggctx graph_oid first (v ∷ []) = ok []
  array_elements ggctx graph_oid first (v ∷ e ∷ rest) = do
    front ← vertex_before ggctx graph_oid first v
    ee ← get_edge_entry ggctx e
    later ← array_elements ggctx graph_oid false rest
    ok (front ++ Element.edge ee.id ee.start_id ee.end_id graph_oid ee.properties ∷ later)
    where
      vertex_before : GraphContext D → Oid → Bool → Graphid → Outcome (List (Element D))
      vertex_before ggctx graph_oid true v = ok []
      vertex_before ggctx graph_oid false v = do
        ve ← or_crash (get_vertex_entry ggctx v)
        ok (Element.vertex ve.id graph_oid ve.properties ∷ [])

  -- `size` is an int32, read as a prentry.
  pub create_variable_edge : List (GraphContext D) → Oid → List Graphid → Outcome (VariableEdge D)
  create_variable_edge contexts graph_oid array = do
    ggctx ← or_crash (find_graph_context contexts graph_oid)
    elements ← array_elements ggctx graph_oid true array
    ok (record { size = (length array + (2 ^ 32 - 2)) % 2 ^ 32; elements = elements })

  -- The first field, whatever stands there.
  abbrev pub element_id : Element D → Graphid
  element_id (Element.vertex id graph_oid properties) = id
  element_id (Element.edge id start_id end_id graph_oid properties) = id

  -- The loop over a variable edge, with the rounds that are left; `none` says that an id was found
  -- twice. Reading behind the end is a crash.
  pub enter_elements :
      (left i : ℕ) → List (Element D) → Table Graphid → Outcome (Option (Table Graphid))
  enter_elements zero i elements exists_hash = ok (some exists_hash)
  enter_elements (suc left) i [] exists_hash = Outcome.crash
  enter_elements (suc left) i (e ∷ rest) exists_hash =
      let next = enter_elements left (i + 1) rest exists_hash in
      let entered =
        enter_elements left (i + 1) rest (enter exists_hash (element_id e) (element_id e)) in
      if i % 2 == 1 then next else if is_some (exists_hash (element_id e)) then ok none else entered

  pub enter_arguments : List (Argument D) → Table Graphid → Outcome Bool
  enter_arguments [] exists_hash = ok true
  enter_arguments (Argument.null ∷ args) exists_hash = enter_arguments args exists_hash
  enter_arguments (Argument.other ∷ args) exists_hash = enter_arguments args exists_hash
  enter_arguments (Argument.graphid edge_id ∷ args) exists_hash =
      if is_some (exists_hash edge_id)
      then ok false
      else enter_arguments args (enter exists_hash edge_id edge_id)
  enter_arguments (Argument.variable_edge ve ∷ args) exists_hash =
      enter_elements ve.size 0 ve.elements exists_hash
      >>= elim [ none ↦ ok false | some exists_hash ↦ enter_arguments args exists_hash ]

  pub enforce_edge_uniqueness : List (Argument D) → Outcome Bool
  enforce_edge_uniqueness args = enter_arguments args empty
