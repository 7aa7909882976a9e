-- ===== src/VariableEdge/Built.antt =====
-- What create_variable_edge packs.
use post_graph.Prelude.{
  ℕ, ◌+◌, ◌-◌, ◌*◌, ◌%◌, ◌^◌, ◌<◌, ◌≡◌, refl, true, false, some, List, [], ◌∷◌, ◌==◌, length, All,
  ok, arith,
}
use post_graph.GraphId.{Graphid}
use post_graph.GlobalGraph.{
  Oid, VertexEntry, EdgeEntry, GraphContext, get_vertex_entry, get_edge_entry,
}
use post_graph.GlobalGraph.Contexts.{find_graph_context}
use post_graph.VariableEdge.{Element, VariableEdge, array_elements, create_variable_edge}
use post_graph.VariableEdge.Unique.{edge_places, IsCounted}

-- The edges of a path, each with the vertex behind it, as they stand in the array.
abbrev pub in_array : List (Graphid × Graphid) → List Graphid
in_array [] = []
in_array ((e, v) ∷ steps) = e ∷ v ∷ in_array steps

abbrev pub edges : List (Graphid × Graphid) → List Graphid
edges [] = []
edges ((e, v) ∷ steps) = e ∷ edges steps

odd_suc : (i : ℕ) → (i % 2 == 1) ≡ true → (i + 1) % 2 == 1 ≡ false
odd_suc i h = ground arith

even_suc : (i : ℕ) → (i % 2 == 1) ≡ false → (i + 1) % 2 == 1 ≡ true
even_suc i h = ground arith

module _ {D : Type 0} (g : GraphContext D) where
  -- The edge and the vertex have entries, and the edge's has its id.
  abbrev pub IsStep : Graphid × Graphid → Type 0
  IsStep (e, v) =
      ((ee : EdgeEntry D) × (g.edge_hashtable e ≡ some ee) × (ee.id ≡ e))
      × ((ve : VertexEntry D) × (g.vertex_hashtable v ≡ some ve))

  -- The elements for the rest of the array, behind a vertex that is not the first of the array.
  array_elements-inner :
      (oid : Oid) (v : Graphid) (ve : VertexEntry D) (steps : List (Graphid × Graphid)) (i : ℕ)
      → g.vertex_hashtable v ≡ some ve
      → All IsStep steps
      → (i % 2 == 1) ≡ true
      → (elements : List (Element D)) × (array_elements g oid false (v ∷ in_array steps)
          ≡ ok elements)
        × (length elements ≡ length steps * 2)
        × (edge_places i elements ≡ edges steps)
  unfolding array_elements get_vertex_entry get_edge_entry
  array_elements-inner oid v ve [] i there h odd = ([], refl, omega arith, refl)
  array_elements-inner oid v ve ((e, u) ∷ steps) i there (((ee, found, same), (ue, there')), h)
        odd =
      let (later, run, count, places) =
        array_elements-inner oid u ue steps (i + 1 + 1) there' h
          (even_suc (i + 1) (odd_suc i odd)) in
      let v_element = Element.vertex ve.id oid ve.properties in
      let e_element = Element.edge ee.id ee.start_id ee.end_id oid ee.properties in
      (
        v_element ∷ e_element ∷ later,
        rw (there, found, run) refl,
        omega (arith, count),
        rw (odd, odd_suc i odd, places, same) refl,
      )

  -- For the array of a path with at least one edge and fewer than 2^31 - 1, whose edges and vertices
  -- are in the graph, `create_variable_edge` returns a value that holds as many elements as it
  -- counts, and whose even places are the path's edges in order.
  pub create_variable_edge_lem :
      (contexts : List (GraphContext D)) (oid : Oid) (v : Graphid) (step : Graphid × Graphid)
      (steps : List (Graphid × Graphid))
      → find_graph_context contexts oid ≡ some g
      → All IsStep (step ∷ steps)
      → length steps < 2 ^ 31 - 2
      → (ve : VariableEdge D) × (create_variable_edge contexts oid (v ∷ in_array (step ∷ steps))
          ≡ ok ve)
        × IsCounted ve
        × (edge_places 0 ve.elements ≡ edges (step ∷ steps))
  unfolding create_variable_edge array_elements get_edge_entry
  create_variable_edge_lem contexts oid v (e, u) steps current (((ee, found, same), (ue, there)), h)
        short =
      let (later, run, count, places) = array_elements-inner oid u ue steps 1 there h refl in
      let e_element = Element.edge ee.id ee.start_id ee.end_id oid ee.properties in
      (
        record {
          size = (length (v ∷ in_array ((e, u) ∷ steps)) + (2 ^ 32 - 2)) % 2 ^ 32;
          elements = e_element ∷ later;
        },
        rw (current, found, run) refl,
        omega (arith, count, length-in_array steps),
        rw (places, same) refl,
      )
    where
      length-in_array :
          (steps : List (Graphid × Graphid)) → length (in_array steps) ≡ length steps * 2
      length-in_array [] = omega arith
      length-in_array (step ∷ steps) = omega (arith, length-in_array steps)
