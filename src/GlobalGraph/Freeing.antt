-- ===== src/GlobalGraph/Freeing.antt =====
-- free_graph_context of global_graph.c: the edge lists of each vertex in the list of vertices are
-- freed, and then the list and the tables. A freed queue is NULL.
use post_graph.Prelude.{
  ◌≡◌, refl, ◌∙◌, inl, inr, true, false, none, some, List, [], ◌∷◌, ◌==◌, Bool-cases, has, All,
  All-imp, Outcome, ok, ◌>>=◌, arith,
}
use post_graph.GraphId.{Graphid}
use post_graph.GlobalGraph.HashTable.{empty, enter, enter-ne}
use post_graph.GlobalGraph.{VertexEntry, GraphContext, items, update_vertex}

module _ {D : Type 0} where
  abbrev freed_entry : VertexEntry D → VertexEntry D
  freed_entry value = record value { edges_in = none; edges_out = none; loop = none }

  pub free_vertex_lists : List Graphid → GraphContext D → Outcome (GraphContext D)
  free_vertex_lists [] ggctx = ok ggctx
  free_vertex_lists (id ∷ ids) ggctx = update_vertex ggctx id freed_entry >>= free_vertex_lists ids

  pub free_graph_context : GraphContext D → Outcome (GraphContext D)
  free_graph_context ggctx = do
    ggctx' ← free_vertex_lists (items ggctx.vertices) ggctx
    ok (record ggctx' {
      graph_oid = 0;
      vertices = none;
      vertex_hashtable = empty;
      edge_hashtable = empty;
    })

  abbrev pub HasEntry : GraphContext D → Graphid → Type 0
  HasEntry g v = (ve : VertexEntry D) × (g.vertex_hashtable v ≡ some ve)

  HasEntry-enter :
      (g : GraphContext D) (id : Graphid) (ve : VertexEntry D) (v : Graphid)
      → HasEntry g v
      → HasEntry (record g { vertex_hashtable = enter g.vertex_hashtable id ve }) v
  unfolding enter
  HasEntry-enter g id ve v (we, there) = elim (Bool-cases (v == id)) [
    | inl same ↦ (ve, rw same refl)
    | inr other ↦ (we, rw other there)
  ]

  -- The vertex has an entry, and none of its lists is left.
  pub record IsFreed (g : GraphContext D) (v : Graphid) : Type 0 where
    pub entry : VertexEntry D
    pub there : g.vertex_hashtable v ≡ some entry
    pub no_edges_in : entry.edges_in ≡ none
    pub no_edges_out : entry.edges_out ≡ none
    pub no_loop : entry.loop ≡ none

  IsFreed-entry :
      (g : GraphContext D) (v : Graphid) (ve : VertexEntry D)
      → g.vertex_hashtable v ≡ some (freed_entry ve)
      → IsFreed g v
  IsFreed-entry g v ve there = record {
    entry = freed_entry ve;
    there = there;
    no_edges_in = refl;
    no_edges_out = refl;
    no_loop = refl;
  }

  -- What the walk over some vertices leaves: their lists are gone, and no other entry has changed.
  pub record Walked (ids : List Graphid) (g g' : GraphContext D) : Type 0 where
    pub run : free_vertex_lists ids g ≡ ok g'
    pub freed : (v : Graphid) → has v ids ≡ true → IsFreed g' v
    pub others : (v : Graphid) → has v ids ≡ false → g'.vertex_hashtable v ≡ g.vertex_hashtable v

  Walked-cons :
      (id : Graphid) (ids : List Graphid) (g g' : GraphContext D) (ve : VertexEntry D)
      → g.vertex_hashtable id ≡ some ve
      → Walked ids (record g { vertex_hashtable = enter g.vertex_hashtable id (freed_entry ve) }) g'
      → Walked (id ∷ ids) g g'
  unfolding free_vertex_lists update_vertex enter
  Walked-cons id ids g g' ve there walked = record {
    run = rw (there, update_vertex) walked.run;
    freed = λ v listed. elim (Bool-cases (has v ids)) [
      | inl later ↦ walked.freed v later
      | inr done ↦
          let here : (v == id) ≡ true = ground (arith, listed, done) in
          IsFreed-entry g' v ve (walked.others v done ∙ rw here refl)
    ];
    others = λ v out.
        walked.others v (ground (arith, out))
        ∙ enter-ne g.vertex_hashtable id v (freed_entry ve) (ground (arith, out));
  }

  walk :
      (ids : List Graphid) (g : GraphContext D)
      → All (HasEntry g) ids
      → (g' : GraphContext D) × Walked ids g g'
  unfolding free_vertex_lists
  walk [] g h = (g, record { run = refl; freed = λ v listed. cc; others = λ v out. refl })
  walk (id ∷ ids) g ((ve, there), h) =
      let g1 = record g { vertex_hashtable = enter g.vertex_hashtable id (freed_entry ve) } in
      let (g', walked) = walk ids g1 (All-imp ids (HasEntry-enter g id (freed_entry ve)) h) in
      (g', Walked-cons id ids g g' ve there walked)

  -- If every vertex of the list has an entry, the walk of `free_graph_context` leaves none of them a
  -- list of edges and keeps the entries of other vertices as they are, and `free_graph_context`
  -- ends: behind the walk the list of vertices and the tables go.
  pub free_graph_context_lem :
      (g : GraphContext D)
      → All (HasEntry g) (items g.vertices)
      → (g' : GraphContext D) × Walked (items g.vertices) g g'
        × (free_graph_context g
            ≡ ok (record g' {
              graph_oid = 0;
              vertices = none;
              vertex_hashtable = empty;
              edge_hashtable = empty;
            }))
  unfolding free_graph_context
  free_graph_context_lem g h =
      let (g', walked) = walk (items g.vertices) g h in (g', walked, rw (walked.run) refl)
