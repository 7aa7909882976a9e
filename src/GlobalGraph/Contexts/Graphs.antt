-- ===== src/GlobalGraph/Contexts/Graphs.antt =====
-- The graphs in the list of contexts are well formed.
use post_graph.Prelude.{◌≡◌, refl, inl, inr, Option, none, some, List, [], ◌∷◌, Bool-cases, All, ok}
use post_graph.GraphId.{Graphid}
use post_graph.GlobalGraph.{Oid, GraphContext, Catalog, Snapshot}
use post_graph.GlobalGraph.WellFormed.{IsGraph}
use post_graph.GlobalGraph.Loading.Loaded.{IsConsistent, edge_ids, load_hashtables_correct}
use post_graph.GlobalGraph.Contexts.{
  is_ggctx_invalid, free_invalid_contexts, find_graph_context, cached_or_new, manage_graph_contexts,
}
use post_graph.GlobalGraph.Contexts.Managed.{find_graph_context-All}

module _ {D : Type 0} where
  -- The invariant holds for some edge ids.
  abbrev pub IsWellFormed : GraphContext D → Type 0
  IsWellFormed g = (ids : List Graphid) × IsGraph g ids

  All-free_invalid_contexts :
      (P : GraphContext D → Type 0) (snap : Snapshot) (gs : List (GraphContext D))
      → All P gs
      → All P (free_invalid_contexts snap gs)
  unfolding free_invalid_contexts
  All-free_invalid_contexts P snap [] h = tt
  All-free_invalid_contexts P snap (g ∷ gs) (p, h) = elim (Bool-cases (is_ggctx_invalid snap g)) [
    | inl invalid ↦ rw invalid (All-free_invalid_contexts P snap gs h)
    | inr valid ↦ rw valid (p, All-free_invalid_contexts P snap gs h)
  ]

  cached_or_new-IsWellFormed :
      (catalog : Catalog D) (snap : Snapshot) (oid : Oid) (kept : List (GraphContext D))
      (there : Option (GraphContext D))
      → All IsWellFormed kept
      → find_graph_context kept oid ≡ there
      → IsConsistent catalog oid
      → (g : GraphContext D) × (gs : List (GraphContext D)) × (cached_or_new catalog snap oid kept
            there
          ≡ ok (g, gs))
        × IsWellFormed g
        × All IsWellFormed gs
  unfolding cached_or_new
  cached_or_new-IsWellFormed catalog snap oid kept (some c) h found fit =
      (c, kept, refl, (find_graph_context-All IsWellFormed kept oid c h found).1, h)
  cached_or_new-IsWellFormed catalog snap oid kept none h found fit =
      let (g, run, loaded, stored) = load_hashtables_correct catalog oid snap fit in
      let graph : IsWellFormed g = (edge_ids catalog oid, loaded.graph) in
      (g, g ∷ kept, rw run refl, graph, (graph, h))

  -- If the tables of the graph are consistent and the graphs that the backend keeps are well formed,
  -- `manage_graph_contexts` returns one that is well formed, and all that it keeps are so again.
  pub manage_graph_contexts-IsWellFormed :
      (catalog : Catalog D) (snap : Snapshot) (oid : Oid) (contexts : List (GraphContext D))
      → All IsWellFormed contexts
      → IsConsistent catalog oid
      → (g : GraphContext D) × (gs : List (GraphContext D)) × (manage_graph_contexts catalog snap
            oid contexts
          ≡ ok (g, gs))
        × IsWellFormed g
        × All IsWellFormed gs
  unfolding manage_graph_contexts
  manage_graph_contexts-IsWellFormed catalog snap oid contexts h fit =
      let kept = free_invalid_contexts snap contexts in
      cached_or_new-IsWellFormed catalog snap oid kept (find_graph_context kept oid)
        (All-free_invalid_contexts IsWellFormed snap contexts h) refl fit
