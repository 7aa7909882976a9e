-- ===== src/GlobalGraph/Contexts.antt =====
-- The list of the backend's graph contexts: is_ggctx_invalid, manage_graph_contexts and
-- find_graph_context of global_graph.c. The list is `global_graph_contexts` with its `next` chain.
pub mod Managed
pub mod Graphs
pub mod Tests
use post_graph.Prelude.{
  ℕ, Bool, not, ◌||◌, Option, none, some, List, [], ◌∷◌, ◌==◌, if◌then◌else◌, Outcome, ok, ◌>>=◌,
}
use post_graph.GlobalGraph.{Oid, GraphContext, Catalog, Snapshot}
use post_graph.GlobalGraph.Loading.{load_hashtables, new_context}

module _ {D : Type 0} where
  pub is_ggctx_invalid : Snapshot → GraphContext D → Bool
  is_ggctx_invalid snap ggctx =
      not (ggctx.xmin == snap.xmin)
      || not (ggctx.xmax == snap.xmax)
      || not (ggctx.curcid == snap.curcid)

  -- The first loop of `manage_graph_contexts` unlinks the invalid contexts.
  pub free_invalid_contexts : Snapshot → List (GraphContext D) → List (GraphContext D)
  free_invalid_contexts snap [] = []
  free_invalid_contexts snap (ggctx ∷ rest) =
      if is_ggctx_invalid snap ggctx
      then free_invalid_contexts snap rest
      else ggctx ∷ free_invalid_contexts snap rest

  pub find_graph_context : List (GraphContext D) → Oid → Option (GraphContext D)
  find_graph_context [] graph_oid = none
  find_graph_context (ggctx ∷ rest) graph_oid =
      if ggctx.graph_oid == graph_oid then some ggctx else find_graph_context rest graph_oid

  -- A context that is there is returned; else a new one is put in front of the list and loaded. In
  -- the source it is linked before the load; an error of the load is the end of the call here, and
  -- the half-loaded context that it leaves in the list is not modelled.
  cached_or_new :
      Catalog D
      → Snapshot
      → Oid
      → List (GraphContext D)
      → Option (GraphContext D)
      → Outcome (GraphContext D × List (GraphContext D))
  cached_or_new catalog snap graph_oid kept (some ggctx) = ok (ggctx, kept)
  cached_or_new catalog snap graph_oid kept none = do
    ggctx ← load_hashtables catalog (new_context graph_oid snap)
    ok (ggctx, ggctx ∷ kept)

  -- The second loop is the one of `find_graph_context`.
  pub manage_graph_contexts :
      Catalog D
      → Snapshot
      → Oid
      → List (GraphContext D)
      → Outcome (GraphContext D × List (GraphContext D))
  manage_graph_contexts catalog snap graph_oid contexts =
      let kept = free_invalid_contexts snap contexts in
      cached_or_new catalog snap graph_oid kept (find_graph_context kept graph_oid)
