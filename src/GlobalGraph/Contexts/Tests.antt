-- ===== src/GlobalGraph/Contexts/Tests.antt =====
-- The contexts of a backend before and after a call for graph 1.
use post_graph.Prelude.{ℕ, ◌≡◌, refl, false, none, some, List, [], ◌∷◌, ok}
use post_graph.GlobalGraph.HashTable.{empty}
use post_graph.GlobalGraph.{Oid, GraphContext}
use post_graph.GlobalGraph.Loading.Tests.{
  catalog, snapshot, graph, graph_oid_test, load_hashtables_test,
}
use post_graph.GlobalGraph.Contexts.{
  is_ggctx_invalid, free_invalid_contexts, find_graph_context, cached_or_new, manage_graph_contexts,
}
use post_graph.GlobalGraph.Contexts.Managed.{
  IsManaged, manage_graph_contexts-IsManaged, manage_graph_contexts-cached,
}

-- A context that holds no vertex, loaded while `xmin` was the oldest transaction.
abbrev context : Oid → (xmin : ℕ) → GraphContext ℕ
context oid xmin = record {
  graph_oid = oid;
  vertex_hashtable = empty;
  edge_hashtable = empty;
  xmin = xmin;
  xmax = 6;
  curcid = 0;
  vertex_cnt = 0;
  edge_cnt = 0;
  vertices = none;
}

-- The one of graph 1 is stale.
abbrev contexts : List (GraphContext ℕ)
contexts = context 1 4 ∷ context 2 5 ∷ []

reloaded : manage_graph_contexts catalog snapshot 1 contexts ≡ ok (graph, graph ∷ context 2 5 ∷ [])
unfolding manage_graph_contexts cached_or_new free_invalid_contexts find_graph_context
    is_ggctx_invalid
reloaded = rw load_hashtables_test refl

once : find_graph_context (context 2 5 ∷ []) 1 ≡ none
unfolding find_graph_context
once = refl

once_2 : find_graph_context {D = ℕ} [] 2 ≡ none
unfolding find_graph_context
once_2 = refl

found : find_graph_context contexts 2 ≡ some (context 2 5)
unfolding find_graph_context
found = refl

valid : is_ggctx_invalid snapshot (context 2 5) ≡ false
unfolding is_ggctx_invalid
valid = refl

manage_graph_contexts-IsManaged_example : IsManaged snapshot 1 graph (graph ∷ context 2 5 ∷ [])
manage_graph_contexts-IsManaged_example =
    manage_graph_contexts-IsManaged catalog snapshot 1 contexts (graph ∷ context 2 5 ∷ []) graph
      (once, (once_2, tt)) reloaded

manage_graph_contexts-cached_example :
    manage_graph_contexts catalog snapshot 2 contexts
    ≡ ok (context 2 5, free_invalid_contexts snapshot contexts)
manage_graph_contexts-cached_example =
    manage_graph_contexts-cached catalog snapshot 2 contexts (context 2 5) found valid

pub graph_found : find_graph_context (graph ∷ []) 1 ≡ some graph
unfolding find_graph_context
graph_found = rw graph_oid_test refl
