-- ===== src/PathFinding/Vle/Tests.antt =====
-- A first call over the tables of three vertices.
use post_graph.Prelude.{ℕ, ◌≡◌, leb, none, some, List, []}
use post_graph.Prelude.Int.{pos}
use post_graph.GlobalGraph.{GraphContext}
use post_graph.GlobalGraph.Loading.Tests.{catalog, snapshot, catalog-IsConsistent}
use post_graph.GlobalGraph.Contexts.Graphs.{IsWellFormed, manage_graph_contexts-IsWellFormed}
use post_graph.GlobalGraph.Contexts.{manage_graph_contexts}
use post_graph.Prelude.{All, ok}
use post_graph.PathFinding.Vle.{VleArguments, Session}

abbrev session : Session ℕ
session = record {
  catalog = catalog;
  snapshot = snapshot;
  get_graph_oid = λ name. 1;
  get_rel_name = λ oid. "";
  property_ops = record { root_count = λ d. 0; deep_contains = λ d d'. ok (leb d' d) };
}

abbrev arguments : VleArguments ℕ
arguments = record {
  graph_name = some "g";
  start_vertex = some 1;
  end_vertex = some 3;
  lower = none;
  upper = some (pos 3);
  direction = some (pos 2);
  label = none;
  prototype = some 0;
}

manage_graph_contexts-IsWellFormed_example :
    (g : GraphContext ℕ) × (gs : List (GraphContext ℕ)) × (manage_graph_contexts catalog snapshot 1
        []
      ≡ ok (g, gs))
    × IsWellFormed g
    × All IsWellFormed gs
manage_graph_contexts-IsWellFormed_example =
    manage_graph_contexts-IsWellFormed catalog snapshot 1 [] tt catalog-IsConsistent
