-- ===== src/PathFinding/Tests.antt =====
-- The search over the graph of three vertices, from vertex 1 to vertex 3 along the edges.
use post_graph.Prelude.{
  ℕ, arith, Bool, ◌≡◌, refl, ◌↔◌, true, false, none, some, List, [], ◌∷◌, ◌++◌, if◌then◌else◌, ◌==◌,
  ok,
}
use post_graph.Prelude.Int.{pos}
use post_graph.GraphId.{Graphid}
use post_graph.GlobalGraph.HashTable.{Table}
use post_graph.GlobalGraph.Loading.Tests.{graph, vertex_2, edge, graph_test, graph-IsGraph}
use post_graph.PathFinding.{
  RelDir, Search, State, empty_state, load_initial_dfs_queues, add_edges, check_edge_constraints,
  check_label, check_properties,
}
use post_graph.GlobalGraph.{EdgeEntry}
use post_graph.PathFinding.Spec.{state, Marks, Answers, next_edges, stamps}
use post_graph.PathFinding.Edges.{add_edges-stacked}
use post_graph.PathFinding.Calls.{Enough}
use post_graph.PathFinding.Trails.{In, IsResult, Link, Trail}
use post_graph.PathFinding.Container.{build_path_container}
use post_graph.PathFinding.Container.Filled.{
  with_vertices, build_path_container_lem, build_path_container_end,
}
use post_graph.PathFinding.Correct.{paths_found_correct}

abbrev search : RelDir → Search ℕ
search dir = record {
  ggctx = graph;
  vsid = 1;
  veid = 3;
  label_name = none;
  properties = none;
  lidx = pos 2;
  uidx = pos 3;
  uidx_infinite = false;
  edge_direction = dir;
  get_rel_name = λ oid. "";
  property_ops = record { root_count = λ d. 0; deep_contains = λ d d'. ok true };
}

passes : (dir : RelDir) (ee : EdgeEntry ℕ) → check_edge_constraints (search dir) ee ≡ ok true
unfolding check_edge_constraints check_label check_properties
passes dir ee = refl

search-Answers : (dir : RelDir) → Answers (search dir)
search-Answers dir e ee there = (true, passes dir ee)

paths_found_correct_example :
    (st : State) × (load_initial_dfs_queues (search RelDir.dir_right) empty_state ≡ ok st)
    × (paths : List (List Graphid)) × Enough (search RelDir.dir_right) st paths
    × ((path : List Graphid) → In path paths ↔ IsResult (search RelDir.dir_right) path)
paths_found_correct_example =
    paths_found_correct (search RelDir.dir_right) graph-IsGraph tt (search-Answers RelDir.dir_right)

abbrev on_path : Table Bool
on_path e = if e == 11 then some true else none

on_path-Marks : Marks on_path (11 ∷ [])
on_path-Marks e = ground arith

add_edges-stacked_example :
    (t : Table Bool) × Marks t (11 ∷ [])
    × (add_edges (search RelDir.dir_none) 2 (state on_path [] [] (11 ∷ []))
        ≡ ok (
            state t
              (stamps RelDir.dir_none 2 (next_edges (search RelDir.dir_none) (11 ∷ []) 2) [])
              (next_edges (search RelDir.dir_none) (11 ∷ []) 2 ++ [])
              (11 ∷ [])))
add_edges-stacked_example =
    add_edges-stacked (search RelDir.dir_none) graph-IsGraph on_path 2 [] [] (11 ∷ []) vertex_2
      graph_test.0 on_path-Marks (search-Answers RelDir.dir_none)

-- After the edges 11 and 12.
abbrev at_end : State
at_end = state on_path [] [] (12 ∷ 11 ∷ [])

Link-11 : Link (search RelDir.dir_right) 1 11 2
Link-11 = record {
  entry = edge 11 1 2;
  there = graph_test.1;
  passes = passes RelDir.dir_right (edge 11 1 2);
  leads = (refl, refl);
}

Link-12 : Link (search RelDir.dir_right) 2 12 3
Link-12 = record {
  entry = edge 12 2 3;
  there = graph_test.2;
  passes = passes RelDir.dir_right (edge 12 2 3);
  leads = (refl, refl);
}

Trail-11 : Trail (search RelDir.dir_right) 2 (11 ∷ [])
Trail-11 = Trail.step Trail.start Link-11 refl

build_path_container_lem_example :
    build_path_container (search RelDir.dir_right) 77 at_end
    ≡ ok (1 ∷ with_vertices (search RelDir.dir_right) (11 ∷ 12 ∷ []))
build_path_container_lem_example =
    build_path_container_lem (search RelDir.dir_right) 77 at_end
      ((edge 11 1 2, graph_test.1), ((edge 12 2 3, graph_test.2), tt))

-- From vertex 1 to vertex 3, and the container ends with vertex 2.
build_path_container_end_example :
    (front : List Graphid) × (build_path_container (search RelDir.dir_right) 77 at_end
      ≡ ok (front ++ 12 ∷ 2 ∷ []))
build_path_container_end_example =
    build_path_container_end (search RelDir.dir_right) 77 2 12 3 (11 ∷ []) at_end refl Trail-11
      Link-12 refl
