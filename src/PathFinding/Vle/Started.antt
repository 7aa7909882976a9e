-- ===== src/PathFinding/Vle/Started.antt =====
-- From the tables and the arguments to the paths.
use post_graph.Prelude.{◌≡◌, ◌↔◌, List, All, ok}
use Prim.Native.String.{String}
use post_graph.Prelude.Int.{ℤ}
use post_graph.GraphId.{Graphid}
use post_graph.GlobalGraph.{GraphContext}
use post_graph.GlobalGraph.Contexts.{manage_graph_contexts}
use post_graph.GlobalGraph.Contexts.Graphs.{IsWellFormed}
use post_graph.PathFinding.{Search, State}
use post_graph.PathFinding.Calls.{Enough}
use post_graph.PathFinding.Trails.{In}
use post_graph.PathFinding.Vle.{VleArguments, Session, gtype_vle_first}
use post_graph.PathFinding.Vle.Asked.{IsAsked}

module _ {D : Type 0} (session : Session D) (args : VleArguments D)
    (contexts : List (GraphContext D)) where
  -- What the first call leaves, and what the calls find in the graph that manage_graph_contexts
  -- returned for the name.
  pub record IsStarted (graph_name : String) (vsid veid : Graphid) (direction : ℤ) (s : Search D)
      (st : State) (contexts' : List (GraphContext D)) : Type 0 where
    pub run : gtype_vle_first session args contexts ≡ ok (s, st, contexts')
    pub graph : GraphContext D
    pub managed :
        manage_graph_contexts session.catalog session.snapshot
          (session.get_graph_oid graph_name)
          contexts
        ≡ ok (graph, contexts')
    pub well_formed : All IsWellFormed contexts'
    pub paths : List (List Graphid)
    pub enough : Enough s st paths
    pub results :
        (path : List Graphid) → In path paths ↔ IsAsked session args graph direction vsid veid path
