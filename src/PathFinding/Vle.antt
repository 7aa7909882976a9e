-- ===== src/PathFinding/Vle.antt =====
-- build_vle_context and gtype_vle of dfs.c: the set-returning function, from its arguments to its
-- rows. An argument that is NULL is `none`; the numbers and strings are those that get_gtype_value
-- reads from the gtype arguments. `get_graph_oid`, a lookup in the catalog cache, is a parameter.
pub mod Asked
pub mod Searched
pub mod Started
pub mod Tests
use Prim.Native.String.{String}
use post_graph.Prelude.{
  ℕ, Bool, true, false, not, ◌||◌, Option, none, some, List, [], ◌∷◌, ◌==◌, if◌then◌else◌, is_some,
  Report, Outcome, ok, error, guard, ◌>>=◌, ◌>>◌, or_crash,
}
use post_graph.Prelude.Int.{ℤ, pos, negsuc}
use post_graph.GraphId.{Graphid}
use post_graph.GlobalGraph.{Oid, GraphContext, Catalog, Snapshot}
use post_graph.GlobalGraph.Contexts.{manage_graph_contexts}
use post_graph.PathFinding.{
  RelDir, PropertyOps, Search, State, empty_state, load_initial_dfs_queues, dfs_find_a_path_between,
}
use post_graph.PathFinding.Container.{build_path_container}
use post_graph.VariableEdge.{VariableEdge, create_variable_edge}

pub record VleArguments (D : Type 0) : Type 0 where
  pub graph_name : Option String
  pub start_vertex : Option Graphid
  pub end_vertex : Option Graphid
  pub lower : Option ℤ
  pub upper : Option ℤ
  pub direction : Option ℤ
  pub label : Option String
  pub prototype : Option D

-- What PostgreSQL, the catalog and gtype give.
pub record Session (D : Type 0) : Type 0 where
  pub catalog : Catalog D
  pub snapshot : Snapshot
  pub get_graph_oid : String → Oid
  pub get_rel_name : Oid → String
  pub property_ops : PropertyOps D

-- The enum cypher_rel_dir.
pub rel_dir : ℤ → RelDir
rel_dir (pos n) =
    if n == 0
    then RelDir.dir_none
    else if n == 1
    then RelDir.dir_left
    else if n == 2
    then RelDir.dir_right
    else RelDir.unknown
rel_dir (negsuc n) = RelDir.unknown

abbrev pub number_or : ℤ → Option ℤ → ℤ
number_or default none = default
number_or default (some n) = n

module _ {D : Type 0} where
  -- The search of the arguments over a graph.
  pub search_of : Session D → VleArguments D → GraphContext D → (vsid veid : Graphid) → ℤ → Search D
  search_of session args ggctx vsid veid direction = record {
    ggctx = ggctx;
    vsid = vsid;
    veid = veid;
    label_name = args.label;
    properties = args.prototype;
    lidx = number_or (pos 1) args.lower;
    uidx = number_or (negsuc 0) args.upper;
    uidx_infinite = not (is_some args.upper);
    edge_direction = rel_dir direction;
    get_rel_name = session.get_rel_name;
    property_ops = session.property_ops;
  }

  pub build_vle_context :
      Session D
      → VleArguments D
      → List (GraphContext D)
      → Outcome (Search D × State × List (GraphContext D))
  build_vle_context session args contexts = do
    graph_name ← or_crash args.graph_name
    (ggctx, contexts') ←
        manage_graph_contexts session.catalog session.snapshot (session.get_graph_oid graph_name)
          contexts
    vsid ← or_crash args.start_vertex
    veid ← or_crash args.end_vertex
    direction ← or_crash args.direction
    let s = search_of session args ggctx vsid veid direction
    st ← load_initial_dfs_queues s empty_state
    ok (s, st, contexts')

  -- The part of the first call.
  pub gtype_vle_first :
      Session D
      → VleArguments D
      → List (GraphContext D)
      → Outcome (Search D × State × List (GraphContext D))
  gtype_vle_first session args contexts =
      guard (is_some args.graph_name) Report.null_argument
      >> (guard (is_some args.start_vertex) Report.null_argument
          >> (guard (is_some args.direction) Report.null_argument
              >> build_vle_context session args contexts))

  -- The part of every call: the next row, or none, and the state that stays for the next call.
  pub gtype_vle_next :
      (fuel : ℕ) (junk : Graphid)
      → Search D
      → List (GraphContext D)
      → State
      → Outcome (Option (VariableEdge D) × State)
  gtype_vle_next fuel junk s contexts st = do
    (found_a_path, st') ← dfs_find_a_path_between s fuel st
    elim found_a_path [
      | false ↦ ok (none, st')
      | true ↦ do
        array ← build_path_container s junk st'
        row ← create_variable_edge contexts s.ggctx.graph_oid array
        ok (some row, st')
    ]
