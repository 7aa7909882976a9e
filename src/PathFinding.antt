-- ===== src/PathFinding.antt =====
-- src/backend/utils/path_finding/dfs.c: the variable-length edges of a MATCH, `()-[*l..u]-()`. A
-- depth-first search over the loaded graph finds the paths from one vertex to another, one for each
-- call of the set-returning function.
-- `Search` holds what a call of `dfs_find_a_path_between` reads and never writes, `State` the
-- edge-state hash table and the three stacks, as lists with the head first, in the sense of
-- Queue/Chain.antt. `get_rel_name` is PostgreSQL's; the comparison of properties is a field, which
-- may report, and which PathFinding/Properties.antt fills with gtype_deep_contains.
pub mod Spec
pub mod Edges
pub mod Rounds
pub mod Runs
pub mod Container
pub mod Trails
pub mod Sound
pub mod Complete
pub mod Correct
pub mod Calls
pub mod Vle
pub mod Properties
pub mod Tests
use text.Mathlib.Text.{◌==◌ as str_eq}
use Prim.Native.String.{String}
use post_graph.Prelude.{
  ℕ, zero, suc, Bool, true, false, not, ◌&&◌, ◌||◌, Option, none, some, List, [], ◌∷◌, ◌==◌, ltb,
  leb, if◌then◌else◌, length, Report, Outcome, ok, error, crash, out_of_fuel, ◌>>=◌, ◌>>◌,
}
use post_graph.Prelude.Int.{ℤ, pos, negsuc, leb_ℤ, ltb_ℤ}
use post_graph.GraphId.{Graphid}
use post_graph.GlobalGraph.HashTable.{Table, empty, enter}
use post_graph.GlobalGraph.{
  Oid, VertexEntry, EdgeEntry, GraphContext, get_vertex_entry, get_edge_entry, items,
}

-- cypher_rel_dir, or another number.
pub data RelDir : Type 0 where
  dir_left dir_none dir_right unknown : RelDir

-- What gtype gives: the number of pairs at the root, and containment.
pub record PropertyOps (D : Type 0) : Type 0 where
  pub root_count : D → ℕ
  pub deep_contains : D → D → Outcome Bool

pub record Search (D : Type 0) : Type 0 where
  pub ggctx : GraphContext D
  pub vsid : Graphid
  pub veid : Graphid
  pub label_name : Option String
  pub properties : Option D
  pub lidx : ℤ
  pub uidx : ℤ
  pub uidx_infinite : Bool
  pub edge_direction : RelDir
  pub get_rel_name : Oid → String
  pub property_ops : PropertyOps D

pub record State : Type 0 where
  pub edge_state : Table Bool
  pub vertex_queue : List Graphid
  pub edge_queue : List Graphid
  pub path_queue : List Graphid

-- What a round of the search's loop leaves: a path, or the next round.
pub data Round : Type 0 where
  found again : State → Round

-- The hash table of the edges' states, made empty.
abbrev pub create_hashtable : Table Bool
create_hashtable = empty

-- The table and the stacks that `build_vle_context` makes.
abbrev pub empty_state : State
empty_state = record { edge_state = empty; vertex_queue = []; edge_queue = []; path_queue = [] }

-- IS_GRAPHID_STACK_EMPTY
abbrev pub is_empty : List Graphid → Bool
is_empty [] = true
is_empty (id ∷ rest) = false

-- PEEK_GRAPHID_STACK reads through the head, NULL on an empty stack.
abbrev pub peek : List Graphid → Outcome Graphid
peek [] = crash
peek (id ∷ rest) = ok id

-- pop_graphid_queue
abbrev pub pop : List Graphid → Outcome (List Graphid)
pop [] = crash
pop (id ∷ rest) = ok rest

-- The entry's flag, and the table with an entry.
pub get_edge_state : Table Bool → Graphid → Bool × Table Bool
get_edge_state t edge_id = elim (t edge_id) [
  | some visited ↦ (visited, t)
  | none ↦ (false, enter t edge_id false)
]

-- The vertex stack is kept only where the edges have no direction.
abbrev pub push_vertex : RelDir → Graphid → List Graphid → List Graphid
push_vertex RelDir.dir_none v vertex_queue = v ∷ vertex_queue
push_vertex _ v vertex_queue = vertex_queue

abbrev pub pop_vertex : RelDir → List Graphid → Outcome (List Graphid)
pop_vertex RelDir.dir_none vertex_queue = pop vertex_queue
pop_vertex _ vertex_queue = ok vertex_queue

-- The lists that the cursors of `add_edges` walk through.
module _ {D : Type 0} where
  abbrev pub edges_out_of : RelDir → VertexEntry D → List Graphid
  edges_out_of RelDir.dir_left ve = []
  edges_out_of _ ve = items ve.edges_out

  abbrev pub edges_in_of : RelDir → VertexEntry D → List Graphid
  edges_in_of RelDir.dir_right ve = []
  edges_in_of _ ve = items ve.edges_in

module _ {D : Type 0} (s : Search D) where
  pub check_label : EdgeEntry D → Bool
  check_label ee = elim s.label_name [
    | none ↦ true
    | some name ↦ str_eq name (s.get_rel_name ee.oid)
  ]

  -- A report of the comparison is passed on.
  pub check_properties : EdgeEntry D → Outcome Bool
  check_properties ee = elim s.properties [
    | none ↦ ok true
    | some wanted ↦
        if leb (s.property_ops.root_count wanted) (s.property_ops.root_count ee.properties)
        then s.property_ops.deep_contains ee.properties wanted
        else ok false
  ]

  pub check_edge_constraints : EdgeEntry D → Outcome Bool
  check_edge_constraints ee = if check_label ee then check_properties ee else ok false

  pub do_vsid_and_veid_exist : Bool
  do_vsid_and_veid_exist = elim (get_vertex_entry s.ggctx s.vsid) [
    | none ↦ false
    | some _ ↦ elim (get_vertex_entry s.ggctx s.veid) [ none ↦ false | some _ ↦ true ]
  ]

  -- The vertex at the other end of an edge without direction, seen from the parent.
  pub other_end : EdgeEntry D → Graphid → Outcome Graphid
  other_end ee parent =
      if ee.start_id == parent
      then ok ee.end_id
      else if ee.end_id == parent
      then ok ee.start_id
      else error Report.no_parent_match

  pub get_next_vertex : RelDir → List Graphid → EdgeEntry D → Outcome Graphid
  get_next_vertex RelDir.dir_right vertex_queue ee = ok ee.end_id
  get_next_vertex RelDir.dir_left vertex_queue ee = ok ee.start_id
  get_next_vertex RelDir.dir_none vertex_queue ee = peek vertex_queue >>= other_end ee
  get_next_vertex RelDir.unknown vertex_queue ee = error Report.unknown_direction

  -- The body of the loop of `add_edges` for one edge.
  pub add_edge : Graphid → Graphid → State → Outcome State
  unfolding get_edge_entry get_edge_state
  add_edge vertex_id edge_id st = do
    ee ← get_edge_entry s.ggctx edge_id
    let (visited, t) = get_edge_state st.edge_state edge_id
    fits ← if visited then ok false else check_edge_constraints ee
    ok (
        if fits
        then record st {
          edge_state = t;
          vertex_queue = push_vertex s.edge_direction vertex_id st.vertex_queue;
          edge_queue = edge_id ∷ st.edge_queue;
        }
        else record st { edge_state = t })

  -- The loop of `add_edges`: the cursor of the outgoing edges goes first, then that of the incoming
  -- ones, then that of the self loops.
  pub add_edges_loop : Graphid → (edge_out edge_in edge_self : List Graphid) → State → Outcome State
  add_edges_loop v (e ∷ out) ins self st =
      add_edge v e st >>= λ st'. add_edges_loop v out ins self st'
  add_edges_loop v [] (e ∷ ins) self st =
      add_edge v e st >>= λ st'. add_edges_loop v [] ins self st'
  add_edges_loop v [] [] (e ∷ self) st = add_edge v e st >>= λ st'. add_edges_loop v [] [] self st'
  add_edges_loop v [] [] [] st = ok st

  pub add_edges : Graphid → State → Outcome State
  add_edges vertex_id st = elim (get_vertex_entry s.ggctx vertex_id) [
    | none ↦ crash
    | some ve ↦
        add_edges_loop ve.id (edges_out_of s.edge_direction ve) (edges_in_of s.edge_direction ve)
          (items ve.loop) st
  ]

  -- The first edges.
  pub load_initial_dfs_queues : State → Outcome State
  unfolding do_vsid_and_veid_exist
  load_initial_dfs_queues st = if do_vsid_and_veid_exist then add_edges s.vsid st else ok st

  -- An edge that is visited already: the search backs up, or drops the edge.
  pub back_up : Graphid → State → Outcome State
  back_up edge_id st = do
    path_edge_id ← peek st.path_queue
    path_queue ← if edge_id == path_edge_id then pop st.path_queue else ok st.path_queue
    edge_queue ← pop st.edge_queue
    vertex_queue ← pop_vertex s.edge_direction st.vertex_queue
    ok (record {
      edge_state =
          if edge_id == path_edge_id then enter st.edge_state edge_id false else st.edge_state;
      vertex_queue = vertex_queue;
      edge_queue = edge_queue;
      path_queue = path_queue;
    })

  -- `queue_size(path_queue) >= lidx && (uidx_infinite || queue_size(path_queue) <= uidx)`
  pub within_bounds : ℕ → Bool
  within_bounds size = leb_ℤ s.lidx (pos size) && (s.uidx_infinite || leb_ℤ (pos size) s.uidx)

  -- A new edge: it is marked, put on the path, and the edges behind it are added.
  pub advance : Graphid → State → Outcome Round
  unfolding get_edge_entry within_bounds
  advance edge_id st = do
    let path_queue = edge_id ∷ st.path_queue
    let size = length path_queue
    let marked = record st {
      edge_state = enter st.edge_state edge_id true;
      path_queue = path_queue;
    }
    ee ← get_edge_entry s.ggctx edge_id
    next_vertex_id ← get_next_vertex s.edge_direction st.vertex_queue ee
    let at_end = next_vertex_id == s.veid
    if at_end && not s.uidx_infinite && ltb_ℤ s.uidx (pos size) then ok (Round.again marked) else do
      st' ←
          if s.uidx_infinite || ltb_ℤ (pos size) s.uidx
          then add_edges next_vertex_id marked
          else ok marked
      ok (if at_end && within_bounds size then Round.found st' else Round.again st')

  -- One round of the loop of `dfs_find_a_path_between`.
  pub round : State → Outcome Round
  unfolding get_edge_state
  round st = do
    edge_id ← peek st.edge_queue
    let (visited, t) = get_edge_state st.edge_state edge_id
    let st' = record st { edge_state = t }
    if visited then (do st'' ← back_up edge_id st'; ok (Round.again st'')) else advance edge_id st'

  -- The loop, with the rounds that are left. It is true if the path queue holds a path to return.
  pub dfs_find_a_path_between : ℕ → State → Outcome (Bool × State)
  dfs_find_a_path_between zero st = out_of_fuel
  dfs_find_a_path_between (suc fuel) st = elim (is_empty st.edge_queue) [
    | true ↦ ok (false, st)
    | false ↦ round st >>= elim [
      | Round.found st' ↦ ok (true, st')
      | Round.again st' ↦ dfs_find_a_path_between fuel st'
    ]
  ]
