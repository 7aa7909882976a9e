-- ===== src/PathFinding/Correct.antt =====
-- The search of dfs.c as a whole: its calls return the paths that the pattern stands for, and end.
use mathlib.Core.Path.{subst}
use post_graph.Prelude.{
  ◌≡◌, refl, sym, ◌↔◌, inl, inr, true, false, some, List, [], ◌∷◌, ◌==◌, Bool-cases, Option-cases,
  length, All, ok, arith,
}
use post_graph.GraphId.{Graphid}
use post_graph.GlobalGraph.HashTable.{empty}
use post_graph.GlobalGraph.{VertexEntry, EdgeEntry, get_vertex_entry}
use post_graph.PathFinding.{
  RelDir, Search, State, empty_state, do_vsid_and_veid_exist, load_initial_dfs_queues,
}
use post_graph.PathFinding.Spec.{IsGraph, Answers, next_edges, branches, unused}
use post_graph.PathFinding.Edges.{add_edges-stacked, next_edges-Ready}
use post_graph.PathFinding.Rounds.{IsKnown}
use post_graph.PathFinding.Runs.{Runs, Runs-branches}
use post_graph.PathFinding.Calls.{Enough, Enough-Runs}
use post_graph.PathFinding.Trails.{Leads, In, Link, Trail, IsResult}
use post_graph.PathFinding.Sound.{next_edges-Onward, branches-IsResult}
use post_graph.PathFinding.Complete.{branches_complete}

All-In :
    (P : List Graphid → Type 0) (paths : List (List Graphid)) (p : List Graphid)
    → All P paths
    → In p paths
    → P p
All-In P (q ∷ paths) p h (inl e) = subst P (sym e) h.0
All-In P (q ∷ paths) p h (inr i) = All-In P paths p h.1 i
All-In P [] p h i = absurd i

module _ {D : Type 0} (s : Search D) {ids : List Graphid} (graph : IsGraph s.ggctx ids) where
  abbrev IsVertex : Graphid → Type 0
  IsVertex v = (ve : VertexEntry D) × (s.ggctx.vertex_hashtable v ≡ some ve)

  Leads-vertices :
      (dir : RelDir) (v u : Graphid) (ee : EdgeEntry D)
      → IsVertex ee.start_id
      → IsVertex ee.end_id
      → Leads dir ee v u
      → IsVertex v × IsVertex u
  Leads-vertices RelDir.dir_right v u ee a b (p, q) = (subst IsVertex p a, subst IsVertex q b)
  Leads-vertices RelDir.dir_left v u ee a b (p, q) = (subst IsVertex p b, subst IsVertex q a)
  Leads-vertices RelDir.dir_none v u ee a b (inl (p, q)) = (subst IsVertex p a, subst IsVertex q b)
  Leads-vertices RelDir.dir_none v u ee a b (inr (p, q)) = (subst IsVertex p b, subst IsVertex q a)
  Leads-vertices RelDir.unknown v u ee a b h = absurd h

  Link-vertices : (v e u : Graphid) → Link s v e u → IsVertex v × IsVertex u
  Link-vertices v e u link =
      let (ve, found, _) = (graph.listed e link.entry link.there).at_start in
      let (ve', found', _) = (graph.listed e link.entry link.there).at_end in
      Leads-vertices s.edge_direction v u link.entry (ve, found) (ve', found') link.leads

  -- Both ends of a trail with an edge are vertices.
  Trail-vertices :
      {v : Graphid} {path : List Graphid}
      → Trail s v path
      → (length path == 0) ≡ false
      → IsVertex s.vsid × IsVertex v
  Trail-vertices Trail.start ne = cc
  Trail-vertices (Trail.step Trail.start link out) ne = Link-vertices _ _ _ link
  Trail-vertices (Trail.step (Trail.step t l o) link out) ne =
      ((Trail-vertices (Trail.step t l o) (ground arith)).0, (Link-vertices _ _ _ link).1)

  both_exist : IsVertex s.vsid → IsVertex s.veid → do_vsid_and_veid_exist s ≡ true
  unfolding do_vsid_and_veid_exist get_vertex_entry
  both_exist (ve, found) (ve', found') = rw (found, found', do_vsid_and_veid_exist) refl

  start_exists : do_vsid_and_veid_exist s ≡ true → IsVertex s.vsid
  unfolding do_vsid_and_veid_exist get_vertex_entry
  start_exists h = elim (Option-cases (s.ggctx.vertex_hashtable s.vsid)) [
    | inl missing ↦ cc (rw (missing, do_vsid_and_veid_exist) at h)
    | inr vertex ↦ vertex
  ]

  module _ (known : IsKnown s.edge_direction) (answers : Answers s) where
    abbrev all_branches : List (List Graphid)
    all_branches = branches s (unused ids []) [] s.vsid (next_edges s [] s.vsid)

    all_branches_iff : (path : List Graphid) → In path all_branches ↔ IsResult s path
    all_branches_iff path = (
      All-In (IsResult s) all_branches path (
          branches-IsResult s graph known (unused ids []) [] s.vsid (next_edges s [] s.vsid)
            Trail.start (next_edges-Onward s graph known [] s.vsid)),
      branches_complete s graph path,
    )

    -- In a well-formed graph, for a known direction, and when the comparison of the properties
    -- returns for every edge, the search begins with no error. Its calls
    -- return, each once enough rounds are given, and the last one says that there is no more. A
    -- path is among the returned ones exactly when it is a trail with at least one edge, from the
    -- start vertex to the end vertex, of the pattern's direction, label and properties, with no edge
    -- twice and a length within the bounds.
    pub paths_found_correct :
        (st : State) × (load_initial_dfs_queues s empty_state ≡ ok st)
        × (paths : List (List Graphid)) × Enough s st paths
        × ((path : List Graphid) → In path paths ↔ IsResult s path)
    unfolding load_initial_dfs_queues
    paths_found_correct = elim (Bool-cases (do_vsid_and_veid_exist s)) [
      | inl both ↦
          let (ve, found) = start_exists both in
          let next = next_edges s [] s.vsid in
          let (t, m, run) =
            add_edges-stacked s graph empty s.vsid [] [] [] ve found (λ e. refl) answers in
          let (t', m', runs) =
            Runs-branches s graph known answers (unused ids []) t [] s.vsid next [] [] m
              (next_edges-Ready s graph [] s.vsid) (omega arith) in
          (_, rw both run, all_branches, Enough-Runs s runs refl, all_branches_iff)
      | inr missing ↦ (
        empty_state,
        rw missing refl,
        [],
        Enough-Runs s Runs.stop refl,
        λ path. (
          λ i. absurd i,
          λ r. let (a, b) = Trail-vertices r.trail r.some_edge in cc (both_exist a b),
        ),
      )
    ]
