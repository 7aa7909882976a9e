-- ===== src/PathFinding/Sound.antt =====
-- Every path that the branches hand out is a trail to the end vertex within the bounds.
use post_graph.Prelude.{
  ℕ, zero, suc, ◌≡◌, refl, ◌⊎◌, inl, inr, Bool, true, false, some, List, [], ◌∷◌, ◌++◌, ◌==◌,
  if◌then◌else◌, ==_iff, Option-cases, All, All-append, All-imp, arith,
}
use mathlib.Core.Path.{subst}
use post_graph.GraphId.{Graphid}
use post_graph.GlobalGraph.{VertexEntry, EdgeEntry, items}
use post_graph.PathFinding.{RelDir, Search, edges_out_of, edges_in_of}
use post_graph.PathFinding.Spec.{
  IsGraph, usable, far, far_end, hit, deeper, emit, incident_edges, next_edges, branches,
}
use post_graph.PathFinding.Edges.{stack_edges-All}
use post_graph.PathFinding.Rounds.{IsKnown}
use post_graph.PathFinding.Trails.{Leads, Link, Trail, IsResult}

module _ {D : Type 0} (s : Search D) {ids : List Graphid} (graph : IsGraph s.ggctx ids) where
  abbrev pub OnwardIn : RelDir → Graphid → Graphid → Type 0
  OnwardIn dir v e =
      (ee : EdgeEntry D) × (s.ggctx.edge_hashtable e ≡ some ee)
      × Leads dir ee v (far_end s dir v ee)

  leaves_either :
      (v : Graphid) (ee : EdgeEntry D)
      → (ee.start_id ≡ v) ⊎ (ee.end_id ≡ v)
      → Leads RelDir.dir_none ee v (far_end s RelDir.dir_none v ee)
  leaves_either v ee h = ground arith

  -- The cursors for a direction meet edges that go on in this direction.
  incident_edges-Onward :
      (dir : RelDir) (v : Graphid) (ve : VertexEntry D)
      → IsKnown dir
      → s.ggctx.vertex_hashtable v ≡ some ve
      → All (OnwardIn dir v) (edges_out_of dir ve ++ (edges_in_of dir ve ++ items ve.loop))
  incident_edges-Onward RelDir.dir_right v ve k there =
      All-append _ (items ve.edges_out) (items ve.loop)
        (All-imp (items ve.edges_out) (λ e (ee, h, _, p). (ee, h, (p.0, refl)))
          (graph.out_edges v ve there))
        (All-imp (items ve.loop) (λ e (ee, h, _, p). (ee, h, (p.0, refl)))
          (graph.self_edges v ve there))
  incident_edges-Onward RelDir.dir_left v ve k there =
      All-append _ (items ve.edges_in) (items ve.loop)
        (All-imp (items ve.edges_in) (λ e (ee, h, _, p). (ee, h, (p.0, refl)))
          (graph.in_edges v ve there))
        (All-imp (items ve.loop) (λ e (ee, h, _, p). (ee, h, (p.1, refl)))
          (graph.self_edges v ve there))
  incident_edges-Onward RelDir.dir_none v ve k there =
      All-append _ (items ve.edges_out) (items ve.edges_in ++ items ve.loop)
        (All-imp (items ve.edges_out) (λ e (ee, h, _, p). (ee, h, leaves_either v ee (inl p.0)))
          (graph.out_edges v ve there))
        (All-append _ (items ve.edges_in) (items ve.loop)
          (All-imp (items ve.edges_in) (λ e (ee, h, _, p). (ee, h, leaves_either v ee (inr p.0)))
            (graph.in_edges v ve there))
          (All-imp (items ve.loop) (λ e (ee, h, _, p). (ee, h, leaves_either v ee (inl p.0)))
            (graph.self_edges v ve there)))
  incident_edges-Onward RelDir.unknown v ve k there = absurd k

  module _ (known : IsKnown s.edge_direction) where
    abbrev pub Onward : List Graphid → Graphid → Graphid → Type 0
    Onward path v e = OnwardIn s.edge_direction v e × (usable s path e ≡ true)

    pub next_edges-Onward :
        (path : List Graphid) (v : Graphid) → All (Onward path v) (next_edges s path v)
    next_edges-Onward path v = elim (Option-cases (s.ggctx.vertex_hashtable v)) [
      | inl missing ↦ rw missing tt
      | inr (ve, there) ↦ rw there (
          stack_edges-All s _ path [] (incident_edges s ve)
            (incident_edges-Onward s.edge_direction v ve known there) tt)
    ]

    Link-Onward : (path : List Graphid) (v e : Graphid) → Onward path v e → Link s v e (far s v e)
    Link-Onward path v e ((ee, there, leads), use_it) = record {
      entry = ee;
      there = there;
      passes = ground (arith, use_it);
      leads = rw there leads;
    }

    IsResult-hit :
        {e u : Graphid} {path : List Graphid}
        → Trail s u (e ∷ path)
        → hit s (e ∷ path) u ≡ true
        → IsResult s (e ∷ path)
    IsResult-hit {e} {u} {path} trail h = record {
      trail = subst (λ w. Trail s w (e ∷ path)) (at_end (u == s.veid) refl) trail;
      some_edge = ground arith;
      bounds = ground arith;
    }
      where
        at_end : (b : Bool) → (u == s.veid) ≡ b → u ≡ s.veid
        at_end true p = (==_iff u s.veid).0 p
        at_end false p = absurd (ground arith)

    All-if :
        (b : Bool) (paths : List (List Graphid))
        → All (IsResult s) paths
        → All (IsResult s) (if b then paths else [])
    All-if true paths h = h
    All-if false paths h = tt

    All-emit :
        (b : Bool) (path : List Graphid) (rest : List (List Graphid))
        → (b ≡ true → IsResult s path)
        → All (IsResult s) rest
        → All (IsResult s) (emit s b path rest)
    All-emit true path rest p h = (p refl, h)
    All-emit false path rest p h = h

    pub branches-IsResult :
        (d : ℕ) (path : List Graphid) (v : Graphid) (es : List Graphid)
        → Trail s v path
        → All (Onward path v) es
        → All (IsResult s) (branches s d path v es)
    unfolding branches
    branches-IsResult zero path v es trail h = tt
    branches-IsResult (suc d) path v [] trail h = tt
    branches-IsResult (suc d) path v (e ∷ es) trail h =
        let longer = Trail.step trail (Link-Onward path v e h.0) (ground (arith, h.0.1)) in
        let deep =
          branches-IsResult d (e ∷ path) (far s v e) (next_edges s (e ∷ path) (far s v e)) longer
            (next_edges-Onward (e ∷ path) (far s v e)) in
        All-emit (hit s (e ∷ path) (far s v e)) (e ∷ path) _ (IsResult-hit longer) (
          All-append (IsResult s) _ _ (All-if (deeper s (e ∷ path)) _ deep)
            (branches-IsResult (suc d) path v es trail h.1))
