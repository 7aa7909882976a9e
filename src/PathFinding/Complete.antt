-- ===== src/PathFinding/Complete.antt =====
-- Every trail to the end vertex within the bounds is handed out.
use mathlib.Core.Path.{subst}
use post_graph.Prelude.{
  ℕ, suc, ◌+◌, ◌-◌, ◌≤◌, ◌≡◌, refl, sym, ap, ◌∙◌, inl, inr, Bool, true, false, ◌||◌, some, List, [],
  ◌∷◌, ◌++◌, ◌==◌, if◌then◌else◌, ==_iff, ==_refl, Bool-cases, length, has, has-append, arith,
}
use post_graph.GraphId.{Graphid}
use post_graph.GlobalGraph.{VertexEntry, EdgeEntry, EdgeList, items}
use post_graph.PathFinding.{RelDir, Search, edges_out_of, edges_in_of, within_bounds}
use post_graph.PathFinding.Spec.{
  IsGraph, usable, far, far_end, hit, deeper, emit, incident_edges, next_edges, stack_edges,
  branches, unused,
}
use post_graph.PathFinding.Runs.{unused-lt}
use post_graph.PathFinding.Trails.{Leads, In, Link, Trail, IsResult}

In-append_left : (p : List Graphid) (ps qs : List (List Graphid)) → In p ps → In p (ps ++ qs)
In-append_left p (q ∷ ps) qs (inl h) = inl h
In-append_left p (q ∷ ps) qs (inr h) = inr (In-append_left p ps qs h)
In-append_left p [] qs h = absurd h

In-append_right : (p : List Graphid) (ps qs : List (List Graphid)) → In p qs → In p (ps ++ qs)
In-append_right p [] qs h = h
In-append_right p (q ∷ ps) qs h = inr (In-append_right p ps qs h)

-- The list of self loops comes last, behind those of the outgoing and the incoming edges.
first_or_last :
    (b : Bool) (outs self : EdgeList) (ins : List Graphid) (e : Graphid)
    → has e (items (if b then self else outs)) ≡ true
    → has e (items outs ++ (ins ++ items self)) ≡ true
first_or_last true outs self ins e h =
    rw (has-append e (items outs) (ins ++ items self), has-append e ins (items self))
      (ground (arith, h))
first_or_last false outs self ins e h =
    rw (has-append e (items outs) (ins ++ items self)) (ground (arith, h))

middle_or_last :
    (b : Bool) (ins self : EdgeList) (outs : List Graphid) (e : Graphid)
    → has e (items (if b then self else ins)) ≡ true
    → has e (outs ++ (items ins ++ items self)) ≡ true
middle_or_last true ins self outs e h =
    rw (has-append e outs (items ins ++ items self), has-append e (items ins) (items self))
      (ground (arith, h))
middle_or_last false ins self outs e h =
    rw (has-append e outs (items ins ++ items self), has-append e (items ins) (items self))
      (ground (arith, h))

module _ {D : Type 0} (s : Search D) where
  In-emit :
      (b : Bool) (p q : List Graphid) (rest : List (List Graphid))
      → In p rest
      → In p (emit s b q rest)
  In-emit true p q rest h = inr h
  In-emit false p q rest h = h

  stack_edges-keeps :
      (path acc es : List Graphid) (e : Graphid)
      → has e acc ≡ true
      → has e (stack_edges s path acc es) ≡ true
  stack_edges-keeps path acc [] e h = h
  stack_edges-keeps path acc (x ∷ es) e h =
      stack_edges-keeps path (if usable s path x then x ∷ acc else acc) es e
        (kept (usable s path x))
    where
      kept : (b : Bool) → has e (if b then x ∷ acc else acc) ≡ true
      kept true = ground (arith, h)
      kept false = h

  -- A usable edge of the vertex is stacked.
  stack_edges-has :
      (path acc es : List Graphid) (e : Graphid)
      → has e es ≡ true
      → usable s path e ≡ true
      → has e (stack_edges s path acc es) ≡ true
  stack_edges-has path acc [] e h use_it = cc
  stack_edges-has path acc (x ∷ es) e h use_it = elim (Bool-cases (e == x)) [
    | inl same ↦
        let same' : usable s path x ≡ true =
          ap (usable s path) (sym ((==_iff e x).0 same)) ∙ use_it in
        rw same' (stack_edges-keeps path (x ∷ acc) es e (rw same refl))
    | inr other ↦
        stack_edges-has path (if usable s path x then x ∷ acc else acc) es e (rw other at h) use_it
  ]

  -- The edges that are tried at the end of the path below `e`, and those that follow it.
  In-branches_deep :
      (d : ℕ) (path : List Graphid) (v e : Graphid) (es r : List Graphid)
      → has e es ≡ true
      → deeper s (e ∷ path) ≡ true
      → In r (branches s d (e ∷ path) (far s v e) (next_edges s (e ∷ path) (far s v e)))
      → In r (branches s (suc d) path v es)
  unfolding branches
  In-branches_deep d path v e [] r h more i = cc
  In-branches_deep d path v e (x ∷ es) r h more i = elim (Bool-cases (e == x)) [
    | inl same ↦
        let i' =
          subst
            (λ y. In r (branches s d (y ∷ path) (far s v y) (next_edges s (y ∷ path) (far s v y))))
            ((==_iff e x).0 same) i in
        In-emit (hit s (x ∷ path) (far s v x)) r (x ∷ path) _
          (In-append_left r _ (branches s (suc d) path v es) (rw more i'))
    | inr other ↦
        In-emit (hit s (x ∷ path) (far s v x)) r (x ∷ path) _
          (In-append_right r _ _ (In-branches_deep d path v e es r (rw other at h) more i))
  ]

  In-branches-hit :
      (d : ℕ) (path : List Graphid) (v e : Graphid) (es : List Graphid)
      → has e es ≡ true
      → hit s (e ∷ path) (far s v e) ≡ true
      → In (e ∷ path) (branches s (suc d) path v es)
  unfolding branches
  In-branches-hit d path v e [] h there = cc
  In-branches-hit d path v e (x ∷ es) h there = elim (Bool-cases (e == x)) [
    | inl same ↦
        let eq = (==_iff e x).0 same in
        let there' = subst (λ y. hit s (y ∷ path) (far s v y) ≡ true) eq there in
        rw there' (inl (ap (λ y. y ∷ path) eq))
    | inr other ↦
        In-emit (hit s (x ∷ path) (far s v x)) (e ∷ path) (x ∷ path) _
          (In-append_right (e ∷ path) _ _ (In-branches-hit d path v e es (rw other at h) there))
  ]

  far_end-Leads :
      (dir : RelDir) (v u : Graphid) (ee : EdgeEntry D) → Leads dir ee v u → far_end s dir v ee ≡ u
  far_end-Leads RelDir.dir_right v u ee h = h.1
  far_end-Leads RelDir.dir_left v u ee h = h.1
  far_end-Leads RelDir.dir_none v u ee h = ground arith
  far_end-Leads RelDir.unknown v u ee h = absurd h

  far-Link : (v e u : Graphid) → Link s v e u → far s v e ≡ u
  far-Link v e u link = rw link.there (far_end-Leads s.edge_direction v u link.entry link.leads)

  usable-Link :
      (path : List Graphid) (v e u : Graphid)
      → Link s v e u
      → has e path ≡ false
      → usable s path e ≡ true
  usable-Link path v e u link out = rw (out, link.there, link.passes) refl

  module _ {ids : List Graphid} (graph : IsGraph s.ggctx ids) where
    -- The cursors at `v` meet the edges that lead away from it.
    incident_edges-has :
        (dir : RelDir) (v e u : Graphid) (ee : EdgeEntry D)
        → s.ggctx.edge_hashtable e ≡ some ee
        → Leads dir ee v u
        → (ve : VertexEntry D) × (s.ggctx.vertex_hashtable v ≡ some ve)
          × (has e (edges_out_of dir ve ++ (edges_in_of dir ve ++ items ve.loop)) ≡ true)
    incident_edges-has RelDir.dir_right v e u ee there (p, q) =
        let (ve, found, mem) = (graph.listed e ee there).at_start in
        (
          ve,
          subst (λ w. s.ggctx.vertex_hashtable w ≡ some ve) p found,
          first_or_last (ee.start_id == ee.end_id) ve.edges_out ve.loop [] e mem,
        )
    incident_edges-has RelDir.dir_left v e u ee there (p, q) =
        let (ve, found, mem) = (graph.listed e ee there).at_end in
        (
          ve,
          subst (λ w. s.ggctx.vertex_hashtable w ≡ some ve) p found,
          middle_or_last (ee.start_id == ee.end_id) ve.edges_in ve.loop [] e mem,
        )
    incident_edges-has RelDir.dir_none v e u ee there (inl (p, q)) =
        let (ve, found, mem) = (graph.listed e ee there).at_start in
        (
          ve,
          subst (λ w. s.ggctx.vertex_hashtable w ≡ some ve) p found,
          first_or_last (ee.start_id == ee.end_id) ve.edges_out ve.loop (items ve.edges_in) e mem,
        )
    incident_edges-has RelDir.dir_none v e u ee there (inr (p, q)) =
        let (ve, found, mem) = (graph.listed e ee there).at_end in
        (
          ve,
          subst (λ w. s.ggctx.vertex_hashtable w ≡ some ve) p found,
          middle_or_last (ee.start_id == ee.end_id) ve.edges_in ve.loop (items ve.edges_out) e mem,
        )
    incident_edges-has RelDir.unknown v e u ee there leads = absurd leads

    next_edges-has :
        (path : List Graphid) (v e u : Graphid)
        → Link s v e u
        → has e path ≡ false
        → has e (next_edges s path v) ≡ true
    next_edges-has path v e u link out =
        let (ve, found, mem) =
          incident_edges-has s.edge_direction v e u link.entry link.there link.leads in
        rw found
          (stack_edges-has path [] (incident_edges s ve) e mem (usable-Link path v e u link out))

    among : (v e u : Graphid) → Link s v e u → has e ids ≡ true
    among v e u link = (graph.listed e link.entry link.there).among

    -- The edges of a trail are distinct edges of the graph.
    length-Trail :
        {v : Graphid} {path : List Graphid}
        → Trail s v path
        → length path + unused ids path ≤ unused ids []
    length-Trail Trail.start = omega arith
    length-Trail (Trail.step {v} {e} {u} {path} trail link out) =
        omega (arith, length-Trail trail, unused-lt ids path e (among v e u link) out)

    -- A path that may be shorter than the upper bound, or has no edge.
    abbrev extends : List Graphid → Bool
    extends path = (length path == 0) || deeper s path

    shorter_extends :
        (path : List Graphid) (e : Graphid) → deeper s (e ∷ path) ≡ true → extends path ≡ true
    shorter_extends path e h = ground arith

    root : List (List Graphid)
    root = branches s (unused ids []) [] s.vsid (next_edges s [] s.vsid)

    -- What is handed out behind a trail is handed out.
    In-Trail :
        {v : Graphid} {path : List Graphid} (r : List Graphid)
        → Trail s v path
        → extends path ≡ true
        → In r (branches s (unused ids [] - length path) path v (next_edges s path v))
        → In r root
    unfolding root
    In-Trail r Trail.start ext i =
        let same : unused ids [] - 0 ≡ unused ids [] = omega arith in rw same at i
    In-Trail r (Trail.step {v} {e} {u} {path} trail link out) ext i =
        let room : unused ids [] - length path ≡ suc (unused ids [] - suc (length path)) =
          omega (arith, length-Trail trail, unused-lt ids path e (among v e u link) out) in
        let more : deeper s (e ∷ path) ≡ true = ground (arith, ext) in
        let i' =
          subst
            (λ w. In r (
              branches s (unused ids [] - suc (length path)) (e ∷ path) w
                (next_edges s (e ∷ path) w)))
            (sym (far-Link v e u link)) i in
        In-Trail r trail (shorter_extends path e more) (
          rw room (
            In-branches_deep (unused ids [] - suc (length path)) path v e (next_edges s path v) r
              (next_edges-has path v e u link out) more i'))

    last_edge_extends :
        (path : List Graphid) (e : Graphid)
        → within_bounds s (length (e ∷ path)) ≡ true
        → extends path ≡ true
    unfolding within_bounds
    last_edge_extends path e h = ground arith

    In-result :
        {u : Graphid} {path : List Graphid}
        → Trail s u path
        → u ≡ s.veid
        → (length path == 0) ≡ false
        → within_bounds s (length path) ≡ true
        → In path root
    In-result Trail.start at_end ne bounds = cc
    In-result (Trail.step {v} {e} {u} {path} trail link out) at_end ne bounds =
        let room : unused ids [] - length path ≡ suc (unused ids [] - suc (length path)) =
          omega (arith, length-Trail trail, unused-lt ids path e (among v e u link) out) in
        let arrives : hit s (e ∷ path) (far s v e) ≡ true =
          rw (far-Link v e u link, at_end, ==_refl s.veid) bounds in
        In-Trail (e ∷ path) trail (last_edge_extends path e bounds) (
          rw room (
            In-branches-hit (unused ids [] - suc (length path)) path v e (next_edges s path v)
              (next_edges-has path v e u link out) arrives))

    pub branches_complete :
        (path : List Graphid)
        → IsResult s path
        → In path (branches s (unused ids []) [] s.vsid (next_edges s [] s.vsid))
    unfolding root
    branches_complete path r = In-result r.trail refl r.some_edge r.bounds
