-- ===== src/PathFinding/Edges.antt =====
-- `add_edges` puts the usable edges of a vertex on the edge stack, the last one on top, and keeps
-- the vertex stack beside it.
use post_graph.Prelude.{
  ◌≡◌, refl, sym, ap, ◌∙◌, inl, inr, Bool, true, false, none, some, List, [], ◌∷◌, ◌++◌, ◌==◌,
  if◌then◌else◌, ==_iff, Bool-cases, Option-cases, All, All-append, All-imp, Outcome, ok, ◌>>=◌,
  arith,
}
use post_graph.GraphId.{Graphid}
use post_graph.GlobalGraph.HashTable.{Table, enter}
use post_graph.GlobalGraph.{VertexEntry, EdgeEntry, get_vertex_entry, get_edge_entry, items}
use post_graph.PathFinding.{
  RelDir, Search, State, get_edge_state, edges_out_of, edges_in_of, add_edge, add_edges_loop,
  add_edges, check_edge_constraints,
}
use post_graph.PathFinding.Spec.{
  state, flag, Marks, Answers, Entry, AtVertex, IsGraph, incident_edges, usable, stack_edges,
  next_edges, stamps,
}

pub flag-enter :
    (t : Table Bool) (e : Graphid) (b : Bool) (j : Graphid)
    → flag (enter t e b) j ≡ (if j == e then b else flag t j)
unfolding enter
flag-enter t e b j = elim (Bool-cases (j == e)) [ inl h ↦ rw h refl | inr h ↦ rw h refl ]

flag-none : (t : Table Bool) (e : Graphid) → t e ≡ none → flag t e ≡ false
flag-none t e h = rw h refl

-- Looking up an edge's state makes an entry, and changes no flag.
pub get_edge_state-flag :
    (t : Table Bool) (e : Graphid)
    → ((get_edge_state t e).0 ≡ flag t e)
      × ((j : Graphid) → flag (get_edge_state t e).1 j ≡ flag t j)
unfolding get_edge_state
get_edge_state-flag t e = elim (Option-cases (t e)) [
  | inl none_yet ↦ (
    rw (none_yet, get_edge_state) refl,
    λ j. rw (none_yet, get_edge_state, flag-enter t e false j) (same j none_yet),
  )
  | inr (b, there) ↦ (rw (there, get_edge_state) refl, λ j. rw (there, get_edge_state) refl)
]
  where
    same : (j : Graphid) → t e ≡ none → (if j == e then false else flag t j) ≡ flag t j
    same j none_yet = elim (Bool-cases (j == e)) [
      | inl h ↦ rw h (sym (flag-none t j (ap t ((==_iff j e).0 h) ∙ none_yet)))
      | inr h ↦ rw h refl
    ]

pub Marks-get_edge_state :
    (t : Table Bool) (path : List Graphid) (e : Graphid)
    → Marks t path
    → Marks (get_edge_state t e).1 path
Marks-get_edge_state t path e m = λ j. (get_edge_state-flag t e).1 j ∙ m j

module _ {D : Type 0} (s : Search D) where
  -- The loop of `add_edges` over one list, that of all cursors.
  add_all : Graphid → List Graphid → State → Outcome State
  add_all v [] st = ok st
  add_all v (e ∷ es) st = add_edge s v e st >>= add_all v es

  add_edges_loop-eq-add_all :
      (v : Graphid) (out ins self : List Graphid) (st : State)
      → add_edges_loop s v out ins self st ≡ add_all v (out ++ (ins ++ self)) st
  unfolding add_edges_loop add_all
  add_edges_loop-eq-add_all v [] [] [] st = refl
  add_edges_loop-eq-add_all v [] [] (e ∷ self) st =
      ap (λ k. add_edge s v e st >>= k) (λ i st'. add_edges_loop-eq-add_all v [] [] self st' i)
  add_edges_loop-eq-add_all v [] (e ∷ ins) self st =
      ap (λ k. add_edge s v e st >>= k) (λ i st'. add_edges_loop-eq-add_all v [] ins self st' i)
  add_edges_loop-eq-add_all v (e ∷ out) ins self st =
      ap (λ k. add_edge s v e st >>= k) (λ i st'. add_edges_loop-eq-add_all v out ins self st' i)

  module _ (v : Graphid) (vrest erest path : List Graphid) where
    abbrev stacked : Table Bool → List Graphid → State
    stacked t acc = state t (stamps s.edge_direction v acc vrest) (acc ++ erest) path

    add_edge-stacked :
        (t : Table Bool) (acc : List Graphid) (e : Graphid) (ee : EdgeEntry D)
        → s.ggctx.edge_hashtable e ≡ some ee
        → Marks t path
        → (fits : Bool) × (check_edge_constraints s ee ≡ ok fits)
        → add_edge s v e (stacked t acc)
          ≡ ok (stacked (get_edge_state t e).1 (if usable s path e then e ∷ acc else acc))
    unfolding add_edge get_edge_entry
    add_edge-stacked t acc e ee there m (fits, answer) =
        ground (arith, there, (get_edge_state-flag t e).0, m e, answer)

    add_all-stacked :
        (t : Table Bool) (acc es : List Graphid)
        → All (λ e. (ee : EdgeEntry D) × (s.ggctx.edge_hashtable e ≡ some ee)) es
        → Answers s
        → Marks t path
        → (t' : Table Bool) × Marks t' path
          × (add_all v es (stacked t acc) ≡ ok (stacked t' (stack_edges s path acc es)))
    unfolding add_all
    add_all-stacked t acc [] h answers m = (t, m, refl)
    add_all-stacked t acc (e ∷ es) h answers m =
        let (t', m', run) =
          add_all-stacked (get_edge_state t e).1 (if usable s path e then e ∷ acc else acc) es h.1
            answers (Marks-get_edge_state t path e m) in
        (t', m', rw (add_edge-stacked t acc e h.0.0 h.0.1 m (answers e h.0.0 h.0.1)) run)

  -- What holds of every edge holds of those that are stacked, and these are usable.
  pub stack_edges-All :
      (P : Graphid → Type 0) (path acc es : List Graphid)
      → All P es
      → All (λ e. P e × (usable s path e ≡ true)) acc
      → All (λ e. P e × (usable s path e ≡ true)) (stack_edges s path acc es)
  stack_edges-All P path acc [] h r = r
  stack_edges-All P path acc (e ∷ es) h r = elim (Bool-cases (usable s path e)) [
    | inl use_it ↦ rw use_it (stack_edges-All P path (e ∷ acc) es h.1 ((h.0, use_it), r))
    | inr skip ↦ rw skip (stack_edges-All P path acc es h.1 r)
  ]

  module _ {ids : List Graphid} (graph : IsGraph s.ggctx ids) where
    -- The edges at a vertex, whatever the direction, are edges of the graph that touch it.
    pub incident_edges-Entry :
        (v : Graphid) (ve : VertexEntry D)
        → s.ggctx.vertex_hashtable v ≡ some ve
        → All (Entry s.ggctx ids (AtVertex s.ggctx v)) (incident_edges s ve)
    incident_edges-Entry v ve there = All-append _ _ _ (out s.edge_direction) (
        All-append _ _ _ (ins s.edge_direction) (
          All-imp (items ve.loop) (λ e (ee, h, i, p). (ee, h, i, p.2))
            (graph.self_edges v ve there)))
      where
        outs : All (Entry s.ggctx ids (AtVertex s.ggctx v)) (items ve.edges_out)
        outs =
            All-imp (items ve.edges_out) (λ e (ee, h, i, p). (ee, h, i, p.1))
              (graph.out_edges v ve there)

        inner : All (Entry s.ggctx ids (AtVertex s.ggctx v)) (items ve.edges_in)
        inner =
            All-imp (items ve.edges_in) (λ e (ee, h, i, p). (ee, h, i, p.1))
              (graph.in_edges v ve there)

        out : (dir : RelDir) → All (Entry s.ggctx ids (AtVertex s.ggctx v)) (edges_out_of dir ve)
        out RelDir.dir_left = tt
        out RelDir.dir_none = outs
        out RelDir.dir_right = outs
        out RelDir.unknown = outs

        ins : (dir : RelDir) → All (Entry s.ggctx ids (AtVertex s.ggctx v)) (edges_in_of dir ve)
        ins RelDir.dir_right = tt
        ins RelDir.dir_left = inner
        ins RelDir.dir_none = inner
        ins RelDir.unknown = inner

    -- What is known of an edge on the stack above the path that ends at `v`.
    abbrev pub Ready : List Graphid → Graphid → Graphid → Type 0
    Ready path v e = Entry s.ggctx ids (AtVertex s.ggctx v) e × (usable s path e ≡ true)

    pub next_edges-Ready :
        (path : List Graphid) (v : Graphid) → All (Ready path v) (next_edges s path v)
    next_edges-Ready path v = elim (Option-cases (s.ggctx.vertex_hashtable v)) [
      | inl missing ↦ rw missing tt
      | inr (ve, there) ↦
          rw there
            (stack_edges-All _ path [] (incident_edges s ve) (incident_edges-Entry v ve there) tt)
    ]

    add_edges-eq-add_all :
        (v : Graphid) (ve : VertexEntry D) (st : State)
        → s.ggctx.vertex_hashtable v ≡ some ve
        → add_edges s v st ≡ add_all v (incident_edges s ve) st
    unfolding add_edges get_vertex_entry
    add_edges-eq-add_all v ve st there =
        rw (there, add_edges)
          (ap
              (λ u.
                add_edges_loop s u (edges_out_of s.edge_direction ve)
                  (edges_in_of s.edge_direction ve) (items ve.loop) st)
              (graph.vertex_id v ve there)
            ∙ add_edges_loop-eq-add_all v _ _ _ st)

    -- In a well-formed graph, at a vertex, with the visited edges being those of the path and the
    -- comparison of the properties returning for every edge,
    -- `add_edges` ends without an error. It puts the usable edges of the vertex in front of the edge
    -- stack and, if there is no direction, one entry for each in front of the vertex stack; the path
    -- stays, and the visited edges are still those of the path.
    pub add_edges-stacked :
        (t : Table Bool) (v : Graphid) (vrest erest path : List Graphid) (ve : VertexEntry D)
        → s.ggctx.vertex_hashtable v ≡ some ve
        → Marks t path
        → Answers s
        → (t' : Table Bool) × Marks t' path
          × (add_edges s v (state t vrest erest path)
              ≡ ok (
                  state t'
                    (stamps s.edge_direction v (next_edges s path v) vrest)
                    (next_edges s path v ++ erest)
                    path))
    add_edges-stacked t v vrest erest path ve there m answers =
        let entries =
          All-imp {Q = λ e. (ee : EdgeEntry D) × (s.ggctx.edge_hashtable e ≡ some ee)}
            (incident_edges s ve) (λ e (ee, h, _, _). (ee, h)) (incident_edges-Entry v ve there) in
        let (t', m', run) =
          add_all-stacked v vrest erest path t [] (incident_edges s ve) entries answers m in
        (t', m', rw there (add_edges-eq-add_all v ve _ there ∙ run))
