-- ===== src/PathFinding/Rounds.antt =====
-- One round of the loop of `dfs_find_a_path_between`, on the stacks of a search in progress: either
-- the edge on top is new, and goes on the path, or the search has come back to it.
use post_graph.Prelude.{
  ℕ, ◌≡◌, refl, sym, ap, ◌∙◌, ◌⊎◌, inl, inr, Bool, true, false, not, ◌&&◌, ◌||◌, some, List, [],
  ◌∷◌, ◌++◌, ◌==◌, if◌then◌else◌, ==_refl, ==_iff, Bool-cases, length, has, Outcome, ok, ◌>>=◌,
  arith,
}
use post_graph.Prelude.Int.{ℤ, pos, ltb_ℤ, leb_ℤ}
use post_graph.GraphId.{Graphid}
use post_graph.GlobalGraph.HashTable.{Table, enter}
use post_graph.GlobalGraph.{VertexEntry, EdgeEntry, GraphContext, get_edge_entry}
use post_graph.PathFinding.{
  RelDir, Search, State, Round, get_edge_state, get_next_vertex, push_vertex, pop_vertex, other_end,
  add_edges, back_up, advance, within_bounds, round,
}
use post_graph.PathFinding.Spec.{
  state, Marks, Answers, AtVertex, IsGraph, far, far_end, hit, deeper, next_edges, stamps,
}
use post_graph.PathFinding.Edges.{
  flag-enter, get_edge_state-flag, Marks-get_edge_state, Ready, add_edges-stacked,
}

abbrev pub IsKnown : RelDir → Type 0
IsKnown RelDir.unknown = ⊥
IsKnown _ = Unit

abbrev pub outcome : Bool → State → Round
outcome b st = if b then Round.found st else Round.again st

pub get_edge_entry-some :
    {D : Type 0} (g : GraphContext D) (e : Graphid) (ee : EdgeEntry D)
    → g.edge_hashtable e ≡ some ee
    → get_edge_entry g e ≡ ok ee
unfolding get_edge_entry
get_edge_entry-some g e ee there = rw (there, get_edge_entry) refl

-- The tests of a round, over what they compare.
decide_round :
    (at_end infinite : Bool) (lidx uidx : ℤ) (size : ℕ) (add : Outcome State) (marked added : State)
    → ((infinite || ltb_ℤ (pos size) uidx) ≡ true → add ≡ ok added)
    → (if at_end && not infinite && ltb_ℤ uidx (pos size)
        then ok (Round.again marked)
        else ((if infinite || ltb_ℤ (pos size) uidx then add else ok marked) >>= λ st'. ok (
            if at_end && (leb_ℤ lidx (pos size) && (infinite || leb_ℤ (pos size) uidx))
            then Round.found st'
            else Round.again st')))
      ≡ ok (
          outcome
            (at_end && (leb_ℤ lidx (pos size) && (infinite || leb_ℤ (pos size) uidx)))
            (if infinite || ltb_ℤ (pos size) uidx then added else marked))
decide_round at_end infinite lidx uidx size add marked added h = ground arith

Marks-cons :
    (t : Table Bool) (e : Graphid) (path : List Graphid)
    → Marks t path
    → Marks (enter t e true) (e ∷ path)
Marks-cons t e path m j = flag-enter t e true j ∙ ground (arith, m j)

Marks-uncons :
    (t : Table Bool) (e : Graphid) (path : List Graphid)
    → Marks t (e ∷ path)
    → has e path ≡ false
    → Marks (enter t e false) path
Marks-uncons t e path m out j = flag-enter t e false j ∙ elim (Bool-cases (j == e)) [
  | inl h ↦ rw h (sym (ap (λ k. has k path) ((==_iff j e).0 h) ∙ out))
  | inr h ↦ rw h (m j ∙ rw h refl)
]

module _ {D : Type 0} (s : Search D) where
  next_vertex-far_end :
      (dir : RelDir) (v : Graphid) (vrest : List Graphid) (ee : EdgeEntry D)
      → IsKnown dir
      → (ee.start_id ≡ v) ⊎ (ee.end_id ≡ v)
      → get_next_vertex s dir (push_vertex dir v vrest) ee ≡ ok (far_end s dir v ee)
  unfolding get_next_vertex other_end
  next_vertex-far_end RelDir.dir_right v vrest ee k h = refl
  next_vertex-far_end RelDir.dir_left v vrest ee k h = refl
  next_vertex-far_end RelDir.dir_none v vrest ee k h = ground arith
  next_vertex-far_end RelDir.unknown v vrest ee k h = absurd k

  far_end-vertex :
      (dir : RelDir) (v : Graphid) (ee : EdgeEntry D)
      → IsKnown dir
      → AtVertex s.ggctx v ee
      → (ve : VertexEntry D) × (s.ggctx.vertex_hashtable (far_end s dir v ee) ≡ some ve)
  far_end-vertex RelDir.dir_right v ee k at = at.end_vertex
  far_end-vertex RelDir.dir_left v ee k at = at.start_vertex
  far_end-vertex RelDir.dir_none v ee k at = elim (Bool-cases (ee.start_id == v)) [
    | inl h ↦ rw h at.end_vertex
    | inr h ↦ rw h at.start_vertex
  ]
  far_end-vertex RelDir.unknown v ee k at = absurd k

  pop_vertex-push_vertex :
      (dir : RelDir) (v : Graphid) (vrest : List Graphid)
      → pop_vertex dir (push_vertex dir v vrest) ≡ ok vrest
  pop_vertex-push_vertex RelDir.dir_right v vrest = refl
  pop_vertex-push_vertex RelDir.dir_left v vrest = refl
  pop_vertex-push_vertex RelDir.dir_none v vrest = refl
  pop_vertex-push_vertex RelDir.unknown v vrest = refl

  -- Coming back to the last edge of the path takes it off.
  pub round-back :
      (t : Table Bool) (v e : Graphid) (vrest erest path : List Graphid)
      → Marks t (e ∷ path)
      → has e path ≡ false
      → (t' : Table Bool) × Marks t' path
        × (round s (state t (push_vertex s.edge_direction v vrest) (e ∷ erest) (e ∷ path))
            ≡ ok (Round.again (state t' vrest erest path)))
  unfolding round back_up
  round-back t v e vrest erest path m out =
      let seen : (get_edge_state t e).0 ≡ true =
        (get_edge_state-flag t e).0 ∙ m e ∙ rw (==_refl e) refl in
      (
        enter (get_edge_state t e).1 e false,
        Marks-uncons (get_edge_state t e).1 e path (Marks-get_edge_state t (e ∷ path) e m) out,
        rw (seen, ==_refl e, pop_vertex-push_vertex s.edge_direction v vrest) refl,
      )

  module _ {ids : List Graphid} (graph : IsGraph s.ggctx ids) (known : IsKnown s.edge_direction)
      (answers : Answers s) where
    abbrev pub below : List Graphid → Graphid → List Graphid
    below path u = if deeper s path then next_edges s path u else []

    module _ (v e : Graphid) (vrest erest path : List Graphid)
        (ready : Ready s graph path v e) where
      abbrev ee : EdgeEntry D
      ee = ready.0.0

      abbrev u : Graphid
      u = far_end s s.edge_direction v ee

      abbrev stacked : Table Bool → List Graphid → State
      stacked t es =
          state t (stamps s.edge_direction u es (push_vertex s.edge_direction v vrest))
            (es ++ e ∷ erest) (e ∷ path)

      advance-decided :
          (t : Table Bool) (added : State)
          → (deeper s (e ∷ path) ≡ true → add_edges s u (stacked (enter t e true) []) ≡ ok added)
          → advance s e (state t (push_vertex s.edge_direction v vrest) (e ∷ erest) path)
            ≡ ok (
                outcome
                  (hit s (e ∷ path) u)
                  (if deeper s (e ∷ path) then added else stacked (enter t e true) []))
      unfolding advance within_bounds
      advance-decided t added h =
          rw
            (
              get_edge_entry-some s.ggctx e ee ready.0.1,
              next_vertex-far_end s.edge_direction v vrest ee known ready.0.3.incident,
            )
            (decide_round (u == s.veid) s.uidx_infinite s.lidx s.uidx (length (e ∷ path)) _ _ _ h)

      advance-outcome :
          (t : Table Bool)
          → Marks t path
          → (t' : Table Bool) × Marks t' (e ∷ path)
            × (advance s e (state t (push_vertex s.edge_direction v vrest) (e ∷ erest) path)
                ≡ ok (outcome (hit s (e ∷ path) u) (stacked t' (below (e ∷ path) u))))
      advance-outcome t m =
          let marked = Marks-cons t e path m in
          let (ve, there) = far_end-vertex s.edge_direction v ee known ready.0.3 in
          let (t', m', run) =
            add_edges-stacked s graph (enter t e true) u (push_vertex s.edge_direction v vrest)
              (e ∷ erest) (e ∷ path) ve there marked answers in
          elim (Bool-cases (deeper s (e ∷ path))) [
            | inl more ↦ (t', m', advance-decided t _ (λ _. run) ∙ rw more refl)
            | inr stop ↦ (enter t e true, marked, advance-decided t _ (λ _. run) ∙ rw stop refl)
          ]

    -- A new edge goes on the path, and the edges behind it on the stacks.
    pub round-advance :
        (t : Table Bool) (v e : Graphid) (vrest erest path : List Graphid)
        → Marks t path
        → Ready s graph path v e
        → (t' : Table Bool) × Marks t' (e ∷ path)
          × (round s (state t (push_vertex s.edge_direction v vrest) (e ∷ erest) path)
              ≡ ok (
                  outcome (hit s (e ∷ path) (far s v e)) (
                    state t'
                      (stamps s.edge_direction
                        (far s v e)
                        (below (e ∷ path) (far s v e))
                        (push_vertex s.edge_direction v vrest))
                      (below (e ∷ path) (far s v e) ++ e ∷ erest)
                      (e ∷ path))))
    unfolding round
    round-advance t v e vrest erest path m ready =
        let fresh : (get_edge_state t e).0 ≡ false =
          (get_edge_state-flag t e).0 ∙ m e ∙ ground (arith, ready.1) in
        let (t', m', run) =
          advance-outcome v e vrest erest path ready (get_edge_state t e).1
            (Marks-get_edge_state t path e m) in
        (t', m', rw (fresh, ready.0.1) run)
