-- ===== src/PathFinding/Runs.antt =====
-- Rounds in a row, with the paths that they hand out: the rounds that start with some edges on top
-- of the stacks hand out the branches along these edges, in order, and then the edges are gone and
-- all else is as it was.
use post_graph.Prelude.{
  ℕ, zero, suc, ◌≤◌, ◌<◌, ◌≡◌, refl, inl, inr, Bool, true, false, List, [], ◌∷◌, ◌++◌,
  if◌then◌else◌, ==_refl, Bool-cases, has, All, ok, arith,
}
use post_graph.GraphId.{Graphid}
use post_graph.GlobalGraph.HashTable.{Table}
use post_graph.PathFinding.{Search, State, Round, push_vertex, round}
use post_graph.PathFinding.Spec.{
  state, Marks, Answers, IsGraph, far, hit, deeper, next_edges, stamps, emit, branches, unused,
}
use post_graph.PathFinding.Edges.{Ready, next_edges-Ready}
use post_graph.PathFinding.Rounds.{IsKnown, outcome, round-back, round-advance, below}

-- Rounds that end without an error; `found` hands out the path of the state that it leaves.
pub data Runs {D : Type 0} (s : Search D) : State → List (List Graphid) → State → Type 0 where
  stop : {st : State} → Runs s st [] st
  again :
      {st st' last : State} {paths : List (List Graphid)}
      → round s st ≡ ok (Round.again st')
      → Runs s st' paths last
      → Runs s st paths last
  found :
      {st st' last : State} {path : List Graphid} {paths : List (List Graphid)}
      → round s st ≡ ok (Round.found st')
      → st'.path_queue ≡ path
      → Runs s st' paths last
      → Runs s st (path ∷ paths) last

unused-le : (ids path : List Graphid) (e : Graphid) → unused ids (e ∷ path) ≤ unused ids path
unfolding unused
unused-le [] path e = omega arith
unused-le (i ∷ ids) path e = ground (arith, unused-le ids path e)

-- A new edge on the path is one less to use.
pub unused-lt :
    (ids path : List Graphid) (e : Graphid)
    → has e ids ≡ true
    → has e path ≡ false
    → unused ids (e ∷ path) < unused ids path
unfolding unused
unused-lt [] path e there out = cc
unused-lt (i ∷ ids) path e there out =
    ground (arith, unused-lt ids path e, unused-le ids path e, ==_refl e)

module _ {D : Type 0} (s : Search D) where
  Runs-append :
      {a b c : State} {paths paths' : List (List Graphid)}
      → Runs s a paths b
      → Runs s b paths' c
      → Runs s a (paths ++ paths') c
  Runs-append Runs.stop r = r
  Runs-append (Runs.again e q) r = Runs.again e (Runs-append q r)
  Runs-append (Runs.found e p q) r = Runs.found e p (Runs-append q r)

  Runs-outcome :
      (b : Bool) {st st' last : State} {paths : List (List Graphid)}
      → round s st ≡ ok (outcome b st')
      → Runs s st' paths last
      → Runs s st (emit s b st'.path_queue paths) last
  Runs-outcome true e r = Runs.found e refl r
  Runs-outcome false e r = Runs.again e r

  module _ {ids : List Graphid} (graph : IsGraph s.ggctx ids) (known : IsKnown s.edge_direction)
      (answers : Answers s) where
    -- The rounds that try the edges `es` from the end `v` of the path.
    pub Runs-branches :
        (d : ℕ) (t : Table Bool) (path : List Graphid) (v : Graphid) (es vrest erest : List Graphid)
        → Marks t path
        → All (Ready s graph path v) es
        → unused ids path ≤ d
        → (t' : Table Bool) × Marks t' path
          × Runs s
              (state t (stamps s.edge_direction v es vrest) (es ++ erest) path)
              (branches s d path v es)
              (state t' vrest erest path)
    unfolding branches
    Runs-branches zero t path v [] vrest erest m ready le = (t, m, Runs.stop)
    Runs-branches zero t path v (e ∷ es) vrest erest m ready le =
        absurd (omega (arith, unused-lt ids path e ready.0.0.2 (ground (arith, ready.0.1))))
    Runs-branches (suc d) t path v [] vrest erest m ready le = (t, m, Runs.stop)
    Runs-branches (suc d) t path v (e ∷ es) vrest erest m ready le =
        let out : has e path ≡ false = ground (arith, ready.0.1) in
        let less = unused-lt ids path e ready.0.0.2 out in
        let u = far s v e in
        let (t1, m1, forth) =
          round-advance s graph known answers t v e (stamps s.edge_direction v es vrest)
            (es ++ erest) path m ready.0 in
        let vs = push_vertex s.edge_direction v (stamps s.edge_direction v es vrest) in
        let top = e ∷ (es ++ erest) in
        let inner : (t2 : Table Bool) × Marks t2 (e ∷ path)
            × Runs s
                (state t1 (stamps s.edge_direction u (below s graph known answers (e ∷ path) u) vs)
                  (below s graph known answers (e ∷ path) u ++ top) (e ∷ path))
                (if deeper s (e ∷ path)
                  then branches s d (e ∷ path) u (next_edges s (e ∷ path) u)
                  else [])
                (state t2 vs top (e ∷ path)) =
          elim (Bool-cases (deeper s (e ∷ path))) [
            | inl more ↦ rw more (
                Runs-branches d t1 (e ∷ path) u (next_edges s (e ∷ path) u) vs top m1
                  (next_edges-Ready s graph (e ∷ path) u) (omega arith))
            | inr stay ↦ rw stay (t1, m1, Runs.stop)
          ] in
        let (t2, m2, inner_runs) = inner in
        let (t3, m3, back) =
          round-back s t2 v e (stamps s.edge_direction v es vrest) (es ++ erest) path m2 out in
        let (t4, m4, rest) = Runs-branches (suc d) t3 path v es vrest erest m3 ready.1 le in
        (
          t4,
          m4,
          Runs-outcome (hit s (e ∷ path) u) forth (Runs-append inner_runs (Runs.again back rest)),
        )
