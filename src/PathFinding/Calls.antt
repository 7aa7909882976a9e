-- ===== src/PathFinding/Calls.antt =====
-- The calls of the search: with enough rounds, each call ends with the next path or with none.
use post_graph.Prelude.{
  ℕ, zero, suc, ◌+◌, ◌≤◌, ◌≡◌, refl, ap, ◌∙◌, true, false, List, [], ◌∷◌, Outcome, ok, ◌>>=◌, arith,
}
use post_graph.GraphId.{Graphid}
use post_graph.PathFinding.{Search, State, Round, is_empty, round, dfs_find_a_path_between}
use post_graph.PathFinding.Runs.{Runs}

-- A bound on the fuel that is positive: the first round can be made.
with_round :
    (P : ℕ → Type 0) (n : ℕ)
    → ((fuel : ℕ) → n ≤ fuel → P (suc fuel))
    → (fuel : ℕ) → suc n ≤ fuel
    → P fuel
with_round P n step zero h = absurd (omega arith)
with_round P n step (suc fuel) h = step fuel (omega arith)

module _ {D : Type 0} (s : Search D) where
  -- The results of `dfs_find_a_path_between` until it is false: what each call leaves on the path
  -- queue.
  pub paths_found : ℕ → ℕ → State → Outcome (List (List Graphid))
  paths_found zero fuel st = Outcome.out_of_fuel
  paths_found (suc calls) fuel st = do
    (more, st') ← dfs_find_a_path_between s fuel st
    elim more [
      | false ↦ ok []
      | true ↦ paths_found calls fuel st' >>= λ paths. ok (st'.path_queue ∷ paths)
    ]

  not_empty : (st : State) {r : Round} → round s st ≡ ok r → is_empty st.edge_queue ≡ false
  unfolding round
  not_empty st h = ground arith

  module _ (fuel : ℕ) (st : State) where
    call-empty : st.edge_queue ≡ [] → dfs_find_a_path_between s (suc fuel) st ≡ ok (false, st)
    unfolding dfs_find_a_path_between
    call-empty h = rw (ap is_empty h, dfs_find_a_path_between) refl

    call-again :
        {st' : State}
        → round s st ≡ ok (Round.again st')
        → dfs_find_a_path_between s (suc fuel) st ≡ dfs_find_a_path_between s fuel st'
    unfolding dfs_find_a_path_between
    call-again e = rw (not_empty st e, e, dfs_find_a_path_between) refl

    call-found :
        {st' : State}
        → round s st ≡ ok (Round.found st')
        → dfs_find_a_path_between s (suc fuel) st ≡ ok (true, st')
    unfolding dfs_find_a_path_between
    call-found e = rw (not_empty st e, e, dfs_find_a_path_between) refl

  -- What one call does in a run.
  data Call (st : State) (paths : List (List Graphid)) (last : State) : Type 0 where
    done :
        (n : ℕ)
        → paths ≡ []
        → ((fuel : ℕ) → n ≤ fuel → dfs_find_a_path_between s fuel st ≡ ok (false, last))
        → Call st paths last
    path :
        (n : ℕ) (st' : State) (rest : List (List Graphid))
        → paths ≡ st'.path_queue ∷ rest
        → Runs s st' rest last
        → ((fuel : ℕ) → n ≤ fuel → dfs_find_a_path_between s fuel st ≡ ok (true, st'))
        → Call st paths last

  Call-again :
      {st st' last : State} {paths : List (List Graphid)}
      → round s st ≡ ok (Round.again st')
      → Call st' paths last
      → Call st paths last
  Call-again {st} e (done n p h) =
      done (suc n) p (with_round _ n (λ fuel le. call-again fuel st e ∙ h fuel le))
  Call-again {st} e (path n st'' rest p r h) =
      path (suc n) st'' rest p r (with_round _ n (λ fuel le. call-again fuel st e ∙ h fuel le))

  Call-Runs :
      {st last : State} {paths : List (List Graphid)}
      → Runs s st paths last
      → last.edge_queue ≡ []
      → Call st paths last
  Call-Runs (Runs.stop {st}) empty =
      done 1 refl (with_round _ 0 (λ fuel le. call-empty fuel st empty))
  Call-Runs (Runs.again e r) empty = Call-again e (Call-Runs r empty)
  Call-Runs (Runs.found {st} {st'} e p r) empty =
      path 1 st' _ (rw p refl) r (with_round _ 0 (λ fuel le. call-found fuel st e))

  -- Enough calls with enough rounds.
  abbrev pub Enough : State → List (List Graphid) → Type 0
  Enough st paths =
      (n : ℕ) × ((calls fuel : ℕ) → n ≤ calls → n ≤ fuel → paths_found calls fuel st ≡ ok paths)

  Enough-done :
      (st last : State) (n : ℕ)
      → ((fuel : ℕ) → n ≤ fuel → dfs_find_a_path_between s fuel st ≡ ok (false, last))
      → Enough st []
  unfolding paths_found
  Enough-done st last n h = (
    suc n,
    λ calls fuel le le'.
        with_round (λ c. paths_found c fuel st ≡ ok []) 0 (λ c _. rw (h fuel (omega arith)) refl)
          calls (omega arith),
  )

  Enough-path :
      (st st' : State) (n : ℕ) (rest : List (List Graphid))
      → ((fuel : ℕ) → n ≤ fuel → dfs_find_a_path_between s fuel st ≡ ok (true, st'))
      → Enough st' rest
      → Enough st (st'.path_queue ∷ rest)
  unfolding paths_found
  Enough-path st st' n rest h (m, later) = (
    suc (n + m),
    λ calls fuel le le'.
        with_round (λ c. paths_found c fuel st ≡ ok (st'.path_queue ∷ rest)) (n + m)
          (λ c le''. rw (h fuel (omega arith), later c fuel (omega arith) (omega arith)) refl) calls
          le,
  )

  Enough-Call :
      {st last : State} (paths : List (List Graphid))
      → last.edge_queue ≡ []
      → Call st paths last
      → Enough st paths
  Enough-Call {st} {last} [] empty (done n p h) = Enough-done st last n h
  Enough-Call [] empty (path n st' rest p r h) = cc
  Enough-Call (p ∷ ps) empty (done n e h) = cc
  Enough-Call {st} {last} (q ∷ qs) empty (path n st' rest p r h) =
      let tail_eq : qs ≡ rest = cc in
      let run : Runs s st' qs last = rw tail_eq r in
      let later : Enough st' qs =
        Enough-Call {st = st'} {last = last} qs empty (Call-Runs run empty) in
      rw p (Enough-path st st' n rest h (rw tail_eq at later))

  -- A run to the end is what the calls return, if there are enough calls and rounds.
  pub Enough-Runs :
      {st last : State} {paths : List (List Graphid)}
      → Runs s st paths last
      → last.edge_queue ≡ []
      → Enough st paths
  Enough-Runs {paths} r empty = Enough-Call paths empty (Call-Runs r empty)
