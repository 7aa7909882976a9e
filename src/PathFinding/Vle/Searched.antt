-- ===== src/PathFinding/Vle/Searched.antt =====
-- The search that is made of the arguments of gtype_vle finds the paths that they ask for.
use post_graph.Prelude.{
  ℕ, ◌≤◌, ◌≡◌, refl, sym, ◌∙◌, ◌↔◌, inl, inr, Bool, true, false, ◌&&◌, ◌||◌, not, is_some, leb,
  List, Option, none, some, Option-cases, Bool-cases, length, Outcome, ok, if◌then◌else◌, arith,
}
use post_graph.Prelude.Int.{ℤ, pos, negsuc, leb_ℤ}
use post_graph.GraphId.{Graphid}
use post_graph.GlobalGraph.{EdgeEntry, GraphContext}
use post_graph.PathFinding.{
  Search, check_label, check_properties, check_edge_constraints, within_bounds,
}
use post_graph.PathFinding.Spec.{Answers}
use post_graph.PathFinding.Trails.{Link, Trail, IsResult}
use post_graph.PathFinding.Vle.{VleArguments, Session, number_or, search_of}
use post_graph.PathFinding.Vle.Asked.{
  IsDirection, Compares, Fits, Hop, Walk, start, step, IsAsked, Along-Leads,
}

chosen :
    (b : Bool) (answer : Outcome Bool)
    → (if b then answer else ok false) ≡ ok true
    → (b ≡ true) × (answer ≡ ok true)
chosen true answer h = (refl, h)
chosen false answer h = cc

Bounded : (lower upper : Option ℤ) → ℕ → Type 0
Bounded lower upper n =
    ((l : ℤ) → lower ≡ some l → leb_ℤ l (pos n) ≡ true)
    × ((u : ℤ) → upper ≡ some u → leb_ℤ (pos n) u ≡ true)

abbrev in_bounds : (lower upper : Option ℤ) → ℕ → Bool
in_bounds lower upper n =
    leb_ℤ (number_or (pos 1) lower) (pos n)
    && (not (is_some upper) || leb_ℤ (pos n) (number_or (negsuc 0) upper))

some_eq : (a b : ℤ) → some a ≡ some b → a ≡ b
some_eq a b h = cc

in_bounds-Bounded :
    (lower upper : Option ℤ) (n : ℕ) → in_bounds lower upper n ≡ true → Bounded lower upper n
unfolding Bounded
in_bounds-Bounded none none n h = (λ l e. cc, λ u e. cc)
in_bounds-Bounded none (some b) n h = (λ l e. cc, λ u e. rw (← some_eq b u e) (ground (arith, h)))
in_bounds-Bounded (some a) none n h = (λ l e. rw (← some_eq a l e) (ground (arith, h)), λ u e. cc)
in_bounds-Bounded (some a) (some b) n h = (
  λ l e. rw (← some_eq a l e) (ground (arith, h)),
  λ u e. rw (← some_eq b u e) (ground (arith, h)),
)

Bounded-in_bounds :
    (lower upper : Option ℤ) (n : ℕ)
    → 1 ≤ n
    → Bounded lower upper n
    → in_bounds lower upper n ≡ true
unfolding Bounded
Bounded-in_bounds none none n some_edge (low, up) = ground arith
Bounded-in_bounds none (some b) n some_edge (low, up) = ground (arith, up b refl)
Bounded-in_bounds (some a) none n some_edge (low, up) = ground (arith, low a refl)
Bounded-in_bounds (some a) (some b) n some_edge (low, up) = ground (arith, low a refl, up b refl)

module _ {D : Type 0} (session : Session D) (args : VleArguments D) (g : GraphContext D)
    (vsid veid : Graphid) (direction : ℤ) where
  abbrev pub searched : Search D
  searched = search_of session args g vsid veid direction

  no_label :
      (ee : EdgeEntry D)
      → check_label searched ee ≡ false
      → check_edge_constraints searched ee ≡ ok false
  unfolding check_edge_constraints
  no_label ee h = rw (check_edge_constraints, h) refl

  with_label :
      (ee : EdgeEntry D)
      → check_edge_constraints searched ee ≡ ok true
      → (check_label searched ee ≡ true) × (check_properties searched ee ≡ ok true)
  unfolding check_edge_constraints
  with_label ee h = elim (Bool-cases (check_label searched ee)) [
    | inl labelled ↦ (labelled, sym (rw (check_edge_constraints, labelled) refl) ∙ h)
    | inr other ↦ cc (no_label ee other)
  ]

  pairs_fit :
      (ee : EdgeEntry D)
      → check_properties searched ee ≡ ok true
      → (wanted : D) → args.prototype ≡ some wanted
      → (leb
            (session.property_ops.root_count wanted)
            (session.property_ops.root_count ee.properties)
          ≡ true)
        × (session.property_ops.deep_contains ee.properties wanted ≡ ok true)
  unfolding check_properties search_of
  pairs_fit ee h wanted e = chosen _ _ (rw (check_properties, e) at h)

  constraints-Fits :
      (ee : EdgeEntry D) → check_edge_constraints searched ee ≡ ok true → Fits session args g ee
  unfolding check_label check_properties search_of
  constraints-Fits ee h =
      let (labelled, fitting) = with_label ee h in
      record {
        label = λ name e. sym (rw (check_label, e) refl) ∙ labelled;
        pairs = λ wanted e. (pairs_fit ee fitting wanted e).0;
        contained = λ wanted e. (pairs_fit ee fitting wanted e).1;
      }

  Fits-constraints :
      (ee : EdgeEntry D) → Fits session args g ee → check_edge_constraints searched ee ≡ ok true
  unfolding check_edge_constraints check_label check_properties search_of
  Fits-constraints ee fits =
      let labelled : check_label searched ee ≡ true = elim (Option-cases args.label) [
        | inl missing ↦ rw (check_label, missing) refl
        | inr (name, e) ↦ rw (check_label, e) (fits.label name e)
      ] in
      let fitting : check_properties searched ee ≡ ok true = elim (Option-cases args.prototype) [
        | inl missing ↦ rw (check_properties, missing) refl
        | inr (wanted, e) ↦
            rw (check_properties, e, fits.pairs wanted e, fits.contained wanted e) refl
      ] in
      rw (check_edge_constraints, labelled) fitting

  -- The number of edges is what the arguments ask for.
  bounds : (n : ℕ) → within_bounds searched n ≡ in_bounds args.lower args.upper n
  unfolding within_bounds search_of
  bounds n = refl

  pub searched-Answers : Compares session args g → Answers searched
  unfolding check_edge_constraints check_properties search_of
  searched-Answers compares e ee there = elim (Bool-cases (check_label searched ee)) [
    | inr other ↦ (false, no_label ee other)
    | inl labelled ↦ elim (Option-cases args.prototype) [
      | inl missing ↦ (true, rw (check_edge_constraints, labelled, check_properties, missing) refl)
      | inr (wanted, asked) ↦
          elim (Bool-cases (
            leb (session.property_ops.root_count wanted)
              (session.property_ops.root_count ee.properties))) [
                | inl enough ↦
                    let (b, answer) = compares wanted asked e ee there in
                    (
                      b,
                      rw (check_edge_constraints, labelled, check_properties, asked, enough) answer,
                    )
                | inr fewer ↦ (
                  false,
                  rw (check_edge_constraints, labelled, check_properties, asked, fewer) refl,
                )
              ]
    ]
  ]

  module _ (known : IsDirection direction) where
    Hop-Link : {v e u : Graphid} → Hop session args g direction v e u → Link searched v e u
    unfolding search_of
    Hop-Link {v} {e} {u} hop = record {
      entry = hop.entry;
      there = hop.there;
      passes = Fits-constraints hop.entry hop.fits;
      leads = (Along-Leads direction hop.entry v u known).0 hop.along;
    }

    Link-Hop : {v e u : Graphid} → Link searched v e u → Hop session args g direction v e u
    unfolding search_of
    Link-Hop {v} {e} {u} link = record {
      entry = link.entry;
      there = link.there;
      fits = constraints-Fits link.entry link.passes;
      along = (Along-Leads direction link.entry v u known).1 link.leads;
    }

    Walk-Trail :
        {u : Graphid} {path : List Graphid}
        → Walk session args g direction vsid u path
        → Trail searched u path
    unfolding search_of
    Walk-Trail start = Trail.start
    Walk-Trail (step walk hop out) = Trail.step (Walk-Trail walk) (Hop-Link hop) out

    Trail-Walk :
        {u : Graphid} {path : List Graphid}
        → Trail searched u path
        → Walk session args g direction vsid u path
    unfolding search_of
    Trail-Walk Trail.start = start
    Trail-Walk (Trail.step trail link out) = step (Trail-Walk trail) (Link-Hop link) out

    -- The results of the search are the paths that the arguments ask for.
    pub IsResult-IsAsked :
        (path : List Graphid)
        → IsResult searched path ↔ IsAsked session args g direction vsid veid path
    unfolding search_of Bounded
    IsResult-IsAsked path = (to, from)
      where
        to : IsResult searched path → IsAsked session args g direction vsid veid path
        to r =
            let both =
              in_bounds-Bounded args.lower args.upper (length path)
                (sym (bounds (length path)) ∙ r.bounds) in
            record {
              walk = Trail-Walk r.trail;
              some_edge = ground (arith, r.some_edge);
              lower = both.0;
              upper = both.1;
            }

        from : IsAsked session args g direction vsid veid path → IsResult searched path
        from a = record {
          trail = Walk-Trail a.walk;
          some_edge = ground (arith, a.some_edge);
          bounds =
              bounds (length path)
              ∙ Bounded-in_bounds args.lower args.upper (length path) a.some_edge
                  (a.lower, a.upper);
        }
