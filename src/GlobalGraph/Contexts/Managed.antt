-- ===== src/GlobalGraph/Contexts/Managed.antt =====
-- The list of contexts after `manage_graph_contexts`.
use post_graph.Prelude.{
  ◌≡◌, refl, ap, inl, inr, false, Option, none, some, List, [], ◌∷◌, ◌==◌, ==_iff, ==_refl,
  Bool-cases, All, ok, >>=-eq-ok, arith,
}
use mathlib.Core.Path.{subst}
use post_graph.GlobalGraph.{Oid, GraphContext, Catalog, Snapshot}
use post_graph.GlobalGraph.Loading.{load_hashtables, new_context}
use post_graph.GlobalGraph.Loading.Keys.{key, load_new_context-key, ok_injective}
use post_graph.GlobalGraph.Contexts.{
  is_ggctx_invalid, free_invalid_contexts, find_graph_context, cached_or_new, manage_graph_contexts,
}

module _ {D : Type 0} where
  abbrev pub IsValid : Snapshot → GraphContext D → Type 0
  IsValid snap g = is_ggctx_invalid snap g ≡ false

  -- No two contexts are of one graph.
  abbrev pub OnePerGraph : List (GraphContext D) → Type 0
  OnePerGraph [] = Unit
  OnePerGraph (g ∷ gs) = (find_graph_context gs g.graph_oid ≡ none) × OnePerGraph gs

  free_invalid_contexts-IsValid :
      (snap : Snapshot) (gs : List (GraphContext D))
      → All (IsValid snap) (free_invalid_contexts snap gs)
  unfolding free_invalid_contexts
  free_invalid_contexts-IsValid snap [] = tt
  free_invalid_contexts-IsValid snap (g ∷ gs) = elim (Bool-cases (is_ggctx_invalid snap g)) [
    | inl invalid ↦ rw invalid (free_invalid_contexts-IsValid snap gs)
    | inr valid ↦ rw valid (valid, free_invalid_contexts-IsValid snap gs)
  ]

  find-free_invalid_contexts :
      (snap : Snapshot) (gs : List (GraphContext D)) (oid : Oid)
      → find_graph_context gs oid ≡ none
      → find_graph_context (free_invalid_contexts snap gs) oid ≡ none
  unfolding free_invalid_contexts find_graph_context
  find-free_invalid_contexts snap [] oid h = h
  find-free_invalid_contexts snap (g ∷ gs) oid h = elim (Bool-cases (is_ggctx_invalid snap g)) [
    | inl invalid ↦ rw invalid (find-free_invalid_contexts snap gs oid (ground (arith, h)))
    | inr valid ↦ rw valid (ground (arith, h, find-free_invalid_contexts snap gs oid))
  ]

  free_invalid_contexts-OnePerGraph :
      (snap : Snapshot) (gs : List (GraphContext D))
      → OnePerGraph gs
      → OnePerGraph (free_invalid_contexts snap gs)
  unfolding free_invalid_contexts
  free_invalid_contexts-OnePerGraph snap [] h = tt
  free_invalid_contexts-OnePerGraph snap (g ∷ gs) (new, h) =
      elim (Bool-cases (is_ggctx_invalid snap g)) [
        | inl invalid ↦ rw invalid (free_invalid_contexts-OnePerGraph snap gs h)
        | inr valid ↦ rw valid (
          find-free_invalid_contexts snap gs g.graph_oid new,
          free_invalid_contexts-OnePerGraph snap gs h,
        )
      ]

  -- What is found is of the graph, and is one of the list.
  pub find_graph_context-All :
      (P : GraphContext D → Type 0) (gs : List (GraphContext D)) (oid : Oid) (g : GraphContext D)
      → All P gs
      → find_graph_context gs oid ≡ some g
      → (g.graph_oid ≡ oid) × P g
  unfolding find_graph_context
  find_graph_context-All P [] oid g h found = cc
  find_graph_context-All P (c ∷ cs) oid g (p, h) found = elim (Bool-cases (c.graph_oid == oid)) [
    | inl same ↦
        let found' : some c ≡ some g = rw same at found in
        let e : c ≡ g = cc in
        subst (λ g. (g.graph_oid ≡ oid) × P g) e ((==_iff c.graph_oid oid).0 same, p)
    | inr other ↦ find_graph_context-All P cs oid g h (rw other at found)
  ]

  IsValid-key :
      (snap : Snapshot) (oid : Oid) (g : GraphContext D)
      → key g ≡ (oid, snap.xmin, snap.xmax, snap.curcid)
      → (g.graph_oid ≡ oid) × IsValid snap g
  unfolding is_ggctx_invalid
  IsValid-key snap oid g h =
      let same_min : g.xmin ≡ snap.xmin = ap (λ k. k.1) h in
      let same_max : g.xmax ≡ snap.xmax = ap (λ k. k.2) h in
      let same_cid : g.curcid ≡ snap.curcid = ap (λ k. k.3) h in
      (
        ap (λ k. k.0) h,
        rw (same_min, same_max, same_cid, ==_refl snap.xmin, ==_refl snap.xmax, ==_refl snap.curcid)
            refl,
      )

  -- What is known of a result of `manage_graph_contexts`.
  pub record IsManaged (snap : Snapshot) (oid : Oid) (g : GraphContext D)
      (gs : List (GraphContext D)) : Type 0 where
    pub of_graph : g.graph_oid ≡ oid
    pub valid : All (IsValid snap) gs
    pub finds : find_graph_context gs oid ≡ some g
    pub one_per_graph : OnePerGraph gs

  cached_or_new-IsManaged :
      (catalog : Catalog D) (snap : Snapshot) (oid : Oid) (kept gs : List (GraphContext D))
      (g : GraphContext D) (there : Option (GraphContext D))
      → All (IsValid snap) kept
      → OnePerGraph kept
      → find_graph_context kept oid ≡ there
      → cached_or_new catalog snap oid kept there ≡ ok (g, gs)
      → IsManaged snap oid g gs
  unfolding cached_or_new find_graph_context
  cached_or_new-IsManaged catalog snap oid kept gs g (some c) valid once found run =
      let same : (c, kept) ≡ (g, gs) = ok_injective run in
      subst (λ r. IsManaged snap oid r.0 r.1) same
        (record {
          of_graph = (find_graph_context-All (IsValid snap) kept oid c valid found).0;
          valid = valid;
          finds = found;
          one_per_graph = once;
        })
  cached_or_new-IsManaged catalog snap oid kept gs g none valid once found run =
      let (c, loaded, e) = >>=-eq-ok (load_hashtables catalog (new_context oid snap)) _ run in
      let (of, ok_now) = IsValid-key snap oid c (load_new_context-key catalog oid snap c loaded) in
      subst (λ r. IsManaged snap oid r.0 r.1) (ok_injective e)
        (record {
          of_graph = of;
          valid = (ok_now, valid);
          finds = rw (of, ==_refl oid) refl;
          one_per_graph = (rw of found, once);
        })

  -- A result of `manage_graph_contexts` is the context of the graph; every context in the list is
  -- then valid for the snapshot, none is of the same graph as another, and `find_graph_context` finds
  -- the one that was returned, as long as no two contexts were of one graph before.
  pub manage_graph_contexts-IsManaged :
      (catalog : Catalog D) (snap : Snapshot) (oid : Oid) (contexts gs : List (GraphContext D))
      (g : GraphContext D)
      → OnePerGraph contexts
      → manage_graph_contexts catalog snap oid contexts ≡ ok (g, gs)
      → IsManaged snap oid g gs
  unfolding manage_graph_contexts
  manage_graph_contexts-IsManaged catalog snap oid contexts gs g once run =
      let kept = free_invalid_contexts snap contexts in
      cached_or_new-IsManaged catalog snap oid kept gs g (find_graph_context kept oid)
        (free_invalid_contexts-IsValid snap contexts)
        (free_invalid_contexts-OnePerGraph snap contexts once) refl run

  find_valid :
      (snap : Snapshot) (gs : List (GraphContext D)) (oid : Oid) (g : GraphContext D)
      → find_graph_context gs oid ≡ some g
      → IsValid snap g
      → find_graph_context (free_invalid_contexts snap gs) oid ≡ some g
  unfolding free_invalid_contexts find_graph_context
  find_valid snap [] oid g found valid = cc
  find_valid snap (c ∷ cs) oid g found valid = elim (Bool-cases (c.graph_oid == oid)) [
    | inl same ↦
        let found' : some c ≡ some g = rw same at found in
        let e : c ≡ g = cc in
        let fine : is_ggctx_invalid snap c ≡ false = rw e valid in rw (fine, same) (ap some e)
    | inr other ↦
        let later = find_valid snap cs oid g (rw other at found) valid in
        elim (Bool-cases (is_ggctx_invalid snap c)) [
          | inl invalid ↦ rw invalid later
          | inr fine ↦ rw (fine, other) later
        ]
  ]

  -- A context that is still valid is returned as it is: no table is read again, whatever is in the
  -- catalog.
  pub manage_graph_contexts-cached :
      (catalog : Catalog D) (snap : Snapshot) (oid : Oid) (contexts : List (GraphContext D))
      (g : GraphContext D)
      → find_graph_context contexts oid ≡ some g
      → IsValid snap g
      → manage_graph_contexts catalog snap oid contexts
        ≡ ok (g, free_invalid_contexts snap contexts)
  unfolding manage_graph_contexts cached_or_new
  manage_graph_contexts-cached catalog snap oid contexts g found valid =
      rw (find_valid snap contexts oid g found valid, cached_or_new) refl
