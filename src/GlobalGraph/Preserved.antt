-- ===== src/GlobalGraph/Preserved.antt =====
-- A new edge keeps the invariant of a loaded graph.
use post_graph.Prelude.{
  ℕ, ◌≡◌, ◌≢◌, refl, sym, ap, ◌∙◌, ◌⊎◌, inl, inr, Bool, true, false, not, ◌&&◌, Option, none, some,
  List, [], ◌∷◌, ◌==◌, if◌then◌else◌, ==_iff, ==_refl, Bool-cases, has, has-append, All, All-append,
  All-imp, arith,
}
use mathlib.Core.Path.{subst}
use post_graph.GraphId.{Graphid}
use post_graph.GlobalGraph.HashTable.{enter, enter_self, enter-ne}
use post_graph.GlobalGraph.{EdgeList, append_graphid, items, VertexEntry, EdgeEntry, GraphContext}
use post_graph.GlobalGraph.WellFormed.{AtVertex, Entry, Listed, IsGraph}
use post_graph.GlobalGraph.Insertion.{items-append_graphid, grown, map_entry, grow}

-- The list after an append that a test guards.
abbrev appended : Bool → EdgeList → Graphid → EdgeList
appended c l id = if c then append_graphid l id else l

All-appended :
    (P : Graphid → Type 0) (c : Bool) (l : EdgeList) (id : Graphid)
    → All P (items l)
    → (c ≡ true → P id)
    → All P (items (appended c l id))
All-appended P false l id h p = h
All-appended P true l id h p =
    rw (items-append_graphid l id) (All-append P (items l) (id ∷ []) h (p refl, tt))

has-appended :
    (c : Bool) (l : EdgeList) (id e : Graphid)
    → has e (items l) ≡ true
    → has e (items (appended c l id)) ≡ true
has-appended false l id e h = h
has-appended true l id e h =
    rw (items-append_graphid l id, has-append e (items l) (id ∷ [])) (ground (arith, h))

has-appended_self : (l : EdgeList) (id : Graphid) → has id (items (append_graphid l id)) ≡ true
has-appended_self l id =
    rw (items-append_graphid l id, has-append id (items l) (id ∷ []), ==_refl id) (ground arith)

module _ {D : Type 0} (g : GraphContext D) (ids : List Graphid) (graph : IsGraph g ids)
    (ee : EdgeEntry D) (id : Graphid) (new : has id ids ≡ false) (cnt : ℕ) where
  abbrev a : Graphid
  a = ee.start_id

  abbrev b : Graphid
  b = ee.end_id

  abbrev pub with_edge : GraphContext D
  with_edge = record g {
    edge_hashtable = enter g.edge_hashtable id ee;
    edge_cnt = cnt;
    vertex_hashtable = grow a b id g.vertex_hashtable;
  }

  abbrev HasVertex : GraphContext D → Graphid → Type 0
  HasVertex g v = (ve : VertexEntry D) × (g.vertex_hashtable v ≡ some ve)

  pub HasVertex-with_edge : (v : Graphid) → HasVertex g v → HasVertex with_edge v
  HasVertex-with_edge v (ve, h) = (grown a b id v ve, rw h refl)

  -- Each entry was there before, and has grown.
  grown_from :
      (v : Graphid) (ve' : VertexEntry D) (o : Option (VertexEntry D))
      → map_entry (grown a b id v) o ≡ some ve'
      → (ve : VertexEntry D) × (o ≡ some ve) × (grown a b id v ve ≡ ve')
  grown_from v ve' none h = cc
  grown_from v ve' (some ve) h = (ve, refl, cc)

  ne_new : (e : Graphid) → has e ids ≡ true → e ≢ id
  ne_new e h eq = cc (subst (λ k. has k ids ≡ true) eq h)

  AtVertex-with_edge :
      (v : Graphid) (ee' : EdgeEntry D) → AtVertex g v ee' → AtVertex with_edge v ee'
  AtVertex-with_edge v ee' at = record {
    incident = at.incident;
    start_vertex = HasVertex-with_edge ee'.start_id at.start_vertex;
    end_vertex = HasVertex-with_edge ee'.end_id at.end_vertex;
  }

  Entry-with_edge :
      {P Q : EdgeEntry D → Type 0} (e : Graphid)
      → ((ee' : EdgeEntry D) → P ee' → Q ee')
      → Entry g ids P e
      → Entry with_edge (id ∷ ids) Q e
  Entry-with_edge e f (ee', there, among, p) = (
    ee',
    enter-ne g.edge_hashtable id e ee (ne_new e among) ∙ there,
    ground (arith, among),
    f ee' p,
  )

  Entry-new : {Q : EdgeEntry D → Type 0} → Q ee → Entry with_edge (id ∷ ids) Q id
  Entry-new q = (ee, enter_self g.edge_hashtable id ee, rw (==_refl id) refl, q)

  module _ (ha : HasVertex g a) (hb : HasVertex g b) where
    AtVertex-new : (v : Graphid) → (a ≡ v) ⊎ (b ≡ v) → AtVertex with_edge v ee
    AtVertex-new v h = record {
      incident = h;
      start_vertex = HasVertex-with_edge a ha;
      end_vertex = HasVertex-with_edge b hb;
    }

    Listed-new : Listed with_edge (id ∷ ids) id ee
    Listed-new = record {
      among = rw (==_refl id) refl;
      at_start = (grown a b id a ha.0, rw ha.1 refl, start_has (a == b) ha.0.loop ha.0.edges_out);
      at_end = (grown a b id b hb.0, rw hb.1 refl, end_has (a == b) refl hb.0.loop hb.0.edges_in);
    }
      where
        start_has :
            (c : Bool) (l m : EdgeList)
            → has id (
                items
                  (if c then appended (c && (a == a)) l id else appended (not c && (a == a)) m id))
              ≡ true
        start_has true l m = rw (==_refl a) (has-appended_self l id)
        start_has false l m = rw (==_refl a) (has-appended_self m id)

        end_has :
            (c : Bool)
            → (a == b) ≡ c
            → (l m : EdgeList)
            → has id (
                items
                  (if c then appended (c && (a == b)) l id else appended (not c && (b == b)) m id))
              ≡ true
        end_has true e l m = rw e (has-appended_self l id)
        end_has false e l m = rw (==_refl b) (has-appended_self m id)

    Listed-old :
        (e : Graphid) (ee' : EdgeEntry D) → Listed g ids e ee' → Listed with_edge (id ∷ ids) e ee'
    Listed-old e ee' old = record {
      among = ground (arith, old.among);
      at_start =
          let (ve, there, mem) = old.at_start in
          (
            grown a b id ee'.start_id ve,
            rw there refl,
            either (ee'.start_id == ee'.end_id) _ _ ve.loop ve.edges_out mem,
          );
      at_end =
          let (ve, there, mem) = old.at_end in
          (
            grown a b id ee'.end_id ve,
            rw there refl,
            either (ee'.start_id == ee'.end_id) _ _ ve.loop ve.edges_in mem,
          );
    }
      where
        either :
            (c s t : Bool) (l m : EdgeList)
            → has e (items (if c then l else m)) ≡ true
            → has e (items (if c then appended s l id else appended t m id)) ≡ true
        either true s t l m h = has-appended s l id e h
        either false s t l m h = has-appended t m id e h

    Listed-with_edge :
        (e : Graphid) (ee' : EdgeEntry D)
        → enter g.edge_hashtable id ee e ≡ some ee'
        → Listed with_edge (id ∷ ids) e ee'
    Listed-with_edge e ee' h = elim (Bool-cases (e == id)) [
      | inl same ↦
          let here = (==_iff e id).0 same in
          let found : some ee ≡ some ee' =
            sym (enter_self g.edge_hashtable id ee)
            ∙ ap (enter g.edge_hashtable id ee) (sym here)
            ∙ h in
          let entry : ee ≡ ee' = cc in
          rw here (subst (Listed with_edge (id ∷ ids) id) entry Listed-new)
      | inr other ↦
          Listed-old e ee' (
            graph.listed e ee'
              (sym (enter-ne g.edge_hashtable id e ee (ground (arith, other))) ∙ h))
    ]

    -- The invariant after the insertion of an edge with a new id between two vertices.
    pub IsGraph-with_edge : IsGraph with_edge (id ∷ ids)
    IsGraph-with_edge = record {
      vertex_id = λ v ve' h.
          let (ve, there, eq) = grown_from v ve' (g.vertex_hashtable v) h in
          ap (λ x. x.id) (sym eq) ∙ graph.vertex_id v ve there;
      out_edges = λ v ve' h.
          let (ve, there, eq) = grown_from v ve' (g.vertex_hashtable v) h in
          let P = λ (ee : EdgeEntry D). (ee.start_id ≡ v) × AtVertex with_edge v ee in
          subst (λ x. All (Entry with_edge (id ∷ ids) P) (items x.edges_out)) eq
            (All-appended _ (not (a == b) && (a == v)) ve.edges_out id
              (All-imp (items ve.edges_out)
                (λ e. Entry-with_edge e (λ ee' p. (p.0, AtVertex-with_edge v ee' p.1)))
                (graph.out_edges v ve there))
              (λ c. Entry-new (ground (arith, c), AtVertex-new v (inl (ground (arith, c))))));
      in_edges = λ v ve' h.
          let (ve, there, eq) = grown_from v ve' (g.vertex_hashtable v) h in
          let P = λ (ee : EdgeEntry D). (ee.end_id ≡ v) × AtVertex with_edge v ee in
          subst (λ x. All (Entry with_edge (id ∷ ids) P) (items x.edges_in)) eq
            (All-appended _ (not (a == b) && (b == v)) ve.edges_in id
              (All-imp (items ve.edges_in)
                (λ e. Entry-with_edge e (λ ee' p. (p.0, AtVertex-with_edge v ee' p.1)))
                (graph.in_edges v ve there))
              (λ c. Entry-new (ground (arith, c), AtVertex-new v (inr (ground (arith, c))))));
      self_edges = λ v ve' h.
          let (ve, there, eq) = grown_from v ve' (g.vertex_hashtable v) h in
          let P =
            λ (ee : EdgeEntry D). (ee.start_id ≡ v) × (ee.end_id ≡ v) × AtVertex with_edge v ee in
          subst (λ x. All (Entry with_edge (id ∷ ids) P) (items x.loop)) eq
            (All-appended _ ((a == b) && (a == v)) ve.loop id
              (All-imp (items ve.loop)
                (λ e. Entry-with_edge e (λ ee' p. (p.0, p.1, AtVertex-with_edge v ee' p.2)))
                (graph.self_edges v ve there))
              (λ c.
                Entry-new (
                  ground (arith, c),
                  ground (arith, c),
                  AtVertex-new v (inl (ground (arith, c))),
                )));
      listed = Listed-with_edge;
    }
