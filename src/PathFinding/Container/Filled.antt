-- ===== src/PathFinding/Container/Filled.antt =====
-- What `build_path_container` writes.
use mathlib.Core.Path.{subst}
use mathlib.Core.List.{reverse_aux, append_assoc}
use post_graph.Prelude.{
  ℕ, zero, suc, ◌+◌, ◌-◌, ◌*◌, ◌≡◌, refl, sym, ap, ◌∙◌, Option, none, some, List, [], ◌∷◌, ◌++◌,
  ◌==◌, if◌then◌else◌, length, length-append, length-reverse_aux, set, get_elem?, replicate, All,
  ok, arith,
}
use post_graph.GraphId.{Graphid}
use post_graph.GlobalGraph.{EdgeEntry}
use post_graph.PathFinding.{RelDir, Search, State}
use post_graph.PathFinding.Rounds.{get_edge_entry-some}
use post_graph.PathFinding.Trails.{Leads, Link, Trail}
use post_graph.PathFinding.Container.{
  store_edges, stored_vertex, store_vertices, build_path_container,
}

-- Pairs of unwritten cells before `rest`.
blanks : Graphid → ℕ → List Graphid → List Graphid
blanks junk zero rest = rest
blanks junk (suc k) rest = blanks junk k (junk ∷ junk ∷ rest)

module _ (junk : Graphid) where
  set-blanks :
      (k i : ℕ) (rest : List Graphid) (v : Graphid)
      → set (blanks junk k rest) (k * 2 + i) v ≡ blanks junk k (set rest i v)
  unfolding blanks
  set-blanks zero i rest v = rw (let e : zero * 2 + i ≡ i = omega arith in e) refl
  set-blanks (suc k) i rest v =
      let e : suc k * 2 + i ≡ k * 2 + suc (suc i) = omega arith in
      rw e (set-blanks k (suc (suc i)) (junk ∷ junk ∷ rest) v)

  blanks-front :
      (k : ℕ) (rest : List Graphid)
      → junk ∷ junk ∷ blanks junk k rest ≡ blanks junk k (junk ∷ junk ∷ rest)
  unfolding blanks
  blanks-front zero rest = refl
  blanks-front (suc k) rest = blanks-front k (junk ∷ junk ∷ rest)

  replicate-blanks : (k : ℕ) → replicate (k * 2) junk ≡ blanks junk k []
  unfolding blanks
  replicate-blanks zero = refl
  replicate-blanks (suc k) =
      let e : suc k * 2 ≡ suc (suc (k * 2)) = omega arith in
      rw (e, replicate-blanks k) (blanks-front k [])

  -- Edges with an unwritten cell behind each.
  gaps : List Graphid → List Graphid
  gaps [] = []
  gaps (e ∷ es) = e ∷ junk ∷ gaps es

  store_edges-gaps :
      (v : Graphid) (path acc : List Graphid)
      → store_edges (v ∷ blanks junk (length path) (gaps acc)) (length path * 2 - 1) path
        ≡ v ∷ gaps (reverse_aux path acc)
  unfolding store_edges blanks gaps
  store_edges-gaps v [] acc = refl
  store_edges-gaps v (e ∷ path) acc =
      let at : suc (length path) * 2 - 1 ≡ suc (length path * 2 + 0) = omega arith in
      let next : suc (length path * 2 + 0) - 2 ≡ length path * 2 - 1 = omega arith in
      rw (at, next, set-blanks (length path) 0 (junk ∷ junk ∷ gaps acc) e)
        (store_edges-gaps v path (e ∷ acc))

set-append :
    (xs : List Graphid) (i : ℕ) (ys : List Graphid) (v : Graphid)
    → set (xs ++ ys) (length xs + i) v ≡ xs ++ set ys i v
set-append [] i ys v = rw (let e : zero + i ≡ i = omega arith in e) refl
set-append (x ∷ xs) i ys v =
    let e : suc (length xs) + i ≡ suc (length xs + i) = omega arith in
    rw e (ap (λ zs. x ∷ zs) (set-append xs i ys v))

get_elem?-append :
    (xs : List Graphid) (y : Graphid) (ys : List Graphid)
    → get_elem? (xs ++ y ∷ ys) (length xs) ≡ some y
get_elem?-append [] y ys = refl
get_elem?-append (x ∷ xs) y ys = get_elem?-append xs y ys

module _ {D : Type 0} (s : Search D) where
  abbrev HasEntry : Graphid → Type 0
  HasEntry e = (ee : EdgeEntry D) × (s.ggctx.edge_hashtable e ≡ some ee)

  -- What is stored behind an edge of the graph.
  abbrev stored_from : Option (EdgeEntry D) → Graphid
  stored_from none = 0
  stored_from (some ee) = stored_vertex s ee

  -- The edges, each with the vertex that is stored behind it.
  abbrev pub with_vertices : List Graphid → List Graphid
  with_vertices [] = []
  with_vertices (e ∷ es) = e ∷ stored_from (s.ggctx.edge_hashtable e) ∷ with_vertices es

  store_vertices-gaps :
      (junk : Graphid) (pre es : List Graphid)
      → All HasEntry es
      → store_vertices s (length es) (length pre) (pre ++ gaps junk es)
        ≡ ok (pre ++ with_vertices es)
  unfolding store_vertices gaps
  store_vertices-gaps junk pre [] h = refl
  store_vertices-gaps junk pre (e ∷ es) ((ee, there), h) =
      let v = stored_vertex s ee in
      let two : length pre + 2 ≡ length (pre ++ e ∷ v ∷ []) =
        omega (arith, length-append pre (e ∷ v ∷ [])) in
      rw
        (
          get_elem?-append pre e (junk ∷ gaps junk es),
          get_edge_entry-some s.ggctx e ee there,
          set-append pre 1 (e ∷ junk ∷ gaps junk es) v,
          two,
          there,
        )
        (ap (store_vertices s (length es) (length (pre ++ e ∷ v ∷ [])))
            (sym (append_assoc pre (e ∷ v ∷ []) (gaps junk es)))
          ∙ store_vertices-gaps junk (pre ++ e ∷ v ∷ []) es h
          ∙ ap ok (append_assoc pre (e ∷ v ∷ []) (with_vertices es)))

  -- `build_path_container` reads no cell that it has not written: whatever the cells held, the array
  -- has the start vertex, and then each edge of the path from the first to the last with the vertex
  -- that `stored_vertex` gives for it.
  pub build_path_container_lem :
      (junk : Graphid) (st : State)
      → All HasEntry (reverse_aux st.path_queue [])
      → build_path_container s junk st ≡ ok (s.vsid ∷ with_vertices (reverse_aux st.path_queue []))
  unfolding build_path_container gaps
  build_path_container_lem junk st h =
      let path = st.path_queue in
      let n = length path in
      let es = reverse_aux path [] in
      let one : n * 2 + 1 ≡ suc (n * 2) = omega arith in
      let index : suc (n * 2) - 2 ≡ n * 2 - 1 = omega arith in
      let count : n ≡ length es = omega (arith, length-reverse_aux path []) in
      rw (one, index, replicate-blanks junk n)
        (ap (store_vertices s n 1) (store_edges-gaps junk s.vsid path [])
          ∙ ap (λ k. store_vertices s k 1 (s.vsid ∷ gaps junk es)) count
          ∙ store_vertices-gaps junk (s.vsid ∷ []) es h)

  pub HasEntry-Trail :
      {v : Graphid} {path : List Graphid} (acc : List Graphid)
      → Trail s v path
      → All HasEntry acc
      → All HasEntry (reverse_aux path acc)
  HasEntry-Trail acc Trail.start h = h
  HasEntry-Trail acc (Trail.step {v} {e} {u} {path} trail link out) h =
      HasEntry-Trail (e ∷ acc) trail ((link.entry, link.there), h)

  with_vertices-reverse_aux :
      (path acc : List Graphid)
      → (front : List Graphid) × (with_vertices (reverse_aux path acc) ≡ front ++ with_vertices acc)
  with_vertices-reverse_aux [] acc = ([], refl)
  with_vertices-reverse_aux (e ∷ path) acc =
      let v = stored_from (s.ggctx.edge_hashtable e) in
      let (front, eq) = with_vertices-reverse_aux path (e ∷ acc) in
      (front ++ e ∷ v ∷ [], eq ∙ sym (append_assoc front (e ∷ v ∷ []) (with_vertices acc)))

  stored_from-Link :
      (v e u : Graphid)
      → s.edge_direction ≡ RelDir.dir_right
      → Link s v e u
      → stored_from (s.ggctx.edge_hashtable e) ≡ (if s.vsid == v then u else v)
  unfolding stored_vertex
  stored_from-Link v e u right link =
      let (p, q) = subst (λ dir. Leads dir link.entry v u) right link.leads in
      rw (link.there, p, q) refl

  -- Of a trail along the edges' direction the container ends with the trail's last vertex if the
  -- last edge leaves the start vertex; otherwise the vertex before the last edge stands there again.
  pub build_path_container_end :
      (junk : Graphid) (v e u : Graphid) (path : List Graphid) (st : State)
      → s.edge_direction ≡ RelDir.dir_right
      → Trail s v path
      → Link s v e u
      → st.path_queue ≡ e ∷ path
      → (front : List Graphid) × (build_path_container s junk st
          ≡ ok (front ++ e ∷ (if s.vsid == v then u else v) ∷ []))
  build_path_container_end junk v e u path st right trail link top =
      let (front, eq) = with_vertices-reverse_aux path (e ∷ []) in
      let entries = HasEntry-Trail (e ∷ []) trail ((link.entry, link.there), tt) in
      (
        s.vsid ∷ front,
        build_path_container_lem junk st (rw top entries)
            ∙ rw (top, eq, stored_from-Link v e u right link) refl,
      )
