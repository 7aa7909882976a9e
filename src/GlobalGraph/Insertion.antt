-- ===== src/GlobalGraph/Insertion.antt =====
-- What the insertion of one edge does to the two tables.
use post_graph.Prelude.{
  ◌≡◌, refl, ap, ◌∙◌, inl, inr, true, false, not, ◌&&◌, Option, none, some, [], ◌∷◌, ◌++◌, ◌==◌,
  if◌then◌else◌, Bool-cases, ok, arith,
}
use mathlib.Core.Path.{fun_ext}
use post_graph.GraphId.{Graphid}
use post_graph.GlobalGraph.HashTable.{Table, enter, enter-ne}
use post_graph.GlobalGraph.{
  EdgeList, append_graphid, items, VertexEntry, GraphContext, update_vertex, insert_vertex,
}

pub items-append_graphid :
    (l : EdgeList) (id : Graphid) → items (append_graphid l id) ≡ items l ++ id ∷ []
items-append_graphid none id = refl
items-append_graphid (some ids) id = refl

module _ {D : Type 0} where
  -- The entry of the vertex `v` after an edge from `start_id` to `end_id`.
  abbrev pub grown : (start_id end_id id v : Graphid) → VertexEntry D → VertexEntry D
  grown start_id end_id id v ve = record ve {
    edges_in =
        if not (start_id == end_id) && (end_id == v)
        then append_graphid ve.edges_in id
        else ve.edges_in;
    edges_out =
        if not (start_id == end_id) && (start_id == v)
        then append_graphid ve.edges_out id
        else ve.edges_out;
    loop = if (start_id == end_id) && (start_id == v) then append_graphid ve.loop id else ve.loop;
  }

  abbrev pub map_entry :
      (VertexEntry D → VertexEntry D) → Option (VertexEntry D) → Option (VertexEntry D)
  map_entry f none = none
  map_entry f (some ve) = some (f ve)

  -- The table with each entry grown.
  abbrev pub grow : (start_id end_id id : Graphid) → Table (VertexEntry D) → Table (VertexEntry D)
  grow start_id end_id id t v = map_entry (grown start_id end_id id v) (t v)

  update_vertex-some :
      (g : GraphContext D) (id : Graphid) (change : VertexEntry D → VertexEntry D)
      (ve : VertexEntry D)
      → g.vertex_hashtable id ≡ some ve
      → update_vertex g id change
        ≡ ok (record g { vertex_hashtable = enter g.vertex_hashtable id (change ve) })
  unfolding update_vertex
  update_vertex-some g id change ve h = rw h refl

  with_table :
      (g : GraphContext D) {t u : Table (VertexEntry D)}
      → ((w : Graphid) → t w ≡ u w)
      → ok (record g { vertex_hashtable = t }) ≡ ok (record g { vertex_hashtable = u })
  with_table g h = ap (λ t. ok (record g { vertex_hashtable = t })) (fun_ext h)

  enter_loop :
      (a b id : Graphid) (ve : VertexEntry D) (t : Table (VertexEntry D)) (w : Graphid)
      → t a ≡ some ve
      → (a == b) ≡ true
      → enter t a (record ve { loop = append_graphid ve.loop id }) w ≡ grow a b id t w
  unfolding enter
  enter_loop a b id ve t w h self = ground (arith)

  enter_ends :
      (a b id : Graphid) (ve we : VertexEntry D) (t : Table (VertexEntry D)) (w : Graphid)
      → t a ≡ some ve
      → t b ≡ some we
      → (a == b) ≡ false
      → enter
          (enter t a (record ve { edges_out = append_graphid ve.edges_out id }))
          b
          (record we { edges_in = append_graphid we.edges_in id })
          w
        ≡ grow a b id t w
  unfolding enter
  enter_ends a b id ve we t w ha hb apart = ground arith

  -- `insert_vertex` finds both ends, and changes the lists of these vertices alone: an edge goes to
  -- the outgoing edges of its start and to the incoming ones of its end, a self loop to the loops.
  pub insert_vertex-grow :
      (g : GraphContext D) (start_id end_id id : Graphid) (ve we : VertexEntry D)
      → g.vertex_hashtable start_id ≡ some ve
      → g.vertex_hashtable end_id ≡ some we
      → insert_vertex g start_id end_id id
        ≡ ok (record g { vertex_hashtable = grow start_id end_id id g.vertex_hashtable })
  unfolding insert_vertex
  insert_vertex-grow g start_id end_id id ve we hs he = elim (Bool-cases (start_id == end_id)) [
    | inl self ↦
        rw (self, update_vertex-some g start_id _ ve hs)
          (with_table g (λ w. enter_loop start_id end_id id ve g.vertex_hashtable w hs self))
    | inr apart ↦
        let out = record ve { edges_out = append_graphid ve.edges_out id } in
        let g' = record g { vertex_hashtable = enter g.vertex_hashtable start_id out } in
        let still : enter g.vertex_hashtable start_id out end_id ≡ some we =
          enter-ne g.vertex_hashtable start_id end_id out (ground arith) ∙ he in
        rw (apart, update_vertex-some g start_id _ ve hs, update_vertex-some g' end_id _ we still)
          (with_table g (λ w. enter_ends start_id end_id id ve we g.vertex_hashtable w hs he apart))
  ]
