-- ===== src/Queue/Appended.antt =====
-- Appends to a list.
use post_graph.Prelude.{
  suc, ◌+◌, ◌≡◌, refl, ◌∙◌, true, false, Option, none, some, List, [], ◌∷◌, ◌++◌, ◌==◌, ==_refl,
  length, length-append, has, Outcome, ok, arith,
}
use post_graph.GraphId.{Graphid}
use post_graph.Queue.{
  Addr, Ptr, QueueNode, Memory, write, set_node, set_queue, node, queue, append_graphid,
}
use post_graph.Queue.Chain.{Cells, addrs, Chain, last, IsList, write_self, write-ne}

-- The memory after the last node, `b`, is made to point to the new one.
abbrev linked :
    (Addr → Option QueueNode) → (b : Addr) → Graphid → Addr → Graphid → Addr → Option QueueNode
linked t b id new_node new_id =
    write (write t new_node (some (node new_id none))) b (some (node id (some new_node)))

has-addrs_append :
    (cs : Cells) (a b : Addr) (id : Graphid)
    → has a (addrs cs) ≡ false
    → (a == b) ≡ false
    → has a (addrs (cs ++ (b, id) ∷ [])) ≡ false
has-addrs_append [] a b id h k = ground (arith, k)
has-addrs_append ((c, cid) ∷ cs) a b id h k = ground (arith, has-addrs_append cs a b id)

apart :
    (a b new_node : Addr) (xs : List Addr) → has a xs ≡ false → has b xs ≡ true → (a == b) ≡ false
apart a b new_node [] h k = cc
apart a b new_node (x ∷ xs) h k = ground (arith, apart a b new_node xs)

module _ (t : Addr → Option QueueNode) (new_node : Addr) (new_id : Graphid) where
  -- The last node, and the chain after the link to the new one.
  Chain-linked :
      (p : Ptr) (a : Addr) (id : Graphid) (cs : Cells)
      → Chain t p ((a, id) ∷ cs)
      → has new_node (addrs ((a, id) ∷ cs)) ≡ false
      → (b : Addr) × (bid : Graphid) × (last (some a) cs ≡ some b)
        × (t b ≡ some (node bid none))
        × (has b (addrs ((a, id) ∷ cs)) ≡ true)
        × Chain (linked t b bid new_node new_id) p ((a, id) ∷ cs ++ (new_node, new_id) ∷ [])
  Chain-linked p a id [] (at, new, next, there, e) fresh =
      let written = write t new_node (some (node new_id none)) in
      (
        a,
        id,
        refl,
        rw e at there,
        ground (arith, ==_refl a),
        (
          at,
          ground (arith, fresh),
          some new_node,
          write_self written a _,
          (
            refl,
            refl,
            none,
            write-ne written a new_node _ (ground (arith, fresh)) ∙ write_self t new_node _,
            refl,
          ),
        ),
      )
  Chain-linked p a id ((c, cid) ∷ cs) (at, new, next, there, h) fresh =
      let (b, bid, end, found, among, chain) =
        Chain-linked next c cid cs h (ground (arith, fresh)) in
      let written = write t new_node (some (node new_id none)) in
      let other : (a == b) ≡ false = apart a b new_node (addrs ((c, cid) ∷ cs)) new among in
      let older : (a == new_node) ≡ false = ground (arith, fresh) in
      (
        b,
        bid,
        end,
        found,
        ground (arith, among),
        (
          at,
          has-addrs_append ((c, cid) ∷ cs) a new_node new_id new older,
          next,
          write-ne written b a _ other ∙ write-ne t new_node a _ older ∙ there,
          chain,
        ),
      )

last-append :
    (before : Ptr) (cs : Cells) (a : Addr) (id : Graphid)
    → last before (cs ++ (a, id) ∷ []) ≡ some a
last-append before [] a id = refl
last-append before ((b, bid) ∷ cs) a id = last-append (some b) cs a id

length-snoc : (cs : Cells) (a : Addr) (id : Graphid) → length (cs ++ (a, id) ∷ []) ≡ length cs + 1
length-snoc cs a id = length-append cs ((a, id) ∷ [])

-- An append to a list with nodes links a new node, which is not one of the list's, behind the last
-- one; the container stays, and no other container changes.
pub append_graphid-IsList :
    (m : Memory) (a new_node new_queue : Addr) (id : Graphid) (b : Addr) (bid : Graphid)
    (cs : Cells)
    → IsList m a ((b, bid) ∷ cs)
    → has new_node (addrs ((b, bid) ∷ cs)) ≡ false
    → (m' : Memory) × (append_graphid new_node new_queue m (some a) id ≡ ok (a, m'))
      × IsList m' a ((b, bid) ∷ cs ++ (new_node, id) ∷ [])
      × ((c : Addr) → (c == a) ≡ false → m'.queues c ≡ m.queues c)
unfolding append_graphid
append_graphid-IsList m a new_node new_queue id b bid cs list fresh =
    let (c, cid, end, found, among, chain) =
      Chain-linked m.nodes new_node id list.head b bid cs list.chain fresh in
    let more : suc (length (cs ++ (new_node, id) ∷ [])) ≡ suc (length cs) + 1 =
      omega (arith, length-snoc cs new_node id) in
    let q = queue list.head (some new_node) (suc (length cs) + 1) in
    let m1 : Memory = record m { nodes = linked m.nodes c cid new_node id } in
    let still : write m.nodes new_node (some (node id none)) c ≡ some (node cid none) =
      write-ne m.nodes new_node c _
        (ground (arith, apart new_node c new_node (addrs ((b, bid) ∷ cs)) fresh among))
      ∙ found in
    (
      set_queue m1 a (some q),
      rw (list.there, end, still) refl,
      record {
        head = list.head;
        there = rw (more, last-append (some b) cs new_node id) (write_self m.queues a (some q));
        chain = chain;
      },
      λ d other. write-ne m.queues a d _ other,
    )

-- An append to NULL makes a list of one node in a new container.
pub append_graphid-new :
    (m : Memory) (new_node new_queue : Addr) (id : Graphid)
    → (m' : Memory) × (append_graphid new_node new_queue m none id ≡ ok (new_queue, m'))
      × IsList m' new_queue ((new_node, id) ∷ [])
unfolding append_graphid
append_graphid-new m new_node new_queue id =
    let q = queue (some new_node) (some new_node) 1 in
    let m1 = set_node m new_node (some (node id none)) in
    (
      set_queue m1 new_queue (some q),
      refl,
      record {
        head = some new_node;
        there = write_self m.queues new_queue (some q);
        chain = (refl, refl, none, write_self m.nodes new_node _, refl);
      },
    )

-- An append to an empty queue that is not NULL, such as a new one, dereferences the NULL tail.
pub append_graphid-empty :
    (m : Memory) (a new_node new_queue : Addr) (id : Graphid)
    → IsList m a []
    → append_graphid new_node new_queue m (some a) id ≡ Outcome.crash
unfolding append_graphid
append_graphid-empty m a new_node new_queue id list = rw (list.there) refl
