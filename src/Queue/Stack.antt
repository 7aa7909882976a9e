-- ===== src/Queue/Stack.antt =====
-- Push and pop on a stack.
use post_graph.Prelude.{
  suc, ◌+◌, ◌-◌, ◌≡◌, refl, sym, false, some, [], ◌∷◌, ◌==◌, length, has, ok, crash, ◌>>=◌, arith,
}
use post_graph.GraphId.{Graphid}
use post_graph.Queue.{
  Addr, Memory, set_node, set_queue, node, queue, push_graphid_queue, pop_graphid_queue,
  peek_queue_head, get_graphid, queue_size,
}
use post_graph.Queue.Chain.{Cells, addrs, IsStack, write_self, write-ne, Chain-write}

-- A push writes one new node, which is not one of the queue's, and puts it in front of the nodes
-- that were there; no other node and no other container changes.
pub push_graphid_queue-IsStack :
    (m : Memory) (a new_node : Addr) (id : Graphid) (cs : Cells)
    → IsStack m a cs
    → has new_node (addrs cs) ≡ false
    → (m' : Memory) × (push_graphid_queue new_node m (some a) id ≡ ok m')
      × IsStack m' a ((new_node, id) ∷ cs)
      × ((b : Addr) → (b == a) ≡ false → m'.queues b ≡ m.queues b)
      × ((b : Addr) → (b == new_node) ≡ false → m'.nodes b ≡ m.nodes b)
unfolding push_graphid_queue
push_graphid_queue-IsStack m a new_node id cs stack fresh =
    let m1 = set_node m new_node (some (node id stack.head)) in
    let m' = set_queue m1 a (some (queue (some new_node) stack.tail (length cs + 1))) in
    let more : length cs + 1 ≡ suc (length cs) = omega arith in
    (
      m',
      rw (stack.there) refl,
      record {
        head = some new_node;
        tail = stack.tail;
        there = rw (sym more) (write_self m.queues a _);
        chain = (
          refl,
          fresh,
          stack.head,
          write_self m.nodes new_node _,
          Chain-write m.nodes new_node _ stack.head cs fresh stack.chain,
        );
      },
      λ b other. write-ne m.queues a b _ other,
      λ b other. write-ne m.nodes new_node b _ other,
    )

abbrev pub Popped : Memory → Addr → Cells → Type 0
Popped m a [] = pop_graphid_queue m (some a) ≡ crash
Popped m a ((b, id) ∷ cs) =
    (m' : Memory) × (pop_graphid_queue m (some a) ≡ ok (id, m'))
    × IsStack m' a cs
    × ((c : Addr) → (c == a) ≡ false → m'.queues c ≡ m.queues c)
    × (m'.nodes ≡ m.nodes)

-- A pop returns the id that the head holds, and the queue is left with the other nodes, no other
-- container and no node being changed; of a queue without nodes it fails, by the Assert on the size.
pub pop_graphid_queue-IsStack :
    (m : Memory) (a : Addr) (cs : Cells) → IsStack m a cs → Popped m a cs
unfolding pop_graphid_queue
pop_graphid_queue-IsStack m a [] stack = rw (stack.there) refl
pop_graphid_queue-IsStack m a ((b, id) ∷ cs) stack =
    let (at, new, next, there, rest) = stack.chain in
    let some_left : (suc (length cs) == 0) ≡ false = ground arith in
    let less : suc (length cs) - 1 ≡ length cs = omega arith in
    let m' = set_queue m a (some (queue next stack.tail (length cs))) in
    (
      m',
      rw (stack.there, some_left, at, there, less) refl,
      record { head = next; tail = stack.tail; there = write_self m.queues a _; chain = rest },
      λ c other. write-ne m.queues a c _ other,
      refl,
    )

-- Of a stack with nodes, `queue_size` is their number, which is not 0, and `PEEK_GRAPHID_STACK` reads
-- the id of the first.
pub peek-IsStack :
    (m : Memory) (a : Addr) (b : Addr) (id : Graphid) (cs : Cells)
    → IsStack m a ((b, id) ∷ cs)
    → (queue_size m (some a) ≡ ok (suc (length cs)))
      × (peek_queue_head m (some a) >>= get_graphid m ≡ ok id)
unfolding queue_size peek_queue_head get_graphid
peek-IsStack m a b id cs stack =
    let (at, new, next, there, rest) = stack.chain in
    (rw (stack.there) refl, rw (stack.there, at, there) refl)
