-- ===== src/Queue/Freed.antt =====
-- The frees walk through all nodes of a queue.
use post_graph.Prelude.{
  ℕ, zero, suc, ◌<◌, ◌≡◌, refl, sym, ◌∙◌, inl, inr, true, false, Option, none, some, [], ◌∷◌, ◌==◌,
  ==_iff, Bool-cases, length, has, ok, arith,
}
use mathlib.Core.Path.{subst}
use post_graph.Queue.{
  Addr, Ptr, QueueNode, Memory, write, set_node, set_queue, queue, free_nodes, free_queue,
  free_graphid_queue,
}
use post_graph.Queue.Chain.{Cells, addrs, Chain, IsStack, IsList, write_self, write-ne, Chain-write}

-- The nodes after the cells are given back, one after the other.
cleared : (Addr → Option QueueNode) → Cells → Addr → Option QueueNode
cleared t [] = t
cleared t ((a, id) ∷ cs) = cleared (write t a none) cs

free_nodes-cleared :
    (fuel : ℕ) (m : Memory) (p : Ptr) (cs : Cells)
    → Chain m.nodes p cs
    → length cs < fuel
    → free_nodes fuel m p ≡ ok (record m { nodes = cleared m.nodes cs })
unfolding free_nodes cleared
free_nodes-cleared zero m p cs h enough = absurd (omega arith)
free_nodes-cleared (suc fuel) m p [] h enough = rw h refl
free_nodes-cleared (suc fuel) m p ((a, id) ∷ cs) (at, new, next, there, h) enough =
    rw (at, there)
      (free_nodes-cleared fuel (set_node m a none) next cs
        (Chain-write m.nodes a none next cs new h) (omega arith))

cleared-out :
    (t : Addr → Option QueueNode) (cs : Cells) (b : Addr)
    → has b (addrs cs) ≡ false
    → cleared t cs b ≡ t b
unfolding cleared
cleared-out t [] b out = refl
cleared-out t ((a, id) ∷ cs) b out =
    cleared-out (write t a none) cs b (ground (arith, out))
    ∙ write-ne t a b none (ground (arith, out))

write-none : (t : Addr → Option QueueNode) (a b : Addr) → t b ≡ none → write t a none b ≡ none
unfolding write
write-none t a b h = ground (arith, h)

cleared-none :
    (t : Addr → Option QueueNode) (cs : Cells) (b : Addr) → t b ≡ none → cleared t cs b ≡ none
unfolding cleared
cleared-none t [] b h = h
cleared-none t ((a, id) ∷ cs) b h = cleared-none (write t a none) cs b (write-none t a b h)

cleared-in :
    (t : Addr → Option QueueNode) (cs : Cells) (b : Addr)
    → has b (addrs cs) ≡ true
    → cleared t cs b ≡ none
unfolding cleared
cleared-in t [] b i = cc
cleared-in t ((a, id) ∷ cs) b i = elim (Bool-cases (b == a)) [
  | inl same ↦
      cleared-none (write t a none) cs b
        (subst (λ c. write t a none c ≡ none) (sym ((==_iff b a).0 same)) (write_self t a none))
  | inr other ↦ cleared-in (write t a none) cs b (ground (arith, i, other))
]

-- All nodes of the queue are given back, and no others.
abbrev pub Freed : (m m' : Memory) → Cells → Type 0
Freed m m' cs =
    ((b : Addr) → has b (addrs cs) ≡ true → m'.nodes b ≡ none)
    × ((b : Addr) → has b (addrs cs) ≡ false → m'.nodes b ≡ m.nodes b)

-- With a round for each node and one more, the contents of a queue are freed, each node once and no
-- other node, and the queue is empty.
pub free_graphid_queue-Freed :
    (fuel : ℕ) (m : Memory) (a : Addr) (cs : Cells)
    → IsStack m a cs
    → length cs < fuel
    → (m' : Memory) × (free_graphid_queue fuel m (some a) ≡ ok m') × IsList m' a [] × Freed m m' cs
unfolding free_graphid_queue
free_graphid_queue-Freed fuel m a cs stack enough =
    let m1 : Memory = record m { nodes = cleared m.nodes cs } in
    (
      set_queue m1 a (some (queue none none 0)),
      rw (stack.there, free_nodes-cleared fuel m stack.head cs stack.chain enough) refl,
      record { head = none; there = write_self m.queues a _; chain = refl },
      (λ b i. cleared-in m.nodes cs b i, λ b out. cleared-out m.nodes cs b out),
    )

-- With a round for each node and one more, a queue is freed: each node once, no other node, and the
-- container.
pub free_queue-Freed :
    (fuel : ℕ) (m : Memory) (a : Addr) (cs : Cells)
    → IsStack m a cs
    → length cs < fuel
    → (m' : Memory) × (free_queue fuel m (some a) ≡ ok m') × (m'.queues a ≡ none) × Freed m m' cs
unfolding free_queue
free_queue-Freed fuel m a cs stack enough =
    let m1 : Memory = record m { nodes = cleared m.nodes cs } in
    (
      set_queue m1 a none,
      rw (stack.there, free_nodes-cleared fuel m stack.head cs stack.chain enough) refl,
      write_self m.queues a none,
      (λ b i. cleared-in m.nodes cs b i, λ b out. cleared-out m.nodes cs b out),
    )
