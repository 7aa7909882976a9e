-- ===== src/Queue/Chain.antt =====
-- The nodes of a queue in memory, as the list of their addresses and ids.
use post_graph.Prelude.{
  ◌≡◌, refl, ◌∙◌, false, Option, none, some, List, [], ◌∷◌, ◌==◌, ==_refl, length, has, arith,
}
use post_graph.GraphId.{Graphid}
use post_graph.Queue.{Addr, Ptr, QueueNode, Memory, write, node}

abbrev pub Cells : Type 0
Cells = List (Addr × Graphid)

abbrev pub addrs : Cells → List Addr
addrs [] = []
addrs ((a, id) ∷ cs) = a ∷ addrs cs

-- The ids from the head to the tail.
abbrev pub ids : Cells → List Graphid
ids [] = []
ids ((a, id) ∷ cs) = id ∷ ids cs

-- From `p` the `next` pointers lead through the cells to NULL. No node stands twice.
abbrev pub Chain : (Addr → Option QueueNode) → Ptr → Cells → Type 0
Chain t p [] = p ≡ none
Chain t p ((a, id) ∷ cs) =
    (p ≡ some a)
    × (has a (addrs cs) ≡ false)
    × (next : Ptr) × (t a ≡ some (node id next))
    × Chain t next cs

-- The last cell's address; `before` if there is none.
abbrev pub last : Ptr → Cells → Ptr
last before [] = before
last before ((a, id) ∷ cs) = last (some a) cs

-- A stack: nothing is said of the tail.
pub record IsStack (m : Memory) (a : Addr) (cs : Cells) : Type 0 where
  pub head : Ptr
  pub tail : Ptr
  pub there : m.queues a ≡ some (record { head = head; tail = tail; size = length cs })
  pub chain : Chain m.nodes head cs

-- A list: the tail is its last node.
pub record IsList (m : Memory) (a : Addr) (cs : Cells) : Type 0 where
  pub head : Ptr
  pub there : m.queues a ≡ some (record { head = head; tail = last none cs; size = length cs })
  pub chain : Chain m.nodes head cs

pub write_self : {A : Type 0} (t : Addr → Option A) (a : Addr) (x : Option A) → write t a x a ≡ x
unfolding write
write_self t a x = rw (==_refl a) refl

pub write-ne :
    {A : Type 0} (t : Addr → Option A) (a b : Addr) (x : Option A)
    → (b == a) ≡ false
    → write t a x b ≡ t b
unfolding write
write-ne t a b x h = rw h refl

-- A write elsewhere leaves a chain.
pub Chain-write :
    (t : Addr → Option QueueNode) (a : Addr) (x : Option QueueNode) (p : Ptr) (cs : Cells)
    → has a (addrs cs) ≡ false
    → Chain t p cs
    → Chain (write t a x) p cs
Chain-write t a x p [] out h = h
Chain-write t a x p ((b, id) ∷ cs) out (at, new, next, there, h) = (
  at,
  new,
  next,
  write-ne t a b x (ground (arith, out)) ∙ there,
  Chain-write t a x next cs (ground (arith, out)) h,
)
