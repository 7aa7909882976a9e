-- ===== src/Queue.antt =====
-- src/backend/utils/adt/queue.c: linked lists of graphids, used as stacks (push and pop at the head)
-- and as lists (append at the tail), in a memory of nodes and containers.
-- A pointer is an address or `none` for NULL. `palloc0` is PostgreSQL's: the address that it returns
-- is an argument of the operation. A read of what is not there is a crash,
-- and so is a failed Assert; the reports behind an Assert of the same condition are not reached. `size` counts allocated
-- nodes, so it stays far below 2^63 and is never negative.
pub mod Chain
pub mod Stack
pub mod Appended
pub mod Freed
pub mod Tests
use post_graph.Prelude.{
  ℕ, zero, suc, ◌+◌, ◌-◌, Option, none, some, ◌==◌, if◌then◌else◌, Outcome, ok, crash, out_of_fuel,
  ◌>>=◌, or_crash,
}
use post_graph.GraphId.{Graphid}

abbrev pub Addr : Type 0
Addr = ℕ

abbrev pub Ptr : Type 0
Ptr = Option Addr

pub record QueueNode : Type 0 where
  pub id : Graphid
  pub next : Ptr

pub record Queue : Type 0 where
  pub head : Ptr
  pub tail : Ptr
  pub size : ℕ

pub record Memory : Type 0 where
  pub nodes : Addr → Option QueueNode
  pub queues : Addr → Option Queue

unfoldable pub write : {A : Type 0} → (Addr → Option A) → Addr → Option A → Addr → Option A
write t a x b = if b == a then x else t b

abbrev pub set_node : Memory → Addr → Option QueueNode → Memory
set_node m a x = record m { nodes = write m.nodes a x }

abbrev pub set_queue : Memory → Addr → Option Queue → Memory
set_queue m a x = record m { queues = write m.queues a x }

-- `*p`
abbrev pub deref : {A : Type 0} → (Addr → Option A) → Ptr → Outcome A
deref t none = Outcome.crash
deref t (some a) = or_crash (t a)

-- next_queue_node and get_graphid
pub next_queue_node : Memory → Ptr → Outcome Ptr
next_queue_node m queuenode = do node ← deref m.nodes queuenode; ok node.next

pub get_graphid : Memory → Ptr → Outcome Graphid
get_graphid m queuenode = do node ← deref m.nodes queuenode; ok node.id

pub queue_size : Memory → Ptr → Outcome ℕ
queue_size m queue = do q ← deref m.queues queue; ok q.size

pub peek_queue_head : Memory → Ptr → Outcome Ptr
peek_queue_head m none = ok none
peek_queue_head m (some queue) = do q ← or_crash (m.queues queue); ok q.head

pub peek_queue_tail : Memory → Ptr → Outcome Ptr
peek_queue_tail m queue = do q ← deref m.queues queue; ok q.tail

pub get_list_head : Memory → Ptr → Outcome Ptr
get_list_head m list = do q ← deref m.queues list; ok q.head

pub get_list_size : Memory → Ptr → Outcome ℕ
get_list_size m list = do q ← deref m.queues list; ok q.size

abbrev pub node : Graphid → Ptr → QueueNode
node id next = record { id = id; next = next }

abbrev pub queue : (head tail : Ptr) → ℕ → Queue
queue head tail size = record { head = head; tail = tail; size = size }

-- `new_node` and `new_queue` are what `palloc0` returns for the node and for the container.
pub append_graphid : (new_node new_queue : Addr) → Memory → Ptr → Graphid → Outcome (Addr × Memory)
append_graphid new_node new_queue m none id =
    let m' = set_node m new_node (some (node id none)) in
    ok (new_queue, set_queue m' new_queue (some (queue (some new_node) (some new_node) 1)))
append_graphid new_node new_queue m (some container) id = do
  let m' = set_node m new_node (some (node id none))
  q ← or_crash (m'.queues container)
  last ← deref m'.nodes q.tail
  let m'' = set_tail_next m' q.tail (record last { next = some new_node })
  ok (container, set_queue m'' container (some (queue q.head (some new_node) (q.size + 1))))
  where
    set_tail_next : Memory → Ptr → QueueNode → Memory
    set_tail_next m none n = m
    set_tail_next m (some a) n = set_node m a (some n)

pub new_graphid_queue : (new_queue : Addr) → Memory → Addr × Memory
new_graphid_queue new_queue m = (new_queue, set_queue m new_queue (some (queue none none 0)))

pub push_graphid_queue : (new_node : Addr) → Memory → Ptr → Graphid → Outcome Memory
push_graphid_queue new_node m none id = crash
push_graphid_queue new_node m (some a) id = do
  q ← or_crash (m.queues a)
  let m' = set_node m new_node (some (node id q.head))
  ok (set_queue m' a (some (queue (some new_node) q.tail (q.size + 1))))

-- The Assert on the size fails on an empty queue, before the report. The node is not freed, and the
-- tail stays as it is.
pub pop_graphid_queue : Memory → Ptr → Outcome (Graphid × Memory)
pop_graphid_queue m none = crash
pop_graphid_queue m (some a) = do
  q ← or_crash (m.queues a)
  if q.size == 0 then crash else do
    queuenode ← deref m.nodes q.head
    ok (queuenode.id, set_queue m a (some (queue queuenode.next q.tail (q.size - 1))))

-- The loop of both frees, with the rounds that are left.
pub free_nodes : ℕ → Memory → Ptr → Outcome Memory
free_nodes zero m p = out_of_fuel
free_nodes (suc fuel) m none = ok m
free_nodes (suc fuel) m (some a) = do
  curr ← or_crash (m.nodes a)
  free_nodes fuel (set_node m a none) curr.next

pub free_queue : ℕ → Memory → Ptr → Outcome Memory
free_queue fuel m none = ok m
free_queue fuel m (some a) = do
  q ← or_crash (m.queues a)
  m' ← free_nodes fuel m q.head
  ok (set_queue m' a none)

pub free_graphid_queue : ℕ → Memory → Ptr → Outcome Memory
free_graphid_queue fuel m none = crash
free_graphid_queue fuel m (some a) = do
  q ← or_crash (m.queues a)
  m' ← free_nodes fuel m q.head
  ok (set_queue m' a (some (queue none none 0)))
