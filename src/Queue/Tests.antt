-- ===== src/Queue/Tests.antt =====
-- A queue of two nodes at the addresses 20 and 10, in the container 5.
use post_graph.Prelude.{
  ◌≡◌, refl, false, none, some, [], ◌∷◌, ◌==◌, if◌then◌else◌, Outcome, ok, arith,
}
use post_graph.Queue.{
  Addr, Memory, node, queue, append_graphid, push_graphid_queue, free_graphid_queue,
}
use post_graph.Queue.Chain.{Cells, IsStack, IsList}
use post_graph.Queue.Stack.{push_graphid_queue-IsStack, pop_graphid_queue-IsStack, Popped}
use post_graph.Queue.Appended.{append_graphid-IsList, append_graphid-empty}
use post_graph.Queue.Freed.{Freed, free_graphid_queue-Freed}

abbrev two_nodes : Memory
two_nodes = record {
  nodes = λ a.
      if a == 20 then some (node 1 (some 10)) else if a == 10 then some (node 2 none) else none;
  queues = λ a.
      if a == 5
      then some (queue (some 20) (some 10) 2)
      else if a == 6
      then some (queue none none 0)
      else none;
}

abbrev cells : Cells
cells = (20, 1) ∷ (10, 2) ∷ []

two_nodes-IsList : IsList two_nodes 5 cells
two_nodes-IsList = record {
  head = some 20;
  there = refl;
  chain = (refl, refl, some 10, refl, (refl, refl, none, refl, refl));
}

two_nodes-IsStack : IsStack two_nodes 5 cells
two_nodes-IsStack = record {
  head = some 20;
  tail = some 10;
  there = refl;
  chain = (refl, refl, some 10, refl, (refl, refl, none, refl, refl));
}

push_graphid_queue-IsStack_example :
    (m' : Memory) × (push_graphid_queue 30 two_nodes (some 5) 7 ≡ ok m')
    × IsStack m' 5 ((30, 7) ∷ cells)
    × ((b : Addr) → (b == 5) ≡ false → m'.queues b ≡ two_nodes.queues b)
    × ((b : Addr) → (b == 30) ≡ false → m'.nodes b ≡ two_nodes.nodes b)
push_graphid_queue-IsStack_example =
    push_graphid_queue-IsStack two_nodes 5 30 7 cells two_nodes-IsStack refl

pop_graphid_queue-IsStack_example : Popped two_nodes 5 cells
pop_graphid_queue-IsStack_example = pop_graphid_queue-IsStack two_nodes 5 cells two_nodes-IsStack

append_graphid-IsList_example :
    (m' : Memory) × (append_graphid 30 40 two_nodes (some 5) 7 ≡ ok (5, m'))
    × IsList m' 5 ((20, 1) ∷ (10, 2) ∷ (30, 7) ∷ [])
    × ((c : Addr) → (c == 5) ≡ false → m'.queues c ≡ two_nodes.queues c)
append_graphid-IsList_example =
    append_graphid-IsList two_nodes 5 30 40 7 20 1 ((10, 2) ∷ []) two_nodes-IsList refl

append_graphid-empty_example : append_graphid 30 40 two_nodes (some 6) 7 ≡ Outcome.crash
append_graphid-empty_example =
    append_graphid-empty two_nodes 6 30 40 7 (record { head = none; there = refl; chain = refl })

free_graphid_queue-Freed_example :
    (m' : Memory) × (free_graphid_queue 3 two_nodes (some 5) ≡ ok m')
    × IsList m' 5 []
    × Freed two_nodes m' cells
free_graphid_queue-Freed_example =
    free_graphid_queue-Freed 3 two_nodes 5 cells two_nodes-IsStack (omega arith)
