-- ===== src/GraphId/Order.antt =====
-- The comparisons of graphids, and the three-way comparison of the btree operator class.
use post_graph.Prelude.{ℕ, ◌+◌, ◌*◌, ◌^◌, ◌<◌, ◌≡◌, ◌↔◌, ◌⊎◌, true, false, arith}
use post_graph.Prelude.Int.{pos, negsuc}
use post_graph.GraphId.{
  Graphid, graphid_eq, graphid_ne, graphid_lt, graphid_gt, graphid_le, graphid_ge,
  graphid_btree_cmp, graphid_btree_fast_cmp,
}

-- The sign of the btree comparison agrees with all six operators, and the comparator that sorts
-- with it returns the same.
pub btree_cmp_agrees :
    (x y : Graphid)
    → x < 2 ^ 64
    → y < 2 ^ 64
    → (graphid_btree_fast_cmp x y ≡ graphid_btree_cmp x y)
      × ((graphid_eq x y ≡ true) ↔ (graphid_btree_cmp x y ≡ pos 0))
      × ((graphid_ne x y ≡ false) ↔ (graphid_btree_cmp x y ≡ pos 0))
      × ((graphid_lt x y ≡ true) ↔ (graphid_btree_cmp x y ≡ negsuc 0))
      × ((graphid_ge x y ≡ false) ↔ (graphid_btree_cmp x y ≡ negsuc 0))
      × ((graphid_gt x y ≡ true) ↔ (graphid_btree_cmp x y ≡ pos 1))
      × ((graphid_le x y ≡ false) ↔ (graphid_btree_cmp x y ≡ pos 1))
unfolding graphid_eq graphid_ne graphid_lt graphid_gt graphid_le graphid_ge graphid_btree_cmp
    graphid_btree_fast_cmp
btree_cmp_agrees x y hx hy = (
  ground arith,
  ground arith,
  ground arith,
  ground arith,
  ground arith,
  ground arith,
  ground arith,
)

-- On 64-bit ids the btree comparison's "less" is transitive, and swapping the arguments turns "less"
-- into "greater".
pub btree_cmp_order :
    (x y z : Graphid)
    → x < 2 ^ 64
    → y < 2 ^ 64
    → z < 2 ^ 64
    → graphid_btree_cmp x y ≡ negsuc 0
    → graphid_btree_cmp y z ≡ negsuc 0
    → (graphid_btree_cmp x z ≡ negsuc 0) × (graphid_btree_cmp y x ≡ pos 1)
unfolding graphid_btree_cmp
btree_cmp_order x y z hx hy hz p q = ground arith

-- For labels below 2^15 and entries below 2^48, graphids are ordered by the label, and those of one
-- label by the number of the entry.
pub btree_cmp_fields :
    (l l' e e' : ℕ)
    → l < 2 ^ 15
    → l' < 2 ^ 15
    → e < 2 ^ 48
    → e' < 2 ^ 48
    → (graphid_lt (l * 2 ^ 48 + e) (l' * 2 ^ 48 + e') ≡ true) ↔ ((l < l') ⊎ (l ≡ l') × (e < e'))
unfolding graphid_lt
btree_cmp_fields l l' e e' hl hl' he he' = ground arith
