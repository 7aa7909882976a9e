-- ===== src/GraphId/Tests.antt =====
-- Graphids of concrete labels and entries.
use post_graph.Prelude.{◌^◌, ◌<◌, ◌≡◌, refl, ◌↔◌, ◌⊎◌, true, false, arith, ok, error, Report}
use post_graph.Prelude.Int.{pos, negsuc}
use post_graph.GraphId.{
  Graphid, make_graphid, get_graphid_label_id, get_graphid_entry_id, graphid_eq, graphid_ne,
  graphid_lt, graphid_gt, graphid_le, graphid_ge, graphid_btree_cmp, graphid_btree_fast_cmp,
}
use post_graph.GraphId.Packing.{IsLabelId, make_graphid_roundtrip, make_graphid-error}
use post_graph.GraphId.Order.{btree_cmp_agrees, btree_cmp_order}

make_graphid_roundtrip_example :
    (gid : Graphid) × (make_graphid (pos 3) (pos 7) ≡ ok gid)
    × (gid < 2 ^ 64)
    × (get_graphid_label_id gid ≡ pos 3)
    × (get_graphid_entry_id gid ≡ pos 7)
make_graphid_roundtrip_example =
    make_graphid_roundtrip (pos 3) (pos 7) (omega arith, omega arith) (omega arith, omega arith)

make_graphid-error_example :
    (make_graphid (pos 3) (pos 0) ≡ error Report.label_id_range) × (¬ IsLabelId (pos 3))
    ⊎ (make_graphid (pos 3) (pos 0) ≡ error Report.entry_id_range) × IsLabelId (pos 3)
make_graphid-error_example = make_graphid-error (pos 3) (pos 0) (λ h. omega arith)

made : make_graphid (pos 3) (pos 7) ≡ ok 844424930131975
unfolding make_graphid
made = refl

btree_cmp_agrees_example :
    (graphid_btree_fast_cmp 5 9 ≡ graphid_btree_cmp 5 9)
    × ((graphid_eq 5 9 ≡ true) ↔ (graphid_btree_cmp 5 9 ≡ pos 0))
    × ((graphid_ne 5 9 ≡ false) ↔ (graphid_btree_cmp 5 9 ≡ pos 0))
    × ((graphid_lt 5 9 ≡ true) ↔ (graphid_btree_cmp 5 9 ≡ negsuc 0))
    × ((graphid_ge 5 9 ≡ false) ↔ (graphid_btree_cmp 5 9 ≡ negsuc 0))
    × ((graphid_gt 5 9 ≡ true) ↔ (graphid_btree_cmp 5 9 ≡ pos 1))
    × ((graphid_le 5 9 ≡ false) ↔ (graphid_btree_cmp 5 9 ≡ pos 1))
btree_cmp_agrees_example = btree_cmp_agrees 5 9 (omega arith) (omega arith)

below : graphid_btree_cmp (2 ^ 63) 5 ≡ negsuc 0
unfolding graphid_btree_cmp
below = refl

between : graphid_btree_cmp 5 9 ≡ negsuc 0
unfolding graphid_btree_cmp
between = refl

-- The ids with the sign bit come first.
btree_cmp_order_example :
    (graphid_btree_cmp (2 ^ 63) 9 ≡ negsuc 0) × (graphid_btree_cmp 5 (2 ^ 63) ≡ pos 1)
btree_cmp_order_example =
    btree_cmp_order (2 ^ 63) 5 9 (omega arith) (omega arith) (omega arith) below between
