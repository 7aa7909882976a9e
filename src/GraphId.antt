-- ===== src/GraphId.antt =====
-- src/include/utils/graphid.h and src/backend/utils/adt/graphid.c: the 64-bit id of a vertex or an edge.
-- The label's id stands in the upper 16 bits, the number of the entry within its label in the
-- lower 48. A graphid is kept here as its 64 bits, a number below 2^64; where the source compares
-- two of them as int64, `to_int64` reads the bits as two's complement. The arguments of type int32
-- and int64 are integers. What strtol, pg_lltoa, pq_getmsgint64 and pq_sendint64 do in the input
-- and output functions is PostgreSQL's, and is not modelled.
pub mod Packing
pub mod Order
pub mod Tests
use Prim.Native.Nat.{bit_and, bit_or, bit_xor}
use post_graph.Prelude.{
  ℕ, ◌+◌, ◌-◌, ◌*◌, ◌/◌, ◌%◌, ◌^◌, Bool, not, ◌&&◌, Option, none, some, ◌==◌, ltb, leb,
  if◌then◌else◌, Report, Outcome, ok, error, ◌>>=◌, ◌>>◌, guard,
}
use post_graph.Prelude.Int.{ℤ, pos, negsuc, leb_ℤ, ltb_ℤ, to_uint64, to_int64}

abbrev pub Graphid : Type 0
Graphid = ℕ

abbrev pub label_id_min : ℤ
label_id_min = pos 1

abbrev pub label_id_max : ℤ
label_id_max = pos 65535

abbrev pub entry_id_min : ℤ
entry_id_min = pos 1

abbrev pub entry_id_max : ℤ
entry_id_max = pos 281474976710655

abbrev pub entry_id_bits : ℕ
entry_id_bits = 32 + 16

abbrev pub entry_id_mask : ℕ
entry_id_mask = 0x0000ffffffffffff

pub label_id_is_valid : ℤ → Bool
label_id_is_valid id = leb_ℤ label_id_min id && leb_ℤ id label_id_max

pub entry_id_is_valid : ℤ → Bool
entry_id_is_valid id = leb_ℤ entry_id_min id && leb_ℤ id entry_id_max

pub make_graphid : ℤ → ℤ → Outcome Graphid
unfolding label_id_is_valid entry_id_is_valid to_uint64
make_graphid label_id entry_id = do
  guard (label_id_is_valid label_id) Report.label_id_range
  guard (entry_id_is_valid entry_id) Report.entry_id_range
  ok (
      bit_or ((to_uint64 label_id * 2 ^ entry_id_bits) % 2 ^ 64)
        (bit_and (to_uint64 entry_id) entry_id_mask))

-- The casts back to int32 and int64: the shifted value is below 2^16, the masked one below 2^48.
pub get_graphid_label_id : Graphid → ℤ
get_graphid_label_id gid = pos (gid / 2 ^ entry_id_bits)

pub get_graphid_entry_id : Graphid → ℤ
get_graphid_entry_id gid = pos (bit_and gid entry_id_mask)

-- The SQL function over `make_graphid`; `none` is SQL's NULL.
pub graphid_of : Option ℤ → Option ℤ → Outcome Graphid
graphid_of none entry_id = error Report.null_id
graphid_of (some label_id) none = error Report.null_id
graphid_of (some label_id) (some entry_id) = make_graphid label_id entry_id

pub graphid_eq : Graphid → Graphid → Bool
graphid_eq lgid rgid = lgid == rgid

pub graphid_ne : Graphid → Graphid → Bool
graphid_ne lgid rgid = not (lgid == rgid)

pub graphid_lt : Graphid → Graphid → Bool
unfolding to_int64
graphid_lt lgid rgid = ltb_ℤ (to_int64 lgid) (to_int64 rgid)

pub graphid_gt : Graphid → Graphid → Bool
unfolding to_int64
graphid_gt lgid rgid = ltb_ℤ (to_int64 rgid) (to_int64 lgid)

pub graphid_le : Graphid → Graphid → Bool
unfolding to_int64
graphid_le lgid rgid = leb_ℤ (to_int64 lgid) (to_int64 rgid)

pub graphid_ge : Graphid → Graphid → Bool
unfolding to_int64
graphid_ge lgid rgid = leb_ℤ (to_int64 rgid) (to_int64 lgid)

-- `graphid_btree_fast_cmp` has the same body.
pub graphid_btree_cmp : Graphid → Graphid → ℤ
unfolding to_int64
graphid_btree_cmp lgid rgid =
    if ltb_ℤ (to_int64 rgid) (to_int64 lgid)
    then pos 1
    else if lgid == rgid
    then pos 0
    else negsuc 0

pub graphid_btree_fast_cmp : Graphid → Graphid → ℤ
unfolding to_int64
graphid_btree_fast_cmp lgid rgid =
    if ltb_ℤ (to_int64 rgid) (to_int64 lgid)
    then pos 1
    else if lgid == rgid
    then pos 0
    else negsuc 0

-- The lower 32 bits of `(l >> 32) ^ l`, as the bits of the int. What the arithmetic shift brings
-- in from above stands beyond them.
pub graphid_hash_cmp : Graphid → ℕ
graphid_hash_cmp l = bit_xor (l / 2 ^ 32) l % 2 ^ 32
