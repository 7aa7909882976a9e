-- ===== src/Gtype.antt =====
-- src/backend/utils/adt/gtype_util.c and src/include/utils/gtype.h: the values of gtype. Here is where
-- the parts of a container stand; the modules below are about what they hold.
-- An entry of a container is a uint32: its lower 28 bits are a length or an end offset, and the
-- highest bit says that they are an offset. The array `children` is a list; a read behind its end is
-- a crash.
pub mod Offsets
pub mod Object
pub mod Scalar
pub mod Value
pub mod Iterator
pub mod Builder
pub mod Find
pub mod Contains
pub mod Orderability
pub mod Hash
pub mod Entries
pub mod Serialize
pub mod Tests
use post_graph.Prelude.{
  ℕ, zero, suc, ◌+◌, ◌-◌, ◌/◌, ◌%◌, ◌^◌, Bool, List, ◌==◌, if◌then◌else◌, get_elem?, Outcome, ok,
  ◌>>=◌, or_crash,
}
use post_graph.Prelude.Int.{ℤ, pos, negsuc}

-- GTE_OFFLENFLD and GTE_HAS_OFF
unfoldable pub offlen_field : ℕ → ℕ
offlen_field entry = entry % 2 ^ 28

unfoldable pub has_off : ℕ → Bool
has_off entry = entry / 2 ^ 31 % 2 == 1

abbrev pub child : List ℕ → ℕ → Outcome ℕ
child children index = or_crash (get_elem? children index)

-- The loop of get_gtype_offset from the entry below `i` down, on an uint32.
pub offset_loop : List ℕ → (i offset : ℕ) → Outcome ℕ
offset_loop children zero offset = ok offset
offset_loop children (suc i) offset = do
  entry ← child children i
  let offset' = (offset + offlen_field entry) % 2 ^ 32
  let below = offset_loop children i offset'
  if has_off entry then ok offset' else below

pub get_gtype_offset : List ℕ → ℕ → Outcome ℕ
get_gtype_offset children index = offset_loop children index 0

-- The difference is an uint32.
pub get_gtype_length : List ℕ → ℕ → Outcome ℕ
get_gtype_length children index = child children index >>= length_of
  where
    length_of : ℕ → Outcome ℕ
    length_of entry =
        if has_off entry
        then get_gtype_offset children index
          >>= (λ off. ok ((offlen_field entry + (2 ^ 32 - off)) % 2 ^ 32))
        else ok (offlen_field entry)
