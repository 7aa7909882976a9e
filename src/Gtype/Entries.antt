-- ===== src/Gtype/Entries.antt =====
-- The entries of a container as convert_gtype_array and convert_gtype_object of gtype_util.c write
-- them: from the entry of each part, as convert_gtype_value returns it, in the order of the parts.
-- An object has its keys first and then its values, numbered on. The bytes of the parts are left out.
pub mod Lengths
use post_graph.Prelude.{
  ℕ, zero, suc, ◌+◌, ◌*◌, ◌/◌, ◌%◌, ◌^◌, ◌-◌, List, [], ◌∷◌, ◌==◌, ltb, if◌then◌else◌, Report,
  Outcome, ok, error, map_ok,
}
use post_graph.Gtype.{offlen_field}

-- GTENTRY_OFFLENMASK
abbrev pub offlen_mask : ℕ
offlen_mask = 2 ^ 28 - 1

-- GT_OFFSET_STRIDE
abbrev pub offset_stride : ℕ
offset_stride = 32

-- `(meta & GTENTRY_TYPEMASK) | totallen | GTENTRY_HAS_OFF`, whose parts have no bit in common.
unfoldable pub with_offset : (meta totallen : ℕ) → ℕ
with_offset meta totallen = meta / 2 ^ 28 % 8 * 2 ^ 28 + totallen + 2 ^ 31

-- The loop from part `i` on, behind `totallen` bytes.
unfoldable pub write_entries : (i totallen : ℕ) → (metas : List ℕ) → Outcome (List ℕ)
write_entries i totallen [] = ok []
write_entries i totallen (meta ∷ metas) =
    let totallen' = totallen + offlen_field meta in
    let rest = write_entries (suc i) totallen' metas in
    if ltb offlen_mask totallen'
    then error Report.too_large
    else map_ok
        (λ entries. (if i % offset_stride == 0 then with_offset meta totallen' else meta) ∷ entries)
        rest
