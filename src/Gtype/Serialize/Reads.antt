-- ===== src/Gtype/Serialize/Reads.antt =====
-- The parts of an array are read where they were written.
use post_graph.Prelude.{
  ℕ, suc, ◌+◌, ◌-◌, ◌*◌, ◌≤◌, ◌≡◌, refl, ap, ◌∙◌, inl, inr, Bool, Bool-cases, List, [], ◌∷◌, length,
  ltb, get_elem?, some, Outcome, ok, error, map_ok, >>=-eq-ok, arith,
}
use post_graph.Gtype.{offlen_field, get_gtype_offset, get_gtype_length}
use post_graph.Gtype.Offsets.{total}
use post_graph.Gtype.Value.{Value, Values, elements}
use post_graph.Gtype.Entries.{offlen_mask, write_entries}
use post_graph.Gtype.Entries.Lengths.{lengths, sum, write_entries-get_gtype_length}
use post_graph.Gtype.Serialize.{
  SizeOps, Written, Part, padlen, metas, convert_gtype_value, convert_values,
}
use post_graph.Gtype.Serialize.Places.{
  Counts, Placed-le, AreCounted, close-Counts, values-Placed, Placed-HasLength, Placed-total,
}

map_ok-ok :
    {A B : Type 0} (o : Outcome A) (f : A → B) (b : B) → map_ok f o ≡ ok b → (a : A) × (o ≡ ok a)
map_ok-ok (ok a) f b e = (a, refl)
map_ok-ok (error report) f b e = cc
map_ok-ok Outcome.crash f b e = cc
map_ok-ok Outcome.out_of_fuel f b e = cc

write_entries-fit :
    (i tot : ℕ) (part_metas entries : List ℕ)
    → tot ≤ offlen_mask
    → write_entries i tot part_metas ≡ ok entries
    → tot + sum (lengths part_metas) ≤ offlen_mask
unfolding write_entries
write_entries-fit i tot [] entries fit run = omega (arith, fit)
write_entries-fit i tot (meta ∷ part_metas) entries fit run =
    elim (Bool-cases (ltb offlen_mask (tot + offlen_field meta))) [
      | inl over ↦ cc (rw over at run)
      | inr fits ↦
          let (rest, made) =
            map_ok-ok (write_entries (suc i) (tot + offlen_field meta) part_metas) _ entries
              (rw fits at run) in
          let later =
            write_entries-fit (suc i) (tot + offlen_field meta) part_metas rest
              (ground (arith, fits)) made in
          omega (arith, later)
    ]

-- Where the parts of an array begin that is itself written from `len` on.
abbrev pub data_start : ℕ → Values → ℕ
data_start len vs = len + padlen len + 4 + 4 * length (elements vs)

-- When no part of an array, nested ones too, is a timestamp, a vector or a scalar of 2^27 bytes or
-- more, and convert_gtype_value writes the array behind `len` bytes: its entry counts the bytes it
-- takes, and of each part get_gtype_offset reads where it begins, counted from the start of the data,
-- and get_gtype_length the length that its own entry holds.
pub convert_gtype_value-get_gtype_offset :
    (sizes : SizeOps) (raw : Bool) (vs : Values) (len : ℕ) (written : Written)
    → AreCounted sizes vs
    → convert_gtype_value sizes (Value.array raw vs) len ≡ ok written
    → Counts len written
      × (parts : ℕ × List Part) × (convert_values sizes vs (data_start len vs) ≡ ok parts)
      × (entries : List ℕ) × (write_entries 0 0 (metas sizes parts.1) ≡ ok entries)
      × ((index : ℕ) (part : Part)
          → get_elem? parts.1 index ≡ some part
          → (get_gtype_offset entries index ≡ ok (part.0 - data_start len vs))
            × (get_gtype_length entries index ≡ ok (offlen_field part.1)))
unfolding convert_gtype_value
convert_gtype_value-get_gtype_offset sizes raw vs len written counted run =
    let (parts, converted, closed) =
      >>=-eq-ok (convert_values sizes vs (data_start len vs)) _ run in
    let placed = values-Placed sizes vs (data_start len vs) parts counted converted in
    let le = Placed-le (data_start len vs) parts.1 parts.0 placed in
    let (counts, made_entries, made, same) =
      close-Counts sizes len parts.0 (metas sizes parts.1) written (omega (arith, le)) closed in
    let fit = write_entries-fit 0 0 (metas sizes parts.1) made_entries (omega arith) made in
    let (entries, wrote, reads) =
      write_entries-get_gtype_length (metas sizes parts.1)
        (Placed-HasLength sizes (data_start len vs) parts.1 parts.0 placed) (omega (arith, fit)) in
    (
      counts,
      parts,
      converted,
      entries,
      wrote,
      λ index part at.
          let (begins, at') =
            Placed-total sizes (data_start len vs) parts.1 parts.0 index part placed at in
          let (read, offset) = reads index part.1 at' in
          let back : total index (lengths (metas sizes parts.1)) ≡ part.0 - data_start len vs =
            omega (arith, begins) in
          (offset ∙ ap ok back, read),
    )
