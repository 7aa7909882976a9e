-- ===== src/Gtype/Entries/Lengths.antt =====
-- What is written for a part is what is read for it.
use post_graph.Prelude.{
  ℕ, zero, suc, ◌+◌, ◌%◌, ◌≤◌, ◌<◌, ◌≡◌, refl, ap, ◌∙◌, inl, inr, true, false, Bool-cases, List, [],
  ◌∷◌, ◌==◌, ltb, length, get_elem?, some, All, ok, arith,
}
use post_graph.Gtype.{offlen_field, has_off, get_gtype_offset, get_gtype_length}
use post_graph.Gtype.Offsets.{Encodes, total, get_gtype_length_lem}
use post_graph.Gtype.Entries.{offlen_mask, offset_stride, with_offset, write_entries}

-- An entry with a length.
abbrev pub HasLength : ℕ → Type 0
HasLength meta = has_off meta ≡ false

abbrev pub lengths : List ℕ → List ℕ
lengths [] = []
lengths (meta ∷ metas) = offlen_field meta ∷ lengths metas

abbrev pub sum : List ℕ → ℕ
sum [] = 0
sum (l ∷ ls) = l + sum ls

offlen_field-with_offset :
    (meta tot : ℕ) → tot ≤ offlen_mask → offlen_field (with_offset meta tot) ≡ tot
unfolding offlen_field with_offset
offlen_field-with_offset meta tot h = omega (arith, h)

has_off-with_offset : (meta tot : ℕ) → tot ≤ offlen_mask → has_off (with_offset meta tot) ≡ true
unfolding has_off with_offset
has_off-with_offset meta tot h = ground (arith, h)

write_entries-Encodes :
    (i tot : ℕ) (metas : List ℕ)
    → All HasLength metas
    → tot + sum (lengths metas) ≤ offlen_mask
    → (entries : List ℕ) × (write_entries i tot metas ≡ ok entries)
      × Encodes tot entries (lengths metas)
      × (length entries ≡ length metas)
unfolding write_entries
write_entries-Encodes i tot [] plain fit = ([], refl, tt, refl)
write_entries-Encodes i tot (meta ∷ metas) (p, plain) fit =
    let here = offlen_field meta in
    let (rest, run, coded, len) =
      write_entries-Encodes (suc i) (tot + offlen_field meta) metas plain (omega (arith, fit)) in
    let fits : ltb offlen_mask (tot + offlen_field meta) ≡ false = ground (arith, fit) in
    elim (Bool-cases (i % offset_stride == 0)) [
      | inl stride ↦ (
        with_offset meta (tot + offlen_field meta) ∷ rest,
        rw (fits, run, stride) refl,
        (
          rw
              (
                has_off-with_offset meta (tot + offlen_field meta) (omega (arith, fit)),
                offlen_field-with_offset meta (tot + offlen_field meta) (omega (arith, fit)),
              )
              refl,
          coded,
        ),
        ap suc len,
      )
      | inr plain_entry ↦
          (meta ∷ rest, rw (fits, run, plain_entry) refl, (rw p refl, coded), ap suc len)
    ]

total-sum : (n : ℕ) (ls : List ℕ) → total n ls ≤ sum ls
total-sum zero ls = omega arith
total-sum (suc n) [] = omega arith
total-sum (suc n) (l ∷ ls) = omega (arith, total-sum n ls)

get_elem?-lengths :
    (metas : List ℕ) (index meta : ℕ)
    → get_elem? metas index ≡ some meta
    → (index < length metas) × (get_elem? (lengths metas) index ≡ some (offlen_field meta))
get_elem?-lengths [] index meta at = cc
get_elem?-lengths (m ∷ metas) zero meta at =
    (omega arith, let same : m ≡ meta = cc in ap (λ x. some (offlen_field x)) same)
get_elem?-lengths (m ∷ metas) (suc index) meta at =
    let (within, at') = get_elem?-lengths metas index meta at in (omega (arith, within), at')

-- When each part's entry holds a length, and all lengths together fit a length field: the loop of
-- convert_gtype_array writes an entry for each part, and for each of them get_gtype_length reads the
-- length of the part, and get_gtype_offset the sum of the lengths before it.
pub write_entries-get_gtype_length :
    (metas : List ℕ)
    → All HasLength metas
    → sum (lengths metas) ≤ offlen_mask
    → (entries : List ℕ) × (write_entries 0 0 metas ≡ ok entries)
      × ((index meta : ℕ)
          → get_elem? metas index ≡ some meta
          → (get_gtype_length entries index ≡ ok (offlen_field meta))
            × (get_gtype_offset entries index ≡ ok (total index (lengths metas))))
write_entries-get_gtype_length metas plain fit =
    let (entries, run, coded, len) = write_entries-Encodes 0 0 metas plain (omega (arith, fit)) in
    (
      entries,
      run,
      λ index meta at.
          let (within, at') = get_elem?-lengths metas index meta at in
          let (offset, size, size_at, read) =
            get_gtype_length_lem entries (lengths metas) index coded (omega (arith, within, len))
              (omega (arith, fit, total-sum (suc index) (lengths metas))) in
          let same : size ≡ offlen_field meta = cc in (read ∙ ap ok same, offset),
    )
