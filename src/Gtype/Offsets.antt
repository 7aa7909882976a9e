-- ===== src/Gtype/Offsets.antt =====
-- Entries that encode the lengths of the parts.
use post_graph.Prelude.{
  ℕ, zero, suc, ◌+◌, ◌%◌, ◌^◌, ◌≤◌, ◌<◌, ◌≡◌, refl, ap, ◌∙◌, inl, inr, some, List, [], ◌∷◌,
  if◌then◌else◌, Bool-cases, length, get_elem?, ok, arith,
}
use post_graph.Gtype.{offlen_field, has_off, offset_loop, get_gtype_offset, get_gtype_length}

-- Behind the first `start` bytes the parts have the lengths, and each entry holds its part's length
-- or where its part ends.
abbrev pub Encodes : (start : ℕ) → (children lengths : List ℕ) → Type 0
Encodes start [] [] = Unit
Encodes start [] (l ∷ ls) = ⊥
Encodes start (c ∷ cs) [] = ⊥
Encodes start (c ∷ cs) (l ∷ ls) =
    (offlen_field c ≡ (if has_off c then start + l else l)) × Encodes (start + l) cs ls

-- The sum of the first lengths.
abbrev pub total : ℕ → List ℕ → ℕ
total zero ls = 0
total (suc n) [] = 0
total (suc n) (l ∷ ls) = l + total n ls

record IsEntry (start index : ℕ) (children lengths : List ℕ) : Type 0 where
  pub entry : ℕ
  pub size : ℕ
  pub at : get_elem? children index ≡ some entry
  pub size_at : get_elem? lengths index ≡ some size
  pub next : total (suc index) lengths ≡ total index lengths + size
  pub value :
      offlen_field entry ≡ (if has_off entry then start + (total index lengths + size) else size)

Encodes-IsEntry :
    (start index : ℕ) (children lengths : List ℕ)
    → Encodes start children lengths
    → index < length children
    → IsEntry start index children lengths
Encodes-IsEntry start index [] ls h lt = absurd (omega arith)
Encodes-IsEntry start index (c ∷ cs) [] h lt = absurd h
Encodes-IsEntry start zero (c ∷ cs) (l ∷ ls) h lt = record {
  entry = c;
  size = l;
  at = refl;
  size_at = refl;
  next = omega arith;
  value = rw (let e : 0 + l ≡ l = omega arith in e) (h.0);
}
Encodes-IsEntry start (suc index) (c ∷ cs) (l ∷ ls) h lt =
    let e = Encodes-IsEntry (start + l) index cs ls h.1 (omega arith) in
    let sum : start + l + (total index ls + e.size) ≡ start + (l + total index ls + e.size) =
      omega arith in
    record {
      entry = e.entry;
      size = e.size;
      at = e.at;
      size_at = e.size_at;
      next = omega (arith, e.next);
      value = e.value ∙ ap (λ n. if has_off e.entry then n else e.size) sum;
    }

-- The loop adds up the lengths before the entry, whether it meets an offset or not.
offset_loop-total :
    (children lengths : List ℕ) (i offset : ℕ)
    → Encodes 0 children lengths
    → i ≤ length children
    → offset + total i lengths < 2 ^ 32
    → offset_loop children i offset ≡ ok (offset + total i lengths)
unfolding offset_loop
offset_loop-total children lengths zero offset h le small = ap ok (omega arith)
offset_loop-total children lengths (suc i) offset h le small =
    let e = Encodes-IsEntry 0 i children lengths h (omega arith) in
    elim (Bool-cases (has_off e.entry)) [
      | inl off ↦
          let value : offlen_field e.entry ≡ total i lengths + e.size =
            e.value ∙ rw off (omega arith) in
          rw (e.at, off, value, e.next) (ap ok (omega (arith, small, e.next)))
      | inr len ↦
          let value : offlen_field e.entry ≡ e.size = e.value ∙ rw len refl in
          let fits : (offset + e.size) % 2 ^ 32 ≡ offset + e.size = omega (arith, small, e.next) in
          let sum : offset + e.size + total i lengths ≡ offset + (total i lengths + e.size) =
            omega arith in
          rw (e.at, len, value, fits, e.next)
            (offset_loop-total children lengths i (offset + e.size) h (omega arith)
                (omega (arith, small, e.next))
              ∙ ap ok sum)
    ]

-- If the entries of a container encode the lengths of its parts, each by the length or by the end
-- offset, and all parts together are below 2^28 bytes, then for every entry the offset is the sum of
-- the lengths before it, and the length is its part's. No entry is read beyond the end.
pub get_gtype_length_lem :
    (children lengths : List ℕ) (index : ℕ)
    → Encodes 0 children lengths
    → index < length children
    → total (suc index) lengths < 2 ^ 28
    → (get_gtype_offset children index ≡ ok (total index lengths))
      × (size : ℕ) × (get_elem? lengths index ≡ some size)
      × (get_gtype_length children index ≡ ok size)
unfolding get_gtype_length get_gtype_offset
get_gtype_length_lem children lengths index h lt small =
    let e = Encodes-IsEntry 0 index children lengths h lt in
    let offset : offset_loop children index 0 ≡ ok (total index lengths) =
      offset_loop-total children lengths index 0 h (omega arith) (omega (arith, small, e.next))
      ∙ ap ok (omega arith) in
    let found : get_gtype_length children index ≡ ok e.size = elim (Bool-cases (has_off e.entry)) [
      | inl off ↦
          let value : offlen_field e.entry ≡ total index lengths + e.size =
            e.value ∙ rw off (omega arith) in
          rw (e.at, off, offset, value) (ap ok (omega (arith, small, e.next)))
      | inr len ↦ rw (e.at, len) (ap ok (e.value ∙ rw len refl))
    ] in
    (offset, e.size, e.size_at, found)
