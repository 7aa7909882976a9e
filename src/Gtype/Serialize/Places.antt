-- ===== src/Gtype/Serialize/Places.antt =====
-- The length that the entry of a part holds, and where the parts of a container begin.
use post_graph.Prelude.{
  ℕ, zero, suc, ◌+◌, ◌-◌, ◌*◌, ◌^◌, ◌≤◌, ◌<◌, ◌≡◌, refl, sym, ap, ◌∙◌, inl, inr, Bool, true, false,
  Bool-cases, List, [], ◌∷◌, ◌++◌, length, ltb, get_elem?, some, All, ok, >>=-eq-ok, arith,
}
use mathlib.Core.Path.{subst}
use post_graph.Gtype.{offlen_field, has_off}
use post_graph.Gtype.Offsets.{total}
use post_graph.Gtype.Scalar.{Scalar, ClockType}
use post_graph.Gtype.Value.{Value, Values, Fields, elements, keys}
use post_graph.Gtype.Entries.{offlen_mask, write_entries}
use post_graph.Gtype.Entries.Lengths.{HasLength, lengths}
use post_graph.Gtype.Serialize.{
  SizeOps, Written, Part, padlen, entry, extended_size, ag_serialize_extended_type,
  convert_gtype_scalar, metas, close, convert_keys, convert_gtype_value, convert_values,
  convert_fields,
}

abbrev pub is_timestamp : Scalar → Bool
is_timestamp (Scalar.clock ClockType.timestamp n) = true
is_timestamp _ = false

-- The entry holds the number of bytes from `len` to the end of the part, as a length.
abbrev pub Counts : ℕ → Written → Type 0
Counts len written = (written.0 ≡ len + offlen_field written.1) × HasLength written.1

-- The parts follow each other from `len` to `end`.
abbrev pub Placed : ℕ → List Part → ℕ → Type 0
Placed len [] end = end ≡ len
Placed len (part ∷ parts) end =
    (part.0 ≡ len) × HasLength part.1 × Placed (len + offlen_field part.1) parts end

pub Placed-le : (len : ℕ) (parts : List Part) (end : ℕ) → Placed len parts end → len ≤ end
Placed-le len [] end same = omega (arith, same)
Placed-le len (part ∷ parts) end (b, l, placed) =
    omega (arith, Placed-le (len + offlen_field part.1) parts end placed)

entry-Counts :
    (bits len size : ℕ) → bits < 8 → size < 2 ^ 28 → Counts len (len + size, entry bits size)
unfolding offlen_field has_off
entry-Counts bits len size b s = (omega (arith, b, s), ground (arith, b, s))

module _ (sizes : SizeOps) where
  abbrev pub data_size : Scalar → ℕ
  data_size Scalar.null = 0
  data_size (Scalar.string s) = length s
  data_size (Scalar.numeric d) = sizes.varsize d
  data_size (Scalar.boolean b) = 0
  data_size s = extended_size sizes s

  -- No timestamp, no vector, and no scalar of 2^27 bytes or more.
  abbrev mutual
    pub IsCounted : Value → Type 0
    IsCounted (Value.scalar s) = (is_timestamp s ≡ false) × (data_size s < 2 ^ 27)
    IsCounted (Value.array raw vs) = AreCounted vs
    IsCounted (Value.object fs) = FieldsCounted fs
    IsCounted (Value.vector xs) = ⊥

    pub AreCounted : Values → Type 0
    AreCounted Values.no_values = Unit
    AreCounted (Values.value v vs) = IsCounted v × AreCounted vs

    pub FieldsCounted : Fields → Type 0
    FieldsCounted Fields.no_fields = Unit
    FieldsCounted (Fields.field k v fs) = (length k < 2 ^ 27) × IsCounted v × FieldsCounted fs

  extended-Counts :
      (len : ℕ) (s : Scalar)
      → extended_size sizes s < 2 ^ 27
      → Counts len (
        len + padlen len + 4 + extended_size sizes s,
        entry 6 (padlen len + extended_size sizes s + 4),
      )
  unfolding padlen
  extended-Counts len s h =
      let (a, b) =
        entry-Counts 6 len (padlen len + extended_size sizes s + 4) (omega arith)
          (omega (arith, h)) in
      (omega (arith, a), b)

  scalar-Counts :
      (len : ℕ) (s : Scalar)
      → is_timestamp s ≡ false
      → data_size s < 2 ^ 27
      → Counts len (convert_gtype_scalar sizes len s)
  unfolding convert_gtype_scalar ag_serialize_extended_type padlen
  scalar-Counts len Scalar.null t h =
      let (a, b) = entry-Counts 4 len 0 (omega arith) (omega arith) in (omega (arith, a), b)
  scalar-Counts len (Scalar.string s) t h =
      entry-Counts 0 len (length s) (omega arith) (omega (arith, h))
  scalar-Counts len (Scalar.numeric d) t h =
      let (a, b) =
        entry-Counts 1 len (padlen len + sizes.varsize d) (omega arith) (omega (arith, h)) in
      (omega (arith, a), b)
  scalar-Counts len (Scalar.boolean true) t h =
      let (a, b) = entry-Counts 3 len 0 (omega arith) (omega arith) in (omega (arith, a), b)
  scalar-Counts len (Scalar.boolean false) t h =
      let (a, b) = entry-Counts 2 len 0 (omega arith) (omega arith) in (omega (arith, a), b)
  scalar-Counts len (Scalar.clock ClockType.timestamp n) t h = cc
  scalar-Counts len (Scalar.clock ClockType.timestamptz n) t h =
      extended-Counts len (Scalar.clock ClockType.timestamptz n) h
  scalar-Counts len (Scalar.clock ClockType.date n) t h =
      extended-Counts len (Scalar.clock ClockType.date n) h
  scalar-Counts len (Scalar.clock ClockType.time n) t h =
      extended-Counts len (Scalar.clock ClockType.time n) h
  scalar-Counts len s t h = extended-Counts len s h

  pub close-Counts :
      (base len : ℕ) (part_metas : List ℕ) (written : Written)
      → base ≤ len
      → close sizes base len part_metas ≡ ok written
      → Counts base written
        × (entries : List ℕ) × (write_entries 0 0 part_metas ≡ ok entries)
        × (written.0 ≡ len)
  close-Counts base len part_metas written le run =
      let (entries, made, rest) = >>=-eq-ok (write_entries 0 0 part_metas) _ run in
      elim (Bool-cases (ltb offlen_mask (len - base))) [
        | inl over ↦ cc (rw over at rest)
        | inr fits ↦
            let e : ok (len, entry 5 (len - base)) ≡ ok written = rw fits at rest in
            let same : (len, entry 5 (len - base)) ≡ written = cc in
            let (a, b) = entry-Counts 5 base (len - base) (omega arith) (ground (arith, fits)) in
            subst
              (λ w.
                Counts base w
                × (es : List ℕ) × (write_entries 0 0 part_metas ≡ ok es)
                × (w.0 ≡ len))
              same ((omega (arith, a, le), b), entries, made, refl)
      ]

  pub keys-Placed :
      (fs : Fields) (len : ℕ)
      → FieldsCounted fs
      → Placed len (convert_keys sizes len (keys fs)).1 (convert_keys sizes len (keys fs)).0
  unfolding convert_keys
  keys-Placed Fields.no_fields len counted = refl
  keys-Placed (Fields.field k v fs) len (short, c, counted) =
      let written = convert_gtype_scalar sizes len (Scalar.string k) in
      let (ends, plain) = scalar-Counts len (Scalar.string k) refl short in
      (
        refl,
        plain,
        subst
            (λ from.
              Placed from (convert_keys sizes written.0 (keys fs)).1
                (convert_keys sizes written.0 (keys fs)).0)
            ends (keys-Placed fs written.0 counted),
      )

  mutual
    unfolding convert_gtype_value

    pub value-Counts :
        (v : Value) (len : ℕ) (written : Written)
        → IsCounted v
        → convert_gtype_value sizes v len ≡ ok written
        → Counts len written
    value-Counts (Value.scalar s) len written (t, h) run =
        let same : convert_gtype_scalar sizes len s ≡ written = cc in
        subst (Counts len) same (scalar-Counts len s t h)
    value-Counts (Value.array raw vs) len written counted run =
        let (parts, converted, closed) =
          >>=-eq-ok (convert_values sizes vs (len + padlen len + 4 + 4 * length (elements vs))) _
            run in
        let placed =
          values-Placed vs (len + padlen len + 4 + 4 * length (elements vs)) parts counted
            converted in
        let le =
          Placed-le (len + padlen len + 4 + 4 * length (elements vs)) parts.1 parts.0 placed in
        (close-Counts len parts.0 (metas sizes parts.1) written (omega (arith, le)) closed).0
    value-Counts (Value.object fs) len written counted run =
        let written_keys =
          convert_keys sizes (len + padlen len + 4 + 4 * (length (keys fs) * 2)) (keys fs) in
        let (parts, converted, closed) = >>=-eq-ok (convert_fields sizes fs written_keys.0) _ run in
        let le =
          Placed-le (len + padlen len + 4 + 4 * (length (keys fs) * 2)) written_keys.1
            written_keys.0
            (keys-Placed fs (len + padlen len + 4 + 4 * (length (keys fs) * 2)) counted) in
        let le' =
          Placed-le written_keys.0 parts.1 parts.0
            (fields-Placed fs written_keys.0 parts counted converted) in
        (close-Counts len parts.0 (metas sizes (written_keys.1 ++ parts.1)) written
          (omega (arith, le, le')) closed).0
    value-Counts (Value.vector xs) len written counted run = absurd counted

    pub values-Placed :
        (vs : Values) (len : ℕ) (result : ℕ × List Part)
        → AreCounted vs
        → convert_values sizes vs len ≡ ok result
        → Placed len result.1 result.0
    values-Placed Values.no_values len result counted run =
        let same : (len, []) ≡ result = cc in subst (λ r. Placed len r.1 r.0) same refl
    values-Placed (Values.value v vs) len result (c, counted) run =
        let (written, converted, next) = >>=-eq-ok (convert_gtype_value sizes v len) _ run in
        let (rest, later, last) = >>=-eq-ok (convert_values sizes vs written.0) _ next in
        let same : (rest.0, (len, written.1) ∷ rest.1) ≡ result = cc in
        let (ends, plain) = value-Counts v len written c converted in
        subst (λ r. Placed len r.1 r.0) same
          (
            refl,
            plain,
            subst (λ from. Placed from rest.1 rest.0) ends
                (values-Placed vs written.0 rest counted later),
          )

    pub fields-Placed :
        (fs : Fields) (len : ℕ) (result : ℕ × List Part)
        → FieldsCounted fs
        → convert_fields sizes fs len ≡ ok result
        → Placed len result.1 result.0
    fields-Placed Fields.no_fields len result counted run =
        let same : (len, []) ≡ result = cc in subst (λ r. Placed len r.1 r.0) same refl
    fields-Placed (Fields.field k v fs) len result (short, c, counted) run =
        let (written, converted, next) = >>=-eq-ok (convert_gtype_value sizes v len) _ run in
        let (rest, later, last) = >>=-eq-ok (convert_fields sizes fs written.0) _ next in
        let same : (rest.0, (len, written.1) ∷ rest.1) ≡ result = cc in
        let (ends, plain) = value-Counts v len written c converted in
        subst (λ r. Placed len r.1 r.0) same
          (
            refl,
            plain,
            subst (λ from. Placed from rest.1 rest.0) ends
                (fields-Placed fs written.0 rest counted later),
          )

  pub Placed-HasLength :
      (len : ℕ) (parts : List Part) (end : ℕ)
      → Placed len parts end
      → All HasLength (metas sizes parts)
  Placed-HasLength len [] end placed = tt
  Placed-HasLength len (part ∷ parts) end (b, l, placed) =
      (l, Placed-HasLength (len + offlen_field part.1) parts end placed)

  -- The beginning of a part, by the lengths of the entries before it.
  pub Placed-total :
      (len : ℕ) (parts : List Part) (end index : ℕ) (part : Part)
      → Placed len parts end
      → get_elem? parts index ≡ some part
      → (part.0 ≡ len + total index (lengths (metas sizes parts)))
        × (get_elem? (metas sizes parts) index ≡ some part.1)
  Placed-total len [] end index part placed at = cc
  Placed-total len (p ∷ parts) end zero part (b, l, placed) at =
      let same : p ≡ part = cc in
      (omega (arith, sym (ap (λ q. q.0) same) ∙ b), ap (λ q. some (q.1)) same)
  Placed-total len (p ∷ parts) end (suc index) part (b, l, placed) at =
      let (begins, at') = Placed-total (len + offlen_field p.1) parts end index part placed at in
      (omega (arith, begins), at')
