-- ===== src/Gtype/Serialize.antt =====
-- How many bytes a value takes: convert_gtype_value and the functions below it in gtype_util.c, and
-- ag_serialize_extended_type of gtype_ext.c. Of the buffer only the length is kept, and of a part
-- where it begins and the entry that is made for it. An entry is the sum of its type bits and its
-- length, which have no bit in common while the length is below 2^28. The level, of which an Assert
-- knows, is left out.
pub mod Places
pub mod Reads
pub mod Tests
use post_graph.Prelude.{
  ℕ, ◌+◌, ◌-◌, ◌*◌, ◌%◌, ◌^◌, Bool, true, false, List, [], ◌∷◌, ◌++◌, length, ltb, if◌then◌else◌,
  Report, Outcome, ok, error, ◌>>=◌,
}
use post_graph.Gtype.Scalar.{Datum, Float8, Range, TsQuery, TsVector, ClockType, OtherType, Scalar}
use post_graph.Gtype.Value.{Value, Values, Fields, elements, keys}
use post_graph.Gtype.Entries.{offlen_mask, write_entries}

-- The sizes of values of PostgreSQL and PostGIS.
pub record SizeOps : Type 0 where
  pub varsize : Datum → ℕ
  pub timetz_size : ℕ
  pub range_size : Range → ℕ
  pub tsquery_size : TsQuery → ℕ
  pub tsvector_size : TsVector → ℕ
  pub gserialized_size : Datum → ℕ
  pub other_size : OtherType → Datum → ℕ

-- The length behind a part, and its entry.
abbrev pub Written : Type 0
Written = ℕ × ℕ

-- Where a part begins, and its entry.
abbrev pub Part : Type 0
Part = ℕ × ℕ

-- `INTALIGN(len) - len`
unfoldable pub padlen : ℕ → ℕ
padlen len = (4 - len % 4) % 4

abbrev pub entry : (type_bits : ℕ) → (len : ℕ) → ℕ
entry type_bits len = type_bits * 2 ^ 28 + len

-- The padding, two headers and the numbers; the entry says 12 bytes and the numbers.
unfoldable pub convert_gtype_vector : ℕ → List Float8 → Written
convert_gtype_vector len xs = (
  len + padlen len + 4 + padlen (len + padlen len + 4) + 4 + 8 * length xs,
  entry 5 (4 * 3 + length xs * 8),
)

module _ (sizes : SizeOps) where
  -- `numlen` of the extended types.
  unfoldable pub extended_size : Scalar → ℕ
  extended_size (Scalar.clock ClockType.date n) = 4
  extended_size (Scalar.timetz d) = sizes.timetz_size
  extended_size (Scalar.interval d) = 16
  extended_size (Scalar.inet i) = 22
  extended_size (Scalar.cidr i) = 22
  extended_size (Scalar.range t r) = sizes.range_size r
  extended_size (Scalar.tsquery q) = sizes.tsquery_size q
  extended_size (Scalar.tsvector v) = sizes.tsvector_size v
  extended_size (Scalar.gserialized d) = sizes.gserialized_size d
  extended_size (Scalar.other t d) = sizes.other_size t d
  extended_size _ = 8

  -- The padding, the header of 4 bytes and the data; the entry of a timestamp has no padding in it.
  unfoldable pub ag_serialize_extended_type : ℕ → Scalar → Written
  ag_serialize_extended_type len (Scalar.clock ClockType.timestamp n) =
      (len + padlen len + 4 + 8, entry 6 (8 + 4))
  ag_serialize_extended_type len s =
      (len + padlen len + 4 + extended_size s, entry 6 (padlen len + extended_size s + 4))

  unfoldable pub convert_gtype_scalar : ℕ → Scalar → Written
  convert_gtype_scalar len Scalar.null = (len, entry 4 0)
  convert_gtype_scalar len (Scalar.string s) = (len + length s, entry 0 (length s))
  convert_gtype_scalar len (Scalar.numeric d) =
      (len + padlen len + sizes.varsize d, entry 1 (padlen len + sizes.varsize d))
  convert_gtype_scalar len (Scalar.boolean b) = (len, if b then entry 3 0 else entry 2 0)
  convert_gtype_scalar len s = ag_serialize_extended_type len s

  abbrev pub metas : List Part → List ℕ
  metas [] = []
  metas (part ∷ parts) = part.1 ∷ metas parts

  -- The end of a container that begins at `base` and whose parts end at `len`.
  abbrev pub close : (base len : ℕ) → List ℕ → Outcome Written
  close base len part_metas = write_entries 0 0 part_metas >>= (λ entries.
      if ltb offlen_mask (len - base)
      then error Report.too_large
      else ok (len, entry 5 (len - base)))

  unfoldable pub convert_keys : ℕ → List (List ℕ) → ℕ × List Part
  convert_keys len [] = (len, [])
  convert_keys len (k ∷ ks) =
      let written = convert_gtype_scalar len (Scalar.string k) in
      let rest = convert_keys written.0 ks in (rest.0, (len, written.1) ∷ rest.1)

  unfoldable mutual
    pub convert_gtype_value : Value → ℕ → Outcome Written
    convert_gtype_value (Value.scalar s) len = ok (convert_gtype_scalar len s)
    convert_gtype_value (Value.array raw vs) len =
        convert_values vs (len + padlen len + 4 + 4 * length (elements vs))
        >>= (λ parts. close len parts.0 (metas parts.1))
    convert_gtype_value (Value.object fs) len =
        let written_keys =
          convert_keys (len + padlen len + 4 + 4 * (length (keys fs) * 2)) (keys fs) in
        convert_fields fs written_keys.0
        >>= (λ parts. close len parts.0 (metas (written_keys.1 ++ parts.1)))
    convert_gtype_value (Value.vector xs) len = ok (convert_gtype_vector len xs)

    pub convert_values : Values → ℕ → Outcome (ℕ × List Part)
    convert_values Values.no_values len = ok (len, [])
    convert_values (Values.value v vs) len = convert_gtype_value v len >>= (λ written.
        convert_values vs written.0 >>= (λ rest. ok (rest.0, (len, written.1) ∷ rest.1)))

    pub convert_fields : Fields → ℕ → Outcome (ℕ × List Part)
    convert_fields Fields.no_fields len = ok (len, [])
    convert_fields (Fields.field k v fs) len = convert_gtype_value v len >>= (λ written.
        convert_fields fs written.0 >>= (λ rest. ok (rest.0, (len, written.1) ∷ rest.1)))
