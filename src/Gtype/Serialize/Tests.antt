-- ===== src/Gtype/Serialize/Tests.antt =====
-- The array ["abc", 5, null] behind the 4 bytes of the header of a varlena value.
use post_graph.Prelude.{ℕ, ◌-◌, ◌≡◌, refl, false, List, [], ◌∷◌, get_elem?, some, ok, arith}
use post_graph.Prelude.Int.{pos}
use post_graph.Gtype.{offlen_field, get_gtype_offset, get_gtype_length}
use post_graph.Gtype.Scalar.{Scalar}
use post_graph.Gtype.Value.{Value, Values}
use post_graph.Gtype.Entries.{with_offset, write_entries}
use post_graph.Gtype.Serialize.{
  SizeOps, Part, padlen, entry, extended_size, ag_serialize_extended_type, convert_gtype_scalar,
  metas, convert_gtype_value, convert_values,
}
use post_graph.Gtype.Serialize.Places.{Counts, AreCounted}
use post_graph.Gtype.Serialize.Reads.{data_start, convert_gtype_value-get_gtype_offset}

abbrev sizes : SizeOps
sizes = record {
  varsize = λ d. 8;
  timetz_size = 16;
  range_size = λ r. 20;
  tsquery_size = λ q. q.varsize;
  tsvector_size = λ v. v.varsize;
  gserialized_size = λ d. 32;
  other_size = λ t d. 16;
}

abbrev three : Values
three = Values.value (Value.scalar (Scalar.string (97 ∷ 98 ∷ 99 ∷ []))) (
    Values.value (Value.scalar (Scalar.integer (pos 5)))
      (Values.value (Value.scalar Scalar.null) Values.no_values))

three-AreCounted : AreCounted sizes three
unfolding extended_size
three-AreCounted = ((refl, omega arith), ((refl, omega arith), ((refl, omega arith), tt)))

three_written : convert_gtype_value sizes (Value.array false three) 4 ≡ ok (36, entry 5 32)
unfolding convert_gtype_value convert_gtype_scalar ag_serialize_extended_type extended_size padlen
    write_entries with_offset offlen_field
three_written = refl

convert_gtype_value-get_gtype_offset_example :
    Counts 4 (36, entry 5 32)
    × (parts : ℕ × List Part) × (convert_values sizes three (data_start 4 three) ≡ ok parts)
    × (entries : List ℕ) × (write_entries 0 0 (metas sizes parts.1) ≡ ok entries)
    × ((index : ℕ) (part : Part)
        → get_elem? parts.1 index ≡ some part
        → (get_gtype_offset entries index ≡ ok (part.0 - data_start 4 three))
          × (get_gtype_length entries index ≡ ok (offlen_field part.1)))
convert_gtype_value-get_gtype_offset_example =
    convert_gtype_value-get_gtype_offset sizes false three 4 (36, entry 5 32) three-AreCounted
      three_written
