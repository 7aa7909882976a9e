-- ===== src/Gtype/Hash/Tests.antt =====
-- The hashes of two equal numerics.
use post_graph.Prelude.{◌+◌, ◌≡◌, refl, ap, true, ok, length, ==_iff}
use post_graph.Gtype.Scalar.{Scalar}
use post_graph.Gtype.Scalar.Tests.{ops}
use post_graph.Gtype.Scalar.Compare.{equals_gtype_scalar_value}
use post_graph.Gtype.Hash.{HashOps, gtype_hash_scalar_value, gtype_hash_scalar_value_extended}
use post_graph.Gtype.Hash.Equal.{IsConsistent, gtype_hash_scalar_value-equals}

abbrev hashes : HashOps
hashes = record {
  hash_any = length;
  hash_numeric = λ d. d + 7;
  hashint8 = λ n. 3;
  hashfloat8 = λ f. 5;
  hash_any_extended = λ s seed. length s + seed;
  hash_numeric_extended = λ d seed. d + seed;
  hashcharextended = λ b seed. seed;
  hashint8extended = λ n seed. seed + 3;
  hashfloat8extended = λ f seed. seed + 5;
  rotate_high_and_low_32bits = λ hash. hash;
}

hashes-IsConsistent : IsConsistent ops hashes
hashes-IsConsistent = record {
  numerics = λ a b e. ap (λ d. d + 7) ((==_iff a b).0 e);
  seeded = λ a b seed e. ap (λ d. d + seed) ((==_iff a b).0 e);
}

numerics_equal : equals_gtype_scalar_value ops (Scalar.numeric 4) (Scalar.numeric 4) ≡ ok true
unfolding equals_gtype_scalar_value
numerics_equal = refl

gtype_hash_scalar_value-equals_example :
    (gtype_hash_scalar_value hashes (Scalar.numeric 4) 1
      ≡ gtype_hash_scalar_value hashes (Scalar.numeric 4) 1)
    × (gtype_hash_scalar_value_extended hashes (Scalar.numeric 4) 1 9
        ≡ gtype_hash_scalar_value_extended hashes (Scalar.numeric 4) 1 9)
gtype_hash_scalar_value-equals_example =
    gtype_hash_scalar_value-equals ops hashes hashes-IsConsistent (Scalar.numeric 4)
      (Scalar.numeric 4) 1 9 numerics_equal
