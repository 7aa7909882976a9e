-- ===== src/Gtype/Hash/Equal.antt =====
-- Equal scalars have equal hashes.
use post_graph.Prelude.{ℕ, ◌≡◌, refl, sym, ap, Bool, true, false, ok, arith}
use post_graph.Prelude.Int.{ℤ, pos, negsuc, eq_ℤ}
use post_graph.Gtype.Object.Unique.{compare_equal}
use post_graph.Gtype.Scalar.{
  Datum, Float8, nan, number, Scalar, null, string, numeric, integer, float, boolean, clock, timetz,
  interval, inet, cidr, range, tsquery, tsvector, gserialized, other, ScalarOps,
}
use post_graph.Gtype.Scalar.Compare.{float_eq, boolean_eq, equals_gtype_scalar_value}
use post_graph.Gtype.Hash.{
  HashOps, scalar_hash, scalar_hash_extended, gtype_hash_scalar_value,
  gtype_hash_scalar_value_extended,
}

-- Equal numerics have equal hashes, whatever their scales are.
pub record IsConsistent (ops : ScalarOps) (hashes : HashOps) : Type 0 where
  pub numerics :
      (a b : Datum) → ops.numeric_eq a b ≡ true → hashes.hash_numeric a ≡ hashes.hash_numeric b
  pub seeded :
      (a b : Datum) (seed : ℕ)
      → ops.numeric_eq a b ≡ true
      → hashes.hash_numeric_extended a seed ≡ hashes.hash_numeric_extended b seed

eq_ℤ-equal : (a b : ℤ) → eq_ℤ a b ≡ true → a ≡ b
eq_ℤ-equal (pos a) (pos b) e = ap pos (ground (arith, e))
eq_ℤ-equal (pos a) (negsuc b) e = absurd (ground (arith, e))
eq_ℤ-equal (negsuc a) (pos b) e = absurd (ground (arith, e))
eq_ℤ-equal (negsuc a) (negsuc b) e = ap negsuc (ground (arith, e))

boolean_eq-equal : (a b : Bool) → boolean_eq a b ≡ true → a ≡ b
unfolding boolean_eq
boolean_eq-equal true b e = sym e
boolean_eq-equal false true e = cc
boolean_eq-equal false false e = refl

float_eq-equal : (a b : Float8) → float_eq a b ≡ true → a ≡ b
unfolding float_eq
float_eq-equal (number a) (number b) e = ap number (eq_ℤ-equal a b e)
float_eq-equal nan b e = cc
float_eq-equal (number a) nan e = cc

the_value : (x : Bool) → ok x ≡ ok true → x ≡ true
the_value x e = cc

module _ (ops : ScalarOps) (hashes : HashOps) (consistent : IsConsistent ops hashes) where
  equal_hashes :
      (a b : Scalar)
      → equals_gtype_scalar_value ops a b ≡ ok true
      → (scalar_hash hashes a ≡ scalar_hash hashes b)
        × ((seed : ℕ) → scalar_hash_extended hashes a seed ≡ scalar_hash_extended hashes b seed)
  unfolding equals_gtype_scalar_value scalar_hash scalar_hash_extended
  equal_hashes null null e = (refl, λ seed. refl)
  equal_hashes (string a) (string b) e =
      let same : a ≡ b = compare_equal a b (the_value _ e) in
      (
        ap (λ s. ok (hashes.hash_any s)) same,
        λ seed. ap (λ s. ok (hashes.hash_any_extended s seed)) same,
      )
  equal_hashes (numeric a) (numeric b) e = (
    ap ok (consistent.numerics a b (the_value _ e)),
    λ seed. ap ok (consistent.seeded a b seed (the_value _ e)),
  )
  equal_hashes (boolean a) (boolean b) e =
      let same = boolean_eq-equal a b (the_value _ e) in
      (
        ap (λ s. scalar_hash hashes (boolean s)) same,
        λ seed. ap (λ s. scalar_hash_extended hashes (boolean s) seed) same,
      )
  equal_hashes (integer a) (integer b) e =
      let same = eq_ℤ-equal a b (the_value _ e) in
      (
        ap (λ s. ok (hashes.hashint8 s)) same,
        λ seed. ap (λ s. ok (hashes.hashint8extended s seed)) same,
      )
  equal_hashes (float a) (float b) e =
      let same = float_eq-equal a b (the_value _ e) in
      (
        ap (λ s. ok (hashes.hashfloat8 s)) same,
        λ seed. ap (λ s. ok (hashes.hashfloat8extended s seed)) same,
      )
  equal_hashes (clock t a) (clock u b) e = (refl, λ seed. refl)
  equal_hashes (timetz a) (timetz b) e = (refl, λ seed. refl)
  equal_hashes (interval a) (interval b) e = (refl, λ seed. refl)
  equal_hashes (inet a) (inet b) e = (refl, λ seed. refl)
  equal_hashes (cidr a) (cidr b) e = (refl, λ seed. refl)
  equal_hashes (tsquery a) (tsquery b) e = (refl, λ seed. refl)
  equal_hashes (tsvector a) (tsvector b) e = (refl, λ seed. refl)
  equal_hashes (gserialized a) (gserialized b) e = (refl, λ seed. refl)
  equal_hashes (range t a) (range u b) e = (refl, λ seed. refl)
  equal_hashes (other t a) (other u b) e = (refl, λ seed. refl)
  equal_hashes null _ e = cc
  equal_hashes (string a) _ e = cc
  equal_hashes (numeric a) _ e = cc
  equal_hashes (integer a) _ e = cc
  equal_hashes (float a) _ e = cc
  equal_hashes (boolean a) _ e = cc
  equal_hashes (clock t a) _ e = cc
  equal_hashes (timetz a) _ e = cc
  equal_hashes (interval a) _ e = cc
  equal_hashes (inet a) _ e = cc
  equal_hashes (cidr a) _ e = cc
  equal_hashes (range t a) _ e = cc
  equal_hashes (tsquery a) _ e = cc
  equal_hashes (tsvector a) _ e = cc
  equal_hashes (gserialized a) _ e = cc
  equal_hashes (other t a) _ e = cc

  -- When PostgreSQL gives equal numerics equal hashes: two scalars that equals_gtype_scalar_value
  -- finds equal are mixed into a hash in the same way, without a seed and with one, or are reported
  -- alike.
  pub gtype_hash_scalar_value-equals :
      (a b : Scalar) (hash seed : ℕ)
      → equals_gtype_scalar_value ops a b ≡ ok true
      → (gtype_hash_scalar_value hashes a hash ≡ gtype_hash_scalar_value hashes b hash)
        × (gtype_hash_scalar_value_extended hashes a hash seed
            ≡ gtype_hash_scalar_value_extended hashes b hash seed)
  unfolding gtype_hash_scalar_value gtype_hash_scalar_value_extended
  gtype_hash_scalar_value-equals a b hash seed e =
      let (plain, seeded) = equal_hashes a b e in (rw plain refl, rw (seeded seed) refl)
