-- ===== src/Gtype/Hash.antt =====
-- gtype_hash_scalar_value and gtype_hash_scalar_value_extended of gtype_util.c. The hash functions of
-- PostgreSQL and its macro ROTATE_HIGH_AND_LOW_32BITS are fields of `HashOps`.
pub mod Equal
pub mod Tests
use Prim.Native.Nat.{bit_or, bit_xor}
use post_graph.Prelude.{
  ℕ, ◌+◌, ◌*◌, ◌/◌, ◌%◌, ◌^◌, Bool, true, false, List, ◌==◌, if◌then◌else◌, Report, Outcome, ok,
  error, map_ok,
}
use post_graph.Prelude.Int.{ℤ}
use post_graph.Gtype.Scalar.{Datum, Float8, Scalar}

pub record HashOps : Type 0 where
  pub hash_any : List ℕ → ℕ
  pub hash_numeric : Datum → ℕ
  pub hashint8 : ℤ → ℕ
  pub hashfloat8 : Float8 → ℕ
  pub hash_any_extended : List ℕ → (seed : ℕ) → ℕ
  pub hash_numeric_extended : Datum → (seed : ℕ) → ℕ
  pub hashcharextended : Bool → (seed : ℕ) → ℕ
  pub hashint8extended : ℤ → (seed : ℕ) → ℕ
  pub hashfloat8extended : Float8 → (seed : ℕ) → ℕ
  pub rotate_high_and_low_32bits : ℕ → ℕ

module _ (hashes : HashOps) where
  unfoldable pub scalar_hash : Scalar → Outcome ℕ
  scalar_hash Scalar.null = ok 1
  scalar_hash (Scalar.string s) = ok (hashes.hash_any s)
  scalar_hash (Scalar.numeric d) = ok (hashes.hash_numeric d)
  scalar_hash (Scalar.boolean b) = ok (if b then 2 else 4)
  scalar_hash (Scalar.integer n) = ok (hashes.hashint8 n)
  scalar_hash (Scalar.float f) = ok (hashes.hashfloat8 f)
  scalar_hash _ = error Report.invalid_scalar

  -- `(*hash << 1) | (*hash >> 31)` on 32 bits, and then the exclusive or.
  unfoldable pub gtype_hash_scalar_value : Scalar → (hash : ℕ) → Outcome ℕ
  gtype_hash_scalar_value scalar_val hash =
      map_ok (bit_xor (bit_or (hash * 2 % 2 ^ 32) (hash / 2 ^ 31))) (scalar_hash scalar_val)

  unfoldable pub scalar_hash_extended : Scalar → (seed : ℕ) → Outcome ℕ
  scalar_hash_extended Scalar.null seed = ok ((seed + 1) % 2 ^ 64)
  scalar_hash_extended (Scalar.string s) seed = ok (hashes.hash_any_extended s seed)
  scalar_hash_extended (Scalar.numeric d) seed = ok (hashes.hash_numeric_extended d seed)
  scalar_hash_extended (Scalar.boolean b) seed =
      ok (if seed == 0 then (if b then 2 else 4) else hashes.hashcharextended b seed)
  scalar_hash_extended (Scalar.integer n) seed = ok (hashes.hashint8extended n seed)
  scalar_hash_extended (Scalar.float f) seed = ok (hashes.hashfloat8extended f seed)
  scalar_hash_extended _ seed = error Report.invalid_scalar

  unfoldable pub gtype_hash_scalar_value_extended : Scalar → (hash seed : ℕ) → Outcome ℕ
  gtype_hash_scalar_value_extended scalar_val hash seed =
      map_ok (bit_xor (hashes.rotate_high_and_low_32bits hash))
        (scalar_hash_extended scalar_val seed)
