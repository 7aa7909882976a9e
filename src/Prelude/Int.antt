-- ===== src/Prelude/Int.antt =====
-- The signed integers of C, as values: `negsuc n` is -(n + 1).
use Prim.Native.Nat.{ℕ, zero, suc, ◌+◌, ◌-◌, ◌%◌, ◌^◌, ◌≤◌, ◌<◌}
use mathlib.Core.Path.{◌≡◌, refl}
use mathlib.Core.Bool.{Bool, false, ◌&&◌}
use native.Mathlib.Omega.{arith}
use post_graph.Prelude.Tests.{leb, ltb, ◌==◌, if◌then◌else◌}

pub data ℤ : Type 0 where
  pos : ℕ → ℤ
  negsuc : ℕ → ℤ

abbrev pub pos_part : ℤ → ℕ
pos_part (pos n) = n
pos_part (negsuc n) = 0

abbrev pub neg_part : ℤ → ℕ
neg_part (pos n) = 0
neg_part (negsuc n) = suc n

infix 50 ◌≤ℤ◌ ◌<ℤ◌
abbrev pub ◌≤ℤ◌ : ℤ → ℤ → Type 0
a ≤ℤ b = pos_part a + neg_part b ≤ pos_part b + neg_part a

abbrev pub ◌<ℤ◌ : ℤ → ℤ → Type 0
a <ℤ b = pos_part a + neg_part b < pos_part b + neg_part a

abbrev pub leb_ℤ : ℤ → ℤ → Bool
leb_ℤ a b = leb (pos_part a + neg_part b) (pos_part b + neg_part a)

abbrev pub ltb_ℤ : ℤ → ℤ → Bool
ltb_ℤ a b = ltb (pos_part a + neg_part b) (pos_part b + neg_part a)

-- `-1 * n`
abbrev pub neg : ℤ → ℤ
neg (pos zero) = pos 0
neg (pos (suc n)) = negsuc n
neg (negsuc n) = pos (suc n)

abbrev pub is_zero : ℤ → Bool
is_zero (pos n) = n == 0
is_zero (negsuc n) = false

-- `a == b ? 0 : a > b ? 1 : -1`
abbrev pub compare_ints : ℤ → ℤ → ℤ
compare_ints a b = if ltb_ℤ a b then negsuc 0 else if ltb_ℤ b a then pos 1 else pos 0

abbrev pub eq_ℤ : ℤ → ℤ → Bool
eq_ℤ a b = leb_ℤ a b && leb_ℤ b a

pub neg-neg : (n : ℤ) → neg (neg n) ≡ n
neg-neg (pos zero) = refl
neg-neg (pos (suc n)) = refl
neg-neg (negsuc n) = refl

pub neg-compare_ints : (a b : ℤ) → compare_ints b a ≡ neg (compare_ints a b)
neg-compare_ints (pos a) (pos b) = ground arith
neg-compare_ints (pos a) (negsuc b) = ground arith
neg-compare_ints (negsuc a) (pos b) = ground arith
neg-compare_ints (negsuc a) (negsuc b) = ground arith

-- The cast `(uint64)`.
unfoldable pub to_uint64 : ℤ → ℕ
to_uint64 (pos n) = n % 2 ^ 64
to_uint64 (negsuc n) = 2 ^ 64 - 1 - n % 2 ^ 64

-- The cast `(int64)` of a `uint64`: the same 64 bits, read as two's complement.
unfoldable pub to_int64 : ℕ → ℤ
to_int64 x = if ltb x (2 ^ 63) then pos x else negsuc (2 ^ 64 - 1 - x)

pub to_uint64-to_int64 : (x : ℕ) → x < 2 ^ 64 → to_uint64 (to_int64 x) ≡ x
unfolding to_uint64 to_int64
to_uint64-to_int64 x h = ground arith
