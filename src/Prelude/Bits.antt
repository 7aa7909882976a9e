-- ===== src/Prelude/Bits.antt =====
-- `|` and `&` on binary digits as arithmetic: a field beside another, and a mask of low bits.
use Prim.Native.Nat.{
  ℕ, zero, suc, ◌+◌, ◌-◌, ◌*◌, ◌/◌, ◌%◌, ◌^◌, ◌≤◌, ◌<◌, min, max, digits, bit_and, bit_or,
  bit_and-bitwise, bit_or-bitwise,
}
use mathlib.Core.Path.{◌≡◌, refl, ap}
use native.Mathlib.Nat.{pow-suc, one-le-pow}
use native.Mathlib.Omega.{arith}

-- The count of digits does not matter once it covers the first number.
module _ (rest : ℕ → ℕ) (digit : ℕ → ℕ → ℕ) where
  recount : (j k c b : ℕ) → c ≤ j → c ≤ k → digits rest digit j c b ≡ digits rest digit k c b
  recount zero zero zero b p q = refl
  recount zero (suc k) zero b p q = refl
  recount zero k (suc c) b p q = absurd (omega arith)
  recount (suc j) zero zero b p q = refl
  recount (suc j) zero (suc c) b p q = absurd (omega arith)
  recount (suc j) (suc k) zero b p q = refl
  recount (suc j) (suc k) (suc c) b p q =
      ap (λ d. d * 2 + digit (suc c % 2) (b % 2))
        (recount j k (suc c / 2) (b / 2) (omega arith) (omega arith))

or_low_digit : (a b : ℕ) → bit_or a b ≡ bit_or (a / 2) (b / 2) * 2 + max (a % 2) (b % 2)
or_low_digit zero b = simp bit_or-bitwise (omega arith)
or_low_digit (suc a) b = simp bit_or-bitwise (
    ap (λ d. d * 2 + max (suc a % 2) (b % 2))
      (recount (λ y. y) max a (suc a / 2) (suc a / 2) (b / 2) (omega arith) (omega arith)))

and_low_digit : (a b : ℕ) → bit_and a b ≡ bit_and (a / 2) (b / 2) * 2 + min (a % 2) (b % 2)
and_low_digit zero b = simp bit_and-bitwise (omega arith)
and_low_digit (suc a) b = simp bit_and-bitwise (
    ap (λ d. d * 2 + min (suc a % 2) (b % 2))
      (recount (λ y. 0) min a (suc a / 2) (suc a / 2) (b / 2) (omega arith) (omega arith)))

or-zero_below : (n a : ℕ) → a ≤ n → bit_or a 0 ≡ a
or-zero_below n zero h = refl
or-zero_below zero (suc a) h = absurd (omega arith)
or-zero_below (suc n) (suc a) h =
    omega (arith, or_low_digit (suc a) 0, or-zero_below n (suc a / 2) (omega arith))

and-zero_below : (n a : ℕ) → a ≤ n → bit_and a 0 ≡ 0
and-zero_below n zero h = refl
and-zero_below zero (suc a) h = absurd (omega arith)
and-zero_below (suc n) (suc a) h =
    omega (arith, and_low_digit (suc a) 0, and-zero_below n (suc a / 2) (omega arith))

double : (hi k : ℕ) → hi * 2 ^ suc k ≡ 2 * (hi * 2 ^ k)
double hi k = omega (arith, ap (λ (p : ℕ). hi * p) (pow-suc 2 k))

-- `(hi << k) | lo` where `lo` fits in k bits.
pub or_beside : (k hi lo : ℕ) → lo < 2 ^ k → bit_or (hi * 2 ^ k) lo ≡ hi * 2 ^ k + lo
or_beside zero hi lo h = ground (arith, or-zero_below (hi * 1) (hi * 1))
or_beside (suc k) hi lo h = ground (
  arith,
  pow-suc 2 k,
  double hi k,
  or_low_digit (hi * 2 ^ suc k) lo,
  or_beside k hi (lo / 2) (omega (arith, pow-suc 2 k)),
)

and_low : (k hi lo : ℕ) → lo < 2 ^ k → bit_and (hi * 2 ^ k + lo) (2 ^ k - 1) ≡ lo
and_low zero hi lo h = ground (arith, and-zero_below (hi * 1 + lo) (hi * 1 + lo))
and_low (suc k) hi lo h = ground (
  arith,
  pow-suc 2 k,
  one-le-pow k 2,
  double hi k,
  and_low_digit (hi * 2 ^ suc k + lo) (2 ^ suc k - 1),
  and_low k hi (lo / 2) (omega (arith, pow-suc 2 k)),
)

-- `a & mask` where the mask has the k low bits.
pub and_mask : (k a : ℕ) → bit_and a (2 ^ k - 1) ≡ a % 2 ^ k
and_mask k a = ground (arith, one-le-pow k 2, and_low k (a / 2 ^ k) (a % 2 ^ k))
