-- ===== src/Base/Bits.antt =====
-- Shifts, masks and unions of bit fields as arithmetic, at every width.
use Prim.Native.Nat.{ℕ, zero, suc, ◌+◌, ◌-◌, ◌*◌, ◌/◌, ◌%◌, ◌^◌, ◌≤◌, ◌<◌, bit_and, bit_or, bit_xor}
use mathlib.Core.Path.{◌≡◌, refl, ap}
use native.Mathlib.Nat.{pow-suc, one-le-pow}
use native.Mathlib.Omega.{arith}
use dbtranslator.Base.Digits.{
  and_digit, or_digit, xor_digit, zero-bit_and, zero-bit_or, zero-bit_xor, differ-le,
}

-- The operators of C++ on `uint32_t`; what a left shift moves past bit 31 is lost.
infixl 75 ◌<<◌ ◌>>◌
infixl 74 ◌&&&◌
infixl 73 ◌|||◌
abbrev pub ◌<<◌ : ℕ → ℕ → ℕ
x << k = x * 2 ^ k % 2 ^ 32

abbrev pub ◌>>◌ : ℕ → ℕ → ℕ
x >> k = x / 2 ^ k

abbrev pub ◌&&&◌ : ℕ → ℕ → ℕ
x &&& y = bit_and x y

abbrev pub ◌|||◌ : ℕ → ℕ → ℕ
x ||| y = bit_or x y

-- The recursions go from `a / 2` to `a`, on a bound `n` of `a`.
and_zero_upto : (n a : ℕ) → a ≤ n → bit_and a 0 ≡ 0
and_zero_upto n zero h = refl
and_zero_upto zero (suc a) h = absurd (omega arith)
and_zero_upto (suc n) (suc a) h =
    omega (arith, and_digit (suc a) 0, and_zero_upto n (suc a / 2) (omega arith))

or_zero_upto : (n a : ℕ) → a ≤ n → bit_or a 0 ≡ a
or_zero_upto n zero h = refl
or_zero_upto zero (suc a) h = absurd (omega arith)
or_zero_upto (suc n) (suc a) h =
    omega (arith, or_digit (suc a) 0, or_zero_upto n (suc a / 2) (omega arith))

pub bit_and-zero : (a : ℕ) → bit_and a 0 ≡ 0
bit_and-zero a = and_zero_upto a a (omega arith)

pub bit_or-zero : (a : ℕ) → bit_or a 0 ≡ a
bit_or-zero a = or_zero_upto a a (omega arith)

double_pow : (q k : ℕ) → q * 2 ^ suc k ≡ q * 2 ^ k * 2
double_pow q k = omega (arith, ap (λ (t : ℕ). q * t) (pow-suc 2 k))

-- A mask of `k` ones keeps the remainder by `2 ^ k`.
mask_fields : (k q r : ℕ) → r < 2 ^ k → bit_and (q * 2 ^ k + r) (2 ^ k - 1) ≡ r
mask_fields zero q r h = omega (arith, bit_and-zero (q * 2 ^ 0 + r))
mask_fields (suc k) q r h = ground (
  arith,
  and_digit (q * 2 ^ suc k + r) (2 ^ suc k - 1),
  double_pow q k,
  pow-suc 2 k,
  one-le-pow k 2,
  mask_fields k q (r / 2) (omega (arith, pow-suc 2 k)),
)

pub bit_and_mask : (k a : ℕ) → bit_and a (2 ^ k - 1) ≡ a % 2 ^ k
bit_and_mask k a = ground (arith, one-le-pow k 2, mask_fields k (a / 2 ^ k) (a % 2 ^ k))

-- A mask whose low `k` bits are clear acts on the bits above them.
pub bit_and_high :
    (k q r m : ℕ) → r < 2 ^ k → bit_and (q * 2 ^ k + r) (m * 2 ^ k) ≡ bit_and q m * 2 ^ k
bit_and_high zero q r m h = ground (arith, bit_and-zero 0)
bit_and_high (suc k) q r m h = ground (
  arith,
  and_digit (q * 2 ^ suc k + r) (m * 2 ^ suc k),
  double_pow q k,
  double_pow m k,
  double_pow (bit_and q m) k,
  pow-suc 2 k,
  bit_and_high k q (r / 2) m (omega (arith, pow-suc 2 k)),
)

-- Or-ing such a mask keeps the low bits.
pub bit_or_high :
    (k q r m : ℕ) → r < 2 ^ k → bit_or (q * 2 ^ k + r) (m * 2 ^ k) ≡ bit_or q m * 2 ^ k + r
bit_or_high zero q r m h = ground (arith, bit_or-zero 0)
bit_or_high (suc k) q r m h = ground (
  arith,
  or_digit (q * 2 ^ suc k + r) (m * 2 ^ suc k),
  double_pow q k,
  double_pow m k,
  double_pow (bit_or q m) k,
  pow-suc 2 k,
  bit_or_high k q (r / 2) m (omega (arith, pow-suc 2 k)),
)

-- The union of a field of `k` bits with what lies above it is a sum.
pub bit_or_low : (k q r : ℕ) → r < 2 ^ k → bit_or (q * 2 ^ k) r ≡ q * 2 ^ k + r
bit_or_low zero q r h = ground (arith, bit_or-zero q)
bit_or_low (suc k) q r h = ground (
  arith,
  or_digit (q * 2 ^ suc k) r,
  double_pow q k,
  pow-suc 2 k,
  bit_or_low k q (r / 2) (omega (arith, pow-suc 2 k)),
)

pub bit_and-le : (n a b : ℕ) → a ≤ n → bit_and a b ≤ a
bit_and-le n zero b h = omega (arith, zero-bit_and b)
bit_and-le zero (suc a) b h = absurd (omega arith)
bit_and-le (suc n) (suc a) b h =
    omega (arith, and_digit (suc a) b, bit_and-le n (suc a / 2) (b / 2) (omega arith))

pub bit_or-lt : (k a b : ℕ) → a < 2 ^ k → b < 2 ^ k → bit_or a b < 2 ^ k
bit_or-lt zero zero b p q = omega (arith, zero-bit_or b)
bit_or-lt zero (suc a) b p q = absurd (omega arith)
bit_or-lt (suc k) a b p q = omega (
  arith,
  or_digit a b,
  pow-suc 2 k,
  bit_or-lt k (a / 2) (b / 2) (omega (arith, pow-suc 2 k)) (omega (arith, pow-suc 2 k)),
)

pub bit_xor-lt : (k a b : ℕ) → a < 2 ^ k → b < 2 ^ k → bit_xor a b < 2 ^ k
bit_xor-lt zero zero b p q = omega (arith, zero-bit_xor b)
bit_xor-lt zero (suc a) b p q = absurd (omega arith)
bit_xor-lt (suc k) a b p q = omega (
  arith,
  xor_digit a b,
  differ-le (a % 2) (b % 2) (omega arith) (omega arith),
  pow-suc 2 k,
  bit_xor-lt k (a / 2) (b / 2) (omega (arith, pow-suc 2 k)) (omega (arith, pow-suc 2 k)),
)

-- The masks that the program uses, at a width `k` that is written out.
pub bit_test : (k a : ℕ) → bit_and a (2 ^ k) ≡ a / 2 ^ k % 2 * 2 ^ k
bit_test k a =
    ground
      (arith, one-le-pow k 2, bit_and_high k (a / 2 ^ k) (a % 2 ^ k) 1, bit_and_mask 1 (a / 2 ^ k))

pub or_disjoint : (k a r : ℕ) → a % 2 ^ k ≡ 0 → r < 2 ^ k → bit_or a r ≡ a + r
or_disjoint k a r h p = ground (arith, bit_or_low k (a / 2 ^ k) r)

-- A mask or a filling of the bits from `k` up, at any number.
pub and_high_mask : (k a m : ℕ) → bit_and a (m * 2 ^ k) ≡ bit_and (a / 2 ^ k) m * 2 ^ k
and_high_mask k a m = ground (arith, one-le-pow k 2, bit_and_high k (a / 2 ^ k) (a % 2 ^ k) m)

pub or_high_mask : (k a m : ℕ) → bit_or a (m * 2 ^ k) ≡ bit_or (a / 2 ^ k) m * 2 ^ k + a % 2 ^ k
or_high_mask k a m = ground (arith, one-le-pow k 2, bit_or_high k (a / 2 ^ k) (a % 2 ^ k) m)

-- Filling above a number that has no bits there adds the filling.
pub or_fill : (k a m : ℕ) → a < 2 ^ k → bit_or a (m * 2 ^ k) ≡ m * 2 ^ k + a
or_fill k a m h = ground (arith, one-le-pow k 2, bit_or_high k 0 a m, zero-bit_or m)
