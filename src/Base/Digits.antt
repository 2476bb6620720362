-- ===== src/Base/Digits.antt =====
-- The bitwise operations, one binary digit at a time. The native operations are defined by a
-- recursion on digits that runs on fuel; these equations are free of it.
use Prim.Native.Nat.{
  ℕ, zero, suc, ◌+◌, ◌*◌, ◌/◌, ◌%◌, ◌≤◌, min, max, digits, bit_and, bit_or, bit_xor,
  bit_and-bitwise, bit_or-bitwise, bit_xor-bitwise, differ,
}
use mathlib.Core.Path.{◌≡◌, refl}
use native.Mathlib.Nat.{le_refl}
use native.Mathlib.Omega.{arith}

module _ (base : ℕ → ℕ) (digit : ℕ → ℕ → ℕ) where
  fuel_free : (p q x y : ℕ) → x ≤ p → x ≤ q → digits base digit p x y ≡ digits base digit q x y
  fuel_free zero zero x y hp hq = refl
  fuel_free zero (suc q) zero y hp hq = refl
  fuel_free (suc p) zero zero y hp hq = refl
  fuel_free (suc p) (suc q) zero y hp hq = refl
  fuel_free zero (suc q) (suc x) y hp hq = absurd (omega arith)
  fuel_free (suc p) zero (suc x) y hp hq = absurd (omega arith)
  fuel_free (suc p) (suc q) (suc x) y hp hq =
      rw (fuel_free p q (suc x / 2) (y / 2) (omega arith) (omega arith))

pub and_digit : (x y : ℕ) → min (x % 2) (y % 2) + 2 * bit_and (x / 2) (y / 2) ≡ bit_and x y
and_digit zero y = simp bit_and-bitwise (omega arith)
and_digit (suc p) y =
    let enough =
      fuel_free (λ v. zero) min p (suc p / 2) (suc p / 2) (y / 2) (omega arith) (le_refl _) in
    simp bit_and-bitwise (omega (arith, enough))

pub or_digit : (x y : ℕ) → max (x % 2) (y % 2) + 2 * bit_or (x / 2) (y / 2) ≡ bit_or x y
or_digit zero y = simp bit_or-bitwise (omega arith)
or_digit (suc p) y =
    let enough =
      fuel_free (λ v. v) max p (suc p / 2) (suc p / 2) (y / 2) (omega arith) (le_refl _) in
    simp bit_or-bitwise (omega (arith, enough))

pub xor_digit : (x y : ℕ) → differ (x % 2) (y % 2) + 2 * bit_xor (x / 2) (y / 2) ≡ bit_xor x y
xor_digit zero y = simp bit_xor-bitwise (omega arith)
xor_digit (suc p) y =
    let enough =
      fuel_free (λ v. v) differ p (suc p / 2) (suc p / 2) (y / 2) (omega arith) (le_refl _) in
    simp bit_xor-bitwise (omega (arith, enough))

pub zero-bit_and : (b : ℕ) → bit_and 0 b ≡ 0
zero-bit_and b = simp bit_and-bitwise

pub zero-bit_or : (b : ℕ) → bit_or 0 b ≡ b
zero-bit_or b = simp bit_or-bitwise

pub zero-bit_xor : (b : ℕ) → bit_xor 0 b ≡ b
zero-bit_xor b = simp bit_xor-bitwise

pub differ-le : (a b : ℕ) → a ≤ 1 → b ≤ 1 → differ a b ≤ 1
differ-le zero b p q = q
differ-le (suc zero) zero p q = omega arith
differ-le (suc zero) (suc b) p q = omega arith
differ-le (suc (suc a)) b p q = absurd (omega arith)
