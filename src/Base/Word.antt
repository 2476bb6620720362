-- ===== src/Base/Word.antt =====
-- `uint32_t` arithmetic, and a 32-bit pattern read as a signed number.
use Prim.Native.Nat.{ℕ, ◌+◌, ◌-◌, ◌/◌, ◌%◌, ◌^◌, ◌<◌}
use mathlib.Core.Bool.{Bool, true, false}
use mathlib.Core.Path.{◌≡◌}
use native.Mathlib.Omega.{arith}
use dbtranslator.Base.Tests.{ltb, if◌then◌else◌}

abbrev pub IsWord : ℕ → Type 0
IsWord x = x < 2 ^ 32

abbrev pub IsByte : ℕ → Type 0
IsByte x = x < 2 ^ 8

unfoldable pub add32 : ℕ → ℕ → ℕ
add32 a b = (a + b) % 2 ^ 32

-- 2 ^ 32 is added first, since `-` stops at 0.
unfoldable pub sub32 : ℕ → ℕ → ℕ
sub32 a b = (a + 2 ^ 32 - b) % 2 ^ 32

-- Patterns from 2 ^ 31 up stand for negative numbers, in the same order.
unfoldable pub signed_ltb : ℕ → ℕ → Bool
signed_ltb a b =
    if ltb a (2 ^ 31)
    then (if ltb b (2 ^ 31) then ltb a b else false)
    else (if ltb b (2 ^ 31) then true else ltb a b)

-- The right shift that copies the sign: for a negative pattern the complement is shifted.
unfoldable pub sra32 : ℕ → ℕ → ℕ
sra32 a k = if ltb a (2 ^ 31) then a / 2 ^ k else 2 ^ 32 - 1 - (2 ^ 32 - 1 - a) / 2 ^ k

-- The 32-bit pattern of the signed number that the low `bits` bits of `x` stand for.
unfoldable pub sext32 : ℕ → ℕ → ℕ
sext32 bits x = if ltb x (2 ^ (bits - 1)) then x else x + (2 ^ 32 - 2 ^ bits)

pub add32-IsWord : (a b : ℕ) → IsWord (add32 a b)
unfolding add32
add32-IsWord a b = omega arith

pub sub32-IsWord : (a b : ℕ) → IsWord (sub32 a b)
unfolding sub32
sub32-IsWord a b = omega arith

pub add32_comm : (a b : ℕ) → add32 a b ≡ add32 b a
unfolding add32
add32_comm a b = omega arith

pub add32_assoc : (a b c : ℕ) → add32 (add32 a b) c ≡ add32 a (add32 b c)
unfolding add32
add32_assoc a b c = omega arith
