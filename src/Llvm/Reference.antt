-- ===== src/Llvm/Reference.antt =====
-- The parameter can be met: the values of the language reference, computed.
use Prim.Native.Nat.{bit_and, bit_or, bit_xor}
use mathlib.Core.Bool.{not}
use dbtranslator.Base.{
  ℕ, ◌≤◌, ◌<◌, ◌≡◌, refl, Bool, Option, none, some, arith, add32, sub32, sra32, sext32, signed_ltb,
  ltb, ◌==◌, ◌<<◌, ◌>>◌, if◌then◌else◌,
}
use dbtranslator.Llvm.Semantics.{
  Llvm, BinOp, Predicate, add, sub, and, or, xor, shl, lshr, ashr, eq, ne, slt, sge, ult, uge,
}

-- A shift by the width or more is poison.
abbrev pub shifted : ℕ → ℕ → Option ℕ
shifted b v = if ltb b 32 then some v else none

abbrev binary_of : BinOp → ℕ → ℕ → Option ℕ
binary_of add a b = some (add32 a b)
binary_of sub a b = some (sub32 a b)
binary_of and a b = some (bit_and a b)
binary_of or a b = some (bit_or a b)
binary_of xor a b = some (bit_xor a b)
binary_of shl a b = shifted b (a << b)
binary_of lshr a b = shifted b (a >> b)
binary_of ashr a b = shifted b (sra32 a b)

abbrev icmp_of : Predicate → ℕ → ℕ → Bool
icmp_of eq a b = a == b
icmp_of ne a b = not (a == b)
icmp_of slt a b = signed_ltb a b
icmp_of sge a b = not (signed_ltb a b)
icmp_of ult a b = ltb a b
icmp_of uge a b = not (ltb a b)

pub in_width : (b v : ℕ) → b < 32 → shifted b v ≡ some v
in_width b v h = ground arith

pub past_width : (b v : ℕ) → 32 ≤ b → shifted b v ≡ none
past_width b v h = ground arith

abbrev pub reference : Llvm
reference = record {
  binary = binary_of;
  icmp = icmp_of;
  sext = sext32;
  zext = λ w a. a;
  add_law = λ a b p q. refl;
  sub_law = λ a b p q. refl;
  and_law = λ a b p q. refl;
  or_law = λ a b p q. refl;
  xor_law = λ a b p q. refl;
  shl_law = λ a b p q. in_width b (a << b) q;
  lshr_law = λ a b p q. in_width b (a >> b) q;
  ashr_law = λ a b p q. in_width b (sra32 a b) q;
  shl_poison = λ a b q. past_width b (a << b) q;
  lshr_poison = λ a b q. past_width b (a >> b) q;
  ashr_poison = λ a b q. past_width b (sra32 a b) q;
  eq_law = λ a b p q. refl;
  ne_law = λ a b p q. refl;
  slt_law = λ a b p q. refl;
  sge_law = λ a b p q. refl;
  ult_law = λ a b p q. refl;
  uge_law = λ a b p q. refl;
  sext_byte = λ a p. refl;
  sext_half = λ a p. refl;
  zext_bit = λ a p. refl;
  zext_byte = λ a p. refl;
  zext_half = λ a p. refl;
}
