-- ===== src/Llvm/Semantics.antt =====
-- The instructions of LLVM that src/Instruction.cpp builds, as a parameter. The library is no part
-- of the repository: its results are a parameter, with the rules of its language reference as laws.
use Prim.Native.Nat.{bit_and, bit_or, bit_xor}
use mathlib.Core.Bool.{not}
use dbtranslator.Base.{
  ℕ, ◌^◌, ◌≤◌, ◌<◌, ◌≡◌, Bool, Option, none, some, IsWord, add32, sub32, sra32, sext32, signed_ltb,
  ltb, ◌==◌, ◌<<◌, ◌>>◌,
}

pub data BinOp : Type 0 where
  add sub and or xor shl lshr ashr : BinOp

pub data Predicate : Type 0 where
  eq ne slt sge ult uge : Predicate

-- Instructions on `i32` values. `none` is poison.
pub record Llvm : Type 0 where
  pub binary : BinOp → ℕ → ℕ → Option ℕ
  pub icmp : Predicate → ℕ → ℕ → Bool
  -- from a width to 32 bits
  pub sext : ℕ → ℕ → ℕ
  pub zext : ℕ → ℕ → ℕ
  pub add_law : (a b : ℕ) → IsWord a → IsWord b → binary add a b ≡ some (add32 a b)
  pub sub_law : (a b : ℕ) → IsWord a → IsWord b → binary sub a b ≡ some (sub32 a b)
  pub and_law : (a b : ℕ) → IsWord a → IsWord b → binary and a b ≡ some (bit_and a b)
  pub or_law : (a b : ℕ) → IsWord a → IsWord b → binary or a b ≡ some (bit_or a b)
  pub xor_law : (a b : ℕ) → IsWord a → IsWord b → binary xor a b ≡ some (bit_xor a b)
  pub shl_law : (a b : ℕ) → IsWord a → b < 32 → binary shl a b ≡ some (a << b)
  pub lshr_law : (a b : ℕ) → IsWord a → b < 32 → binary lshr a b ≡ some (a >> b)
  pub ashr_law : (a b : ℕ) → IsWord a → b < 32 → binary ashr a b ≡ some (sra32 a b)
  pub shl_poison : (a b : ℕ) → 32 ≤ b → binary shl a b ≡ none
  pub lshr_poison : (a b : ℕ) → 32 ≤ b → binary lshr a b ≡ none
  pub ashr_poison : (a b : ℕ) → 32 ≤ b → binary ashr a b ≡ none
  pub eq_law : (a b : ℕ) → IsWord a → IsWord b → icmp eq a b ≡ (a == b)
  pub ne_law : (a b : ℕ) → IsWord a → IsWord b → icmp ne a b ≡ not (a == b)
  pub slt_law : (a b : ℕ) → IsWord a → IsWord b → icmp slt a b ≡ signed_ltb a b
  pub sge_law : (a b : ℕ) → IsWord a → IsWord b → icmp sge a b ≡ not (signed_ltb a b)
  pub ult_law : (a b : ℕ) → IsWord a → IsWord b → icmp ult a b ≡ ltb a b
  pub uge_law : (a b : ℕ) → IsWord a → IsWord b → icmp uge a b ≡ not (ltb a b)
  pub sext_byte : (a : ℕ) → a < 2 ^ 8 → sext 8 a ≡ sext32 8 a
  pub sext_half : (a : ℕ) → a < 2 ^ 16 → sext 16 a ≡ sext32 16 a
  pub zext_bit : (a : ℕ) → a < 2 → zext 1 a ≡ a
  pub zext_byte : (a : ℕ) → a < 2 ^ 8 → zext 8 a ≡ a
  pub zext_half : (a : ℕ) → a < 2 ^ 16 → zext 16 a ≡ a
