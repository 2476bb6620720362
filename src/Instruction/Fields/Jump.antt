-- ===== src/Instruction/Fields/Jump.antt =====
-- The offset that the body of jal in src/Instruction.cpp takes out of a word.
use Prim.Native.Nat.{bit_or}
use dbtranslator.Base.{
  ℕ, zero, suc, ◌+◌, ◌-◌, ◌*◌, ◌/◌, ◌%◌, ◌^◌, ◌<◌, ◌≡◌, refl, sym, ◌∙◌, ◌↔◌, arith, ◌<<◌, ◌|||◌,
  ◌==◌, if◌then◌else◌, IsWord, sext32, bit_and_mask, or_high_mask, bit_test, or_disjoint,
}
use dbtranslator.Instruction.Fields.{fill, jump_offset}
use dbtranslator.Riscv.Fields.{bits, imm_j}

unite_jump :
    (a b c d : ℕ)
    → a < 2
    → b < 2 ^ 8
    → c < 2
    → d < 2 ^ 10
    → (a << 20) ||| (b << 12) ||| (c << 11) ||| (d << 1)
      ≡ a * 2 ^ 20 + b * 2 ^ 12 + c * 2 ^ 11 + d * 2
unite_jump a b c d ha hb hc hd =
    let ab : (a << 20) ||| (b << 12) ≡ a * 2 ^ 20 + b * 2 ^ 12 =
      or_disjoint 20 _ _ (omega arith) (omega arith) ∙ (omega arith) in
    let abc : (a * 2 ^ 20 + b * 2 ^ 12) ||| (c << 11) ≡ a * 2 ^ 20 + b * 2 ^ 12 + c * 2 ^ 11 =
      or_disjoint 12 _ _ (omega arith) (omega arith) ∙ (omega arith) in
    rw (ab, abc) (or_disjoint 11 _ _ (omega arith) (omega arith) ∙ (omega arith))

or_top : (q : ℕ) → q < 2 → bit_or q 0xFFF ≡ 0xFFF
or_top zero h = refl
or_top (suc zero) h = refl
or_top (suc (suc q)) h = absurd (omega arith)

-- Bit 19 of the offset decides the filling, and bit 20 is lost in it.
fill_jump :
    (v : ℕ)
    → v < 2 ^ 21
    → fill 0x80000 0xFFF00000 v
      ≡ (if v / 2 ^ 19 % 2 == 0 then v else v % 2 ^ 20 + (2 ^ 32 - 2 ^ 20))
unfolding fill
fill_jump v h = ground (arith, bit_test 19 v, or_high_mask 20 v 0xFFF, or_top (v / 2 ^ 20))

jump_bits : ℕ → ℕ
jump_bits w = bits w 31 1 * 2 ^ 20 + bits w 12 8 * 2 ^ 12 + bits w 20 1 * 2 ^ 11 + bits w 21 10 * 2

jump_offset_lem : (w : ℕ) → jump_offset w ≡ fill 0x80000 0xFFF00000 (jump_bits w)
unfolding jump_offset jump_bits
jump_offset_lem w = rw (
  bit_and_mask 1 (w / 2 ^ 31),
  bit_and_mask 8 (w / 2 ^ 12),
  bit_and_mask 1 (w / 2 ^ 20),
  bit_and_mask 10 (w / 2 ^ 21),
  unite_jump (bits w 31 1) (bits w 12 8) (bits w 20 1) (bits w 21 10) (omega arith) (omega arith)
      (omega arith) (omega arith),
)

jump_bits-bits :
    (w : ℕ)
    → (jump_bits w < 2 ^ 21)
      × (jump_bits w / 2 ^ 19 % 2 ≡ bits w 19 1)
      × (jump_bits w / 2 ^ 20 ≡ bits w 31 1)
unfolding jump_bits
jump_bits-bits w = (omega arith, omega arith, omega arith)

fill_jump-sext32 :
    (v : ℕ) → v < 2 ^ 21 → (fill 0x80000 0xFFF00000 v ≡ sext32 21 v) ↔ (v / 2 ^ 19 % 2 ≡ v / 2 ^ 20)
unfolding sext32
fill_jump-sext32 v h = (λ e. ground (arith, fill_jump v h), λ e. ground (arith, fill_jump v h))

-- The jump offset is the immediate of the format exactly when bits 19 and 31 of the word, which
-- are bits 19 and 20 of the offset, agree.
pub jump_offset-imm_j_iff : (w : ℕ) → (jump_offset w ≡ imm_j w) ↔ (bits w 19 1 ≡ bits w 31 1)
unfolding imm_j jump_bits
jump_offset-imm_j_iff w =
    let (small, b19, b20) = jump_bits-bits w in
    let same = fill_jump-sext32 (jump_bits w) small in
    (
      λ e. sym b19 ∙ same.0 (sym (jump_offset_lem w) ∙ e) ∙ b20,
      λ e. jump_offset_lem w ∙ same.1 (b19 ∙ e ∙ sym b20),
    )

-- What jal takes for its offset: of the immediate's 21 bits, those from bit 20 up are replaced by
-- copies of bit 19 where that is set.
abbrev pub near_offset : ℕ → ℕ
near_offset w =
    let v = imm_j w % 2 ^ 21 in if bits w 19 1 == 0 then v else v % 2 ^ 20 + (2 ^ 32 - 2 ^ 20)

imm_j-jump_bits : (w : ℕ) → imm_j w % 2 ^ 21 ≡ jump_bits w
unfolding imm_j jump_bits sext32
imm_j-jump_bits w = ground arith

pub jump_offset-near : (w : ℕ) → jump_offset w ≡ near_offset w
jump_offset-near w =
    let (small, b19, b20) = jump_bits-bits w in
    jump_offset_lem w ∙ fill_jump (jump_bits w) small ∙ rw (b19, imm_j-jump_bits w)

pub near_offset-IsWord : (w : ℕ) → IsWord (near_offset w)
near_offset-IsWord w = ground arith
