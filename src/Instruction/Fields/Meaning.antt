-- ===== src/Instruction/Fields/Meaning.antt =====
-- The masks and shifts of src/Instruction.cpp give the fields of the RV32I formats.
use dbtranslator.Base.{
  ℕ, ◌+◌, ◌*◌, ◌/◌, ◌%◌, ◌^◌, ◌<◌, ◌≤◌, ◌≡◌, sym, ap, ◌∙◌, arith, ◌<<◌, ◌>>◌, ◌&&&◌, ◌|||◌, IsWord,
  sext32, bit_and_mask, and_high_mask, or_fill, bit_test, or_disjoint,
}
use dbtranslator.Instruction.Fields.{
  fill, reg_dest, reg_src1, reg_src2, shamt, upper_immediate, low_immediate, store_offset,
  branch_offset,
}
use dbtranslator.Riscv.Fields.{bits, rd, rs1, rs2, imm_i, imm_s, imm_b, imm_u, imm_j}

pub reg_dest-rd : (w : ℕ) → reg_dest w ≡ rd w
unfolding reg_dest
reg_dest-rd w = bit_and_mask 5 (w >> 7)

pub reg_src1-rs1 : (w : ℕ) → reg_src1 w ≡ rs1 w
unfolding reg_src1
reg_src1-rs1 w = bit_and_mask 5 (w >> 15)

pub reg_src2-rs2 : (w : ℕ) → reg_src2 w ≡ rs2 w
unfolding reg_src2
reg_src2-rs2 w = bit_and_mask 5 (w >> 20)

pub shamt-rs2 : (w : ℕ) → shamt w ≡ rs2 w
unfolding shamt
shamt-rs2 w = bit_and_mask 5 (w >> 20)

pub upper_immediate-imm_u : (w : ℕ) → IsWord w → upper_immediate w ≡ imm_u w
unfolding upper_immediate imm_u
upper_immediate-imm_u w h = omega (arith, and_high_mask 12 w 0xFFFFF, bit_and_mask 20 (w / 2 ^ 12))

-- Filling the bits above the sign bit extends the sign.
fill_low : (v : ℕ) → v < 2 ^ 12 → fill 0x800 0xFFFFF000 v ≡ sext32 12 v
unfolding fill sext32
fill_low v h = ground (arith, bit_test 11 v, or_fill 12 v 0xFFFFF)

fill_branch : (v : ℕ) → v < 2 ^ 13 → fill 0x1000 0xFFFFE000 v ≡ sext32 13 v
unfolding fill sext32
fill_branch v h = ground (arith, bit_test 12 v, or_fill 13 v 0x7FFFF)

pub low_immediate-imm_i : (w : ℕ) → low_immediate w ≡ imm_i w
unfolding low_immediate imm_i
low_immediate-imm_i w = rw (bit_and_mask 12 (w / 2 ^ 20)) (fill_low _ (omega arith))

-- Fields that are shifted to their places and united make a sum.
pub store_offset-imm_s : (w : ℕ) → store_offset w ≡ imm_s w
unfolding store_offset imm_s
store_offset-imm_s w = ap (fill 0x800 0xFFFFF000) united ∙ fill_low _ (omega arith)
  where
    united : (((w >> 25) &&& 0x7F) << 5) ||| ((w >> 7) &&& 0x1F) ≡ bits w 25 7 * 2 ^ 5 + bits w 7 5
    united =
        rw (bit_and_mask 7 (w / 2 ^ 25), bit_and_mask 5 (w / 2 ^ 7))
          (or_disjoint 5 _ _ (omega arith) (omega arith) ∙ (omega arith))

unite_branch :
    (a b c d : ℕ)
    → a < 2
    → b < 2
    → c < 2 ^ 6
    → d < 2 ^ 4
    → (a << 12) ||| (b << 11) ||| (c << 5) ||| (d << 1)
      ≡ a * 2 ^ 12 + b * 2 ^ 11 + c * 2 ^ 5 + d * 2
unite_branch a b c d ha hb hc hd =
    let ab : (a << 12) ||| (b << 11) ≡ a * 2 ^ 12 + b * 2 ^ 11 =
      or_disjoint 12 _ _ (omega arith) (omega arith) ∙ (omega arith) in
    let abc : (a * 2 ^ 12 + b * 2 ^ 11) ||| (c << 5) ≡ a * 2 ^ 12 + b * 2 ^ 11 + c * 2 ^ 5 =
      or_disjoint 11 _ _ (omega arith) (omega arith) ∙ (omega arith) in
    rw (ab, abc) (or_disjoint 5 _ _ (omega arith) (omega arith) ∙ (omega arith))

pub branch_offset-imm_b : (w : ℕ) → branch_offset w ≡ imm_b w
unfolding branch_offset imm_b
branch_offset-imm_b w =
    rw
      (
        bit_and_mask 1 (w / 2 ^ 31),
        bit_and_mask 1 (w / 2 ^ 7),
        bit_and_mask 6 (w / 2 ^ 25),
        bit_and_mask 4 (w / 2 ^ 8),
        unite_branch (bits w 31 1) (bits w 7 1) (bits w 25 6) (bits w 8 4) (omega arith)
            (omega arith) (omega arith) (omega arith),
      )
      (fill_branch _ (omega arith))

pub sext32-IsWord : (k v : ℕ) → 1 ≤ k → v < 2 ^ k → 2 ^ k ≤ 2 ^ 31 → IsWord (sext32 k v)
unfolding sext32
sext32-IsWord k v p h top = ground arith

pub imm_i-IsWord : (w : ℕ) → IsWord (imm_i w)
unfolding imm_i
imm_i-IsWord w = sext32-IsWord 12 _ (omega arith) (omega arith) (omega arith)

pub imm_s-IsWord : (w : ℕ) → IsWord (imm_s w)
unfolding imm_s
imm_s-IsWord w = sext32-IsWord 12 _ (omega arith) (omega arith) (omega arith)

pub imm_b-IsWord : (w : ℕ) → IsWord (imm_b w)
unfolding imm_b
imm_b-IsWord w = sext32-IsWord 13 _ (omega arith) (omega arith) (omega arith)

pub imm_j-IsWord : (w : ℕ) → IsWord (imm_j w)
unfolding imm_j
imm_j-IsWord w = sext32-IsWord 21 _ (omega arith) (omega arith) (omega arith)

pub imm_u-IsWord : (w : ℕ) → IsWord (imm_u w)
unfolding imm_u
imm_u-IsWord w = omega arith

-- The shift amount is the low part of the immediate.
pub imm_i-rs2 : (w : ℕ) → imm_i w % 2 ^ 5 ≡ rs2 w
unfolding imm_i sext32
imm_i-rs2 w = ground arith

-- Of a 32-bit word, the bodies take the three registers, the shift amount and the immediates of the
-- I, S, B and U formats that the manual places in it, sign-extended as it says.
pub fields_correct :
    (w : ℕ)
    → IsWord w
    → (reg_dest w ≡ rd w)
      × (reg_src1 w ≡ rs1 w)
      × (reg_src2 w ≡ rs2 w)
      × (shamt w ≡ imm_i w % 2 ^ 5)
      × (low_immediate w ≡ imm_i w)
      × (store_offset w ≡ imm_s w)
      × (branch_offset w ≡ imm_b w)
      × (upper_immediate w ≡ imm_u w)
fields_correct w fits = (
  reg_dest-rd w,
  reg_src1-rs1 w,
  reg_src2-rs2 w,
  shamt-rs2 w ∙ sym (imm_i-rs2 w),
  low_immediate-imm_i w,
  store_offset-imm_s w,
  branch_offset-imm_b w,
  upper_immediate-imm_u w fits,
)
