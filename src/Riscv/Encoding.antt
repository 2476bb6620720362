-- ===== src/Riscv/Encoding.antt =====
-- The encodings of RV32I: opcode, and the function fields that an instruction fixes.
use dbtranslator.Base.{ℕ, ◌≡◌, ◌≢◌}
use dbtranslator.Instruction.Kind.{
  Instr, unknown, lui, auipc, jal, jalr, beq, bne, blt, bge, bltu, bgeu, lb, lh, lw, lbu, lhu, sb,
  sh, sw, addi, slti, sltiu, xori, ori, andi, slli, srli, srai, add, sub, sll, slt, sltu, xor, srl,
  sra, or, and, fence, fencetso, pause, ecall, ebreak,
}
use dbtranslator.Riscv.Fields.{bits}

-- The fields that stand in every format at the same place.
abbrev pub op : ℕ → ℕ
op w = bits w 0 7

abbrev pub f3 : ℕ → ℕ
f3 w = bits w 12 3

abbrev pub f7 : ℕ → ℕ
f7 w = bits w 25 7

-- `w` is a word of the instruction.
abbrev pub Encodes : Instr → ℕ → Type 0
Encodes lui w = op w ≡ 0b0110111
Encodes auipc w = op w ≡ 0b0010111
Encodes jal w = op w ≡ 0b1101111
Encodes jalr w = (op w ≡ 0b1100111) × (f3 w ≡ 0b000)
Encodes beq w = (op w ≡ 0b1100011) × (f3 w ≡ 0b000)
Encodes bne w = (op w ≡ 0b1100011) × (f3 w ≡ 0b001)
Encodes blt w = (op w ≡ 0b1100011) × (f3 w ≡ 0b100)
Encodes bge w = (op w ≡ 0b1100011) × (f3 w ≡ 0b101)
Encodes bltu w = (op w ≡ 0b1100011) × (f3 w ≡ 0b110)
Encodes bgeu w = (op w ≡ 0b1100011) × (f3 w ≡ 0b111)
Encodes lb w = (op w ≡ 0b0000011) × (f3 w ≡ 0b000)
Encodes lh w = (op w ≡ 0b0000011) × (f3 w ≡ 0b001)
Encodes lw w = (op w ≡ 0b0000011) × (f3 w ≡ 0b010)
Encodes lbu w = (op w ≡ 0b0000011) × (f3 w ≡ 0b100)
Encodes lhu w = (op w ≡ 0b0000011) × (f3 w ≡ 0b101)
Encodes sb w = (op w ≡ 0b0100011) × (f3 w ≡ 0b000)
Encodes sh w = (op w ≡ 0b0100011) × (f3 w ≡ 0b001)
Encodes sw w = (op w ≡ 0b0100011) × (f3 w ≡ 0b010)
Encodes addi w = (op w ≡ 0b0010011) × (f3 w ≡ 0b000)
Encodes slti w = (op w ≡ 0b0010011) × (f3 w ≡ 0b010)
Encodes sltiu w = (op w ≡ 0b0010011) × (f3 w ≡ 0b011)
Encodes xori w = (op w ≡ 0b0010011) × (f3 w ≡ 0b100)
Encodes ori w = (op w ≡ 0b0010011) × (f3 w ≡ 0b110)
Encodes andi w = (op w ≡ 0b0010011) × (f3 w ≡ 0b111)
Encodes slli w = (op w ≡ 0b0010011) × (f3 w ≡ 0b001) × (f7 w ≡ 0b0000000)
Encodes srli w = (op w ≡ 0b0010011) × (f3 w ≡ 0b101) × (f7 w ≡ 0b0000000)
Encodes srai w = (op w ≡ 0b0010011) × (f3 w ≡ 0b101) × (f7 w ≡ 0b0100000)
Encodes add w = (op w ≡ 0b0110011) × (f3 w ≡ 0b000) × (f7 w ≡ 0b0000000)
Encodes sub w = (op w ≡ 0b0110011) × (f3 w ≡ 0b000) × (f7 w ≡ 0b0100000)
Encodes sll w = (op w ≡ 0b0110011) × (f3 w ≡ 0b001) × (f7 w ≡ 0b0000000)
Encodes slt w = (op w ≡ 0b0110011) × (f3 w ≡ 0b010) × (f7 w ≡ 0b0000000)
Encodes sltu w = (op w ≡ 0b0110011) × (f3 w ≡ 0b011) × (f7 w ≡ 0b0000000)
Encodes xor w = (op w ≡ 0b0110011) × (f3 w ≡ 0b100) × (f7 w ≡ 0b0000000)
Encodes srl w = (op w ≡ 0b0110011) × (f3 w ≡ 0b101) × (f7 w ≡ 0b0000000)
Encodes sra w = (op w ≡ 0b0110011) × (f3 w ≡ 0b101) × (f7 w ≡ 0b0100000)
Encodes or w = (op w ≡ 0b0110011) × (f3 w ≡ 0b110) × (f7 w ≡ 0b0000000)
Encodes and w = (op w ≡ 0b0110011) × (f3 w ≡ 0b111) × (f7 w ≡ 0b0000000)
Encodes fence w = (op w ≡ 0b0001111) × (f3 w ≡ 0b000) × (bits w 20 12 ≢ 0x833)
Encodes fencetso w = (op w ≡ 0b0001111) × (f3 w ≡ 0b000) × (bits w 20 12 ≡ 0x833)
Encodes pause w = w ≡ 0x0100000F
Encodes ecall w = w ≡ 0x00000073
Encodes ebreak w = w ≡ 0x00100073
Encodes unknown w = ⊥
