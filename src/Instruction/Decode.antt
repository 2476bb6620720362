-- ===== src/Instruction/Decode.antt =====
-- src/Instruction.cpp: `decode`, with one function for each inner switch.
pub mod Complete
pub mod Sound
pub mod Exact
pub mod Pause
use dbtranslator.Base.{ℕ, ◌&&◌, ◌>>◌, ◌&&&◌, ◌==◌, if◌then◌else◌}
use dbtranslator.Instruction.Kind.{
  Instr, unknown, lui, auipc, jal, jalr, beq, bne, blt, bge, bltu, bgeu, lb, lh, lw, lbu, lhu, sb,
  sh, sw, addi, slti, sltiu, xori, ori, andi, slli, srli, srai, add, sub, sll, slt, sltu, xor, srl,
  sra, or, and, fence, fencetso, pause, ecall, ebreak,
}

unfoldable pub opcode : ℕ → ℕ
opcode w = w &&& 0x7F

unfoldable pub funct3 : ℕ → ℕ
funct3 w = (w >> 12) &&& 0x7

unfoldable pub funct7 : ℕ → ℕ
funct7 w = (w >> 25) &&& 0x7F

unfoldable pub decode_load : ℕ → Instr
decode_load f3 =
    if f3 == 0x0
    then lb
    else if f3 == 0x1
    then lh
    else if f3 == 0x2
    then lw
    else if f3 == 0x4
    then lbu
    else if f3 == 0x5
    then lhu
    else unknown

-- `high` is `InstructionData >> 25`.
unfoldable pub decode_immediate : ℕ → ℕ → Instr
decode_immediate f3 high =
    if f3 == 0x0
    then addi
    else if f3 == 0x1
    then (if high == 0x00 then slli else unknown)
    else if f3 == 0x2
    then slti
    else if f3 == 0x3
    then sltiu
    else if f3 == 0x4
    then xori
    else if f3 == 0x5
    then (if high == 0x00 then srli else if high == 0x20 then srai else unknown)
    else if f3 == 0x6
    then ori
    else if f3 == 0x7
    then andi
    else unknown

unfoldable pub decode_branch : ℕ → Instr
decode_branch f3 =
    if f3 == 0x0
    then beq
    else if f3 == 0x1
    then bne
    else if f3 == 0x4
    then blt
    else if f3 == 0x5
    then bge
    else if f3 == 0x6
    then bltu
    else if f3 == 0x7
    then bgeu
    else unknown

unfoldable pub decode_store : ℕ → Instr
decode_store f3 =
    if f3 == 0x0 then sb else if f3 == 0x1 then sh else if f3 == 0x2 then sw else unknown

unfoldable pub decode_register : ℕ → ℕ → Instr
decode_register f3 f7 =
    if f3 == 0x0
    then (if f7 == 0x00 then add else if f7 == 0x20 then sub else unknown)
    else if f3 == 0x1
    then sll
    else if f3 == 0x2
    then slt
    else if f3 == 0x3
    then sltu
    else if f3 == 0x4
    then xor
    else if f3 == 0x5
    then (if f7 == 0x00 then srl else if f7 == 0x20 then sra else unknown)
    else if f3 == 0x6
    then or
    else if f3 == 0x7
    then and
    else unknown

unfoldable pub decode_fence : ℕ → ℕ → Instr
decode_fence f3 w =
    let fm = (w >> 28) &&& 0xF in
    let pred = (w >> 24) &&& 0xF in
    let succ = (w >> 20) &&& 0xF in
    if f3 == 0x0
    then (if fm == 0x8 && (pred == 0x3 && succ == 0x3)
        then fencetso
        else if w &&& 0xFFFFF000 == 0x0000100F
        then pause
        else fence)
    else unknown

unfoldable pub decode_system : ℕ → ℕ → Instr
decode_system f3 w =
    let imm12 = (w >> 20) &&& 0xFFF in
    if f3 == 0x0
    then (if imm12 == 0x000 then ecall else if imm12 == 0x001 then ebreak else unknown)
    else unknown

-- The outer switch.
unfoldable pub dispatch : ℕ → ℕ → ℕ → ℕ → Instr
dispatch op f3 f7 w =
    if op == 0x37
    then lui
    else if op == 0x17
    then auipc
    else if op == 0x6F
    then jal
    else if op == 0x67
    then (if f3 == 0x0 then jalr else unknown)
    else if op == 0x03
    then decode_load f3
    else if op == 0x13
    then decode_immediate f3 (w >> 25)
    else if op == 0x63
    then decode_branch f3
    else if op == 0x23
    then decode_store f3
    else if op == 0x33
    then decode_register f3 f7
    else if op == 0x0F
    then decode_fence f3 w
    else if op == 0x73
    then decode_system f3 w
    else unknown

unfoldable pub decode : ℕ → Instr
decode w = dispatch (opcode w) (funct3 w) (funct7 w) w
