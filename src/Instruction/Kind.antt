-- ===== src/Instruction/Kind.antt =====
-- include/dbtranslator/Instruction.h: `Instr`; src/Instruction.cpp: `InstrToLiteral`.
use Prim.Native.String.{String}

pub data Instr : Type 0 where
  unknown lui auipc jal jalr beq bne blt bge bltu bgeu lb lh lw lbu lhu sb sh sw : Instr
  addi slti sltiu xori ori andi slli srli srai : Instr
  add sub sll slt sltu xor srl sra or and fence fencetso pause ecall ebreak : Instr

unfoldable pub instr_to_literal : Instr → String
instr_to_literal unknown = "UNKNOWN"
instr_to_literal lui = "LUI"
instr_to_literal auipc = "AUIPC"
instr_to_literal jal = "JAL"
instr_to_literal jalr = "JALR"
instr_to_literal beq = "BEQ"
instr_to_literal bne = "BNE"
instr_to_literal blt = "BLT"
instr_to_literal bge = "BGE"
instr_to_literal bltu = "BLTU"
instr_to_literal bgeu = "BGEU"
instr_to_literal lb = "LB"
instr_to_literal lh = "LH"
instr_to_literal lw = "LW"
instr_to_literal lbu = "LBU"
instr_to_literal lhu = "LHU"
instr_to_literal sb = "SB"
instr_to_literal sh = "SH"
instr_to_literal sw = "SW"
instr_to_literal addi = "ADDI"
instr_to_literal slti = "SLTI"
instr_to_literal sltiu = "SLTIU"
instr_to_literal xori = "XORI"
instr_to_literal ori = "ORI"
instr_to_literal andi = "ANDI"
instr_to_literal slli = "SLLI"
instr_to_literal srli = "SRLI"
instr_to_literal srai = "SRAI"
instr_to_literal add = "ADD"
instr_to_literal sub = "SUB"
instr_to_literal sll = "SLL"
instr_to_literal slt = "SLT"
instr_to_literal sltu = "SLTU"
instr_to_literal xor = "XOR"
instr_to_literal srl = "SRL"
instr_to_literal sra = "SRA"
instr_to_literal or = "OR"
instr_to_literal and = "AND"
instr_to_literal fence = "FENCE"
instr_to_literal fencetso = "FENCE.TSO"
instr_to_literal pause = "PAUSE"
instr_to_literal ecall = "ECALL"
instr_to_literal ebreak = "EBREAK"
