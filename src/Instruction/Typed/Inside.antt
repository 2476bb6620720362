-- ===== src/Instruction/Typed/Inside.antt =====
-- src/Instruction.cpp: the register numbers that the bodies take out of a word lie in the register
-- array.
use dbtranslator.Base.{ℕ, ◌<◌, ◌≡◌, true, ltb, lt→ltb, arith}
use dbtranslator.Instruction.Fields.{reg_dest, reg_src1, reg_src2}
use dbtranslator.Instruction.Fields.Meaning.{reg_dest-rd, reg_src1-rs1, reg_src2-rs2}

pub dest_inside : (w : ℕ) → ltb (reg_dest w) 32 ≡ true
dest_inside w = rw (reg_dest-rd w) (lt→ltb _ 32 (omega arith))

pub src1_inside : (w : ℕ) → ltb (reg_src1 w) 32 ≡ true
src1_inside w = rw (reg_src1-rs1 w) (lt→ltb _ 32 (omega arith))

pub src2_inside : (w : ℕ) → ltb (reg_src2 w) 32 ≡ true
src2_inside w = rw (reg_src2-rs2 w) (lt→ltb _ 32 (omega arith))

pub register_inside : (d : (i : ℕ) × (i < 32)) → ltb d.0 32 ≡ true
register_inside d = lt→ltb d.0 32 d.1

pub ruleset inside = (dest_inside, src1_inside, src2_inside, register_inside)
