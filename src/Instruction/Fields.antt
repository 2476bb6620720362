-- ===== src/Instruction/Fields.antt =====
-- The fields of an instruction word, as the bodies of src/Instruction.cpp take them out.
pub mod Meaning
pub mod Jump
use dbtranslator.Base.{ℕ, ◌<<◌, ◌>>◌, ◌&&&◌, ◌|||◌, ◌==◌, if◌then◌else◌}

-- `if (Offset & Test) Offset |= Fill;`
unfoldable pub fill : ℕ → ℕ → ℕ → ℕ
fill test high offset = if offset &&& test == 0 then offset else offset ||| high

unfoldable pub reg_dest : ℕ → ℕ
reg_dest w = (w >> 7) &&& 0x1F

unfoldable pub reg_src1 : ℕ → ℕ
reg_src1 w = (w >> 15) &&& 0x1F

unfoldable pub reg_src2 : ℕ → ℕ
reg_src2 w = (w >> 20) &&& 0x1F

unfoldable pub shamt : ℕ → ℕ
shamt w = (w >> 20) &&& 0x1F

unfoldable pub upper_immediate : ℕ → ℕ
upper_immediate w = w &&& 0xFFFFF000

-- of jalr, the loads and the operations with an immediate
unfoldable pub low_immediate : ℕ → ℕ
low_immediate w = fill 0x800 0xFFFFF000 ((w >> 20) &&& 0xFFF)

unfoldable pub store_offset : ℕ → ℕ
store_offset w = fill 0x800 0xFFFFF000 ((((w >> 25) &&& 0x7F) << 5) ||| ((w >> 7) &&& 0x1F))

unfoldable pub branch_offset : ℕ → ℕ
branch_offset w = fill 0x1000 0xFFFFE000 (
    (((w >> 31) &&& 0x1) << 12)
    ||| (((w >> 7) &&& 0x1) << 11)
    ||| (((w >> 25) &&& 0x3F) << 5)
    ||| (((w >> 8) &&& 0xF) << 1))

-- The test is of bit 19, as in the source.
unfoldable pub jump_offset : ℕ → ℕ
jump_offset w = fill 0x80000 0xFFF00000 (
    (((w >> 31) &&& 0x1) << 20)
    ||| (((w >> 12) &&& 0xFF) << 12)
    ||| (((w >> 20) &&& 0x1) << 11)
    ||| (((w >> 21) &&& 0x3FF) << 1))
