-- ===== src/Riscv/Fields.antt =====
-- The fields of an RV32I instruction word by their bit positions; immediates are 32-bit patterns.
use dbtranslator.Base.{ℕ, ◌+◌, ◌*◌, ◌/◌, ◌%◌, ◌^◌, sext32}

-- The `width` bits from bit `lo` up, as a number.
abbrev pub bits : ℕ → ℕ → ℕ → ℕ
bits w lo width = w / 2 ^ lo % 2 ^ width

abbrev pub rd : ℕ → ℕ
rd w = bits w 7 5

abbrev pub rs1 : ℕ → ℕ
rs1 w = bits w 15 5

abbrev pub rs2 : ℕ → ℕ
rs2 w = bits w 20 5

unfoldable pub imm_i : ℕ → ℕ
imm_i w = sext32 12 (bits w 20 12)

unfoldable pub imm_s : ℕ → ℕ
imm_s w = sext32 12 (bits w 25 7 * 2 ^ 5 + bits w 7 5)

unfoldable pub imm_b : ℕ → ℕ
imm_b w =
    sext32 13 (bits w 31 1 * 2 ^ 12 + bits w 7 1 * 2 ^ 11 + bits w 25 6 * 2 ^ 5 + bits w 8 4 * 2)

unfoldable pub imm_u : ℕ → ℕ
imm_u w = bits w 12 20 * 2 ^ 12

unfoldable pub imm_j : ℕ → ℕ
imm_j w =
    sext32 21
      (bits w 31 1 * 2 ^ 20 + bits w 12 8 * 2 ^ 12 + bits w 20 1 * 2 ^ 11 + bits w 21 10 * 2)
