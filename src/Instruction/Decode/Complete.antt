-- ===== src/Instruction/Decode/Complete.antt =====
-- `decode` of src/Instruction.cpp knows every encoding of the base instruction set, but for `pause`.
use dbtranslator.Base.{
  ℕ, ◌/◌, ◌^◌, ◌≡◌, ◌≢◌, refl, ap, ◌∙◌, arith, ◌>>◌, ◌==◌, if◌then◌else◌, IsWord, bit_and_mask,
  and_high_mask,
}
use dbtranslator.Instruction.Kind.{
  Instr, unknown, lui, auipc, jal, jalr, beq, bne, blt, bge, bltu, bgeu, lb, lh, lw, lbu, lhu, sb,
  sh, sw, addi, slti, sltiu, xori, ori, andi, slli, srli, srai, add, sub, sll, slt, sltu, xor, srl,
  sra, or, and, fence, fencetso, pause, ecall, ebreak,
}
use dbtranslator.Instruction.Decode.{
  opcode, funct3, funct7, decode_load, decode_immediate, decode_branch, decode_store,
  decode_register, decode_fence, decode_system, dispatch, decode,
}
use dbtranslator.Riscv.Fields.{bits}
use dbtranslator.Riscv.Encoding.{op, f3, f7, Encodes}

pub opcode-op : (w : ℕ) → opcode w ≡ op w
unfolding opcode
opcode-op w = bit_and_mask 7 w ∙ (omega arith)

pub funct3-f3 : (w : ℕ) → funct3 w ≡ f3 w
unfolding funct3
funct3-f3 w = bit_and_mask 3 (w / 2 ^ 12)

pub funct7-f7 : (w : ℕ) → funct7 w ≡ f7 w
unfolding funct7
funct7-f7 w = bit_and_mask 7 (w / 2 ^ 25)

-- The three fields that the switches test.
pub decode-dispatch :
    (w : ℕ) {o f g : ℕ} → op w ≡ o → f3 w ≡ f → f7 w ≡ g → decode w ≡ dispatch o f g w
unfolding decode
decode-dispatch w p q r = rw (opcode-op w, funct3-f3 w, funct7-f7 w, p, q, r)

-- Of the fences `decode` tells the total-store-order fence by its fields; the test for `pause`
-- compares a word whose low twelve bits are clear with one whose low bits are not.
pub decode_fence_lem :
    (w : ℕ) → decode_fence 0 w ≡ (if bits w 20 12 == 0x833 then fencetso else fence)
unfolding decode_fence
decode_fence_lem w = ground (
  arith,
  bit_and_mask 4 (w / 2 ^ 28),
  bit_and_mask 4 (w / 2 ^ 24),
  bit_and_mask 4 (w / 2 ^ 20),
  and_high_mask 12 w 0xFFFFF,
)

pub high-f7 : (w : ℕ) → IsWord w → w >> 25 ≡ f7 w
high-f7 w h = omega arith

at_ecall : decode 0x73 ≡ ecall
unfolding decode dispatch opcode funct3 funct7 decode_system
at_ecall = refl

at_ebreak : decode 0x100073 ≡ ebreak
unfolding decode dispatch opcode funct3 funct7 decode_system
at_ebreak = refl

-- The 32-bit words that the manual assigns to an instruction other than `pause` are decoded to it.
pub decode_complete : (i : Instr) (w : ℕ) → IsWord w → Encodes i w → i ≢ pause → decode w ≡ i
unfolding dispatch decode_load decode_immediate decode_branch decode_store decode_register
    decode_system
decode_complete unknown w h e np = absurd e
decode_complete lui w h e np = decode-dispatch w e refl refl
decode_complete auipc w h e np = decode-dispatch w e refl refl
decode_complete jal w h e np = decode-dispatch w e refl refl
decode_complete jalr w h (o, f) np = decode-dispatch w o f refl
decode_complete beq w h (o, f) np = decode-dispatch w o f refl
decode_complete bne w h (o, f) np = decode-dispatch w o f refl
decode_complete blt w h (o, f) np = decode-dispatch w o f refl
decode_complete bge w h (o, f) np = decode-dispatch w o f refl
decode_complete bltu w h (o, f) np = decode-dispatch w o f refl
decode_complete bgeu w h (o, f) np = decode-dispatch w o f refl
decode_complete lb w h (o, f) np = decode-dispatch w o f refl
decode_complete lh w h (o, f) np = decode-dispatch w o f refl
decode_complete lw w h (o, f) np = decode-dispatch w o f refl
decode_complete lbu w h (o, f) np = decode-dispatch w o f refl
decode_complete lhu w h (o, f) np = decode-dispatch w o f refl
decode_complete sb w h (o, f) np = decode-dispatch w o f refl
decode_complete sh w h (o, f) np = decode-dispatch w o f refl
decode_complete sw w h (o, f) np = decode-dispatch w o f refl
decode_complete addi w h (o, f) np = decode-dispatch w o f refl
decode_complete slti w h (o, f) np = decode-dispatch w o f refl
decode_complete sltiu w h (o, f) np = decode-dispatch w o f refl
decode_complete xori w h (o, f) np = decode-dispatch w o f refl
decode_complete ori w h (o, f) np = decode-dispatch w o f refl
decode_complete andi w h (o, f) np = decode-dispatch w o f refl
decode_complete slli w h (o, f, g) np = decode-dispatch w o f refl ∙ rw (high-f7 w h, g)
decode_complete srli w h (o, f, g) np = decode-dispatch w o f refl ∙ rw (high-f7 w h, g)
decode_complete srai w h (o, f, g) np = decode-dispatch w o f refl ∙ rw (high-f7 w h, g)
decode_complete add w h (o, f, g) np = decode-dispatch w o f g
decode_complete sub w h (o, f, g) np = decode-dispatch w o f g
decode_complete sll w h (o, f, g) np = decode-dispatch w o f g
decode_complete slt w h (o, f, g) np = decode-dispatch w o f g
decode_complete sltu w h (o, f, g) np = decode-dispatch w o f g
decode_complete xor w h (o, f, g) np = decode-dispatch w o f g
decode_complete srl w h (o, f, g) np = decode-dispatch w o f g
decode_complete sra w h (o, f, g) np = decode-dispatch w o f g
decode_complete or w h (o, f, g) np = decode-dispatch w o f g
decode_complete and w h (o, f, g) np = decode-dispatch w o f g
decode_complete fence w h (o, f, g) np =
    decode-dispatch w o f refl ∙ decode_fence_lem w ∙ (ground arith)
decode_complete fencetso w h (o, f, g) np =
    decode-dispatch w o f refl ∙ decode_fence_lem w ∙ (ground arith)
decode_complete pause w h e np = absurd (np refl)
decode_complete ecall w h e np = ap decode e ∙ at_ecall
decode_complete ebreak w h e np = ap decode e ∙ at_ebreak
