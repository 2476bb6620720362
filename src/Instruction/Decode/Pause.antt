-- ===== src/Instruction/Decode/Pause.antt =====
-- `decode` of src/Instruction.cpp never gives `pause`.
use dbtranslator.Base.{ℕ, ◌≢◌, Bool, true, false, arith, ◌>>◌, ◌==◌, if◌then◌else◌, and_high_mask}
use dbtranslator.Instruction.Kind.{Instr, pause}
use dbtranslator.Instruction.Decode.{
  decode_load, decode_immediate, decode_branch, decode_store, decode_register, decode_fence,
  decode_system, dispatch, decode, opcode, funct3, funct7,
}

load-ne : (f : ℕ) → decode_load f ≢ pause
unfolding decode_load
load-ne f e = ground arith

immediate-ne : (f h : ℕ) → decode_immediate f h ≢ pause
unfolding decode_immediate
immediate-ne f h e = ground arith

branch-ne : (f : ℕ) → decode_branch f ≢ pause
unfolding decode_branch
branch-ne f e = ground arith

store-ne : (f : ℕ) → decode_store f ≢ pause
unfolding decode_store
store-ne f e = ground arith

register-ne : (f g : ℕ) → decode_register f g ≢ pause
unfolding decode_register
register-ne f g e = ground arith

fence-ne : (f w : ℕ) → decode_fence f w ≢ pause
unfolding decode_fence
fence-ne f w e = ground (arith, and_high_mask 12 w 0xFFFFF)

system-ne : (f w : ℕ) → decode_system f w ≢ pause
unfolding decode_system
system-ne f w e = ground arith

record IsOther (i : Instr) : Type 0 where
  ne : i ≢ pause

other : {i : Instr} → i ≢ pause → IsOther i
other n = record { ne = n }

split : (b : Bool) {i j : Instr} → IsOther i → IsOther j → IsOther (if b then i else j)
split true p q = p
split false p q = q

decode-IsOther : (w : ℕ) → IsOther (decode w)
unfolding decode dispatch
decode-IsOther w = split (opcode w == 0x37) (other (λ e. cc)) (
    split (opcode w == 0x17) (other (λ e. cc)) (
      split (opcode w == 0x6F) (other (λ e. cc)) (
        split (opcode w == 0x67) (split (funct3 w == 0) (other (λ e. cc)) (other (λ e. cc))) (
          split (opcode w == 0x03) (other (load-ne (funct3 w))) (
            split (opcode w == 0x13) (other (immediate-ne (funct3 w) (w >> 25))) (
              split (opcode w == 0x63) (other (branch-ne (funct3 w))) (
                split (opcode w == 0x23) (other (store-ne (funct3 w))) (
                  split (opcode w == 0x33) (other (register-ne (funct3 w) (funct7 w))) (
                    split (opcode w == 0x0F) (other (fence-ne (funct3 w) w)) (
                      split (opcode w == 0x73) (other (system-ne (funct3 w) w))
                        (other (λ e. cc))))))))))))

-- No word is decoded to `pause`.
decode-ne-pause : (w : ℕ) → decode w ≢ pause
decode-ne-pause w = (decode-IsOther w).ne
