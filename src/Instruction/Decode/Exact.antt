-- ===== src/Instruction/Decode/Exact.antt =====
-- What `decode` of src/Instruction.cpp makes of every 32-bit word.
use mathlib.Core.Path.{subst}
use dbtranslator.Base.{ℕ, ◌≡◌, ◌≢◌, refl, sym, ◌∙◌, bit_and_mask, ◌↔◌, ◌>>◌, IsWord}
use dbtranslator.Instruction.Kind.{
  Instr, unknown, sll, slt, sltu, xor, or, and, pause, ecall, ebreak,
}
use dbtranslator.Instruction.Decode.{decode_register, decode_system, dispatch, decode}
use dbtranslator.Instruction.Decode.Complete.{decode_complete, decode-dispatch}
use dbtranslator.Instruction.Decode.Sound.{Accepts, decode-Accepts}

-- What is accepted is decoded.
accepted_decodes : (i : Instr) (w : ℕ) → IsWord w → Accepts i w → decode w ≡ i
unfolding dispatch decode_register decode_system
accepted_decodes sll w h (o, f) = decode-dispatch w o f refl
accepted_decodes slt w h (o, f) = decode-dispatch w o f refl
accepted_decodes sltu w h (o, f) = decode-dispatch w o f refl
accepted_decodes xor w h (o, f) = decode-dispatch w o f refl
accepted_decodes or w h (o, f) = decode-dispatch w o f refl
accepted_decodes and w h (o, f) = decode-dispatch w o f refl
accepted_decodes ecall w h (o, f, z) =
    decode-dispatch w o f refl ∙ rw (bit_and_mask 12 (w >> 20) ∙ z)
accepted_decodes ebreak w h (o, f, z) =
    decode-dispatch w o f refl ∙ rw (bit_and_mask 12 (w >> 20) ∙ z)
accepted_decodes pause w h e = absurd e
accepted_decodes i w h e = decode_complete i w h e (λ same. cc)

-- A 32-bit word is decoded to an instruction other than unknown exactly when that instruction
-- accepts it: when the manual assigns the word to the instruction, but with any `funct7` in the
-- register format where `funct3` is neither 0 nor 5, with any registers in a call of the
-- environment or a breakpoint, and never for pause.
pub decode_exact : (i : Instr) (w : ℕ) → IsWord w → i ≢ unknown → (decode w ≡ i) ↔ Accepts i w
decode_exact i w h known = (
  λ e. subst (λ j. Accepts j w) e (decode-Accepts w h (λ u. known (sym e ∙ u))),
  accepted_decodes i w h,
)
