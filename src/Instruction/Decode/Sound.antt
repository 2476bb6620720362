-- ===== src/Instruction/Decode/Sound.antt =====
-- What `decode` of src/Instruction.cpp accepts.
use native.Mathlib.Decide.{ℕ_discrete}
use dbtranslator.Base.{
  inl, inr, Bool-cases, ==_iff, ℕ, ◌≡◌, ◌≢◌, refl, sym, ◌∙◌, bit_and_mask, arith, ◌>>◌, ◌&&&◌, ◌==◌,
  if◌then◌else◌, IsWord,
}
use dbtranslator.Instruction.Kind.{
  Instr, unknown, sll, slt, sltu, xor, or, and, fence, fencetso, pause, ecall, ebreak,
}
use dbtranslator.Instruction.Decode.{
  decode_load, decode_immediate, decode_branch, decode_store, decode_register, decode_fence,
  decode_system, dispatch, decode,
}
use dbtranslator.Instruction.Decode.Complete.{decode-dispatch, decode_fence_lem, high-f7}
use dbtranslator.Riscv.Fields.{bits}
use dbtranslator.Riscv.Encoding.{op, f3, f7, Encodes}

-- The words that `decode` takes for an instruction: those that the manual assigns to it, but with any
-- `funct7` in the register format where `funct3` is neither 0 nor 5, with any registers in a call of
-- the environment or a breakpoint, and none for pause.
abbrev pub Accepts : Instr → ℕ → Type 0
Accepts sll w = (op w ≡ 0b0110011) × (f3 w ≡ 0b001)
Accepts slt w = (op w ≡ 0b0110011) × (f3 w ≡ 0b010)
Accepts sltu w = (op w ≡ 0b0110011) × (f3 w ≡ 0b011)
Accepts xor w = (op w ≡ 0b0110011) × (f3 w ≡ 0b100)
Accepts or w = (op w ≡ 0b0110011) × (f3 w ≡ 0b110)
Accepts and w = (op w ≡ 0b0110011) × (f3 w ≡ 0b111)
Accepts ecall w = (op w ≡ 0b1110011) × (f3 w ≡ 0b000) × (bits w 20 12 ≡ 0)
Accepts ebreak w = (op w ≡ 0b1110011) × (f3 w ≡ 0b000) × (bits w 20 12 ≡ 1)
Accepts pause w = ⊥
Accepts i w = Encodes i w

record IsSound (w : ℕ) (i : Instr) : Type 0 where
  accepts : i ≢ unknown → Accepts i w

holds : {w : ℕ} {i : Instr} → Accepts i w → IsSound w i
holds e = record { accepts = λ ne. e }

none_of : {w : ℕ} → IsSound w unknown
none_of = record { accepts = λ ne. absurd (ne refl) }

-- One case of a switch on `a`.
case :
    (w a k : ℕ) {yes_i no_i : Instr}
    → (a ≡ k → IsSound w yes_i)
    → IsSound w no_i
    → IsSound w (if a == k then yes_i else no_i)
case w a k hit miss = elim (Bool-cases (a == k)) [
  | inl e ↦ rw e (hit ((==_iff a k).0 e))
  | inr e ↦ rw e miss
]

load-IsSound : (w : ℕ) → op w ≡ 0x03 → IsSound w (decode_load (f3 w))
unfolding decode_load
load-IsSound w o =
    case w (f3 w) 0 (λ e. holds (o, e))
      (case w (f3 w) 1 (λ e. holds (o, e))
        (case w (f3 w) 2 (λ e. holds (o, e))
          (case w (f3 w) 4 (λ e. holds (o, e)) (case w (f3 w) 5 (λ e. holds (o, e)) none_of))))

branch-IsSound : (w : ℕ) → op w ≡ 0x63 → IsSound w (decode_branch (f3 w))
unfolding decode_branch
branch-IsSound w o =
    case w (f3 w) 0 (λ e. holds (o, e))
      (case w (f3 w) 1 (λ e. holds (o, e))
        (case w (f3 w) 4 (λ e. holds (o, e))
          (case w (f3 w) 5 (λ e. holds (o, e))
            (case w (f3 w) 6 (λ e. holds (o, e)) (case w (f3 w) 7 (λ e. holds (o, e)) none_of)))))

store-IsSound : (w : ℕ) → op w ≡ 0x23 → IsSound w (decode_store (f3 w))
unfolding decode_store
store-IsSound w o =
    case w (f3 w) 0 (λ e. holds (o, e))
      (case w (f3 w) 1 (λ e. holds (o, e)) (case w (f3 w) 2 (λ e. holds (o, e)) none_of))

immediate-IsSound : (w : ℕ) → op w ≡ 0x13 → IsSound w (decode_immediate (f3 w) (f7 w))
unfolding decode_immediate
immediate-IsSound w o =
    case w (f3 w) 0 (λ e. holds (o, e))
      (case w (f3 w) 1 (λ e. case w (f7 w) 0 (λ g. holds (o, e, g)) none_of)
        (case w (f3 w) 2 (λ e. holds (o, e))
          (case w (f3 w) 3 (λ e. holds (o, e))
            (case w (f3 w) 4 (λ e. holds (o, e))
              (case w (f3 w) 5
                (λ e.
                  case w (f7 w) 0 (λ g. holds (o, e, g))
                    (case w (f7 w) 0x20 (λ g. holds (o, e, g)) none_of))
                (case w (f3 w) 6 (λ e. holds (o, e))
                  (case w (f3 w) 7 (λ e. holds (o, e)) none_of)))))))

register-IsSound : (w : ℕ) → op w ≡ 0x33 → IsSound w (decode_register (f3 w) (f7 w))
unfolding decode_register
register-IsSound w o =
    case w (f3 w) 0
      (λ e.
        case w (f7 w) 0 (λ g. holds (o, e, g)) (case w (f7 w) 0x20 (λ g. holds (o, e, g)) none_of))
      (case w (f3 w) 1 (λ e. holds (o, e))
        (case w (f3 w) 2 (λ e. holds (o, e))
          (case w (f3 w) 3 (λ e. holds (o, e))
            (case w (f3 w) 4 (λ e. holds (o, e))
              (case w (f3 w) 5
                (λ e.
                  case w (f7 w) 0 (λ g. holds (o, e, g))
                    (case w (f7 w) 0x20 (λ g. holds (o, e, g)) none_of))
                (case w (f3 w) 6 (λ e. holds (o, e))
                  (case w (f3 w) 7 (λ e. holds (o, e)) none_of)))))))

fence-IsSound : (w : ℕ) → op w ≡ 0x0F → IsSound w (decode_fence (f3 w) w)
fence-IsSound w o = elim (ℕ_discrete (f3 w) 0) [
  | yes e ↦ rw (e, decode_fence_lem w) (tso e)
  | no other ↦ rw (not_zero other) none_of
]
  where
    tso : f3 w ≡ 0 → IsSound w (if bits w 20 12 == 0x833 then fencetso else fence)
    tso e = elim (Bool-cases (bits w 20 12 == 0x833)) [
      | inl same ↦ rw same (holds (o, e, (==_iff _ _).0 same))
      | inr other ↦ rw other (holds (o, e, ground arith))
    ]

    not_zero : f3 w ≢ 0 → decode_fence (f3 w) w ≡ unknown
    not_zero other = unfold decode_fence in ground arith

system-IsSound : (w : ℕ) → op w ≡ 0x73 → IsSound w (decode_system (f3 w) w)
unfolding decode_system
system-IsSound w o =
    let imm12 = bit_and_mask 12 (w >> 20) in
    case w (f3 w) 0
      (λ e.
        case w ((w >> 20) &&& 0xFFF) 0 (λ z. holds (o, e, sym imm12 ∙ z))
          (case w ((w >> 20) &&& 0xFFF) 1 (λ z. holds (o, e, sym imm12 ∙ z)) none_of))
      none_of

dispatch-IsSound : (w : ℕ) → IsWord w → IsSound w (dispatch (op w) (f3 w) (f7 w) w)
unfolding dispatch
dispatch-IsSound w h =
    case w (op w) 0x37 (λ e. holds e)
      (case w (op w) 0x17 (λ e. holds e)
        (case w (op w) 0x6F (λ e. holds e)
          (case w (op w) 0x67 (λ o. case w (f3 w) 0 (λ e. holds (o, e)) none_of)
            (case w (op w) 0x03 (λ o. load-IsSound w o)
              (case w (op w) 0x13 (λ o. rw (high-f7 w h) (immediate-IsSound w o))
                (case w (op w) 0x63 (λ o. branch-IsSound w o)
                  (case w (op w) 0x23 (λ o. store-IsSound w o)
                    (case w (op w) 0x33 (λ o. register-IsSound w o)
                      (case w (op w) 0x0F (λ o. fence-IsSound w o)
                        (case w (op w) 0x73 (λ o. system-IsSound w o) none_of))))))))))

pub decode-Accepts : (w : ℕ) → IsWord w → decode w ≢ unknown → Accepts (decode w) w
decode-Accepts w h = rw (decode-dispatch w refl refl refl) ((dispatch-IsSound w h).accepts)

-- The instructions whose every fixed field `decode` tests: not those of the register format with
-- a `funct7` that it passes over, nor those with operands that the manual fixes.
abbrev IsStrict : Instr → Type 0
IsStrict unknown = ⊥
IsStrict sll = ⊥
IsStrict slt = ⊥
IsStrict sltu = ⊥
IsStrict xor = ⊥
IsStrict or = ⊥
IsStrict and = ⊥
IsStrict ecall = ⊥
IsStrict ebreak = ⊥
IsStrict pause = ⊥
IsStrict _ = Unit

Accepts-Encodes : (i : Instr) (w : ℕ) → IsStrict i → Accepts i w → Encodes i w
Accepts-Encodes unknown w strict a = absurd strict
Accepts-Encodes sll w strict a = absurd strict
Accepts-Encodes slt w strict a = absurd strict
Accepts-Encodes sltu w strict a = absurd strict
Accepts-Encodes xor w strict a = absurd strict
Accepts-Encodes or w strict a = absurd strict
Accepts-Encodes and w strict a = absurd strict
Accepts-Encodes ecall w strict a = absurd strict
Accepts-Encodes ebreak w strict a = absurd strict
Accepts-Encodes pause w strict a = absurd strict
Accepts-Encodes i w strict a = a

IsStrict-known : (i : Instr) → IsStrict i → i ≢ unknown
IsStrict-known unknown strict = absurd strict
IsStrict-known i strict = λ e. cc

-- A 32-bit word that is decoded to an instruction whose fixed fields `decode` tests is one that the
-- manual assigns to that instruction.
decode_sound : (w : ℕ) → IsWord w → IsStrict (decode w) → Encodes (decode w) w
decode_sound w h strict =
    Accepts-Encodes (decode w) w strict (decode-Accepts w h (IsStrict-known (decode w) strict))

-- A word of the register format whose `funct3` is neither 0 nor 5 is decoded to what the switch gives
-- for its `funct3` with any `funct7` at all.
decode_ignores_funct7 :
    (w g : ℕ) → op w ≡ 0x33 → f3 w ≢ 0 → f3 w ≢ 5 → decode w ≡ decode_register (f3 w) g
unfolding decode_register dispatch
decode_ignores_funct7 w g o n0 n5 = decode-dispatch w o refl refl ∙ (ground arith)
