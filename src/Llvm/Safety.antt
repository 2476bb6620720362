-- ===== src/Llvm/Safety.antt =====
-- Typed code, run: it goes on, or a shift or an access of memory has no result.
use dbtranslator.Base.{
  ℕ, zero, suc, ◌≡◌, refl, ◌⊎◌, inl, inr, true, false, Option, none, some, [], ◌∷◌, ltb, ltb→lt,
  arith, ◌≤◌, ◌%◌, ◌^◌, length, get_elem?, get_elem?-some, set, length-set, if◌then◌else◌,
  Bool-cases, Option-cases,
}
use dbtranslator.Memory.{read8, read16, read32, write8, write16, write32}
use dbtranslator.Cpu.{CpuState, read_register, write_register}
use dbtranslator.Llvm.Semantics.{Llvm, BinOp, shl, lshr, ashr}
use dbtranslator.Llvm.Builder.{
  Ty, i8, i16, i32, ptr, Value, bit, byte, half, word, cpu_at, regs_at, reg_at, pc_at,
  manager_field_at, manager_at, callee_read8, callee_read16, callee_read32, callee_write8,
  callee_write16, callee_write32, Op, struct_gep, in_bounds_gep, load, store, binary, icmp, select,
  sext, zext, call, Build, done, emit,
}
use dbtranslator.Llvm.Exec.{eval_op, exec}
use dbtranslator.Llvm.Typing.{
  Sort, of_byte, of_half, of_word, Parts, inject, op_sort, TypedFrom, IsTyped,
}

-- The register array has its 32 registers.
abbrev pub IsSized : CpuState → Type 0
IsSized s = length s.registers ≡ 32

abbrev pub IsShift : BinOp → Type 0
IsShift shl = Unit
IsShift lshr = Unit
IsShift ashr = Unit
IsShift _ = ⊥

-- Of the operations, whose flags are not set, only a shift by the width or more is poison.
abbrev pub PoisonsShifts : Llvm → Type 0
PoisonsShifts llvm = (o : BinOp) (a b : ℕ) → llvm.binary o a b ≡ none → IsShift o × (32 ≤ b)

module _ (llvm : Llvm) where
  -- The ways in which an instruction with proper operands has no result: a shift of a word by 32 or
  -- more, and an access, with the arguments of its signature, of memory that is not there.
  abbrev pub OpFaults : Op → CpuState → Type 0
  OpFaults (binary o (word a) (word b)) s = IsShift o × (32 ≤ b)
  OpFaults (call (some callee_read8) (manager_at ∷ word a ∷ [])) s = read8 s.manager a ≡ none
  OpFaults (call (some callee_read16) (manager_at ∷ word a ∷ [])) s = read16 s.manager a ≡ none
  OpFaults (call (some callee_read32) (manager_at ∷ word a ∷ [])) s = read32 s.manager a ≡ none
  OpFaults (call (some callee_write8) (manager_at ∷ word a ∷ byte v ∷ [])) s =
      write8 s.manager a v ≡ none
  OpFaults (call (some callee_write16) (manager_at ∷ word a ∷ half v ∷ [])) s =
      write16 s.manager a v ≡ none
  OpFaults (call (some callee_write32) (manager_at ∷ word a ∷ word v ∷ [])) s =
      write32 s.manager a v ≡ none
  OpFaults _ s = ⊥

  -- What an instruction leaves: a value of its sort, and a register array of its size.
  Goes : Op → Sort → CpuState → Type 0
  Goes o t s =
      (d : Parts t) × (s' : CpuState) × (eval_op llvm o s ≡ some (inject t d, s')) × IsSized s'

  Safe : Option Sort → Op → CpuState → Type 0
  Safe none o s = Unit
  Safe (some t) o s = Goes o t s ⊎ OpFaults o s

  load-Goes :
      (t : Ty) (sort : Sort) (i : ℕ) (s : CpuState)
      → IsSized s
      → ((v : ℕ) → get_elem? s.registers i ≡ some v → Goes (load t (reg_at i)) sort s)
      → Safe (if ltb i 32 then some sort else none) (load t (reg_at i)) s
  unfolding Safe
  load-Goes t sort i s sized goes = elim (Bool-cases (ltb i 32)) [
    | inr out ↦ rw out tt
    | inl h ↦
        let (v, there) = get_elem?-some s.registers i (omega (arith, sized, ltb→lt i 32 h)) in
        rw h (inl (goes v there))
  ]

  op-Safe : PoisonsShifts llvm → (o : Op) (s : CpuState) → IsSized s → Safe (op_sort o) o s
  unfolding Safe Goes op_sort eval_op read_register write_register
  op-Safe poisons (struct_gep cpu_at zero) s sized = inl (tt, s, refl, sized)
  op-Safe poisons (struct_gep cpu_at (suc zero)) s sized = inl (tt, s, refl, sized)
  op-Safe poisons (struct_gep cpu_at (suc (suc zero))) s sized = inl (tt, s, refl, sized)
  op-Safe poisons (in_bounds_gep regs_at i) s sized = elim (Bool-cases (ltb i 32)) [
    | inr out ↦ rw out tt
    | inl h ↦ rw h (inl ((i, ltb→lt i 32 h), s, refl, sized))
  ]
  op-Safe poisons (load i8 (reg_at i)) s sized =
      load-Goes i8 of_byte i s sized (λ v there. (v % 2 ^ 8, s, rw there, sized))
  op-Safe poisons (load i16 (reg_at i)) s sized =
      load-Goes i16 of_half i s sized (λ v there. (v % 2 ^ 16, s, rw there, sized))
  op-Safe poisons (load i32 (reg_at i)) s sized =
      load-Goes i32 of_word i s sized (λ v there. (v, s, rw there, sized))
  op-Safe poisons (load i32 pc_at) s sized = inl (s.pc, s, refl, sized)
  op-Safe poisons (load ptr manager_field_at) s sized = inl (tt, s, refl, sized)
  op-Safe poisons (store (word v) (reg_at i)) s sized = elim (Bool-cases (ltb i 32)) [
    | inr out ↦ rw out tt
    | inl h ↦
        let (old, there) = get_elem?-some s.registers i (omega (arith, sized, ltb→lt i 32 h)) in
        let s' = record s { registers = set s.registers i v } in
        rw h (inl (tt, s', rw there, omega (arith, length-set {0} s.registers i v, sized)))
  ]
  op-Safe poisons (store (word v) pc_at) s sized = inl (tt, record s { pc = v }, refl, sized)
  op-Safe poisons (binary o (word a) (word b)) s sized = elim (Option-cases (llvm.binary o a b)) [
    | inl poison ↦ inr (poisons o a b poison)
    | inr (v, result) ↦ inl (v, s, rw result, sized)
  ]
  op-Safe poisons (icmp p (word a) (word b)) s sized = inl (llvm.icmp p a b, s, refl, sized)
  op-Safe poisons (select (bit true) (word a) (word b)) s sized = inl (a, s, refl, sized)
  op-Safe poisons (select (bit false) (word a) (word b)) s sized = inl (b, s, refl, sized)
  op-Safe poisons (sext (byte v)) s sized = inl (llvm.sext 8 v, s, refl, sized)
  op-Safe poisons (sext (half v)) s sized = inl (llvm.sext 16 v, s, refl, sized)
  op-Safe poisons (sext (word v)) s sized = inl (v, s, refl, sized)
  op-Safe poisons (zext (bit true)) s sized = inl (llvm.zext 1 1, s, refl, sized)
  op-Safe poisons (zext (bit false)) s sized = inl (llvm.zext 1 0, s, refl, sized)
  op-Safe poisons (zext (byte v)) s sized = inl (llvm.zext 8 v, s, refl, sized)
  op-Safe poisons (zext (half v)) s sized = inl (llvm.zext 16 v, s, refl, sized)
  op-Safe poisons (zext (word v)) s sized = inl (v, s, refl, sized)
  op-Safe poisons (call (some callee_read8) (manager_at ∷ word a ∷ [])) s sized =
      elim (Option-cases (read8 s.manager a)) [
        | inl missing ↦ inr missing
        | inr (v, result) ↦ inl (v, s, rw result, sized)
      ]
  op-Safe poisons (call (some callee_read16) (manager_at ∷ word a ∷ [])) s sized =
      elim (Option-cases (read16 s.manager a)) [
        | inl missing ↦ inr missing
        | inr (v, result) ↦ inl (v, s, rw result, sized)
      ]
  op-Safe poisons (call (some callee_read32) (manager_at ∷ word a ∷ [])) s sized =
      elim (Option-cases (read32 s.manager a)) [
        | inl missing ↦ inr missing
        | inr (v, result) ↦ inl (v, s, rw result, sized)
      ]
  op-Safe poisons (call (some callee_write8) (manager_at ∷ word a ∷ byte v ∷ [])) s sized =
      elim (Option-cases (write8 s.manager a v)) [
        | inl missing ↦ inr missing
        | inr (m, result) ↦ inl (tt, record s { manager = m }, rw result, sized)
      ]
  op-Safe poisons (call (some callee_write16) (manager_at ∷ word a ∷ half v ∷ [])) s sized =
      elim (Option-cases (write16 s.manager a v)) [
        | inl missing ↦ inr missing
        | inr (m, result) ↦ inl (tt, record s { manager = m }, rw result, sized)
      ]
  op-Safe poisons (call (some callee_write32) (manager_at ∷ word a ∷ word v ∷ [])) s sized =
      elim (Option-cases (write32 s.manager a v)) [
        | inl missing ↦ inr missing
        | inr (m, result) ↦ inl (tt, record s { manager = m }, rw result, sized)
      ]
  op-Safe poisons _ s sized = tt

  shift_far : (o : BinOp) (a b : ℕ) → IsShift o → 32 ≤ b → llvm.binary o a b ≡ none
  shift_far shl a b shift far = llvm.shl_poison a b far
  shift_far lshr a b shift far = llvm.lshr_poison a b far
  shift_far ashr a b shift far = llvm.ashr_poison a b far
  shift_far _ a b shift far = absurd shift

  -- An instruction that faults has no result.
  OpFaults-stops : (o : Op) (s : CpuState) → OpFaults o s → eval_op llvm o s ≡ none
  unfolding eval_op
  OpFaults-stops (binary o (word a) (word b)) s (shift, far) = rw (shift_far o a b shift far)
  OpFaults-stops (call (some callee_read8) (manager_at ∷ word a ∷ [])) s fault = rw fault
  OpFaults-stops (call (some callee_read16) (manager_at ∷ word a ∷ [])) s fault = rw fault
  OpFaults-stops (call (some callee_read32) (manager_at ∷ word a ∷ [])) s fault = rw fault
  OpFaults-stops (call (some callee_write8) (manager_at ∷ word a ∷ byte v ∷ [])) s fault = rw fault
  OpFaults-stops (call (some callee_write16) (manager_at ∷ word a ∷ half v ∷ [])) s fault = rw fault
  OpFaults-stops (call (some callee_write32) (manager_at ∷ word a ∷ word v ∷ [])) s fault = rw fault
  OpFaults-stops _ s fault = absurd fault

  -- One of the instructions faults, after those before it have gone on.
  unfoldable pub FaultsIn {ℓ} : {A : Type ℓ} → Build A → CpuState → Type 0
  FaultsIn (done a) s = ⊥
  FaultsIn (emit o k) s =
      OpFaults o s
      ⊎ ((v : Value) × (s' : CpuState) × (eval_op llvm o s ≡ some (v, s')) × FaultsIn (k v) s')

  -- How typed code comes out.
  abbrev pub ComesOut {ℓ} : {A : Type ℓ} → Build A → CpuState → Type ℓ
  ComesOut {A = A} b s =
      ((a : A) × (s' : CpuState) × (exec llvm b s ≡ some (a, s')) × IsSized s')
      ⊎ ((exec llvm b s ≡ none) × FaultsIn b s)

  emit-Safe {ℓ} :
      {A : Type ℓ} (o : Op) (k : Value → Build A) (s : CpuState) (t : Option Sort)
      → TypedFrom t (λ v. IsTyped (k v))
      → Safe t o s
      → ((v : Value) (s' : CpuState) → IsTyped (k v) → IsSized s' → ComesOut (k v) s')
      → ComesOut (emit o k) s
  unfolding exec FaultsIn Goes Safe
  emit-Safe o k s none typed safe rest = absurd typed
  emit-Safe o k s (some t) typed (inr fault) rest = inr (rw (OpFaults-stops o s fault), inl fault)
  emit-Safe o k s (some t) typed (inl (d, s', goes, sized)) rest =
      elim (rest (inject t d) s' (typed d) sized) [
        | inl (a, s'', runs, sized') ↦ inl (a, s'', rw goes runs, sized')
        | inr (stops, faults) ↦ inr (rw goes stops, inr (inject t d, s', goes, faults))
      ]

  -- Typed code on a state with 32 registers has a result, with 32 registers again, unless one of its
  -- shifts is by 32 or more or one of its accesses has no memory.
  pub exec_safe {ℓ} :
      {A : Type ℓ} (b : Build A) (s : CpuState)
      → PoisonsShifts llvm
      → IsTyped b
      → IsSized s
      → ComesOut b s
  unfolding exec IsTyped
  exec_safe (done a) s poisons typed sized = inl (a, s, refl, sized)
  exec_safe (emit o k) s poisons typed sized =
      emit-Safe o k s (op_sort o) typed (op-Safe poisons o s sized)
        λ v s' h z. exec_safe (k v) s' poisons h z
