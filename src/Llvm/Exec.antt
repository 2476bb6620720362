-- ===== src/Llvm/Exec.antt =====
-- Built code run on a processor state: instruction by instruction, with the values of `Semantics`.
use dbtranslator.Base.{
  ℕ, zero, suc, ◌%◌, ◌^◌, true, false, Option, none, some, List, [], ◌∷◌, ◌>>=◌, ◌≡◌, refl, inl,
  inr, Option-cases,
}
use dbtranslator.Memory.{MemoryManager, read8, read16, read32, write8, write16, write32}
use dbtranslator.Cpu.{CpuState, read_register, write_register}
use dbtranslator.Llvm.Semantics.{Llvm, BinOp, Predicate}
use dbtranslator.Llvm.Builder.{
  Ty, i8, i16, i32, ptr, Value, bit, byte, half, word, cpu_at, regs_at, reg_at, pc_at,
  manager_field_at, manager_at, void, Callee, callee_read8, callee_read16, callee_read32,
  callee_write8, callee_write16, callee_write32, Op, struct_gep, in_bounds_gep, load, store, binary,
  icmp, select, sext, zext, call, Build, done, emit, ◌>>=◌ as then_build,
}

-- The field of `CpuState` at an index, by the type that `getCPUStateType` gives.
unfoldable pub field_ptr : Value → ℕ → Option Value
field_ptr cpu_at zero = some regs_at
field_ptr cpu_at (suc zero) = some pc_at
field_ptr cpu_at (suc (suc zero)) = some manager_field_at
field_ptr _ _ = none

unfoldable pub element_ptr : Value → ℕ → Option Value
element_ptr regs_at i = some (reg_at i)
element_ptr _ i = none

-- A narrow load from a register takes its low bits: the host is little-endian.
unfoldable pub load_value : Ty → Value → CpuState → Option Value
load_value i8 (reg_at i) s = read_register s i >>= λ v. some (byte (v % 2 ^ 8))
load_value i16 (reg_at i) s = read_register s i >>= λ v. some (half (v % 2 ^ 16))
load_value i32 (reg_at i) s = read_register s i >>= λ v. some (word v)
load_value i32 pc_at s = some (word s.pc)
load_value ptr manager_field_at s = some manager_at
load_value _ _ s = none

unfoldable pub store_value : Value → Value → CpuState → Option CpuState
store_value (word v) (reg_at i) s = write_register s i v
store_value (word v) pc_at s = some (record s { pc = v })
store_value _ _ s = none

unfoldable pub select_value : Value → Value → Value → Option Value
select_value (bit true) a b = some a
select_value (bit false) a b = some b
select_value _ _ _ = none

abbrev with_manager : CpuState → MemoryManager → Value × CpuState
with_manager s m = (void, record s { manager = m })

-- What a call of the memory interface is to do: what the function of src/Memory.cpp does. The compiler
-- binds the names to the functions of the memory implementation.
unfoldable pub call_value : Callee → List Value → CpuState → Option (Value × CpuState)
call_value callee_read8 (manager_at ∷ word a ∷ []) s = read8 s.manager a >>= λ v. some (byte v, s)
call_value callee_read16 (manager_at ∷ word a ∷ []) s = read16 s.manager a >>= λ v. some (half v, s)
call_value callee_read32 (manager_at ∷ word a ∷ []) s = read32 s.manager a >>= λ v. some (word v, s)
call_value callee_write8 (manager_at ∷ word a ∷ byte v ∷ []) s =
    write8 s.manager a v >>= λ m. some (with_manager s m)
call_value callee_write16 (manager_at ∷ word a ∷ half v ∷ []) s =
    write16 s.manager a v >>= λ m. some (with_manager s m)
call_value callee_write32 (manager_at ∷ word a ∷ word v ∷ []) s =
    write32 s.manager a v >>= λ m. some (with_manager s m)
call_value _ _ s = none

module _ (llvm : Llvm) where
  -- The builder makes no instruction for an extension from `i32` to `i32`.
  unfoldable pub sext_value : Value → Option Value
  sext_value (byte v) = some (word (llvm.sext 8 v))
  sext_value (half v) = some (word (llvm.sext 16 v))
  sext_value (word v) = some (word v)
  sext_value _ = none

  unfoldable pub zext_value : Value → Option Value
  zext_value (bit true) = some (word (llvm.zext 1 1))
  zext_value (bit false) = some (word (llvm.zext 1 0))
  zext_value (byte v) = some (word (llvm.zext 8 v))
  zext_value (half v) = some (word (llvm.zext 16 v))
  zext_value (word v) = some (word v)
  zext_value _ = none

  unfoldable pub binary_value : BinOp → Value → Value → Option Value
  binary_value o (word a) (word b) = llvm.binary o a b >>= λ v. some (word v)
  binary_value _ _ _ = none

  unfoldable pub icmp_value : Predicate → Value → Value → Option Value
  icmp_value p (word a) (word b) = some (bit (llvm.icmp p a b))
  icmp_value _ _ _ = none

  -- A result with no effect.
  abbrev pure_result : CpuState → Option Value → Option (Value × CpuState)
  pure_result s r = r >>= λ v. some (v, s)

  -- One instruction; `none` is poison or undefined behaviour.
  unfoldable pub eval_op : Op → CpuState → Option (Value × CpuState)
  unfolding field_ptr element_ptr load_value store_value call_value sext_value zext_value
      binary_value icmp_value select_value
  eval_op (struct_gep p i) s = pure_result s (field_ptr p i)
  eval_op (in_bounds_gep p i) s = pure_result s (element_ptr p i)
  eval_op (load t p) s = pure_result s (load_value t p s)
  eval_op (store v p) s = store_value v p s >>= λ s'. some (void, s')
  eval_op (binary o a b) s = pure_result s (binary_value o a b)
  eval_op (icmp p a b) s = pure_result s (icmp_value p a b)
  eval_op (select c a b) s = pure_result s (select_value c a b)
  eval_op (sext v) s = pure_result s (sext_value v)
  eval_op (zext v) s = pure_result s (zext_value v)
  eval_op (call f args) s = f >>= λ g. call_value g args s

  -- A built block, run to its end.
  unfoldable pub exec {ℓ} : {A : Type ℓ} → Build A → CpuState → Option (A × CpuState)
  unfolding eval_op
  exec (done a) s = some (a, s)
  exec (emit o k) s = eval_op o s >>= λ (v, s'). exec (k v) s'

  -- Code that is built after other code runs after it.
  pub exec->>= {ℓ κ} :
      {A : Type ℓ} {B : Type κ} (m : Build A) (f : A → Build B) (s : CpuState)
      → exec (then_build m f) s ≡ (exec m s >>= λ (a, s'). exec (f a) s')
  unfolding exec
  exec->>= (done a) f s = refl
  exec->>= (emit o k) f s = elim (Option-cases (eval_op o s)) [
    | inl fault ↦ rw fault
    | inr ((v, s'), runs) ↦ rw runs (exec->>= (k v) f s')
  ]
