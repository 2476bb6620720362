-- ===== src/Llvm/Typing.antt =====
-- The types of the code that src/Instruction.cpp builds: the operands that each instruction of LLVM
-- takes, and the sort of what it returns.
use dbtranslator.Base.{
  ℕ, zero, suc, ◌<◌, Bool, Option, none, some, List, [], ◌∷◌, ltb, if◌then◌else◌,
}
use dbtranslator.Llvm.Builder.{
  Ty, i8, i16, i32, ptr, Value, bit, byte, half, word, cpu_at, regs_at, reg_at, pc_at,
  manager_field_at, manager_at, void, Callee, callee_read8, callee_read16, callee_read32,
  callee_write8, callee_write16, callee_write32, Op, struct_gep, in_bounds_gep, load, store, binary,
  icmp, select, sext, zext, call, Build, done, emit, ◌>>=◌ as then_build,
}

-- Integers by their width, and pointers by what they point to; a register's lies in the array.
pub data Sort : Type 0 where
  of_bit of_byte of_half of_word of_regs of_reg of_pc of_manager_field of_manager of_void : Sort

-- What a value of a sort is made of, and the value.
abbrev pub Parts : Sort → Type 0
Parts of_bit = Bool
Parts of_byte = ℕ
Parts of_half = ℕ
Parts of_word = ℕ
Parts of_reg = (i : ℕ) × (i < 32)
Parts _ = Unit

abbrev pub inject : (t : Sort) → Parts t → Value
inject of_bit b = bit b
inject of_byte v = byte v
inject of_half v = half v
inject of_word v = word v
inject of_reg (i, h) = reg_at i
inject of_regs d = regs_at
inject of_pc d = pc_at
inject of_manager_field d = manager_field_at
inject of_manager d = manager_at
inject of_void d = void

-- The fields of `CPUState`.
abbrev field_sort : Value → ℕ → Option Sort
field_sort cpu_at zero = some of_regs
field_sort cpu_at (suc zero) = some of_pc
field_sort cpu_at (suc (suc zero)) = some of_manager_field
field_sort _ _ = none

abbrev element_sort : Value → ℕ → Option Sort
element_sort regs_at i = if ltb i 32 then some of_reg else none
element_sort _ i = none

abbrev load_sort : Ty → Value → Option Sort
load_sort i8 (reg_at i) = if ltb i 32 then some of_byte else none
load_sort i16 (reg_at i) = if ltb i 32 then some of_half else none
load_sort i32 (reg_at i) = if ltb i 32 then some of_word else none
load_sort i32 pc_at = some of_word
load_sort ptr manager_field_at = some of_manager
load_sort _ _ = none

abbrev store_sort : Value → Value → Option Sort
store_sort (word v) (reg_at i) = if ltb i 32 then some of_void else none
store_sort (word v) pc_at = some of_void
store_sort _ _ = none

-- The signatures of the six accesses.
abbrev call_sort : Callee → List Value → Option Sort
call_sort callee_read8 (manager_at ∷ word a ∷ []) = some of_byte
call_sort callee_read16 (manager_at ∷ word a ∷ []) = some of_half
call_sort callee_read32 (manager_at ∷ word a ∷ []) = some of_word
call_sort callee_write8 (manager_at ∷ word a ∷ byte v ∷ []) = some of_void
call_sort callee_write16 (manager_at ∷ word a ∷ half v ∷ []) = some of_void
call_sort callee_write32 (manager_at ∷ word a ∷ word v ∷ []) = some of_void
call_sort _ _ = none

abbrev sext_sort : Value → Option Sort
sext_sort (byte v) = some of_word
sext_sort (half v) = some of_word
sext_sort (word v) = some of_word
sext_sort _ = none

abbrev zext_sort : Value → Option Sort
zext_sort (bit b) = some of_word
zext_sort (byte v) = some of_word
zext_sort (half v) = some of_word
zext_sort (word v) = some of_word
zext_sort _ = none

abbrev words_sort : Sort → Value → Value → Option Sort
words_sort t (word a) (word b) = some t
words_sort t _ _ = none

abbrev select_sort : Value → Value → Value → Option Sort
select_sort (bit c) (word a) (word b) = some of_word
select_sort _ _ _ = none

-- The sort of an instruction's result; `none` where its operands are not those that it takes.
unfoldable pub op_sort : Op → Option Sort
op_sort (struct_gep p i) = field_sort p i
op_sort (in_bounds_gep p i) = element_sort p i
op_sort (load t p) = load_sort t p
op_sort (store v p) = store_sort v p
op_sort (binary o a b) = words_sort of_word a b
op_sort (icmp p a b) = words_sort of_bit a b
op_sort (select c a b) = select_sort c a b
op_sort (sext v) = sext_sort v
op_sort (zext v) = zext_sort v
op_sort (call none args) = none
op_sort (call (some f) args) = call_sort f args

-- Code whose every instruction has operands that it takes, whatever the instructions before it
-- return.
abbrev pub TypedFrom : Option Sort → (Value → Type 0) → Type 0
TypedFrom none later = ⊥
TypedFrom (some t) later = (d : Parts t) → later (inject t d)

unfoldable pub IsTyped {ℓ} : {A : Type ℓ} → Build A → Type 0
unfolding op_sort
IsTyped (done a) = Unit
IsTyped (emit o k) = TypedFrom (op_sort o) (λ v. IsTyped (k v))

TypedFrom_map :
    (t : Option Sort) {P Q : Value → Type 0}
    → ((v : Value) → P v → Q v)
    → TypedFrom t P
    → TypedFrom t Q
TypedFrom_map none f h = h
TypedFrom_map (some t) f h = λ d. f (inject t d) (h d)

-- Typed code before typed code is typed.
pub IsTyped->>= {ℓ κ} :
    {A : Type ℓ} {B : Type κ} (m : Build A) (f : A → Build B)
    → IsTyped m
    → ((a : A) → IsTyped (f a))
    → IsTyped (then_build m f)
unfolding IsTyped
IsTyped->>= (done a) f h later = later a
IsTyped->>= (emit o k) f h later =
    TypedFrom_map (op_sort o) (λ v typed. IsTyped->>= (k v) f typed later) h
