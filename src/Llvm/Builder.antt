-- ===== src/Llvm/Builder.antt =====
-- The calls that src/Instruction.cpp makes of LLVM's `IRBuilder`. Code that builds instructions is
-- the tree of its calls, in order; what a call returns is bound in the calls after it.
use dbtranslator.Base.{ℕ, ◌≡◌, refl, ap, fun_ext, Bool, Option, List, get_elem?}
use dbtranslator.Llvm.Semantics.{
  BinOp, Predicate, add, sub, and, or, xor, shl, lshr, ashr, eq, ne, slt, sge, ult, uge,
}

pub data Ty : Type 0 where
  i8 i16 i32 ptr : Ty

-- Integers of the widths that occur, and pointers: to the processor state, to its register array,
-- to a register, to the program counter, to the field that holds the memory manager's address,
-- and that address.
pub data Value : Type 0 where
  bit : Bool → Value
  byte half word : ℕ → Value
  cpu_at regs_at : Value
  reg_at : ℕ → Value
  pc_at manager_field_at manager_at void : Value

-- The functions that `addMemoryInterface` declares.
pub data Callee : Type 0 where
  callee_read8 callee_read16 callee_read32 callee_write8 callee_write16 callee_write32 : Callee

-- A call of the builder that appends an instruction.
pub data Op : Type 0 where
  struct_gep in_bounds_gep : Value → ℕ → Op
  load : Ty → Value → Op
  store : Value → Value → Op
  binary : BinOp → Value → Value → Op
  icmp : Predicate → Value → Value → Op
  select : Value → Value → Value → Op
  sext zext : Value → Op
  call : Option Callee → List Value → Op

-- Code that builds instructions: each is appended, and its value stands in what follows.
pub data Build {ℓ} (A : Type ℓ) : Type ℓ where
  done : A → Build A
  emit : Op → (Value → Build A) → Build A

infixl 5 ◌>>=◌ ◌>>◌
abbrev pub ◌>>=◌ {ℓ κ} : {A : Type ℓ} {B : Type κ} → Build A → (A → Build B) → Build B
done a >>= f = f a
emit o k >>= f = emit o (λ v. k v >>= f)

abbrev pub ◌>>◌ {ℓ κ} : {A : Type ℓ} {B : Type κ} → Build A → Build B → Build B
m >> k = m >>= λ _. k

pub >>=-done {ℓ} : {A : Type ℓ} (m : Build A) → (m >>= λ a. done a) ≡ m
>>=-done (done a) = refl
>>=-done (emit o k) = ap (emit o) (fun_ext λ v. >>=-done (k v))

pub >>=-assoc {ℓ κ μ} :
    {A : Type ℓ} {B : Type κ} {C : Type μ} (m : Build A) (f : A → Build B) (g : B → Build C)
    → (m >>= f >>= g) ≡ (m >>= λ a. f a >>= g)
>>=-assoc (done a) f g = refl
>>=-assoc (emit o k) f g = ap (emit o) (fun_ext λ v. >>=-assoc (k v) f g)

-- `IRData`: the functions that stand for the memory accesses. The module, the builder and the
-- function under construction are what `Build` keeps.
pub record IrData : Type 0 where
  pub memory_functions : List Callee

abbrev append : Op → Build Value
append o = emit o done

-- `Data.CurrentFunction->getArg(0)`
abbrev pub cpu_arg : Value
cpu_arg = cpu_at

-- `getInt32`
abbrev pub get_int32 : ℕ → Value
get_int32 n = word n

abbrev pub create_struct_gep : Value → ℕ → Build Value
create_struct_gep p i = append (struct_gep p i)

abbrev pub create_in_bounds_gep : Value → ℕ → Build Value
create_in_bounds_gep p i = append (in_bounds_gep p i)

abbrev pub create_load : Ty → Value → Build Value
create_load t p = append (load t p)

abbrev pub create_store : Value → Value → Build Value
create_store v p = append (store v p)

abbrev pub create_add : Value → Value → Build Value
create_add a b = append (binary add a b)

abbrev pub create_sub : Value → Value → Build Value
create_sub a b = append (binary sub a b)

abbrev pub create_and : Value → Value → Build Value
create_and a b = append (binary and a b)

abbrev pub create_or : Value → Value → Build Value
create_or a b = append (binary or a b)

abbrev pub create_xor : Value → Value → Build Value
create_xor a b = append (binary xor a b)

abbrev pub create_shl : Value → Value → Build Value
create_shl a b = append (binary shl a b)

abbrev pub create_lshr : Value → Value → Build Value
create_lshr a b = append (binary lshr a b)

abbrev pub create_ashr : Value → Value → Build Value
create_ashr a b = append (binary ashr a b)

abbrev pub create_icmp_eq : Value → Value → Build Value
create_icmp_eq a b = append (icmp eq a b)

abbrev pub create_icmp_ne : Value → Value → Build Value
create_icmp_ne a b = append (icmp ne a b)

abbrev pub create_icmp_slt : Value → Value → Build Value
create_icmp_slt a b = append (icmp slt a b)

abbrev pub create_icmp_sge : Value → Value → Build Value
create_icmp_sge a b = append (icmp sge a b)

abbrev pub create_icmp_ult : Value → Value → Build Value
create_icmp_ult a b = append (icmp ult a b)

abbrev pub create_icmp_uge : Value → Value → Build Value
create_icmp_uge a b = append (icmp uge a b)

abbrev pub create_select : Value → Value → Value → Build Value
create_select c a b = append (select c a b)

-- to `i32`
abbrev pub create_sext : Value → Build Value
create_sext v = append (sext v)

abbrev pub create_zext : Value → Build Value
create_zext v = append (zext v)

-- `CreateCall(Data.MemoryFunctions[k], …)`
abbrev pub create_call : IrData → ℕ → List Value → Build Value
create_call ir_data k args = append (call (get_elem? ir_data.memory_functions k) args)
