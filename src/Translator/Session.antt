-- ===== src/Translator/Session.antt =====
-- tests/Main.cpp: the loop of `main`, with the cache of translated blocks.
pub mod Cache
pub mod Served
pub mod Follows
pub mod Fault
pub mod Fresh
pub mod Correct
use dbtranslator.Base.{
  Text, ℕ, zero, suc, ◌≡◌, ◌≢◌, Bool, true, false, Option, none, some, List, [], ◌∷◌, ◌==◌,
  if◌then◌else◌, ◌>>=◌,
}
use dbtranslator.Cpu.{CpuState}
use dbtranslator.Llvm.Semantics.{Llvm}
use dbtranslator.Llvm.Builder.{Build}
use dbtranslator.Translator.Name.{block_name}
use dbtranslator.Translator.Block.{generate_func}
use dbtranslator.Translator.Jit.{Jit}

-- `std::unordered_map<uint32_t, std::string>`
abbrev pub BlockCache : Type 0
BlockCache = List (ℕ × Text)

unfoldable pub find : ℕ → BlockCache → Option Text
find pc [] = none
find pc ((k, name) ∷ cache) = if k == pc then some name else find pc cache

-- `insert` keeps an entry that is there.
unfoldable pub insert : ℕ → Text → BlockCache → BlockCache
insert pc name [] = (pc, name) ∷ []
insert pc name ((k, old) ∷ cache) =
    if k == pc then (k, old) ∷ cache else (k, old) ∷ insert pc name cache

-- What a part of the program does: it goes on, it ends with an error message, or its behaviour is
-- undefined.
pub data Outcome {ℓ} (A : Type ℓ) : Type ℓ where
  ok : A → Outcome A
  failed fault : Outcome A

module _ {llvm : Llvm} (jit : Jit llvm) where
  open jit use {State, add_module, call}

  -- The variables of `main` that its loop changes.
  pub record Session : Type 0 where
    pub cpu : CpuState
    pub pc_to_func : BlockCache
    pub compiled : State

  -- `generateFunc` up to the addition of the module, on the block that has been built.
  unfoldable pub add_block : Session → Option (Build (Unit {0})) → Outcome (Session × Text)
  add_block s none = fault
  add_block s (some b) =
      let name = block_name s.cpu.pc in
      let cache = insert s.cpu.pc name s.pc_to_func in
      elim (add_module name b s.compiled) [
        | none ↦ failed
        | some compiled ↦ ok (record s { pc_to_func = cache; compiled = compiled }, name)
      ]

  -- `main` inserts the name that `generateFunc` returns once more.
  unfoldable pub name_block : Outcome (Session × Text) → Outcome Session
  name_block (ok (s, name)) = ok (record s { pc_to_func = insert s.cpu.pc name s.pc_to_func })
  name_block failed = failed
  name_block fault = fault

  -- A block that is not in the cache is translated, compiled and put there.
  unfoldable pub ensure_block : ℕ → Session → Option Text → Outcome Session
  ensure_block threshold s (some name) = ok s
  ensure_block threshold s none = name_block (add_block s (generate_func s.cpu threshold))

  unfoldable pub call_block : Session → Option Text → Outcome Session
  call_block s none = fault
  call_block s (some name) = elim (call name s.compiled s.cpu) [
    | none ↦ fault
    | some cpu ↦ ok (record s { cpu = cpu })
  ]

  unfoldable pub enter_block : Outcome Session → Outcome Session
  enter_block (ok s) = call_block s (find s.cpu.pc s.pc_to_func)
  enter_block failed = failed
  enter_block fault = fault

  -- The body of `while (true)`.
  unfoldable pub main_round : ℕ → Session → Outcome Session
  main_round threshold s = enter_block (ensure_block threshold s (find s.cpu.pc s.pc_to_func))

  -- That many rounds of it.
  unfoldable pub main_loop : ℕ → ℕ → Session → Outcome Session
  main_loop zero threshold s = ok s
  main_loop (suc n) threshold s = elim (main_round threshold s) [
    | ok s' ↦ main_loop n threshold s'
    | failed ↦ failed
    | fault ↦ fault
  ]
