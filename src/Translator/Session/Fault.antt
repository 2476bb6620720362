-- ===== src/Translator/Session/Fault.antt =====
-- tests/Main.cpp: the driver at an address that is not in memory.
use dbtranslator.Base.{ℕ, suc, ◌≡◌, ◌∙◌, none}
use dbtranslator.Memory.Search.{IsUncovered}
use dbtranslator.Memory.Access.{access_unmapped}
use dbtranslator.Cpu.{CpuState, IsValid}
use dbtranslator.Llvm.Semantics.{Llvm}
use dbtranslator.Translator.Block.{generate_func}
use dbtranslator.Translator.Block.Rounds.{translate, generate_func-translate}
use dbtranslator.Translator.Jit.{Jit}
use dbtranslator.Translator.Session.{
  Session, fault, find, add_block, name_block, ensure_block, enter_block, main_round,
}

no_block :
    (s : CpuState) (n : ℕ)
    → IsValid s
    → IsUncovered s.manager.segment_data s.pc
    → generate_func s (suc n) ≡ none
unfolding translate
no_block s n valid clear =
    let (_, _, missing, _, _, _) = access_unmapped s.manager s.pc 0 valid.memory clear in
    generate_func-translate s (suc n) ∙ rw missing

-- From a well-formed state whose counter is in no segment, at an address that has no block yet, and
-- with a threshold that is not 0, a round of the driver's loop has no defined behaviour, whatever the
-- compiler does: the translation fetches through a null pointer.
pub main_round_unmapped :
    {llvm : Llvm} (jit : Jit llvm) (n : ℕ) (s : Session jit)
    → IsValid s.cpu
    → IsUncovered s.cpu.manager.segment_data s.cpu.pc
    → find s.cpu.pc s.pc_to_func ≡ none
    → main_round jit (suc n) s ≡ fault
unfolding main_round ensure_block add_block name_block enter_block
main_round_unmapped jit n s valid clear new = rw (new, no_block s.cpu n valid clear)
