-- ===== src/Translator/Session/Follows.antt =====
-- The loop of tests/Main.cpp runs the guest program, by any account of its blocks that they follow.
use dbtranslator.Base.{
  Text, ℕ, zero, suc, ◌≡◌, refl, ◌∙◌, ◌⊎◌, inl, inr, Option, none, some, Option-cases,
}
use dbtranslator.Memory.{MemoryManager}
use dbtranslator.Cpu.{CpuState}
use dbtranslator.Llvm.Semantics.{Llvm}
use dbtranslator.Translator.Name.{block_name}
use dbtranslator.Translator.Block.Correct.{Holds}
use dbtranslator.Translator.Block.Follow.{Follow, Execution, finish, block}
use dbtranslator.Translator.Jit.{Jit}
use dbtranslator.Translator.Session.{
  Outcome, ok, failed, find, insert, Session, add_block, name_block, ensure_block, call_block,
  enter_block, main_round, main_loop,
}
use dbtranslator.Translator.Session.Cache.{find-insert_self, find-insert_again}
use dbtranslator.Translator.Session.Served.{IsServed, IsServed-insert, IsServed-again}

module _ {llvm : Llvm} (jit : Jit llvm) {code : MemoryManager} {threshold : ℕ}
    (follow : Follow llvm code threshold) where
  open jit use {State, add_module, call, call_added}

  -- The session goes on at that state of the processor, with every cached function served.
  pub record Advances (cpu : CpuState) (outcome : Outcome (Session jit)) : Type 0 where
    pub session : Session jit
    pub advanced : outcome ≡ ok session
    pub reached : session.cpu ≡ cpu
    pub still : IsServed jit follow session.pc_to_func session.compiled

  call_block_lem :
      (s : Session jit) (cpu : CpuState) (found : Option Text) (name : Text)
      → found ≡ some name
      → IsServed jit follow s.pc_to_func s.compiled
      → call name s.compiled s.cpu ≡ some cpu
      → Advances cpu (call_block jit s found)
  unfolding call_block
  call_block_lem s cpu found name is_found served called = record {
    session = record s { cpu = cpu };
    advanced = rw (is_found, called, call_block);
    reached = refl;
    still = served;
  }

  main_round_cached :
      (s : Session jit) (cpu : CpuState) (name : Text)
      → find s.cpu.pc s.pc_to_func ≡ some name
      → IsServed jit follow s.pc_to_func s.compiled
      → follow.Ready s.cpu
      → follow.Run s.cpu cpu
      → Advances cpu (main_round jit threshold s)
  unfolding main_round ensure_block enter_block
  main_round_cached s cpu name found served ready runs =
      let (word, named, serves) = (served.entry s.cpu.pc name found) in
      rw found (
        call_block_lem s cpu (find s.cpu.pc s.pc_to_func) name found served
          (serves s.cpu cpu refl ready runs))

  main_round_new :
      (s : Session jit) (cpu : CpuState)
      → find s.cpu.pc s.pc_to_func ≡ none
      → IsServed jit follow s.pc_to_func s.compiled
      → follow.Ready s.cpu
      → Holds code s.cpu.manager
      → follow.Run s.cpu cpu
      → (main_round jit threshold s ≡ failed) ⊎ Advances cpu (main_round jit threshold s)
  unfolding main_round ensure_block enter_block name_block add_block
  main_round_new s cpu missing served ready holds runs =
      let (b, built, ends) = follow.generated s.cpu cpu ready holds runs in
      let name = block_name s.cpu.pc in
      let cache = insert s.cpu.pc name s.pc_to_func in
      let there = find-insert_self s.cpu.pc s.cpu.pc name s.pc_to_func refl missing in
      elim (Option-cases (add_module name b s.compiled)) [
        | inl refused ↦ inl (rw (missing, built, refused, add_block) refl)
        | inr (compiled, added) ↦
            let twice = find-insert_again s.cpu.pc s.cpu.pc name name cache there ∙ there in
            let now_served =
              IsServed-insert jit follow s.pc_to_func s.compiled compiled s.cpu b served missing
                ready holds built added in
            inr (
              rw (missing, built, added, add_block)
                (call_block_lem _ cpu _ name twice
                  (IsServed-again jit follow cache compiled s.cpu.pc name name there now_served)
                  (call_added name b s.compiled compiled s.cpu cpu added served.memory ends)))
      ]

  -- One round, where the program runs one block.
  pub main_round_follows :
      (s : Session jit) (cpu : CpuState)
      → IsServed jit follow s.pc_to_func s.compiled
      → follow.Ready s.cpu
      → Holds code s.cpu.manager
      → follow.Run s.cpu cpu
      → (main_round jit threshold s ≡ failed) ⊎ Advances cpu (main_round jit threshold s)
  main_round_follows s cpu served ready holds runs =
      elim (Option-cases (find s.cpu.pc s.pc_to_func)) [
        | inl missing ↦ main_round_new s cpu missing served ready holds runs
        | inr (name, found) ↦ inr (main_round_cached s cpu name found served ready runs)
      ]

  pub main_loop_refused :
      (n : ℕ) (s : Session jit)
      → main_round jit threshold s ≡ failed
      → main_loop jit (suc n) threshold s ≡ failed
  unfolding main_loop
  main_loop_refused n s refused = rw (main_loop, refused) refl

  pub main_loop_advanced :
      (n : ℕ) (s s' : Session jit)
      → main_round jit threshold s ≡ ok s'
      → main_loop jit (suc n) threshold s ≡ main_loop jit n threshold s'
  unfolding main_loop
  main_loop_advanced n s s' advanced = rw (main_loop, advanced) refl

  main_loop_from :
      (n : ℕ) (c cpu : CpuState)
      → Execution follow n c cpu
      → (s : Session jit) → s.cpu ≡ c
      → IsServed jit follow s.pc_to_func s.compiled
      → follow.Ready c
      → (main_loop jit n threshold s ≡ failed) ⊎ Advances cpu (main_loop jit n threshold s)
  unfolding main_loop
  main_loop_from zero c cpu (finish end) s at served ready =
      inr (record { session = s; advanced = refl; reached = at; still = served })
  main_loop_from (suc n) c cpu (block {d = d} holds runs rest) s at served ready =
      elim (main_round_follows s d served (rw at ready) (rw at holds) (rw at runs)) [
        | inl refused ↦ inl (main_loop_refused n s refused)
        | inr advances ↦ rw (main_loop_advanced n s advances.session advances.advanced) (
            main_loop_from n d cpu rest advances.session advances.reached advances.still
              (follow.kept runs ready))
      ]

  -- As many rounds as blocks.
  pub main_loop_follows :
      (n : ℕ) (s : Session jit) (cpu : CpuState)
      → IsServed jit follow s.pc_to_func s.compiled
      → follow.Ready s.cpu
      → Execution follow n s.cpu cpu
      → (main_loop jit n threshold s ≡ failed) ⊎ Advances cpu (main_loop jit n threshold s)
  main_loop_follows n s cpu served ready run = main_loop_from n s.cpu cpu run s refl served ready
