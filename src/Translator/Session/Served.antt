-- ===== src/Translator/Session/Served.antt =====
-- The cache of tests/Main.cpp and the compiled functions: what each cached function does.
use native.Mathlib.Decide.{ℕ_discrete}
use mathlib.Core.Path.{subst}
use dbtranslator.Base.{Text, ℕ, ◌≡◌, sym, ◌∙◌, ap, none, some, IsWord}
use dbtranslator.Memory.{MemoryManager}
use dbtranslator.Cpu.{CpuState}
use dbtranslator.Llvm.Semantics.{Llvm}
use dbtranslator.Llvm.Builder.{Build}
use dbtranslator.Translator.Name.{block_name, block_name-injective}
use dbtranslator.Translator.Block.{generate_func}
use dbtranslator.Translator.Block.Correct.{Holds, same_block}
use dbtranslator.Translator.Block.Follow.{Follow}
use dbtranslator.Translator.Jit.{Provides, Jit}
use dbtranslator.Translator.Session.{BlockCache, find, insert}
use dbtranslator.Translator.Session.Cache.{find-insert_self, find-insert_again, find-insert_ne}

module _ {llvm : Llvm} (jit : Jit llvm) {code : MemoryManager} {threshold : ℕ}
    (follow : Follow llvm code threshold) where
  open jit use {State, add_module, call, functions, call_added, call_kept, functions_kept}

  -- The function runs the block at the address.
  abbrev pub Serves : State → ℕ → Text → Type 0
  Serves compiled pc name =
      (c c' : CpuState)
      → c.pc ≡ pc
      → follow.Ready c
      → follow.Run c c'
      → call name compiled c ≡ some c'

  -- The memory interface is bound, and each cached function has its address's name and runs the block
  -- there.
  pub record IsServed (cache : BlockCache) (compiled : State) : Type 0 where
    pub memory : Provides (functions compiled)
    pub entry :
        (pc : ℕ) (name : Text)
        → find pc cache ≡ some name
        → IsWord pc × (name ≡ block_name pc) × Serves compiled pc name

  -- A new block, under its name, leaves the others served.
  pub IsServed-insert :
      (cache : BlockCache) (j j' : State) (s : CpuState) (b : Build (Unit {0}))
      → IsServed cache j
      → find s.pc cache ≡ none
      → follow.Ready s
      → Holds code s.manager
      → generate_func s threshold ≡ some b
      → add_module (block_name s.pc) b j ≡ some j'
      → IsServed (insert s.pc (block_name s.pc) cache) j'
  IsServed-insert cache j j' s b served missing ready holds built added = record {
    memory = subst Provides (sym (functions_kept s.pc b j j' added)) served.memory;
    entry = λ k name at. elim (ℕ_discrete s.pc k) [
      | yes same ↦
          let here =
            same_block _ (block_name s.pc) name (find-insert_self s.pc k _ cache same missing) at in
          (
            rw (← same) (follow.counter ready),
            sym here ∙ ap block_name same,
            λ c c' pc legal runs.
                (rw (← here) (
                  call_added (block_name s.pc) b j j' c c' added served.memory
                    (follow.again s c c' b ready holds built (pc ∙ sym same) legal runs))),
          )
      | no other ↦
          let (word, named, serves) =
            served.entry k name (sym (find-insert_ne s.pc k (block_name s.pc) cache other) ∙ at) in
          (
            word,
            named,
            λ c c' pc legal runs.
                call_kept (block_name s.pc) name b j j' c added (λ clash. other (
                  sym
                    (block_name-injective k s.pc word (follow.counter ready) (sym named ∙ clash))))
                ∙ serves c c' pc legal runs,
          )
    ];
  }

  pub IsServed-again :
      (cache : BlockCache) (compiled : State) (pc : ℕ) (name old : Text)
      → find pc cache ≡ some old
      → IsServed cache compiled
      → IsServed (insert pc name cache) compiled
  IsServed-again cache compiled pc name old present served = record {
    memory = served.memory;
    entry = λ k found at.
        served.entry k found (sym (find-insert_again pc k name old cache present) ∙ at);
  }
