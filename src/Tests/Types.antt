-- ===== src/Tests/Types.antt =====
-- LLVM's types made in a context that has none of them, and a dump.
use dbtranslator.Base.{◌≡◌, some, ◌++◌, [], ◌∷◌, arith, Text}
use dbtranslator.Cpu.Dump.{dump, shown, dump_shows}
use dbtranslator.Tests.Sample.{at, at-IsLegal}

dump_shows_example :
    (t : Text) × (dump (at 0x1000 40 7) ≡ some t)
    × (shown t ≡ (at 0x1000 40 7).registers ++ (0x1000 ∷ []))
dump_shows_example =
    dump_shows (at 0x1000 40 7)
      (at-IsLegal 0x1000 40 7 (omega arith) (omega arith) (omega arith)).valid
