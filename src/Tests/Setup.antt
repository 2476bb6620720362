-- ===== src/Tests/Setup.antt =====
-- `main` of tests/Main.cpp from its arguments on.
use dbtranslator.Base.{Text, ◌≡◌, refl, none, some, [], ◌∷◌}
use dbtranslator.Translator.Jit.Reference.{reference_jit, bare, linked}
use dbtranslator.Translator.Setup.{debug, threshold, input_elf, memory_impl, declared, main}
use dbtranslator.Translator.Setup.Start.{expected, main_started}
use dbtranslator.Translator.Setup.Reference.{
  Arguments, reference_argparse, reference_toolchain, value_of,
}
use dbtranslator.Tests.Sample.{zeroed_host}
use dbtranslator.Tests.Translator.{file, image, file_parses}
use dbtranslator.Llvm.Exec.{call_value}

-- The names of the two files, and a threshold of 5.
abbrev elf_name : Text
elf_name = b'a' ∷ []

abbrev impl_name : Text
impl_name = b'm' ∷ []

abbrev without_threshold : Arguments
without_threshold debug = none
without_threshold threshold = none
without_threshold input_elf = some elf_name
without_threshold memory_impl = some impl_name

abbrev with_threshold : Arguments
with_threshold debug = none
with_threshold threshold = some (b'5' ∷ [])
with_threshold input_elf = some elf_name
with_threshold memory_impl = some impl_name

main_started_example :
    main reference_jit
      (reference_toolchain (λ name. some call_value))
      reference_argparse
      zeroed_host
      (λ name. file)
      with_threshold
      1
    ≡ expected reference_jit
        (reference_toolchain (λ name. some call_value))
        reference_argparse
        zeroed_host
        (λ name. file)
        (some (b'5' ∷ []))
        linked
        (image, 0x1000)
        1
unfolding declared
main_started_example =
    main_started reference_jit (reference_toolchain (λ name. some call_value)) reference_argparse
      zeroed_host (λ name. file) with_threshold (λ o. value_of (declared o) (with_threshold o))
      impl_name elf_name call_value bare linked (image, 0x1000) 0 refl refl refl refl refl refl
      file_parses
