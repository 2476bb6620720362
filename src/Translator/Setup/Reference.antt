-- ===== src/Translator/Setup/Reference.antt =====
-- A parser of arguments and a compiler to set up as tests/Main.cpp uses them: the parser's laws can be
-- met.
use dbtranslator.Base.{
  Text, ◌≡◌, ◌≢◌, refl, sym, ap, ◌∙◌, inl, inr, Bool, true, false, ◌&&◌, Option, none, some, [],
  if◌then◌else◌, Bool-cases, arith,
}
use dbtranslator.Translator.Jit.{Functions}
use dbtranslator.Translator.Jit.Reference.{bare, reference_jit}
use dbtranslator.Translator.Setup.{
  OptionName, debug, threshold, input_elf, memory_impl, Declaration, flag, required, default_value,
  Value, text, switch, Argparse, Toolchain,
}

-- What the command line has after each option.
abbrev pub Arguments : Type 0
Arguments = OptionName → Option Text

abbrev pub value_of : Declaration → Option Text → Value
value_of flag none = switch false
value_of flag (some t) = switch true
value_of required none = text []
value_of required (some t) = text t
value_of (default_value v) none = v
value_of (default_value v) (some t) = text t

abbrev pub is_there : Declaration → Option Text → Bool
is_there required none = false
is_there _ _ = true

abbrev pub complete : (OptionName → Declaration) → Arguments → Bool
complete d argv =
    is_there (d debug) (argv debug)
    && is_there (d threshold) (argv threshold)
    && is_there (d input_elf) (argv input_elf)
    && is_there (d memory_impl) (argv memory_impl)

abbrev pub parse_arguments : (OptionName → Declaration) → Arguments → Option (OptionName → Value)
parse_arguments d argv = if complete d argv then some (λ o. value_of (d o) (argv o)) else none

pub parsed_value :
    (d : OptionName → Declaration) (argv : Arguments) (values : OptionName → Value) (o : OptionName)
    → parse_arguments d argv ≡ some values
    → values o ≡ value_of (d o) (argv o)
parsed_value d argv values o parsed = elim (Bool-cases (complete d argv)) [
  | inl whole ↦
      let same : (λ p. value_of (d p) (argv p)) ≡ values = cc (rw whole at parsed) in
      ap (λ f. f o) (sym same)
  | inr lacking ↦ cc (rw lacking at parsed)
]

pub value_of-text : (d : Declaration) (t : Text) → d ≢ flag → value_of d (some t) ≡ text t
value_of-text flag t plain = absurd (plain refl)
value_of-text required t plain = refl
value_of-text (default_value v) t plain = refl

complete_there :
    (d : OptionName → Declaration) (argv : Arguments) (o : OptionName)
    → complete d argv ≡ true
    → is_there (d o) (argv o) ≡ true
complete_there d argv debug whole = ground arith
complete_there d argv threshold whole = ground arith
complete_there d argv input_elf whole = ground arith
complete_there d argv memory_impl whole = ground arith

pub required_there :
    (d : OptionName → Declaration) (argv : Arguments) (values : OptionName → Value) (o : OptionName)
    → parse_arguments d argv ≡ some values
    → d o ≡ required
    → argv o ≢ none
required_there d argv values o parsed needed absent = elim (Bool-cases (complete d argv)) [
  | inl whole ↦ cc (rw (needed, absent) at (complete_there d argv o whole))
  | inr lacking ↦ cc (rw lacking at parsed)
]

abbrev pub reference_argparse : Argparse
reference_argparse = record {
  Argv = Arguments;
  given = λ argv o. argv o;
  parse_args = parse_arguments;
  text_kept = λ d argv values o t parsed plain at.
      parsed_value d argv values o parsed ∙ ap (value_of (d o)) at ∙ value_of-text (d o) t plain;
  default_kept = λ d argv values o v parsed default absent.
      parsed_value d argv values o parsed ∙ rw (default, absent);
  required_given = required_there;
}

-- A module is the functions that it defines; which file holds which module is given by a function.
-- The compiler has no functions at first.
abbrev pub reference_toolchain : (Text → Option Functions) → Toolchain reference_jit
reference_toolchain read = record {
  Module = Functions;
  create = some bare;
  parse_ir_file = read;
  run_passes = λ m. m;
  add_ir_module = λ m compiled. some (record compiled { bound = m });
  defined = λ m. m;
  passes_keep = λ m f args s r result. result;
  module_bound = λ m j j' added. cc;
}
