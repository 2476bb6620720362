-- ===== src/Cpu/Dump.antt =====
-- src/CPU.cpp: `dump` prints the registers and the counter.
use mathlib.Core.List.{append_assoc}
use dbtranslator.Base.{
  length-snoc, get_elem?-middle, ℕ, zero, suc, ◌+◌, ◌-◌, ◌*◌, ◌≡◌, refl, ap, sym, ◌∙◌, false,
  Option, none, some, List, [], ◌∷◌, ◌++◌, arith, ◌==◌, if◌then◌else◌, ◌>>=◌, get_elem?, length,
  All, IsWord, Text, to_string, value, value-to_string, to_string-digits, IsDigit,
}
use dbtranslator.Cpu.{CpuState, IsValid, read_register}

-- `std::cout << "R" << I << " " << State->Registers[I] << std::endl`
abbrev pub register_line : ℕ → ℕ → Text
register_line i v = (b'R' ∷ to_string i) ++ (b' ' ∷ to_string v) ++ (b'\n' ∷ [])

-- `std::cout << "PC " << State->PC << std::endl`
abbrev pub counter_line : ℕ → Text
counter_line pc = (b'P' ∷ b'C' ∷ b' ' ∷ to_string pc) ++ (b'\n' ∷ [])

-- The loop at register `i`, with `left` rounds to go.
unfoldable pub dump_registers : ℕ → ℕ → CpuState → Option Text
dump_registers zero i s = some []
dump_registers (suc left) i s = do
  v ← read_register s i
  later ← dump_registers left (i + 1) s
  some (register_line i v ++ later)

-- What is written to `std::cout`.
unfoldable pub dump : CpuState → Option Text
dump s = dump_registers 32 0 s >>= λ registers. some (registers ++ counter_line s.pc)

-- The number after the space of each line; the first argument is the number so far, after a space.
abbrev pub shown_from : Option ℕ → Text → List ℕ
shown_from none [] = []
shown_from none (c ∷ cs) =
    let before = shown_from none cs in
    let after = shown_from (some 0) cs in if c == b' ' then after else before
shown_from (some v) [] = []
shown_from (some v) (c ∷ cs) =
    let next = shown_from none cs in
    let longer = shown_from (some (10 * v + (c - b'0'))) cs in
    if c == b'\n' then v ∷ next else longer

abbrev pub shown : Text → List ℕ
shown t = shown_from none t

number_shown :
    (digits rest : Text) (v : ℕ)
    → All IsDigit digits
    → shown_from (some v) (digits ++ (b'\n' ∷ rest)) ≡ value v digits ∷ shown rest
number_shown [] rest v all = refl
number_shown (c ∷ digits) rest v (digit, all) =
    let inner : (c == b'\n') ≡ false = ground arith in
    rw inner (number_shown digits rest (10 * v + (c - b'0')) all)

label_skipped :
    (digits rest : Text)
    → All IsDigit digits
    → shown_from none (digits ++ (b' ' ∷ rest)) ≡ shown_from (some 0) rest
label_skipped [] rest all = refl
label_skipped (c ∷ digits) rest (digit, all) =
    let inner : (c == b' ') ≡ false = ground arith in rw inner (label_skipped digits rest all)

shown-register_line :
    (i v : ℕ) (rest : Text) → IsWord v → shown (register_line i v ++ rest) ≡ v ∷ shown rest
shown-register_line i v rest fits =
    let tail = to_string v ++ (b'\n' ∷ rest) in
    let shape : (register_line i v ++ rest) ≡ b'R' ∷ (to_string i ++ (b' ' ∷ tail)) =
      append_assoc ((b'R' ∷ to_string i) ++ (b' ' ∷ to_string v)) (b'\n' ∷ []) rest
      ∙ append_assoc (b'R' ∷ to_string i) (b' ' ∷ to_string v) (b'\n' ∷ rest) in
    ap shown shape
    ∙ label_skipped (to_string i) tail (to_string-digits i)
    ∙ number_shown (to_string v) rest 0 (to_string-digits v)
    ∙ ap (λ (n : ℕ). n ∷ shown rest) (value-to_string v (omega arith))

shown-counter_line : (pc : ℕ) → IsWord pc → shown (counter_line pc) ≡ pc ∷ []
shown-counter_line pc fits =
    number_shown (to_string pc) [] 0 (to_string-digits pc)
    ∙ ap (λ (n : ℕ). n ∷ []) (value-to_string pc (omega arith))

registers_shown :
    (xs pre : List ℕ) (s : CpuState)
    → s.registers ≡ pre ++ xs
    → All IsWord xs
    → (t : Text) × (dump_registers (length xs) (length pre) s ≡ some t)
      × ((rest : Text) → shown (t ++ rest) ≡ xs ++ shown rest)
unfolding dump_registers read_register
registers_shown [] pre s whole words = ([], refl, λ rest. refl)
registers_shown (x ∷ xs) pre s whole (word, words) =
    let here : get_elem? s.registers (length pre) ≡ some x = rw whole (get_elem?-middle pre x xs) in
    let (later, dumps, shows) =
      registers_shown xs (pre ++ (x ∷ [])) s (whole ∙ sym (append_assoc pre (x ∷ []) xs)) words in
    (
      register_line (length pre) x ++ later,
      rw (here, ← length-snoc pre x, dumps),
      λ rest.
          ap shown (append_assoc (register_line (length pre) x) later rest)
          ∙ shown-register_line (length pre) x (later ++ rest) word
          ∙ ap (λ (l : List ℕ). x ∷ l) (shows rest),
    )

-- `dump` prints a well-formed state whole: the numbers after the spaces of its lines are the
-- registers, in order, and then the counter.
pub dump_shows :
    (s : CpuState)
    → IsValid s
    → (t : Text) × (dump s ≡ some t) × (shown t ≡ s.registers ++ (s.pc ∷ []))
unfolding dump
dump_shows s valid =
    let (t, dumps, shows) = registers_shown s.registers [] s refl valid.words in
    let all : dump_registers 32 0 s ≡ some t = rw (← valid.sized) dumps in
    (
      t ++ counter_line s.pc,
      rw all,
      shows (counter_line s.pc)
          ∙ ap (λ (l : List ℕ). s.registers ++ l) (shown-counter_line s.pc valid.counter),
    )
