-- ===== src/Tests/Memory.antt =====
-- Accesses to the sample program's memory, and the loading of a file.
use dbtranslator.Base.{
  ℕ, zero, suc, ◌-◌, ◌*◌, ◌%◌, ◌^◌, ◌<◌, ◌≡◌, ◌⊎◌, refl, true, false, none, some, [], ◌∷◌, arith,
  length, replicate, get_elem?,
}
use dbtranslator.Memory.{
  SegmentManager, MemoryManager, mapped, null, read8, read16, read32, write8, write16, write32,
  map_address, map_loop, map_round, covers, deref, assign, load_bytes, load_byte, store_bytes,
  store_byte,
}
use dbtranslator.Memory.Valid.{IsValid, covers_wrapped}
use dbtranslator.Memory.Search.{IsFirst, IsUncovered, map_address_total}
use dbtranslator.Memory.Access.{InRange, IsUpdate, access_unmapped}
use dbtranslator.Memory.Width.{one, four, bytes, read, write, read_total, write_total, write_kept}
use dbtranslator.Cpu.{reg}
use dbtranslator.Riscv.Invariant.{IsLegal}
use dbtranslator.Binary.{ElfSegment, Elfio, parse_elf, initial_state, stack_segment}
use dbtranslator.Binary.Boot.{boot-IsLegal, parse_elf_overread}
use dbtranslator.Tests.Sample.{zeroed_host, text, manager, manager-IsValid}

in_text : InRange 4 manager 0x1004
unfolding map_address map_loop map_round covers
in_text = record {
  index = 0;
  offset = 4;
  seg = text;
  found = refl;
  at = refl;
  inside = (omega arith);
}

read_sample : read32 manager 0x1004 ≡ some 0x00108133
unfolding read32 map_address map_loop map_round covers deref load_bytes load_byte
read_sample = refl

read_total_example : (v : ℕ) × (read four manager 0x1004 ≡ some v) × (v < 2 ^ (8 * bytes four))
read_total_example = read_total four manager 0x1004 manager-IsValid in_text

write_total_example :
    (m' : MemoryManager) × (write four manager 0x1004 0xDEADBEEF ≡ some m')
    × (read four m' 0x1004 ≡ some 0xDEADBEEF)
    × IsUpdate (bytes four) 0x1004 manager m'
write_total_example =
    write_total four manager 0x1004 0xDEADBEEF manager-IsValid in_text (omega arith)

abbrev changed : MemoryManager
changed = record {
  segment_data =
      record text {
        memory =
            0x93 ∷ 0x01 ∷ 0x50 ∷ 0x00 ∷ 0x33 ∷ 0x81 ∷ 0x10 ∷ 0x00 ∷ 0x63 ∷ 0x00 ∷ 0x00 ∷ 0x00 ∷ 0x73
            ∷ 0x00 ∷ 0x00 ∷ 0x00 ∷ [];
      }
      ∷ [];
  num_segments = 1;
}

write_kept_example : IsValid changed
unfolding write8 map_address map_loop map_round covers assign store_bytes store_byte
write_kept_example = write_kept one manager 0x1001 1 changed manager-IsValid refl

uncovered : IsUncovered manager.segment_data 0x2000
unfolding covers
uncovered zero s at = let same : text ≡ s = cc in rw (← same)
uncovered (suc j) s at = cc

access_unmapped_example :
    (read8 manager 0x2000 ≡ none)
    × (read16 manager 0x2000 ≡ none)
    × (read32 manager 0x2000 ≡ none)
    × (write8 manager 0x2000 7 ≡ none)
    × (write16 manager 0x2000 7 ≡ none)
    × (write32 manager 0x2000 7 ≡ none)
access_unmapped_example = access_unmapped manager 0x2000 7 manager-IsValid uncovered

map_address_total_example :
    ((i : ℕ) × (off : ℕ) × (map_address manager 0x1004 ≡ mapped i off)
      × IsFirst manager.segment_data 0 0x1004 i off)
    ⊎ ((map_address manager 0x1004 ≡ null) × IsUncovered manager.segment_data 0x1004)
map_address_total_example = map_address_total manager 0x1004 refl

-- A segment of the last sixteen addresses.
abbrev top : SegmentManager
top = record { memory = replicate 16 0; memory_size = 16; guest_address = 2 ^ 32 - 16 }

covers_wrapped_example : covers top (2 ^ 32 - 8) ≡ false
covers_wrapped_example = covers_wrapped top (2 ^ 32 - 8) (omega arith) (omega arith)

abbrev code_segment : ElfSegment
code_segment = record {
  flags = 5;
  memory_size = 4;
  virtual_address = 0x1000;
  data_bytes = 0x93 ∷ 0x00 ∷ 0x50 ∷ 0x00 ∷ [];
}

abbrev file : Elfio
file = record { segments = code_segment ∷ []; entry = 0x1000 }

boot-IsLegal_example :
    (image : MemoryManager × ℕ) × (parse_elf zeroed_host file ≡ some image)
    × IsLegal (initial_state image)
    × ((initial_state image).pc ≡ file.entry % 2 ^ 32)
    × (get_elem? image.0.segment_data (length file.segments) ≡ some (stack_segment zeroed_host))
    × (covers (stack_segment zeroed_host) (reg (initial_state image) 2) ≡ true)
boot-IsLegal_example =
    boot-IsLegal zeroed_host file
      (record { filled = (omega arith); bytes = (omega arith); placed = (omega arith) }, tt)
      (omega arith)

-- A file whose second segment ends in two zero-initialised bytes.
abbrev data_segment : ElfSegment
data_segment = record {
  flags = 6;
  memory_size = 4;
  virtual_address = 0x2000;
  data_bytes = 0x01 ∷ 0x02 ∷ [];
}

abbrev file_with_data : Elfio
file_with_data = record { segments = code_segment ∷ data_segment ∷ []; entry = 0x1000 }

parse_elf_overread_example : parse_elf zeroed_host file_with_data ≡ none
parse_elf_overread_example =
    parse_elf_overread zeroed_host file_with_data 1 data_segment refl (omega arith)
