-- ===== src/Tests/Image.antt =====
-- Memory of two segments as one array, and the image of a file.
use dbtranslator.Base.{
  ℕ, zero, suc, ◌+◌, ◌≤◌, ◌<◌, ◌≢◌, ◌≡◌, refl, ◌⊎◌, inr, true, some, List, [], ◌∷◌, arith,
  get_elem?,
}
use dbtranslator.Memory.{
  SegmentManager, MemoryManager, map_address, map_loop, map_round, covers, read8,
}
use dbtranslator.Memory.Valid.{IsValid}
use dbtranslator.Memory.Access.{InRange}
use dbtranslator.Memory.Width.{four, two, bytes, read, write}
use dbtranslator.Memory.Array.{AreDisjoint, flat_load}
use mathlib.Core.List.Perm
use dbtranslator.Memory.Requests.{Request, load, store, serve, serve_order}
use dbtranslator.Memory.Flat.{StoresFlat, read_flat, write_flat}
use dbtranslator.Binary.{ElfSegment, Elfio, parse_elf}
use dbtranslator.Binary.Image.{image_holds}
use dbtranslator.Tests.Sample.{zeroed_host, text, program}

abbrev table : SegmentManager
table = record { memory = 1 ∷ 2 ∷ 3 ∷ 4 ∷ []; memory_size = 4; guest_address = 0x1010 }

abbrev two_segments : MemoryManager
two_segments = record { segment_data = text ∷ table ∷ []; num_segments = 2 }

two_segments-IsValid : IsValid two_segments
two_segments-IsValid = record {
  counted = refl;
  segments = (
    record { sized = refl; bytes = (omega arith); placed = (omega arith) },
    (record { sized = refl; bytes = (omega arith); placed = (omega arith) }, tt),
  );
}

text_below : (a : ℕ) → covers text a ≡ true → a < 0x1010
unfolding covers
text_below a h = ground arith

table_above : (a : ℕ) → covers table a ≡ true → 0x100F < a
unfolding covers
table_above a h = ground arith

two_segments-AreDisjoint : AreDisjoint two_segments
two_segments-AreDisjoint zero zero a s t p q h k = refl
two_segments-AreDisjoint zero (suc zero) a s t p q h k =
    let first : text ≡ s = cc in
    let second : table ≡ t = cc in
    absurd (omega (arith, text_below a (rw (← first) at h), table_above a (rw (← second) at k)))
two_segments-AreDisjoint (suc zero) zero a s t p q h k =
    let first : table ≡ s = cc in
    let second : text ≡ t = cc in
    absurd (omega (arith, table_above a (rw (← first) at h), text_below a (rw (← second) at k)))
two_segments-AreDisjoint (suc zero) (suc zero) a s t p q h k = refl
two_segments-AreDisjoint (suc (suc i)) j a s t p q h k = cc
two_segments-AreDisjoint i (suc (suc j)) a s t p q h k = cc

in_table : InRange 2 two_segments 0x1012
unfolding map_address map_loop map_round covers
in_table = record {
  index = 1;
  offset = 2;
  seg = table;
  found = refl;
  at = refl;
  inside = (omega arith);
}

read_flat_example : read two two_segments 0x1012 ≡ flat_load (bytes two) (read8 two_segments) 0x1012
read_flat_example =
    read_flat two two_segments 0x1012 two_segments-IsValid two_segments-AreDisjoint in_table

write_flat_example :
    StoresFlat (bytes two) two_segments 0x1012 0xBEEF (write two two_segments 0x1012 0xBEEF)
write_flat_example =
    write_flat two two_segments 0x1012 0xBEEF two_segments-IsValid two_segments-AreDisjoint in_table

-- The same segments in the other order.
abbrev swapped : MemoryManager
swapped = record { segment_data = table ∷ text ∷ []; num_segments = 2 }

swapped-IsValid : IsValid swapped
swapped-IsValid = record {
  counted = refl;
  segments = (
    record { sized = refl; bytes = (omega arith); placed = (omega arith) },
    (record { sized = refl; bytes = (omega arith); placed = (omega arith) }, tt),
  );
}

abbrev requests : List Request
requests = store two 0x1012 0xBEEF ∷ load four 0x1010 ∷ load four 0x100C ∷ []

serve_order_example : serve requests two_segments ≡ serve requests swapped
serve_order_example =
    serve_order requests two_segments swapped two_segments-IsValid swapped-IsValid
      two_segments-AreDisjoint (Perm.swap table text [])

abbrev code_segment : ElfSegment
code_segment = record {
  flags = 5;
  memory_size = 16;
  virtual_address = 0x1000;
  data_bytes = program;
}

abbrev data_segment : ElfSegment
data_segment = record {
  flags = 6;
  memory_size = 4;
  virtual_address = 0x1010;
  data_bytes = 1 ∷ 2 ∷ 3 ∷ 4 ∷ [];
}

abbrev file : Elfio
file = record { segments = code_segment ∷ data_segment ∷ []; entry = 0x1000 }

apart :
    (j : ℕ) (other : ElfSegment)
    → j ≢ 1
    → get_elem? file.segments j ≡ some other
    → (0x1012 < other.virtual_address) ⊎ (other.virtual_address + other.memory_size ≤ 0x1012)
apart zero other ne at = let same : code_segment ≡ other = cc in rw (← same) (inr (omega arith))
apart (suc zero) other ne at = absurd (ne refl)
apart (suc (suc j)) other ne at = cc

image_holds_example :
    (image : MemoryManager × ℕ) × (parse_elf zeroed_host file ≡ some image)
    × (read8 image.0 0x1012 ≡ some 3)
image_holds_example =
    image_holds zeroed_host file 1 2 data_segment
      (
        record { filled = (omega arith); bytes = (omega arith); placed = (omega arith) },
        (record { filled = (omega arith); bytes = (omega arith); placed = (omega arith) }, tt),
      )
      (omega arith) refl (omega arith) (record { apart = apart; below = (omega arith) })
