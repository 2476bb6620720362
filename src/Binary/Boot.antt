-- ===== src/Binary/Boot.antt =====
-- src/Binary.cpp and tests/Main.cpp: the files that give a legal first state, and those that do not.
use dbtranslator.Base.{
  ℕ, zero, suc, ◌+◌, ◌%◌, ◌^◌, ◌≤◌, ◌<◌, ◌≡◌, refl, ap, true, none, some, List, [], ◌∷◌, ◌++◌,
  arith, length, get_elem?, All, IsByte, Option-cases, length-snoc, get_elem?-middle, inl, inr,
  Bool, false, ◌||◌, ◌==◌,
}
use dbtranslator.Memory.{SegmentManager, MemoryManager, covers}
use dbtranslator.Memory.Valid.{IsValid as MemoryIsValid, SegmentIsValid}
use dbtranslator.Cpu.{reg}
use dbtranslator.Riscv.Invariant.{IsLegal}
use dbtranslator.Binary.{
  ElfSegment, Elfio, Host, load_segment, load_segments, stack_segment, stack_size, pt_load,
  parse_elf, initial_state,
}
use dbtranslator.Binary.Copy.{memcpy_total, memcpy_overread}

-- A segment that the file holds whole, and that ends below 2 ^ 32.
pub record IsWhole (from : ElfSegment) : Type 0 where
  pub filled : from.memory_size ≤ length from.data_bytes
  pub bytes : All IsByte from.data_bytes
  pub placed : from.virtual_address + from.memory_size < 2 ^ 32

pub or_true : (b : Bool) → (b || true) ≡ true
or_true true = refl
or_true false = refl

module _ (host : Host) where
  load_segment_overread :
      (from : ElfSegment)
      → length from.data_bytes < from.memory_size % 2 ^ 32
      → load_segment host from ≡ none
  unfolding load_segment
  load_segment_overread from short =
      let size = from.memory_size % 2 ^ 32 in
      rw (
        or_true (from.flags == pt_load),
        memcpy_overread size from.data_bytes (host.operator_new size) short,
      )

  load_segment_total :
      (from : ElfSegment)
      → IsWhole from
      → (seg : SegmentManager) × (load_segment host from ≡ some seg) × SegmentIsValid seg
  unfolding load_segment
  load_segment_total from whole =
      let size = from.memory_size % 2 ^ 32 in
      let copied =
        memcpy_total size from.data_bytes (host.operator_new size) (omega (arith, whole.filled))
          (host.operator_new-length size) (whole.bytes) in
      (
        record {
          memory = copied.result;
          memory_size = size;
          guest_address = from.virtual_address % 2 ^ 32;
        },
        rw (or_true (from.flags == pt_load), copied.succeeds),
        record {
          sized = copied.sized;
          bytes = copied.in_bytes;
          placed = omega (arith, whole.placed);
        },
      )

  pub load_segments_total :
      (segments : List ElfSegment)
      → All IsWhole segments
      → (loaded : List SegmentManager) × (load_segments host segments ≡ some loaded)
        × (length loaded ≡ length segments)
        × All SegmentIsValid loaded
  unfolding load_segments
  load_segments_total [] whole = ([], refl, refl, tt)
  load_segments_total (from ∷ rest) (whole, wholes) =
      let (segment, loads, valid) = load_segment_total from whole in
      let (later, rest_loads, sized, valids) = load_segments_total rest wholes in
      (segment ∷ later, rw (loads, rest_loads), ap suc sized, (valid, valids))

  pub stack_segment-IsValid : SegmentIsValid (stack_segment host)
  unfolding stack_segment
  stack_segment-IsValid = record {
    sized = host.operator_new-length stack_size;
    bytes = host.operator_new-bytes stack_size;
    placed = omega arith;
  }

pub All-snoc :
    (P : SegmentManager → Type 0) (segs : List SegmentManager) (seg : SegmentManager)
    → All P segs
    → P seg
    → All P (segs ++ (seg ∷ []))
All-snoc P [] seg all last = (last, tt)
All-snoc P (s ∷ segs) seg (first, all) last = (first, All-snoc P segs seg all last)

module _ (host : Host) where
  initial_state-IsLegal :
      (m : MemoryManager) (entry : ℕ)
      → MemoryIsValid m
      → entry < 2 ^ 32
      → IsLegal (initial_state (m, entry))
  unfolding initial_state
  initial_state-IsLegal m entry valid fits = record {
    valid = record { sized = refl; words = (omega arith); counter = fits; memory = valid };
    zero = refl;
  }

  -- A file whose segments all hold as many bytes as they take in memory and end below 2 ^ 32, with
  -- fewer than 2 ^ 32 - 1 of them, is loaded, and the first state is legal, is at the file's entry,
  -- and has its stack pointer in the last segment, which is the stack.
  pub boot-IsLegal :
      (reader : Elfio)
      → All IsWhole reader.segments
      → length reader.segments + 1 < 2 ^ 32
      → (image : MemoryManager × ℕ) × (parse_elf host reader ≡ some image)
        × IsLegal (initial_state image)
        × ((initial_state image).pc ≡ reader.entry % 2 ^ 32)
        × (get_elem? image.0.segment_data (length reader.segments) ≡ some (stack_segment host))
        × (covers (stack_segment host) (reg (initial_state image) 2) ≡ true)
  unfolding parse_elf initial_state covers stack_segment
  boot-IsLegal reader wholes few =
      let (loaded, loads, counted, valids) = load_segments_total host reader.segments wholes in
      let size = length-snoc {0} loaded (stack_segment host) in
      (
        (
          record {
            segment_data = loaded ++ (stack_segment host ∷ []);
            num_segments = (length reader.segments + 1) % 2 ^ 32;
          },
          reader.entry % 2 ^ 32,
        ),
        rw loads,
        initial_state-IsLegal _ _
            (record {
              counted = omega (arith, size, counted);
              segments = All-snoc SegmentIsValid loaded _ valids (stack_segment-IsValid host);
            })
            (omega arith),
        refl,
        rw (← counted) (get_elem?-middle loaded (stack_segment host) []),
        refl,
      )

  load_segments_overread :
      (segments : List ElfSegment) (i : ℕ) (from : ElfSegment)
      → get_elem? segments i ≡ some from
      → length from.data_bytes < from.memory_size % 2 ^ 32
      → load_segments host segments ≡ none
  unfolding load_segments
  load_segments_overread [] i from at short = cc
  load_segments_overread (first ∷ rest) zero from at short =
      let same : first ≡ from = cc in rw (same, load_segment_overread host from short)
  load_segments_overread (first ∷ rest) (suc i) from at short =
      elim (Option-cases (load_segment host first)) [
        | inl none_loaded ↦ rw none_loaded
        | inr (segment, loads) ↦ rw (loads, load_segments_overread rest i from at short)
      ]

  -- A file one of whose segments takes more bytes in memory than the file holds of it, as one with
  -- zero-initialised data does, is not loaded: the copy runs past the segment's data.
  pub parse_elf_overread :
      (reader : Elfio) (i : ℕ) (from : ElfSegment)
      → get_elem? reader.segments i ≡ some from
      → length from.data_bytes < from.memory_size % 2 ^ 32
      → parse_elf host reader ≡ none
  unfolding parse_elf
  parse_elf_overread reader i from at short =
      rw (load_segments_overread reader.segments i from at short)
