-- ===== src/Memory/Valid.antt =====
-- Well-formed guest memory, and which addresses a segment covers (include/dbtranslator/Memory.h).
use dbtranslator.Base.{
  ℕ, ◌+◌, ◌^◌, ◌≤◌, ◌<◌, ◌≡◌, ◌↔◌, true, false, some, arith, get_elem?, length, All, All-get_elem?,
  IsByte,
}
use dbtranslator.Memory.{SegmentManager, MemoryManager, covers}

-- The array has the size that the segment states, its entries are bytes, and the segment ends
-- below 2 ^ 32.
pub record SegmentIsValid (seg : SegmentManager) : Type 0 where
  pub sized : length seg.memory ≡ seg.memory_size
  pub bytes : All IsByte seg.memory
  pub placed : seg.guest_address + seg.memory_size < 2 ^ 32

pub record IsValid (m : MemoryManager) : Type 0 where
  pub counted : m.num_segments ≡ length m.segment_data
  pub segments : All SegmentIsValid m.segment_data

-- A segment that ends below 2 ^ 32 covers exactly its own addresses.
pub covers_iff :
    (seg : SegmentManager) (addr : ℕ)
    → seg.guest_address + seg.memory_size < 2 ^ 32
    → (covers seg addr ≡ true)
      ↔ ((seg.guest_address ≤ addr) × (addr < seg.guest_address + seg.memory_size))
unfolding covers
covers_iff seg addr placed = (λ h. (ground arith, ground arith), λ (lo, hi). ground arith)

-- A segment of a size below 2 ^ 32 whose end reaches 2 ^ 32 covers no address at all.
pub covers_wrapped :
    (seg : SegmentManager) (addr : ℕ)
    → seg.memory_size < 2 ^ 32
    → 2 ^ 32 ≤ seg.guest_address + seg.memory_size
    → covers seg addr ≡ false
unfolding covers
covers_wrapped seg addr size ends = ground arith

pub IsValid-segment :
    {m : MemoryManager} (i : ℕ) {seg : SegmentManager}
    → IsValid m
    → get_elem? m.segment_data i ≡ some seg
    → SegmentIsValid seg
IsValid-segment {m} i v at = All-get_elem? SegmentIsValid m.segment_data i at v.segments
