-- ===== src/Memory.antt =====
-- include/dbtranslator/Memory.h and src/Memory.cpp: guest memory as segments of host memory,
-- the search for the segment of a guest address, and the six accesses that translated code calls.
pub mod Search
pub mod Valid
pub mod Bytes
pub mod Update
pub mod Access
pub mod Width
pub mod Array
pub mod Store
pub mod Flat
pub mod Order
pub mod Requests
pub mod Types
use dbtranslator.Base.{
  ℕ, zero, suc, ◌+◌, ◌-◌, ◌*◌, ◌/◌, ◌%◌, ◌^◌, Bool, ◌&&◌, Option, none, some, List, ltb, leb,
  if◌then◌else◌, get_elem?, set, ◌>>=◌,
}

-- `Memory` is the list of the bytes that it points to.
pub record SegmentManager : Type 0 where
  pub memory : List ℕ
  pub memory_size : ℕ
  pub guest_address : ℕ

pub record MemoryManager : Type 0 where
  pub segment_data : List SegmentManager
  pub num_segments : ℕ

-- What `mapAddress` does: a pointer to a byte of a segment, `nullptr`, or a read of `SegmentData`
-- past its end.
pub data Mapping : Type 0 where
  mapped : ℕ → ℕ → Mapping
  null overrun : Mapping

-- The test of the loop; the end of the segment is a `uint32_t`, so it wraps.
unfoldable pub covers : SegmentManager → ℕ → Bool
covers seg addr =
    leb seg.guest_address addr && ltb addr ((seg.guest_address + seg.memory_size) % 2 ^ 32)

-- One round at index `i`, given what the rounds from `i + 1` on return.
unfoldable pub map_round : Option SegmentManager → ℕ → ℕ → Mapping → Mapping
map_round none i addr rest = overrun
map_round (some seg) i addr rest =
    if covers seg addr then mapped i (addr - seg.guest_address) else rest

-- The loop at index `i`, with `left` rounds to go.
unfoldable pub map_loop : List SegmentManager → ℕ → ℕ → ℕ → Mapping
map_loop segs zero i addr = null
map_loop segs (suc left) i addr =
    let rest = map_loop segs left (i + 1) addr in map_round (get_elem? segs i) i addr rest

unfoldable pub map_address : MemoryManager → ℕ → Mapping
map_address m addr = map_loop m.segment_data m.num_segments 0 addr

-- The byte at offset `off` of segment `i`; `none` is an access outside every array.
unfoldable pub load_byte : MemoryManager → ℕ → ℕ → Option ℕ
load_byte m i off = get_elem? m.segment_data i >>= λ seg. get_elem? seg.memory off

unfoldable pub store_byte : MemoryManager → ℕ → ℕ → ℕ → Option MemoryManager
store_byte m i off v = get_elem? m.segment_data i >>= λ seg. get_elem? seg.memory off >>= λ _.
    some (record m {
      segment_data = set m.segment_data i (record seg { memory = set seg.memory off v });
    })

-- `n` bytes from an offset on, the lowest first.
unfoldable pub load_bytes : ℕ → MemoryManager → ℕ → ℕ → Option ℕ
load_bytes zero m i off = some 0
load_bytes (suc n) m i off = do
  low ← load_byte m i off
  high ← load_bytes n m i (off + 1)
  some (low + 2 ^ 8 * high)

unfoldable pub store_bytes : ℕ → MemoryManager → ℕ → ℕ → ℕ → Option MemoryManager
store_bytes zero m i off v = some m
store_bytes (suc n) m i off v = do
  m' ← store_byte m i off (v % 2 ^ 8)
  store_bytes n m' i (off + 1) (v / 2 ^ 8)

-- `*MappedAddr` for a `T` of `n` bytes.
unfoldable pub deref : ℕ → MemoryManager → Mapping → Option ℕ
deref n m (mapped i off) = load_bytes n m i off
deref n m null = none
deref n m overrun = none

-- `*MappedAddr = Data`
unfoldable pub assign : ℕ → MemoryManager → Mapping → ℕ → Option MemoryManager
assign n m (mapped i off) v = store_bytes n m i off v
assign n m null v = none
assign n m overrun v = none

unfoldable pub read8 : MemoryManager → ℕ → Option ℕ
read8 m addr = deref 1 m (map_address m addr)

unfoldable pub read16 : MemoryManager → ℕ → Option ℕ
read16 m addr = deref 2 m (map_address m addr)

unfoldable pub read32 : MemoryManager → ℕ → Option ℕ
read32 m addr = deref 4 m (map_address m addr)

unfoldable pub write8 : MemoryManager → ℕ → ℕ → Option MemoryManager
write8 m addr v = assign 1 m (map_address m addr) v

unfoldable pub write16 : MemoryManager → ℕ → ℕ → Option MemoryManager
write16 m addr v = assign 2 m (map_address m addr) v

unfoldable pub write32 : MemoryManager → ℕ → ℕ → Option MemoryManager
write32 m addr v = assign 4 m (map_address m addr) v
