-- ===== src/Memory/Flat.antt =====
-- src/Memory.cpp: the reads and writes are those of one array of bytes, whatever segments memory is
-- made of.
use dbtranslator.Base.{ℕ, ◌≡◌, Option, some}
use dbtranslator.Memory.{
  MemoryManager, map_address, deref, assign, read8, read16, read32, write8, write16, write32,
}
use dbtranslator.Memory.Valid.{IsValid}
use dbtranslator.Memory.Bytes.{put_bytes, store_bytes-Spans}
use dbtranslator.Memory.Access.{InRange, InRange-Spans}
use dbtranslator.Memory.Width.{Width, one, two, four, bytes, read, write}
use dbtranslator.Memory.Array.{flat_load, flat_store, AreDisjoint, InRange-IsRun, load_flat}
use dbtranslator.Memory.Store.{put_flat, put_bytes-AreDisjoint}

-- The read of a number of bytes in range is that of the array.
deref_flat :
    (n : ℕ) (m : MemoryManager) (addr : ℕ)
    → IsValid m
    → AreDisjoint m
    → InRange n m addr
    → deref n m (map_address m addr) ≡ flat_load n (read8 m) addr
unfolding deref
deref_flat n m addr valid disjoint r =
    rw (r.found) (load_flat n m addr r.index r.offset (InRange-IsRun valid addr disjoint r))

-- What a write leaves is, as an array, the array after the write.
abbrev pub StoresFlat : ℕ → MemoryManager → ℕ → ℕ → Option MemoryManager → Type 0
StoresFlat n m addr v written =
    (m' : MemoryManager) × (written ≡ some m')
    × AreDisjoint m'
    × (read8 m' ≡ flat_store n (read8 m) addr v)

assign_flat :
    (n : ℕ) (m : MemoryManager) (addr v : ℕ)
    → IsValid m
    → AreDisjoint m
    → InRange n m addr
    → StoresFlat n m addr v (assign n m (map_address m addr) v)
unfolding assign
assign_flat n m addr v valid disjoint r =
    let s = InRange-Spans valid r in
    (
      put_bytes n m r.index r.offset v s,
      rw (r.found) (store_bytes-Spans n m r.index r.offset v s),
      put_bytes-AreDisjoint n r.index r.offset v s disjoint,
      put_flat n r.index r.offset v addr s valid (InRange-IsRun valid addr disjoint r),
    )

-- In well-formed memory of disjoint segments, a read of any width whose bytes lie in the segment of
-- its address is that read of memory as one array of bytes, the lowest first.
pub read_flat :
    (k : Width) (m : MemoryManager) (addr : ℕ)
    → IsValid m
    → AreDisjoint m
    → InRange (bytes k) m addr
    → read k m addr ≡ flat_load (bytes k) (read8 m) addr
unfolding read8 read16 read32
read_flat one m addr valid disjoint r = deref_flat 1 m addr valid disjoint r
read_flat two m addr valid disjoint r = deref_flat 2 m addr valid disjoint r
read_flat four m addr valid disjoint r = deref_flat 4 m addr valid disjoint r

-- In well-formed memory of disjoint segments, a write of any width whose bytes lie in the segment of
-- its address succeeds and is that write to memory as one array of bytes, the lowest first; every
-- other byte of the array is as before. The segments stay disjoint.
pub write_flat :
    (k : Width) (m : MemoryManager) (addr v : ℕ)
    → IsValid m
    → AreDisjoint m
    → InRange (bytes k) m addr
    → StoresFlat (bytes k) m addr v (write k m addr v)
unfolding write8 write16 write32
write_flat one m addr v valid disjoint r = assign_flat 1 m addr v valid disjoint r
write_flat two m addr v valid disjoint r = assign_flat 2 m addr v valid disjoint r
write_flat four m addr v valid disjoint r = assign_flat 4 m addr v valid disjoint r
