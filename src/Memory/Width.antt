-- ===== src/Memory/Width.antt =====
-- include/dbtranslator/Memory.h and src/Memory.cpp: the reads and writes, over their three widths.
use dbtranslator.Base.{ℕ, ◌*◌, ◌^◌, ◌<◌, ◌≡◌, Option, some, arith}
use dbtranslator.Memory.{MemoryManager, read8, read16, read32, write8, write16, write32}
use dbtranslator.Memory.Valid.{IsValid}
use dbtranslator.Memory.Access.{InRange, IsUpdate, deref_total, assign_total, assign-IsValid}

-- The width of an access, in bytes.
pub data Width : Type 0 where
  one two four : Width

abbrev pub bytes : Width → ℕ
bytes one = 1
bytes two = 2
bytes four = 4

abbrev pub read : Width → MemoryManager → ℕ → Option ℕ
read one = read8
read two = read16
read four = read32

abbrev pub write : Width → MemoryManager → ℕ → ℕ → Option MemoryManager
write one = write8
write two = write16
write four = write32

-- In well-formed memory, a read of any width whose bytes lie in the segment of its address gives a
-- value of that width.
pub read_total :
    (k : Width) (m : MemoryManager) (addr : ℕ)
    → IsValid m
    → InRange (bytes k) m addr
    → (v : ℕ) × (read k m addr ≡ some v) × (v < 2 ^ (8 * bytes k))
unfolding read8 read16 read32
read_total one m addr valid r = deref_total 1 m addr valid r
read_total two m addr valid r = deref_total 2 m addr valid r
read_total four m addr valid r = deref_total 4 m addr valid r

-- In well-formed memory, a write of any width whose bytes lie in the segment of its address, of a
-- value of that width, succeeds; the same width reads the value back; memory stays well-formed,
-- every address maps as before, and no byte outside those written reads differently.
pub write_total :
    (k : Width) (m : MemoryManager) (addr v : ℕ)
    → IsValid m
    → InRange (bytes k) m addr
    → v < 2 ^ (8 * bytes k)
    → (m' : MemoryManager) × (write k m addr v ≡ some m')
      × (read k m' addr ≡ some v)
      × IsUpdate (bytes k) addr m m'
unfolding read8 read16 read32 write8 write16 write32
write_total one m addr v valid r small = assign_total 1 m addr v valid r (omega arith)
write_total two m addr v valid r small = assign_total 2 m addr v valid r (omega arith)
write_total four m addr v valid r small = assign_total 4 m addr v valid r (omega arith)

-- Whatever the address and the value, a write that succeeds in well-formed memory leaves it
-- well-formed.
pub write_kept :
    (k : Width) (m : MemoryManager) (addr v : ℕ) (m' : MemoryManager)
    → IsValid m
    → write k m addr v ≡ some m'
    → IsValid m'
unfolding write8 write16 write32
write_kept one m addr v m' valid h = assign-IsValid 1 m _ v valid h
write_kept two m addr v m' valid h = assign-IsValid 2 m _ v valid h
write_kept four m addr v m' valid h = assign-IsValid 4 m _ v valid h
