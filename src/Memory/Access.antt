-- ===== src/Memory/Access.antt =====
-- The six accesses of src/Memory.cpp on well-formed guest memory.
use dbtranslator.Base.{
  ℕ, ◌+◌, ◌^◌, ◌≤◌, ◌<◌, ◌≡◌, refl, ap, ◌≢◌, ◌⊎◌, inl, inr, none, some, arith, get_elem?,
}
use native.Mathlib.Decide.{ℕ_discrete}
use dbtranslator.Memory.{
  SegmentManager, MemoryManager, Mapping, mapped, null, overrun, map_address, load_bytes, deref,
  assign, read8, read16, read32, write8, write16, write32,
}
use dbtranslator.Memory.Search.{IsUncovered, map_loop-IsFirst, map_address_total}
use dbtranslator.Memory.Valid.{IsValid, IsValid-segment, covers_iff}
use dbtranslator.Memory.Bytes.{
  Spans, put_bytes, Fits, store_bytes-Spans, load_bytes-put_bytes, load_byte-put_bytes,
}
use dbtranslator.Memory.Update.{
  map_address-put_bytes, put_bytes-IsValid, bytes_end, load_bytes-some, load_bytes-bound,
  store_bytes-IsValid,
}

-- The `n` bytes from `addr` on lie in the segment that the search gives for `addr`.
pub record InRange (n : ℕ) (m : MemoryManager) (addr : ℕ) : Type 0 where
  pub index : ℕ
  pub offset : ℕ
  pub seg : SegmentManager
  pub found : map_address m addr ≡ mapped index offset
  pub at : get_elem? m.segment_data index ≡ some seg
  pub inside : offset + n ≤ seg.memory_size

pub InRange-Spans :
    {n : ℕ} {m : MemoryManager} {addr : ℕ}
    → IsValid m
    → (r : InRange n m addr) → Spans n m r.index r.offset
InRange-Spans valid r = record {
  seg = r.seg;
  at = r.at;
  inside = omega (arith, r.inside, (IsValid-segment r.index valid r.at).sized);
}

-- A load from addresses in range succeeds.
pub deref_total :
    (n : ℕ) (m : MemoryManager) (addr : ℕ)
    → IsValid m
    → InRange n m addr
    → (v : ℕ) × (deref n m (map_address m addr) ≡ some v) × (v < bytes_end n)
unfolding deref
deref_total n m addr valid r =
    let (v, loaded, fits) = load_bytes-some n m r.index r.offset valid (InRange-Spans valid r) in
    (v, rw (r.found) loaded, fits)

-- An address that maps is covered by its segment, and its offset counts from the segment's start.
pub mapped_place :
    {m : MemoryManager} (addr i off : ℕ) {seg : SegmentManager}
    → IsValid m
    → map_address m addr ≡ mapped i off
    → get_elem? m.segment_data i ≡ some seg
    → (seg.guest_address ≤ addr) × (off + seg.guest_address ≡ addr)
unfolding map_address
mapped_place {m} addr i off {seg} valid found at =
    let first = map_loop-IsFirst m.segment_data m.num_segments 0 addr i off found in
    let same : first.seg ≡ seg = cc (first.at, at) in
    let (low, _) =
      (covers_iff seg addr (IsValid-segment i valid at).placed).0 (rw same at first.covered) in
    let start = ap (λ (s : SegmentManager). s.guest_address) same in
    (low, omega (arith, first.offset, start))

unmapped_of :
    (m : MemoryManager) (addr : ℕ)
    → IsValid m
    → IsUncovered m.segment_data addr
    → map_address m addr ≡ null
unmapped_of m addr valid clear = elim (map_address_total m addr valid.counted) [
  | inl (i, off, found, first) ↦ cc (first.covered, clear i first.seg first.at)
  | inr (nothing, _) ↦ nothing
]

-- In well-formed memory, where no segment covers the address, none of the six accesses has a result.
pub access_unmapped :
    (m : MemoryManager) (addr v : ℕ)
    → IsValid m
    → IsUncovered m.segment_data addr
    → (read8 m addr ≡ none)
      × (read16 m addr ≡ none)
      × (read32 m addr ≡ none)
      × (write8 m addr v ≡ none)
      × (write16 m addr v ≡ none)
      × (write32 m addr v ≡ none)
unfolding read8 read16 read32 write8 write16 write32 deref assign
access_unmapped m addr v valid clear =
    let unmapped : map_address m addr ≡ null = unmapped_of m addr valid clear in
    (rw unmapped, rw unmapped, rw unmapped, rw unmapped, rw unmapped, rw unmapped)

-- What a store of `n` bytes at `addr` leaves: memory stays well-formed, every address maps as
-- before, and every byte outside the range reads as before.
pub record IsUpdate (n addr : ℕ) (m m' : MemoryManager) : Type 0 where
  pub valid : IsValid m'
  pub same_map : (a : ℕ) → map_address m' a ≡ map_address m a
  pub apart : (a : ℕ) → (a < addr) ⊎ (addr + n ≤ a) → read8 m' a ≡ read8 m a

-- A byte that is not among those stored to is dereferenced to the same value.
pub deref_apart :
    (n : ℕ) (m : MemoryManager) (i off v a : ℕ) (s : Spans n m i off) (p : Mapping)
    → ((j o : ℕ) → p ≡ mapped j o → (j ≢ i) ⊎ ((o < off) ⊎ (off + n ≤ o)))
    → deref 1 (put_bytes n m i off v s) p ≡ deref 1 m p
unfolding deref load_bytes
deref_apart n m i off v a s (mapped j o) apart =
    rw (load_byte-put_bytes n m i off v j o s (apart j o refl))
deref_apart n m i off v a s null apart = refl
deref_apart n m i off v a s overrun apart = refl

pub assign_total :
    (n : ℕ) (m : MemoryManager) (addr v : ℕ)
    → IsValid m
    → InRange n m addr
    → Fits n v
    → (m' : MemoryManager) × (assign n m (map_address m addr) v ≡ some m')
      × (deref n m' (map_address m' addr) ≡ some v)
      × IsUpdate n addr m m'
unfolding assign deref read8
assign_total n m addr v valid r fits =
    let s = InRange-Spans valid r in
    let same = λ (a : ℕ). map_address-put_bytes n m r.index r.offset v a s in
    (
      put_bytes n m r.index r.offset v s,
      rw (r.found) (store_bytes-Spans n m r.index r.offset v s),
      rw (same addr, r.found) (load_bytes-put_bytes n m r.index r.offset v s fits),
      record {
        valid = put_bytes-IsValid n r.index r.offset v s valid;
        same_map = same;
        apart = λ a h. rw (same a) (
            deref_apart n m r.index r.offset v a s (map_address m a) λ j o found.
              elim (ℕ_discrete j r.index) [
                | no other ↦ inl other
                | yes here ↦
                    let (low, sum) = mapped_place addr r.index r.offset valid r.found r.at in
                    let (low', sum') =
                      mapped_place a j o {seg = r.seg} valid found (rw here (r.at)) in
                    inr (elim h [ inl below ↦ inl (omega arith) | inr above ↦ inr (omega arith) ])
              ]);
      },
    )

pub deref-bound :
    (n : ℕ) (m : MemoryManager) (p : Mapping) {v : ℕ}
    → IsValid m
    → deref n m p ≡ some v
    → v < bytes_end n
unfolding deref
deref-bound n m (mapped i off) valid h = load_bytes-bound n m i off valid h
deref-bound n m null valid h = cc
deref-bound n m overrun valid h = cc

-- A read gives a value of its width.
pub read_bound :
    (m : MemoryManager) (addr v : ℕ)
    → IsValid m
    → (read8 m addr ≡ some v → v < 2 ^ 8)
      × (read16 m addr ≡ some v → v < 2 ^ 16)
      × (read32 m addr ≡ some v → v < 2 ^ 32)
unfolding read8 read16 read32
read_bound m addr v valid =
    (deref-bound 1 m _ valid, deref-bound 2 m _ valid, deref-bound 4 m _ valid)

pub assign-IsValid :
    (n : ℕ) (m : MemoryManager) (p : Mapping) (v : ℕ) {m' : MemoryManager}
    → IsValid m
    → assign n m p v ≡ some m'
    → IsValid m'
unfolding assign
assign-IsValid n m (mapped i off) v valid h = store_bytes-IsValid n m i off v valid h
assign-IsValid n m null v valid h = cc
assign-IsValid n m overrun v valid h = cc

-- Every write that succeeds keeps memory well-formed.
pub write-IsValid :
    (m : MemoryManager) (addr v : ℕ) (m' : MemoryManager)
    → IsValid m
    → (write8 m addr v ≡ some m' → IsValid m')
      × (write16 m addr v ≡ some m' → IsValid m')
      × (write32 m addr v ≡ some m' → IsValid m')
unfolding write8 write16 write32
write-IsValid m addr v m' valid =
    (assign-IsValid 1 m _ v valid, assign-IsValid 2 m _ v valid, assign-IsValid 4 m _ v valid)
