-- ===== src/Memory/Array.antt =====
-- src/Memory.cpp: guest memory as one array of bytes, and the addresses that map to a segment's bytes one
-- after the other.
use dbtranslator.Base.{
  ℕ, zero, suc, ◌+◌, ◌*◌, ◌/◌, ◌%◌, ◌^◌, ◌≤◌, ◌<◌, ◌≡◌, refl, ap, ◌∙◌, inl, inr, true, Option, some,
  arith, ◌==◌, if◌then◌else◌, get_elem?, ◌>>=◌, Option-cases,
}
use dbtranslator.Memory.{
  SegmentManager, MemoryManager, mapped, covers, map_address, load_byte, load_bytes, deref, read8,
}
use dbtranslator.Memory.Search.{map_address_total}
use dbtranslator.Memory.Valid.{IsValid, IsValid-segment, covers_iff}
use dbtranslator.Memory.Bytes.{first}
use dbtranslator.Memory.Access.{InRange, mapped_place}

-- Memory as an array: the byte at each address that has one.
abbrev pub Flat : Type 0
Flat = ℕ → Option ℕ

abbrev pub update : Flat → ℕ → ℕ → Flat
update f a b x = if x == a then some b else f x

-- `n` bytes from an address on, the lowest first.
abbrev pub flat_load : ℕ → Flat → ℕ → Option ℕ
flat_load zero f a = some 0
flat_load (suc n) f a = f a >>= λ low. flat_load n f (a + 1) >>= λ high. some (low + 2 ^ 8 * high)

abbrev pub flat_store : ℕ → Flat → ℕ → ℕ → Flat
flat_store zero f a v = f
flat_store (suc n) f a v = flat_store n (update f a (v % 2 ^ 8)) (a + 1) (v / 2 ^ 8)

-- No address is covered by two segments.
abbrev pub AreDisjoint : MemoryManager → Type 0
AreDisjoint m =
    (i j a : ℕ) (s t : SegmentManager)
    → get_elem? m.segment_data i ≡ some s
    → get_elem? m.segment_data j ≡ some t
    → covers s a ≡ true
    → covers t a ≡ true
    → i ≡ j

-- The addresses from `addr` on map to the bytes of a segment, one after the other.
abbrev pub IsRun : ℕ → MemoryManager → ℕ → ℕ → ℕ → Type 0
IsRun zero m addr i off = Unit
IsRun (suc n) m addr i off = (map_address m addr ≡ mapped i off) × IsRun n m (addr + 1) i (off + 1)

pub IsRun-same :
    (n : ℕ) (m m' : MemoryManager) (addr i off : ℕ)
    → ((a : ℕ) → map_address m' a ≡ map_address m a)
    → IsRun n m addr i off
    → IsRun n m' addr i off
IsRun-same zero m m' addr i off same run = tt
IsRun-same (suc n) m m' addr i off same (here, run) =
    (same addr ∙ here, IsRun-same n m m' (addr + 1) i (off + 1) same run)

module _ {m : MemoryManager} (valid : IsValid m) where
  -- Where segments are disjoint, an address in a segment maps to it.
  covered_place :
      (i a off : ℕ) {seg : SegmentManager}
      → AreDisjoint m
      → get_elem? m.segment_data i ≡ some seg
      → off < seg.memory_size
      → off + seg.guest_address ≡ a
      → map_address m a ≡ mapped i off
  covered_place i a off {seg} disjoint at inside sum =
      let placed = (IsValid-segment i valid at).placed in
      let here = (covers_iff seg a placed).1 (omega arith, omega (arith, inside)) in
      elim (map_address_total m a valid.counted) [
        | inr (nothing, clear) ↦ cc (here, clear i seg at)
        | inl (i', off', found, first) ↦
            let same = disjoint i' i a first.seg seg first.at at first.covered here in
            let (low, sum') = mapped_place a i off' {seg = seg} valid (rw same at found) at in
            let offsets : off' ≡ off = omega arith in rw (← same, ← offsets) found
      ]

  segment-IsRun :
      (n i a off : ℕ) {seg : SegmentManager}
      → AreDisjoint m
      → get_elem? m.segment_data i ≡ some seg
      → off + n ≤ seg.memory_size
      → off + seg.guest_address ≡ a
      → IsRun n m a i off
  segment-IsRun zero i a off disjoint at inside sum = tt
  segment-IsRun (suc n) i a off disjoint at inside sum = (
    covered_place i a off disjoint at (omega arith) sum,
    segment-IsRun n i (a + 1) (off + 1) disjoint at (omega arith) (omega arith),
  )

  pub InRange-IsRun :
      {n : ℕ} (addr : ℕ) → AreDisjoint m → (r : InRange n m addr) → IsRun n m addr r.index r.offset
  InRange-IsRun {n} addr disjoint r =
      let (low, sum) = mapped_place addr r.index r.offset valid r.found r.at in
      segment-IsRun n r.index addr r.offset disjoint r.at r.inside sum

pub read8_at :
    (m : MemoryManager) (a i off : ℕ)
    → map_address m a ≡ mapped i off
    → read8 m a ≡ load_byte m i off
unfolding read8 deref load_bytes
read8_at m a i off found = elim (Option-cases (load_byte m i off)) [
  | inl none_there ↦ rw (found, none_there)
  | inr (b, byte) ↦ rw (found, byte) (ap some (omega arith))
]

pub load_flat :
    (n : ℕ) (m : MemoryManager) (addr i off : ℕ)
    → IsRun n m addr i off
    → load_bytes n m i off ≡ flat_load n (read8 m) addr
unfolding load_bytes
load_flat zero m addr i off run = refl
load_flat (suc n) m addr i off (here, run) =
    rw (read8_at m addr i off here, load_flat n m (addr + 1) i (off + 1) run)
