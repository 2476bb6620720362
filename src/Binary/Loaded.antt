-- ===== src/Binary/Loaded.antt =====
-- src/Binary.cpp: what `parseElf` makes of each segment of the file.
use mathlib.Core.Path.{subst}
use dbtranslator.Base.{
  ℕ, zero, suc, ◌%◌, ◌^◌, ◌<◌, ◌≡◌, refl, ◌∙◌, ◌==◌, some, List, [], ◌∷◌, arith, get_elem?,
  >>=-eq-some,
}
use dbtranslator.Memory.{SegmentManager}
use dbtranslator.Binary.{ElfSegment, Host, memcpy, load_segment, load_segments, pt_load}
use dbtranslator.Binary.Boot.{or_true}

memcpy_bytes :
    (n : ℕ) (from to copied : List ℕ)
    → memcpy n from to ≡ some copied
    → (off : ℕ) → off < n
    → get_elem? copied off ≡ get_elem? from off
unfolding memcpy
memcpy_bytes zero from to copied done off h = absurd (omega arith)
memcpy_bytes (suc n) [] to copied done off h = cc
memcpy_bytes (suc n) (b ∷ from) [] copied done off h = cc
memcpy_bytes (suc n) (b ∷ from) (t ∷ to) copied done zero h =
    let (rest, copies, whole) = >>=-eq-some (memcpy n from to) _ done in
    let all : (b ∷ rest) ≡ copied = cc in rw (← all) refl
memcpy_bytes (suc n) (b ∷ from) (t ∷ to) copied done (suc off) h =
    let (rest, copies, whole) = >>=-eq-some (memcpy n from to) _ done in
    let all : (b ∷ rest) ≡ copied = cc in
    rw (← all) (memcpy_bytes n from to rest copies off (omega arith))

-- A loaded segment, at the place and with the bytes of the file's.
pub record IsLoaded (from : ElfSegment) (seg : SegmentManager) : Type 0 where
  pub placed : seg.guest_address ≡ from.virtual_address % 2 ^ 32
  pub sized : seg.memory_size ≡ from.memory_size % 2 ^ 32
  pub copied :
      (off : ℕ)
      → off < from.memory_size % 2 ^ 32
      → get_elem? seg.memory off ≡ get_elem? from.data_bytes off

module _ (host : Host) where
  load_segment-IsLoaded :
      (from : ElfSegment) (seg : SegmentManager)
      → load_segment host from ≡ some seg
      → IsLoaded from seg
  unfolding load_segment
  load_segment-IsLoaded from seg loads =
      let size = from.memory_size % 2 ^ 32 in
      let always = rw (or_true (from.flags == pt_load)) at loads in
      let (memory, copies, whole) =
        >>=-eq-some (memcpy size from.data_bytes (host.operator_new size)) _ always in
      let same : (record {
        memory = memory;
        memory_size = size;
        guest_address = from.virtual_address % 2 ^ 32;
      })
          ≡ seg =
        cc in
      subst (λ seg. IsLoaded from seg) same
        (record {
          placed = refl;
          sized = refl;
          copied = memcpy_bytes size from.data_bytes _ memory copies;
        })

  -- Each loaded segment comes from the file's at its index, and each of the file's is loaded.
  pub load_segments_from :
      (segments : List ElfSegment) (loaded : List SegmentManager) (j : ℕ) (seg : SegmentManager)
      → load_segments host segments ≡ some loaded
      → get_elem? loaded j ≡ some seg
      → (from : ElfSegment) × (get_elem? segments j ≡ some from) × IsLoaded from seg
  unfolding load_segments
  load_segments_from [] loaded j seg loads at =
      let nothing : [] ≡ loaded = cc in cc (rw (← nothing) at at)
  load_segments_from (from ∷ rest) loaded zero seg loads at =
      let (segment, one, others) = >>=-eq-some (load_segment host from) _ loads in
      let (later, more, whole) = >>=-eq-some (load_segments host rest) _ others in
      let all : (segment ∷ later) ≡ loaded = cc in
      let same : some segment ≡ some seg = rw (← all) at at in
      (from, refl, load_segment-IsLoaded from seg (one ∙ same))
  load_segments_from (from ∷ rest) loaded (suc j) seg loads at =
      let (segment, one, others) = >>=-eq-some (load_segment host from) _ loads in
      let (later, more, whole) = >>=-eq-some (load_segments host rest) _ others in
      let all : (segment ∷ later) ≡ loaded = cc in
      load_segments_from rest later j seg more (rw (← all) at at)
