-- ===== src/Binary/Image.antt =====
-- src/Binary.cpp: the bytes of the file are where the file says.
use mathlib.Core.Path.{subst}
use native.Mathlib.Decide.{ℕ_discrete}
use dbtranslator.Base.{
  ℕ, zero, suc, ◌+◌, ◌-◌, ◌%◌, ◌^◌, ◌≤◌, ◌<◌, ◌≡◌, ap, ◌∙◌, ◌≢◌, ◌⊎◌, inl, inr, true, some, List,
  [], ◌∷◌, ◌++◌, arith, length, get_elem?, get_elem?-some, length-snoc, All, All-get_elem?,
  get_elem?-lt-length,
}
use dbtranslator.Memory.{SegmentManager, MemoryManager, covers, read8, load_byte}
use dbtranslator.Memory.Search.{map_address_total}
use dbtranslator.Memory.Valid.{SegmentIsValid, IsValid, IsValid-segment, covers_iff}
use dbtranslator.Memory.Array.{read8_at}
use dbtranslator.Binary.{
  ElfSegment, Elfio, Host, load_segments, stack_segment, stack_size, parse_elf,
}
use dbtranslator.Binary.Loaded.{IsLoaded, load_segments_from}
use dbtranslator.Binary.Boot.{IsWhole, load_segments_total, All-snoc, stack_segment-IsValid}

-- A list with one more element at its end.
snoc-before :
    (segs : List SegmentManager) (last s : SegmentManager) (j : ℕ)
    → get_elem? segs j ≡ some s
    → get_elem? (segs ++ (last ∷ [])) j ≡ some s
snoc-before [] last s j at = cc
snoc-before (t ∷ segs) last s zero at = at
snoc-before (t ∷ segs) last s (suc j) at = snoc-before segs last s j at

snoc-cases :
    (segs : List SegmentManager) (last s : SegmentManager) (j : ℕ)
    → get_elem? (segs ++ (last ∷ [])) j ≡ some s
    → (get_elem? segs j ≡ some s) ⊎ (last ≡ s)
snoc-cases [] last s zero at = inr cc
snoc-cases [] last s (suc j) at = cc
snoc-cases (t ∷ segs) last s zero at = inl at
snoc-cases (t ∷ segs) last s (suc j) at = snoc-cases segs last s j at

-- The address is in no segment of the file but number `i`, and below the stack.
pub record IsAlone (reader : Elfio) (i addr : ℕ) : Type 0 where
  pub apart :
      (j : ℕ) (other : ElfSegment)
      → j ≢ i
      → get_elem? reader.segments j ≡ some other
      → (addr < other.virtual_address) ⊎ (other.virtual_address + other.memory_size ≤ addr)
  pub below : addr < 2 ^ 32 - 1 - stack_size

-- The memory that `parseElf` makes of the loaded segments.
abbrev image : Host → Elfio → List SegmentManager → MemoryManager
image host reader loaded = record {
  segment_data = loaded ++ (stack_segment host ∷ []);
  num_segments = (length reader.segments + 1) % 2 ^ 32;
}

module _ (host : Host) (reader : Elfio) (wholes : All IsWhole reader.segments)
    (few : length reader.segments + 1 < 2 ^ 32) (loaded : List SegmentManager)
    (loads : load_segments host reader.segments ≡ some loaded)
    (counted : length loaded ≡ length reader.segments) (valids : All SegmentIsValid loaded) where
  image-IsValid : IsValid (image host reader loaded)
  image-IsValid = record {
    counted = omega (arith, length-snoc {0} loaded (stack_segment host), counted);
    segments = All-snoc SegmentIsValid loaded _ valids (stack_segment-IsValid host);
  }

  -- A segment of the image that covers an address that is alone in segment `i`.
  covering :
      (i j addr : ℕ) (s : SegmentManager)
      → IsAlone reader i addr
      → get_elem? (image host reader loaded).segment_data j ≡ some s
      → covers s addr ≡ true
      → (j ≡ i) × (get_elem? loaded j ≡ some s)
  unfolding stack_segment
  covering i j addr s alone at hit =
      let valid = IsValid-segment {m = image host reader loaded} j image-IsValid at in
      let (low, high) = (covers_iff s addr valid.placed).0 hit in
      elim (snoc-cases loaded (stack_segment host) s j at) [
        | inr last ↦
            let start = ap (λ (t : SegmentManager). t.guest_address) last in
            absurd (omega (arith, alone.below, start, low))
        | inl there ↦ elim (ℕ_discrete j i) [
          | yes same ↦ (same, there)
          | no other ↦
              let (from, at', is) =
                load_segments_from host reader.segments loaded j s loads there in
              let whole = All-get_elem? IsWhole reader.segments j at' wholes in
              absurd (elim (alone.apart j from other at') [
                | inl below ↦ omega (arith, below, low, is.placed, whole.placed)
                | inr above ↦ omega (arith, above, high, is.placed, is.sized, whole.placed)
              ])
        ]
      ]

  image_reads :
      (i off : ℕ) (from : ElfSegment)
      → get_elem? reader.segments i ≡ some from
      → off < from.memory_size
      → IsAlone reader i (from.virtual_address + off)
      → read8 (image host reader loaded) (from.virtual_address + off)
        ≡ get_elem? from.data_bytes off
  unfolding load_byte
  image_reads i off from at inside alone =
      let addr = from.virtual_address + off in
      let m = image host reader loaded in
      let whole = All-get_elem? IsWhole reader.segments i at wholes in
      elim (map_address_total m addr image-IsValid.counted) [
        | inl (j, o, found, first) ↦
            let (same, there) = covering i j addr first.seg alone first.at first.covered in
            let (from', at', is) =
              load_segments_from host reader.segments loaded j first.seg loads there in
            let of_file : from' ≡ from = cc (at, rw same at at') in
            let loaded_from : IsLoaded from first.seg =
              subst (λ f. IsLoaded f first.seg) of_file is in
            let offset : o ≡ off = omega (arith, first.offset, loaded_from.placed, whole.placed) in
            read8_at m addr j o found
            ∙ rw (first.at, offset) (loaded_from.copied off (omega (arith, whole.placed)))
        | inr (nothing, clear) ↦
            let (s, there) =
              get_elem?-some loaded i
                (omega (arith, counted, get_elem?-lt-length reader.segments i at)) in
            let (from', at', is) = load_segments_from host reader.segments loaded i s loads there in
            let of_file : from' ≡ from = cc (at, at') in
            let loaded_from : IsLoaded from s = subst (λ f. IsLoaded f s) of_file is in
            let at_image = snoc-before loaded (stack_segment host) s i there in
            let valid = IsValid-segment {m = m} i image-IsValid at_image in
            let hit = (covers_iff s addr valid.placed).1 (
              omega (arith, loaded_from.placed, whole.placed),
              omega (arith, loaded_from.placed, loaded_from.sized, whole.placed),
            ) in
            cc (hit, clear i s at_image)
      ]

-- A file of whole segments, fewer than 2 ^ 32 - 1, is loaded. A byte of one of them, at an address
-- that is in no other segment of the file and below the stack, is then what a read of that address
-- gives.
pub image_holds :
    (host : Host) (reader : Elfio) (i off : ℕ) (from : ElfSegment)
    → All IsWhole reader.segments
    → length reader.segments + 1 < 2 ^ 32
    → get_elem? reader.segments i ≡ some from
    → off < from.memory_size
    → IsAlone reader i (from.virtual_address + off)
    → (image : MemoryManager × ℕ) × (parse_elf host reader ≡ some image)
      × (read8 image.0 (from.virtual_address + off) ≡ get_elem? from.data_bytes off)
unfolding parse_elf
image_holds host reader i off from wholes few at inside alone =
    let (loaded, loads, counted, valids) = load_segments_total host reader.segments wholes in
    (
      (image host reader loaded, reader.entry % 2 ^ 32),
      rw loads,
      image_reads host reader wholes few loaded loads counted valids i off from at inside alone,
    )
