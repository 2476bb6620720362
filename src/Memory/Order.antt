-- ===== src/Memory/Order.antt =====
-- include/dbtranslator/Memory.h and src/Memory.cpp: the accesses to two memories with the same
-- segments in another order.
use mathlib.Core.List.{Permᴰ}
use mathlib.Core.List.Permᴰ
use dbtranslator.Base.{
  ℕ, zero, suc, ◌+◌, ◌/◌, ◌%◌, ◌^◌, ◌≡◌, refl, sym, ap, ◌∙◌, inl, inr, Option, none, some, List,
  get_elem?, set, set-set, get_elem?-set_self, get_elem?-lt-length, Option-cases,
}
use dbtranslator.Memory.{
  SegmentManager, MemoryManager, Mapping, mapped, null, map_address, load_byte, load_bytes,
  store_byte, store_bytes, deref, assign, read8, read16, read32, write8, write16, write32,
}
use dbtranslator.Memory.Search.{map_address_total}
use dbtranslator.Memory.Valid.{IsValid}
use dbtranslator.Memory.Width.{Width, one, two, four, read, write}
use dbtranslator.Memory.Bytes.{put_byte}
use dbtranslator.Memory.Array.{AreDisjoint}

-- A load depends on the segment alone.
load_bytes_same :
    (n : ℕ) (m m' : MemoryManager) (i j off : ℕ) (s : SegmentManager)
    → get_elem? m.segment_data i ≡ some s
    → get_elem? m'.segment_data j ≡ some s
    → load_bytes n m i off ≡ load_bytes n m' j off
unfolding load_bytes load_byte
load_bytes_same zero m m' i j off s at at' = refl
load_bytes_same (suc n) m m' i j off s at at' =
    rw (at, at', load_bytes_same n m m' i j (off + 1) s at at')

-- The place where two memories have the same segment, and where a new one in its stead leaves them
-- with the same segments again.
record IsLinked (m m' : MemoryManager) (i j : ℕ) (s : SegmentManager) : Type 0 where
  left : get_elem? m.segment_data i ≡ some s
  right : get_elem? m'.segment_data j ≡ some s
  same : Permᴰ m.segment_data m'.segment_data
  replaced : (x : SegmentManager) → Permᴰ (set m.segment_data i x) (set m'.segment_data j x)

-- What stands at an index of a list stands at one of each rearrangement, and may be replaced there.
set_moved :
    {l l' : List SegmentManager} (i : ℕ) {s : SegmentManager}
    → Permᴰ l l'
    → get_elem? l i ≡ some s
    → (j : ℕ) × (get_elem? l' j ≡ some s) × ((x : SegmentManager) → Permᴰ (set l i x) (set l' j x))
set_moved i Permᴰ.nil at = cc
set_moved zero (Permᴰ.cons e d) at = (0, sym (ap some e) ∙ at, λ x. Permᴰ.cons refl d)
set_moved (suc i) (Permᴰ.cons e d) at =
    let (j, there, put) = set_moved i d at in (suc j, there, λ x. Permᴰ.cons e (put x))
set_moved zero (Permᴰ.swap e f) at = (1, sym (ap some e) ∙ at, λ x. Permᴰ.swap refl f)
set_moved (suc zero) (Permᴰ.swap e f) at = (0, sym (ap some f) ∙ at, λ x. Permᴰ.swap e refl)
set_moved (suc (suc i)) (Permᴰ.swap e f) at = (suc (suc i), at, λ x. Permᴰ.swap e f)
set_moved i (Permᴰ.trans d d') at =
    let (j, there, put) = set_moved i d at in
    let (k, there', put') = set_moved j d' there in (k, there', λ x. Permᴰ.trans (put x) (put' x))

-- Where two memories with the same segments in another order map an address.
data IsMoved (m m' : MemoryManager) : Mapping → Mapping → Type 0 where
  both :
      (i j off : ℕ) (s : SegmentManager)
      → IsLinked m m' i j s
      → IsMoved m m' (mapped i off) (mapped j off)
  neither : IsMoved m m' null null

map_address-IsMoved :
    (m m' : MemoryManager) (addr : ℕ)
    → IsValid m
    → IsValid m'
    → AreDisjoint m'
    → Permᴰ m.segment_data m'.segment_data
    → IsMoved m m' (map_address m addr) (map_address m' addr)
map_address-IsMoved m m' addr valid valid' disjoint perm =
    elim (map_address_total m addr valid.counted) [
      | inl (i, off, found, first) ↦
          let (j, there, put) = set_moved i perm first.at in
          elim (map_address_total m' addr valid'.counted) [
            | inl (k, off', found', first') ↦
                let same =
                  disjoint k j addr first'.seg first.seg first'.at there first'.covered
                    first.covered in
                let segs : first'.seg ≡ first.seg = cc (rw same at first'.at, there) in
                let offs : off' ≡ off = cc (first.offset, first'.offset, segs) in
                rw (found, found', same, offs)
                  (both i j off first.seg
                    (record { left = first.at; right = there; same = perm; replaced = put }))
            | inr (nothing, clear) ↦ cc (clear j first.seg there, first.covered)
          ]
      | inr (nothing, clear) ↦ elim (map_address_total m' addr valid'.counted) [
        | inl (k, off', found', first') ↦
            let (i, back, _) = set_moved k (Permᴰ.symm perm) first'.at in
            cc (clear i first'.seg back, first'.covered)
        | inr (nothing', clear') ↦ rw (nothing, nothing') neither
      ]
    ]

deref_moved :
    (n : ℕ) {m m' : MemoryManager} {p p' : Mapping}
    → IsMoved m m' p p'
    → deref n m p ≡ deref n m' p'
unfolding deref
deref_moved n {m} {m'} (both i j off s link) = load_bytes_same n m m' i j off s link.left link.right
deref_moved n neither = refl

-- Two results of a write: none, or the same segments.
abbrev pub AreReordered : Option MemoryManager → Option MemoryManager → Type 0
AreReordered none none = Unit
AreReordered none (some m') = ⊥
AreReordered (some m) none = ⊥
AreReordered (some m) (some m') = Permᴰ m.segment_data m'.segment_data

put_byte-IsLinked :
    {m m' : MemoryManager} (i j off v : ℕ) {s : SegmentManager}
    → IsLinked m m' i j s
    → IsLinked
        (put_byte m i s off v)
        (put_byte m' j s off v)
        i
        j
        (record s { memory = set s.memory off v })
put_byte-IsLinked {m} {m'} i j off v {s} link = record {
  left = get_elem?-set_self m.segment_data i _ (get_elem?-lt-length m.segment_data i link.left);
  right = get_elem?-set_self m'.segment_data j _ (get_elem?-lt-length m'.segment_data j link.right);
  same = link.replaced (record s { memory = set s.memory off v });
  replaced =
      λ x. rw (set-set m.segment_data i _ x, set-set m'.segment_data j _ x) (link.replaced x);
}

store_bytes-AreReordered :
    (n : ℕ) (m m' : MemoryManager) (i j off v : ℕ) (s : SegmentManager)
    → IsLinked m m' i j s
    → AreReordered (store_bytes n m i off v) (store_bytes n m' j off v)
unfolding store_bytes store_byte
store_bytes-AreReordered zero m m' i j off v s link = link.same
store_bytes-AreReordered (suc n) m m' i j off v s link =
    elim (Option-cases (get_elem? s.memory off)) [
      | inl outside ↦ rw (link.left, link.right, outside) tt
      | inr (b, byte) ↦
          rw (link.left, link.right, byte)
            (store_bytes-AreReordered n (put_byte m i s off (v % 2 ^ 8))
              (put_byte m' j s off (v % 2 ^ 8)) i j (off + 1) (v / 2 ^ 8) _
              (put_byte-IsLinked i j off (v % 2 ^ 8) link))
    ]

assign-AreReordered :
    (n v : ℕ) {m m' : MemoryManager} {p p' : Mapping}
    → IsMoved m m' p p'
    → AreReordered (assign n m p v) (assign n m' p' v)
unfolding assign
assign-AreReordered n v {m} {m'} (both i j off s link) =
    store_bytes-AreReordered n m m' i j off v s link
assign-AreReordered n v neither = tt

module _ (m m' : MemoryManager) (addr : ℕ) (valid : IsValid m) (valid' : IsValid m')
    (disjoint : AreDisjoint m') (perm : Permᴰ m.segment_data m'.segment_data) where
  pub read_same : (k : Width) → read k m addr ≡ read k m' addr
  unfolding read8 read16 read32
  read_same one = deref_moved 1 (map_address-IsMoved m m' addr valid valid' disjoint perm)
  read_same two = deref_moved 2 (map_address-IsMoved m m' addr valid valid' disjoint perm)
  read_same four = deref_moved 4 (map_address-IsMoved m m' addr valid valid' disjoint perm)

  pub write-AreReordered : (k : Width) (v : ℕ) → AreReordered (write k m addr v) (write k m' addr v)
  unfolding write8 write16 write32
  write-AreReordered one v =
      assign-AreReordered 1 v (map_address-IsMoved m m' addr valid valid' disjoint perm)
  write-AreReordered two v =
      assign-AreReordered 2 v (map_address-IsMoved m m' addr valid valid' disjoint perm)
  write-AreReordered four v =
      assign-AreReordered 4 v (map_address-IsMoved m m' addr valid valid' disjoint perm)
