-- ===== src/Memory/Bytes.antt =====
-- Accesses of host bytes through a segment and an offset, as the accesses of src/Memory.cpp make
-- them: what a store changes, and what it leaves.
use native.Mathlib.Decide.{ℕ_discrete}
use dbtranslator.Base.{
  ℕ, zero, suc, ◌+◌, ◌/◌, ◌%◌, ◌^◌, ◌≤◌, ◌<◌, ◌≡◌, refl, sym, ap, ◌∙◌, ◌≢◌, ◌⊎◌, inl, inr, some,
  arith, get_elem?, set, length, get_elem?-some, get_elem?-lt-length, get_elem?-set_self,
  get_elem?-set_ne, length-set, >>=-eq-some, IsByte, All-get_elem?,
}
use dbtranslator.Memory.{
  SegmentManager, MemoryManager, load_byte, store_byte, load_bytes, store_bytes,
}
use dbtranslator.Memory.Valid.{IsValid, IsValid-segment}

-- The manager after byte `off` of segment `i`, which is `seg`, has become `v`.
abbrev pub put_byte : MemoryManager → ℕ → SegmentManager → ℕ → ℕ → MemoryManager
put_byte m i seg off v = record m {
  segment_data = set m.segment_data i (record seg { memory = set seg.memory off v });
}

-- Byte `off` of segment `i` exists.
pub record Has (m : MemoryManager) (i off : ℕ) : Type 0 where
  pub seg : SegmentManager
  pub at : get_elem? m.segment_data i ≡ some seg
  pub inside : off < length seg.memory

module _ (m : MemoryManager) (i off : ℕ) where
  pub load_byte-Has : {b : ℕ} → load_byte m i off ≡ some b → Has m i off
  unfolding load_byte
  load_byte-Has h =
      let (seg, at, byte) = >>=-eq-some (get_elem? m.segment_data i) _ h in
      record { seg = seg; at = at; inside = get_elem?-lt-length seg.memory off byte }

  pub Has-load_byte : Has m i off → (b : ℕ) × (load_byte m i off ≡ some b)
  unfolding load_byte
  Has-load_byte h = let (b, byte) = get_elem?-some h.seg.memory off h.inside in (b, rw (h.at) byte)

  -- A byte that exists is stored to, and only such a byte.
  pub Has-store_byte :
      (v : ℕ) (h : Has m i off) → store_byte m i off v ≡ some (put_byte m i h.seg off v)
  unfolding store_byte
  Has-store_byte v h = let (b, byte) = get_elem?-some h.seg.memory off h.inside in rw (h.at, byte)

  pub store_byte-Has :
      (v : ℕ) {m' : MemoryManager}
      → store_byte m i off v ≡ some m'
      → (h : Has m i off) × (m' ≡ put_byte m i h.seg off v)
  unfolding store_byte
  store_byte-Has v s =
      let (seg, at, rest) = >>=-eq-some (get_elem? m.segment_data i) _ s in
      let (b, byte, done) = >>=-eq-some (get_elem? seg.memory off) _ rest in
      (record { seg = seg; at = at; inside = get_elem?-lt-length seg.memory off byte }, cc)

  -- A byte reads back as it was stored.
  pub load_byte-put :
      (v : ℕ) (h : Has m i off) → load_byte (put_byte m i h.seg off v) i off ≡ some v
  unfolding load_byte
  load_byte-put v h =
      rw (get_elem?-set_self m.segment_data i _ (get_elem?-lt-length m.segment_data i h.at))
        (get_elem?-set_self h.seg.memory off v h.inside)

  -- No other byte changes.
  load_byte-put_ne :
      (v j o : ℕ) (h : Has m i off)
      → (j ≢ i) ⊎ (o ≢ off)
      → load_byte (put_byte m i h.seg off v) j o ≡ load_byte m j o
  unfolding load_byte
  load_byte-put_ne v j o h other = elim (ℕ_discrete j i) [
    | yes same ↦
        rw
          (
            same,
            h.at,
            get_elem?-set_self m.segment_data i (record h.seg { memory = set h.seg.memory off v })
                (get_elem?-lt-length m.segment_data i h.at),
          )
          (get_elem?-set_ne h.seg.memory off o v
            (λ e. elim other [ inl apart ↦ apart same | inr apart ↦ apart (sym e) ]))
    | no apart ↦ rw (
        get_elem?-set_ne m.segment_data i j (record h.seg { memory = set h.seg.memory off v })
          (λ e. apart (sym e)))
  ]

-- Well-formed memory holds bytes.
pub load_byte-byte :
    {m : MemoryManager} (i off : ℕ) {b : ℕ} → IsValid m → load_byte m i off ≡ some b → b < 2 ^ 8
unfolding load_byte
load_byte-byte {m} i off valid h =
    let (seg, at, byte) = >>=-eq-some (get_elem? m.segment_data i) _ h in
    All-get_elem? IsByte seg.memory off byte (IsValid-segment i valid at).bytes

-- The `n` bytes from `off` on exist.
pub record Spans (n : ℕ) (m : MemoryManager) (i off : ℕ) : Type 0 where
  pub seg : SegmentManager
  pub at : get_elem? m.segment_data i ≡ some seg
  pub inside : off + n ≤ length seg.memory

abbrev pub first : {n : ℕ} {m : MemoryManager} {i off : ℕ} → Spans (suc n) m i off → Has m i off
first s = record { seg = s.seg; at = s.at; inside = omega arith }

-- After the first byte has been stored the others still exist.
pub others :
    {n : ℕ} {m : MemoryManager} {i off : ℕ} (v : ℕ) (s : Spans (suc n) m i off)
    → Spans n (put_byte m i s.seg off v) i (off + 1)
others {m} {i} {off} v s = record {
  seg = record s.seg { memory = set s.seg.memory off v };
  at = get_elem?-set_self m.segment_data i _ (get_elem?-lt-length m.segment_data i s.at);
  inside = omega (arith, s.inside, length-set {0} s.seg.memory off v);
}

-- The manager after `n` bytes have been stored.
unfoldable pub put_bytes :
    (n : ℕ) (m : MemoryManager) (i off v : ℕ) → Spans n m i off → MemoryManager
put_bytes zero m i off v s = m
put_bytes (suc n) m i off v s =
    put_bytes n (put_byte m i s.seg off (v % 2 ^ 8)) i (off + 1) (v / 2 ^ 8) (others (v % 2 ^ 8) s)

pub store_bytes-Spans :
    (n : ℕ) (m : MemoryManager) (i off v : ℕ) (s : Spans n m i off)
    → store_bytes n m i off v ≡ some (put_bytes n m i off v s)
unfolding store_bytes put_bytes
store_bytes-Spans zero m i off v s = refl
store_bytes-Spans (suc n) m i off v s = rw (Has-store_byte m i off (v % 2 ^ 8) (first s)) (
    store_bytes-Spans n (put_byte m i s.seg off (v % 2 ^ 8)) i (off + 1) (v / 2 ^ 8)
      (others (v % 2 ^ 8) s))

-- Bytes outside the range that is stored to keep their values.
pub load_byte-put_bytes :
    (n : ℕ) (m : MemoryManager) (i off v j o : ℕ) (s : Spans n m i off)
    → (j ≢ i) ⊎ ((o < off) ⊎ (off + n ≤ o))
    → load_byte (put_bytes n m i off v s) j o ≡ load_byte m j o
unfolding put_bytes
load_byte-put_bytes zero m i off v j o s apart = refl
load_byte-put_bytes (suc n) m i off v j o s apart =
    load_byte-put_bytes n (put_byte m i s.seg off (v % 2 ^ 8)) i (off + 1) (v / 2 ^ 8) j o
      (others (v % 2 ^ 8) s) further
    ∙ load_byte-put_ne m i off (v % 2 ^ 8) j o (first s) distinct
  where
    further : (j ≢ i) ⊎ ((o < off + 1) ⊎ (off + 1 + n ≤ o))
    further = elim apart [
      | inl h ↦ inl h
      | inr (inl h) ↦ inr (inl (omega arith))
      | inr (inr h) ↦ inr (inr (omega arith))
    ]

    distinct : (j ≢ i) ⊎ (o ≢ off)
    distinct = elim apart [
      | inl h ↦ inl h
      | inr (inl h) ↦ inr (omega arith)
      | inr (inr h) ↦ inr (omega arith)
    ]

-- `v` has no more than `n` bytes.
abbrev pub Fits : ℕ → ℕ → Type 0
Fits zero v = v ≡ 0
Fits (suc n) v = Fits n (v / 2 ^ 8)

-- What has been stored reads back.
pub load_bytes-put_bytes :
    (n : ℕ) (m : MemoryManager) (i off v : ℕ) (s : Spans n m i off)
    → Fits n v
    → load_bytes n (put_bytes n m i off v s) i off ≡ some v
unfolding put_bytes load_bytes
load_bytes-put_bytes zero m i off v s fits = rw fits
load_bytes-put_bytes (suc n) m i off v s fits =
    rw
      (
        load_byte-put_bytes n (put_byte m i s.seg off (v % 2 ^ 8)) i (off + 1) (v / 2 ^ 8) i off
            (others (v % 2 ^ 8) s) (inr (inl (omega arith))),
        load_byte-put m i off (v % 2 ^ 8) (first s),
        load_bytes-put_bytes n (put_byte m i s.seg off (v % 2 ^ 8)) i (off + 1) (v / 2 ^ 8)
            (others (v % 2 ^ 8) s) fits,
      )
      (ap some (omega arith))
