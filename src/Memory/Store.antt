-- ===== src/Memory/Store.antt =====
-- src/Memory.cpp: stores to guest memory as stores to one array of bytes.
use native.Mathlib.Decide.{ℕ_discrete}
use mathlib.Core.Path.{subst}
use dbtranslator.Base.{
  ℕ, zero, suc, ◌+◌, ◌/◌, ◌%◌, ◌^◌, ◌≤◌, ◌<◌, ◌≡◌, refl, sym, ap, ◌∙◌, fun_ext, ◌≢◌, ltb, ltb→lt,
  ◌⊎◌, inl, inr, true, false, some, arith, ◌==◌, ==_iff, get_elem?, set, get_elem?-set_self,
  get_elem?-set_ne, get_elem?-lt-length, List, Bool-cases, >>=-eq-some,
}
use dbtranslator.Memory.{
  SegmentManager, MemoryManager, mapped, covers, map_address, read8, store_byte, store_bytes,
}
use dbtranslator.Memory.Valid.{IsValid}
use dbtranslator.Memory.Bytes.{
  Spans, put_byte, put_bytes, first, others, load_byte-put, store_byte-Has,
}
use dbtranslator.Memory.Update.{map_address-put_bytes, put_byte-IsValid}
use dbtranslator.Memory.Access.{mapped_place, deref_apart}
use dbtranslator.Memory.Array.{Flat, update, flat_store, AreDisjoint, IsRun, IsRun-same, read8_at}

narrow : {n : ℕ} {m : MemoryManager} {i off : ℕ} → Spans (suc n) m i off → Spans 1 m i off
narrow s = record { seg = s.seg; at = s.at; inside = omega (arith, s.inside) }

-- Different addresses map to different bytes.
other_byte :
    {m : MemoryManager} (i off addr b : ℕ) (s : Spans 1 m i off)
    → IsValid m
    → map_address m addr ≡ mapped i off
    → b ≢ addr
    → (j o : ℕ) → map_address m b ≡ mapped j o
    → (j ≢ i) ⊎ ((o < off) ⊎ (off + 1 ≤ o))
other_byte i off addr b s valid found apart j o there = elim (ℕ_discrete j i) [
  | no other ↦ inl other
  | yes here ↦
      let (low, sum) = mapped_place addr i off {seg = s.seg} valid found s.at in
      let (low', sum') = mapped_place b j o {seg = s.seg} valid there (rw here (s.at)) in
      elim (Bool-cases (ltb o off)) [
        | inl below ↦ inr (inl (ltb→lt o off below))
        | inr above ↦ inr (inr (ground arith))
      ]
]

-- A stored byte, in the array.
put_byte_flat :
    {m : MemoryManager} (i off v addr : ℕ) (s : Spans 1 m i off)
    → IsValid m
    → map_address m addr ≡ mapped i off
    → read8 (put_bytes 1 m i off v s) ≡ update (read8 m) addr (v % 2 ^ 8)
unfolding read8 put_bytes
put_byte_flat {m} i off v addr s valid found = fun_ext λ b.
    let same = map_address-put_bytes 1 m i off v b s in
    elim (ℕ_discrete b addr) [
      | yes here ↦
          let hit : (b == addr) ≡ true = (==_iff b addr).1 here in
          let moved = map_address-put_bytes 1 m i off v addr s ∙ found in
          rw (hit, here)
            (read8_at (put_bytes 1 m i off v s) addr i off moved
              ∙ load_byte-put m i off (v % 2 ^ 8) (first s))
      | no apart ↦
          let miss : (b == addr) ≡ false = ground arith in
          rw miss (
            rw same (
              deref_apart 1 m i off v b s (map_address m b)
                (λ j o there. other_byte i off addr b s valid found apart j o there)))
    ]

pub put_flat :
    (n : ℕ) {m : MemoryManager} (i off v addr : ℕ) (s : Spans n m i off)
    → IsValid m
    → IsRun n m addr i off
    → read8 (put_bytes n m i off v s) ≡ flat_store n (read8 m) addr v
unfolding put_bytes narrow
put_flat zero i off v addr s valid run = refl
put_flat (suc n) {m} i off v addr s valid (here, run) =
    let m' = put_byte m i s.seg off (v % 2 ^ 8) in
    let same : (a : ℕ) → map_address m' a ≡ map_address m a =
      λ a. map_address-put_bytes 1 m i off v a (narrow s) in
    put_flat n i (off + 1) (v / 2 ^ 8) (addr + 1) (others (v % 2 ^ 8) s)
      (put_byte-IsValid i off (v % 2 ^ 8) valid s.at (omega arith))
      (IsRun-same n m m' (addr + 1) i (off + 1) same run)
    ∙ ap (λ (f : Flat). flat_store n f (addr + 1) (v / 2 ^ 8))
        (put_byte_flat i off v addr (narrow s) valid here)

-- A store moves no segment.
set_place :
    (segs : List SegmentManager) (i j : ℕ) (seg t : SegmentManager) (b : List ℕ)
    → get_elem? segs i ≡ some seg
    → get_elem? (set segs i (record seg { memory = b })) j ≡ some t
    → (t' : SegmentManager) × (get_elem? segs j ≡ some t') × ((a : ℕ) → covers t a ≡ covers t' a)
unfolding covers
set_place segs i j seg t b at at' = elim (ℕ_discrete j i) [
  | yes same ↦
      let there =
        get_elem?-set_self segs i (record seg { memory = b }) (get_elem?-lt-length segs i at) in
      let new : record seg { memory = b } ≡ t = cc (there, rw same at at') in
      (seg, rw same at, λ a. ap (λ (x : SegmentManager). covers x a) (sym new))
  | no apart ↦ (
    t,
    sym (get_elem?-set_ne segs i j (record seg { memory = b }) (λ e. apart (sym e))) ∙ at',
    λ a. refl,
  )
]

put_byte-AreDisjoint :
    (m : MemoryManager) (i off v : ℕ) {seg : SegmentManager}
    → get_elem? m.segment_data i ≡ some seg
    → AreDisjoint m
    → AreDisjoint (put_byte m i seg off v)
put_byte-AreDisjoint m i off v {seg} at₀ disjoint j k a p q at at' c c' =
    let (p', was, same) = set_place m.segment_data i j seg p _ at₀ at in
    let (q', was', same') = set_place m.segment_data i k seg q _ at₀ at' in
    disjoint j k a p' q' was was' (sym (same a) ∙ c) (sym (same' a) ∙ c')

pub put_bytes-AreDisjoint :
    (n : ℕ) {m : MemoryManager} (i off v : ℕ) (s : Spans n m i off)
    → AreDisjoint m
    → AreDisjoint (put_bytes n m i off v s)
unfolding put_bytes
put_bytes-AreDisjoint zero i off v s disjoint = disjoint
put_bytes-AreDisjoint (suc n) {m} i off v s disjoint =
    put_bytes-AreDisjoint n i (off + 1) (v / 2 ^ 8) (others (v % 2 ^ 8) s)
      (put_byte-AreDisjoint m i off (v % 2 ^ 8) s.at disjoint)

pub store_bytes-AreDisjoint :
    (n : ℕ) (m : MemoryManager) (i off v : ℕ) {m' : MemoryManager}
    → AreDisjoint m
    → store_bytes n m i off v ≡ some m'
    → AreDisjoint m'
unfolding store_bytes
store_bytes-AreDisjoint zero m i off v {m'} disjoint h =
    subst AreDisjoint {x = m} {y = m'} (cc) disjoint
store_bytes-AreDisjoint (suc n) m i off v disjoint h =
    let (m₁, first_at, rest) = >>=-eq-some (store_byte m i off (v % 2 ^ 8)) _ h in
    let (has, put) = store_byte-Has m i off (v % 2 ^ 8) first_at in
    let disjoint₁ = put_byte-AreDisjoint m i off (v % 2 ^ 8) has.at disjoint in
    store_bytes-AreDisjoint n m₁ i (off + 1) (v / 2 ^ 8)
      (subst AreDisjoint {y = m₁} (sym put) disjoint₁) rest
