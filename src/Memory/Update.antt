-- ===== src/Memory/Update.antt =====
-- Stores keep the shape of guest memory: the segments stay where they are, and stay well-formed
-- (src/Memory.cpp).
use native.Mathlib.Decide.{ℕ_discrete}
use mathlib.Core.Path.{subst}
use dbtranslator.Base.{
  >>=-eq-some, ℕ, zero, suc, ◌+◌, ◌*◌, ◌/◌, ◌%◌, ◌^◌, ◌<◌, ◌≡◌, refl, sym, ap, ◌∙◌, some, List,
  arith, get_elem?, set, get_elem?-lt-length, get_elem?-set_self, get_elem?-set_ne, length-set,
  IsByte, All-set,
}
use dbtranslator.Memory.{
  SegmentManager, MemoryManager, Mapping, covers, map_round, map_loop, map_address, load_byte,
  load_bytes, store_byte, store_bytes,
}
use dbtranslator.Memory.Valid.{SegmentIsValid, IsValid, IsValid-segment}
use dbtranslator.Memory.Bytes.{
  Spans, others, put_byte, put_bytes, first, Has-load_byte, load_byte-byte, store_byte-Has,
}

-- New contents of a segment do not change what a round finds.
round_same :
    (segs : List SegmentManager) (k i addr : ℕ) (seg : SegmentManager) (bytes : List ℕ)
    (rest : Mapping)
    → get_elem? segs k ≡ some seg
    → map_round (get_elem? (set segs k (record seg { memory = bytes })) i) i addr rest
      ≡ map_round (get_elem? segs i) i addr rest
unfolding map_round covers
round_same segs k i addr seg bytes rest at = elim (ℕ_discrete i k) [
  | yes same ↦ rw (
    same,
    at,
    get_elem?-set_self segs k (record seg { memory = bytes }) (get_elem?-lt-length segs k at),
  )
  | no apart ↦ rw (get_elem?-set_ne segs k i (record seg { memory = bytes }) (λ e. apart (sym e)))
]

map_loop_same :
    (segs : List SegmentManager) (left i k addr : ℕ) (seg : SegmentManager) (bytes : List ℕ)
    → get_elem? segs k ≡ some seg
    → map_loop (set segs k (record seg { memory = bytes })) left i addr ≡ map_loop segs left i addr
unfolding map_loop
map_loop_same segs zero i k addr seg bytes at = refl
map_loop_same segs (suc left) i k addr seg bytes at =
    round_same segs k i addr seg bytes _ at
    ∙ ap (map_round (get_elem? segs i) i addr) (map_loop_same segs left (i + 1) k addr seg bytes at)

pub map_address-put_bytes :
    (n : ℕ) (m : MemoryManager) (i off v addr : ℕ) (s : Spans n m i off)
    → map_address (put_bytes n m i off v s) addr ≡ map_address m addr
unfolding put_bytes map_address
map_address-put_bytes zero m i off v addr s = refl
map_address-put_bytes (suc n) m i off v addr s =
    map_address-put_bytes n (put_byte m i s.seg off (v % 2 ^ 8)) i (off + 1) (v / 2 ^ 8) addr
      (others (v % 2 ^ 8) s)
    ∙ map_loop_same m.segment_data m.num_segments 0 i addr s.seg _ s.at

pub put_byte-IsValid :
    {m : MemoryManager} (i off v : ℕ) {seg : SegmentManager}
    → IsValid m
    → get_elem? m.segment_data i ≡ some seg
    → IsByte v
    → IsValid (put_byte m i seg off v)
put_byte-IsValid {m} i off v {seg} valid at byte =
    let old = IsValid-segment i valid at in
    record {
      counted = omega (
        arith,
        valid.counted,
        length-set {0} m.segment_data i (record seg { memory = set seg.memory off v }),
      );
      segments =
          All-set SegmentIsValid m.segment_data i _
            (record {
              sized = length-set seg.memory off v ∙ old.sized;
              bytes = All-set IsByte seg.memory off v byte old.bytes;
              placed = old.placed;
            })
            valid.segments;
    }

pub put_bytes-IsValid :
    (n : ℕ) {m : MemoryManager} (i off v : ℕ) (s : Spans n m i off)
    → IsValid m
    → IsValid (put_bytes n m i off v s)
unfolding put_bytes
put_bytes-IsValid zero i off v s valid = valid
put_bytes-IsValid (suc n) i off v s valid =
    put_bytes-IsValid n i (off + 1) (v / 2 ^ 8) (others (v % 2 ^ 8) s)
      (put_byte-IsValid i off (v % 2 ^ 8) valid s.at (omega arith))

-- The first number that does not fit `n` bytes.
abbrev pub bytes_end : ℕ → ℕ
bytes_end zero = 1
bytes_end (suc n) = 2 ^ 8 * bytes_end n

later : {n : ℕ} {m : MemoryManager} {i off : ℕ} → Spans (suc n) m i off → Spans n m i (off + 1)
later s = record { seg = s.seg; at = s.at; inside = omega arith }

-- Bytes that exist are loaded, and make a number of `n` bytes.
pub load_bytes-some :
    (n : ℕ) (m : MemoryManager) (i off : ℕ)
    → IsValid m
    → Spans n m i off
    → (v : ℕ) × (load_bytes n m i off ≡ some v) × (v < bytes_end n)
unfolding load_bytes
load_bytes-some zero m i off valid s = (0, refl, omega arith)
load_bytes-some (suc n) m i off valid s =
    let (low, low_at) = Has-load_byte m i off (first s) in
    let (high, high_at, fits) = load_bytes-some n m i (off + 1) valid (later s) in
    let byte = load_byte-byte i off valid low_at in
    (low + 2 ^ 8 * high, rw (low_at, high_at), omega arith)

-- Whatever is loaded is a number of `n` bytes.
pub load_bytes-bound :
    (n : ℕ) (m : MemoryManager) (i off : ℕ) {v : ℕ}
    → IsValid m
    → load_bytes n m i off ≡ some v
    → v < bytes_end n
unfolding load_bytes
load_bytes-bound zero m i off valid h = ground arith
load_bytes-bound (suc n) m i off valid h =
    let (low, low_at, rest) = >>=-eq-some (load_byte m i off) _ h in
    let (high, high_at, sum) = >>=-eq-some (load_bytes n m i (off + 1)) _ rest in
    ground (
      arith,
      load_byte-byte i off valid low_at,
      load_bytes-bound n m i (off + 1) valid high_at,
      sum,
    )

-- Any store that succeeds keeps memory well-formed.
pub store_bytes-IsValid :
    (n : ℕ) (m : MemoryManager) (i off v : ℕ) {m' : MemoryManager}
    → IsValid m
    → store_bytes n m i off v ≡ some m'
    → IsValid m'
unfolding store_bytes
store_bytes-IsValid zero m i off v valid h = subst IsValid (cc) valid
store_bytes-IsValid (suc n) m i off v valid h =
    let (m₁, first_at, rest) = >>=-eq-some (store_byte m i off (v % 2 ^ 8)) _ h in
    let (has, put) = store_byte-Has m i off (v % 2 ^ 8) first_at in
    let valid₁ = put_byte-IsValid i off (v % 2 ^ 8) valid has.at (omega arith) in
    store_bytes-IsValid n m₁ i (off + 1) (v / 2 ^ 8) (subst IsValid (sym put) valid₁) rest
