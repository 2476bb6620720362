-- ===== src/Memory/Search.antt =====
-- The search of `mapAddress` in include/dbtranslator/Memory.h.
use native.Mathlib.Decide.{ℕ_discrete}
use dbtranslator.Base.{
  ℕ, zero, suc, ◌+◌, ◌-◌, ◌≤◌, ◌<◌, ◌≡◌, refl, sym, ◌∙◌, ◌⊎◌, inl, inr, true, false, none, some,
  List, arith, get_elem?, length, Bool-cases, Option-cases, get_elem?-some, get_elem?-lt-length,
}
use dbtranslator.Memory.{
  SegmentManager, MemoryManager, mapped, null, overrun, covers, map_round, map_loop, map_address,
}

-- Segment `i` is the first from `from` on that covers `addr`, and `off` is the offset in it.
pub record IsFirst (segs : List SegmentManager) (from addr i off : ℕ) : Type 0 where
  pub seg : SegmentManager
  pub at : get_elem? segs i ≡ some seg
  pub covered : covers seg addr ≡ true
  pub offset : off ≡ addr - seg.guest_address
  pub above : from ≤ i
  pub before :
      (j : ℕ) (s : SegmentManager)
      → from ≤ j
      → j < i
      → get_elem? segs j ≡ some s
      → covers s addr ≡ false

-- One round of the loop, on each of its branches.
module _ (segs : List SegmentManager) (left from addr : ℕ) where
  round_gone : get_elem? segs from ≡ none → map_loop segs (suc left) from addr ≡ overrun
  unfolding map_loop map_round
  round_gone gone = rw gone

  module _ {s : SegmentManager} (here : get_elem? segs from ≡ some s) where
    pub round_hit :
        covers s addr ≡ true
        → map_loop segs (suc left) from addr ≡ mapped from (addr - s.guest_address)
    unfolding map_loop map_round
    round_hit hit = rw (here, hit)

    pub round_miss :
        covers s addr ≡ false
        → map_loop segs (suc left) from addr ≡ map_loop segs left (from + 1) addr
    unfolding map_loop map_round
    round_miss miss = rw (here, miss)

-- The first segment that covers the address, from an index on, is found.
pub map_loop-IsFirst :
    (segs : List SegmentManager) (left from addr i off : ℕ)
    → map_loop segs left from addr ≡ mapped i off
    → IsFirst segs from addr i off
map_loop-IsFirst segs zero from addr i off e = unfold map_loop in (cc)
map_loop-IsFirst segs (suc left) from addr i off e = elim (Option-cases (get_elem? segs from)) [
  | inl gone ↦ cc (round_gone segs left from addr gone)
  | inr (s, here) ↦ elim (Bool-cases (covers s addr)) [
    | inl hit ↦
        let found : mapped from (addr - s.guest_address) ≡ mapped i off =
          sym (round_hit segs left from addr here hit) ∙ e in
        record {
          seg = s;
          at = cc;
          covered = hit;
          offset = cc;
          above = omega (arith, index_eq found);
          before = λ j t lo hi at. absurd (omega (arith, index_eq found));
        }
    | inr miss ↦
        let rest =
          map_loop-IsFirst segs left (from + 1) addr i off
            (sym (round_miss segs left from addr here miss) ∙ e) in
        record {
          seg = rest.seg;
          at = rest.at;
          covered = rest.covered;
          offset = rest.offset;
          above = omega (arith, rest.above);
          before = λ j t lo hi at. elim (ℕ_discrete j from) [
            | yes same ↦ cc
            | no other ↦ rest.before j t (omega arith) hi at
          ];
        }
  ]
]
  where
    index_eq : {a b c d : ℕ} → mapped a b ≡ mapped c d → a ≡ c
    index_eq p = cc

-- No segment covers the address.
abbrev pub IsUncovered : List SegmentManager → ℕ → Type 0
IsUncovered segs addr =
    (j : ℕ) (s : SegmentManager) → get_elem? segs j ≡ some s → covers s addr ≡ false

-- A search that stays inside the array ends at the first cover, or passes over all segments.
search_total :
    (segs : List SegmentManager) (left from addr : ℕ)
    → from + left ≤ length segs
    → ((i : ℕ) × (off : ℕ) × (map_loop segs left from addr ≡ mapped i off))
      ⊎ ((map_loop segs left from addr ≡ null)
          × ((j : ℕ) (s : SegmentManager)
              → from ≤ j
              → j < from + left
              → get_elem? segs j ≡ some s
              → covers s addr ≡ false))
search_total segs zero from addr fits =
    inr ((unfold map_loop in refl), λ j s lo hi at. absurd (omega arith))
search_total segs (suc left) from addr fits =
    let (s, here) = get_elem?-some segs from (omega arith) in
    elim (Bool-cases (covers s addr)) [
      | inl hit ↦ inl (from, addr - s.guest_address, round_hit segs left from addr here hit)
      | inr miss ↦ elim (search_total segs left (from + 1) addr (omega arith)) [
        | inl (i, off, found) ↦ inl (i, off, round_miss segs left from addr here miss ∙ found)
        | inr (nothing, passed) ↦ inr (
          round_miss segs left from addr here miss ∙ nothing,
          λ j t lo hi at. elim (ℕ_discrete j from) [
            | yes same ↦ cc
            | no other ↦ passed j t (omega arith) (omega arith) at
          ],
        )
      ]
    ]

-- With as many segments as are counted, the search finds the first segment that covers the
-- address and the offset of the address in it, or gives `nullptr` when no segment covers it; it
-- never reads past the array.
pub map_address_total :
    (m : MemoryManager) (addr : ℕ)
    → m.num_segments ≡ length m.segment_data
    → ((i : ℕ) × (off : ℕ) × (map_address m addr ≡ mapped i off)
        × IsFirst m.segment_data 0 addr i off)
      ⊎ ((map_address m addr ≡ null) × IsUncovered m.segment_data addr)
unfolding map_address
map_address_total m addr counted =
    elim (search_total m.segment_data m.num_segments 0 addr (omega arith)) [
      | inl (i, off, found) ↦
          inl (i, off, found, map_loop-IsFirst m.segment_data m.num_segments 0 addr i off found)
      | inr (nothing, passed) ↦ inr (
        nothing,
        λ j s at.
            passed j s (omega arith) (omega (arith, get_elem?-lt-length m.segment_data j at)) at,
      )
    ]
