-- ===== src/Memory/Requests.antt =====
-- include/dbtranslator/Memory.h and src/Memory.cpp: sequences of reads and writes, as translated code
-- makes them, on memories with the same segments in another order.
use mathlib.Core.Logic.{∥∥₁_elim}
use mathlib.Core.List.{Perm, Permᴰ}
use mathlib.Core.List.Permᴰ
use dbtranslator.Base.{
  ℕ, ◌≡◌, refl, sym, inl, inr, Option, some, List, [], ◌∷◌, ◌>>=◌, Option-cases,
}
use dbtranslator.Memory.{
  MemoryManager, Mapping, mapped, null, overrun, map_address, assign, write8, write16, write32,
}
use dbtranslator.Memory.Valid.{IsValid}
use dbtranslator.Memory.Width.{Width, one, two, four, read, write, write_kept}
use dbtranslator.Memory.Array.{AreDisjoint}
use dbtranslator.Memory.Store.{store_bytes-AreDisjoint}
use dbtranslator.Memory.Order.{read_same, write-AreReordered}

pub data Request : Type 0 where
  load : Width → ℕ → Request
  store : Width → ℕ → ℕ → Request

-- What the reads give, where all the requests have a result.
abbrev pub serve : List Request → MemoryManager → Option (List ℕ)
serve [] m = some []
serve (load k a ∷ rest) m = read k m a >>= λ v. serve rest m >>= λ vs. some (v ∷ vs)
serve (store k a v ∷ rest) m = write k m a v >>= λ m'. serve rest m'

assign-AreDisjoint :
    (n : ℕ) (m : MemoryManager) (p : Mapping) (v : ℕ) {m' : MemoryManager}
    → AreDisjoint m
    → assign n m p v ≡ some m'
    → AreDisjoint m'
unfolding assign
assign-AreDisjoint n m (mapped i off) v disjoint h = store_bytes-AreDisjoint n m i off v disjoint h
assign-AreDisjoint n m null v disjoint h = cc
assign-AreDisjoint n m overrun v disjoint h = cc

write-AreDisjoint :
    (k : Width) (m : MemoryManager) (a v : ℕ) {m' : MemoryManager}
    → AreDisjoint m
    → write k m a v ≡ some m'
    → AreDisjoint m'
unfolding write8 write16 write32
write-AreDisjoint one m a v disjoint h = assign-AreDisjoint 1 m (map_address m a) v disjoint h
write-AreDisjoint two m a v disjoint h = assign-AreDisjoint 2 m (map_address m a) v disjoint h
write-AreDisjoint four m a v disjoint h = assign-AreDisjoint 4 m (map_address m a) v disjoint h

serve_same :
    (rs : List Request) (m m' : MemoryManager)
    → IsValid m
    → IsValid m'
    → AreDisjoint m'
    → Permᴰ m.segment_data m'.segment_data
    → serve rs m ≡ serve rs m'
serve_same [] m m' valid valid' disjoint perm = refl
serve_same (load k a ∷ rs) m m' valid valid' disjoint perm =
    rw
      (read_same m m' a valid valid' disjoint perm k, serve_same rs m m' valid valid' disjoint perm)
serve_same (store k a v ∷ rs) m m' valid valid' disjoint perm =
    let same = write-AreReordered m m' a valid valid' disjoint perm k v in
    elim (Option-cases (write k m a v)) [
      | inl stuck ↦ elim (Option-cases (write k m' a v)) [
        | inl stuck' ↦ rw (stuck, stuck')
        | inr (m₂', wrote') ↦ absurd (rw (stuck, wrote') at same)
      ]
      | inr (m₂, wrote) ↦ elim (Option-cases (write k m' a v)) [
        | inl stuck' ↦ absurd (rw (wrote, stuck') at same)
        | inr (m₂', wrote') ↦
            rw (wrote, wrote')
              (serve_same rs m₂ m₂' (write_kept k m a v m₂ valid wrote)
                (write_kept k m' a v m₂' valid' wrote') (write-AreDisjoint k m' a v disjoint wrote')
                (rw (wrote, wrote') at same))
      ]
    ]

-- Two well-formed memories with the same segments in any order, where no two segments overlap, cannot
-- be told apart by any sequence of reads and writes: the reads give the same values, or in both
-- memories one of the requests has no result.
pub serve_order :
    (rs : List Request) (m m' : MemoryManager)
    → IsValid m
    → IsValid m'
    → AreDisjoint m
    → Perm m.segment_data m'.segment_data
    → serve rs m ≡ serve rs m'
serve_order rs m m' valid valid' disjoint perm =
    let is_set : IsSet (Option (List ℕ)) = hlevel in
    ∥∥₁_elim perm (is_set (serve rs m) (serve rs m'))
      (λ p. sym (serve_same rs m' m valid' valid disjoint (Permᴰ.symm p)))
