-- ===== src/Binary/Copy.antt =====
-- `std::memcpy`, as `parseElf` of src/Binary.cpp uses it.
use dbtranslator.Base.{
  ℕ, zero, suc, ◌≤◌, ◌<◌, ◌≡◌, refl, ap, Option, none, some, List, [], ◌∷◌, arith, length, All,
  IsByte,
}
use dbtranslator.Binary.{memcpy}

pub record Copied (n : ℕ) (copied : Option (List ℕ)) : Type 0 where
  pub result : List ℕ
  pub succeeds : copied ≡ some result
  pub sized : length result ≡ n
  pub in_bytes : All IsByte result

pub memcpy_total :
    (n : ℕ) (from to : List ℕ)
    → n ≤ length from
    → length to ≡ n
    → All IsByte from
    → Copied n (memcpy n from to)
unfolding memcpy
memcpy_total zero from [] h g bytes = record {
  result = [];
  succeeds = refl;
  sized = refl;
  in_bytes = tt;
}
memcpy_total zero from (t ∷ to) h g bytes = absurd (omega arith)
memcpy_total (suc n) [] to h g bytes = absurd (omega arith)
memcpy_total (suc n) (b ∷ from) [] h g bytes = absurd (omega arith)
memcpy_total (suc n) (b ∷ from) (t ∷ to) h g (first, bytes) =
    let rest = memcpy_total n from to (omega arith) (omega arith) bytes in
    record {
      result = b ∷ rest.result;
      succeeds = rw (rest.succeeds);
      sized = ap suc (rest.sized);
      in_bytes = (first, rest.in_bytes);
    }

pub memcpy_overread : (n : ℕ) (from to : List ℕ) → length from < n → memcpy n from to ≡ none
unfolding memcpy
memcpy_overread zero from to h = absurd (omega arith)
memcpy_overread (suc n) [] to h = refl
memcpy_overread (suc n) (b ∷ from) [] h = refl
memcpy_overread (suc n) (b ∷ from) (t ∷ to) h = rw (memcpy_overread n from to (omega arith))
