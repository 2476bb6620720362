-- ===== src/Base/Decimal.antt =====
-- Texts, and the decimal text of a number.
use Prim.Native.Nat.{ℕ, zero, suc, ◌+◌, ◌-◌, ◌*◌, ◌/◌, ◌%◌, ◌^◌, ◌≤◌, ◌<◌}
use mathlib.Core.Path.{◌≡◌, refl, ap, ◌∙◌}
use mathlib.Core.Logic.{inl, inr}
use mathlib.Core.List.{List, [], ◌∷◌}
use native.Mathlib.Omega.{arith}
use mathlib.Core.Bool.{Bool, true, false, ◌&&◌}
use dbtranslator.Base.Tests.{◌==◌, ltb, ltb→lt, if◌then◌else◌, Bool-cases}
use dbtranslator.Base.Lists.{All}

-- A text is the list of its character codes.
abbrev pub Text : Type 0
Text = List ℕ

-- Whether two texts are the same.
abbrev pub same_text : Text → Text → Bool
same_text [] [] = true
same_text (a ∷ s) (b ∷ t) = (a == b) && same_text s t
same_text _ _ = false

pub same_text_self : (t : Text) → same_text t t ≡ true
same_text_self [] = refl
same_text_self (a ∷ t) = ground (arith, same_text_self t)

pub same_text-eq : (s t : Text) → same_text s t ≡ true → s ≡ t
same_text-eq [] [] h = refl
same_text-eq [] (b ∷ t) h = cc
same_text-eq (a ∷ s) [] h = cc
same_text-eq (a ∷ s) (b ∷ t) h =
    let heads : a ≡ b = ground arith in
    let tails : same_text s t ≡ true = ground arith in
    let rest : s ≡ t = same_text-eq s t tails in cc

-- The decimal digits of `n` in front of a text; there are no more than `fuel`.
to_string_onto : ℕ → ℕ → Text → Text
to_string_onto zero n rest = rest
to_string_onto (suc fuel) n rest =
    let longer = to_string_onto fuel (n / 10) ((b'0' + n % 10) ∷ rest) in
    if ltb n 10 then (b'0' + n) ∷ rest else longer

-- `std::to_string` of a number below 10 ^ 20, which every integer of the program is.
unfoldable pub to_string : ℕ → Text
unfolding to_string_onto
to_string n = to_string_onto 20 n []

-- The number that a text of digits shows, after the number `v`.
abbrev pub value : ℕ → Text → ℕ
value v [] = v
value v (c ∷ cs) = value (10 * v + (c - b'0')) cs

abbrev pow10 : ℕ → ℕ
pow10 zero = 1
pow10 (suc k) = 10 * pow10 k

value-to_string_onto :
    (fuel n : ℕ) (rest : Text)
    → n < pow10 fuel
    → value 0 (to_string_onto fuel n rest) ≡ value n rest
unfolding to_string_onto
value-to_string_onto zero n rest h = ap (λ (v : ℕ). value v rest) (omega arith)
value-to_string_onto (suc fuel) n rest h = elim (Bool-cases (ltb n 10)) [
  | inl one ↦ rw one (ap (λ (v : ℕ). value v rest) (omega arith))
  | inr many ↦ rw many (
      value-to_string_onto fuel (n / 10) ((b'0' + n % 10) ∷ rest) (omega arith)
      ∙ ap (λ (v : ℕ). value v rest) (omega arith))
]

-- The text of a number shows it.
pub value-to_string : (n : ℕ) → n < 10 ^ 20 → value 0 (to_string n) ≡ n
unfolding to_string
value-to_string n h = value-to_string_onto 20 n [] (omega arith)

abbrev pub IsDigit : ℕ → Type 0
IsDigit c = (b'0' ≤ c) × (c ≤ b'9')

to_string_onto-digits :
    (fuel n : ℕ) (rest : Text) → All IsDigit rest → All IsDigit (to_string_onto fuel n rest)
unfolding to_string_onto
to_string_onto-digits zero n rest digits = digits
to_string_onto-digits (suc fuel) n rest digits = elim (Bool-cases (ltb n 10)) [
  | inl one ↦ let below = ltb→lt n 10 one in rw one ((omega (arith, below)), digits)
  | inr many ↦
      rw many (to_string_onto-digits fuel (n / 10) ((b'0' + n % 10) ∷ rest) ((omega arith), digits))
]

-- It is made of digits.
pub to_string-digits : (n : ℕ) → All IsDigit (to_string n)
unfolding to_string
to_string-digits n = to_string_onto-digits 20 n [] tt
