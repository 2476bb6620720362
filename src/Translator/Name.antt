-- ===== src/Translator/Name.antt =====
-- tests/Main.cpp: the name of a block's function, `"block_" + std::to_string(State->PC)`.
use dbtranslator.Base.{
  ℕ, ◌≡◌, ap, sym, ◌∙◌, arith, IsWord, [], ◌∷◌, ◌++◌, Text, to_string, value, value-to_string,
}

unfoldable pub block_name : ℕ → Text
block_name pc = (b'b' ∷ b'l' ∷ b'o' ∷ b'c' ∷ b'k' ∷ b'_' ∷ []) ++ to_string pc

unfoldable pub drop_prefix : Text → Text
drop_prefix (a ∷ b ∷ c ∷ d ∷ e ∷ f ∷ rest) = rest
drop_prefix _ = []

-- Of a 32-bit address, the number that the name of its block shows after the six characters of the
-- prefix is the address.
pub address-block_name : (pc : ℕ) → IsWord pc → value 0 (drop_prefix (block_name pc)) ≡ pc
unfolding block_name drop_prefix
address-block_name pc fits = value-to_string pc (omega arith)

pub block_name-injective : (p q : ℕ) → IsWord p → IsWord q → block_name p ≡ block_name q → p ≡ q
block_name-injective p q hp hq same =
    sym (address-block_name p hp)
    ∙ ap (λ (t : Text). value 0 (drop_prefix t)) same
    ∙ address-block_name q hq
