-- ===== src/Field.antt =====
-- BN254 scalar field values and Poseidon2 compression, as the contracts hash them
-- (contracts/soroban-utils/src/constants.rs and poseidon2.rs). A `U256` is a number below 2 ^ 256.
-- The host's `poseidon2_permutation` is a parameter, reduced to the first element that it returns
-- for the width-2 instance.
pub mod Hash
pub mod Zeroes
pub mod Chain
use veil_contract.Prelude.{
  ℕ, ◌+◌, ◌*◌, ◌%◌, ◌^◌, ◌||◌, List, [], ◌∷◌, leb, ltb, if◌then◌else◌, Outcome, ok, trap, ◌>>=◌,
}

-- `U256::from_be_bytes`
be_value : ℕ → List ℕ → ℕ
be_value acc [] = acc
be_value acc (b ∷ bs) = be_value (acc * 256 + b) bs

unfoldable pub from_be_bytes : List ℕ → ℕ
unfolding be_value
from_be_bytes bs = be_value 0 bs

abbrev bn256_mod_bytes : List ℕ
bn256_mod_bytes =
    48 ∷ 100 ∷ 78 ∷ 114 ∷ 225 ∷ 49 ∷ 160 ∷ 41 ∷ 184 ∷ 80 ∷ 69 ∷ 182 ∷ 129 ∷ 129 ∷ 88 ∷ 93 ∷ 40 ∷ 51
    ∷ 232 ∷ 72 ∷ 121 ∷ 185 ∷ 112 ∷ 145 ∷ 67 ∷ 225 ∷ 245 ∷ 147 ∷ 240 ∷ 0 ∷ 0 ∷ 1 ∷ []

unfoldable pub bn256_modulus : ℕ
unfolding from_be_bytes
bn256_modulus = from_be_bytes bn256_mod_bytes

-- `U256::add`, which traps on overflow.
unfoldable pub u256_add : {E : Type 0} → ℕ → ℕ → Outcome E ℕ
u256_add a b = if ltb (a + b) (2 ^ 256) then ok (a + b) else trap

unfoldable pub poseidon2_compress : {E : Type 0} → (ℕ → ℕ → ℕ) → ℕ → ℕ → Outcome E ℕ
unfolding u256_add
poseidon2_compress permutation left right =
    if leb bn256_modulus left || leb bn256_modulus right
    then trap
    else (u256_add (permutation left right) left >>= λ sum.
        ok (if leb bn256_modulus sum then sum % bn256_modulus else sum))
