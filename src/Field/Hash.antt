-- ===== src/Field/Hash.antt =====
-- The total function that `poseidon2_compress` computes on field elements.
use native.Mathlib.Nat.{mod-lt, mod-eq_of_lt}
use veil_contract.Prelude.{ℕ, ◌+◌, ◌%◌, ◌^◌, ◌<◌, ◌≤◌, ◌≡◌, refl, ok, arith}
use veil_contract.Field.{bn256_modulus, poseidon2_compress}

pub modulus_value :
    bn256_modulus ≡ 0x30644e72e131a029b85045b68181585d2833e84879b9709143e1f593f0000001
unfolding bn256_modulus
modulus_value = refl

pub modulus_bounds : (0 < bn256_modulus) × (bn256_modulus + bn256_modulus ≤ 2 ^ 256)
modulus_bounds = omega (arith, modulus_value)

abbrev pub hash : (ℕ → ℕ → ℕ) → ℕ → ℕ → ℕ
hash permutation left right = (permutation left right + left) % bn256_modulus

-- The host's permutation returns field elements.
abbrev pub PermutesField : (ℕ → ℕ → ℕ) → Type 0
PermutesField permutation =
    (l r : ℕ) → l < bn256_modulus → r < bn256_modulus → permutation l r < bn256_modulus

pub hash_lt : (permutation : ℕ → ℕ → ℕ) (l r : ℕ) → hash permutation l r < bn256_modulus
hash_lt permutation l r = mod-lt (permutation l r + l) modulus_bounds.0

pub poseidon2_compress_lem :
    {E : Type 0} (permutation : ℕ → ℕ → ℕ)
    → PermutesField permutation
    → (l r : ℕ) → l < bn256_modulus
    → r < bn256_modulus
    → poseidon2_compress {E = E} permutation l r ≡ ok (hash permutation l r)
unfolding poseidon2_compress
poseidon2_compress_lem permutation closed l r hl hr = ground (
  arith,
  modulus_bounds,
  closed l r hl hr,
  mod-eq_of_lt {n = permutation l r + l} {m = bn256_modulus},
)
