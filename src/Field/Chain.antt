-- ===== src/Field/Chain.antt =====
-- The chain of empty-subtree hashes, and what it says of the table `get_zeroes`.
use veil_contract.Prelude.{ℕ, zero, suc, ◌≤◌, ◌<◌, ◌≡◌, refl, some, get_elem?, get_or, arith}
use veil_contract.Field.{bn256_modulus}
use veil_contract.Field.Hash.{hash, hash_lt}
use veil_contract.Field.Zeroes.{get_zeroes}

-- The value of an empty leaf.
unfoldable pub empty_leaf : ℕ
unfolding get_zeroes
empty_leaf = get_or get_zeroes 0 0

pub empty_leaf_lt : empty_leaf < bn256_modulus
unfolding empty_leaf bn256_modulus
empty_leaf_lt = omega arith

pub get_zeroes-head : get_elem? get_zeroes 0 ≡ some empty_leaf
unfolding empty_leaf get_zeroes
get_zeroes-head = refl

-- The root of an empty tree of each depth.
abbrev pub zero_at : (ℕ → ℕ → ℕ) → ℕ → ℕ
zero_at permutation zero = empty_leaf
zero_at permutation (suc level) =
    hash permutation (zero_at permutation level) (zero_at permutation level)

pub zero_at_lt : (permutation : ℕ → ℕ → ℕ) (level : ℕ) → zero_at permutation level < bn256_modulus
zero_at_lt permutation zero = empty_leaf_lt
zero_at_lt permutation (suc level) =
    hash_lt permutation (zero_at permutation level) (zero_at permutation level)

-- The table holds the chain of the host's permutation, as its comment says.
abbrev pub HasZeroTable : (ℕ → ℕ → ℕ) → Type 0
HasZeroTable permutation =
    (level : ℕ) → level ≤ 32 → get_elem? get_zeroes level ≡ some (zero_at permutation level)
