-- ===== src/Tests/Toy.antt =====
-- A permutation for the tests: on two equal entries of the table of zeros it answers what the next
-- entry asks for, and elsewhere it mixes its arguments.
use mathlib.Core.Path.{ap, sym}
use native.Mathlib.Nat.{mod-lt}
use veil_contract.Prelude.{
  ℕ, zero, suc, ◌+◌, ◌-◌, ◌*◌, ◌%◌, ◌≤◌, ◌<◌, ◌≡◌, ◌∙◌, refl, List, [], ◌∷◌, some, get_elem?,
  get_or, length, Bool, true, ◌&&◌, arith, ◌==◌, if◌then◌else◌,
}
use veil_contract.Field.{bn256_modulus}
use veil_contract.Field.Hash.{hash, PermutesField, modulus_bounds}
use veil_contract.Field.Zeroes.{get_zeroes}
use veil_contract.Field.Chain.{zero_at, HasZeroTable, get_zeroes-head}

-- The entry after a value in a list.
abbrev entry_after : List ℕ → ℕ → ℕ → ℕ
entry_after [] x d = d
entry_after (a ∷ []) x d = d
entry_after (a ∷ b ∷ rest) x d = if a == x then b else entry_after (b ∷ rest) x d

unfoldable pub toy : ℕ → ℕ → ℕ
unfolding get_zeroes
toy l r =
    ((if l == r then entry_after get_zeroes l 0 else l * 31 + r + 7) + (bn256_modulus - l))
    % bn256_modulus

pub toy-PermutesField : PermutesField toy
unfolding toy
toy-PermutesField l r hl hr = mod-lt _ modulus_bounds.0

abbrev entry : ℕ → ℕ
entry level = get_or get_zeroes level 0

-- Every entry of a list is followed by its hash with itself.
abbrev is_chain : List ℕ → Bool
is_chain [] = true
is_chain (a ∷ []) = true
is_chain (a ∷ b ∷ rest) = (hash toy a a == b) && is_chain (b ∷ rest)

is_chain-head :
    (a b : ℕ) (rest : List ℕ)
    → is_chain (a ∷ b ∷ rest) ≡ true
    → (hash toy a a ≡ b) × (is_chain (b ∷ rest) ≡ true)
is_chain-head a b rest h = ground arith

is_chain-at :
    (zs : List ℕ) (k : ℕ)
    → is_chain zs ≡ true
    → suc k < length zs
    → hash toy (get_or zs k 0) (get_or zs k 0) ≡ get_or zs (suc k) 0
is_chain-at [] k h lt = absurd (omega arith)
is_chain-at (a ∷ []) k h lt = absurd (omega arith)
is_chain-at (a ∷ b ∷ rest) zero h lt = (is_chain-head a b rest h).0
is_chain-at (a ∷ b ∷ rest) (suc k) h lt =
    is_chain-at (b ∷ rest) k (is_chain-head a b rest h).1 (omega arith)

get_elem?-get_or : (zs : List ℕ) (k : ℕ) → k < length zs → get_elem? zs k ≡ some (get_or zs k 0)
get_elem?-get_or [] k lt = absurd (omega arith)
get_elem?-get_or (z ∷ zs) zero lt = refl
get_elem?-get_or (z ∷ zs) (suc k) lt = get_elem?-get_or zs k (omega arith)

table_length : length get_zeroes ≡ 33
unfolding get_zeroes
table_length = refl

table_chain : is_chain get_zeroes ≡ true
unfolding toy get_zeroes bn256_modulus
table_chain = refl

entry_held : (level : ℕ) → level ≤ 32 → get_elem? get_zeroes level ≡ some (entry level)
entry_held level le = get_elem?-get_or get_zeroes level (omega (arith, table_length))

chain : (level : ℕ) → level ≤ 32 → zero_at toy level ≡ entry level
chain zero le = let a = get_zeroes-head in let b = entry_held 0 (omega arith) in cc
chain (suc level) le =
    ap (λ z. hash toy z z) (chain level (omega arith))
    ∙ is_chain-at get_zeroes level table_chain (omega (arith, table_length))

pub toy-HasZeroTable : HasZeroTable toy
toy-HasZeroTable level le = entry_held level le ∙ ap some (sym (chain level le))
