-- ===== src/Fixture.antt =====
-- The trees of the policy fixture (`merkle_root` and `merkle_proof` of
-- tools/policy-fixture/src/lib.rs). A scalar is a field element; the permutation is a parameter.
pub mod Bits
pub mod Trees
use veil_contract.Prelude.{
  ℕ, zero, suc, ◌+◌, ◌-◌, ◌*◌, ◌/◌, ◌%◌, ◌^◌, Bool, not, ◌&&◌, List, [], ◌∷◌, ◌++◌, Outcome, ok,
  refuse_if, or_trap, ok_or, ◌>>=◌, ◌>>◌, Option, some, none, length, get_elem?, ltb, leb, ◌==◌,
  if◌then◌else◌,
}
use veil_contract.Field.Hash.{hash}

pub data FixtureError : Type 0 where
  leaves_empty length_not_power invalid_length index_outside : FixtureError
  sibling_overflow sibling_underflow path_index_overflow : FixtureError

abbrev pub Result : Type 0 → Type 0
Result A = Outcome FixtureError A

-- `ilog2` of a `usize`, with as many rounds as it has bits.
unfoldable pub ilog2 : ℕ → ℕ → ℕ
ilog2 zero n = 0
ilog2 (suc rounds) n = let rest = ilog2 rounds (n / 2) in if ltb n 2 then 0 else suc rest

unfoldable pub is_power_of_two : ℕ → Bool
unfolding ilog2
is_power_of_two n = 2 ^ ilog2 64 n == n

abbrev pub is_empty : List ℕ → Bool
is_empty leaves = length leaves == 0

-- The index of the sibling, in a `usize`.
unfoldable pub sibling_of : ℕ → Result ℕ
sibling_of index =
    if index % 2 == 0
    then refuse_if (leb (2 ^ 64) (index + 1)) sibling_overflow >> ok (index + 1)
    else refuse_if (index == 0) sibling_underflow >> ok (index - 1)

-- `path_indices |= 1u64.checked_shl(level)?`
unfoldable pub set_bit : ℕ → ℕ → Result ℕ
set_bit level bits =
    refuse_if (leb 64 level) path_index_overflow
    >> ok (if (bits / 2 ^ level) % 2 == 1 then bits else bits + 2 ^ level)

module _ (permutation : ℕ → ℕ → ℕ) where
  -- `poseidon2_compression`
  abbrev pub poseidon2_compression : ℕ → ℕ → ℕ
  poseidon2_compression = hash permutation

  -- The loop over `chunks_exact(2)`.
  unfoldable pub next_row : List ℕ → List ℕ
  next_row [] = []
  next_row (a ∷ []) = []
  next_row (a ∷ b ∷ rest) = poseidon2_compression a b ∷ next_row rest

  -- `while leaves.len() > 1`, with the rounds left; as many as there are leaves are enough.
  unfoldable pub reduce : ℕ → List ℕ → List ℕ
  unfolding next_row
  reduce zero leaves = leaves
  reduce (suc rounds) leaves =
      let rest = reduce rounds (next_row leaves) in if ltb 1 (length leaves) then rest else leaves

  unfoldable pub merkle_root : List ℕ → Result ℕ
  unfolding reduce is_power_of_two
  merkle_root leaves = do
    refuse_if (is_empty leaves) leaves_empty
    refuse_if (not (is_power_of_two (length leaves))) length_not_power
    or_trap (get_elem? (reduce (length leaves) leaves) 0)

  -- The loop of `merkle_proof`, with the levels left.
  unfoldable pub proof_loop : ℕ → ℕ → ℕ → List ℕ → List ℕ → ℕ → Result (List ℕ × ℕ)
  unfolding sibling_of set_bit next_row
  proof_loop zero level index nodes elements bits = ok (elements, bits)
  proof_loop (suc rounds) level index nodes elements bits = do
    sibling_index ← sibling_of index
    sibling ← or_trap (get_elem? nodes sibling_index)
    bits' ← if index % 2 == 1 then set_bit level bits else ok bits
    proof_loop rounds (level + 1) (index / 2) (next_row nodes) (elements ++ (sibling ∷ [])) bits'

  unfoldable pub merkle_proof : List ℕ → ℕ → Result (List ℕ × ℕ × ℕ)
  unfolding proof_loop is_power_of_two ilog2
  merkle_proof leaves index = do
    refuse_if (not (not (is_empty leaves) && is_power_of_two (length leaves))) invalid_length
    refuse_if (leb (length leaves) index) index_outside
    let levels = ilog2 64 (length leaves)
    (elements, bits) ← proof_loop levels 0 index leaves [] 0
    ok (elements, bits, levels)
