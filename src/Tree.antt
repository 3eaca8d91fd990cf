-- ===== src/Tree.antt =====
-- Perfect binary hash trees. `tree_root` is the specification: it hashes every row in full.
-- `climb` is the loop by which both contracts append to the tree
-- (contracts/pool/src/merkle_with_history.rs, contracts/asp-membership/src/contract.rs).
pub mod Climb
pub mod Empty
use veil_contract.Prelude.{
  ℕ, zero, suc, ◌+◌, ◌*◌, ◌/◌, ◌%◌, Outcome, ok, ok_or, ◌>>=◌, ◌==◌, if◌then◌else◌, NatMap, update,
}
use veil_contract.Field.{poseidon2_compress}

module _ (h : ℕ → ℕ → ℕ) where
  -- The row of parents over a row of nodes.
  abbrev pub row_above : (ℕ → ℕ) → ℕ → ℕ
  row_above row i = h (row (2 * i)) (row (2 * i + 1))

  -- The root of the tree over the first `2 ^ levels` values of a row.
  unfoldable pub tree_root : ℕ → (ℕ → ℕ) → ℕ
  tree_root zero row = row 0
  tree_root (suc levels) row = tree_root levels (row_above row)

module _ {E : Type 0} (permutation : ℕ → ℕ → ℕ) (not_initialized : E) (zeroes : NatMap ℕ) where
  -- One round of the loop: the hash of the parent, and the subtree hashes after it.
  unfoldable pub climb_step : ℕ → ℕ → ℕ → NatMap ℕ → Outcome E (ℕ × NatMap ℕ)
  climb_step lvl current_index current_hash filled =
      if current_index % 2 == 1
      then (do
        left ← ok_or (filled lvl) not_initialized
        parent ← poseidon2_compress permutation left current_hash
        ok (parent, filled))
      else (do
        zero_val ← ok_or (zeroes lvl) not_initialized
        parent ← poseidon2_compress permutation current_hash zero_val
        ok (parent, update filled lvl current_hash))

  -- `for lvl in ..levels`, with the rounds left.
  unfoldable pub climb : ℕ → ℕ → ℕ → ℕ → NatMap ℕ → Outcome E (ℕ × NatMap ℕ)
  unfolding climb_step
  climb zero lvl current_index current_hash filled = ok (current_hash, filled)
  climb (suc rounds) lvl current_index current_hash filled =
      climb_step lvl current_index current_hash filled >>= λ (parent, filled').
      climb rounds (lvl + 1) (current_index / 2) parent filled'
