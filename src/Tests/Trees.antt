-- ===== src/Tests/Trees.antt =====
-- The theorems on the indexer's trees and its comparisons, at trees of one and two levels.
use veil_contract.Prelude.{
  ℕ, zero, suc, ◌/◌, ◌%◌, ◌<◌, ◌≡◌, ◌↔◌, refl, true, false, List, [], ◌∷◌, ◌++◌, some, ok, length,
  replicate, get_or, arith,
}
use veil_contract.Prelude.Int.{pos}
use veil_contract.Field.{from_be_bytes, bn256_modulus}
use veil_contract.Field.Zeroes.{get_zeroes}
use veil_contract.Field.Hash.{hash}
use veil_contract.Field.Chain.{empty_leaf}
use veil_contract.Tree.{tree_root}
use veil_contract.Asp.Insert.{root_of}
use veil_contract.Indexer.Tree.{
  Nodes, empty_leaf_value, zeroes_loop, MerklePath, contains_key, root, path, computed_root,
}
use veil_contract.Indexer.Tree.Place.{InRange, Distinct}
use veil_contract.Indexer.Tree.Root.{IsDepth, sparse_row, root_lem}
use veil_contract.Indexer.Tree.Paths.{path_lem}
use veil_contract.Indexer.Verify.{
  PoolTree, AllowlistTree, CommitmentRow, AllowlistRow, Check, all_ok, pool_leaves, check_pool,
  check_allowlist,
}
use veil_contract.Indexer.Verify.Replayed.{RowsAgree}
use veil_contract.Indexer.Verify.Allowlist.{check_allowlist_lem}
use veil_contract.Indexer.Verify.Leaves.{HasLeaf, IsFromRows}
use veil_contract.Indexer.Verify.PoolCheck.{check_pool_lem}
use veil_contract.Pool.Types.{Groth16Proof}
use veil_contract.ProofBytes.{try_from, try_from_lem, IsSized, proof_bytes}
use veil_contract.Fixture.{merkle_root, merkle_proof}
use veil_contract.Fixture.Trees.{merkle_proof_lem}
use veil_contract.Tests.Worlds.{value_of, succeeds, succeeds-ok}
use veil_contract.Tests.Toy.{toy}

abbrev sparse : Nodes
sparse = (0, 5) ∷ (2, 7) ∷ []

root_lem_example : (root toy 2 sparse ≡ ok (tree_root (hash toy) 2 (sparse_row sparse))) ↔ (
    IsDepth 2
    × InRange 2 sparse
    × Distinct sparse
    × (tree_root (hash toy) 2 (sparse_row sparse) ≡ tree_root (hash toy) 2 (sparse_row sparse)))
root_lem_example = root_lem toy 2 (tree_root (hash toy) 2 (sparse_row sparse)) sparse

path_lem_example :
    (p : MerklePath) × (path toy 2 sparse 2 ≡ ok (some p))
    × (p.index ≡ 2)
    × (p.leaf ≡ 7)
    × (length p.siblings ≡ 2)
    × (root toy 2 sparse ≡ ok p.root)
    × (computed_root toy p ≡ p.root)
path_lem_example =
    path_lem toy 2 2 7 sparse (omega arith, omega arith) (omega arith, (omega arith, tt))
      (refl, (refl, tt)) refl

-- The 32 bytes of a number, in big-endian order.
abbrev be_bytes : ℕ → ℕ → List ℕ
be_bytes zero n = []
be_bytes (suc rounds) n = be_bytes rounds (n / 256) ++ (n % 256 ∷ [])

abbrev commitment_row : ℕ → ℕ → CommitmentRow
commitment_row i c = record { leaf_index = pos i; commitment = be_bytes 32 c; origin = "transact" }

abbrev commitment_rows : List CommitmentRow
commitment_rows = commitment_row 0 301 ∷ commitment_row 1 302 ∷ []

abbrev pool_state : PoolTree
pool_state = record { ledger = 9; levels = 1; next_index = 2; root = hash toy 301 302 }

abbrev pool_checks : List Check
pool_checks = value_of (check_pool toy commitment_rows pool_state) []

pool_checks_succeed : succeeds (check_pool toy commitment_rows pool_state) ≡ true
unfolding check_pool toy empty_leaf_value zeroes_loop get_zeroes from_be_bytes bn256_modulus
pool_checks_succeed = refl

pool_checks_pass : all_ok pool_checks ≡ true
unfolding check_pool all_ok toy empty_leaf_value zeroes_loop get_zeroes from_be_bytes bn256_modulus
pool_checks_pass = refl

check_pool_lem_example :
    (leaves : Nodes) × (pool_leaves commitment_rows [] ≡ ok leaves)
    × Distinct leaves
    × ((i : ℕ) → i < 2 → contains_key leaves i ≡ true)
    × (hash toy 301 302 ≡ tree_root (hash toy) 1 (sparse_row leaves))
    × ((i leaf : ℕ) → HasLeaf leaves i leaf ↔ IsFromRows commitment_rows i leaf)
check_pool_lem_example =
    check_pool_lem toy commitment_rows pool_state pool_checks
      (succeeds-ok (check_pool toy commitment_rows pool_state) [] pool_checks_succeed)
      pool_checks_pass

abbrev allowlist_rows : List AllowlistRow
allowlist_rows =
    record {
      kind = "added";
      leaf = be_bytes 32 71;
      leaf_index = some (pos 0);
      root = be_bytes 32 (hash toy 71 empty_leaf);
    }
    ∷ []

abbrev allowlist_state : AllowlistTree
allowlist_state = record {
  ledger = 9;
  levels = 1;
  next_index = 1;
  root = hash toy 71 empty_leaf;
  operator_maintained = false;
}

abbrev allowlist_checked : List Check
allowlist_checked = value_of (check_allowlist toy allowlist_rows allowlist_state) []

allowlist_checks_succeed : succeeds (check_allowlist toy allowlist_rows allowlist_state) ≡ true
unfolding check_allowlist toy empty_leaf_value zeroes_loop get_zeroes from_be_bytes bn256_modulus
    empty_leaf
allowlist_checks_succeed = refl

allowlist_checks_pass : all_ok allowlist_checked ≡ true
unfolding check_allowlist all_ok toy empty_leaf_value zeroes_loop get_zeroes from_be_bytes
    bn256_modulus empty_leaf
allowlist_checks_pass = refl

check_allowlist_lem_example :
    (leaves : List ℕ) × (length leaves ≡ 1)
    × RowsAgree toy 1 [] allowlist_rows leaves
    × (hash toy 71 empty_leaf ≡ root_of toy 1 leaves)
    × (1 ≡ length leaves)
check_allowlist_lem_example =
    check_allowlist_lem toy allowlist_rows allowlist_state allowlist_checked
      (succeeds-ok (check_allowlist toy allowlist_rows allowlist_state) [] allowlist_checks_succeed)
      allowlist_checks_pass refl

abbrev sevens : Groth16Proof
sevens = record { a = replicate 64 7; b = replicate 128 7; c = replicate 64 7 }

try_from_lem_example :
    (try_from (replicate 256 7) ≡ ok sevens)
    ↔ (IsSized sevens × (proof_bytes sevens ≡ replicate 256 7))
try_from_lem_example = try_from_lem (replicate 256 7) sevens

abbrev four_leaves : List ℕ
four_leaves = 5 ∷ 6 ∷ 7 ∷ 8 ∷ []

merkle_proof_lem_example :
    (elements : List ℕ) × (merkle_proof toy four_leaves 2 ≡ ok (elements, 2, 2))
    × (length elements ≡ 2)
    × (merkle_root toy four_leaves ≡ ok (tree_root (hash toy) 2 (λ i. get_or four_leaves i 0)))
    × (computed_root toy (record {
      index = 2;
      leaf = 7;
      siblings = elements;
      root = tree_root (hash toy) 2 (λ i. get_or four_leaves i 0);
    })
        ≡ tree_root (hash toy) 2 (λ i. get_or four_leaves i 0))
merkle_proof_lem_example = merkle_proof_lem toy 2 2 four_leaves (omega arith) refl (omega arith)
