-- ===== src/Indexer/Tree/Root.antt =====
-- The root of a sparse tree (`zeroes` and `root` of services/indexer/src/tree.rs).
use mathlib.Core.List.{append_assoc}
use veil_contract.Prelude.{
  ℕ, zero, suc, ◌≤◌, ◌≡◌, ◌↔◌, ◌∙◌, ap, sym, refl, List, [], ◌∷◌, ◌++◌, ok, arith, >>=-eq-ok,
  ok-injective, unwrap_or, ran, refuse_if-ok,
}
use veil_contract.Field.{bn256_modulus, from_be_bytes}
use veil_contract.Field.Hash.{hash}
use veil_contract.Field.Chain.{empty_leaf}
use veil_contract.Field.Zeroes.{get_zeroes}
use veil_contract.Tree.{tree_root}
use veil_contract.Indexer.Tree.{
  Nodes, get, from_u256, empty_leaf_value, check_levels, zeroes, zeroes_loop, place_leaves, root,
}
use veil_contract.Indexer.Tree.Nodes.{chain, climb_rows_lem, HoldsRow}
use veil_contract.Indexer.Tree.Place.{
  InRange, Distinct, Placed, place_leaves_lem, place_leaves-only,
}

-- The indexer fills with the same leaf as the contracts.
pub from_u256-empty_leaf : from_u256 empty_leaf_value ≡ ok empty_leaf
unfolding from_u256 empty_leaf_value empty_leaf bn256_modulus from_be_bytes get_zeroes
from_u256-empty_leaf = refl

-- A depth that both contracts accept.
abbrev pub IsDepth : ℕ → Type 0
IsDepth levels = (1 ≤ levels) × (levels ≤ 32)

check_levels-ok : (levels : ℕ) → IsDepth levels → check_levels levels ≡ ok tt
unfolding check_levels
check_levels-ok levels h = ground (arith, h)

check_levels-only : (levels : ℕ) (u : Unit {0}) → check_levels levels ≡ ok u → IsDepth levels
unfolding check_levels
check_levels-only levels u h = ground (arith, refuse_if-ok _ _ u h)

-- The row with the leaves at their indices and every other position empty.
abbrev pub sparse_row : Nodes → ℕ → ℕ
sparse_row leaves i = unwrap_or (get leaves i) empty_leaf

module _ (permutation : ℕ → ℕ → ℕ) where
  zeroes_loop_lem :
      (rounds current : ℕ) (out : List ℕ)
      → zeroes_loop permutation rounds current (out ++ (current ∷ []))
        ≡ out ++ chain permutation rounds current
  unfolding zeroes_loop
  zeroes_loop_lem zero current out = refl
  zeroes_loop_lem (suc rounds) current out =
      zeroes_loop_lem rounds (hash permutation current current) (out ++ (current ∷ []))
      ∙ append_assoc out (current ∷ [])
          (chain permutation rounds (hash permutation current current))

  pub zeroes_lem :
      (levels : ℕ)
      → IsDepth levels
      → zeroes permutation levels ≡ ok (chain permutation levels empty_leaf)
  unfolding zeroes
  zeroes_lem levels depth =
      rw (check_levels-ok levels depth, from_u256-empty_leaf)
        (ap ok (zeroes_loop_lem levels empty_leaf []))

  pub zeroes-only : (levels : ℕ) (zs : List ℕ) → zeroes permutation levels ≡ ok zs → IsDepth levels
  unfolding zeroes
  zeroes-only levels zs h = check_levels-only levels tt (ran (check_levels levels) _ h).0

  pub Placed-HoldsRow :
      (levels : ℕ) (leaves : Nodes) (placed : Placed levels leaves [])
      → HoldsRow empty_leaf placed.nodes' (sparse_row leaves)
  Placed-HoldsRow levels leaves placed i = ap (λ o. unwrap_or o empty_leaf) (placed.found i)

  root-ok :
      (levels : ℕ) (leaves : Nodes)
      → IsDepth levels
      → InRange levels leaves
      → Distinct leaves
      → root permutation levels leaves
        ≡ ok (tree_root (hash permutation) levels (sparse_row leaves))
  unfolding root
  root-ok levels leaves depth inside distinct =
      let placed = place_leaves_lem levels leaves inside distinct in
      rw (zeroes_lem levels depth, placed.result)
        (ap ok (
          climb_rows_lem permutation levels empty_leaf 0 placed.nodes' (sparse_row leaves)
            (Placed-HoldsRow levels leaves placed)))

  -- `root` returns a root exactly if the depth is 1 to 32, every index lies below the capacity and
  -- none stands twice, and it is then the root of the full tree, hashed row by row, with the given
  -- leaves at their indices and empty leaves elsewhere.
  pub root_lem :
      (levels top : ℕ) (leaves : Nodes)
      → (root permutation levels leaves ≡ ok top) ↔ (
          IsDepth levels
          × InRange levels leaves
          × Distinct leaves
          × (top ≡ tree_root (hash permutation) levels (sparse_row leaves)))
  unfolding root
  root_lem levels top leaves = (
    (λ h.
        let (zs, has_zeroes, h1) = >>=-eq-ok (zeroes permutation levels) _ h in
        let (nodes, placed, h2) = >>=-eq-ok (place_leaves levels leaves []) _ h1 in
        let depth = zeroes-only levels zs has_zeroes in
        let (inside, distinct, apart) = place_leaves-only levels leaves [] nodes placed in
        (
          depth,
          inside,
          distinct,
          ok-injective (sym h ∙ root-ok levels leaves depth inside distinct),
        )),
    λ (depth, inside, distinct, e). root-ok levels leaves depth inside distinct ∙ ap ok (sym e),
  )
