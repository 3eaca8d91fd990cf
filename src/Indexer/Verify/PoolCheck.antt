-- ===== src/Indexer/Verify/PoolCheck.antt =====
-- What a passed comparison of the pool means (`check_pool` of services/indexer/src/verify.rs).
use veil_contract.Prelude.{
  ℕ, suc, ◌+◌, ◌≤◌, ◌<◌, ◌≡◌, ◌↔◌, ◌∙◌, sym, ap, refl, Bool, true, false, ◌&&◌, ◌||◌, List, [], ◌∷◌,
  ok, >>=-eq-ok, ok-injective, length, arith, ◌==◌,
}
use mathlib.Core.Path.{subst}
use veil_contract.Field.Hash.{hash}
use veil_contract.Tree.{tree_root}
use veil_contract.Indexer.Tree.{Nodes, contains_key, root}
use veil_contract.Indexer.Tree.Place.{Distinct}
use veil_contract.Indexer.Tree.Root.{sparse_row, root_lem}
use veil_contract.Indexer.Verify.{
  PoolTree, CommitmentRow, Check, lift_tree, pool_leaves, next_index_of, indices, insert_sorted,
  sort, contiguous_from, check_pool, all_ok, same_shown, shown_bool, shown_number, shown_u256,
}
use veil_contract.Indexer.Verify.Replayed.{lift_tree-ok}
use veil_contract.Indexer.Verify.Leaves.{HasLeaf, IsFromRows, pool_leaves_lem}

abbrev has : ℕ → List ℕ → Bool
has i [] = false
has i (j ∷ js) = (j == i) || has i js

has-insert_sorted : (i j : ℕ) (js : List ℕ) → has i (insert_sorted j js) ≡ ((j == i) || has i js)
has-insert_sorted i j [] = refl
has-insert_sorted i j (k ∷ js) = ground (arith, has-insert_sorted i j js)

has-sort : (i : ℕ) (js : List ℕ) → has i (sort js) ≡ has i js
has-sort i [] = refl
has-sort i (j ∷ js) = has-insert_sorted i j (sort js) ∙ ap (λ h. (j == i) || h) (has-sort i js)

has-indices : (i : ℕ) (leaves : Nodes) → has i (indices leaves) ≡ contains_key leaves i
has-indices i [] = refl
has-indices i ((j, leaf) ∷ leaves) = ap (λ h. (j == i) || h) (has-indices i leaves)

-- A contiguous list has every index from its first on, and no other.
contiguous-has :
    (first i : ℕ) (js : List ℕ)
    → contiguous_from first js ≡ true
    → first ≤ i
    → i < first + length js
    → has i js ≡ true
contiguous-has first i [] h le lt = absurd (omega arith)
contiguous-has first i (j ∷ js) h le lt = let rest = contiguous-has (suc first) i js in ground arith

contiguous-below :
    (first i : ℕ) (js : List ℕ)
    → contiguous_from first js ≡ true
    → has i js ≡ true
    → i < first + length js
contiguous-below first i [] h found = absurd cc
contiguous-below first i (j ∷ js) h found =
    let rest = contiguous-below (suc first) i js in ground arith

-- All the indices lie below a bound.
next_index_of-le :
    (bound : ℕ) (leaves : Nodes)
    → ((i : ℕ) → contains_key leaves i ≡ true → i < bound)
    → next_index_of leaves ≤ bound
next_index_of-le bound [] below = omega arith
next_index_of-le bound ((i, leaf) ∷ leaves) below =
    let here = below i (ground arith) in
    let rest = next_index_of-le bound leaves (λ j h. below j (ground arith)) in ground arith

filled :
    (leaves : Nodes)
    → contiguous_from 0 (sort (indices leaves)) ≡ true
    → (i : ℕ) → i < next_index_of leaves
    → contains_key leaves i ≡ true
filled leaves contiguous i lt =
    let bound = next_index_of-le (0 + length (sort (indices leaves))) leaves (λ j h.
      contiguous-below 0 j (sort (indices leaves)) contiguous
        (has-sort j (indices leaves) ∙ has-indices j leaves ∙ h)) in
    sym (has-sort i (indices leaves) ∙ has-indices i leaves)
    ∙ contiguous-has 0 i (sort (indices leaves)) contiguous (omega arith) (omega arith)

three_checks :
    (contiguous : Bool) (next next' top top' : ℕ)
    → (same_shown (shown_bool contiguous) (shown_bool true)
        && (same_shown (shown_number next) (shown_number next')
            && (same_shown (shown_u256 top) (shown_u256 top') && true)))
      ≡ true
    → (contiguous ≡ true) × (next ≡ next') × (top ≡ top')
three_checks contiguous next next' top top' h = ground (arith, h)

-- If `check_pool` passes every check, then the leaves that it took from the rows stand at distinct
-- indices and fill every position below the next index on chain, and the root on chain is that of the
-- full tree with these leaves at their indices and empty leaves elsewhere. The leaves are each row's
-- commitment at its index and, beside one of the closed deposit path, a zero at the next index.
pub check_pool_lem :
    (permutation : ℕ → ℕ → ℕ) (rows : List CommitmentRow) (state : PoolTree) (checks : List Check)
    → check_pool permutation rows state ≡ ok checks
    → all_ok checks ≡ true
    → (leaves : Nodes) × (pool_leaves rows [] ≡ ok leaves)
      × Distinct leaves
      × ((i : ℕ) → i < state.next_index → contains_key leaves i ≡ true)
      × (state.root ≡ tree_root (hash permutation) state.levels (sparse_row leaves))
      × ((i leaf : ℕ) → HasLeaf leaves i leaf ↔ IsFromRows rows i leaf)
unfolding check_pool all_ok
check_pool_lem permutation rows state checks h passed_all =
    let (leaves, taken, h1) = >>=-eq-ok (pool_leaves rows []) _ h in
    let (computed, has_root, h2) =
      >>=-eq-ok (lift_tree (root permutation state.levels leaves)) _ h1 in
    let (depth, inside, distinct, top) =
      (root_lem permutation state.levels computed leaves).0 (lift_tree-ok _ computed has_root) in
    let all = subst (λ c. all_ok c ≡ true) (sym (ok-injective h2)) passed_all in
    let (contiguous, next_is, root_is) =
      three_checks (contiguous_from 0 (sort (indices leaves))) (next_index_of leaves)
        state.next_index computed state.root all in
    (
      leaves,
      taken,
      distinct,
      (λ i lt. filled leaves contiguous i (subst (λ n. i < n) (sym next_is) lt)),
      sym root_is ∙ top,
      pool_leaves_lem rows leaves taken,
    )
