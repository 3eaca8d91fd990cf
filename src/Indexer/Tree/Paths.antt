-- ===== src/Indexer/Tree/Paths.antt =====
-- Merkle paths of a sparse tree (`path` and `computed_root` of services/indexer/src/tree.rs).
use mathlib.Core.Path.{ap₂}
use mathlib.Core.List.{append_assoc, append-nil}
use native.Mathlib.Nat.{pow-suc}
use veil_contract.Prelude.{
  ℕ, zero, suc, ◌/◌, ◌%◌, ◌^◌, ◌≤◌, ◌<◌, ◌==◌, if◌then◌else◌, ◌≡◌, inl, inr, ◌∙◌, ap, sym, refl,
  List, [], ◌∷◌, ◌++◌, some, none, ok, arith, take, last_or, unwrap_or, length,
}
use veil_contract.Field.Hash.{hash}
use veil_contract.Field.Chain.{empty_leaf}
use veil_contract.Tree.{row_above, tree_root}
use veil_contract.Tree.Climb.{parity}
use veil_contract.Indexer.Tree.{
  Nodes, get, flip_low_bit, MerklePath, parents_of, fold_siblings, computed_root, path_loop, path,
  climb_rows, zeroes, place_leaves, root,
}
use veil_contract.Indexer.Tree.Nodes.{chain, HoldsRow, parents_of-HoldsRow, climb_rows_lem}
use veil_contract.Indexer.Tree.Place.{InRange, Distinct, place_leaves_lem}
use veil_contract.Indexer.Tree.Root.{IsDepth, sparse_row, root_lem, zeroes_lem, Placed-HoldsRow}

module _ (permutation : ℕ → ℕ → ℕ) where
  -- The siblings on the way up from a position of a full row.
  abbrev pub siblings_over : ℕ → (ℕ → ℕ) → ℕ → List ℕ
  siblings_over zero row position = []
  siblings_over (suc rounds) row position =
      row (flip_low_bit position)
      ∷ siblings_over rounds (row_above (hash permutation) row) (position / 2)

  pub length-siblings_over :
      (rounds position : ℕ) (row : ℕ → ℕ) → length (siblings_over rounds row position) ≡ rounds
  length-siblings_over zero position row = refl
  length-siblings_over (suc rounds) position row =
      ap suc (length-siblings_over rounds (position / 2) (row_above (hash permutation) row))

  -- A node and its sibling hash to the parent.
  step_up :
      (position : ℕ) (row : ℕ → ℕ)
      → (if position % 2 == 1
          then hash permutation (row (flip_low_bit position)) (row position)
          else hash permutation (row position) (row (flip_low_bit position)))
        ≡ row_above (hash permutation) row (position / 2)
  step_up position row = elim (parity position) [
    | inl odd ↦ rw odd (ap₂ (hash permutation) (ap row (omega arith)) (ap row (omega arith)))
    | inr even ↦ rw even (ap₂ (hash permutation) (ap row (omega arith)) (ap row (omega arith)))
  ]

  -- The siblings lead from a node to the root of the tree.
  pub fold_siblings_lem :
      (rounds position : ℕ) (row : ℕ → ℕ)
      → position < 2 ^ rounds
      → fold_siblings permutation position (row position) (siblings_over rounds row position)
        ≡ tree_root (hash permutation) rounds row
  unfolding fold_siblings tree_root
  fold_siblings_lem zero position row small = ap row (omega arith)
  fold_siblings_lem (suc rounds) position row small =
      ap
        (λ node.
          fold_siblings permutation (position / 2) node
            (siblings_over rounds (row_above (hash permutation) row) (position / 2)))
        (step_up position row)
      ∙ fold_siblings_lem rounds (position / 2) (row_above (hash permutation) row)
          (omega (arith, pow-suc 2 rounds))

  path_loop_lem :
      (rounds z position : ℕ) (nodes : Nodes) (row : ℕ → ℕ) (siblings : List ℕ)
      → HoldsRow z nodes row
      → path_loop permutation (take rounds (chain permutation rounds z)) position nodes siblings ≡ (
        siblings ++ siblings_over rounds row position,
        climb_rows permutation (take rounds (chain permutation rounds z)) nodes,
      )
  unfolding path_loop climb_rows
  path_loop_lem zero z position nodes row siblings held =
      ap (λ s. (s, nodes)) (sym (append-nil siblings))
  path_loop_lem (suc rounds) z position nodes row siblings held =
      ap
        (λ s.
          path_loop permutation (take rounds (chain permutation rounds (hash permutation z z)))
            (position / 2) (parents_of permutation z nodes) (siblings ++ (s ∷ [])))
        (held (flip_low_bit position))
      ∙ path_loop_lem rounds (hash permutation z z) (position / 2) (parents_of permutation z nodes)
          (row_above (hash permutation) row) (siblings ++ (row (flip_low_bit position) ∷ []))
          (parents_of-HoldsRow permutation z nodes row held)
      ∙ ap
          (λ s. (
            s,
            climb_rows permutation (take rounds (chain permutation rounds (hash permutation z z)))
                (parents_of permutation z nodes),
          ))
          (append_assoc siblings (row (flip_low_bit position) ∷ []) _)

  -- The path that `path` returns for a leaf in a depth that both contracts accept, with every index
  -- below the capacity and none twice.
  abbrev PathOf : ℕ → Nodes → ℕ → ℕ → MerklePath
  PathOf levels leaves index leaf = record {
    index = index;
    leaf = leaf;
    siblings = siblings_over levels (sparse_row leaves) index;
    root = tree_root (hash permutation) levels (sparse_row leaves);
  }

  path_run :
      (levels index leaf : ℕ) (leaves nodes : Nodes) (zs : List ℕ)
      → zeroes permutation levels ≡ ok zs
      → place_leaves levels leaves [] ≡ ok nodes
      → get nodes index ≡ some leaf
      → path permutation levels leaves index
        ≡ ok (
            some (record {
              index = index;
              leaf = leaf;
              siblings = (path_loop permutation (take levels zs) index nodes []).0;
              root =
                  unwrap_or
                    (get ((path_loop permutation (take levels zs) index nodes []).1) 0)
                    (last_or 0 zs);
            }))
  unfolding path
  path_run levels index leaf leaves nodes zs has_zeroes placed found = ground arith

  path-found :
      (levels index leaf : ℕ) (leaves : Nodes)
      → IsDepth levels
      → InRange levels leaves
      → Distinct leaves
      → get leaves index ≡ some leaf
      → path permutation levels leaves index ≡ ok (some (PathOf levels leaves index leaf))
  path-found levels index leaf leaves depth inside distinct found =
      let placed = place_leaves_lem levels leaves inside distinct in
      let climbed =
        path_loop_lem levels empty_leaf index placed.nodes' (sparse_row leaves) []
          (Placed-HoldsRow permutation levels leaves placed) in
      path_run levels index leaf leaves placed.nodes' (chain permutation levels empty_leaf)
        (zeroes_lem permutation levels depth) placed.result (placed.found index ∙ found)
      ∙ ap₂
          (λ (s : List ℕ) (r : ℕ).
            ok (some (record { index = index; leaf = leaf; siblings = s; root = r })))
          (ap (λ p. p.0) climbed)
          (ap (λ p. unwrap_or (get (p.1) 0) (last_or 0 (chain permutation levels empty_leaf)))
              climbed
            ∙ climb_rows_lem permutation levels empty_leaf 0 placed.nodes' (sparse_row leaves)
                (Placed-HoldsRow permutation levels leaves placed))

  leaf_below :
      (levels index leaf : ℕ) (leaves : Nodes)
      → levels ≤ 32
      → InRange levels leaves
      → get leaves index ≡ some leaf
      → index < 2 ^ levels
  leaf_below levels index leaf [] shallow inside found = absurd cc
  leaf_below levels index leaf ((k, v) ∷ leaves) shallow inside found =
      ground (arith, inside.0, leaf_below levels index leaf leaves shallow inside.1)

  -- For a depth of 1 to 32 levels and leaves at distinct indices below the capacity, `path` answers
  -- for an index with a leaf with that index and leaf, one sibling for each level, and the root that
  -- `root` computes, to which the leaf and the siblings lead.
  pub path_lem :
      (levels index leaf : ℕ) (leaves : Nodes)
      → IsDepth levels
      → InRange levels leaves
      → Distinct leaves
      → get leaves index ≡ some leaf
      → (p : MerklePath) × (path permutation levels leaves index ≡ ok (some p))
        × (p.index ≡ index)
        × (p.leaf ≡ leaf)
        × (length p.siblings ≡ levels)
        × (root permutation levels leaves ≡ ok p.root)
        × (computed_root permutation p ≡ p.root)
  unfolding computed_root
  path_lem levels index leaf leaves depth inside distinct found = (
    PathOf levels leaves index leaf,
    path-found levels index leaf leaves depth inside distinct found,
    refl,
    refl,
    length-siblings_over levels index (sparse_row leaves),
    (root_lem permutation levels _ leaves).1 (depth, inside, distinct, refl),
    ap
          (λ node.
            fold_siblings permutation index node (siblings_over levels (sparse_row leaves) index))
          (ap (λ o. unwrap_or o empty_leaf) (sym found))
        ∙ fold_siblings_lem levels index (sparse_row leaves)
            (leaf_below levels index leaf leaves depth.1 inside found),
  )

  -- Without a leaf at the index there is no path.
  pub path-missing :
      (levels index : ℕ) (leaves : Nodes)
      → IsDepth levels
      → InRange levels leaves
      → Distinct leaves
      → get leaves index ≡ none
      → path permutation levels leaves index ≡ ok none
  unfolding path
  path-missing levels index leaves depth inside distinct missing =
      let placed = place_leaves_lem levels leaves inside distinct in
      let zs = zeroes_lem permutation levels depth in
      let loop = placed.result in let gone = placed.found index ∙ missing in ground arith
