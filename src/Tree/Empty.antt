-- ===== src/Tree/Empty.antt =====
-- The tree without leaves: its root, and what it asks of the stored nodes and zeros.
use veil_contract.Prelude.{ℕ, zero, suc, ◌+◌, ◌*◌, ◌≤◌, ◌<◌, ◌≡◌, ◌∙◌, ap, some, NatMap, arith}
use veil_contract.Field.Hash.{hash}
use veil_contract.Field.Chain.{zero_at}
use veil_contract.Tree.{row_above, tree_root}
use veil_contract.Tree.Climb.{FilledFor, ZeroesFor}

module _ (permutation : ℕ → ℕ → ℕ) where
  pub tree_root-empty :
      (rounds level : ℕ) (row : ℕ → ℕ)
      → ((i : ℕ) → row i ≡ zero_at permutation level)
      → tree_root (hash permutation) rounds row ≡ zero_at permutation (rounds + level)
  unfolding tree_root
  tree_root-empty zero level row h = h 0 ∙ ap (zero_at permutation) (omega arith)
  tree_root-empty (suc rounds) level row h =
      tree_root-empty rounds (suc level) (row_above (hash permutation) row)
        (λ i. cc (h (2 * i), h (2 * i + 1)))
      ∙ ap (zero_at permutation) (omega arith)

  pub FilledFor-empty :
      (rounds lvl : ℕ) (row : ℕ → ℕ) (filled : NatMap ℕ)
      → FilledFor permutation rounds lvl 0 row filled
  FilledFor-empty zero lvl row filled = tt
  FilledFor-empty (suc rounds) lvl row filled = (
    (λ odd. absurd (omega arith)),
    FilledFor-empty rounds (lvl + 1) (row_above (hash permutation) row) filled,
  )

  pub ZeroesFor-table :
      (rounds lvl : ℕ) (zeroes : NatMap ℕ)
      → ((j : ℕ) → lvl ≤ j → j < lvl + rounds → zeroes j ≡ some (zero_at permutation j))
      → ZeroesFor permutation rounds lvl (zero_at permutation lvl) zeroes
  ZeroesFor-table zero lvl zeroes h = tt
  ZeroesFor-table (suc rounds) lvl zeroes h =
      let next : suc lvl ≡ lvl + 1 = omega arith in
      (
        h lvl (omega arith) (omega arith),
        rw (← next)
            (ZeroesFor-table rounds (suc lvl) zeroes (λ j lo hi. h j (omega arith) (omega arith))),
      )
