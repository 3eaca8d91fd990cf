-- ===== src/Indexer/Tree/Filled.antt =====
-- The loop by which the incremental tree appends a leaf (`IncrementalTree::push` of
-- services/indexer/src/tree.rs), against the full tree.
use mathlib.Core.Path.{ap₂}
use native.Mathlib.Nat.{pow-suc}
use veil_contract.Prelude.{
  ℕ, zero, suc, ◌+◌, ◌*◌, ◌-◌, ◌/◌, ◌%◌, ◌^◌, ◌<◌, ◌≡◌, inl, inr, ◌∙◌, ap, sym, List, [], ◌∷◌,
  arith, last_or,
}
use veil_contract.Field.Hash.{hash}
use veil_contract.Tree.{row_above, tree_root}
use veil_contract.Tree.Climb.{parity}
use veil_contract.Indexer.Tree.{push_loop}
use veil_contract.Indexer.Tree.Nodes.{chain}

module _ (permutation : ℕ → ℕ → ℕ) where
  -- With `n` nodes of a row complete, each level where that count is odd keeps the last of them.
  abbrev pub ListFilledFor : ℕ → ℕ → (ℕ → ℕ) → List ℕ → Type 0
  ListFilledFor zero n row filled = Unit
  ListFilledFor (suc rounds) n row [] = ⊥
  ListFilledFor (suc rounds) n row (f ∷ filled) =
      (n % 2 ≡ 1 → f ≡ row (n - 1))
      × ListFilledFor rounds (n / 2) (row_above (hash permutation) row) filled

  -- What a run of the loop from the node `n` of a row leaves behind.
  pub record Pushed (rounds n z : ℕ) (row : ℕ → ℕ) (filled : List ℕ) : Type 0 where
    pub filled' : List ℕ
    pub result :
        push_loop permutation rounds filled (chain permutation rounds z) n (row n)
        ≡ (tree_root (hash permutation) rounds row, filled')
    pub partial : ListFilledFor rounds n row filled'
    pub complete : ListFilledFor rounds (n + 1) row filled'

  row_above-same :
      (row row' : ℕ → ℕ) (n : ℕ)
      → ((i : ℕ) → i < n → row i ≡ row' i)
      → (i : ℕ) → i < n / 2
      → row_above (hash permutation) row i ≡ row_above (hash permutation) row' i
  row_above-same row row' n same i lt =
      cc (same (2 * i) (omega arith), same (2 * i + 1) (omega arith))

  push_odd :
      (rounds n z f : ℕ) (row : ℕ → ℕ) (filled : List ℕ)
      → n % 2 ≡ 1
      → f ≡ row (n - 1)
      → Pushed rounds (n / 2) (hash permutation z z) (row_above (hash permutation) row) filled
      → Pushed (suc rounds) n z row (f ∷ filled)
  unfolding push_loop tree_root
  push_odd rounds n z f row filled odd stored up = record {
    filled' = f ∷ up.filled';
    result = rw (odd, parent) (ap (λ p. (p.0, f ∷ p.1)) up.result);
    partial = ((λ _. stored), up.partial);
    complete = ((λ e. absurd (omega arith)), rw half up.complete);
  }
    where
      half : (n + 1) / 2 ≡ n / 2 + 1
      half = omega arith

      parent : hash permutation f (row n) ≡ row_above (hash permutation) row (n / 2)
      parent = ap₂ (hash permutation) (stored ∙ ap row (omega arith)) (ap row (omega arith))

  push_even :
      (rounds n z f : ℕ) (row : ℕ → ℕ) (filled : List ℕ)
      → n % 2 ≡ 0
      → ((i : ℕ) → n < i → row i ≡ z)
      → Pushed rounds (n / 2) (hash permutation z z) (row_above (hash permutation) row) filled
      → Pushed (suc rounds) n z row (f ∷ filled)
  unfolding push_loop tree_root
  push_even rounds n z f row filled even empty up = record {
    filled' = row n ∷ up.filled';
    result = rw (even, parent) (ap (λ p. (p.0, row n ∷ p.1)) up.result);
    partial = ((λ odd. absurd (omega arith)), up.partial);
    complete = ((λ _. ap row (omega arith)), rw half up.partial);
  }
    where
      half : (n + 1) / 2 ≡ n / 2
      half = omega arith

      parent : hash permutation (row n) z ≡ row_above (hash permutation) row (n / 2)
      parent =
          ap₂ (hash permutation) (ap row (omega arith))
            (sym (empty (2 * (n / 2) + 1) (omega arith)))

  pub push_loop-Pushed :
      (rounds n z : ℕ) (row row' : ℕ → ℕ) (filled : List ℕ)
      → ((i : ℕ) → i < n → row i ≡ row' i)
      → ((i : ℕ) → n < i → row' i ≡ z)
      → n < 2 ^ rounds
      → ListFilledFor rounds n row filled
      → Pushed rounds n z row' filled
  unfolding push_loop tree_root
  push_loop-Pushed zero n z row row' filled same empty small h = record {
    filled' = filled;
    result = ap (λ k. (row' k, filled)) (omega arith);
    partial = tt;
    complete = tt;
  }
  push_loop-Pushed (suc rounds) n z row row' [] same empty small h = absurd h
  push_loop-Pushed (suc rounds) n z row row' (f ∷ filled) same empty small h =
      let up =
        push_loop-Pushed rounds (n / 2) (hash permutation z z) (row_above (hash permutation) row)
          (row_above (hash permutation) row') filled (row_above-same row row' n same)
          (λ i lt.
            ap₂ (hash permutation) (empty (2 * i) (omega arith)) (empty (2 * i + 1) (omega arith)))
          (omega (arith, pow-suc 2 rounds)) h.1 in
      elim (parity n) [
        | inl odd ↦ push_odd rounds n z f row' filled odd (h.0 odd ∙ same (n - 1) (omega arith)) up
        | inr even ↦ push_even rounds n z f row' filled even empty up
      ]

  pub ListFilledFor-empty :
      (rounds z : ℕ) (row : ℕ → ℕ) → ListFilledFor rounds 0 row (chain permutation rounds z)
  ListFilledFor-empty zero z row = tt
  ListFilledFor-empty (suc rounds) z row = (
    (λ odd. absurd (omega arith)),
    ListFilledFor-empty rounds (hash permutation z z) (row_above (hash permutation) row),
  )

  pub last_or-chain :
      (rounds z d : ℕ) (row : ℕ → ℕ)
      → ((i : ℕ) → row i ≡ z)
      → last_or d (chain permutation rounds z) ≡ tree_root (hash permutation) rounds row
  unfolding tree_root
  last_or-chain zero z d row all = sym (all 0)
  last_or-chain (suc rounds) z d row all =
      last_or-chain rounds (hash permutation z z) z (row_above (hash permutation) row)
        (λ i. ap₂ (hash permutation) (all (2 * i)) (all (2 * i + 1)))
