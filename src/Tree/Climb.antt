-- ===== src/Tree/Climb.antt =====
-- The append loop against the full tree: what the stored nodes mean, and one climb.
use mathlib.Core.Path.{ap₂}
use native.Mathlib.Nat.{pow-suc}
use veil_contract.Prelude.{
  ℕ, zero, suc, ◌+◌, ◌*◌, ◌/◌, ◌%◌, ◌^◌, ◌-◌, ◌<◌, ◌≤◌, ◌≡◌, refl, some, ok, NatMap, update, arith,
  inl, inr, ◌⊎◌, sym, ap, ◌∙◌,
}
use veil_contract.Field.{bn256_modulus}
use veil_contract.Field.Hash.{hash, PermutesField, hash_lt, poseidon2_compress_lem}
use veil_contract.Tree.{row_above, tree_root, climb_step, climb}

pub parity : (n : ℕ) → (n % 2 ≡ 1) ⊎ (n % 2 ≡ 0)
parity n = omega arith

module _ (permutation : ℕ → ℕ → ℕ) where
  -- With `n` nodes of a row complete, each level where that count is odd keeps the last of them.
  abbrev pub FilledFor : ℕ → ℕ → ℕ → (ℕ → ℕ) → NatMap ℕ → Type 0
  FilledFor zero lvl n row filled = Unit
  FilledFor (suc rounds) lvl n row filled =
      (n % 2 ≡ 1 → filled lvl ≡ some (row (n - 1)))
      × FilledFor rounds (lvl + 1) (n / 2) (row_above (hash permutation) row) filled

  -- The stored zero of each level is the hash of two zeros of the level below.
  abbrev pub ZeroesFor : ℕ → ℕ → ℕ → NatMap ℕ → Type 0
  ZeroesFor zero lvl z zeroes = Unit
  ZeroesFor (suc rounds) lvl z zeroes =
      (zeroes lvl ≡ some z) × ZeroesFor rounds (lvl + 1) (hash permutation z z) zeroes

  row_above-congr :
      (row row' : ℕ → ℕ) (n : ℕ)
      → ((i : ℕ) → i < n → row i ≡ row' i)
      → (i : ℕ) → i < n / 2
      → row_above (hash permutation) row i ≡ row_above (hash permutation) row' i
  row_above-congr row row' n same i lt =
      cc (same (2 * i) (omega arith), same (2 * i + 1) (omega arith))

  pub FilledFor-congr :
      (rounds lvl n : ℕ) (row row' : ℕ → ℕ) (filled filled' : NatMap ℕ)
      → ((i : ℕ) → i < n → row i ≡ row' i)
      → ((j : ℕ) → lvl ≤ j → filled j ≡ filled' j)
      → FilledFor rounds lvl n row filled
      → FilledFor rounds lvl n row' filled'
  FilledFor-congr zero lvl n row row' filled filled' same kept h = tt
  FilledFor-congr (suc rounds) lvl n row row' filled filled' same kept h = (
    (λ odd. (sym (kept lvl (omega arith)) ∙ h.0 odd ∙ ap some (same (n - 1) (omega arith)))),
    FilledFor-congr rounds (lvl + 1) (n / 2) _ _ filled filled' (row_above-congr row row' n same)
        (λ j le. kept j (omega arith)) h.1,
  )

  module _ {E : Type 0} (not_initialized : E) (closed : PermutesField permutation)
      (zeroes : NatMap ℕ) where
    step_odd :
        (lvl n left cur : ℕ) (filled : NatMap ℕ)
        → n % 2 ≡ 1
        → filled lvl ≡ some left
        → left < bn256_modulus
        → cur < bn256_modulus
        → climb_step permutation not_initialized zeroes lvl n cur filled
          ≡ ok (hash permutation left cur, filled)
    unfolding climb_step
    step_odd lvl n left cur filled odd stored hl hc =
        rw (stored, odd)
          (ground (arith, poseidon2_compress_lem {E = E} permutation closed left cur hl hc))

    step_even :
        (lvl n z cur : ℕ) (filled : NatMap ℕ)
        → n % 2 ≡ 0
        → zeroes lvl ≡ some z
        → z < bn256_modulus
        → cur < bn256_modulus
        → climb_step permutation not_initialized zeroes lvl n cur filled
          ≡ ok (hash permutation cur z, update filled lvl cur)
    unfolding climb_step
    step_even lvl n z cur filled even stored hz hc =
        rw (stored, even)
          (ground (arith, poseidon2_compress_lem {E = E} permutation closed cur z hc hz))

    -- What a climb from the node `n` of a row leaves behind: with that node still incomplete, and
    -- with it complete.
    pub record Climbed (rounds lvl n : ℕ) (row : ℕ → ℕ) (filled : NatMap ℕ) : Type 0 where
      pub filled' : NatMap ℕ
      pub result :
          climb permutation not_initialized zeroes rounds lvl n (row n) filled
          ≡ ok (tree_root (hash permutation) rounds row, filled')
      pub partial : FilledFor rounds lvl n row filled'
      pub complete : FilledFor rounds lvl (n + 1) row filled'
      pub below : (j : ℕ) → j < lvl → filled' j ≡ filled j

    climb_odd :
        (rounds lvl n : ℕ) (row row' : ℕ → ℕ) (filled : NatMap ℕ)
        → ((i : ℕ) → row' i < bn256_modulus)
        → ((i : ℕ) → i < n → row i ≡ row' i)
        → n % 2 ≡ 1
        → FilledFor (suc rounds) lvl n row filled
        → Climbed rounds (lvl + 1) (n / 2) (row_above (hash permutation) row') filled
        → Climbed (suc rounds) lvl n row' filled
    unfolding climb tree_root
    climb_odd rounds lvl n row row' filled field same odd h up = record {
      filled' = up.filled';
      result =
          rw (step_odd lvl n (row' (n - 1)) (row' n) filled odd stored (field (n - 1)) (field n))
            (rw (← parent) up.result);
      partial = ((λ _. up.below lvl (omega arith) ∙ stored), up.partial);
      complete = ((λ e. absurd (omega arith)), rw half up.complete);
      below = λ j lt. up.below j (omega arith);
    }
      where
        stored : filled lvl ≡ some (row' (n - 1))
        stored = h.0 odd ∙ ap some (same (n - 1) (omega arith))

        parent :
            row_above (hash permutation) row' (n / 2) ≡ hash permutation (row' (n - 1)) (row' n)
        parent = ap₂ (λ a b. hash permutation (row' a) (row' b)) (omega arith) (omega arith)

        half : (n + 1) / 2 ≡ n / 2 + 1
        half = omega arith

    climb_even :
        (rounds lvl n z : ℕ) (row' : ℕ → ℕ) (filled : NatMap ℕ)
        → ((i : ℕ) → row' i < bn256_modulus)
        → ((i : ℕ) → n < i → row' i ≡ z)
        → n % 2 ≡ 0
        → zeroes lvl ≡ some z
        → Climbed rounds
            (lvl + 1)
            (n / 2)
            (row_above (hash permutation) row')
            (update filled lvl (row' n))
        → Climbed (suc rounds) lvl n row' filled
    unfolding climb tree_root
    climb_even rounds lvl n z row' filled field empty even hz up = record {
      filled' = up.filled';
      result =
          rw
            (step_even lvl n (row' (n + 1)) (row' n) filled even
              (hz ∙ ap some (sym (empty (n + 1) (omega arith)))) (field (n + 1)) (field n))
            (rw (← parent) up.result);
      partial = ((λ odd. absurd (omega arith)), up.partial);
      complete = ((λ _. up.below lvl (omega arith) ∙ written), rw half up.partial);
      below = λ j lt. up.below j (omega arith) ∙ kept j lt;
    }
      where
        parent :
            row_above (hash permutation) row' (n / 2) ≡ hash permutation (row' n) (row' (n + 1))
        parent = ap₂ (λ a b. hash permutation (row' a) (row' b)) (omega arith) (omega arith)

        half : (n + 1) / 2 ≡ n / 2
        half = omega arith

        written : update filled lvl (row' n) lvl ≡ some (row' (n + 1 - 1))
        written = ground arith

        kept : (j : ℕ) → j < lvl → update filled lvl (row' n) j ≡ filled j
        kept j lt = ground arith

    pub climb-Climbed :
        (rounds lvl n z : ℕ) (row row' : ℕ → ℕ) (filled : NatMap ℕ)
        → ((i : ℕ) → row' i < bn256_modulus)
        → ((i : ℕ) → i < n → row i ≡ row' i)
        → ((i : ℕ) → n < i → row' i ≡ z)
        → n < 2 ^ rounds
        → FilledFor rounds lvl n row filled
        → ZeroesFor rounds lvl z zeroes
        → Climbed rounds lvl n row' filled
    unfolding climb tree_root
    climb-Climbed zero lvl n z row row' filled field same empty small h hz = record {
      filled' = filled;
      result = ap (λ k. ok (row' k, filled)) (omega arith);
      partial = tt;
      complete = tt;
      below = λ j lt. refl;
    }
    climb-Climbed (suc rounds) lvl n z row row' filled field same empty small h hz =
        let up =
          λ (g : NatMap ℕ)
              (hg : FilledFor rounds (lvl + 1) (n / 2) (row_above (hash permutation) row) g).
            climb-Climbed rounds (lvl + 1) (n / 2) (hash permutation z z)
              (row_above (hash permutation) row) (row_above (hash permutation) row') g
              (λ i. hash_lt permutation (row' (2 * i)) (row' (2 * i + 1)))
              (row_above-congr row row' n same)
              (λ i lt.
                ap₂ (hash permutation) (empty (2 * i) (omega arith))
                  (empty (2 * i + 1) (omega arith)))
              (omega (arith, pow-suc 2 rounds)) hg hz.1 in
        elim (parity n) [
          | inl odd ↦ climb_odd rounds lvl n row row' filled field same odd h (up filled h.1)
          | inr even ↦ climb_even rounds lvl n z row' filled field empty even hz.0 (
              up (update filled lvl (row' n)) (
                FilledFor-congr rounds (lvl + 1) (n / 2) _ _ filled (update filled lvl (row' n))
                  (λ i lt. refl) (λ j le. ground arith) h.1))
        ]
