-- ===== src/Pool/Merkle/Init.antt =====
-- `init` of merkle_with_history.rs.
use native.Mathlib.Decide.{ℕ_discrete}
use veil_contract.Prelude.{
  ℕ, zero, suc, ◌+◌, ◌-◌, ◌%◌, ◌≤◌, ◌<◌, ◌≡◌, ◌∙◌, sym, ap, refl, some, [], ◌∷◌, get_elem?, ok, err,
  arith, update, update_self, update_ne, NatMap, ◌⊎◌,
}
use veil_contract.Field.Chain.{empty_leaf, zero_at, HasZeroTable}
use veil_contract.Field.Zeroes.{get_zeroes}
use veil_contract.Tree.Empty.{tree_root-empty, FilledFor-empty, ZeroesFor-table}
use veil_contract.Pool.Merkle.{Store, blank, wrong_levels, already_initialized, init_levels, init}
use veil_contract.Pool.Merkle.Roots.{RootRing}
use veil_contract.Pool.Merkle.Insert.{IsTree, root_of}

module _ (permutation : ℕ → ℕ → ℕ) where
  -- What the first loop of `init` leaves behind.
  record Zeroed (rounds i : ℕ) (s s' : Store) : Type 0 where
    result : init_levels rounds i get_zeroes s ≡ ok s'
    same_levels : s'.levels ≡ s.levels
    same_root : s'.root ≡ s.root
    written : (j : ℕ) → i ≤ j → j < i + rounds → s'.zeroes j ≡ some (zero_at permutation j)
    before : (j : ℕ) → j < i → s'.zeroes j ≡ s.zeroes j

  init_levels-Zeroed :
      HasZeroTable permutation
      → (rounds i : ℕ) (s : Store) → i + rounds ≤ 33
      → (s' : Store) × Zeroed rounds i s s'
  unfolding init_levels
  init_levels-Zeroed table zero i s le = (
    s,
    record {
      result = refl;
      same_levels = refl;
      same_root = refl;
      written = λ j lo hi. absurd (omega arith);
      before = λ j lt. refl;
    },
  )
  init_levels-Zeroed table (suc rounds) i s le =
      let z = zero_at permutation i in
      let s1 = record s {
        filled_subtree = update s.filled_subtree i z;
        zeroes = update s.zeroes i z;
      } in
      let (s', h) = init_levels-Zeroed table rounds (i + 1) s1 (omega arith) in
      (
        s',
        record {
          result = rw (table i (omega arith)) h.result;
          same_levels = h.same_levels;
          same_root = h.same_root;
          written = λ j lo hi. elim (ℕ_discrete j i) [
            | yes e ↦ h.before j (omega arith) ∙ (rw e (update_self s.zeroes i z))
            | no ne ↦ h.written j (omega arith) (omega arith)
          ];
          before = λ j lt. h.before j (omega arith) ∙ update_ne s.zeroes i j z (omega arith);
        },
      )

  -- The store that `init` makes of what its loop left.
  abbrev started : ℕ → Store → Store
  started depth s = record s {
    root = update s.root 0 (zero_at permutation (suc depth));
    current_root_index = some 0;
    next_index = some 0;
  }

  init_run :
      (depth : ℕ) (s : Store)
      → depth < 32
      → get_elem? get_zeroes (suc depth) ≡ some (zero_at permutation (suc depth))
      → init_levels (suc depth + 1) 0 get_zeroes (record blank { levels = some (suc depth) }) ≡ ok s
      → init (suc depth) blank ≡ ok (started depth s)
  unfolding init
  init_run depth s shallow entry looped = ground arith

  started-RootRing :
      (depth : ℕ) (s : Store)
      → s.root ≡ blank.root
      → RootRing (root_of permutation (suc depth) [] ∷ []) (started depth s)
  started-RootRing depth s same = record {
    index = 0;
    at = refl;
    in_range = omega arith;
    held = held;
  }
    where
      top : zero_at permutation (suc depth) ≡ root_of permutation (suc depth) []
      top = sym (
          tree_root-empty permutation (suc depth) 0 (λ i. empty_leaf) (λ i. refl)
          ∙ ap (zero_at permutation) {y = suc depth} (omega arith))

      held :
          (k : ℕ)
          → k < 90
          → (started depth s).root ((0 + 90 - k) % 90)
            ≡ get_elem? (root_of permutation (suc depth) [] ∷ []) k
      held zero lt = ap some top
      held (suc k) lt =
          update_ne s.root 0 ((0 + 90 - suc k) % 90) (zero_at permutation (suc depth)) (omega arith)
          ∙ ap (λ (m : NatMap ℕ). m ((0 + 90 - suc k) % 90)) same

  -- On an untouched store, and if the table of zeros is the chain of the permutation, `init` accepts
  -- 1 to 32 levels and builds the empty tree, whose root is the only one in the history.
  pub init_lem :
      (depth : ℕ)
      → HasZeroTable permutation
      → depth < 32
      → (s : Store) × (init (suc depth) blank ≡ ok s) × IsTree permutation depth [] s
  init_lem depth table shallow =
      let (s, z) =
        init_levels-Zeroed table (suc depth + 1) 0 (record blank { levels = some (suc depth) })
          (omega arith) in
      (
        started depth s,
        init_run depth s shallow (table (suc depth) (omega arith)) z.result,
        record {
          shallow = shallow;
          has_levels = z.same_levels;
          has_next = ap some (omega arith);
          fits = omega arith;
          in_field = tt;
          zero_hashes =
              ZeroesFor-table permutation depth 1 s.zeroes
                (λ j lo hi. z.written j (omega arith) (omega arith));
          filled = FilledFor-empty permutation depth 1 _ s.filled_subtree;
          ring = started-RootRing depth s z.same_root;
        },
      )

-- `init` refuses 0 levels, more than 32, and a store that has been initialized.
pub init-wrong_levels :
    (levels : ℕ) (s : Store) → (levels ≡ 0) ⊎ (32 < levels) → init levels s ≡ err wrong_levels
unfolding init
init-wrong_levels levels s h = ground arith

pub init-already :
    (levels index : ℕ) (s : Store)
    → 0 < levels
    → levels ≤ 32
    → s.current_root_index ≡ some index
    → init levels s ≡ err already_initialized
unfolding init
init-already levels index s lo hi e = ground arith
