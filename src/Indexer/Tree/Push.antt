-- ===== src/Indexer/Tree/Push.antt =====
-- Appending to the incremental tree (`IncrementalTree` of services/indexer/src/tree.rs), measured
-- against the full tree and the allowlist contract.
use mathlib.Core.Path.{subst}
use native.Mathlib.Nat.{pow-le-pow_right, le_trans}
use veil_contract.Prelude.{
  ok-injective, >>=-eq-ok, ◌⊎◌, ℕ, ◌+◌, ◌^◌, ◌≤◌, ◌<◌, ◌≡◌, inl, inr, ◌∙◌, ap, sym, refl, List, [],
  ◌∷◌, ◌++◌, arith, ok, err, length, last_or, length-append, get_or-append, get_or-append_right,
  get_or-beyond,
}
use veil_contract.Asp.Insert.{member_row, root_of}
use veil_contract.Field.Chain.{empty_leaf}
use veil_contract.Indexer.Tree.{push_loop, IncrementalTree, zeroes, new, push, index_out_of_range}
use veil_contract.Indexer.Tree.Root.{IsDepth, zeroes_lem, zeroes-only}
use veil_contract.Indexer.Tree.Nodes.{chain}
use veil_contract.Indexer.Tree.Filled.{
  ListFilledFor, Pushed, push_loop-Pushed, ListFilledFor-empty, last_or-chain,
}

room_or_full : {n m : ℕ} → n ≤ m → (n < m) ⊎ (n ≡ m)
room_or_full h = omega arith

module _ (permutation : ℕ → ℕ → ℕ) where
  -- An incremental tree of the indexer over the leaves pushed so far.
  pub record IsTree (levels : ℕ) (leaves : List ℕ) (tree : IncrementalTree) : Type 0 where
    pub depth : IsDepth levels
    pub has_levels : tree.levels ≡ levels
    pub has_zeroes : tree.zeroes ≡ chain permutation levels empty_leaf
    pub has_next : tree.next_index ≡ length leaves
    pub fits : length leaves ≤ 2 ^ levels
    pub filled : ListFilledFor permutation levels (length leaves) (member_row leaves) tree.filled
    pub has_root : tree.root ≡ root_of permutation levels leaves

  -- A new tree of 1 to 32 levels is the tree without leaves.
  pub new-IsTree :
      (levels : ℕ)
      → IsDepth levels
      → (tree : IncrementalTree) × (new permutation levels ≡ ok tree) × IsTree levels [] tree
  unfolding new
  new-IsTree levels depth = (
    record {
      levels = levels;
      zeroes = chain permutation levels empty_leaf;
      filled = chain permutation levels empty_leaf;
      next_index = 0;
      root = last_or 0 (chain permutation levels empty_leaf);
    },
    rw (zeroes_lem permutation levels depth) refl,
    record {
      depth = depth;
      has_levels = refl;
      has_zeroes = refl;
      has_next = refl;
      fits = omega arith;
      filled = ListFilledFor-empty permutation levels empty_leaf (member_row []);
      has_root = last_or-chain permutation levels empty_leaf 0 (member_row []) (λ i. refl);
    },
  )

  pub new-only :
      (levels : ℕ) (tree : IncrementalTree)
      → new permutation levels ≡ ok tree
      → IsTree levels [] tree
  unfolding new
  new-only levels tree made =
      let (zs, has_zeroes, rest) = >>=-eq-ok (zeroes permutation levels) _ made in
      let (fresh, ran, held) = new-IsTree levels (zeroes-only permutation levels zs has_zeroes) in
      subst (IsTree levels []) (ok-injective (sym ran ∙ made)) held

  push_run :
      (levels n leaf top : ℕ) (filled : List ℕ) (tree : IncrementalTree)
      → tree.levels ≡ levels
      → tree.next_index ≡ n
      → levels ≤ 32
      → n < 2 ^ levels
      → n < 2 ^ 32
      → push_loop permutation tree.levels tree.filled tree.zeroes tree.next_index leaf
        ≡ (top, filled)
      → push permutation leaf tree
        ≡ ok (top, record tree { filled = filled; next_index = n + 1; root = top })
  unfolding push
  push_run levels n leaf top filled tree has_levels has_next shallow room small ran = ground arith

  -- Pushing a leaf onto a tree with room left answers with the root of the full tree over the old
  -- leaves and the new one, hashed row by row, and the state after it is the tree over them.
  pub push_lem :
      (levels leaf : ℕ) (leaves : List ℕ) (tree : IncrementalTree)
      → IsTree levels leaves tree
      → length leaves < 2 ^ levels
      → (tree' : IncrementalTree) × (push permutation leaf tree
          ≡ ok (root_of permutation levels (leaves ++ (leaf ∷ [])), tree'))
        × IsTree levels (leaves ++ (leaf ∷ [])) tree'
  push_lem levels leaf leaves tree is room = (
    tree',
    push_run levels (length leaves) leaf (root_of permutation levels all) pushed.filled' tree
        is.has_levels is.has_next is.depth.1 room
        (le_trans room (pow-le-pow_right {n = 2} (omega arith) {i = levels} {j = 32} is.depth.1))
        loop,
    record {
      depth = is.depth;
      has_levels = is.has_levels;
      has_zeroes = is.has_zeroes;
      has_next = sym count;
      fits = rw count (omega arith);
      filled = rw count pushed.complete;
      has_root = refl;
    },
  )
    where
      all : List ℕ
      all = leaves ++ (leaf ∷ [])

      pushed : Pushed permutation levels (length leaves) empty_leaf (member_row all) (tree.filled)
      pushed =
          push_loop-Pushed permutation levels (length leaves) empty_leaf (member_row leaves)
            (member_row all) tree.filled
            (λ i below. sym (get_or-append leaves (leaf ∷ []) i empty_leaf below))
            (λ i above.
              get_or-beyond all i empty_leaf (omega (arith, length-append leaves (leaf ∷ []))))
            room is.filled

      count : length all ≡ length leaves + 1
      count = omega (arith, length-append leaves (leaf ∷ []))

      loop :
          push_loop permutation tree.levels tree.filled tree.zeroes tree.next_index leaf
          ≡ (root_of permutation levels all, pushed.filled')
      loop =
          rw (is.has_levels, is.has_zeroes, is.has_next)
            (ap
                (λ node.
                  push_loop permutation levels tree.filled (chain permutation levels empty_leaf)
                    (length leaves) node)
                (sym (
                  get_or-append_right leaves (leaf ∷ []) (length leaves) 0 empty_leaf
                    (omega arith)))
              ∙ pushed.result)

      tree' : IncrementalTree
      tree' = record tree {
        filled = pushed.filled';
        next_index = length leaves + 1;
        root = root_of permutation levels all;
      }

  -- Pushing a leaf onto a full tree is refused with the index and the depth.
  pub push-full :
      (levels leaf : ℕ) (leaves : List ℕ) (tree : IncrementalTree)
      → IsTree levels leaves tree
      → length leaves ≡ 2 ^ levels
      → push permutation leaf tree ≡ err (index_out_of_range (length leaves) levels)
  unfolding push
  push-full levels leaf leaves tree is full = ground (arith, is.has_levels, is.has_next, is.depth)

  -- A leaf that was pushed had room.
  pub push-IsTree :
      (levels leaf top : ℕ) (leaves : List ℕ) (tree tree' : IncrementalTree)
      → IsTree levels leaves tree
      → push permutation leaf tree ≡ ok (top, tree')
      → (top ≡ root_of permutation levels (leaves ++ (leaf ∷ [])))
        × IsTree levels (leaves ++ (leaf ∷ [])) tree'
  push-IsTree levels leaf top leaves tree tree' is pushed = elim (room_or_full is.fits) [
    | inl room ↦
        let (after, ran, is') = push_lem levels leaf leaves tree is room in
        let same = ok-injective (sym pushed ∙ ran) in
        (
          ap (λ r. r.0) same,
          subst (IsTree levels (leaves ++ (leaf ∷ []))) (ap (λ r. r.1) (sym same)) is',
        )
    | inr full ↦ absurd (let refused = push-full levels leaf leaves tree is full in cc)
  ]
