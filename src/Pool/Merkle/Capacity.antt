-- ===== src/Pool/Merkle/Capacity.antt =====
-- How full a tree is: `is_full`, `remaining_leaves` and the limit of `insert_two_leaves`.
use native.Mathlib.Nat.{pow-le-pow_right}
use veil_contract.Prelude.{
  ℕ, suc, ◌+◌, ◌*◌, ◌-◌, ◌^◌, ◌≤◌, ◌<◌, ◌≡◌, List, length, ok, err, arith, ltb,
}
use veil_contract.Pool.Merkle.{
  Store, merkle_tree_full, insert_two_leaves, is_full, remaining_leaves,
}
use veil_contract.Pool.Merkle.Insert.{IsTree}

module _ (permutation : ℕ → ℕ → ℕ) (depth : ℕ) (pairs : List (ℕ × ℕ)) (s : Store)
    (tree : IsTree permutation depth pairs s) where
  two_pow_le : 2 ^ suc depth ≤ 2 ^ 32
  two_pow_le = pow-le-pow_right {n = 2} (omega arith) {i = suc depth} {j = 32} tree.shallow

  -- For a tree that satisfies the invariant `is_full` says whether fewer than two leaves are free.
  pub is_full_lem : is_full s ≡ ok (ltb (2 ^ suc depth) (2 * length pairs + 2))
  unfolding is_full
  is_full_lem = ground (arith, tree.has_levels, tree.has_next, tree.shallow, tree.fits, two_pow_le)

  -- For a tree that satisfies the invariant `remaining_leaves` is the number of free leaves.
  pub remaining_leaves_lem : remaining_leaves s ≡ ok (2 ^ suc depth - 2 * length pairs)
  unfolding remaining_leaves
  remaining_leaves_lem = ground (arith, tree.has_levels, tree.has_next, tree.shallow)

  -- With fewer than two leaves free, in a tree that satisfies the invariant, an insertion of any two
  -- leaves is refused with `merkle_tree_full`.
  pub insert_two_leaves-full :
      (left right : ℕ)
      → 2 ^ suc depth < 2 * length pairs + 2
      → insert_two_leaves permutation left right s ≡ err merkle_tree_full
  unfolding insert_two_leaves
  insert_two_leaves-full left right full =
      ground
        (arith, tree.has_levels, tree.has_next, tree.shallow, tree.fits, two_pow_le, tree.ring.at)
