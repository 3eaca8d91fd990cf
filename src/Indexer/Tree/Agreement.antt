-- ===== src/Indexer/Tree/Agreement.antt =====
-- The contract's allowlist, the indexer's incremental tree and its sparse tree over the same members
-- (contracts/asp-membership/src/contract.rs and services/indexer/src/tree.rs).
use mathlib.Core.Path.{ap₂}
use veil_contract.Prelude.{
  ℕ, zero, suc, ◌+◌, ◌^◌, ◌≤◌, ◌<◌, ◌≡◌, ◌∙◌, ap, sym, refl, List, [], ◌∷◌, ◌++◌, some, false, ok,
  arith, length, length-append, ne→==, ◌*◌,
}
use veil_contract.Field.{bn256_modulus}
use veil_contract.Field.Hash.{hash, PermutesField}
use veil_contract.Tree.{row_above, tree_root}
use veil_contract.Asp.{World, Host, insert_leaf}
use veil_contract.Asp.Insert.{IsAllowlist, MayInsert, insert_leaf_lem, member_row, root_of}
use veil_contract.Indexer.Tree.{Nodes, contains_key, IncrementalTree, push, root}
use veil_contract.Indexer.Tree.Place.{InRange, Distinct}
use veil_contract.Indexer.Tree.Root.{sparse_row, root_lem}
use veil_contract.Indexer.Tree.Push.{IsTree, push_lem}

-- The members with their indices, from a first index on.
abbrev pub numbered : ℕ → List ℕ → Nodes
numbered first [] = []
numbered first (m ∷ members) = (first, m) ∷ numbered (suc first) members

numbered-InRange :
    (levels first : ℕ) (members : List ℕ)
    → levels ≤ 32
    → first + length members ≤ 2 ^ levels
    → InRange levels (numbered first members)
numbered-InRange levels first [] shallow fits = tt
numbered-InRange levels first (m ∷ members) shallow fits =
    (ground arith, numbered-InRange levels (suc first) members shallow (omega arith))

contains_key-numbered :
    (first key : ℕ) (members : List ℕ)
    → key < first
    → contains_key (numbered first members) key ≡ false
contains_key-numbered first key [] lt = refl
contains_key-numbered first key (m ∷ members) lt =
    ground (arith, contains_key-numbered (suc first) key members)

numbered-Distinct : (first : ℕ) (members : List ℕ) → Distinct (numbered first members)
numbered-Distinct first [] = tt
numbered-Distinct first (m ∷ members) = (
  contains_key-numbered (suc first) first members (omega arith),
  numbered-Distinct (suc first) members,
)

sparse_row-numbered :
    (first i : ℕ) (members : List ℕ)
    → sparse_row (numbered first members) (first + i) ≡ member_row members i
sparse_row-numbered first i [] = refl
sparse_row-numbered first zero (m ∷ members) = ground arith
sparse_row-numbered first (suc i) (m ∷ members) =
    let shift : first + suc i ≡ suc first + i = omega arith in
    rw (shift, ne→== first (suc first + i) (omega arith))
      (sparse_row-numbered (suc first) i members)

module _ (h : ℕ → ℕ → ℕ) where
  tree_root-congr :
      (rounds : ℕ) (row row' : ℕ → ℕ)
      → ((i : ℕ) → row i ≡ row' i)
      → tree_root h rounds row ≡ tree_root h rounds row'
  unfolding tree_root
  tree_root-congr zero row row' same = same 0
  tree_root-congr (suc rounds) row row' same =
      tree_root-congr rounds (row_above h row) (row_above h row')
        (λ i. ap₂ h (same (2 * i)) (same (2 * i + 1)))

-- When the contract and the indexer's incremental tree hold the same members, with room left, a
-- permitted insertion of a field element succeeds in both, and the root that the contract stores is
-- the one that `push` answers with and the one that `root` computes of the numbered members.
pub insert_leaf-push-root :
    (host : Host) (closed : PermutesField host.permutation) (levels leaf : ℕ) (members : List ℕ)
    (w : World) (tree : IncrementalTree)
    → IsAllowlist host.permutation levels members w.storage
    → IsTree host.permutation levels members tree
    → MayInsert host w.storage
    → leaf < bn256_modulus
    → length members < 2 ^ levels
    → (w' : World) × (tree' : IncrementalTree) × (top : ℕ) × (insert_leaf host leaf w ≡ ok w')
      × (w'.storage.root ≡ some top)
      × (push host.permutation leaf tree ≡ ok (top, tree'))
      × (root host.permutation levels (numbered 0 (members ++ (leaf ∷ []))) ≡ ok top)
insert_leaf-push-root host closed levels leaf members w tree list is allowed lt room =
    let (w', inserted, list') =
      insert_leaf_lem host closed levels leaf members w list allowed lt room in
    let (tree', pushed, is') = push_lem host.permutation levels leaf members tree is room in
    let all = members ++ (leaf ∷ []) in
    (
      w',
      tree',
      root_of host.permutation levels all,
      inserted,
      list'.has_root,
      pushed,
      (root_lem host.permutation levels _ (numbered 0 all)).1 (
        is.depth,
        numbered-InRange levels 0 all list.shallow
            (omega (arith, length-append members (leaf ∷ []))),
        numbered-Distinct 0 all,
        tree_root-congr (hash host.permutation) levels _ _ (λ i.
            sym (ap (sparse_row (numbered 0 all)) (omega arith) ∙ sparse_row-numbered 0 i all)),
      ),
    )
