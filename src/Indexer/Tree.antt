-- ===== src/Indexer/Tree.antt =====
-- The trees of both contracts, recomputed from indexed leaves (services/indexer/src/tree.rs). A
-- `Field` is a number below the modulus, a `BTreeMap` the list of its entries in order of the keys.
-- The width-2 permutation of the Poseidon2 library is a parameter, reduced to its first output.
pub mod Nodes
pub mod Place
pub mod Root
pub mod Paths
pub mod Filled
pub mod Push
pub mod Agreement
use veil_contract.Prelude.{
  ℕ, zero, suc, ◌+◌, ◌-◌, ◌*◌, ◌/◌, ◌%◌, ◌^◌, ◌||◌, Bool, false, List, [], ◌∷◌, ◌++◌, Option, some,
  none, ltb, leb, ◌==◌, if◌then◌else◌, Outcome, ok, err, refuse_if, ◌>>=◌, ◌>>◌, take, last_or,
  unwrap_or,
}
use veil_contract.Field.{bn256_modulus, from_be_bytes}
use veil_contract.Field.Hash.{hash}

abbrev empty_leaf_bytes : List ℕ
empty_leaf_bytes =
    37 ∷ 48 ∷ 34 ∷ 136 ∷ 219 ∷ 153 ∷ 53 ∷ 3 ∷ 68 ∷ 151 ∷ 65 ∷ 131 ∷ 206 ∷ 49 ∷ 13 ∷ 99 ∷ 181 ∷ 58
    ∷ 187 ∷ 158 ∷ 240 ∷ 248 ∷ 87 ∷ 87 ∷ 83 ∷ 238 ∷ 211 ∷ 110 ∷ 1 ∷ 24 ∷ 249 ∷ 206 ∷ []

-- The `U256Be` of those bytes.
unfoldable pub empty_leaf_value : ℕ
unfolding from_be_bytes
empty_leaf_value = from_be_bytes empty_leaf_bytes

abbrev pub max_levels : ℕ
max_levels = 32

pub data TreeError : Type 0 where
  not_a_field_element : ℕ → TreeError
  bad_levels : ℕ → TreeError
  index_out_of_range : ℕ → ℕ → TreeError
  duplicate_index : ℕ → TreeError

abbrev pub Result : Type 0 → Type 0
Result A = Outcome TreeError A

unfoldable pub from_u256 : ℕ → Result ℕ
from_u256 value =
    let element = value % bn256_modulus in
    if element == value then ok element else err (not_a_field_element value)

unfoldable pub check_levels : ℕ → Result (Unit {0})
check_levels levels = refuse_if (levels == 0 || ltb max_levels levels) (bad_levels levels)

-- `1u64.checked_shl(levels).unwrap_or(u64::MAX)`
abbrev pub capacity_of : ℕ → ℕ
capacity_of levels = if ltb levels 64 then 2 ^ levels else 2 ^ 64 - 1

-- A `BTreeMap<u64, Field>` by its entries.
abbrev pub Nodes : Type 0
Nodes = List (ℕ × ℕ)

abbrev pub get : Nodes → ℕ → Option ℕ
get [] key = none
get ((k, v) ∷ nodes) key = if k == key then some v else get nodes key

abbrev pub contains_key : Nodes → ℕ → Bool
contains_key [] key = false
contains_key ((k, v) ∷ nodes) key = (k == key) || contains_key nodes key

abbrev pub insert : ℕ → ℕ → Nodes → Nodes
insert key value [] = (key, value) ∷ []
insert key value ((k, v) ∷ nodes) =
    let rest = insert key value nodes in
    if ltb key k
    then (key, value) ∷ (k, v) ∷ nodes
    else (if key == k then (key, value) ∷ nodes else (k, v) ∷ rest)

-- The loop that fills the lowest row, with the leaves left.
unfoldable pub place_leaves : ℕ → List (ℕ × ℕ) → Nodes → Result Nodes
place_leaves levels [] nodes = ok nodes
place_leaves levels ((index, leaf) ∷ leaves) nodes = do
  refuse_if (leb (capacity_of levels) index) (index_out_of_range index levels)
  refuse_if (contains_key nodes index) (duplicate_index index)
  place_leaves levels leaves (insert index leaf nodes)

-- A Merkle proof for one leaf.
pub record MerklePath : Type 0 where
  pub index : ℕ
  pub leaf : ℕ
  pub siblings : List ℕ
  pub root : ℕ

-- The position of the other child of a node's parent, `position ^ 1`.
abbrev pub flip_low_bit : ℕ → ℕ
flip_low_bit position = if position % 2 == 1 then position - 1 else position + 1

pub record IncrementalTree : Type 0 where
  pub levels : ℕ
  pub zeroes : List ℕ
  pub filled : List ℕ
  pub next_index : ℕ
  pub root : ℕ

module _ (permutation : ℕ → ℕ → ℕ) where
  abbrev pub compress : ℕ → ℕ → ℕ
  compress = hash permutation

  -- The loop of `zeroes`, with the rounds left.
  unfoldable pub zeroes_loop : ℕ → ℕ → List ℕ → List ℕ
  zeroes_loop zero current out = out
  zeroes_loop (suc rounds) current out =
      let next = compress current current in zeroes_loop rounds next (out ++ (next ∷ []))

  unfoldable pub zeroes : ℕ → Result (List ℕ)
  unfolding check_levels from_u256
  zeroes levels = do
    check_levels levels
    current ← from_u256 empty_leaf_value
    ok (zeroes_loop levels current (current ∷ []))

  -- `for &index in nodes.keys()`, with the keys left and the parents so far.
  unfoldable pub parents_loop : ℕ → Nodes → Nodes → Nodes → Nodes
  parents_loop z nodes [] parents = parents
  parents_loop z nodes ((index, v) ∷ keys) parents =
      let parent = index / 2 in
      let left = unwrap_or (get nodes (parent * 2)) z in
      let right = unwrap_or (get nodes (parent * 2 + 1)) z in
      parents_loop z nodes keys (
        if contains_key parents parent
        then parents
        else insert parent (compress left right) parents)

  -- One turn of the loop over the levels.
  unfoldable pub parents_of : ℕ → Nodes → Nodes
  unfolding parents_loop
  parents_of z nodes = parents_loop z nodes nodes []

  unfoldable pub climb_rows : List ℕ → Nodes → Nodes
  unfolding parents_of
  climb_rows [] nodes = nodes
  climb_rows (z ∷ zs) nodes = climb_rows zs (parents_of z nodes)

  unfoldable pub root : ℕ → List (ℕ × ℕ) → Result ℕ
  unfolding zeroes place_leaves climb_rows
  root levels leaves = do
    zs ← zeroes levels
    nodes ← place_leaves levels leaves []
    ok (unwrap_or (get (climb_rows (take levels zs) nodes) 0) (last_or 0 zs))

  -- The loop of `computed_root`.
  unfoldable pub fold_siblings : ℕ → ℕ → List ℕ → ℕ
  fold_siblings index current [] = current
  fold_siblings index current (sibling ∷ siblings) =
      fold_siblings (index / 2)
        (if index % 2 == 1 then compress sibling current else compress current sibling) siblings

  unfoldable pub computed_root : MerklePath → ℕ
  unfolding fold_siblings
  computed_root p = fold_siblings p.index p.leaf p.siblings

  -- The loop of `path`: the siblings, and the nodes of the top row.
  unfoldable pub path_loop : List ℕ → ℕ → Nodes → List ℕ → List ℕ × Nodes
  unfolding parents_of
  path_loop [] position nodes siblings = (siblings, nodes)
  path_loop (z ∷ zs) position nodes siblings =
      path_loop zs (position / 2) (parents_of z nodes)
        (siblings ++ (unwrap_or (get nodes (flip_low_bit position)) z ∷ []))

  unfoldable pub path : ℕ → List (ℕ × ℕ) → ℕ → Result (Option MerklePath)
  unfolding zeroes place_leaves path_loop
  path levels leaves index = do
    zs ← zeroes levels
    nodes ← place_leaves levels leaves []
    (elim (get nodes index) [
      | none ↦ ok none
      | some leaf ↦
          let (siblings, top) = path_loop (take levels zs) index nodes [] in
          ok (
            some (record {
              index = index;
              leaf = leaf;
              siblings = siblings;
              root = unwrap_or (get top 0) (last_or 0 zs);
            }))
    ])

  unfoldable pub new : ℕ → Result IncrementalTree
  unfolding zeroes
  new levels = do
    zs ← zeroes levels
    ok (record { levels = levels; zeroes = zs; filled = zs; next_index = 0; root = last_or 0 zs })

  -- The loop of `push` over the stored nodes and the zeros: the top, and the nodes after it.
  unfoldable pub push_loop : ℕ → List ℕ → List ℕ → ℕ → ℕ → ℕ × List ℕ
  push_loop zero filled zs index current = (current, filled)
  push_loop (suc rounds) [] zs index current = (current, [])
  push_loop (suc rounds) (f ∷ filled) [] index current = (current, f ∷ filled)
  push_loop (suc rounds) (f ∷ filled) (z ∷ zs) index current =
      let odd = index % 2 == 1 in
      let (top, rest) =
        push_loop rounds filled zs (index / 2)
          (if odd then compress f current else compress current z) in
      (top, (if odd then f else current) ∷ rest)

  unfoldable pub push : ℕ → IncrementalTree → Result (ℕ × IncrementalTree)
  unfolding push_loop
  push leaf tree = do
    refuse_if (leb (capacity_of tree.levels) tree.next_index)
        (index_out_of_range tree.next_index tree.levels)
    let (current, filled) = push_loop tree.levels tree.filled tree.zeroes tree.next_index leaf
    let next_index = if ltb (tree.next_index + 1) (2 ^ 64) then tree.next_index + 1 else 2 ^ 64 - 1
    ok (current, record tree { filled = filled; next_index = next_index; root = current })
