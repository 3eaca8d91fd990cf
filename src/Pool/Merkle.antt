-- ===== src/Pool/Merkle.antt =====
-- The pool's commitment tree with its ring of recent roots
-- (contracts/pool/src/merkle_with_history.rs). The persistent entries under `MerkleDataKey` are the
-- fields of `Store`; an entry that was never written is `none`.
pub mod Roots
pub mod Insert
pub mod Capacity
pub mod Init
use veil_contract.Prelude.{
  ℕ, zero, suc, ◌+◌, ◌-◌, ◌*◌, ◌/◌, ◌%◌, ◌^◌, ◌||◌, Bool, true, false, not, Option, none, some,
  List, get_elem?, NatMap, update, empty_map, ltb, leb, ◌==◌, if◌then◌else◌, Outcome, ok, err, trap,
  ok_or, refuse_if, ◌>>=◌, ◌>>◌,
}
use veil_contract.Field.{poseidon2_compress}
use veil_contract.Field.Zeroes.{get_zeroes}
use veil_contract.Tree.{climb}

pub data MerkleError : Type 0 where
  already_initialized wrong_levels merkle_tree_full next_index_not_even : MerkleError
  not_initialized overflow : MerkleError

abbrev pub root_history_size : ℕ
root_history_size = 90

pub record Store : Type 0 where
  pub levels : Option ℕ
  pub current_root_index : Option ℕ
  pub next_index : Option ℕ
  pub filled_subtree : NatMap ℕ
  pub zeroes : NatMap ℕ
  pub root : NatMap ℕ

-- Nothing written yet.
abbrev pub blank : Store
blank = record {
  levels = none;
  current_root_index = none;
  next_index = none;
  filled_subtree = empty_map;
  zeroes = empty_map;
  root = empty_map;
}

-- `u32::checked_add` and `u64::checked_add`
abbrev pub checked_add_u32 : ℕ → ℕ → Option ℕ
checked_add_u32 a b = if ltb (a + b) (2 ^ 32) then some (a + b) else none

abbrev pub checked_add_u64 : ℕ → ℕ → Option ℕ
checked_add_u64 a b = if ltb (a + b) (2 ^ 64) then some (a + b) else none

-- `1u64.checked_shl(levels)`
abbrev pub checked_shl_one : ℕ → Option ℕ
checked_shl_one levels = if ltb levels 64 then some (2 ^ levels) else none

-- `u32::try_from(n)`
abbrev pub u32_try_from : ℕ → Option ℕ
u32_try_from n = if ltb n (2 ^ 32) then some n else none

-- `for i in 0..=levels` of `init`, with the rounds left.
unfoldable pub init_levels : ℕ → ℕ → List ℕ → Store → Outcome MerkleError Store
init_levels zero i zeros s = ok s
init_levels (suc rounds) i zeros s = do
  z ← ok_or (get_elem? zeros i) not_initialized
  init_levels rounds (i + 1) zeros
      (record s { filled_subtree = update s.filled_subtree i z; zeroes = update s.zeroes i z })

unfoldable pub init : ℕ → Store → Outcome MerkleError Store
init levels s = do
  refuse_if (levels == 0 || ltb 32 levels) wrong_levels
  refuse_if (elim s.current_root_index [ none ↦ false | some _ ↦ true ]) already_initialized
  let zeros = get_zeroes
  s' ← init_levels (levels + 1) 0 zeros (record s { levels = some levels })
  root_0 ← ok_or (get_elem? zeros levels) not_initialized
  ok (record s' {
    root = update s'.root 0 root_0;
    current_root_index = some 0;
    next_index = some 0;
  })

unfoldable pub insert_two_leaves :
    (ℕ → ℕ → ℕ) → ℕ → ℕ → Store → Outcome MerkleError ((ℕ × ℕ) × Store)
insert_two_leaves permutation leaf_1 leaf_2 s = do
  levels ← ok_or s.levels not_initialized
  next_index ← ok_or s.next_index not_initialized
  root_index ← ok_or s.current_root_index not_initialized
  max_leaves ← ok_or (checked_shl_one levels) wrong_levels
  refuse_if (not (next_index % 2 == 0)) next_index_not_even
  after ← ok_or (checked_add_u64 next_index 2) overflow
  refuse_if (ltb max_leaves after) merkle_tree_full
  leaf_parent ← poseidon2_compress permutation leaf_1 leaf_2
  (current_hash, filled) ←
      climb permutation not_initialized s.zeroes (levels - 1) 1 (next_index / 2) leaf_parent
        s.filled_subtree
  next_root ← ok_or (checked_add_u32 root_index 1) overflow
  let root_index' = next_root % root_history_size
  next_index' ← ok_or (checked_add_u64 next_index 2) overflow
  index_1 ← ok_or (u32_try_from next_index) merkle_tree_full
  right ← ok_or (checked_add_u64 next_index 1) overflow
  index_2 ← ok_or (u32_try_from right) merkle_tree_full
  ok (
    (index_1, index_2),
    record s {
      filled_subtree = filled;
      root = update s.root root_index' current_hash;
      current_root_index = some root_index';
      next_index = some next_index';
    },
  )

unfoldable pub is_full : Store → Outcome MerkleError Bool
is_full s = do
  levels ← ok_or s.levels not_initialized
  next_index ← ok_or s.next_index not_initialized
  max_leaves ← ok_or (checked_shl_one levels) wrong_levels
  after ← ok_or (checked_add_u64 next_index 2) overflow
  ok (ltb max_leaves after)

unfoldable pub remaining_leaves : Store → Outcome MerkleError ℕ
remaining_leaves s = do
  levels ← ok_or s.levels not_initialized
  next_index ← ok_or s.next_index not_initialized
  max_leaves ← ok_or (checked_shl_one levels) wrong_levels
  ok (max_leaves - next_index)

-- `storage.get(&Root(i))` holds a root equal to `root`.
abbrev pub holds_root : Store → ℕ → ℕ → Bool
holds_root s root i = elim (s.root i) [ none ↦ false | some r ↦ r == root ]

-- The `loop` of `is_known_root`. The rounds left bound it: a loop that never comes back to where it
-- began exhausts the host's budget, which is a trap.
unfoldable pub scan_roots : ℕ → Store → ℕ → ℕ → ℕ → Outcome MerkleError Bool
scan_roots zero s root current i = trap
scan_roots (suc rounds) s root current i =
    let go_on = ok_or (checked_add_u32 i 1) overflow >>= λ next.
    let i' = next % root_history_size in
    let rest = scan_roots rounds s root current i' in if i' == current then ok false else rest in
    if holds_root s root i then ok true else go_on

unfoldable pub is_known_root : ℕ → Store → Outcome MerkleError Bool
is_known_root root s = if root == 0 then ok false else (do
  current_root_index ← ok_or s.current_root_index not_initialized
  scan_roots root_history_size s root current_root_index current_root_index)

unfoldable pub get_last_root : Store → Outcome MerkleError ℕ
get_last_root s = do
  current_root_index ← ok_or s.current_root_index not_initialized
  ok_or (s.root current_root_index) not_initialized

unfoldable pub hash_pair : (ℕ → ℕ → ℕ) → ℕ → ℕ → Outcome MerkleError ℕ
hash_pair permutation left right = poseidon2_compress permutation left right
