-- ===== src/Indexer/Verify.antt =====
-- The comparison of the index with the contracts' state (`check_pool` and `check_allowlist` of
-- services/indexer/src/verify.rs, with `PoolTree` and `AllowlistTree` of chain.rs), from the rows that
-- the database answers with. What `to_string` shows of a value is kept as the value.
pub mod Replayed
pub mod Leaves
pub mod Allowlist
pub mod PoolCheck
use Prim.Native.String.{String}
use text.Mathlib.Text.{◌==◌ as ◌is◌}
use veil_contract.Prelude.{
  ℕ, zero, suc, ◌+◌, ◌-◌, ◌^◌, Bool, true, false, not, ◌&&◌, ◌||◌, List, [], ◌∷◌, ◌++◌, Option,
  none, some, Outcome, ok, err, trap, ◌>>=◌, ◌>>◌, length, ltb, leb, ◌==◌, if◌then◌else◌,
}
use veil_contract.Prelude.Int.{ℤ, pos, negsuc}
use veil_contract.Field.{from_be_bytes}
use veil_contract.Indexer.Tree.{TreeError, Nodes, IncrementalTree, from_u256, root, new, push}

pub record PoolTree : Type 0 where
  pub ledger : ℕ
  pub levels : ℕ
  pub next_index : ℕ
  pub root : ℕ

pub record AllowlistTree : Type 0 where
  pub ledger : ℕ
  pub levels : ℕ
  pub next_index : ℕ
  pub root : ℕ
  pub operator_maintained : Bool

-- The errors of other parts and of libraries by a number.
pub data VerifyError : Type 0 where
  chain_failed store_failed database_failed : ℕ → VerifyError
  tree_failed : TreeError → VerifyError
  behind : ℕ → ℕ → VerifyError
  malformed : String → ℤ → VerifyError

abbrev pub Result {ℓ} : Type ℓ → Type ℓ
Result A = Outcome VerifyError A

-- `?` on a result of the tree.
abbrev pub lift_tree {ℓ} : {A : Type ℓ} → Outcome TreeError A → Result A
lift_tree (ok a) = ok a
lift_tree (err e) = err (tree_failed e)
lift_tree trap = trap

-- What a check compares, as shown.
pub data Shown : Type 0 where
  shown_bool : Bool → Shown
  shown_number : ℕ → Shown
  shown_u256 : ℕ → Shown

abbrev same_bool : Bool → Bool → Bool
same_bool true b = b
same_bool false b = not b

abbrev pub same_shown : Shown → Shown → Bool
same_shown (shown_bool a) (shown_bool b) = same_bool a b
same_shown (shown_number a) (shown_number b) = a == b
same_shown (shown_u256 a) (shown_u256 b) = a == b
same_shown _ _ = false

pub record Check : Type 0 where
  pub name : String
  pub indexed : Shown
  pub on_chain : Shown

-- `Check::ok`
unfoldable pub is_ok : Check → Bool
is_ok check = same_shown check.indexed check.on_chain

-- `self.checks.iter().all(Check::ok)`
unfoldable pub all_ok : List Check → Bool
unfolding is_ok
all_ok [] = true
all_ok (check ∷ checks) = is_ok check && all_ok checks

abbrev check : String → Shown → Shown → Check
check name indexed on_chain = record { name = name; indexed = indexed; on_chain = on_chain }

unfoldable pub u256 : List ℕ → String → Result ℕ
unfolding from_be_bytes
u256 bytes what =
    if length bytes == 32
    then ok (from_be_bytes bytes)
    else err (malformed what (pos (length bytes)))

-- `u64::try_from` an `i64`.
unfoldable pub index : ℤ → String → Result ℕ
index (pos n) what = ok n
index (negsuc n) what = err (malformed what (negsuc n))

abbrev pub saturating_succ : ℕ → ℕ
saturating_succ n = if ltb (n + 1) (2 ^ 64) then n + 1 else 2 ^ 64 - 1

-- A row of `pool_commitments`.
pub record CommitmentRow : Type 0 where
  pub leaf_index : ℤ
  pub commitment : List ℕ
  pub origin : String

-- The loop of `check_pool`, with the rows left. The closed deposit path put a zero leaf beside each
-- commitment.
unfoldable pub pool_leaves : List CommitmentRow → Nodes → Result Nodes
unfolding u256 index from_u256
pool_leaves [] leaves = ok leaves
pool_leaves (row ∷ rows) leaves = do
  leaf_index ← index row.leaf_index "leaf index"
  value ← u256 row.commitment "commitment"
  leaf ← lift_tree (from_u256 value)
  let added = leaves ++ ((leaf_index, leaf) ∷ [])
  pool_leaves rows (
      if row.origin is "legacy_deposit"
      then added ++ ((saturating_succ leaf_index, 0) ∷ [])
      else added)

abbrev pub larger : ℕ → ℕ → ℕ
larger a b = if ltb a b then b else a

-- The greatest index and one more, or 0 without leaves.
abbrev pub next_index_of : Nodes → ℕ
next_index_of [] = 0
next_index_of ((i, leaf) ∷ leaves) = larger (saturating_succ i) (next_index_of leaves)

abbrev pub indices : Nodes → List ℕ
indices [] = []
indices ((i, leaf) ∷ leaves) = i ∷ indices leaves

abbrev pub insert_sorted : ℕ → List ℕ → List ℕ
insert_sorted i [] = i ∷ []
insert_sorted i (j ∷ js) = if leb i j then i ∷ j ∷ js else j ∷ insert_sorted i js

-- `sort_unstable`
abbrev pub sort : List ℕ → List ℕ
sort [] = []
sort (i ∷ is_left) = insert_sorted i (sort is_left)

-- Each index is its place, counted from a first one.
abbrev pub contiguous_from : ℕ → List ℕ → Bool
contiguous_from first [] = true
contiguous_from first (i ∷ rest) = (i == first) && contiguous_from (suc first) rest

unfoldable pub check_pool : (ℕ → ℕ → ℕ) → List CommitmentRow → PoolTree → Result (List Check)
unfolding pool_leaves root
check_pool permutation rows state = do
  leaves ← pool_leaves rows []
  let contiguous = contiguous_from 0 (sort (indices leaves))
  computed ← lift_tree (root permutation state.levels leaves)
  ok (
      check "pool: tree positions 0..n all filled" (shown_bool contiguous) (shown_bool true)
      ∷ check "pool: next index" (shown_number (next_index_of leaves))
          (shown_number state.next_index)
      ∷ check "pool: root" (shown_u256 computed) (shown_u256 state.root)
      ∷ [])

-- A row of `allowlist_events`.
pub record AllowlistRow : Type 0 where
  pub kind : String
  pub leaf : List ℕ
  pub leaf_index : Option ℤ
  pub root : List ℕ

-- What the loop of `check_allowlist` carries.
pub record Replay : Type 0 where
  pub tree : IncrementalTree
  pub replayed : ℕ
  pub emitted_roots_match : Bool
  pub handed_to_operator : Bool
  pub latest_root : ℕ

abbrev pub optional_index : Option ℤ → Result (Option ℕ)
optional_index none = ok none
optional_index (some i) = index i "allowlist index" >>= λ n. ok (some n)

abbrev pub is_next : Option ℕ → ℕ → Bool
is_next none next = false
is_next (some i) next = i == next

-- The checks that `check_allowlist` answers with.
unfoldable pub allowlist_checks : Replay → AllowlistTree → List Check
allowlist_checks r state =
    let checks =
      check "allowlist: every root emitted before a revocation recomputes"
        (shown_bool r.emitted_roots_match) (shown_bool true)
      ∷ check "allowlist: operator-maintained" (shown_bool r.handed_to_operator)
          (shown_bool state.operator_maintained)
      ∷ check "allowlist: latest emitted root" (shown_u256 r.latest_root) (shown_u256 state.root)
      ∷ [] in
    if r.handed_to_operator
    then checks
    else checks
      ++ (check "allowlist: recomputed root" (shown_u256 r.tree.root) (shown_u256 state.root)
          ∷ check "allowlist: next index" (shown_number r.replayed) (shown_number state.next_index)
          ∷ [])

module _ (permutation : ℕ → ℕ → ℕ) where
  -- An insertion before any revocation.
  unfoldable pub replay_insertion : AllowlistRow → ℕ → Replay → Result Replay
  unfolding u256 index from_u256 push
  replay_insertion row emitted_root r = do
    leaf_index ← optional_index row.leaf_index
    value ← u256 row.leaf "allowlist leaf"
    leaf ← lift_tree (from_u256 value)
    (computed, tree) ← lift_tree (push permutation leaf r.tree)
    ok (record {
      tree = tree;
      replayed = saturating_succ r.replayed;
      emitted_roots_match =
          r.emitted_roots_match
          && is_next leaf_index r.tree.next_index
          && (computed == emitted_root);
      handed_to_operator = false;
      latest_root = emitted_root;
    })

  -- One row: whether the operator had the list at it or before, and the root that it carries.
  unfoldable pub replay_row : Bool → AllowlistRow → ℕ → Replay → Result Replay
  unfolding replay_insertion
  replay_row true row emitted_root r =
      ok (record r { handed_to_operator = true; latest_root = emitted_root })
  replay_row false row emitted_root r = replay_insertion row emitted_root r

  -- The loop, with the rows left.
  unfoldable pub replay : List AllowlistRow → Replay → Result Replay
  unfolding replay_row
  replay [] r = ok r
  replay (row ∷ rows) r = do
    emitted_root ← u256 row.root "allowlist root"
    r' ← replay_row (r.handed_to_operator || (row.kind is "revoked")) row emitted_root r
    replay rows r'

  unfoldable pub check_allowlist : List AllowlistRow → AllowlistTree → Result (List Check)
  unfolding new replay allowlist_checks
  check_allowlist rows state = do
    tree ← lift_tree (new permutation state.levels)
    r ← replay rows (record {
      tree = tree;
      replayed = 0;
      emitted_roots_match = true;
      handed_to_operator = false;
      latest_root = tree.root;
    })
    ok (allowlist_checks r state)
