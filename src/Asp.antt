-- ===== src/Asp.antt =====
-- The Association Set Provider allowlist (contracts/asp-membership/src): the entry points of
-- contract.rs over the entries of storage.rs, with error.rs, event.rs and storage_types.rs.
pub mod Insert
pub mod Deploy
pub mod Admin
use veil_contract.Prelude.{
  ℕ, zero, suc, ◌+◌, ◌^◌, ◌||◌, Bool, true, false, not, List, [], ◌∷◌, ◌++◌, Option, some, none,
  NatMap, update, empty_map, get_elem?, ltb, leb, ◌==◌, if◌then◌else◌, Outcome, ok, err, trap,
  ok_or, unwrap_or, refuse_if, ◌>>=◌, ◌>>◌,
}
use veil_contract.Field.{bn256_modulus, poseidon2_compress}
use veil_contract.Field.Zeroes.{get_zeroes}
use veil_contract.Tree.{climb}

pub data Error : Type 0 where
  not_authorized merkle_tree_full wrong_levels not_initialized overflow : Error
  invalid_field_element operator_maintained not_operator_maintained : Error

pub data Event : Type 0 where
  leaf_added : ℕ → ℕ → ℕ → Event
  leaf_revoked : ℕ → ℕ → Event

-- The persistent entries under `DataKey`.
pub record Storage : Type 0 where
  pub admin : Option ℕ
  pub filled_subtrees : NatMap ℕ
  pub zeroes : NatMap ℕ
  pub levels : Option ℕ
  pub next_index : Option ℕ
  pub root : Option ℕ
  pub admin_insert_only : Option Bool
  pub operator_maintained : Option Bool

abbrev pub unwritten : Storage
unwritten = record {
  admin = none;
  filled_subtrees = empty_map;
  zeroes = empty_map;
  levels = none;
  next_index = none;
  root = none;
  admin_insert_only = none;
  operator_maintained = none;
}

pub record World : Type 0 where
  pub storage : Storage
  pub events : List Event
  pub wasm : ℕ

-- What a call takes from the host, as for the pool.
pub record Host : Type 0 where
  pub permutation : ℕ → ℕ → ℕ
  pub authorizes : ℕ → Bool
  pub uploaded : ℕ → Bool

abbrev pub Call : Type 0 → Type 0
Call A = Outcome Error A

abbrev pub require_auth : Host → ℕ → Call (Unit {0})
require_auth host address = if host.authorizes address then ok tt else trap

abbrev pub publish : Event → World → World
publish e w = record w { events = w.events ++ (e ∷ []) }

abbrev pub get_admin : Storage → Call ℕ
get_admin s = ok_or s.admin not_initialized

abbrev pub get_levels : Storage → Call ℕ
get_levels s = ok_or s.levels not_initialized

abbrev pub get_next_index : Storage → Call ℕ
get_next_index s = ok_or s.next_index not_initialized

abbrev pub get_admin_insert_only : Storage → Bool
get_admin_insert_only s = unwrap_or s.admin_insert_only true

abbrev pub get_operator_maintained : Storage → Bool
get_operator_maintained s = unwrap_or s.operator_maintained false

unfoldable pub ensure_field_element : ℕ → Call (Unit {0})
ensure_field_element value = refuse_if (leb bn256_modulus value) invalid_field_element

-- `for lvl in 0..=levels` of the constructor, with the rounds left.
unfoldable pub init_levels : ℕ → ℕ → List ℕ → Storage → Call Storage
init_levels zero lvl zeros s = ok s
init_levels (suc rounds) lvl zeros s = do
  zero_val ← ok_or (get_elem? zeros lvl) not_initialized
  init_levels rounds (lvl + 1) zeros (record s {
    filled_subtrees = update s.filled_subtrees lvl zero_val;
    zeroes = update s.zeroes lvl zero_val;
  })

unfoldable pub constructor : ℕ → ℕ → World → Call World
constructor admin levels w = do
  refuse_if (levels == 0 || ltb 32 levels) wrong_levels
  let zeros = get_zeroes
  s ← init_levels (levels + 1) 0 zeros (record (w.storage) {
    admin = some admin;
    levels = some levels;
    next_index = some 0;
    admin_insert_only = some true;
  })
  root_val ← ok_or (get_elem? zeros levels) not_initialized
  ok (record w { storage = record s { root = some root_val } })

-- `1u64.checked_shl(levels)`
abbrev pub checked_shl_one : ℕ → Option ℕ
checked_shl_one levels = if ltb levels 64 then some (2 ^ levels) else none

unfoldable pub insert_leaf : Host → ℕ → World → Call World
insert_leaf host leaf w = do
  ensure_field_element leaf
  refuse_if (get_operator_maintained w.storage) operator_maintained
  (if get_admin_insert_only w.storage
      then (get_admin w.storage >>= λ admin. require_auth host admin)
      else ok tt)
  levels ← get_levels w.storage
  actual_index ← get_next_index w.storage
  capacity ← ok_or (checked_shl_one levels) merkle_tree_full
  refuse_if (leb capacity actual_index) merkle_tree_full
  (current_hash, filled) ←
      climb host.permutation not_initialized w.storage.zeroes levels 0 actual_index leaf
        w.storage.filled_subtrees
  next_index ←
      ok_or (if ltb (actual_index + 1) (2 ^ 64) then some (actual_index + 1) else none) overflow
  ok (
      publish (leaf_added leaf actual_index current_hash) (record w {
        storage = record (w.storage) {
          filled_subtrees = filled;
          root = some current_hash;
          next_index = some next_index;
        };
      }))

unfoldable pub revoke_leaf : Host → ℕ → ℕ → World → Call World
revoke_leaf host leaf new_root w = do
  ensure_field_element leaf
  ensure_field_element new_root
  admin ← get_admin w.storage
  require_auth host admin
  ok (
      publish (leaf_revoked leaf new_root) (record w {
        storage = record (w.storage) { operator_maintained = some true; root = some new_root };
      }))

unfoldable pub publish_leaf : Host → ℕ → ℕ → ℕ → World → Call World
publish_leaf host leaf index new_root w = do
  ensure_field_element leaf
  ensure_field_element new_root
  refuse_if (not (get_operator_maintained w.storage)) not_operator_maintained
  admin ← get_admin w.storage
  require_auth host admin
  ok (
      publish (leaf_added leaf index new_root)
        (record w { storage = record (w.storage) { root = some new_root } }))

unfoldable pub upgrade : Host → ℕ → World → Call World
upgrade host new_wasm_hash w = do
  admin ← get_admin w.storage
  require_auth host admin
  (if host.uploaded new_wasm_hash then ok (record w { wasm = new_wasm_hash }) else trap)

unfoldable pub is_operator_maintained : Storage → Bool
is_operator_maintained s = get_operator_maintained s

unfoldable pub get_root : Storage → Call ℕ
get_root s = ok_or s.root not_initialized

-- A value outside the field panics here.
unfoldable pub hash_pair : Host → ℕ → ℕ → Call ℕ
hash_pair host left right = do
  ensure_field_element left
  ensure_field_element right
  poseidon2_compress host.permutation left right

unfoldable pub update_admin : Host → ℕ → World → Call World
update_admin host new_admin w = do
  admin ← get_admin w.storage
  require_auth host admin
  ok (record w { storage = record (w.storage) { admin = some new_admin } })

unfoldable pub set_admin_insert_only : Host → Bool → World → Call World
set_admin_insert_only host admin_only w = do
  admin ← get_admin w.storage
  require_auth host admin
  ok (record w { storage = record (w.storage) { admin_insert_only = some admin_only } })
