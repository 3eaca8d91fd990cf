-- ===== src/Pool/Contract.antt =====
-- The entry points of the pool contract (`PoolContract` in contracts/pool/src/contract.rs).
pub mod Calls
pub mod Admin
pub mod Moves
pub mod Deploy
pub mod Money
use veil_contract.Prelude.{
  ℕ, Bool, true, false, not, Option, none, some, empty_map, ltb, if◌then◌else◌, Outcome, ok, err,
  trap, ok_or, refuse_if, ◌>>=◌, ◌>>◌,
}
use veil_contract.Prelude.Int.{ℤ, pos, ltb_ℤ, leb_ℤ}
use veil_contract.Pool.Merkle.{init, is_full, remaining_leaves, get_last_root}
use veil_contract.Pool.Types.{
  ContractError, not_initialized, invalid_fee, wrong_ext_amount, deposit_closed, tree_not_full,
  Proof, ExtData, Account, PoolConfig, public_key, Storage, Transfer, World, Host,
}
use veil_contract.Pool.Storage.{
  Call, get_token, get_maximum_deposit, get_admin, get_verifier, get_asp_membership,
  get_fee_recipient, get_fee_bps, has_admin, set_admin, set_token, set_verifier, set_asp_membership,
  set_maximum_deposit, set_fee_recipient, set_fee_bps, set_nullifiers, set_commitments, lift_merkle,
  require_auth, publish, transfer,
}
use veil_contract.Pool.Amount.{max_fee_bps, i256_to_i128_nonneg, u256_bits, calculate_public_amount}
use veil_contract.Pool.Settle.{settle, is_spent, is_commitment_inserted, hash_ext_data, pay_if}

-- The configuration that the constructor writes before it builds the tree.
unfoldable pub configured : PoolConfig → Storage → Storage
unfolding set_admin set_token set_verifier set_asp_membership set_maximum_deposit set_fee_recipient
    set_fee_bps set_nullifiers set_commitments
configured c s = set_commitments empty_map (
    set_nullifiers empty_map (
      set_fee_bps c.fee_bps (
        set_fee_recipient c.fee_recipient (
          set_maximum_deposit c.maximum_deposit_amount (
            set_asp_membership c.asp_membership
              (set_verifier c.verifier (set_token c.token (set_admin c.admin s))))))))

-- `__constructor`, its configuration arguments as one record.
unfoldable pub constructor : PoolConfig → ℕ → World → Call World
unfolding configured
constructor c levels w = do
  refuse_if (ltb max_fee_bps c.fee_bps) invalid_fee
  let s = configured c w.storage
  tree ← lift_merkle (init levels s.tree)
  ok (record w { storage = record s { tree = tree } })

unfoldable pub register : Host → Account → World → Call World
register host account w = do
  require_auth host account.owner
  ok (publish (public_key account.owner account.encryption_key account.note_key) w)

unfoldable pub deposit : ℕ → ℤ → ℕ → World → Call (ℕ × World)
deposit from amount commitment w = err deposit_closed

-- The deposit of `transact`: what the sender pays in before the spend settles.
unfoldable pub pay_in : Host → ℕ → ExtData → ℕ → World → Call World
unfolding get_maximum_deposit
pay_in host token ext_data sender w =
    if ltb_ℤ (pos 0) ext_data.ext_amount
    then (do
      let deposit_u = u256_bits ext_data.ext_amount
      max ← get_maximum_deposit w.storage
      refuse_if (ltb max deposit_u) wrong_ext_amount
      amount ← i256_to_i128_nonneg ext_data.ext_amount
      transfer host
          (record {
            token = token;
            from = sender;
            to = host.current_contract_address;
            amount = amount;
          })
          w)
    else ok w

unfoldable pub transact : Host → Proof → ExtData → ℕ → World → Call World
unfolding get_token pay_in
transact host proof ext_data sender w = do
  require_auth host sender
  token ← get_token w.storage
  paid ← pay_in host token ext_data sender w
  settle host proof ext_data true paid

unfoldable pub exit : Host → Proof → ExtData → ℕ → World → Call World
exit host proof ext_data sender w = do
  require_auth host sender
  full ← lift_merkle (is_full w.storage.tree)
  refuse_if (not full) tree_not_full
  refuse_if (leb_ℤ (pos 0) ext_data.ext_amount) wrong_ext_amount
  settle host proof ext_data false w

unfoldable pub is_tree_full : Storage → Call Bool
is_tree_full s = lift_merkle (is_full s.tree)

unfoldable pub remaining_leaves_view : Storage → Call ℕ
remaining_leaves_view s = lift_merkle (remaining_leaves s.tree)

unfoldable pub get_root : Storage → Call ℕ
get_root s = lift_merkle (get_last_root s.tree)

unfoldable pub get_config : Storage → Call PoolConfig
unfolding get_admin get_token get_verifier get_asp_membership get_maximum_deposit get_fee_recipient
    get_fee_bps
get_config s = do
  admin ← get_admin s
  token ← get_token s
  verifier ← get_verifier s
  asp_membership ← get_asp_membership s
  maximum_deposit_amount ← get_maximum_deposit s
  fee_recipient ← get_fee_recipient s
  fee_bps ← get_fee_bps s
  ok (record {
    admin = admin;
    token = token;
    verifier = verifier;
    asp_membership = asp_membership;
    maximum_deposit_amount = maximum_deposit_amount;
    fee_recipient = fee_recipient;
    fee_bps = fee_bps;
  })

unfoldable pub has_nullifier : ℕ → Storage → Call Bool
unfolding is_spent
has_nullifier nullifier s = is_spent nullifier s

unfoldable pub has_commitment : ℕ → Storage → Call Bool
unfolding is_commitment_inserted
has_commitment commitment s = is_commitment_inserted commitment s

unfoldable pub get_ext_data_hash : Host → ExtData → ℕ
unfolding hash_ext_data
get_ext_data_hash host ext_data = hash_ext_data host ext_data

unfoldable pub get_public_amount : ℤ → Call ℕ
get_public_amount ext_amount = calculate_public_amount ext_amount

-- Writes of an administrator, over the storage.
unfoldable pub as_admin : Host → (Storage → Storage) → World → Call World
unfolding get_admin
as_admin host write w = do
  admin ← get_admin w.storage
  require_auth host admin
  ok (record w { storage = write w.storage })

-- `update_admin`, with `soroban_utils::update_admin`, which panics without an admin.
unfoldable pub update_admin : Host → ℕ → World → Call World
unfolding has_admin set_admin
update_admin host new_admin w = do
  refuse_if (not (has_admin w.storage)) not_initialized
  elim w.storage.admin [
    | none ↦ trap
    | some admin ↦
        (require_auth host admin >> ok (record w { storage = set_admin new_admin w.storage }))
  ]

unfoldable pub update_verifier : Host → ℕ → World → Call World
unfolding as_admin set_verifier
update_verifier host new_verifier w = as_admin host (set_verifier new_verifier) w

unfoldable pub update_asp_membership : Host → ℕ → World → Call World
unfolding as_admin set_asp_membership
update_asp_membership host new_asp_membership w =
    as_admin host (set_asp_membership new_asp_membership) w

-- The host refuses code that was not uploaded.
unfoldable pub upgrade : Host → ℕ → World → Call World
unfolding get_admin
upgrade host new_wasm_hash w = do
  admin ← get_admin w.storage
  require_auth host admin
  (if host.uploaded new_wasm_hash then ok (record w { wasm = new_wasm_hash }) else trap)
