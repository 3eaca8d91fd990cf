-- ===== src/Tests/Worlds.antt =====
-- A small pool: one level, so that one insertion fills it, and runs of its calls.
use mathlib.Core.Path.{subst}
use veil_contract.Prelude.{
  ℕ, ◌-◌, ◌≡◌, refl, sym, ◌∙◌, List, [], ◌∷◌, Bool, true, false, some, Outcome, ok, err, trap,
  ok-injective, ◌==◌, ◌||◌, arith, get_or,
}
use veil_contract.Prelude.Int.{ℤ, pos, negsuc}
use veil_contract.Pool.Types.{Proof, ExtData, PoolConfig, Storage, World, Host, unwritten}
use veil_contract.Field.{bn256_modulus, from_be_bytes, poseidon2_compress, u256_add}
use veil_contract.Field.Zeroes.{get_zeroes}
use veil_contract.Tree.{climb, climb_step}
use veil_contract.Pool.Merkle.{
  init, init_levels, is_known_root, scan_roots, is_full, insert_two_leaves,
}
use veil_contract.Pool.Amount.{
  calculate_public_amount, i256_to_i128_nonneg, calculate_fee_amount, i256_abs_to_u256,
}
use veil_contract.Pool.Settle.{
  settle, check_spend, ensure_proof_field_elements, ensure_field_element, ensure_field_elements,
  ensure_nullifiers_unspent, all_unspent, hash_ext_data, announce, check_outputs,
  ensure_commitment_unused, get_asp_membership_root, insert_outputs, is_commitment_inserted,
  mark_all, mark_commitment_inserted, pay_out, payout_of, public_inputs, publish_exits,
  publish_nullifiers, publish_settlements, spend_nullifiers_once, verify_proof,
}
use veil_contract.Pool.Storage.{
  get_asp_membership, get_commitments, get_fee_bps, get_fee_recipient, get_maximum_deposit,
  get_nullifiers, get_token, get_verifier, set_admin, set_asp_membership, set_commitments,
  set_fee_bps, set_fee_recipient, set_maximum_deposit, set_nullifiers, set_token, set_verifier,
}
use veil_contract.Pool.Contract.{configured, constructor, pay_in, transact, exit}
use veil_contract.Pool.Contract.Deploy.{constructor_lem}
use veil_contract.Pool.Invariant.{IsPool}
use veil_contract.Tests.Toy.{toy, toy-HasZeroTable}

abbrev pub value_of : {E A : Type 0} → Outcome E A → A → A
value_of (ok a) d = a
value_of (err e) d = d
value_of trap d = d

abbrev pub succeeds : {E A : Type 0} → Outcome E A → Bool
succeeds (ok a) = true
succeeds _ = false

pub succeeds-ok :
    {E A : Type 0} (m : Outcome E A) (d : A) → succeeds m ≡ true → m ≡ ok (value_of m d)
succeeds-ok (ok a) d h = refl
succeeds-ok (err e) d h = cc
succeeds-ok trap d h = cc

abbrev pub host : Host
host = record {
  permutation = toy;
  authorizes = λ a. a == 9 || a == 1;
  ext_data_digest = λ e. 77;
  current_contract_address = 10;
  asp_root = λ a. some 55;
  verifies = λ a p xs. some true;
  token_accepts = λ w t. true;
  uploaded = λ h. true;
}

abbrev pub config : PoolConfig
config = record {
  admin = 1;
  token = 2;
  verifier = 3;
  asp_membership = 4;
  maximum_deposit_amount = 1000;
  fee_recipient = 6;
  fee_bps = 100;
}

abbrev pub fresh : World
fresh = record { storage = unwritten; events = []; transfers = []; wasm = 0 }

abbrev pub deployed : World
deployed = value_of (constructor config 1 fresh) fresh

abbrev pub proof_of : ℕ → List ℕ → ℕ → ℕ → ℕ → Proof
proof_of root nullifiers commitment0 commitment1 public_amount = record {
  proof = record { a = 1 ∷ []; b = 1 ∷ []; c = 1 ∷ [] };
  root = root;
  input_nullifiers = nullifiers;
  output_commitment0 = commitment0;
  output_commitment1 = commitment1;
  public_amount = public_amount;
  ext_data_hash = 77;
  asp_membership_root = 55;
}

abbrev pub ext_of : ℤ → ExtData
ext_of x = record { recipient = 8; ext_amount = x; encrypted_output0 = []; encrypted_output1 = [] }

-- The root of the empty tree of one level.
abbrev pub empty_root : ℕ
empty_root = get_or get_zeroes 1 0

abbrev pub deposit_proof : Proof
deposit_proof = proof_of empty_root (201 ∷ 202 ∷ []) 301 302 500

abbrev pub after_deposit : World
after_deposit = value_of (transact host deposit_proof (ext_of (pos 500)) 9 deployed) deployed

-- The public amount of a withdrawal of 200.
abbrev pub withdrawn : ℕ
withdrawn = 0x30644e72e131a029b85045b68181585d2833e84879b9709143e1f593f0000001 - 200

abbrev pub exit_proof : Proof
exit_proof = proof_of empty_root (203 ∷ 204 ∷ []) 303 304 withdrawn

abbrev pub after_exit : World
after_exit = value_of (exit host exit_proof (ext_of (negsuc 199)) 9 after_deposit) after_deposit

deposit_succeeds : succeeds (transact host deposit_proof (ext_of (pos 500)) 9 deployed) ≡ true
unfolding bn256_modulus from_be_bytes poseidon2_compress u256_add get_zeroes climb climb_step init
    init_levels is_known_root scan_roots is_full insert_two_leaves calculate_public_amount
    i256_to_i128_nonneg calculate_fee_amount i256_abs_to_u256 settle check_spend
    ensure_proof_field_elements ensure_field_element ensure_field_elements ensure_nullifiers_unspent
    all_unspent hash_ext_data announce check_outputs ensure_commitment_unused
    get_asp_membership_root insert_outputs is_commitment_inserted mark_all mark_commitment_inserted
    pay_out payout_of public_inputs publish_exits publish_nullifiers publish_settlements
    spend_nullifiers_once verify_proof get_asp_membership get_commitments get_fee_bps
    get_fee_recipient get_maximum_deposit get_nullifiers get_token get_verifier set_admin
    set_asp_membership set_commitments set_fee_bps set_fee_recipient set_maximum_deposit
    set_nullifiers set_token set_verifier configured constructor pay_in transact exit toy
deposit_succeeds = refl

exit-succeeds : succeeds (exit host exit_proof (ext_of (negsuc 199)) 9 after_deposit) ≡ true
unfolding bn256_modulus from_be_bytes poseidon2_compress u256_add get_zeroes climb climb_step init
    init_levels is_known_root scan_roots is_full insert_two_leaves calculate_public_amount
    i256_to_i128_nonneg calculate_fee_amount i256_abs_to_u256 settle check_spend
    ensure_proof_field_elements ensure_field_element ensure_field_elements ensure_nullifiers_unspent
    all_unspent hash_ext_data announce check_outputs ensure_commitment_unused
    get_asp_membership_root insert_outputs is_commitment_inserted mark_all mark_commitment_inserted
    pay_out payout_of public_inputs publish_exits publish_nullifiers publish_settlements
    spend_nullifiers_once verify_proof get_asp_membership get_commitments get_fee_bps
    get_fee_recipient get_maximum_deposit get_nullifiers get_token get_verifier set_admin
    set_asp_membership set_commitments set_fee_bps set_fee_recipient set_maximum_deposit
    set_nullifiers set_token set_verifier configured constructor pay_in transact exit toy
exit-succeeds = refl

deployed_succeeds : succeeds (constructor config 1 fresh) ≡ true
unfolding bn256_modulus from_be_bytes poseidon2_compress u256_add get_zeroes climb climb_step init
    init_levels is_known_root scan_roots is_full insert_two_leaves calculate_public_amount
    i256_to_i128_nonneg calculate_fee_amount i256_abs_to_u256 settle check_spend
    ensure_proof_field_elements ensure_field_element ensure_field_elements ensure_nullifiers_unspent
    all_unspent hash_ext_data announce check_outputs ensure_commitment_unused
    get_asp_membership_root insert_outputs is_commitment_inserted mark_all mark_commitment_inserted
    pay_out payout_of public_inputs publish_exits publish_nullifiers publish_settlements
    spend_nullifiers_once verify_proof get_asp_membership get_commitments get_fee_bps
    get_fee_recipient get_maximum_deposit get_nullifiers get_token get_verifier set_admin
    set_asp_membership set_commitments set_fee_bps set_fee_recipient set_maximum_deposit
    set_nullifiers set_token set_verifier configured constructor pay_in transact exit toy
deployed_succeeds = refl

pub deployed_runs : constructor config 1 fresh ≡ ok deployed
deployed_runs = succeeds-ok (constructor config 1 fresh) fresh deployed_succeeds

pub deposit_runs : transact host deposit_proof (ext_of (pos 500)) 9 deployed ≡ ok after_deposit
deposit_runs =
    succeeds-ok (transact host deposit_proof (ext_of (pos 500)) 9 deployed) deployed
      deposit_succeeds

pub exit_runs : exit host exit_proof (ext_of (negsuc 199)) 9 after_deposit ≡ ok after_exit
exit_runs =
    succeeds-ok (exit host exit_proof (ext_of (negsuc 199)) 9 after_deposit) after_deposit
      exit-succeeds

pub deployed-IsPool : IsPool toy 0 [] deployed.storage
deployed-IsPool =
    let (w, runs, configured, pool) =
      constructor_lem toy config 0 fresh toy-HasZeroTable refl (omega arith) (omega arith) in
    subst (λ (v : World). IsPool toy 0 [] v.storage) (ok-injective (sym runs ∙ deployed_runs)) pool

-- The token, the fee's recipient and the fee of a pool.
abbrev pub IsConfigured : Storage → Type 0
IsConfigured s = (s.token ≡ some 2) × (s.fee_recipient ≡ some 6) × (s.fee_bps ≡ some 100)

pub deployed-IsConfigured : IsConfigured deployed.storage
unfolding bn256_modulus from_be_bytes poseidon2_compress u256_add get_zeroes climb climb_step init
    init_levels is_known_root scan_roots is_full insert_two_leaves calculate_public_amount
    i256_to_i128_nonneg calculate_fee_amount i256_abs_to_u256 settle check_spend
    ensure_proof_field_elements ensure_field_element ensure_field_elements ensure_nullifiers_unspent
    all_unspent hash_ext_data announce check_outputs ensure_commitment_unused
    get_asp_membership_root insert_outputs is_commitment_inserted mark_all mark_commitment_inserted
    pay_out payout_of public_inputs publish_exits publish_nullifiers publish_settlements
    spend_nullifiers_once verify_proof get_asp_membership get_commitments get_fee_bps
    get_fee_recipient get_maximum_deposit get_nullifiers get_token get_verifier set_admin
    set_asp_membership set_commitments set_fee_bps set_fee_recipient set_maximum_deposit
    set_nullifiers set_token set_verifier configured constructor pay_in transact exit toy
deployed-IsConfigured = (refl, refl, refl)

pub paid-IsConfigured : IsConfigured after_deposit.storage
unfolding bn256_modulus from_be_bytes poseidon2_compress u256_add get_zeroes climb climb_step init
    init_levels is_known_root scan_roots is_full insert_two_leaves calculate_public_amount
    i256_to_i128_nonneg calculate_fee_amount i256_abs_to_u256 settle check_spend
    ensure_proof_field_elements ensure_field_element ensure_field_elements ensure_nullifiers_unspent
    all_unspent hash_ext_data announce check_outputs ensure_commitment_unused
    get_asp_membership_root insert_outputs is_commitment_inserted mark_all mark_commitment_inserted
    pay_out payout_of public_inputs publish_exits publish_nullifiers publish_settlements
    spend_nullifiers_once verify_proof get_asp_membership get_commitments get_fee_bps
    get_fee_recipient get_maximum_deposit get_nullifiers get_token get_verifier set_admin
    set_asp_membership set_commitments set_fee_bps set_fee_recipient set_maximum_deposit
    set_nullifiers set_token set_verifier configured constructor pay_in transact exit toy
paid-IsConfigured = (refl, refl, refl)

pub deposit_checked :
    (check_spend host deposit_proof (ext_of (pos 500)) deployed.storage ≡ ok tt)
    × (check_outputs true deposit_proof deployed.storage ≡ ok tt)
    × (deployed.storage.maximum_deposit_amount ≡ some 1000)
unfolding bn256_modulus from_be_bytes poseidon2_compress u256_add get_zeroes climb climb_step init
    init_levels is_known_root scan_roots is_full insert_two_leaves calculate_public_amount
    i256_to_i128_nonneg calculate_fee_amount i256_abs_to_u256 settle check_spend
    ensure_proof_field_elements ensure_field_element ensure_field_elements ensure_nullifiers_unspent
    all_unspent hash_ext_data announce check_outputs ensure_commitment_unused
    get_asp_membership_root insert_outputs is_commitment_inserted mark_all mark_commitment_inserted
    pay_out payout_of public_inputs publish_exits publish_nullifiers publish_settlements
    spend_nullifiers_once verify_proof get_asp_membership get_commitments get_fee_bps
    get_fee_recipient get_maximum_deposit get_nullifiers get_token get_verifier set_admin
    set_asp_membership set_commitments set_fee_bps set_fee_recipient set_maximum_deposit
    set_nullifiers set_token set_verifier configured constructor pay_in transact exit toy
deposit_checked = (refl, refl, refl)
