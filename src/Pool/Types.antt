-- ===== src/Pool/Types.antt =====
-- The data of the pool contract (contracts/pool/src/types.rs, error.rs, event.rs, storage_types.rs),
-- and what it takes from the host and from other contracts.
-- An address is a number that stands for it. A `BytesN<32>` is the number that it encodes, and
-- other byte strings are lists.
use veil_contract.Prelude.{ℕ, Bool, Option, none, List, [], ◌||◌, true, false, NatMap}
use veil_contract.Prelude.Int.{ℤ}
use veil_contract.Pool.Merkle.{MerkleError, Store, blank}

pub data ContractError : Type 0 where
  not_authorized merkle_tree_full already_initialized wrong_levels : ContractError
  next_index_not_even wrong_ext_amount invalid_proof unknown_root : ContractError
  already_spent_nullifier wrong_ext_hash not_initialized overflow : ContractError
  invalid_fee already_inserted_commitment invalid_field_element : ContractError
  tree_not_full deposit_closed : ContractError

-- `impl From<MerkleError> for ContractError`
abbrev pub from_merkle : MerkleError → ContractError
from_merkle MerkleError.already_initialized = already_initialized
from_merkle MerkleError.merkle_tree_full = merkle_tree_full
from_merkle MerkleError.wrong_levels = wrong_levels
from_merkle MerkleError.next_index_not_even = next_index_not_even
from_merkle MerkleError.not_initialized = not_initialized
from_merkle MerkleError.overflow = overflow

-- `contract_types::Groth16Proof`: the bytes of its points.
pub record Groth16Proof : Type 0 where
  pub a : List ℕ
  pub b : List ℕ
  pub c : List ℕ

abbrev pub no_bytes : List ℕ → Bool
no_bytes [] = true
no_bytes _ = false

-- `Groth16Proof::is_empty`
abbrev pub is_empty : Groth16Proof → Bool
is_empty p = no_bytes p.a || no_bytes p.b || no_bytes p.c

pub record Proof : Type 0 where
  pub proof : Groth16Proof
  pub root : ℕ
  pub input_nullifiers : List ℕ
  pub output_commitment0 : ℕ
  pub output_commitment1 : ℕ
  pub public_amount : ℕ
  pub ext_data_hash : ℕ
  pub asp_membership_root : ℕ

pub record ExtData : Type 0 where
  pub recipient : ℕ
  pub ext_amount : ℤ
  pub encrypted_output0 : List ℕ
  pub encrypted_output1 : List ℕ

pub record Account : Type 0 where
  pub owner : ℕ
  pub encryption_key : List ℕ
  pub note_key : List ℕ

pub record PoolConfig : Type 0 where
  pub admin : ℕ
  pub token : ℕ
  pub verifier : ℕ
  pub asp_membership : ℕ
  pub maximum_deposit_amount : ℕ
  pub fee_recipient : ℕ
  pub fee_bps : ℕ

pub record Settlement : Type 0 where
  pub nullifier : ℕ
  pub pool : ℕ
  pub output_commitment0 : ℕ
  pub output_commitment1 : ℕ
  pub output_index0 : ℕ
  pub output_index1 : ℕ
  pub amount_bucket : ℤ
  pub public_amount : ℕ
  pub recipient : Option ℕ
  pub asset : ℕ

pub record Exit : Type 0 where
  pub nullifier : ℕ
  pub pool : ℕ
  pub amount_bucket : ℤ
  pub public_amount : ℕ
  pub recipient : ℕ
  pub asset : ℕ

-- The events that the contract still publishes.
pub data Event : Type 0 where
  new_commitment : ℕ → ℕ → List ℕ → Event
  new_nullifier : ℕ → Event
  settlement : Settlement → Event
  exited : Exit → Event
  public_key : ℕ → List ℕ → List ℕ → Event

-- The persistent entries under `DataKey`, and those of the tree.
pub record Storage : Type 0 where
  pub admin : Option ℕ
  pub token : Option ℕ
  pub verifier : Option ℕ
  pub maximum_deposit_amount : Option ℕ
  pub nullifiers : Option (NatMap Bool)
  pub commitments : Option (NatMap Bool)
  pub asp_membership : Option ℕ
  pub fee_recipient : Option ℕ
  pub fee_bps : Option ℕ
  pub tree : Store

abbrev pub unwritten : Storage
unwritten = record {
  admin = none;
  token = none;
  verifier = none;
  maximum_deposit_amount = none;
  nullifiers = none;
  commitments = none;
  asp_membership = none;
  fee_recipient = none;
  fee_bps = none;
  tree = blank;
}

-- A call `transfer(from, to, amount)` of a token contract.
pub record Transfer : Type 0 where
  pub token : ℕ
  pub from : ℕ
  pub to : ℕ
  pub amount : ℤ

-- What a call of the pool can change: its storage, its events and token transfers in order, and the
-- code that it runs.
pub record World : Type 0 where
  pub storage : Storage
  pub events : List Event
  pub transfers : List Transfer
  pub wasm : ℕ

-- What one call of the pool takes from the host and from other contracts. A foreign call that
-- fails, or answers with an error, is `none`; the host then undoes the whole call.
pub record Host : Type 0 where
  -- the first element that `poseidon2_permutation` returns at width 2
  pub permutation : ℕ → ℕ → ℕ
  -- the addresses whose `require_auth` passes
  pub authorizes : ℕ → Bool
  -- the Keccak256 digest of the XDR of external data, read as a big-endian number
  pub ext_data_digest : ExtData → ℕ
  pub current_contract_address : ℕ
  -- `get_root` of the contract at an address
  pub asp_root : ℕ → Option ℕ
  -- `verify` of the contract at an address
  pub verifies : ℕ → Groth16Proof → List ℕ → Option Bool
  -- whether a token takes a transfer in the state that the pool has left at that moment
  pub token_accepts : World → Transfer → Bool
  -- whether code with this hash has been uploaded
  pub uploaded : ℕ → Bool
