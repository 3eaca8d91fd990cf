-- ===== src/Indexer/Event.antt =====
-- The events of both contracts as the indexer reads them (services/indexer/src/event/mod.rs). A
-- `U256Be` is the number that its bytes encode; an address is its strkey.
pub mod ScVal
pub mod Decode
pub mod Published
use Prim.Native.String.{String}
use veil_contract.Prelude.{ℕ, List, Option}
use veil_contract.Prelude.Int.{ℤ}

pub record Settlement : Type 0 where
  pub nullifier : ℕ
  pub pool : String
  pub output_commitment0 : ℕ
  pub output_commitment1 : ℕ
  pub output_index0 : ℕ
  pub output_index1 : ℕ
  pub amount_bucket : ℤ
  pub public_amount : ℕ
  pub recipient : Option String
  pub asset : String

pub record Exit : Type 0 where
  pub nullifier : ℕ
  pub pool : String
  pub amount_bucket : ℤ
  pub public_amount : ℕ
  pub recipient : String
  pub asset : String

pub record LegacyDeposit : Type 0 where
  pub commitment : ℕ
  pub pool : String
  pub index : ℕ
  pub amount_bucket : ℤ
  pub asset : String

pub data VeilEvent : Type 0 where
  new_commitment : ℕ → ℕ → List ℕ → VeilEvent
  new_nullifier : ℕ → VeilEvent
  settlement : Settlement → VeilEvent
  exited : Exit → VeilEvent
  legacy_deposit : LegacyDeposit → VeilEvent
  public_key : String → List ℕ → List ℕ → VeilEvent
  leaf_added : ℕ → ℕ → ℕ → VeilEvent
  leaf_revoked : ℕ → ℕ → VeilEvent

pub data Emitter : Type 0 where
  from_pool from_allowlist : Emitter

unfoldable pub emitter : VeilEvent → Emitter
emitter (leaf_added leaf index root) = from_allowlist
emitter (leaf_revoked leaf root) = from_allowlist
emitter _ = from_pool

abbrev pub new_commitment_name : String
new_commitment_name = "new_commitment_event"

abbrev pub new_nullifier_name : String
new_nullifier_name = "new_nullifier_event"

abbrev pub settlement_name : String
settlement_name = "Settlement"

abbrev pub exit_name : String
exit_name = "Exit"

abbrev pub deposit_name : String
deposit_name = "Deposit"

abbrev pub public_key_name : String
public_key_name = "public_key_event"

abbrev pub leaf_added_name : String
leaf_added_name = "LeafAdded"

abbrev pub leaf_revoked_name : String
leaf_revoked_name = "LeafRevoked"

-- The only entry of `HOST_EVENTS`.
abbrev pub executable_update : String
executable_update = "executable_update"

-- `VeilEvent::name`
unfoldable pub name : VeilEvent → String
name (new_commitment commitment index output) = new_commitment_name
name (new_nullifier nullifier) = new_nullifier_name
name (settlement s) = settlement_name
name (exited e) = exit_name
name (legacy_deposit d) = deposit_name
name (public_key owner key note) = public_key_name
name (leaf_added leaf index root) = leaf_added_name
name (leaf_revoked leaf root) = leaf_revoked_name

pub data Decoded : Type 0 where
  event : VeilEvent → Decoded
  ignored : String → Decoded

pub data DecodeError : Type 0 where
  unknown_event : String → DecodeError
  topic_count : String → ℕ → ℕ → DecodeError
  missing_field : String → String → DecodeError
  unexpected_field : String → String → DecodeError
  shape : String → String → String → DecodeError
  bad_xdr : String → String → DecodeError
