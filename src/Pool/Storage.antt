-- ===== src/Pool/Storage.antt =====
-- The accessors of contracts/pool/src/storage.rs, and the other calls of the host.
use veil_contract.Prelude.{
  ℕ, Bool, true, false, [], ◌∷◌, ◌++◌, some, none, NatMap, Outcome, ok, err, trap, ok_or,
  if◌then◌else◌,
}
use veil_contract.Pool.Merkle.{MerkleError}
use veil_contract.Pool.Types.{
  ContractError, not_initialized, from_merkle, Storage, World, Host, Event, Transfer,
}

abbrev pub Call : Type 0 → Type 0
Call A = Outcome ContractError A

unfoldable pub get_nullifiers : Storage → Call (NatMap Bool)
get_nullifiers s = ok_or s.nullifiers not_initialized

unfoldable pub set_nullifiers : NatMap Bool → Storage → Storage
set_nullifiers m s = record s { nullifiers = some m }

unfoldable pub get_commitments : Storage → Call (NatMap Bool)
get_commitments s = ok_or s.commitments not_initialized

unfoldable pub set_commitments : NatMap Bool → Storage → Storage
set_commitments m s = record s { commitments = some m }

unfoldable pub get_token : Storage → Call ℕ
get_token s = ok_or s.token not_initialized

unfoldable pub set_token : ℕ → Storage → Storage
set_token token s = record s { token = some token }

unfoldable pub get_maximum_deposit : Storage → Call ℕ
get_maximum_deposit s = ok_or s.maximum_deposit_amount not_initialized

unfoldable pub set_maximum_deposit : ℕ → Storage → Storage
set_maximum_deposit amount s = record s { maximum_deposit_amount = some amount }

unfoldable pub get_verifier : Storage → Call ℕ
get_verifier s = ok_or s.verifier not_initialized

unfoldable pub set_verifier : ℕ → Storage → Storage
set_verifier verifier s = record s { verifier = some verifier }

unfoldable pub get_fee_recipient : Storage → Call ℕ
get_fee_recipient s = ok_or s.fee_recipient not_initialized

unfoldable pub set_fee_recipient : ℕ → Storage → Storage
set_fee_recipient recipient s = record s { fee_recipient = some recipient }

unfoldable pub get_fee_bps : Storage → Call ℕ
get_fee_bps s = ok_or s.fee_bps not_initialized

unfoldable pub set_fee_bps : ℕ → Storage → Storage
set_fee_bps fee_bps s = record s { fee_bps = some fee_bps }

unfoldable pub has_admin : Storage → Bool
has_admin s = elim s.admin [ none ↦ false | some _ ↦ true ]

unfoldable pub get_admin : Storage → Call ℕ
get_admin s = ok_or s.admin not_initialized

unfoldable pub set_admin : ℕ → Storage → Storage
set_admin admin s = record s { admin = some admin }

unfoldable pub get_asp_membership : Storage → Call ℕ
get_asp_membership s = ok_or s.asp_membership not_initialized

unfoldable pub set_asp_membership : ℕ → Storage → Storage
set_asp_membership address s = record s { asp_membership = some address }

-- `?` on a result of the tree.
abbrev pub lift_merkle {ℓ} : {A : Type ℓ} → Outcome MerkleError A → Outcome ContractError A
lift_merkle (ok a) = ok a
lift_merkle (err e) = err (from_merkle e)
lift_merkle trap = trap

-- `address.require_auth()`
abbrev pub require_auth : Host → ℕ → Call (Unit {0})
require_auth host address = if host.authorizes address then ok tt else trap

-- `event.publish(env)`
abbrev pub publish : Event → World → World
publish e w = record w { events = w.events ++ (e ∷ []) }

-- `token_client.transfer(from, to, amount)`
abbrev pub transfer : Host → Transfer → World → Call World
transfer host t w =
    if host.token_accepts w t then ok (record w { transfers = w.transfers ++ (t ∷ []) }) else trap
