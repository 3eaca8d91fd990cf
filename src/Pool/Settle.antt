-- ===== src/Pool/Settle.antt =====
-- The shielded-transaction pipeline of the pool contract (`settle` and its helpers in
-- contracts/pool/src/contract.rs, and contracts/pool/src/verifier_boundary.rs). `settle` is cut into
-- its numbered steps; a check takes the storage, and a step that writes returns what it has written.
pub mod Checks
pub mod Effects
pub mod Trace
use veil_contract.Prelude.{
  ℕ, ◌%◌, Bool, true, false, not, ◌||◌, List, [], ◌∷◌, ◌++◌, Option, some, none, NatMap, update,
  empty_map, length, replicate, leb, ◌==◌, if◌then◌else◌, Outcome, ok, err, trap, ok_or, or_trap,
  refuse_if, ◌>>=◌, ◌>>◌,
}
use veil_contract.Prelude.Int.{ℤ, pos, ltb_ℤ}
use veil_contract.Field.{bn256_modulus}
use veil_contract.Pool.Merkle.{Store, is_known_root, insert_two_leaves}
use veil_contract.Pool.Types.{
  ContractError, invalid_field_element, unknown_root, already_spent_nullifier, wrong_ext_hash,
  wrong_ext_amount, invalid_proof, overflow, already_inserted_commitment, is_empty, Proof, ExtData,
  Event, new_commitment, new_nullifier, settlement, exited, Storage, Transfer, World, Host,
}
use veil_contract.Pool.Storage.{
  Call, get_nullifiers, set_nullifiers, get_commitments, set_commitments, get_token, get_verifier,
  get_fee_recipient, get_fee_bps, get_asp_membership, lift_merkle, publish, transfer,
}
use veil_contract.Pool.Amount.{
  calculate_public_amount, calculate_fee_amount, i256_to_i128_nonneg, zero_sub, to_i128,
  checked_sub,
}

unfoldable pub ensure_field_element : ℕ → Call (Unit {0})
ensure_field_element value = refuse_if (leb bn256_modulus value) invalid_field_element

unfoldable pub ensure_field_elements : List ℕ → Call (Unit {0})
ensure_field_elements [] = ok tt
ensure_field_elements (value ∷ values) = ensure_field_element value >> ensure_field_elements values

unfoldable pub ensure_proof_field_elements : Proof → Call (Unit {0})
ensure_proof_field_elements proof = do
  ensure_field_element proof.root
  ensure_field_element proof.public_amount
  ensure_field_elements proof.input_nullifiers
  ensure_field_element proof.output_commitment0
  ensure_field_element proof.output_commitment1
  ensure_field_element proof.asp_membership_root

-- `map.get(key).unwrap_or(false)`
abbrev pub unwrap_or_false : Option Bool → Bool
unwrap_or_false none = false
unwrap_or_false (some b) = b

abbrev pub has_mark : NatMap Bool → ℕ → Bool
has_mark m key = unwrap_or_false (m key)

unfoldable pub is_spent : ℕ → Storage → Call Bool
unfolding get_nullifiers
is_spent n s = do nulls ← get_nullifiers s; ok (has_mark nulls n)

unfoldable pub is_commitment_inserted : ℕ → Storage → Call Bool
unfolding get_commitments
is_commitment_inserted commitment s = do
  commitments ← get_commitments s
  ok (has_mark commitments commitment)

unfoldable pub ensure_commitment_unused : ℕ → Storage → Call (Unit {0})
unfolding is_commitment_inserted
ensure_commitment_unused commitment s = do
  inserted ← is_commitment_inserted commitment s
  refuse_if inserted already_inserted_commitment

unfoldable pub mark_commitment_inserted : ℕ → Storage → Call Storage
unfolding get_commitments set_commitments
mark_commitment_inserted commitment s = do
  commitments ← get_commitments s
  ok (set_commitments (update commitments commitment true) s)

-- The loop of `ensure_nullifiers_unspent`.
unfoldable pub all_unspent : NatMap Bool → NatMap Bool → List ℕ → Call (Unit {0})
all_unspent stored seen [] = ok tt
all_unspent stored seen (nullifier ∷ nullifiers) =
    refuse_if (has_mark stored nullifier || has_mark seen nullifier) already_spent_nullifier
    >> all_unspent stored (update seen nullifier true) nullifiers

unfoldable pub ensure_nullifiers_unspent : List ℕ → Storage → Call (Unit {0})
unfolding get_nullifiers
ensure_nullifiers_unspent nullifiers s = do
  stored ← get_nullifiers s
  all_unspent stored empty_map nullifiers

-- The loop of `spend_nullifiers_once`.
unfoldable pub mark_all : NatMap Bool → List ℕ → NatMap Bool
mark_all stored [] = stored
mark_all stored (nullifier ∷ nullifiers) = mark_all (update stored nullifier true) nullifiers

unfoldable pub spend_nullifiers_once : List ℕ → Storage → Call Storage
unfolding get_nullifiers set_nullifiers
spend_nullifiers_once nullifiers s = do
  ensure_nullifiers_unspent nullifiers s
  stored ← get_nullifiers s
  ok (set_nullifiers (mark_all stored nullifiers) s)

unfoldable pub hash_ext_data : Host → ExtData → ℕ
hash_ext_data host ext = host.ext_data_digest ext % bn256_modulus

unfoldable pub get_asp_membership_root : Host → Storage → Call ℕ
unfolding get_asp_membership
get_asp_membership_root host s = do
  asp_address ← get_asp_membership s
  or_trap (host.asp_root asp_address)

-- `VerifierPublicInputs::from_proof`. `fr_from_u256` keeps the value of a field element.
unfoldable pub public_inputs : Proof → List ℕ
public_inputs proof =
    proof.root
    ∷ proof.public_amount
    ∷ proof.ext_data_hash
    ∷ (proof.input_nullifiers
        ++ (proof.output_commitment0
            ∷ proof.output_commitment1
            ∷ replicate (length proof.input_nullifiers) proof.asp_membership_root))

-- `verify_proof` with `verify_policy_transaction`.
unfoldable pub verify_proof : Host → Proof → Storage → Call Bool
unfolding get_verifier
verify_proof host proof s = do
  refuse_if (is_empty proof.proof) invalid_proof
  verifier ← get_verifier s
  or_trap (host.verifies verifier proof.proof (public_inputs proof))

-- The checks that guard every spend: the field check and steps 1 to 6.
unfoldable pub check_spend : Host → Proof → ExtData → Storage → Call (Unit {0})
check_spend host proof ext_data s = do
  ensure_proof_field_elements proof
  known ← lift_merkle (is_known_root proof.root s.tree)
  refuse_if (not known) unknown_root
  ensure_nullifiers_unspent proof.input_nullifiers s
  refuse_if (not (hash_ext_data host ext_data == proof.ext_data_hash)) wrong_ext_hash
  expected_public_amount ← calculate_public_amount ext_data.ext_amount
  refuse_if (not (proof.public_amount == expected_public_amount)) wrong_ext_amount
  member_root ← get_asp_membership_root host s
  refuse_if (not (member_root == proof.asp_membership_root)) invalid_proof
  verified ← verify_proof host proof s
  refuse_if (not verified) invalid_proof

-- `if insert_outputs { .. }` ahead of step 7.
unfoldable pub check_outputs : Bool → Proof → Storage → Call (Unit {0})
check_outputs false proof s = ok tt
check_outputs true proof s = do
  ensure_commitment_unused proof.output_commitment0 s
  ensure_commitment_unused proof.output_commitment1 s
  refuse_if (proof.output_commitment0 == proof.output_commitment1) already_inserted_commitment

-- The event loop of step 7.
unfoldable pub publish_nullifiers : List ℕ → World → World
publish_nullifiers [] w = w
publish_nullifiers (n ∷ nullifiers) w = publish_nullifiers nullifiers (publish (new_nullifier n) w)

-- Step 8: what a withdrawal pays to its recipient, and the fee.
unfoldable pub payout_of : ExtData → Storage → Call (Option (ℤ × ℤ))
unfolding get_fee_bps
payout_of ext_data s =
    if ltb_ℤ ext_data.ext_amount (pos 0)
    then (do
      abs ← zero_sub ext_data.ext_amount
      amount ← i256_to_i128_nonneg abs
      fee_bps ← get_fee_bps s
      fee ← calculate_fee_amount amount fee_bps
      recipient_amount ← ok_or (checked_sub amount fee) overflow
      ok (some (recipient_amount, fee)))
    else ok none

-- Step 9.
unfoldable pub insert_outputs : Host → Bool → Proof → Storage → Call (Option (ℕ × ℕ) × Storage)
insert_outputs host false proof s = ok (none, s)
insert_outputs host true proof s = do
  (indices, tree) ←
      lift_merkle (
        insert_two_leaves host.permutation proof.output_commitment0 proof.output_commitment1 s.tree)
  s1 ← mark_commitment_inserted proof.output_commitment0 (record s { tree = tree })
  s2 ← mark_commitment_inserted proof.output_commitment1 s1
  ok (some indices, s2)

-- `token_client.transfer(&this, to, amount)`
abbrev pub pool_pays : Host → ℕ → ℕ → ℤ → Transfer
pool_pays host token to amount = record {
  token = token;
  from = host.current_contract_address;
  to = to;
  amount = amount;
}

abbrev pub pay_if : Host → Bool → Transfer → World → Call World
pay_if host condition t w = if condition then transfer host t w else ok w

-- The payments, once every state change is committed.
unfoldable pub pay_out : Host → ℕ → ExtData → Option (ℤ × ℤ) → World → Call World
unfolding get_fee_recipient
pay_out host token ext_data none w = ok w
pay_out host token ext_data (some (recipient_amount, fee)) w = do
  w1 ←
      pay_if host (ltb_ℤ (pos 0) recipient_amount)
        (pool_pays host token ext_data.recipient recipient_amount) w
  (if ltb_ℤ (pos 0) fee
      then (do
        fee_recipient ← get_fee_recipient w1.storage
        transfer host (pool_pays host token fee_recipient fee) w1)
      else ok w1)

-- Steps 10 and 11: one event per nullifier, for the exit path or after the two commitments.
unfoldable pub publish_exits : Host → Proof → ExtData → ℕ → ℤ → List ℕ → World → World
publish_exits host proof ext_data token amount_bucket [] w = w
publish_exits host proof ext_data token amount_bucket (n ∷ ns) w =
    publish_exits host proof ext_data token amount_bucket ns (
      publish
        (exited (record {
          nullifier = n;
          pool = host.current_contract_address;
          amount_bucket = amount_bucket;
          public_amount = proof.public_amount;
          recipient = ext_data.recipient;
          asset = token;
        }))
        w)

unfoldable pub publish_settlements :
    Host → Proof → Option ℕ → ℕ → ℤ → ℕ × ℕ → List ℕ → World → World
publish_settlements host proof recipient token amount_bucket (idx_0, idx_1) [] w = w
publish_settlements host proof recipient token amount_bucket (idx_0, idx_1) (n ∷ ns) w =
    publish_settlements host proof recipient token amount_bucket (idx_0, idx_1) ns
      (publish
        (settlement (record {
          nullifier = n;
          pool = host.current_contract_address;
          output_commitment0 = proof.output_commitment0;
          output_commitment1 = proof.output_commitment1;
          output_index0 = idx_0;
          output_index1 = idx_1;
          amount_bucket = amount_bucket;
          public_amount = proof.public_amount;
          recipient = recipient;
          asset = token;
        }))
        w)

-- `payout.map(|_| ext_data.recipient)`
abbrev pub withdrawal_recipient : Option (ℤ × ℤ) → ExtData → Option ℕ
withdrawal_recipient none ext_data = none
withdrawal_recipient (some _) ext_data = some ext_data.recipient

unfoldable pub announce :
    Host → Proof → ExtData → ℕ → ℤ → Option (ℤ × ℤ) → Option (ℕ × ℕ) → World → World
announce host proof ext_data token amount_bucket payout none w =
    publish_exits host proof ext_data token amount_bucket proof.input_nullifiers w
announce host proof ext_data token amount_bucket payout (some (idx_0, idx_1)) w =
    publish_settlements host proof (withdrawal_recipient payout ext_data) token amount_bucket
      (idx_0, idx_1) proof.input_nullifiers
      (publish (new_commitment proof.output_commitment1 idx_1 ext_data.encrypted_output1)
        (publish (new_commitment proof.output_commitment0 idx_0 ext_data.encrypted_output0) w))

unfoldable pub settle : Host → Proof → ExtData → Bool → World → Call World
settle host proof ext_data insert w = do
  check_spend host proof ext_data w.storage
  check_outputs insert proof w.storage
  spent ← spend_nullifiers_once proof.input_nullifiers w.storage
  let w1 = publish_nullifiers proof.input_nullifiers (record w { storage = spent })
  token ← get_token w1.storage
  payout ← payout_of ext_data w1.storage
  (inserted, s2) ← insert_outputs host insert proof w1.storage
  w3 ← pay_out host token ext_data payout (record w1 { storage = s2 })
  amount_bucket ← ok_or (to_i128 ext_data.ext_amount) wrong_ext_amount
  ok (announce host proof ext_data token amount_bucket payout inserted w3)
