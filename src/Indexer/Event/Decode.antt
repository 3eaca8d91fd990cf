-- ===== src/Indexer/Event/Decode.antt =====
-- Decoding one event from its topics and body (services/indexer/src/event/mod.rs).
use Prim.Native.String.{String}
use text.Mathlib.Text.{◌==◌}
use veil_contract.Prelude.{List, ok, err, ◌>>=◌, ◌>>◌, if◌then◌else◌}
use veil_contract.Indexer.Event.{
  VeilEvent, new_commitment, new_nullifier, settlement, exited, legacy_deposit, public_key,
  leaf_added, leaf_revoked, new_commitment_name, new_nullifier_name, settlement_name, exit_name,
  deposit_name, public_key_name, leaf_added_name, leaf_revoked_name, executable_update, Decoded,
  event, ignored, unknown_event,
}
use veil_contract.Indexer.Event.ScVal.{
  ScAddress, ScVal, Result, Entries, fields_of, take_field, finish, event_name, topics_0, topics_1,
  topics_2, u256, u32, u64, i128, bytes, address, optional_address,
}

-- One field by its reader: what `read(E, field, f.take(field)?)?` reads, and the fields left.
unfoldable pub read_field :
    {A : Type 0}
    → (String → String → ScVal → Result A)
    → String
    → String
    → Entries
    → Result (A × Entries)
unfolding take_field
read_field reader kind field fields = do
  (val, rest) ← take_field kind field fields
  value ← reader kind field val
  ok (value, rest)

unfoldable pub decode_new_commitment : List ScVal → ScVal → Result VeilEvent
unfolding topics_1 fields_of read_field u256 u32 bytes finish
decode_new_commitment topics body = do
  let e = new_commitment_name
  topic ← topics_1 e topics
  f ← fields_of e body
  commitment ← u256 e "commitment" topic
  (index, f1) ← read_field u32 e "index" f
  (encrypted_output, f2) ← read_field bytes e "encrypted_output" f1
  finish e f2
  ok (new_commitment commitment index encrypted_output)

unfoldable pub decode_new_nullifier : List ScVal → ScVal → Result VeilEvent
unfolding topics_1 fields_of u256 finish
decode_new_nullifier topics body = do
  let e = new_nullifier_name
  topic ← topics_1 e topics
  f ← fields_of e body
  finish e f
  nullifier ← u256 e "nullifier" topic
  ok (new_nullifier nullifier)

unfoldable pub decode_leaf_added : List ScVal → ScVal → Result VeilEvent
unfolding topics_0 fields_of read_field u256 u64 finish
decode_leaf_added topics body = do
  let e = leaf_added_name
  topics_0 e topics
  f ← fields_of e body
  (leaf, f1) ← read_field u256 e "leaf" f
  (index, f2) ← read_field u64 e "index" f1
  (root, f3) ← read_field u256 e "root" f2
  finish e f3
  ok (leaf_added leaf index root)

unfoldable pub decode_leaf_revoked : List ScVal → ScVal → Result VeilEvent
unfolding topics_0 fields_of read_field u256 finish
decode_leaf_revoked topics body = do
  let e = leaf_revoked_name
  topics_0 e topics
  f ← fields_of e body
  (leaf, f1) ← read_field u256 e "leaf" f
  (root, f2) ← read_field u256 e "root" f1
  finish e f2
  ok (leaf_revoked leaf root)

module _ (strkey : ScAddress → String) where
  unfoldable pub decode_settlement : List ScVal → ScVal → Result VeilEvent
  unfolding topics_2 fields_of read_field u256 u32 i128 address optional_address finish
  decode_settlement topics body = do
    let e = settlement_name
    (topic1, topic2) ← topics_2 e topics
    f ← fields_of e body
    nullifier ← u256 e "nullifier" topic1
    pool ← address strkey e "pool" topic2
    (output_commitment0, f1) ← read_field u256 e "output_commitment0" f
    (output_commitment1, f2) ← read_field u256 e "output_commitment1" f1
    (output_index0, f3) ← read_field u32 e "output_index0" f2
    (output_index1, f4) ← read_field u32 e "output_index1" f3
    (amount_bucket, f5) ← read_field i128 e "amount_bucket" f4
    (public_amount, f6) ← read_field u256 e "public_amount" f5
    (recipient, f7) ← read_field (optional_address strkey) e "recipient" f6
    (asset, f8) ← read_field (address strkey) e "asset" f7
    finish e f8
    ok (
        settlement (record {
          nullifier = nullifier;
          pool = pool;
          output_commitment0 = output_commitment0;
          output_commitment1 = output_commitment1;
          output_index0 = output_index0;
          output_index1 = output_index1;
          amount_bucket = amount_bucket;
          public_amount = public_amount;
          recipient = recipient;
          asset = asset;
        }))

  unfoldable pub decode_exit : List ScVal → ScVal → Result VeilEvent
  unfolding topics_2 fields_of read_field u256 i128 address finish
  decode_exit topics body = do
    let e = exit_name
    (topic1, topic2) ← topics_2 e topics
    f ← fields_of e body
    nullifier ← u256 e "nullifier" topic1
    pool ← address strkey e "pool" topic2
    (amount_bucket, f1) ← read_field i128 e "amount_bucket" f
    (public_amount, f2) ← read_field u256 e "public_amount" f1
    (recipient, f3) ← read_field (address strkey) e "recipient" f2
    (asset, f4) ← read_field (address strkey) e "asset" f3
    finish e f4
    ok (
        exited (record {
          nullifier = nullifier;
          pool = pool;
          amount_bucket = amount_bucket;
          public_amount = public_amount;
          recipient = recipient;
          asset = asset;
        }))

  unfoldable pub decode_deposit : List ScVal → ScVal → Result VeilEvent
  unfolding topics_2 fields_of read_field u256 u32 i128 address finish
  decode_deposit topics body = do
    let e = deposit_name
    (topic1, topic2) ← topics_2 e topics
    f ← fields_of e body
    commitment ← u256 e "commitment" topic1
    pool ← address strkey e "pool" topic2
    (index, f1) ← read_field u32 e "index" f
    (amount_bucket, f2) ← read_field i128 e "amount_bucket" f1
    (asset, f3) ← read_field (address strkey) e "asset" f2
    finish e f3
    ok (
        legacy_deposit (record {
          commitment = commitment;
          pool = pool;
          index = index;
          amount_bucket = amount_bucket;
          asset = asset;
        }))

  unfoldable pub decode_public_key : List ScVal → ScVal → Result VeilEvent
  unfolding topics_1 fields_of read_field address bytes finish
  decode_public_key topics body = do
    let e = public_key_name
    topic ← topics_1 e topics
    f ← fields_of e body
    owner ← address strkey e "owner" topic
    (encryption_key, f1) ← read_field bytes e "encryption_key" f
    (note_key, f2) ← read_field bytes e "note_key" f1
    finish e f2
    ok (public_key owner encryption_key note_key)

  unfoldable pub decode : List ScVal → ScVal → Result Decoded
  unfolding event_name decode_new_commitment decode_new_nullifier decode_settlement decode_exit
      decode_deposit decode_public_key decode_leaf_added decode_leaf_revoked
  decode topics body = event_name topics >>= λ name.
      let seen = λ (decoded : Result VeilEvent). decoded >>= λ e. ok (event e) in
      if name == new_commitment_name
      then seen (decode_new_commitment topics body)
      else if name == new_nullifier_name
      then seen (decode_new_nullifier topics body)
      else if name == settlement_name
      then seen (decode_settlement topics body)
      else if name == exit_name
      then seen (decode_exit topics body)
      else if name == deposit_name
      then seen (decode_deposit topics body)
      else if name == public_key_name
      then seen (decode_public_key topics body)
      else if name == leaf_added_name
      then seen (decode_leaf_added topics body)
      else if name == leaf_revoked_name
      then seen (decode_leaf_revoked topics body)
      else if name == executable_update
      then ok (ignored name)
      else err (unknown_event name)
