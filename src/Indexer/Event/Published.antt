-- ===== src/Indexer/Event/Published.antt =====
-- The events that the contracts publish (contracts/pool/src/event.rs and
-- contracts/asp-membership/src/event.rs), read by the indexer (services/indexer/src/event).
use Prim.Native.String.{String}
use veil_contract.Prelude.{
  ℕ, ◌-◌, ◌/◌, ◌%◌, ◌^◌, ◌≡◌, ◌⊎◌, inl, inr, refl, ap, List, [], ◌∷◌, Option, none, some, ok, arith,
}
use veil_contract.Prelude.Int.{ℤ, pos, negsuc}
use veil_contract.Pool.Types
use veil_contract.Asp
use veil_contract.Indexer.Event
use veil_contract.Indexer.Event.{
  VeilEvent, Decoded, event, new_commitment_name, new_nullifier_name, settlement_name, exit_name,
  public_key_name, leaf_added_name, leaf_revoked_name,
}
use veil_contract.Indexer.Event.ScVal.{
  ScAddress, account, contract, ScVal, ScMap, no_entries, entry, scv_void, scv_u32, scv_u64,
  scv_i128, scv_u256, scv_bytes, scv_symbol, utf8, scv_address, scv_map, from_words, i128, address,
  optional_address,
}
use veil_contract.Indexer.Event.Decode.{decode}

-- The values of the host's numbers.
abbrev pub u256_val : ℕ → ScVal
u256_val v = scv_u256 (v / 2 ^ 192) (v / 2 ^ 128 % 2 ^ 64) (v / 2 ^ 64 % 2 ^ 64) (v % 2 ^ 64)

abbrev pub i128_val : ℤ → ScVal
i128_val (pos n) = scv_i128 (pos (n / 2 ^ 64)) (n % 2 ^ 64)
i128_val (negsuc n) = scv_i128 (negsuc (n / 2 ^ 64)) (2 ^ 64 - 1 - n % 2 ^ 64)

from_words_lem :
    (v : ℕ) → from_words (v / 2 ^ 192) (v / 2 ^ 128 % 2 ^ 64) (v / 2 ^ 64 % 2 ^ 64) (v % 2 ^ 64) ≡ v
from_words_lem v = omega arith

i128-i128_val : (kind field : String) (v : ℤ) → i128 kind field (i128_val v) ≡ ok v
unfolding i128
i128-i128_val kind field (pos n) = ap (λ k. ok (pos k)) (omega arith)
i128-i128_val kind field (negsuc n) = ap (λ k. ok (negsuc k)) (omega arith)

abbrev sym_val : String → ScVal
sym_val name = scv_symbol (utf8 name)

-- A map of named fields. The host keeps the fields of an event in order of their names.
abbrev pub fields_val : List (String × ScVal) → ScMap
fields_val [] = no_entries
fields_val ((name, val) ∷ fields) = entry (sym_val name) val (fields_val fields)

-- The events of the allowlist, as values: the topics and fields that event.rs declares.
abbrev pub allowlist_topics : Asp.Event → List ScVal
allowlist_topics (Asp.leaf_added leaf index root) = sym_val "LeafAdded" ∷ []
allowlist_topics (Asp.leaf_revoked leaf root) = sym_val "LeafRevoked" ∷ []

abbrev pub allowlist_body : Asp.Event → ScVal
allowlist_body (Asp.leaf_added leaf index root) =
    scv_map (
      fields_val
        (("index", scv_u64 index) ∷ ("leaf", u256_val leaf) ∷ ("root", u256_val root) ∷ []))
allowlist_body (Asp.leaf_revoked leaf root) =
    scv_map (fields_val (("leaf", u256_val leaf) ∷ ("root", u256_val root) ∷ []))

abbrev pub allowlist_event : Asp.Event → VeilEvent
allowlist_event (Asp.leaf_added leaf index root) = Event.leaf_added leaf index root
allowlist_event (Asp.leaf_revoked leaf root) = Event.leaf_revoked leaf root

-- An address is an account or a contract.
abbrev pub IsShown : ScAddress → Type 0
IsShown a = ((k : ℕ) × (a ≡ account k)) ⊎ ((k : ℕ) × (a ≡ contract k))

module _ (strkey : ScAddress → String) (sc_address : ℕ → ScAddress) where
  abbrev address_val : ℕ → ScVal
  address_val a = scv_address (sc_address a)

  abbrev optional_val : Option ℕ → ScVal
  optional_val none = scv_void
  optional_val (some a) = address_val a

  abbrev shown : ℕ → String
  shown a = strkey (sc_address a)

  abbrev optional_shown : Option ℕ → Option String
  optional_shown none = none
  optional_shown (some a) = some (shown a)

  -- The events of the pool, likewise. Where event.rs declares no topic, the first one is the name of
  -- the event in snake case, as the macro `contractevent` documents.
  abbrev pub pool_topics : Types.Event → List ScVal
  pool_topics (Types.new_commitment c index output) =
      sym_val "new_commitment_event" ∷ u256_val c ∷ []
  pool_topics (Types.new_nullifier n) = sym_val "new_nullifier_event" ∷ u256_val n ∷ []
  pool_topics (Types.settlement s) =
      sym_val "Settlement" ∷ u256_val s.nullifier ∷ address_val s.pool ∷ []
  pool_topics (Types.exited e) = sym_val "Exit" ∷ u256_val e.nullifier ∷ address_val e.pool ∷ []
  pool_topics (Types.public_key owner key note) =
      sym_val "public_key_event" ∷ address_val owner ∷ []

  abbrev pub pool_fields : Types.Event → List (String × ScVal)
  pool_fields (Types.new_commitment c index output) =
      ("encrypted_output", scv_bytes output) ∷ ("index", scv_u32 index) ∷ []
  pool_fields (Types.new_nullifier n) = []
  pool_fields (Types.settlement s) =
      ("amount_bucket", i128_val s.amount_bucket)
      ∷ ("asset", address_val s.asset)
      ∷ ("output_commitment0", u256_val s.output_commitment0)
      ∷ ("output_commitment1", u256_val s.output_commitment1)
      ∷ ("output_index0", scv_u32 s.output_index0)
      ∷ ("output_index1", scv_u32 s.output_index1)
      ∷ ("public_amount", u256_val s.public_amount)
      ∷ ("recipient", optional_val s.recipient)
      ∷ []
  pool_fields (Types.exited e) =
      ("amount_bucket", i128_val e.amount_bucket)
      ∷ ("asset", address_val e.asset)
      ∷ ("public_amount", u256_val e.public_amount)
      ∷ ("recipient", address_val e.recipient)
      ∷ []
  pool_fields (Types.public_key owner key note) =
      ("encryption_key", scv_bytes key) ∷ ("note_key", scv_bytes note) ∷ []

  abbrev pub pool_event : Types.Event → VeilEvent
  pool_event (Types.new_commitment c index output) = Event.new_commitment c index output
  pool_event (Types.new_nullifier n) = Event.new_nullifier n
  pool_event (Types.settlement s) = Event.settlement (record {
    nullifier = s.nullifier;
    pool = shown s.pool;
    output_commitment0 = s.output_commitment0;
    output_commitment1 = s.output_commitment1;
    output_index0 = s.output_index0;
    output_index1 = s.output_index1;
    amount_bucket = s.amount_bucket;
    public_amount = s.public_amount;
    recipient = optional_shown s.recipient;
    asset = shown s.asset;
  })
  pool_event (Types.exited e) = Event.exited (record {
    nullifier = e.nullifier;
    pool = shown e.pool;
    amount_bucket = e.amount_bucket;
    public_amount = e.public_amount;
    recipient = shown e.recipient;
    asset = shown e.asset;
  })
  pool_event (Types.public_key owner key note) = Event.public_key (shown owner) key note

  address-address_val :
      ((a : ℕ) → IsShown (sc_address a))
      → (kind field : String) (a : ℕ) → address strkey kind field (address_val a) ≡ ok (shown a)
  unfolding address
  address-address_val all kind field a = elim (all a) [
    | inl (k, e) ↦ rw e refl
    | inr (k, e) ↦ rw e refl
  ]

  optional-optional_val :
      ((a : ℕ) → IsShown (sc_address a))
      → (kind field : String) (o : Option ℕ)
      → optional_address strkey kind field (optional_val o) ≡ ok (optional_shown o)
  unfolding optional_address
  optional-optional_val all kind field none = refl
  optional-optional_val all kind field (some a) = rw (address-address_val all kind field a) refl

  -- Whatever the pool publishes, with the topics and fields that its event.rs declares, the indexer
  -- decodes to the event with the same fields, the addresses shown by their strkeys, if each of them
  -- is an account or a contract.
  pub decode-pool_event :
      ((a : ℕ) → IsShown (sc_address a))
      → (e : Types.Event)
      → decode strkey (pool_topics e) (scv_map (fields_val (pool_fields e)))
        ≡ ok (event (pool_event e))
  unfolding decode
  decode-pool_event all (Types.new_commitment c index output) = cc (from_words_lem c)
  decode-pool_event all (Types.new_nullifier n) = cc (from_words_lem n)
  decode-pool_event all (Types.settlement s) =
      rw
        (
          address-address_val all settlement_name "pool" s.pool,
          i128-i128_val settlement_name "amount_bucket" s.amount_bucket,
          optional-optional_val all settlement_name "recipient" s.recipient,
          address-address_val all settlement_name "asset" s.asset,
        )
        (cc (
          from_words_lem s.nullifier,
          from_words_lem s.output_commitment0,
          from_words_lem s.output_commitment1,
          from_words_lem s.public_amount,
        ))
  decode-pool_event all (Types.exited e) =
      rw
        (
          address-address_val all exit_name "pool" e.pool,
          i128-i128_val exit_name "amount_bucket" e.amount_bucket,
          address-address_val all exit_name "recipient" e.recipient,
          address-address_val all exit_name "asset" e.asset,
        )
        (cc (from_words_lem e.nullifier, from_words_lem e.public_amount))
  decode-pool_event all (Types.public_key owner key note) =
      let o = address-address_val all public_key_name "owner" owner in rw o refl

-- Whatever the allowlist publishes, with the topics and fields that its event.rs declares, the indexer
-- decodes to the event with the same fields.
pub decode-allowlist_event :
    (strkey : ScAddress → String) (e : Asp.Event)
    → decode strkey (allowlist_topics e) (allowlist_body e) ≡ ok (event (allowlist_event e))
unfolding decode
decode-allowlist_event strkey (Asp.leaf_added leaf index root) =
    cc (from_words_lem leaf, from_words_lem root)
decode-allowlist_event strkey (Asp.leaf_revoked leaf root) =
    cc (from_words_lem leaf, from_words_lem root)
