-- ===== src/Tests/Indexing.antt =====
-- The theorems on the indexer's positions, events, database and ingestion, at small inputs.
use Prim.Native.String.{String}
use text.Mathlib.Text.{◌==◌ as ◌is◌}
use mathlib.Core.Path.{subst}
use veil_contract.Prelude.{
  ℕ, ◌+◌, ◌^◌, ◌≡◌, ◌↔◌, if◌then◌else◌, false, refl, true, [], ◌∷◌, map, Option, some, none,
  Outcome, ok, All, ok-injective, arith, inl,
}
use veil_contract.Prelude.Int.{negsuc}
use veil_contract.Pool.Types
use veil_contract.Asp
use veil_contract.Indexer.Position.{EventPosition, end_of_ledger, from_str, to_string, expert_id}
use veil_contract.Indexer.Position.RoundTrip.{IsPosition, from_str-to_string}
use veil_contract.Indexer.Event.{VeilEvent, event, new_nullifier}
use veil_contract.Indexer.Event.ScVal.{
  ScVal, ScAddress, account, scv_map, scv_symbol, utf8, no_entries,
}
use veil_contract.Indexer.Event.Decode.{decode}
use veil_contract.Indexer.Event.Published.{
  pool_topics, pool_fields, fields_val, pool_event, decode-pool_event, u256_val, allowlist_topics,
  allowlist_body, allowlist_event, decode-allowlist_event,
}
use veil_contract.Indexer.Store.{
  RawEvent, ContractEvent, StoredEvent, Checkpoint, BatchOutcome, StoreError, Database, rpc,
  write_batch, checkpoint, find_checkpoint, upsert,
}
use veil_contract.Indexer.Store.Idempotence.{with_checkpoint, write_batch_twice}
use veil_contract.Indexer.Ingest.{
  Start, EventsPage, Contracts, IngestError, SyncReport, read_events, sync_to_tip,
}
use veil_contract.Indexer.Ingest.Order.{Ascending, IsSound, read_events_lem}
use veil_contract.Indexer.Ingest.Termination.{sync_to_tip-ends}
use veil_contract.Indexer.Seed.{LedgerRange, rpc_start}
use veil_contract.Indexer.Rpc.{GetEventsResult, into_page}
use veil_contract.Indexer.Rpc.IntoPage.{IsPageOf, into_page_lem}
use veil_contract.Tests.Worlds.{value_of, succeeds, succeeds-ok}

abbrev position : EventPosition
position = record { toid = 20013091605499905; event_index = 1 }

from_str-to_string_example :
    (from_str (to_string position) ≡ ok position) × (from_str (expert_id position) ≡ ok position)
from_str-to_string_example = from_str-to_string position (omega arith, omega arith)

abbrev strkey : ScAddress → String
strkey a = "G"

abbrev settled : Types.Event
settled = Types.settlement (record {
  nullifier = 2 ^ 200 + 5;
  pool = 1;
  output_commitment0 = 301;
  output_commitment1 = 302;
  output_index0 = 4;
  output_index1 = 5;
  amount_bucket = negsuc 199;
  public_amount = 2 ^ 250;
  recipient = some 3;
  asset = 2;
})

decode-pool_event_example :
    decode strkey
      (pool_topics strkey account settled)
      (scv_map (fields_val (pool_fields strkey account settled)))
    ≡ ok (event (pool_event strkey account settled))
decode-pool_event_example = decode-pool_event strkey account (λ a. inl (a, refl)) settled

abbrev nullified : ContractEvent
nullified = record {
  position = position;
  contract = "P";
  source = rpc;
  raw = record {
    topics = scv_symbol (utf8 "new_nullifier_event") ∷ u256_val 7 ∷ [];
    body = scv_map no_entries;
  };
}

abbrev stored_nullifier : StoredEvent
stored_nullifier = record { event = nullified; decoded = event (new_nullifier 7) }

abbrev followed : Contracts
followed = record { pool = "P"; allowlist = "A" }

page_read :
    read_events strkey followed (nullified ∷ []) none [] 0
    ≡ ok (some position, stored_nullifier ∷ [], 0)
unfolding read_events
page_read = refl

read_events_lem_example :
    Ascending none (stored_nullifier ∷ [])
    × All (IsSound strkey followed) (stored_nullifier ∷ [])
    × (map (λ stored. stored.event) (stored_nullifier ∷ []) ≡ nullified ∷ [])
read_events_lem_example =
    read_events_lem strkey followed (nullified ∷ []) none (some position) (stored_nullifier ∷ []) 0
      0 page_read

abbrev xdr : RawEvent → Option String
xdr raw = some "AAAA"

abbrev insert_typed : ContractEvent → VeilEvent → Unit {0} → Outcome StoreError (Unit {0})
insert_typed e veil typed = ok typed

abbrev empty_database : Database (Unit {0})
empty_database = record { rows = []; typed = tt; checkpoints = [] }

abbrev at_position : Checkpoint
at_position = record { cursor = position; latest_ledger = 4659661 }

abbrev written : BatchOutcome × Database (Unit {0})
written =
    value_of
      (write_batch xdr insert_typed 7 "rpc" (stored_nullifier ∷ []) at_position empty_database)
      (record { inserted = 0; already_stored = 0 }, empty_database)

write_succeeds :
    succeeds
      (write_batch xdr insert_typed 7 "rpc" (stored_nullifier ∷ []) at_position empty_database)
    ≡ true
unfolding write_batch
write_succeeds = refl

write_batch_twice_example :
    (o' : BatchOutcome) × (write_batch xdr insert_typed 9 "rpc"
        (stored_nullifier ∷ [])
        at_position
        written.1
      ≡ ok (o', with_checkpoint xdr insert_typed 9 "rpc" at_position written.1))
    × (o'.inserted ≡ 0)
    × ((s : String)
        → find_checkpoint s (upsert 9 "rpc" at_position written.1.checkpoints)
          ≡ find_checkpoint s written.1.checkpoints)
write_batch_twice_example =
    write_batch_twice xdr insert_typed 7 9 "rpc" (stored_nullifier ∷ []) at_position written.0
      empty_database written.1
      (succeeds-ok
        (write_batch xdr insert_typed 7 "rpc" (stored_nullifier ∷ []) at_position empty_database)
        (record { inserted = 0; already_stored = 0 }, empty_database) write_succeeds)

abbrev one_page : EventsPage
one_page = record {
  events = nullified ∷ [];
  cursor = position;
  latest_ledger = 4659661;
  oldest_ledger = 1;
}

abbrev source : ℕ → Start → Outcome IngestError EventsPage
source request start = ok one_page

abbrev clock : ℕ → ℕ
clock request = 7 + request

source_fits :
    (request : ℕ) (start : Start) (page : EventsPage)
    → source request start ≡ ok page
    → IsPosition page.cursor
source_fits request start page answered =
    subst (λ p. IsPosition p.cursor) (ok-injective answered) (omega arith, omega arith)

no_checkpoint :
    (c : Checkpoint)
    → checkpoint xdr insert_typed "rpc" empty_database ≡ some c
    → IsPosition c.cursor
unfolding checkpoint
no_checkpoint c found = absurd cc

sync_to_tip-ends_example :
    (r : Outcome IngestError (SyncReport × Database (Unit {0}))) × (sync_to_tip strkey followed xdr
        insert_typed source clock "rpc" 100
        (2 ^ 96 + 2)
        (some 4659661)
        empty_database
      ≡ some r)
sync_to_tip-ends_example =
    sync_to_tip-ends strkey followed xdr insert_typed source clock "rpc" 100 source_fits
      (2 ^ 96 + 2) (some 4659661) empty_database no_checkpoint (omega arith)

abbrev retained : LedgerRange
retained = record { latest_ledger = 4659700; oldest_ledger = 4659662 }

resumes : rpc_start written.1 retained 17280 ≡ ok none
unfolding rpc_start write_batch
resumes = refl

abbrev seeded : Database (Unit {0})
seeded = record empty_database {
  checkpoints =
      ("stellar_expert", record { cursor = end_of_ledger 4659661; latest_ledger = 4659661 }, 7)
      ∷ [];
}

abbrev long_retained : LedgerRange
long_retained = record { latest_ledger = 4659700; oldest_ledger = 4600000 }

abbrev revoked : Asp.Event
revoked = Asp.leaf_revoked 71 (2 ^ 200)

decode-allowlist_event_example :
    decode strkey (allowlist_topics revoked) (allowlist_body revoked)
    ≡ ok (event (allowlist_event revoked))
decode-allowlist_event_example = decode-allowlist_event strkey revoked

abbrev from_xdr : String → Outcome String ScVal
from_xdr text = ok (
    if text is "topic0"
    then scv_symbol (utf8 "new_nullifier_event")
    else if text is "topic1"
    then u256_val 7
    else scv_map no_entries)

-- An event of a call that failed, and one of a call that did not.
abbrev answer : GetEventsResult
answer = record {
  events =
      record {
        id = [];
        ledger = 0;
        contract_id = "Q";
        topic = [];
        value = "";
        in_successful_contract_call = some false;
      }
      ∷ record {
        id = to_string position;
        ledger = 4659661;
        contract_id = "P";
        topic = "topic0" ∷ "topic1" ∷ [];
        value = "body";
        in_successful_contract_call = none;
      }
      ∷ [];
  cursor = to_string position;
  latest_ledger = 4659661;
  oldest_ledger = 1;
}

answer_read : into_page from_xdr ("A" ∷ "P" ∷ []) answer ≡ ok one_page
unfolding into_page to_string
answer_read = refl

into_page_lem_example :
    (into_page from_xdr ("A" ∷ "P" ∷ []) answer ≡ ok one_page)
    ↔ IsPageOf from_xdr ("A" ∷ "P" ∷ []) answer one_page
into_page_lem_example = into_page_lem from_xdr ("A" ∷ "P" ∷ []) answer one_page
