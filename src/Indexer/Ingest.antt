-- ===== src/Indexer/Ingest.antt =====
-- Reading events page by page into the database (services/indexer/src/ingest.rs, with `Start` and
-- `EventsPage` of rpc.rs). The source is a parameter that may answer differently at each request; so
-- are the times at which the pages are written (`clock`), the encoding to XDR, the strkeys and the rows of the events' own tables.
pub mod Termination
pub mod Order
use Prim.Native.String.{String}
use text.Mathlib.Text.{◌==◌ as ◌is◌}
use veil_contract.Prelude.{
  ℕ, zero, suc, ◌+◌, ◌-◌, ◌^◌, Bool, true, false, not, ◌&&◌, ◌||◌, List, [], ◌∷◌, ◌++◌, Option,
  none, some, Outcome, ok, err, trap, refuse_if, ok_or, ◌>>=◌, ◌>>◌, length, ltb, leb, ◌==◌,
  if◌then◌else◌,
}
use veil_contract.Indexer.Position.{EventPosition, ledger, before}
use veil_contract.Indexer.Event.{
  VeilEvent, settlement, exited, legacy_deposit, Decoded, event, ignored, DecodeError, Emitter,
  from_pool, from_allowlist, emitter, name,
}
use veil_contract.Indexer.Event.ScVal.{ScAddress}
use veil_contract.Indexer.Event.Decode.{decode}
use veil_contract.Indexer.Store.{
  RawEvent, ContractEvent, StoredEvent, Checkpoint, BatchOutcome, StoreError, Database,
  same_position, saturating_succ, checkpoint, write_batch,
}

pub data Start : Type 0 where
  from_ledger : ℕ → Start
  after : EventPosition → Start

pub record EventsPage : Type 0 where
  pub events : List ContractEvent
  pub cursor : EventPosition
  pub latest_ledger : ℕ
  pub oldest_ledger : ℕ

-- `EventsPage::at_tip`
unfoldable pub reaches_tip : EventsPage → Bool
unfolding ledger
reaches_tip page = leb page.latest_ledger (ledger page.cursor)

pub record Contracts : Type 0 where
  pub pool : String
  pub allowlist : String

pub data IngestError : Type 0 where
  rpc_failed : ℕ → IngestError
  store_failed : StoreError → IngestError
  decode_failed : EventPosition → DecodeError → IngestError
  wrong_contract : EventPosition → String → String → IngestError
  out_of_order : EventPosition → EventPosition → IngestError
  cursor_regression : EventPosition → EventPosition → IngestError
  no_start : String → IngestError

abbrev pub Result {ℓ} : Type ℓ → Type ℓ
Result A = Outcome IngestError A

-- `map_err(f)?`
abbrev pub map_err {ℓ} : {E : Type 0} {A : Type ℓ} → (E → IngestError) → Outcome E A → Result A
map_err f (ok a) = ok a
map_err f (err e) = err (f e)
map_err f trap = trap

unfoldable pub expected : Contracts → Emitter → String
expected contracts from_pool = contracts.pool
expected contracts from_allowlist = contracts.allowlist

unfoldable pub named_pool : VeilEvent → Option String
named_pool (settlement s) = some s.pool
named_pool (exited e) = some e.pool
named_pool (legacy_deposit d) = some d.pool
named_pool _ = none

abbrev pub names_other : Contracts → Option String → Bool
names_other contracts none = false
names_other contracts (some pool) = not (pool is contracts.pool)

-- `Contracts::check`
unfoldable pub check : Contracts → ContractEvent → Decoded → Result (Unit {0})
unfolding expected named_pool emitter name
check contracts source_event (ignored text) = ok tt
check contracts source_event (event veil) =
    refuse_if
      (not (source_event.contract is expected contracts (emitter veil))
        || names_other contracts (named_pool veil))
      (wrong_contract source_event.position (name veil) source_event.contract)

pub record SyncReport : Type 0 where
  pub pages : ℕ
  pub inserted : ℕ
  pub already_stored : ℕ
  pub ignored_events : ℕ
  pub last_checkpoint : Option Checkpoint

-- Where `sync_to_tip` starts: after the checkpoint, or at the ledger that was given.
unfoldable pub first_start : String → Option Checkpoint → Option ℕ → Result Start
first_start stream (some c) start_ledger = ok (after c.cursor)
first_start stream none (some first) = ok (from_ledger first)
first_start stream none none = err (no_start stream)

-- A position at or before the last one.
abbrev pub not_later : Option EventPosition → EventPosition → Bool
not_later none position = false
not_later (some previous) position = not (before previous position)

abbrev pub last_or_same : Option EventPosition → EventPosition → EventPosition
last_or_same none position = position
last_or_same (some previous) position = previous

abbrev pub cursor_of : Start → Option EventPosition
cursor_of (from_ledger l) = none
cursor_of (after cursor) = some cursor

abbrev pub next_start : Bool → EventPosition → Option Start
next_start true cursor = none
next_start false cursor = some (after cursor)

abbrev pub is_ignored : Decoded → Bool
is_ignored (event veil) = false
is_ignored (ignored text) = true

-- `start == Start::After(cursor)`
abbrev pub same_start : Start → EventPosition → Bool
same_start (from_ledger l) cursor = false
same_start (after c) cursor = same_position c cursor

abbrev pub regressed : EventPosition → Option EventPosition → Bool
regressed cursor none = false
regressed cursor (some last) = before cursor last

abbrev pub no_events : List StoredEvent → Bool
no_events [] = true
no_events (stored ∷ rest) = false

abbrev pub saturating_add : ℕ → ℕ → ℕ
saturating_add a b = if ltb (a + b) (2 ^ 64) then a + b else 2 ^ 64 - 1

module _ (strkey : ScAddress → String) (contracts : Contracts) where
  -- `event.raw.decode()` with its error.
  unfoldable pub decode_event : ContractEvent → Result Decoded
  unfolding decode
  decode_event source_event =
      map_err (decode_failed source_event.position)
        (decode strkey source_event.raw.topics source_event.raw.body)

  -- The loop over a page's events, with those left: the last position, the batch and the count of
  -- ignored events after it.
  unfoldable pub read_events :
      List ContractEvent
      → Option EventPosition
      → List StoredEvent
      → ℕ
      → Result (Option EventPosition × List StoredEvent × ℕ)
  unfolding decode_event check before
  read_events [] previous batch skipped = ok (previous, batch, skipped)
  read_events (source_event ∷ events) previous batch skipped = do
    let position = source_event.position
    refuse_if (not_later previous position) (out_of_order (last_or_same previous position) position)
    decoded ← decode_event source_event
    check contracts source_event decoded
    read_events events (some position)
        (batch ++ (record { event = source_event; decoded = decoded } ∷ []))
        (if is_ignored decoded then saturating_succ skipped else skipped)

  module _ {Typed : Type 0} (xdr : RawEvent → Option String)
      (insert_typed : ContractEvent → VeilEvent → Typed → Outcome StoreError Typed)
      (source : ℕ → Start → Result EventsPage) (clock : ℕ → ℕ) (stream : String)
      (page_size : ℕ) where
    -- What one turn of the loop leaves: the report, the database, and where to go on, if it does.
    abbrev pub Turn : Type 0
    Turn = SyncReport × Database Typed × Option Start

    -- The writing of a page's batch.
    unfoldable pub store_page :
        ℕ
        → List StoredEvent
        → Checkpoint
        → SyncReport
        → Database Typed
        → Result (SyncReport × Database Typed)
    unfolding write_batch
    store_page request batch proposed report db = do
      (outcome, db') ←
          map_err store_failed
            (write_batch xdr insert_typed (clock request) stream batch proposed db)
      ok (
        record report {
          inserted = saturating_add report.inserted outcome.inserted;
          already_stored = saturating_add report.already_stored outcome.already_stored;
          last_checkpoint = some proposed;
        },
        db',
      )

    -- The same, unless there is nothing to write.
    unfoldable pub store_unless :
        ℕ
        → Bool
        → List StoredEvent
        → Checkpoint
        → SyncReport
        → Database Typed
        → Result (SyncReport × Database Typed)
    unfolding store_page
    store_unless request true batch proposed report db = ok (report, db)
    store_unless request false batch proposed report db =
        store_page request batch proposed report db

    -- One turn of the loop, at a request.
    unfoldable pub turn : ℕ → Start → SyncReport → Database Typed → Result Turn
    unfolding read_events store_unless reaches_tip before
    turn request start report db = do
      page ← source request start
      let full = leb page_size (length page.events)
      let at_tip = reaches_tip page && not full
      (previous, batch, skipped) ←
          read_events page.events (cursor_of start) [] report.ignored_events
      refuse_if (regressed page.cursor previous)
          (cursor_regression (last_or_same previous page.cursor) page.cursor)
      let proposed : Checkpoint = record {
        cursor = page.cursor;
        latest_ledger = page.latest_ledger;
      }
      let unchanged = same_start start page.cursor
      let counted : SyncReport = record report {
        pages = saturating_succ report.pages;
        ignored_events = skipped;
      }
      let nothing_new = unchanged && no_events batch
      (report', db') ← store_unless request nothing_new batch proposed counted db
      ok (report', db', next_start (at_tip || unchanged) page.cursor)

    -- What follows a turn: the end of the loop, or its next turn.
    unfoldable pub go_on :
        Result Turn
        → (Start → SyncReport → Database Typed → Option (Result (SyncReport × Database Typed)))
        → Option (Result (SyncReport × Database Typed))
    go_on (ok (report, db, none)) rest = some (ok (report, db))
    go_on (ok (report, db, some next)) rest = rest next report db
    go_on (err e) rest = some (err e)
    go_on trap rest = some trap

    -- The loop, with the turns left; `none` when there are none left.
    unfoldable pub sync_loop :
        ℕ → ℕ → Start → SyncReport → Database Typed → Option (Result (SyncReport × Database Typed))
    unfolding turn go_on
    sync_loop zero request start report db = none
    sync_loop (suc turns) request start report db =
        go_on (turn request start report db)
          (λ next report' db'. sync_loop turns (suc request) next report' db')

    unfoldable pub sync_from :
        ℕ
        → Result Start
        → Option Checkpoint
        → Database Typed
        → Option (Result (SyncReport × Database Typed))
    unfolding sync_loop
    sync_from turns (ok start) stored db =
        sync_loop turns 0 start
          (record {
            pages = 0;
            inserted = 0;
            already_stored = 0;
            ignored_events = 0;
            last_checkpoint = stored;
          })
          db
    sync_from turns (err e) stored db = some (err e)
    sync_from turns trap stored db = some trap

    unfoldable pub sync_to_tip :
        ℕ → Option ℕ → Database Typed → Option (Result (SyncReport × Database Typed))
    unfolding checkpoint first_start sync_from
    sync_to_tip turns start_ledger db =
        let stored = checkpoint xdr insert_typed stream db in
        sync_from turns (first_start stream stored start_ledger) stored db
