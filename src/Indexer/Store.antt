-- ===== src/Indexer/Store.antt =====
-- The indexer's database (services/indexer/src/store.rs, with the records of source.rs): the table of
-- events and the checkpoints. The encoding to XDR is a parameter, and so is what the database answers
-- to the row of an event's own table (`insert_typed`), over a state of its own. A time is a number,
-- and `now` is that of the transaction. A write that fails is rolled back, so a definition returns the
-- state only with a value. The `CHECK` constraints of the two tables are left out.
pub mod Idempotence
use Prim.Native.String.{String}
use text.Mathlib.Text.{◌==◌ as ◌is◌}
use veil_contract.Prelude.{
  ℕ, ◌+◌, ◌-◌, ◌^◌, Bool, true, false, not, ◌&&◌, List, [], ◌∷◌, ◌++◌, Option, none, some, Outcome,
  ok, err, refuse_if, ok_or, ◌>>=◌, ◌>>◌, ltb, leb, ◌==◌, if◌then◌else◌,
}
use veil_contract.Indexer.Position.{EventPosition, ledger, before}
use veil_contract.Indexer.Event.{VeilEvent, Decoded, event, ignored, name}
use veil_contract.Indexer.Event.ScVal.{ScVal}

pub data Source : Type 0 where
  stellar_expert rpc : Source

pub record RawEvent : Type 0 where
  pub topics : List ScVal
  pub body : ScVal

pub record ContractEvent : Type 0 where
  pub position : EventPosition
  pub contract : String
  pub source : Source
  pub raw : RawEvent

pub record StoredEvent : Type 0 where
  pub event : ContractEvent
  pub decoded : Decoded

pub record Checkpoint : Type 0 where
  pub cursor : EventPosition
  pub latest_ledger : ℕ

pub record BatchOutcome : Type 0 where
  pub inserted : ℕ
  pub already_stored : ℕ

-- The errors of libraries by a number.
pub data StoreError : Type 0 where
  database migrate : ℕ → StoreError
  locked lock_lost : StoreError
  out_of_range : String → ℕ → StoreError
  encode : EventPosition → StoreError
  conflict : EventPosition → Source → Source → StoreError
  checkpoint_regression : String → EventPosition → EventPosition → StoreError

abbrev pub Result : Type 0 → Type 0
Result A = Outcome StoreError A

-- A row of `contract_events`; the encoded topics and body are one text.
pub record Row : Type 0 where
  pub position : EventPosition
  pub contract : String
  pub source : Source
  pub name : String
  pub content : String
  pub stored_at : ℕ

-- A checkpoint stands with the time it was written at (`updated_at`).
pub record Database (Typed : Type 0) : Type 0 where
  pub rows : List Row
  pub typed : Typed
  pub checkpoints : List (String × Checkpoint × ℕ)

abbrev pub same_position : EventPosition → EventPosition → Bool
same_position p q = (p.toid == q.toid) && (p.event_index == q.event_index)

abbrev pub find_row : EventPosition → List Row → Option Row
find_row position [] = none
find_row position (row ∷ rows) =
    if same_position row.position position then some row else find_row position rows

abbrev pub find_checkpoint : String → List (String × Checkpoint × ℕ) → Option Checkpoint
find_checkpoint stream [] = none
find_checkpoint stream ((s, c, at) ∷ rest) =
    if s is stream then some c else find_checkpoint stream rest

-- `ON CONFLICT (stream) DO UPDATE`
abbrev pub upsert :
    ℕ → String → Checkpoint → List (String × Checkpoint × ℕ) → List (String × Checkpoint × ℕ)
upsert now stream checkpoint [] = (stream, checkpoint, now) ∷ []
upsert now stream checkpoint ((s, c, at) ∷ rest) =
    if s is stream
    then (s, checkpoint, now) ∷ rest
    else (s, c, at) ∷ upsert now stream checkpoint rest

unfoldable pub to_toid : EventPosition → Result (Unit {0})
to_toid position = refuse_if (leb (2 ^ 63) position.toid) (out_of_range "TOID" position.toid)

unfoldable pub to_event_index : EventPosition → Result (Unit {0})
to_event_index position =
    refuse_if (leb (2 ^ 31) position.event_index) (out_of_range "event index" position.event_index)

unfoldable pub to_ledger : ℕ → Result (Unit {0})
to_ledger sequence = refuse_if (leb (2 ^ 31) sequence) (out_of_range "ledger" sequence)

unfoldable pub decoded_name : Decoded → String
unfolding name
decoded_name (event veil) = name veil
decoded_name (ignored text) = text

abbrev pub saturating_succ : ℕ → ℕ
saturating_succ n = if ltb (n + 1) (2 ^ 64) then n + 1 else 2 ^ 64 - 1

module _ {Typed : Type 0} (xdr : RawEvent → Option String)
    (insert_typed : ContractEvent → VeilEvent → Typed → Result Typed) where
  abbrev pub add_typed : StoredEvent → Typed → Result Typed
  add_typed stored typed = elim (stored.decoded) [
    | event veil ↦ insert_typed stored.event veil typed
    | ignored text ↦ ok typed
  ]

  unfoldable pub checkpoint : String → Database Typed → Option Checkpoint
  checkpoint stream db = find_checkpoint stream db.checkpoints

  -- The stored checkpoint is later than the proposed one.
  abbrev pub regresses : Option Checkpoint → Checkpoint → Bool
  regresses none proposed = false
  regresses (some stored) proposed = before proposed.cursor stored.cursor

  module _ (now : ℕ) where
    -- The row that `insert_event` gives the database.
    abbrev pub row_of : StoredEvent → String → Row
    row_of stored content = record {
      position = stored.event.position;
      contract = stored.event.contract;
      source = stored.event.source;
      name = decoded_name stored.decoded;
      content = content;
      stored_at = now;
    }

    -- The end of `insert_event`, by the row that the table has at the position.
    unfoldable pub place_row :
        StoredEvent → String → Database Typed → Option Row → Result (Bool × Database Typed)
    unfolding decoded_name
    place_row stored content db none = add_typed stored db.typed >>= λ typed.
        ok (true, record db { rows = db.rows ++ (row_of stored content ∷ []); typed = typed })
    place_row stored content db (some row) =
        refuse_if (not ((row.contract is stored.event.contract) && (row.content is content)))
          (conflict stored.event.position row.source stored.event.source)
        >> ok (false, db)

    unfoldable pub insert_event : StoredEvent → Database Typed → Result (Bool × Database Typed)
    unfolding to_toid to_event_index to_ledger place_row ledger
    insert_event stored db = do
      let position = stored.event.position
      content ← ok_or (xdr stored.event.raw) (encode position)
      to_toid position
      to_event_index position
      to_ledger (ledger position)
      place_row stored content db (find_row position db.rows)

    -- The loop of `write_batch`, with the events left.
    unfoldable pub insert_events :
        List StoredEvent → BatchOutcome → Database Typed → Result (BatchOutcome × Database Typed)
    unfolding insert_event
    insert_events [] outcome db = ok (outcome, db)
    insert_events (stored ∷ events) outcome db = do
      (fresh, db') ← insert_event stored db
      insert_events events
          (if fresh
            then record outcome { inserted = saturating_succ outcome.inserted }
            else record outcome { already_stored = saturating_succ outcome.already_stored })
          db'

    unfoldable pub write_batch :
        String
        → List StoredEvent
        → Checkpoint
        → Database Typed
        → Result (BatchOutcome × Database Typed)
    unfolding checkpoint insert_events to_toid to_ledger before
    write_batch stream events proposed db = do
      let stored = checkpoint stream db
      refuse_if (regresses stored proposed) (elim stored [
        | none ↦ database 0
        | some c ↦ checkpoint_regression stream c.cursor proposed.cursor
      ])
      (outcome, db') ← insert_events events (record { inserted = 0; already_stored = 0 }) db
      to_toid proposed.cursor
      to_ledger proposed.latest_ledger
      ok (outcome, record db' { checkpoints = upsert now stream proposed db'.checkpoints })
