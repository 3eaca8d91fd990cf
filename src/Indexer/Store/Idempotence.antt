-- ===== src/Indexer/Store/Idempotence.antt =====
-- Writing a batch twice (`write_batch` of services/indexer/src/store.rs).
use mathlib.Core.Path.{subst}
use Prim.Native.String.{String}
use text.Mathlib.Text.{◌==◌ as ◌is◌}
use text.Mathlib.TextPositions.{eq_refl}
use veil_contract.Prelude.{
  ℕ, double_negation, ◌≡◌, ◌∙◌, sym, ap, refl, Bool, true, false, not, ◌&&◌, List, [], ◌∷◌, ◌++◌,
  Option, none, some, ok, ok_or, >>=-eq-ok, ok-injective, ok_or-eq-ok, All, ran, passed, arith,
}
use veil_contract.Indexer.Position.{EventPosition, ledger}
use veil_contract.Indexer.Position.Ordering.{before-irreflexive}
use veil_contract.Indexer.Event.{VeilEvent}
use veil_contract.Indexer.Store.{
  RawEvent, ContractEvent, StoredEvent, Checkpoint, BatchOutcome, Result, Row, Database, find_row,
  same_position, find_checkpoint, upsert, to_toid, to_event_index, to_ledger, row_of, add_typed,
  insert_event, insert_events, place_row, checkpoint, regresses, write_batch, saturating_succ,
  encode,
}

-- Every row found stays found.
abbrev Kept : List Row → List Row → Type 0
Kept rows rows' =
    (position : EventPosition) (row : Row)
    → find_row position rows ≡ some row
    → find_row position rows' ≡ some row

find_row-append :
    (position : EventPosition) (rows : List Row) (added : Row)
    → find_row position rows ≡ none
    → same_position added.position position ≡ true
    → find_row position (rows ++ (added ∷ [])) ≡ some added
find_row-append position [] added missing same = ground arith
find_row-append position (row ∷ rows) added missing same =
    let rest = find_row-append position rows added in ground arith

Kept-append : (rows : List Row) (added : Row) → Kept rows (rows ++ (added ∷ []))
Kept-append [] added position row found = absurd cc
Kept-append (r ∷ rows) added position row found =
    let rest = Kept-append rows added position row in ground arith

same_position_refl : (p : EventPosition) → same_position p p ≡ true
same_position_refl p = ground arith

module _ {Typed : Type 0} (xdr : RawEvent → Option String)
    (insert_typed : ContractEvent → VeilEvent → Typed → Result Typed) where
  -- The event stands in the table, with the content that it would be given.
  record Stored (stored : StoredEvent) (rows : List Row) : Type 0 where
    content : String
    row : Row
    encoded : xdr stored.event.raw ≡ some content
    toid_fits : to_toid stored.event.position ≡ ok tt
    index_fits : to_event_index stored.event.position ≡ ok tt
    ledger_fits : to_ledger (ledger stored.event.position) ≡ ok tt
    found : find_row stored.event.position rows ≡ some row
    same : ((row.contract is stored.event.contract) && (row.content is content)) ≡ true

  Stored-Kept :
      (stored : StoredEvent) (rows rows' : List Row)
      → Kept rows rows'
      → Stored stored rows
      → Stored stored rows'
  Stored-Kept stored rows rows' kept s = record {
    content = s.content;
    row = s.row;
    encoded = s.encoded;
    toid_fits = s.toid_fits;
    index_fits = s.index_fits;
    ledger_fits = s.ledger_fits;
    found = kept stored.event.position s.row s.found;
    same = s.same;
  }

  AllStored : List StoredEvent → List Row → Type 0
  AllStored events rows = All (λ stored. Stored stored rows) events

  module _ (now : ℕ) where
    insert_again :
        (stored : StoredEvent) (db : Database Typed)
        → Stored stored db.rows
        → insert_event xdr insert_typed now stored db ≡ ok (false, db)
    unfolding insert_event
    insert_again stored db s =
        rw (s.encoded, s.toid_fits, s.index_fits, s.ledger_fits, s.found, s.same) refl

    place_row-Stored :
        (stored : StoredEvent) (content : String) (fresh : Bool) (db db' : Database Typed)
        (o : Option Row)
        → find_row stored.event.position db.rows ≡ o
        → place_row xdr insert_typed now stored content db o ≡ ok (fresh, db')
        → (row : Row) × (find_row stored.event.position db'.rows ≡ some row)
          × (((row.contract is stored.event.contract) && (row.content is content)) ≡ true)
          × Kept db.rows db'.rows
          × (db'.checkpoints ≡ db.checkpoints)
    unfolding place_row
    place_row-Stored stored content fresh db db' none missing h =
        let (typed, added, written) = >>=-eq-ok (add_typed xdr insert_typed stored db.typed) _ h in
        let row = row_of xdr insert_typed now stored content in
        let rows' : db'.rows ≡ db.rows ++ (row ∷ []) =
          ap (λ r. r.1.rows) (ok-injective (sym written)) in
        let kept : db'.checkpoints ≡ db.checkpoints =
          ap (λ r. r.1.checkpoints) (ok-injective (sym written)) in
        (
          row,
          rw rows' (
              find_row-append stored.event.position db.rows row missing
                (same_position_refl stored.event.position)),
          rw (eq_refl stored.event.contract, eq_refl content) refl,
          rw rows' (Kept-append db.rows row),
          kept,
        )
    place_row-Stored stored content fresh db db' (some row) found h =
        let (agrees, unchanged) =
          passed (not ((row.contract is stored.event.contract) && (row.content is content))) _ _
            h in
        let rows' : db'.rows ≡ db.rows = ap (λ r. r.1.rows) (ok-injective (sym unchanged)) in
        let kept : db'.checkpoints ≡ db.checkpoints =
          ap (λ r. r.1.checkpoints) (ok-injective (sym unchanged)) in
        (row, rw rows' found, double_negation _ agrees, rw rows' (λ p r f. f), kept)

    -- An event that was written stands in the table, with every row of before, and no checkpoint moved.
    insert_event-Stored :
        (stored : StoredEvent) (fresh : Bool) (db db' : Database Typed)
        → insert_event xdr insert_typed now stored db ≡ ok (fresh, db')
        → Stored stored db'.rows × Kept db.rows db'.rows × (db'.checkpoints ≡ db.checkpoints)
    unfolding insert_event
    insert_event-Stored stored fresh db db' h =
        let (content, encoded, h1) =
          >>=-eq-ok (ok_or (xdr stored.event.raw) (encode stored.event.position)) _ h in
        let (toid_fits, h2) = ran (to_toid stored.event.position) _ h1 in
        let (index_fits, h3) = ran (to_event_index stored.event.position) _ h2 in
        let (ledger_fits, h4) = ran (to_ledger (ledger stored.event.position)) _ h3 in
        let (row, found, same, kept, still) =
          place_row-Stored stored content fresh db db' (find_row stored.event.position db.rows) refl
            h4 in
        (
          record {
            content = content;
            row = row;
            encoded = ok_or-eq-ok (xdr stored.event.raw) _ encoded;
            toid_fits = toid_fits;
            index_fits = index_fits;
            ledger_fits = ledger_fits;
            found = found;
            same = same;
          },
          kept,
          still,
        )

    insert_events-Stored :
        (events : List StoredEvent) (o o' : BatchOutcome) (db db' : Database Typed)
        → insert_events xdr insert_typed now events o db ≡ ok (o', db')
        → AllStored events db'.rows × Kept db.rows db'.rows × (db'.checkpoints ≡ db.checkpoints)
    unfolding insert_events AllStored
    insert_events-Stored [] o o' db db' h =
        let same = ap (λ r. r.1) (ok-injective h) in
        (tt, rw (← ap (λ d. d.rows) same) (λ p r f. f), ap (λ d. d.checkpoints) (sym same))
    insert_events-Stored (stored ∷ events) o o' db db' h =
        let ((fresh, middle), first, rest) =
          >>=-eq-ok (insert_event xdr insert_typed now stored db) _ h in
        let (here, kept, still) = insert_event-Stored stored fresh db middle first in
        let (others, kept', still') = insert_events-Stored events _ o' middle db' rest in
        (
          (Stored-Kept stored middle.rows db'.rows kept' here, others),
          (λ p r f. kept' p r (kept p r f)),
          still' ∙ still,
        )

    -- A batch whose events all stand in the table inserts none.
    insert_events_again :
        (events : List StoredEvent) (o : BatchOutcome) (db : Database Typed)
        → AllStored events db.rows
        → (o' : BatchOutcome) × (insert_events xdr insert_typed now events o db ≡ ok (o', db))
          × (o'.inserted ≡ o.inserted)
    unfolding insert_events AllStored
    insert_events_again [] o db all = (o, refl, refl)
    insert_events_again (stored ∷ events) o db all =
        let (o', ran_again, none_new) =
          insert_events_again events
            (record o { already_stored = saturating_succ o.already_stored }) db all.1 in
        (o', rw (insert_again stored db all.0) ran_again, none_new)

-- A checkpoint written again stands where it stood, with the later time.
upsert_twice :
    (now later : ℕ) (stream : String) (c : Checkpoint) (m : List (String × Checkpoint × ℕ))
    → (s : String)
    → find_checkpoint s (upsert later stream c (upsert now stream c m))
      ≡ find_checkpoint s (upsert now stream c m)
upsert_twice now later stream c [] s = rw (eq_refl stream) refl
upsert_twice now later stream c ((t, old, at) ∷ m) s =
    ground (arith, upsert_twice now later stream c m s)

find_checkpoint-upsert :
    (now : ℕ) (stream : String) (c : Checkpoint) (m : List (String × Checkpoint × ℕ))
    → find_checkpoint stream (upsert now stream c m) ≡ some c
find_checkpoint-upsert now stream c [] = rw (eq_refl stream) refl
find_checkpoint-upsert now stream c ((s, old, at) ∷ m) =
    ground (arith, find_checkpoint-upsert now stream c m)

module _ {Typed : Type 0} (xdr : RawEvent → Option String)
    (insert_typed : ContractEvent → VeilEvent → Typed → Result Typed) where
  -- The database after a checkpoint has been written to it.
  abbrev pub with_checkpoint : ℕ → String → Checkpoint → Database Typed → Database Typed
  with_checkpoint now stream proposed db = record db {
    checkpoints = upsert now stream proposed db.checkpoints;
  }

  write_batch_again :
      (now later : ℕ) (stream : String) (events : List StoredEvent) (proposed : Checkpoint)
      (d : Database Typed)
      → AllStored xdr insert_typed events d.rows
      → to_toid proposed.cursor ≡ ok tt
      → to_ledger proposed.latest_ledger ≡ ok tt
      → let db = with_checkpoint now stream proposed d in
        (o' : BatchOutcome) × (write_batch xdr insert_typed later stream events proposed db
          ≡ ok (o', with_checkpoint later stream proposed db))
        × (o'.inserted ≡ 0)
  unfolding write_batch
  write_batch_again now later stream events proposed d all toid_fits ledger_fits =
      let db : Database Typed = with_checkpoint now stream proposed d in
      let (o', again, none_new) =
        insert_events_again xdr insert_typed later events
          (record { inserted = 0; already_stored = 0 }) db all in
      (
        o',
        rw
            (
              find_checkpoint-upsert now stream proposed d.checkpoints,
              before-irreflexive proposed.cursor,
              again,
              toid_fits,
              ledger_fits,
            )
            refl,
        none_new,
      )

  -- A batch that was written can be written again, at any time: the second time it inserts no event
  -- and leaves the tables of events as they were, and every stream's checkpoint too; what it writes is
  -- the row of its own stream's checkpoint, with the same checkpoint and the new time.
  pub write_batch_twice :
      (now later : ℕ) (stream : String) (events : List StoredEvent) (proposed : Checkpoint)
      (o : BatchOutcome) (db db' : Database Typed)
      → write_batch xdr insert_typed now stream events proposed db ≡ ok (o, db')
      → (o' : BatchOutcome) × (write_batch xdr insert_typed later stream events proposed db'
          ≡ ok (o', with_checkpoint later stream proposed db'))
        × (o'.inserted ≡ 0)
        × ((s : String)
            → find_checkpoint s (upsert later stream proposed db'.checkpoints)
              ≡ find_checkpoint s db'.checkpoints)
  unfolding write_batch
  write_batch_twice now later stream events proposed o db db' h =
      let (allowed, h1) =
        passed (regresses xdr insert_typed (checkpoint xdr insert_typed stream db) proposed) _ _
          h in
      let ((o1, d), inserted, h2) =
        >>=-eq-ok (insert_events xdr insert_typed now events _ db) _ h1 in
      let (toid_fits, h3) = ran (to_toid proposed.cursor) _ h2 in
      let (ledger_fits, h4) = ran (to_ledger proposed.latest_ledger) _ h3 in
      let (all, kept, still) =
        insert_events-Stored xdr insert_typed now events _ o1 db d inserted in
      let (o', again, none_new) =
        write_batch_again now later stream events proposed d all toid_fits ledger_fits in
      subst
        (λ (x : Database Typed).
          (o' : BatchOutcome) × (write_batch xdr insert_typed later stream events proposed x
            ≡ ok (o', with_checkpoint later stream proposed x))
          × (o'.inserted ≡ 0)
          × ((s : String)
              → find_checkpoint s (upsert later stream proposed x.checkpoints)
                ≡ find_checkpoint s x.checkpoints))
        (ap (λ r. r.1) (ok-injective h4))
        (o', again, none_new, upsert_twice now later stream proposed d.checkpoints)
