-- ===== src/Indexer/Ingest/Termination.antt =====
-- `sync_to_tip` ends (services/indexer/src/ingest.rs).
use mathlib.Core.Path.{subst}
use Prim.Native.String.{String}
use veil_contract.Prelude.{
  ℕ, zero, suc, ◌+◌, ◌-◌, ◌*◌, ◌^◌, ◌≤◌, ◌<◌, ◌≡◌, sym, ap, refl, Bool, true, false, not, ◌==◌,
  ==_iff, leb, length, ◌||◌, ◌&&◌, ◌++◌, if◌then◌else◌, List, Option, none, some, Outcome, ok, err,
  trap, >>=-eq-ok, ok-injective, passed, ran, arith, [], ◌∷◌, double_negation, inl, inr, Bool-cases,
}
use veil_contract.Indexer.Position.{EventPosition, before}
use veil_contract.Indexer.Position.RoundTrip.{IsPosition}
use veil_contract.Indexer.Position.Ordering.{before-irreflexive}
use veil_contract.Indexer.Event.{VeilEvent}
use veil_contract.Indexer.Event.ScVal.{ScAddress}
use veil_contract.Indexer.Store.{
  RawEvent, ContractEvent, StoredEvent, StoreError, Checkpoint, checkpoint, Database, same_position,
  saturating_succ,
}
use veil_contract.Indexer.Ingest.{
  Start, from_ledger, after, EventsPage, Contracts, Result, SyncReport, cursor_of, not_later,
  same_start, read_events, first_start, sync_from, Turn, turn, go_on, sync_loop, sync_to_tip, check,
  decode_event, regressed, no_events, next_start, is_ignored, store_unless, reaches_tip,
}

-- How many positions come after a start, and one more.
abbrev pub room : Start → ℕ
room (from_ledger l) = 2 ^ 96 + 1
room (after c) = 2 ^ 96 - (c.toid * 2 ^ 32 + c.event_index)

abbrev rank : EventPosition → ℕ
rank p = p.toid * 2 ^ 32 + p.event_index

before-rank :
    (p q : EventPosition) → IsPosition p → IsPosition q → before p q ≡ false → rank q ≤ rank p
unfolding before
before-rank p q (pt, pi) (qt, qi) h = ground (arith, h, pi, qi)

same_rank :
    (p q : EventPosition) → IsPosition p → IsPosition q → rank p ≡ rank q → same_position p q ≡ true
same_rank p q (pt, pi) (qt, qi) h = ground (arith, h, pi, qi)

earlier_than_both :
    (p q l : EventPosition) → before p q ≡ true → before l q ≡ false → before l p ≡ false
unfolding before
earlier_than_both p q l pq lq = ground arith

not_before_trans :
    (p q r : EventPosition) → before q p ≡ false → before r q ≡ false → before r p ≡ false
unfolding before
not_before_trans p q r pq qr = ground arith

next_start-some :
    (stops : Bool) (cursor : EventPosition) (next : Start)
    → next_start stops cursor ≡ some next
    → (stops ≡ false) × (next ≡ after cursor)
next_start-some true cursor next h = absurd cc
next_start-some false cursor next h = (refl, cc)

or_false : (a b : Bool) → (a || b) ≡ false → b ≡ false
or_false a b h = ground arith

room_le : (start : Start) (turns : ℕ) → 2 ^ 96 + 1 < turns → room start < turns
room_le (from_ledger l) turns h = omega arith
room_le (after c) turns h = omega arith

-- The position that a page's events end with is not before the start.
abbrev EndsAfter : Start → Option EventPosition → Type 0
EndsAfter (from_ledger l) o = Unit
EndsAfter (after p) o = (last : EventPosition) × (o ≡ some last) × (before last p ≡ false)

abbrev StartFits : Start → Type 0
StartFits (from_ledger l) = Unit
StartFits (after c) = IsPosition c

first_start-StartFits :
    (stream : String) (stored : Option Checkpoint) (start_ledger : Option ℕ)
    → ((c : Checkpoint) → stored ≡ some c → IsPosition c.cursor)
    → (s : Start) → first_start stream stored start_ledger ≡ ok s
    → StartFits s
unfolding first_start
first_start-StartFits stream (some c) start_ledger fits s h =
    subst StartFits (ok-injective h) (fits c refl)
first_start-StartFits stream none (some first) fits s h = subst StartFits (ok-injective h) tt
first_start-StartFits stream none none fits s h = absurd cc

room-after :
    (start : Start) (cursor : EventPosition) (o : Option EventPosition)
    → StartFits start
    → IsPosition cursor
    → EndsAfter start o
    → regressed cursor o ≡ false
    → same_start start cursor ≡ false
    → room (after cursor) < room start
room-after (from_ledger l) cursor o sf fits ends ahead moved = omega arith
room-after (after p) cursor o sf fits (last, found, forward) ahead moved =
    let onward =
      not_before_trans p last cursor forward
        (subst (λ x. regressed cursor x ≡ false) found ahead) in
    let le = before-rank cursor p fits sf onward in
    elim (Bool-cases (rank p == rank cursor)) [
      | inl same ↦ absurd (let again = same_rank p cursor sf fits ((==_iff _ _).0 same) in cc)
      | inr differs ↦ ground (arith, fits, sf, le, differs)
    ]

module _ (strkey : ScAddress → String) (contracts : Contracts) where
  -- Reading a page never goes back behind the position that it started from.
  read_events-forward :
      (events : List ContractEvent) (p : EventPosition) (batch batch' : List StoredEvent)
      (o : Option EventPosition) (skipped skipped' : ℕ)
      → read_events strkey contracts events (some p) batch skipped ≡ ok (o, batch', skipped')
      → (last : EventPosition) × (o ≡ some last) × (before last p ≡ false)
  unfolding read_events
  read_events-forward [] p batch batch' o skipped skipped' h =
      (p, ap (λ r. r.0) (ok-injective (sym h)), before-irreflexive p)
  read_events-forward (e ∷ events) p batch batch' o skipped skipped' h =
      let (later, h1) = passed (not_later (some p) e.position) _ _ h in
      let (decoded, h2, h3) = >>=-eq-ok (decode_event strkey contracts e) _ h1 in
      let (checked, h4) = ran (check contracts e decoded) _ h3 in
      let (last, found, forward) =
        read_events-forward events e.position
          (batch ++ (record { event = e; decoded = decoded } ∷ [])) batch' o
          (if is_ignored decoded then saturating_succ skipped else skipped) skipped' h4 in
      (
        last,
        found,
        earlier_than_both p e.position last (double_negation (before p e.position) later) forward,
      )

  read_events-EndsAfter :
      (events : List ContractEvent) (start : Start) (batch' : List StoredEvent)
      (o : Option EventPosition) (skipped skipped' : ℕ)
      → read_events strkey contracts events (cursor_of start) [] skipped ≡ ok (o, batch', skipped')
      → EndsAfter start o
  read_events-EndsAfter events (from_ledger l) batch' o skipped skipped' h = tt
  read_events-EndsAfter events (after p) batch' o skipped skipped' h =
      read_events-forward events p [] batch' o skipped skipped' h

  module _ {Typed : Type 0} (xdr : RawEvent → Option String)
      (insert_typed : ContractEvent → VeilEvent → Typed → Outcome StoreError Typed)
      (source : ℕ → Start → Result EventsPage) (clock : ℕ → ℕ) (stream : String) (page_size : ℕ)
      (fits : (request : ℕ) (start : Start) (page : EventsPage)
        → source request start ≡ ok page
        → IsPosition page.cursor) where
    go_on-ends :
        (t : Result (Turn strkey contracts xdr insert_typed source clock stream page_size))
        (rest : Start → SyncReport → Database Typed → Option (Result (SyncReport × Database Typed)))
        → ((next : Start) (report : SyncReport) (db : Database Typed)
            → t ≡ ok (report, db, some next)
            → (r : Result (SyncReport × Database Typed)) × (rest next report db ≡ some r))
        → (r : Result (SyncReport × Database Typed)) × (go_on strkey contracts xdr insert_typed
              source clock stream page_size t rest
            ≡ some r)
    unfolding go_on
    go_on-ends (ok (report, db, none)) rest more = (ok (report, db), refl)
    go_on-ends (ok (report, db, some next)) rest more = more next report db refl
    go_on-ends (err e) rest more = (err e, refl)
    go_on-ends trap rest more = (trap, refl)

    -- A turn that goes on goes on from a later position.
    turn_forward :
        (request : ℕ) (start next : Start) (report report' : SyncReport) (db db' : Database Typed)
        → StartFits start
        → turn strkey contracts xdr insert_typed source clock stream page_size request start report
            db
          ≡ ok (report', db', some next)
        → StartFits next × (room next < room start)
    unfolding turn
    turn_forward request start next report report' db db' sf h =
        let (page, answered, h1) = >>=-eq-ok (source request start) _ h in
        let ((previous, batch, skipped), read, h2) =
          >>=-eq-ok
            (read_events strkey contracts page.events (cursor_of start) [] report.ignored_events) _
            h1 in
        let (forward, h3) = passed (regressed page.cursor previous) _ _ h2 in
        let ((report1, db1), stored, h4) =
          >>=-eq-ok
            (store_unless strkey contracts xdr insert_typed source clock stream page_size request
              (same_start start page.cursor && no_events batch) batch
              (record { cursor = page.cursor; latest_ledger = page.latest_ledger })
              (record report { pages = saturating_succ report.pages; ignored_events = skipped }) db)
            _ h3 in
        let (not_done, to_cursor) =
          next_start-some
            ((reaches_tip page && not (leb page_size (length page.events)))
              || same_start start page.cursor)
            page.cursor next (ap (λ r. r.2) (ok-injective h4)) in
        let cursor_fits = fits request start page answered in
        (
          subst StartFits (sym to_cursor) cursor_fits,
          subst (λ n. room n < room start) (sym to_cursor)
              (room-after start page.cursor previous sf cursor_fits
                (read_events-EndsAfter page.events start batch previous report.ignored_events
                  skipped read)
                forward
                (or_false (reaches_tip page && not (leb page_size (length page.events)))
                  (same_start start page.cursor) not_done)),
        )

    -- With more turns than positions left, the loop ends.
    sync_loop-ends :
        (turns request : ℕ) (start : Start) (report : SyncReport) (db : Database Typed)
        → StartFits start
        → room start < turns
        → (r : Result (SyncReport × Database Typed)) × (sync_loop strkey contracts xdr insert_typed
              source clock stream page_size turns request start report db
            ≡ some r)
    unfolding sync_loop
    sync_loop-ends zero request start report db sf enough = absurd (omega arith)
    sync_loop-ends (suc turns) request start report db sf enough =
        go_on-ends
          (turn strkey contracts xdr insert_typed source clock stream page_size request start report
            db)
          (λ next report' db'.
            sync_loop strkey contracts xdr insert_typed source clock stream page_size turns
              (suc request) next report' db')
          (λ next report' db' went_on.
            let (fits', fewer) = turn_forward request start next report report' db db' sf went_on in
            sync_loop-ends turns (suc request) next report' db' fits' (omega arith))

    sync_from-ends :
        (turns : ℕ) (start : Result Start) (stored : Option Checkpoint) (db : Database Typed)
        → 2 ^ 96 + 1 < turns
        → ((s : Start) → start ≡ ok s → StartFits s)
        → (r : Result (SyncReport × Database Typed)) × (sync_from strkey contracts xdr insert_typed
              source clock stream page_size turns start stored db
            ≡ some r)
    unfolding sync_from
    sync_from-ends turns (ok start) stored db enough all_fit =
        sync_loop-ends turns 0 start _ db (all_fit start refl) (room_le start turns enough)
    sync_from-ends turns (err e) stored db enough all_fit = (err e, refl)
    sync_from-ends turns trap stored db enough all_fit = (trap, refl)

    -- If the cursors of the source's pages and of the stored checkpoint are positions (a `u64` and a
    -- `u32`), then `sync_to_tip` ends, whatever the source answers at each request, within one turn
    -- for each position and two more.
    pub sync_to_tip-ends :
        (turns : ℕ) (start_ledger : Option ℕ) (db : Database Typed)
        → ((c : Checkpoint) → checkpoint xdr insert_typed stream db ≡ some c → IsPosition c.cursor)
        → 2 ^ 96 + 1 < turns
        → (r : Result (SyncReport × Database Typed)) × (sync_to_tip strkey contracts xdr
              insert_typed source clock stream page_size turns start_ledger db
            ≡ some r)
    unfolding sync_to_tip
    sync_to_tip-ends turns start_ledger db stored enough =
        sync_from-ends turns
          (first_start stream (checkpoint xdr insert_typed stream db) start_ledger)
          (checkpoint xdr insert_typed stream db) db enough
          (first_start-StartFits stream (checkpoint xdr insert_typed stream db) start_ledger stored)
