-- ===== src/Indexer/Ingest/Order.antt =====
-- What a page must satisfy to be stored (the loop over a page's events and `Contracts::check` of
-- services/indexer/src/ingest.rs).
use Prim.Native.String.{String}
use mathlib.Core.List.{append_assoc, append-nil}
use text.Mathlib.TextEquality.{eq_iff}
use veil_contract.Prelude.{
  ℕ, ◌≡◌, ◌∙◌, sym, ap, refl, Bool, true, false, ◌||◌, List, [], ◌∷◌, ◌++◌, map, Option, none, some,
  Outcome, ok, err, trap, All, >>=-eq-ok, ok-injective, passed, ran, refuse_if-ok, double_negation,
  if◌then◌else◌,
}
use veil_contract.Indexer.Position.{EventPosition, before}
use veil_contract.Indexer.Event.{Decoded, event, ignored, emitter}
use veil_contract.Indexer.Event.ScVal.{ScAddress}
use veil_contract.Indexer.Event.Decode.{decode}
use veil_contract.Indexer.Store.{ContractEvent, StoredEvent, saturating_succ}
use veil_contract.Indexer.Ingest.{
  Contracts, IngestError, expected, named_pool, names_other, check, not_later, map_err,
  decode_event, is_ignored, read_events,
}

-- Each position comes after the one before it, and the first after a given one.
abbrev pub Ascending : Option EventPosition → List StoredEvent → Type 0
Ascending previous [] = Unit
Ascending none (stored ∷ batch) = Ascending (some stored.event.position) batch
Ascending (some p) (stored ∷ batch) =
    (before p stored.event.position ≡ true) × Ascending (some stored.event.position) batch

-- The event comes from the contract that emits its kind, and names no pool but the one followed.
abbrev pub IsFromEmitter : Contracts → ContractEvent → Decoded → Type 0
IsFromEmitter contracts e (ignored text) = Unit
IsFromEmitter contracts e (event veil) =
    (e.contract ≡ expected contracts (emitter veil))
    × ((pool : String) → named_pool veil ≡ some pool → pool ≡ contracts.pool)

abbrev pub IsSound : (ScAddress → String) → Contracts → StoredEvent → Type 0
IsSound strkey contracts stored =
    (decode strkey stored.event.raw.topics stored.event.raw.body ≡ ok stored.decoded)
    × IsFromEmitter contracts stored.event stored.decoded

map_err-ok :
    {A E : Type 0} (f : E → IngestError) (call : Outcome E A) (a : A)
    → map_err f call ≡ ok a
    → call ≡ ok a
map_err-ok f (ok b) a h = cc
map_err-ok f (err e) a h = absurd cc
map_err-ok f trap a h = absurd cc

names_other-none :
    (contracts : Contracts) (named : Option String)
    → names_other contracts named ≡ false
    → (pool : String) → named ≡ some pool
    → pool ≡ contracts.pool
names_other-none contracts none h pool e = absurd cc
names_other-none contracts (some p) h pool e =
    cc (e, (eq_iff p contracts.pool).0 (double_negation _ h))

neither : (a b : Bool) → (a || b) ≡ false → (a ≡ false) × (b ≡ false)
neither false b h = (refl, h)
neither true b h = absurd cc

check-IsFromEmitter :
    (contracts : Contracts) (e : ContractEvent) (decoded : Decoded)
    → check contracts e decoded ≡ ok tt
    → IsFromEmitter contracts e decoded
unfolding check
check-IsFromEmitter contracts e (ignored text) h = tt
check-IsFromEmitter contracts e (event veil) h =
    let agrees = refuse_if-ok _ _ tt h in
    (
      (eq_iff e.contract (expected contracts (emitter veil))).0
          (double_negation _ (neither _ _ agrees).0),
      names_other-none contracts (named_pool veil) (neither _ _ agrees).1,
    )

module _ (strkey : ScAddress → String) (contracts : Contracts) where
  -- What the loop over a page adds to a batch.
  record Added (events : List ContractEvent) (previous : Option EventPosition)
      (batch batch' : List StoredEvent) : Type 0 where
    added : List StoredEvent
    extends : batch' ≡ batch ++ added
    ascending : Ascending previous added
    sound : All (IsSound strkey contracts) added
    whole : map (λ stored. stored.event) added ≡ events

  Ascending-cons :
      (previous : Option EventPosition) (stored : StoredEvent) (batch : List StoredEvent)
      → not_later previous stored.event.position ≡ false
      → Ascending (some stored.event.position) batch
      → Ascending previous (stored ∷ batch)
  Ascending-cons none stored batch later rest = rest
  Ascending-cons (some p) stored batch later rest = (double_negation _ later, rest)

  read_events-Added :
      (events : List ContractEvent) (previous last : Option EventPosition)
      (batch batch' : List StoredEvent) (skipped skipped' : ℕ)
      → read_events strkey contracts events previous batch skipped ≡ ok (last, batch', skipped')
      → Added events previous batch batch'
  unfolding read_events decode_event
  read_events-Added [] previous last batch batch' skipped skipped' h = record {
    added = [];
    extends = ap (λ r. r.1) (ok-injective (sym h)) ∙ sym (append-nil batch);
    ascending = tt;
    sound = tt;
    whole = refl;
  }
  read_events-Added (e ∷ events) previous last batch batch' skipped skipped' h =
      let (later, h1) = passed (not_later previous e.position) _ _ h in
      let (decoded, decodes, h2) = >>=-eq-ok (decode_event strkey contracts e) _ h1 in
      let (checked, h3) = ran (check contracts e decoded) _ h2 in
      let stored : StoredEvent = record { event = e; decoded = decoded } in
      let up =
        read_events-Added events (some e.position) last (batch ++ (stored ∷ [])) batch'
          (if is_ignored decoded then saturating_succ skipped else skipped) skipped' h3 in
      record {
        added = stored ∷ up.added;
        extends = up.extends ∙ append_assoc batch (stored ∷ []) up.added;
        ascending = Ascending-cons previous stored up.added later up.ascending;
        sound = (
          (map_err-ok _ _ decoded decodes, check-IsFromEmitter contracts e decoded checked),
          up.sound,
        );
        whole = ap (λ rest. e ∷ rest) up.whole;
      }

  -- A page that is read gives a batch of all its events in their order, at positions that ascend from
  -- the position it starts after; each event is stored with what it decodes to, comes from the
  -- contract that emits its kind, and names no pool but the one followed.
  pub read_events_lem :
      (events : List ContractEvent) (previous last : Option EventPosition)
      (batch : List StoredEvent) (skipped skipped' : ℕ)
      → read_events strkey contracts events previous [] skipped ≡ ok (last, batch, skipped')
      → Ascending previous batch
        × All (IsSound strkey contracts) batch
        × (map (λ stored. stored.event) batch ≡ events)
  read_events_lem events previous last batch skipped skipped' h =
      let a = read_events-Added events previous last [] batch skipped skipped' h in
      rw (a.extends) (a.ascending, a.sound, a.whole)
