-- ===== src/Indexer/Position/Ordering.antt =====
-- The order of positions and the end-of-ledger cursor (services/indexer/src/position.rs and
-- `end_of_ledger` of services/indexer/src/seed.rs).
use veil_contract.Prelude.{ℕ, ◌^◌, ◌<◌, ◌≡◌, true, false, ltb, arith, ◌/◌}
use veil_contract.Indexer.Position.{EventPosition, ledger, before, end_of_ledger}
use veil_contract.Indexer.Position.RoundTrip.{IsPosition}

ledger_lem : (p : EventPosition) → IsPosition p → ledger p ≡ p.toid / 2 ^ 32
unfolding ledger
ledger_lem p fits = ground (arith, fits)

pub before_trans :
    (p q r : EventPosition) → before p q ≡ true → before q r ≡ true → before p r ≡ true
unfolding before
before_trans p q r pq qr = ground arith

pub before-irreflexive : (p : EventPosition) → before p p ≡ false
unfolding before
before-irreflexive p = ground arith

-- The end-of-ledger cursor stands before a position exactly if the position's ledger is later.
pub before-end_of_ledger :
    (l : ℕ) (p : EventPosition)
    → l < 2 ^ 32
    → IsPosition p
    → before (end_of_ledger l) p ≡ ltb l (ledger p)
unfolding before end_of_ledger
before-end_of_ledger l p small fits = ground (arith, ledger_lem p fits, fits)
