-- ===== src/Indexer/Seed.antt =====
-- The hand-off from the seed to Soroban RPC (`rpc_start` of services/indexer/src/seed.rs, with
-- `LedgerRange` of chain.rs).
use veil_contract.Prelude.{
  ℕ, ◌+◌, ◌-◌, ◌^◌, ◌≤◌, ◌⊎◌, inl, inr, refl, ◌≡◌, inl, inr, refl, Option, none, some, Outcome, ok,
  err, ltb, if◌then◌else◌,
}
use veil_contract.Indexer.Position.{ledger}
use veil_contract.Indexer.Ingest.{from_ledger, after, first_start}
use veil_contract.Indexer.Store.{StoreError, Checkpoint, Database, find_checkpoint}

pub record LedgerRange : Type 0 where
  pub latest_ledger : ℕ
  pub oldest_ledger : ℕ

pub data HandoffError : Type 0 where
  store_failed : StoreError → HandoffError
  not_seeded : HandoffError
  gap : ℕ → ℕ → HandoffError

abbrev pub larger : ℕ → ℕ → ℕ
larger a b = if ltb a b then b else a

-- `saturating_add(1)` of a `u32`.
abbrev pub next_ledger : ℕ → ℕ
next_ledger n = if ltb (n + 1) (2 ^ 32) then n + 1 else 2 ^ 32 - 1

-- From the completed seed.
unfoldable pub start_after_seed :
    Option Checkpoint → LedgerRange → ℕ → Outcome HandoffError (Option ℕ)
start_after_seed none range overlap = err not_seeded
start_after_seed (some seed) range overlap =
    if ltb (next_ledger seed.latest_ledger) range.oldest_ledger
    then err (gap seed.latest_ledger range.oldest_ledger)
    else ok (some (larger (seed.latest_ledger - overlap) range.oldest_ledger))

-- From the checkpoint of RPC, if there is one, or from the seed.
unfoldable pub start_from :
    Option Checkpoint → Option Checkpoint → LedgerRange → ℕ → Outcome HandoffError (Option ℕ)
unfolding start_after_seed
start_from (some checkpoint) seed range overlap =
    if ltb (next_ledger (ledger checkpoint.cursor)) range.oldest_ledger
    then err (gap (ledger checkpoint.cursor) range.oldest_ledger)
    else ok none
start_from none seed range overlap = start_after_seed seed range overlap

unfoldable pub rpc_start :
    {Typed : Type 0} → Database Typed → LedgerRange → ℕ → Outcome HandoffError (Option ℕ)
unfolding start_from
rpc_start db range overlap =
    start_from (find_checkpoint "rpc" db.checkpoints)
      (find_checkpoint "stellar_expert" db.checkpoints) range overlap

-- RPC is read on from its checkpoint: it still has the ledger after the checkpoint's.
pub record Resumes (at_rpc : Option Checkpoint) (range : LedgerRange) (start : Option ℕ)
    : Type 0 where
  pub stored : Checkpoint
  pub found : at_rpc ≡ some stored
  pub retained : range.oldest_ledger ≤ ledger stored.cursor + 1
  pub answer : start ≡ none
  pub first : first_start "rpc" at_rpc start ≡ ok (after stored.cursor)

-- RPC is read for the first time, from a ledger that it has and that lies the overlap before the last
-- one of the completed seed, or as near to that as RPC goes back; it still has the ledger after the
-- seed's last.
pub record Begins (at_rpc at_seed : Option Checkpoint) (range : LedgerRange) (overlap : ℕ)
    (start : Option ℕ) : Type 0 where
  pub seed : Checkpoint
  pub begin : ℕ
  pub unread : at_rpc ≡ none
  pub found : at_seed ≡ some seed
  pub retained : range.oldest_ledger ≤ seed.latest_ledger + 1
  pub answer : start ≡ some begin
  pub first : first_start "rpc" at_rpc start ≡ ok (from_ledger begin)
  pub has_begin : range.oldest_ledger ≤ begin
  pub overlaps : seed.latest_ledger ≤ begin + overlap
  pub nearest : (begin ≡ range.oldest_ledger) ⊎ (begin ≡ seed.latest_ledger - overlap)

abbrev pub HandsOff : Option Checkpoint → Option Checkpoint → LedgerRange → ℕ → Option ℕ → Type 0
HandsOff at_rpc at_seed range overlap start =
    Resumes at_rpc range start ⊎ Begins at_rpc at_seed range overlap start
