-- ===== src/Indexer/Rpc.antt =====
-- A page of events as Soroban RPC answers it (services/indexer/src/rpc.rs: `GetEventsResult`,
-- `RpcEvent`, `into_page` and the delay between attempts, with `RawEvent::from_base64` of
-- event/mod.rs). The reading of base64 XDR is a parameter. A delay is its number of nanoseconds.
pub mod IntoPage
use Prim.Native.String.{String}
use text.Mathlib.Text.{◌==◌ as ◌is◌}
use veil_contract.Prelude.{
  ℕ, ◌-◌, ◌*◌, ◌^◌, Bool, true, false, not, ◌&&◌, ◌||◌, List, [], ◌∷◌, Option, none, some, Outcome,
  ok, err, trap, refuse_if, ◌>>=◌, ◌>>◌, ltb, ◌==◌, if◌then◌else◌,
}
use veil_contract.Prelude.Int.{ℤ}
use veil_contract.Indexer.Position.{EventPosition, ledger, ParsePositionError, from_str}
use veil_contract.Indexer.Event.{DecodeError, bad_xdr}
use veil_contract.Indexer.Event.ScVal.{ScVal}
use veil_contract.Indexer.Store.{RawEvent, ContractEvent, rpc}
use veil_contract.Indexer.Ingest.{EventsPage}

-- The errors of libraries by a number.
pub data RpcError : Type 0 where
  transport : String → ℕ → ℕ → RpcError
  status : String → ℕ → ℕ → RpcError
  refused : ℤ → String → RpcError
  empty_response : RpcError
  unexpected_contract : List ℕ → String → RpcError
  ledger_mismatch : List ℕ → ℕ → ℕ → RpcError
  bad_position : ParsePositionError → RpcError
  undecoded : List ℕ → DecodeError → RpcError
  page_size : ℕ → RpcError

pub record RpcEvent : Type 0 where
  pub id : List ℕ
  pub ledger : ℕ
  pub contract_id : String
  pub topic : List String
  pub value : String
  pub in_successful_contract_call : Option Bool

pub record GetEventsResult : Type 0 where
  pub events : List RpcEvent
  pub cursor : List ℕ
  pub latest_ledger : ℕ
  pub oldest_ledger : ℕ

abbrev pub Result : Type 0 → Type 0
Result A = Outcome RpcError A

-- `map_err(f)?`
abbrev pub map_err : {E A : Type 0} → (E → RpcError) → Outcome E A → Result A
map_err f (ok a) = ok a
map_err f (err e) = err (f e)
map_err f trap = trap

-- `in_successful_contract_call == Some(false)`
abbrev pub call_failed : Option Bool → Bool
call_failed none = false
call_failed (some succeeded) = not succeeded

unfoldable pub contains : List String → String → Bool
contains [] contract = false
contains (c ∷ contracts) contract = (c is contract) || contains contracts contract

module _ (from_xdr_base64 : String → Outcome String ScVal) where
  -- The closure `read` of `from_base64`.
  unfoldable pub read : String → String → Outcome DecodeError ScVal
  read part text = elim (from_xdr_base64 text) [
    | ok val ↦ ok val
    | err reason ↦ err (bad_xdr part reason)
    | trap ↦ trap
  ]

  unfoldable pub read_topics : List String → Outcome DecodeError (List ScVal)
  unfolding read
  read_topics [] = ok []
  read_topics (topic ∷ topics) = do
    val ← read "topic" topic
    vals ← read_topics topics
    ok (val ∷ vals)

  unfoldable pub from_base64 : List String → String → Outcome DecodeError RawEvent
  unfolding read read_topics
  from_base64 topics text = do
    vals ← read_topics topics
    body ← read "body" text
    ok (record { topics = vals; body = body })

  -- One turn of the loop of `into_page`, for an event of a call that did not fail.
  unfoldable pub convert : List String → RpcEvent → Result ContractEvent
  unfolding contains from_base64 from_str ledger
  convert contracts e = do
    refuse_if (not (contains contracts e.contract_id)) (unexpected_contract e.id e.contract_id)
    position ← map_err bad_position (from_str e.id)
    refuse_if (not (ledger position == e.ledger)) (ledger_mismatch e.id e.ledger (ledger position))
    raw ← map_err (undecoded e.id) (from_base64 e.topic e.value)
    ok (record { position = position; contract = e.contract_id; source = rpc; raw = raw })

  -- The loop, with the events left: those that it pushes.
  unfoldable pub convert_events : List String → List RpcEvent → Result (List ContractEvent)
  unfolding convert
  convert_events contracts [] = ok []
  convert_events contracts (e ∷ es) =
      let rest = convert_events contracts es in
      if call_failed e.in_successful_contract_call
      then rest
      else (do converted ← convert contracts e; others ← rest; ok (converted ∷ others))

  unfoldable pub into_page : List String → GetEventsResult → Result EventsPage
  unfolding convert_events from_str
  into_page contracts result = do
    cursor ← map_err bad_position (from_str result.cursor)
    events ← convert_events contracts result.events
    ok (record {
      events = events;
      cursor = cursor;
      latest_ledger = result.latest_ledger;
      oldest_ledger = result.oldest_ledger;
    })

-- `Retry`
pub record Retry : Type 0 where
  pub attempts : ℕ
  pub first_delay : ℕ
  pub max_delay : ℕ

-- `1u32.checked_shl(attempt).unwrap_or(u32::MAX)`
abbrev pub backoff_factor : ℕ → ℕ
backoff_factor attempt = if ltb attempt 32 then 2 ^ attempt else 2 ^ 32 - 1

-- `Retry::delay`: the first delay doubled for each attempt, unless that is longer than the longest
-- `Duration` or than the delay allowed.
unfoldable pub delay : Retry → ℕ → ℕ
delay retry attempt =
    let longer = retry.first_delay * backoff_factor attempt in
    if ltb longer (2 ^ 64 * 10 ^ 9) && ltb longer retry.max_delay then longer else retry.max_delay
