-- ===== src/Indexer/Event/ScVal.antt =====
-- Typed readers over the values that an event carries (services/indexer/src/event/scval.rs). Of the
-- values of the XDR library those stand here that the readers tell apart.
use Prim.Native.String.{String, compare}
use text.Mathlib.Text.{is_lt, ◌==◌ as ◌is◌}
use veil_contract.Prelude.{
  ℕ, suc, ◌+◌, ◌-◌, ◌*◌, ◌^◌, List, [], ◌∷◌, Option, none, some, Bool, false, if◌then◌else◌,
  Outcome, ok, err, ok_or, ◌>>=◌, length, ◌||◌,
}
use veil_contract.Prelude.Int.{ℤ, pos, negsuc}
use veil_contract.Indexer.Event.{DecodeError, shape, topic_count, missing_field, unexpected_field}

-- The bytes of a symbol: those of a text, or no UTF-8.
pub data ScSymbol : Type 0 where
  utf8 : String → ScSymbol
  not_utf8 : List ℕ → ScSymbol

pub data ScAddress : Type 0 where
  account : ℕ → ScAddress
  contract : ℕ → ScAddress
  other_address : ℕ → ScAddress

-- Under the names that the XDR gives the cases; `scv_map` with a map, `scv_no_map` without one.
mutual
  pub data ScVal : Type 0 where
    scv_void : ScVal
    scv_u32 : ℕ → ScVal
    scv_u64 : ℕ → ScVal
    scv_i128 : ℤ → ℕ → ScVal
    scv_u256 : ℕ → ℕ → ℕ → ℕ → ScVal
    scv_bytes : List ℕ → ScVal
    scv_symbol : ScSymbol → ScVal
    scv_address : ScAddress → ScVal
    scv_map : ScMap → ScVal
    scv_no_map : ScVal
    scv_other : ℕ → ScVal

  -- The entries of a map, in order.
  pub data ScMap : Type 0 where
    no_entries : ScMap
    entry : ScVal → ScVal → ScMap → ScMap

abbrev pub Result : Type 0 → Type 0
Result A = Outcome DecodeError A

-- The `BTreeMap` of a `Fields` by its entries, in order of the names.
abbrev pub Entries : Type 0
Entries = List (String × ScVal)

-- What `BTreeMap::insert` answers, and the map after it.
abbrev pub has_field : String → Entries → Bool
has_field field [] = false
has_field field ((name, val) ∷ entries) = (field is name) || has_field field entries

abbrev pub put : String → ScVal → Entries → Entries
put field val [] = (field, val) ∷ []
put field val ((name, old) ∷ entries) =
    let rest = put field val entries in
    if is_lt (compare field name)
    then (field, val) ∷ (name, old) ∷ entries
    else (if field is name then (field, val) ∷ entries else (name, old) ∷ rest)

-- The loop of `Fields::new`, with the entries left.
unfoldable pub read_entries : String → ScMap → Entries → Result Entries
read_entries event no_entries fields = ok fields
read_entries event (entry (scv_symbol (utf8 key)) val rest) fields =
    let more = read_entries event rest (put key val fields) in
    if has_field key fields then err (shape event "body" "unique field names") else more
read_entries event (entry (scv_symbol (not_utf8 bytes)) val rest) fields =
    err (shape event "body" "UTF-8 field names")
read_entries event (entry _ val rest) fields = err (shape event "body" "symbol field names")

-- `Fields::new`
unfoldable pub fields_of : String → ScVal → Result Entries
unfolding read_entries
fields_of event (scv_map entries) = read_entries event entries []
fields_of event _ = err (shape event "body" "a map of fields")

-- `BTreeMap::remove`
abbrev pub remove : String → Entries → Option (ScVal × Entries)
remove field [] = none
remove field ((name, val) ∷ entries) =
    let rest = remove field entries in
    if field is name
    then some (val, entries)
    else elim rest [ none ↦ none | some (found, others) ↦ some (found, (name, val) ∷ others) ]

-- `Fields::take`: the value of the field, and the fields left.
unfoldable pub take_field : String → String → Entries → Result (ScVal × Entries)
take_field event field fields = ok_or (remove field fields) (missing_field event field)

unfoldable pub finish : String → Entries → Result (Unit {0})
finish event [] = ok tt
finish event ((field, val) ∷ fields) = err (unexpected_field event field)

unfoldable pub event_name : List ScVal → Result String
event_name (scv_symbol (utf8 name) ∷ topics) = ok name
event_name (scv_symbol (not_utf8 bytes) ∷ topics) = err (shape "event" "topic 0" "a UTF-8 symbol")
event_name _ = err (shape "event" "topic 0" "a symbol naming the event")

-- `topics.get(1..).unwrap_or_default()`
abbrev pub after_name : List ScVal → List ScVal
after_name [] = []
after_name (name ∷ rest) = rest

-- `topics` for each number of topics that is asked for.
unfoldable pub topics_0 : String → List ScVal → Result (Unit {0})
topics_0 event topics = elim (after_name topics) [
  | [] ↦ ok tt
  | rest ↦ err (topic_count event 0 (length rest))
]

unfoldable pub topics_1 : String → List ScVal → Result ScVal
topics_1 event topics = elim (after_name topics) [
  | a ∷ [] ↦ ok a
  | rest ↦ err (topic_count event 1 (length rest))
]

unfoldable pub topics_2 : String → List ScVal → Result (ScVal × ScVal)
topics_2 event topics = elim (after_name topics) [
  | a ∷ b ∷ [] ↦ ok (a, b)
  | rest ↦ err (topic_count event 2 (length rest))
]

-- The number that the four words spell, in big-endian order.
abbrev pub from_words : ℕ → ℕ → ℕ → ℕ → ℕ
from_words hi_hi hi_lo lo_hi lo_lo = ((hi_hi * 2 ^ 64 + hi_lo) * 2 ^ 64 + lo_hi) * 2 ^ 64 + lo_lo

unfoldable pub u256 : String → String → ScVal → Result ℕ
u256 event field (scv_u256 hi_hi hi_lo lo_hi lo_lo) = ok (from_words hi_hi hi_lo lo_hi lo_lo)
u256 event field _ = err (shape event field "a U256")

unfoldable pub u32 : String → String → ScVal → Result ℕ
u32 event field (scv_u32 value) = ok value
u32 event field _ = err (shape event field "a u32")

unfoldable pub u64 : String → String → ScVal → Result ℕ
u64 event field (scv_u64 value) = ok value
u64 event field _ = err (shape event field "a u64")

-- The number whose two's complement is the high word, with its sign, and the low word.
abbrev pub from_halves : ℤ → ℕ → ℤ
from_halves (pos hi) lo = pos (hi * 2 ^ 64 + lo)
from_halves (negsuc hi) lo = negsuc (suc hi * 2 ^ 64 - lo - 1)

unfoldable pub i128 : String → String → ScVal → Result ℤ
i128 event field (scv_i128 hi lo) = ok (from_halves hi lo)
i128 event field _ = err (shape event field "an i128")

unfoldable pub bytes : String → String → ScVal → Result (List ℕ)
bytes event field (scv_bytes value) = ok value
bytes event field _ = err (shape event field "bytes")

-- The strkeys are those of the XDR library.
module _ (strkey : ScAddress → String) where
  unfoldable pub address : String → String → ScVal → Result String
  address event field (scv_address (account key)) = ok (strkey (account key))
  address event field (scv_address (contract key)) = ok (strkey (contract key))
  address event field _ = err (shape event field "an account or contract address")

  unfoldable pub optional_address : String → String → ScVal → Result (Option String)
  unfolding address
  optional_address event field scv_void = ok none
  optional_address event field val = address event field val >>= λ shown. ok (some shown)
