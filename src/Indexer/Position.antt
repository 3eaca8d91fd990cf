-- ===== src/Indexer/Position.antt =====
-- Where an event sits in the ledger history (services/indexer/src/position.rs, and the ids of
-- services/indexer/src/seed.rs). A text is the list of its character codes.
pub mod RoundTrip
pub mod Ordering
use veil_contract.Prelude.{
  ℕ, zero, suc, ◌+◌, ◌-◌, ◌*◌, ◌/◌, ◌%◌, ◌^◌, Bool, true, false, not, ◌&&◌, ◌||◌, List, [], ◌∷◌,
  ◌++◌, Option, none, some, Outcome, ok, err, refuse_if, ok_or, ◌>>=◌, ◌>>◌, length, replicate, ltb,
  leb, ◌==◌, if◌then◌else◌,
}

pub record EventPosition : Type 0 where
  pub toid : ℕ
  pub event_index : ℕ

-- `ledger`: the top half of the TOID, or the greatest `u32` where it does not fit.
unfoldable pub ledger : EventPosition → ℕ
ledger p = let top = p.toid / 2 ^ 32 in if ltb top (2 ^ 32) then top else 2 ^ 32 - 1

-- The derived order: by the TOID, then by the index.
unfoldable pub before : EventPosition → EventPosition → Bool
before p q = ltb p.toid q.toid || ((p.toid == q.toid) && ltb p.event_index q.event_index)

-- The decimal digits of a number below 10 ^ rounds.
unfoldable pub decimal : ℕ → ℕ → List ℕ
decimal zero n = []
decimal (suc rounds) n =
    let front = decimal rounds (n / 10) in
    if ltb n 10 then (48 + n) ∷ [] else front ++ ((48 + n % 10) ∷ [])

-- Zeros in front, up to the width that a format asks for.
abbrev pub pad : ℕ → List ℕ → List ℕ
pad width digits = replicate (width - length digits) 48 ++ digits

-- `{:0w}-{:0v}` of the two halves; a `u64` has at most 20 digits, a `u32` 10.
unfoldable pub format : ℕ → ℕ → EventPosition → List ℕ
unfolding decimal
format w v p = pad w (decimal 20 p.toid) ++ (45 ∷ pad v (decimal 10 p.event_index))

-- `Display`, the format of Soroban RPC.
unfoldable pub to_string : EventPosition → List ℕ
unfolding format
to_string p = format 19 10 p

-- The format of Stellar Expert (seed.rs).
unfoldable pub expert_id : EventPosition → List ℕ
unfolding format
expert_id p = format 18 4 p

-- The end-of-ledger cursor (seed.rs).
unfoldable pub end_of_ledger : ℕ → EventPosition
end_of_ledger ledger = record { toid = ledger * 2 ^ 32 + (2 ^ 32 - 1); event_index = 2 ^ 32 - 1 }

-- `ParsePositionError`
pub data ParsePositionError : Type 0 where
  bad_event_id : List ℕ → ParsePositionError

-- `split_once`
unfoldable pub split_once : ℕ → List ℕ → Option (List ℕ × List ℕ)
split_once mark [] = none
split_once mark (c ∷ cs) =
    let rest = split_once mark cs in
    if c == mark
    then some ([], cs)
    else elim rest [ none ↦ none | some (front, back) ↦ some (c ∷ front, back) ]

-- `is_ascii_digit`
abbrev pub is_digit : ℕ → Bool
is_digit c = leb 48 c && leb c 57

unfoldable pub all_digits : List ℕ → Bool
all_digits [] = true
all_digits (c ∷ cs) = is_digit c && all_digits cs

abbrev pub is_empty : List ℕ → Bool
is_empty [] = true
is_empty (c ∷ cs) = false

-- The closure `digits` of `from_str`.
unfoldable pub digits : List ℕ → Bool
unfolding all_digits
digits part = not (is_empty part) && all_digits part

-- `parse` of digits into an unsigned integer below a bound, with the value read so far.
unfoldable pub parse : ℕ → ℕ → List ℕ → Option ℕ
parse bound value [] = some value
parse bound value (c ∷ cs) =
    let next = value * 10 + (c - 48) in
    let rest = parse bound next cs in if ltb next bound then rest else none

unfoldable pub from_str : List ℕ → Outcome ParsePositionError EventPosition
unfolding split_once digits parse
from_str id = do
  let error = bad_event_id id
  (toid, index) ← ok_or (split_once 45 id) error
  refuse_if (not (digits toid) || not (digits index)) error
  toid_value ← ok_or (parse (2 ^ 64) 0 toid) error
  event_index ← ok_or (parse (2 ^ 32) 0 index) error
  ok (record { toid = toid_value; event_index = event_index })
