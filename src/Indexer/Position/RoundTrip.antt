-- ===== src/Indexer/Position/RoundTrip.antt =====
-- Reading back what was written (`Display` and `FromStr` of services/indexer/src/position.rs, and
-- `expert_id` of services/indexer/src/seed.rs).
use native.Mathlib.Nat.{pow-suc}
use veil_contract.Prelude.{
  ℕ, zero, suc, ◌+◌, ◌-◌, ◌*◌, ◌/◌, ◌%◌, ◌^◌, ◌<◌, ◌≡◌, ◌∙◌, ap, refl, inl, inr, true, false, List,
  [], ◌∷◌, ◌++◌, some, ok, replicate, length, ltb, arith, Bool-cases,
}
use veil_contract.Indexer.Position.{
  EventPosition, decimal, pad, format, to_string, expert_id, split_once, all_digits, is_empty,
  digits, parse, from_str,
}

all_digits-append :
    (xs ys : List ℕ) → all_digits xs ≡ true → all_digits ys ≡ true → all_digits (xs ++ ys) ≡ true
unfolding all_digits
all_digits-append [] ys hx hy = hy
all_digits-append (x ∷ xs) ys hx hy = ground (arith, all_digits-append xs ys)

all_digits-decimal : (rounds n : ℕ) → all_digits (decimal rounds n) ≡ true
unfolding decimal all_digits
all_digits-decimal zero n = refl
all_digits-decimal (suc rounds) n = elim (Bool-cases (ltb n 10)) [
  | inl one ↦ ground arith
  | inr more ↦ rw more (
      all_digits-append (decimal rounds (n / 10)) ((48 + n % 10) ∷ [])
        (all_digits-decimal rounds (n / 10)) (ground arith))
]

all_digits-zeros : (k : ℕ) → all_digits (replicate k 48) ≡ true
unfolding all_digits
all_digits-zeros zero = refl
all_digits-zeros (suc k) = all_digits-zeros k

all_digits-pad : (w rounds n : ℕ) → all_digits (pad w (decimal rounds n)) ≡ true
all_digits-pad w rounds n =
    all_digits-append (replicate (w - length (decimal rounds n)) 48) (decimal rounds n)
      (all_digits-zeros (w - length (decimal rounds n))) (all_digits-decimal rounds n)

-- The first mark in a text of digits, the mark and more.
split_once-digits :
    (xs ys : List ℕ) → all_digits xs ≡ true → split_once 45 (xs ++ (45 ∷ ys)) ≡ some (xs, ys)
unfolding split_once all_digits
split_once-digits [] ys h = refl
split_once-digits (x ∷ xs) ys h =
    let rest = split_once-digits xs ys (ground arith) in rw rest (ground arith)

parse-append :
    (bound value middle : ℕ) (xs ys : List ℕ)
    → parse bound value xs ≡ some middle
    → parse bound value (xs ++ ys) ≡ parse bound middle ys
unfolding parse
parse-append bound value middle [] ys h = cc
parse-append bound value middle (x ∷ xs) ys h =
    ground (arith, parse-append bound (value * 10 + (x - 48)) middle xs ys)

parse-zeros : (bound k : ℕ) → 0 < bound → parse bound 0 (replicate k 48) ≡ some 0
unfolding parse
parse-zeros bound zero h = refl
parse-zeros bound (suc k) h = ground (arith, parse-zeros bound k h)

parse-decimal :
    (bound rounds n : ℕ) → n < bound → n < 10 ^ rounds → parse bound 0 (decimal rounds n) ≡ some n
unfolding parse decimal
parse-decimal bound zero n h small = ap some (omega arith)
parse-decimal bound (suc rounds) n h small =
    let front =
      parse-decimal bound rounds (n / 10) (omega arith) (omega (arith, pow-suc 10 rounds)) in
    elim (Bool-cases (ltb n 10)) [
      | inl one ↦ ground arith
      | inr more ↦ rw more (
          parse-append bound 0 (n / 10) (decimal rounds (n / 10)) ((48 + n % 10) ∷ []) front
          ∙ ground arith)
    ]

parse-pad :
    (bound w rounds n : ℕ)
    → n < bound
    → n < 10 ^ rounds
    → parse bound 0 (pad w (decimal rounds n)) ≡ some n
parse-pad bound w rounds n h small =
    parse-append bound 0 0 (replicate (w - length (decimal rounds n)) 48) (decimal rounds n)
      (parse-zeros bound (w - length (decimal rounds n)) (omega arith))
    ∙ parse-decimal bound rounds n h small

is_empty-append : (xs ys : List ℕ) → is_empty ys ≡ false → is_empty (xs ++ ys) ≡ false
is_empty-append [] ys h = h
is_empty-append (x ∷ xs) ys h = refl

is_empty-decimal : (rounds n : ℕ) → is_empty (decimal (suc rounds) n) ≡ false
unfolding decimal
is_empty-decimal rounds n = elim (Bool-cases (ltb n 10)) [
  | inl one ↦ rw one refl
  | inr more ↦ rw more (is_empty-append (decimal rounds (n / 10)) ((48 + n % 10) ∷ []) refl)
]

digits-pad : (w rounds n : ℕ) → digits (pad w (decimal (suc rounds) n)) ≡ true
unfolding digits
digits-pad w rounds n =
    rw
      (
        is_empty-append (replicate (w - length (decimal (suc rounds) n)) 48)
            (decimal (suc rounds) n) (is_empty-decimal rounds n),
        all_digits-pad w (suc rounds) n,
      )
      refl

-- A position whose TOID is a `u64` and whose index is a `u32`.
abbrev pub IsPosition : EventPosition → Type 0
IsPosition p = (p.toid < 2 ^ 64) × (p.event_index < 2 ^ 32)

from_str-format : (w v : ℕ) (p : EventPosition) → IsPosition p → from_str (format w v p) ≡ ok p
unfolding from_str format
from_str-format w v p (toid_fits, index_fits) =
    let toid = pad w (decimal 20 p.toid) in
    let index = pad v (decimal 10 p.event_index) in
    let cut = split_once-digits toid index (all_digits-pad w 20 p.toid) in
    let first = digits-pad w 19 p.toid in
    let second = digits-pad v 9 p.event_index in
    let t = parse-pad (2 ^ 64) w 20 p.toid toid_fits (omega arith) in
    let i = parse-pad (2 ^ 32) v 10 p.event_index index_fits (omega arith) in
    rw (cut, first, second, t, i) refl

-- A position (a `u64` and a `u32`) reads back from the text of Soroban RPC, and from that of Stellar
-- Expert.
pub from_str-to_string :
    (p : EventPosition)
    → IsPosition p
    → (from_str (to_string p) ≡ ok p) × (from_str (expert_id p) ≡ ok p)
unfolding to_string expert_id
from_str-to_string p fits = (from_str-format 19 10 p fits, from_str-format 18 4 p fits)
