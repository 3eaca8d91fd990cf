-- ===== src/Pool/Settle/Effects.antt =====
-- What the writing steps of a spend do: the nullifiers, the outputs, and the payments.
use mathlib.Core.List.{append_assoc, append-nil}
use veil_contract.Prelude.{
  ran, ℕ, ◌≡◌, ◌≢◌, ◌∙◌, refl, sym, ap, Bool, true, List, [], ◌∷◌, ◌++◌, Option, some, none, NatMap,
  update, empty_map, ok, ◌>>=◌, >>=-eq-ok, ok-injective, ok_or-eq-ok, arith, All, if◌then◌else◌,
}
use veil_contract.Prelude.Int.{ℤ, pos, ltb_ℤ}
use veil_contract.Pool.Types.{not_initialized, ExtData, Storage, Transfer, World, Host}
use veil_contract.Pool.Storage.{get_nullifiers, set_nullifiers}
use veil_contract.Pool.Settle.{
  has_mark, all_unspent, ensure_nullifiers_unspent, mark_all, spend_nullifiers_once, pool_pays,
  pay_out,
}
use veil_contract.Pool.Settle.Checks.{Fresh, AllDistinct, all_unspent-Fresh, has_mark-update}

mark_all-old :
    (m : NatMap Bool) (ns : List ℕ) (j : ℕ)
    → has_mark m j ≡ true
    → has_mark (mark_all m ns) j ≡ true
unfolding mark_all
mark_all-old m [] j h = h
mark_all-old m (n ∷ ns) j h =
    mark_all-old (update m n true) ns j (has_mark-update m n j ∙ ground arith)

mark_all-new : (m : NatMap Bool) (ns : List ℕ) → All (λ n. has_mark (mark_all m ns) n ≡ true) ns
unfolding mark_all
mark_all-new m [] = tt
mark_all-new m (n ∷ ns) = (
  mark_all-old (update m n true) ns n (has_mark-update m n n ∙ ground arith),
  mark_all-new (update m n true) ns,
)

mark_all-others :
    (m : NatMap Bool) (ns : List ℕ) (j : ℕ)
    → All (λ n. n ≢ j) ns
    → has_mark (mark_all m ns) j ≡ has_mark m j
unfolding mark_all
mark_all-others m [] j h = refl
mark_all-others m (n ∷ ns) j h =
    mark_all-others (update m n true) ns j h.1 ∙ has_mark-update m n j ∙ ground arith

-- Spending marks nullifiers that were unmarked and distinct, and marks no other.
pub record Marked (ns : List ℕ) (s s' : Storage) : Type 0 where
  pub old : NatMap Bool
  pub new : NatMap Bool
  pub was : s.nullifiers ≡ some old
  pub now : s' ≡ record s { nullifiers = some new }
  pub fresh : Fresh old ns
  pub distinct : AllDistinct ns
  pub all : All (λ n. has_mark new n ≡ true) ns
  pub kept : (j : ℕ) → has_mark old j ≡ true → has_mark new j ≡ true
  pub others : (j : ℕ) → All (λ n. n ≢ j) ns → has_mark new j ≡ has_mark old j

pub spend-Marked :
    (ns : List ℕ) (s s' : Storage) → spend_nullifiers_once ns s ≡ ok s' → Marked ns s s'
unfolding spend_nullifiers_once ensure_nullifiers_unspent get_nullifiers set_nullifiers
spend-Marked ns s s' h =
    let (unspent, h1) = ran (get_nullifiers s >>= λ stored. all_unspent stored empty_map ns) _ h in
    let (stored, read, h2) = >>=-eq-ok (get_nullifiers s) _ unspent in
    let (again, reread, h3) = >>=-eq-ok (get_nullifiers s) _ h1 in
    let same : stored ≡ again = ok-injective (sym read ∙ reread) in
    let facts = all_unspent-Fresh stored empty_map ns h2 in
    record {
      old = stored;
      new = mark_all stored ns;
      was = ok_or-eq-ok s.nullifiers not_initialized read;
      now =
          sym (ok-injective h3)
          ∙ ap (λ m. record s { nullifiers = some (mark_all m ns) }) (sym same);
      fresh = facts.0;
      distinct = facts.2;
      all = mark_all-new stored ns;
      kept = mark_all-old stored ns;
      others = mark_all-others stored ns;
    }

-- The payments of a withdrawal, in order.
abbrev pub payments : Host → ℕ → ℕ → ℕ → ℤ → ℤ → List Transfer
payments host token recipient fee_recipient recipient_amount fee =
    (if ltb_ℤ (pos 0) recipient_amount
      then pool_pays host token recipient recipient_amount ∷ []
      else [])
    ++ (if ltb_ℤ (pos 0) fee then pool_pays host token fee_recipient fee ∷ [] else [])

-- A payment changes nothing but the list of transfers, and the token takes it over the storage that
-- the payment began with.
pub pay_out-keeps :
    (host : Host) (token : ℕ) (ext_data : ExtData) (payout : Option (ℤ × ℤ)) (w w' : World)
    → pay_out host token ext_data payout w ≡ ok w'
    → (w'.storage ≡ w.storage) × (w'.wasm ≡ w.wasm) × (w'.events ≡ w.events)
unfolding pay_out
pay_out-keeps host token ext_data none w w' h = ground arith
pay_out-keeps host token ext_data (some (r, fee)) w w' h = ground arith

pub pay_out-transfers :
    (host : Host) (token fee_recipient : ℕ) (ext_data : ExtData) (r fee : ℤ) (w w' : World)
    → pay_out host token ext_data (some (r, fee)) w ≡ ok w'
    → w.storage.fee_recipient ≡ some fee_recipient
    → w'.transfers ≡ w.transfers ++ payments host token ext_data.recipient fee_recipient r fee
unfolding pay_out
pay_out-transfers host token fee_recipient ext_data r fee w w' h e = ground (
  arith,
  append_assoc w.transfers (pool_pays host token ext_data.recipient r ∷ [])
      (pool_pays host token fee_recipient fee ∷ []),
  append-nil w.transfers,
)
