-- ===== src/Pool/Contract/Money.antt =====
-- The tokens that a spend moves.
use mathlib.Core.Path.{ap₂}
use veil_contract.Prelude.{
  ℕ, zero, suc, ◌+◌, ◌-◌, ◌*◌, ◌/◌, ◌≤◌, ◌≡◌, ◌∙◌, sym, ap, Bool, true, false, List, [], ◌∷◌, ◌++◌,
  Option, some, none, ok, ok-injective, arith,
}
use veil_contract.Prelude.Int.{ℤ, pos, negsuc, pos_part}
use veil_contract.Pool.Types.{Proof, ExtData, Storage, Transfer, World, Host}
use veil_contract.Pool.Storage.{
  get_token, get_fee_bps, get_commitments, set_commitments, get_maximum_deposit,
}
use veil_contract.Pool.Amount.{max_fee_bps, i256_to_i128_nonneg, calculate_fee_amount}
use veil_contract.Pool.Amount.Laws.{share_le}
use veil_contract.Pool.Settle.{payout_of, insert_outputs, mark_commitment_inserted, pay_out}
use veil_contract.Pool.Settle.Effects.{spend-Marked, payments, pay_out-transfers}
use veil_contract.Pool.Settle.Trace.{Settled, announce-keeps}
use veil_contract.Pool.Contract.{pay_in}

-- The fee on a withdrawal: its share in basis points, rounded down.
abbrev pub fee_on : ℕ → ℕ → ℕ
fee_on amount bps = amount * bps / max_fee_bps

payout_of-withdrawal :
    (ext_data : ExtData) (s : Storage) (m bps : ℕ) (payout : Option (ℤ × ℤ))
    → payout_of ext_data s ≡ ok payout
    → ext_data.ext_amount ≡ negsuc m
    → s.fee_bps ≡ some bps
    → bps ≤ max_fee_bps
    → payout ≡ some (pos (m + 1 - fee_on (m + 1) bps), pos (fee_on (m + 1) bps))
unfolding payout_of i256_to_i128_nonneg calculate_fee_amount get_fee_bps
payout_of-withdrawal ext_data s m bps payout h e has le =
    let share : fee_on (m + 1) bps ≤ m + 1 = share_le (m + 1) bps le in ground arith

payout_of-other :
    (ext_data : ExtData) (s : Storage) (n : ℕ) (payout : Option (ℤ × ℤ))
    → payout_of ext_data s ≡ ok payout
    → ext_data.ext_amount ≡ pos n
    → payout ≡ none
unfolding payout_of
payout_of-other ext_data s n payout h e = ground arith

insert_keeps_fees :
    (host : Host) (insert : Bool) (proof : Proof) (s s' : Storage) (x : Option (ℕ × ℕ))
    → insert_outputs host insert proof s ≡ ok (x, s')
    → s'.fee_recipient ≡ s.fee_recipient
unfolding insert_outputs mark_commitment_inserted get_commitments set_commitments
insert_keeps_fees host false proof s s' x h =
    ap (λ (p : Option (ℕ × ℕ) × Storage). p.1.fee_recipient) (sym (ok-injective h))
insert_keeps_fees host true proof s s' x h = ground arith

transfers-Settled :
    {host : Host} {proof : Proof} {ext_data : ExtData} {insert : Bool} {w w' : World}
    → (t : Settled host proof ext_data insert w w') → w'.transfers ≡ t.paid.transfers
transfers-Settled {host} {proof} {ext_data} t =
    ap (λ (v : World). v.transfers) t.announced
    ∙ (announce-keeps host proof ext_data t.token t.bucket t.payout t.inserted t.paid).1

module _ (host : Host) (proof : Proof) (ext_data : ExtData) (insert : Bool) (w w' : World)
    (t : Settled host proof ext_data insert w w') where
  same_config :
      (t.spent.token ≡ w.storage.token)
      × (t.spent.fee_bps ≡ w.storage.fee_bps)
      × (t.spent.fee_recipient ≡ w.storage.fee_recipient)
  same_config =
      let now = (spend-Marked proof.input_nullifiers w.storage t.spent t.marked).now in
      (
        ap (λ (s : Storage). s.token) now,
        ap (λ (s : Storage). s.fee_bps) now,
        ap (λ (s : Storage). s.fee_recipient) now,
      )

  token_of : (token : ℕ) → w.storage.token ≡ some token → t.token ≡ token
  unfolding get_token
  token_of token has =
      ok-injective (
        sym t.has_token
        ∙ ap (λ o. get_token (record (t.spent) { token = o })) (same_config.0 ∙ has))

  pub settled_withdrawal :
      (m token fee_recipient bps : ℕ)
      → ext_data.ext_amount ≡ negsuc m
      → w.storage.token ≡ some token
      → w.storage.fee_recipient ≡ some fee_recipient
      → w.storage.fee_bps ≡ some bps
      → bps ≤ max_fee_bps
      → w'.transfers
        ≡ w.transfers
          ++ payments host token ext_data.recipient fee_recipient
              (pos (m + 1 - fee_on (m + 1) bps))
              (pos (fee_on (m + 1) bps))
  settled_withdrawal m token fee_recipient bps e has_token has_recipient has_bps le =
      let paid =
        payout_of-withdrawal ext_data t.spent m bps t.payout t.has_payout e
          (same_config.1 ∙ has_bps) le in
      let r = pos (m + 1 - fee_on (m + 1) bps) in
      let fee = pos (fee_on (m + 1) bps) in
      let pays : pay_out host token ext_data (some (r, fee)) t.paying ≡ ok t.paid =
        ap₂ (λ k p. pay_out host k ext_data p t.paying) (sym (token_of token has_token)) (sym paid)
        ∙ t.pays in
      let recipient : t.paying.storage.fee_recipient ≡ some fee_recipient =
        ap (λ (s : Storage). s.fee_recipient) t.starts_paying.0
        ∙ insert_keeps_fees host insert proof t.spent t.final t.inserted t.has_inserted
        ∙ same_config.2
        ∙ has_recipient in
      transfers-Settled t
      ∙ pay_out-transfers host token fee_recipient ext_data r fee t.paying t.paid pays recipient
      ∙ ap (λ l. l ++ payments host token ext_data.recipient fee_recipient r fee) t.starts_paying.1

  pub settled_other : (n : ℕ) → ext_data.ext_amount ≡ pos n → w'.transfers ≡ w.transfers
  unfolding pay_out
  settled_other n e =
      let nothing = payout_of-other ext_data t.spent n t.payout t.has_payout e in
      let pays : ok t.paying ≡ ok t.paid =
        ap (λ p. pay_out host t.token ext_data p t.paying) (sym nothing) ∙ t.pays in
      transfers-Settled t
      ∙ ap (λ (v : World). v.transfers) (sym (ok-injective pays))
      ∙ t.starts_paying.1

-- What a spend owes, from its external amount alone: a deposit is paid in by the sender, a
-- withdrawal is paid out to the recipient less the fee, and the fee to its recipient.
abbrev pub owed : Host → ℕ → ℕ → ℕ → ExtData → ℕ → ℤ → List Transfer
owed host token fee_recipient bps ext_data sender (pos zero) = []
owed host token fee_recipient bps ext_data sender (pos (suc n)) =
    record {
      token = token;
      from = sender;
      to = host.current_contract_address;
      amount = pos (suc n);
    }
    ∷ []
owed host token fee_recipient bps ext_data sender (negsuc m) =
    payments host token ext_data.recipient fee_recipient (pos (m + 1 - fee_on (m + 1) bps))
      (pos (fee_on (m + 1) bps))

-- The sum of a list of transfers.
abbrev pub total : List Transfer → ℕ
total [] = 0
total (t ∷ ts) = pos_part t.amount + total ts

-- A withdrawal pays out exactly its amount.
pub total-owed :
    (host : Host) (token fee_recipient bps : ℕ) (ext_data : ExtData) (sender m : ℕ)
    → bps ≤ max_fee_bps
    → total (owed host token fee_recipient bps ext_data sender (negsuc m)) ≡ m + 1
total-owed host token fee_recipient bps ext_data sender m le =
    let share : fee_on (m + 1) bps ≤ m + 1 = share_le (m + 1) bps le in ground arith

pub pay_in-deposit :
    (host : Host) (token : ℕ) (ext_data : ExtData) (sender n : ℕ) (w w' : World)
    → pay_in host token ext_data sender w ≡ ok w'
    → ext_data.ext_amount ≡ pos (suc n)
    → w'.transfers
      ≡ w.transfers
        ++ (record {
          token = token;
          from = sender;
          to = host.current_contract_address;
          amount = pos (suc n);
        }
            ∷ [])
unfolding pay_in i256_to_i128_nonneg get_maximum_deposit
pay_in-deposit host token ext_data sender n w w' h e = ground arith

pub pay_in-zero :
    (host : Host) (token : ℕ) (ext_data : ExtData) (sender : ℕ) (w w' : World)
    → pay_in host token ext_data sender w ≡ ok w'
    → ext_data.ext_amount ≡ pos zero
    → w'.transfers ≡ w.transfers
unfolding pay_in
pay_in-zero host token ext_data sender w w' h e = ground arith

pub pay_in-withdrawal :
    (host : Host) (token : ℕ) (ext_data : ExtData) (sender m : ℕ) (w w' : World)
    → pay_in host token ext_data sender w ≡ ok w'
    → ext_data.ext_amount ≡ negsuc m
    → w'.transfers ≡ w.transfers
unfolding pay_in
pay_in-withdrawal host token ext_data sender m w w' h e = ground arith
