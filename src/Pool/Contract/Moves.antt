-- ===== src/Pool/Contract/Moves.antt =====
-- The tokens that `transact` and `exit` move, against their external amount.
use mathlib.Core.List.{append-nil}
use veil_contract.Prelude.{
  ℕ, zero, suc, ◌+◌, ◌≤◌, ◌≡◌, ◌∙◌, sym, ap, refl, ◌++◌, some, ok, arith, true, false,
}
use veil_contract.Prelude.Int.{ℤ, pos, negsuc, leb_ℤ}
use veil_contract.Pool.Types.{Proof, ExtData, Storage, World, Host}
use veil_contract.Pool.Amount.{max_fee_bps}
use veil_contract.Pool.Contract.{transact, exit}
use veil_contract.Pool.Contract.Calls.{pay_in-keeps, Transacted, transact-Transacted, exit-Exited}
use veil_contract.Pool.Contract.Money.{
  owed, total, total-owed, settled_withdrawal, settled_other, pay_in-deposit, pay_in-zero,
  pay_in-withdrawal,
}

same_token : (a b : ℕ) → some a ≡ some b → a ≡ b
same_token a b e = cc

module _ (host : Host) (proof : Proof) (ext_data : ExtData) (sender token fee_recipient bps : ℕ)
    (w w' : World) (has_token : w.storage.token ≡ some token)
    (has_recipient : w.storage.fee_recipient ≡ some fee_recipient)
    (has_bps : w.storage.fee_bps ≡ some bps) (bps_le : bps ≤ max_fee_bps) where
  transact_moves_at :
      (x : ℤ)
      → ext_data.ext_amount ≡ x
      → Transacted host proof ext_data sender w w'
      → w'.transfers ≡ w.transfers ++ owed host token fee_recipient bps ext_data sender x
  transact_moves_at (pos zero) e t =
      settled_other host proof ext_data true t.paid_in w' t.settled 0 e
      ∙ pay_in-zero host t.token ext_data sender w t.paid_in t.pays_in e
      ∙ sym (append-nil w.transfers)
  transact_moves_at (pos (suc n)) e t =
      settled_other host proof ext_data true t.paid_in w' t.settled (suc n) e
      ∙ pay_in-deposit host t.token ext_data sender n w t.paid_in t.pays_in e
      ∙ ap (λ k. w.transfers ++ owed host k fee_recipient bps ext_data sender (pos (suc n)))
          (same_token t.token token (sym t.has_token ∙ has_token))
  transact_moves_at (negsuc m) e t =
      let kept = (pay_in-keeps host t.token ext_data sender w t.paid_in t.pays_in).0 in
      settled_withdrawal host proof ext_data true t.paid_in w' t.settled m token fee_recipient bps e
        (ap (λ (s : Storage). s.token) kept ∙ has_token)
        (ap (λ (s : Storage). s.fee_recipient) kept ∙ has_recipient)
        (ap (λ (s : Storage). s.fee_bps) kept ∙ has_bps) bps_le
      ∙ ap (λ l. l ++ owed host token fee_recipient bps ext_data sender (negsuc m))
          (pay_in-withdrawal host t.token ext_data sender m w t.paid_in t.pays_in e)

  -- In a pool that has a token, a fee recipient and a fee of at most 100%, a successful `transact`
  -- makes exactly the transfers that its external amount owes.
  pub transact_moves :
      transact host proof ext_data sender w ≡ ok w'
      → w'.transfers
        ≡ w.transfers ++ owed host token fee_recipient bps ext_data sender ext_data.ext_amount
  transact_moves h =
      transact_moves_at ext_data.ext_amount refl
        (transact-Transacted host proof ext_data sender w w' h)

  exit_moves_at :
      (x : ℤ)
      → ext_data.ext_amount ≡ x
      → exit host proof ext_data sender w ≡ ok w'
      → (m : ℕ) × (x ≡ negsuc m)
        × (w'.transfers
            ≡ w.transfers ++ owed host token fee_recipient bps ext_data sender (negsuc m))
  exit_moves_at (pos n) e h =
      let t = exit-Exited host proof ext_data sender w w' h in
      let nonneg : leb_ℤ (pos 0) ext_data.ext_amount ≡ true = rw e (ground arith) in
      absurd (let clash : true ≡ false = sym nonneg ∙ t.withdraws in cc)
  exit_moves_at (negsuc m) e h =
      let t = exit-Exited host proof ext_data sender w w' h in
      (
        m,
        refl,
        settled_withdrawal host proof ext_data false w w' t.settled m token fee_recipient bps e
            has_token has_recipient has_bps bps_le,
      )

  -- In a pool that has a token, a fee recipient and a fee of at most 100%, a successful `exit` is a
  -- withdrawal, and makes exactly the transfers that it owes, which add up to its amount.
  pub exit_moves :
      exit host proof ext_data sender w ≡ ok w'
      → (m : ℕ) × (ext_data.ext_amount ≡ negsuc m)
        × (w'.transfers
            ≡ w.transfers ++ owed host token fee_recipient bps ext_data sender (negsuc m))
        × (total (owed host token fee_recipient bps ext_data sender (negsuc m)) ≡ m + 1)
  exit_moves h =
      let (m, e, moved) = exit_moves_at ext_data.ext_amount refl h in
      (m, e, moved, total-owed host token fee_recipient bps ext_data sender m bps_le)
