-- ===== src/Pool/Steps/Success.antt =====
-- Which calls of `transact` succeed.
use mathlib.Core.Path.{subst}
use veil_contract.Prelude.{
  ℕ, zero, suc, ◌+◌, ◌*◌, ◌^◌, ◌≤◌, ◌<◌, ◌≡◌, sym, refl, true, List, [], ◌∷◌, ◌++◌, length, some,
  ok, arith,
}
use veil_contract.Prelude.Int.{ℤ, pos, negsuc, pos_part, neg_part}
use veil_contract.Field.Hash.{PermutesField}
use veil_contract.Pool.Types.{Proof, ExtData, Storage, Transfer, World, Host}
use veil_contract.Pool.Storage.{get_maximum_deposit}
use veil_contract.Pool.Amount.{i256_to_i128_nonneg}
use veil_contract.Pool.Settle.{check_spend, check_outputs, settle}
use veil_contract.Pool.Contract.{pay_in, transact}
use veil_contract.Pool.Contract.Calls.{pay_in-keeps}
use veil_contract.Pool.Invariant.{IsPool}
use veil_contract.Pool.Invariant.Progress.{TakesTransfers, settle_succeeds}

pay_in_other :
    (host : Host) (token : ℕ) (ext_data : ExtData) (sender m : ℕ) (w : World)
    → ext_data.ext_amount ≡ negsuc m
    → pay_in host token ext_data sender w ≡ ok w
unfolding pay_in
pay_in_other host token ext_data sender m w e = ground arith

pay_in_nothing :
    (host : Host) (token : ℕ) (ext_data : ExtData) (sender : ℕ) (w : World)
    → ext_data.ext_amount ≡ pos zero
    → pay_in host token ext_data sender w ≡ ok w
unfolding pay_in
pay_in_nothing host token ext_data sender w e = ground arith

pay_in_deposit :
    (host : Host) (token : ℕ) (ext_data : ExtData) (sender n maximum : ℕ) (w : World) (t : Transfer)
    → ext_data.ext_amount ≡ pos (suc n)
    → t ≡ record {
      token = token;
      from = sender;
      to = host.current_contract_address;
      amount = pos (suc n);
    }
    → w.storage.maximum_deposit_amount ≡ some maximum
    → suc n ≤ maximum
    → suc n < 2 ^ 127
    → host.token_accepts w t ≡ true
    → pay_in host token ext_data sender w ≡ ok (record w { transfers = w.transfers ++ (t ∷ []) })
unfolding pay_in i256_to_i128_nonneg get_maximum_deposit
pay_in_deposit host token ext_data sender n maximum w t e shape has le small takes = ground arith

pay_in_runs :
    (host : Host) (token : ℕ) (ext_data : ExtData) (sender maximum : ℕ) (w : World) (x : ℤ)
    → ext_data.ext_amount ≡ x
    → w.storage.maximum_deposit_amount ≡ some maximum
    → pos_part x ≤ maximum
    → (pos_part x + neg_part x) * 10000 < 2 ^ 127
    → TakesTransfers host
    → (w' : World) × (pay_in host token ext_data sender w ≡ ok w')
pay_in_runs host token ext_data sender maximum w (pos zero) e has le fits takes =
    (w, pay_in_nothing host token ext_data sender w e)
pay_in_runs host token ext_data sender maximum w (pos (suc n)) e has le fits takes = (
  _,
  pay_in_deposit host token ext_data sender n maximum w _ e refl has le (omega arith) (takes w _),
)
pay_in_runs host token ext_data sender maximum w (negsuc m) e has le fits takes =
    (w, pay_in_other host token ext_data sender m w e)

transact_run :
    (host : Host) (proof : Proof) (ext_data : ExtData) (sender token : ℕ) (w paid w' : World)
    → host.authorizes sender ≡ true
    → w.storage.token ≡ some token
    → pay_in host token ext_data sender w ≡ ok paid
    → settle host proof ext_data true paid ≡ ok w'
    → transact host proof ext_data sender w ≡ ok w'
unfolding transact
transact_run host proof ext_data sender token w paid w' signed has pays settles = ground arith

-- In a pool that satisfies the invariant and has a token, a fee recipient and a maximum deposit, a
-- `transact` that the sender authorized succeeds, if its checks pass, the tree has room for two
-- leaves, a deposit is at most the maximum, the external amount times 10000 fits an `i128`, and the
-- token takes every transfer.
pub transact_succeeds :
    (host : Host) (depth : ℕ) (pairs : List (ℕ × ℕ)) (proof : Proof) (ext_data : ExtData)
    (sender token recipient maximum : ℕ) (w : World)
    → PermutesField host.permutation
    → IsPool host.permutation depth pairs w.storage
    → host.authorizes sender ≡ true
    → TakesTransfers host
    → w.storage.token ≡ some token
    → w.storage.fee_recipient ≡ some recipient
    → w.storage.maximum_deposit_amount ≡ some maximum
    → pos_part ext_data.ext_amount ≤ maximum
    → (pos_part ext_data.ext_amount + neg_part ext_data.ext_amount) * 10000 < 2 ^ 127
    → check_spend host proof ext_data w.storage ≡ ok tt
    → check_outputs true proof w.storage ≡ ok tt
    → 2 * length pairs + 2 ≤ 2 ^ suc depth
    → (w' : World) × (transact host proof ext_data sender w ≡ ok w')
transact_succeeds host depth pairs proof ext_data sender token recipient maximum w closed pool
      signed takes has_token has_recipient has_maximum le fits checks outputs room =
    let (paid, pays) =
      pay_in_runs host token ext_data sender maximum w ext_data.ext_amount refl has_maximum le fits
        takes in
    let kept = sym (pay_in-keeps host token ext_data sender w paid pays).0 in
    let (w', settles) =
      settle_succeeds host closed depth pairs proof ext_data token recipient paid
        (subst (IsPool host.permutation depth pairs) kept pool) takes
        (subst (λ (s : Storage). s.token ≡ some token) kept has_token)
        (subst (λ (s : Storage). s.fee_recipient ≡ some recipient) kept has_recipient) fits
        (subst (λ s. check_spend host proof ext_data s ≡ ok tt) kept checks)
        (subst (λ s. check_outputs true proof s ≡ ok tt) kept outputs) room in
    (w', transact_run host proof ext_data sender token w paid w' signed has_token pays settles)
