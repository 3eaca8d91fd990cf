-- ===== src/Pool/Invariant/Progress.antt =====
-- The steps of `settle` that come after its checks, run to their end.
use veil_contract.Prelude.{
  ℕ, suc, ◌+◌, ◌-◌, ◌*◌, ◌/◌, ◌^◌, ◌≤◌, ◌<◌, ◌≡◌, ◌∙◌, ap, refl, Bool, true, false, List, [], ◌∷◌,
  ◌++◌, ◌>>=◌, if◌then◌else◌, length, Option, some, none, NatMap, ok, trap, ok_or, arith,
}
use veil_contract.Prelude.Int.{ℤ, pos, negsuc, pos_part, neg_part, ltb_ℤ}
use veil_contract.Field.Hash.{PermutesField}
use veil_contract.Pool.Merkle.Insert.{insert_two_leaves_lem}
use veil_contract.Pool.Types.{not_initialized, Proof, ExtData, Storage, Transfer, World, Host}
use veil_contract.Pool.Storage.{get_token, get_fee_bps, get_fee_recipient, transfer}
use veil_contract.Pool.Amount.{max_fee_bps, i256_to_i128_nonneg, calculate_fee_amount, to_i128}
use veil_contract.Pool.Amount.Laws.{share_le}
use veil_contract.Pool.Settle.{
  pool_pays, pay_if, check_spend, check_outputs, ensure_nullifiers_unspent, spend_nullifiers_once,
  mark_all, payout_of, insert_outputs, pay_out, publish_nullifiers, announce, settle,
}
use veil_contract.Pool.Settle.Checks.{check_spend-Checked}
use veil_contract.Pool.Settle.Trace.{publish_nullifiers-keeps}
use veil_contract.Pool.Invariant.{IsPool, both_used, insert_outputs_run}

-- The token takes every transfer.
abbrev pub TakesTransfers : Host → Type 0
TakesTransfers host = (w : World) (t : Transfer) → host.token_accepts w t ≡ true

spend_runs :
    (ns : List ℕ) (s : Storage) (spent : NatMap Bool)
    → ensure_nullifiers_unspent ns s ≡ ok tt
    → s.nullifiers ≡ some spent
    → spend_nullifiers_once ns s ≡ ok (record s { nullifiers = some (mark_all spent ns) })
unfolding spend_nullifiers_once
spend_runs ns s spent unspent has = ground arith

payout_withdrawal :
    (ext_data : ExtData) (s : Storage) (m bps : ℕ)
    → ext_data.ext_amount ≡ negsuc m
    → s.fee_bps ≡ some bps
    → bps ≤ max_fee_bps
    → (m + 1) * 10000 < 2 ^ 127
    → payout_of ext_data s
      ≡ ok (some (pos (m + 1 - (m + 1) * bps / max_fee_bps), pos ((m + 1) * bps / max_fee_bps)))
unfolding payout_of i256_to_i128_nonneg calculate_fee_amount get_fee_bps
payout_withdrawal ext_data s m bps e has le fits =
    let share : (m + 1) * bps / max_fee_bps ≤ m + 1 = share_le (m + 1) bps le in
    let product : (m + 1) * bps ≤ (m + 1) * 10000 = grind arith in ground arith

payout_other :
    (ext_data : ExtData) (s : Storage) (n : ℕ)
    → ext_data.ext_amount ≡ pos n
    → payout_of ext_data s ≡ ok none
unfolding payout_of
payout_other ext_data s n e = ground arith

payout_runs :
    (ext_data : ExtData) (s : Storage) (bps : ℕ) (x : ℤ)
    → ext_data.ext_amount ≡ x
    → s.fee_bps ≡ some bps
    → bps ≤ max_fee_bps
    → (pos_part x + neg_part x) * 10000 < 2 ^ 127
    → (payout : Option (ℤ × ℤ)) × (payout_of ext_data s ≡ ok payout)
payout_runs ext_data s bps (pos n) e has le fits = (none, payout_other ext_data s n e)
payout_runs ext_data s bps (negsuc m) e has le fits =
    (_, payout_withdrawal ext_data s m bps e has le (omega arith))

pay_if_runs :
    (host : Host) (condition : Bool) (t : Transfer) (w : World)
    → TakesTransfers host
    → (w' : World) × (pay_if host condition t w ≡ ok w') × (w'.storage ≡ w.storage)
pay_if_runs host true t w takes =
    (record w { transfers = w.transfers ++ (t ∷ []) }, rw (takes w t) refl, refl)
pay_if_runs host false t w takes = (w, refl, refl)

pay_fee_runs :
    (host : Host) (token recipient : ℕ) (fee : ℤ) (b : Bool) (w : World)
    → TakesTransfers host
    → w.storage.fee_recipient ≡ some recipient
    → (w' : World) × ((if b
          then (get_fee_recipient w.storage >>= λ to. transfer host (pool_pays host token to fee) w)
          else ok w)
        ≡ ok w')
unfolding get_fee_recipient
pay_fee_runs host token recipient fee true w takes has =
    let t = pool_pays host token recipient fee in
    let accepted = record w { transfers = w.transfers ++ (t ∷ []) } in
    (
      accepted,
      ap (λ o. ok_or o not_initialized >>= λ to. transfer host (pool_pays host token to fee) w) has
          ∙ ap (λ (b : Bool). if b then ok accepted else trap) (takes w t),
    )
pay_fee_runs host token recipient fee false w takes has = (w, refl)

pay_out_runs :
    (host : Host) (token recipient : ℕ) (ext_data : ExtData) (payout : Option (ℤ × ℤ)) (w : World)
    → TakesTransfers host
    → w.storage.fee_recipient ≡ some recipient
    → (w' : World) × (pay_out host token ext_data payout w ≡ ok w')
unfolding pay_out
pay_out_runs host token recipient ext_data none w takes has = (w, refl)
pay_out_runs host token recipient ext_data (some (amount, fee)) w takes has =
    let (w1, pays, kept) =
      pay_if_runs host (ltb_ℤ (pos 0) amount) (pool_pays host token ext_data.recipient amount) w
        takes in
    let (w2, rest) =
      pay_fee_runs host token recipient fee (ltb_ℤ (pos 0) fee) w1 takes
        (ap (λ (s : Storage). s.fee_recipient) kept ∙ has) in
    (
      w2,
      ap
            (λ m. m >>= λ w'.
              if ltb_ℤ (pos 0) fee
              then (get_fee_recipient w'.storage >>= λ to.
                  transfer host (pool_pays host token to fee) w')
              else ok w')
            pays
          ∙ rest,
    )

fits_i128 : (x : ℤ) → (pos_part x + neg_part x) * 10000 < 2 ^ 127 → to_i128 x ≡ some x
fits_i128 (pos n) h = ground arith
fits_i128 (negsuc n) h = ground arith

settle_run :
    (host : Host) (proof : Proof) (ext_data : ExtData) (w paying paid : World)
    (spent final : Storage) (token : ℕ) (payout : Option (ℤ × ℤ)) (inserted : Option (ℕ × ℕ))
    (bucket : ℤ)
    → check_spend host proof ext_data w.storage ≡ ok tt
    → check_outputs true proof w.storage ≡ ok tt
    → spend_nullifiers_once proof.input_nullifiers w.storage ≡ ok spent
    → (publish_nullifiers proof.input_nullifiers (record w { storage = spent })).storage ≡ spent
    → get_token spent ≡ ok token
    → payout_of ext_data spent ≡ ok payout
    → insert_outputs host true proof spent ≡ ok (inserted, final)
    → paying ≡ record (publish_nullifiers proof.input_nullifiers (record w { storage = spent })) {
      storage = final;
    }
    → pay_out host token ext_data payout paying ≡ ok paid
    → to_i128 ext_data.ext_amount ≡ some bucket
    → settle host proof ext_data true w
      ≡ ok (announce host proof ext_data token bucket payout inserted paid)
unfolding settle
settle_run host proof ext_data w paying paid spent final token payout inserted bucket h1 h2 h3 h4 h5
      h6 h7 h8 h9 h10 =
    rw (h1, h2, h3, h4, h5, h6, h7, ← h8, h9, h10) refl

-- A settlement that passes its checks completes, with room in the tree and a token that takes the
-- transfers.
pub settle_succeeds :
    (host : Host) (closed : PermutesField host.permutation) (depth : ℕ) (pairs : List (ℕ × ℕ))
    (proof : Proof) (ext_data : ExtData) (token recipient : ℕ) (w : World)
    → IsPool host.permutation depth pairs w.storage
    → TakesTransfers host
    → w.storage.token ≡ some token
    → w.storage.fee_recipient ≡ some recipient
    → (pos_part ext_data.ext_amount + neg_part ext_data.ext_amount) * 10000 < 2 ^ 127
    → check_spend host proof ext_data w.storage ≡ ok tt
    → check_outputs true proof w.storage ≡ ok tt
    → 2 * length pairs + 2 ≤ 2 ^ suc depth
    → (w' : World) × (settle host proof ext_data true w ≡ ok w')
unfolding get_token
settle_succeeds host closed depth pairs proof ext_data token recipient w pool takes has_token
      has_recipient fits checks outputs room =
    let checked = check_spend-Checked host proof ext_data w.storage checks in
    let ns = proof.input_nullifiers in
    let spent = record (w.storage) { nullifiers = some (mark_all pool.spent ns) } in
    let (payout, has_payout) =
      payout_runs ext_data spent pool.bps ext_data.ext_amount refl pool.has_bps pool.bps_le fits in
    let (tree, inserts, is_tree) =
      insert_two_leaves_lem host.permutation closed depth proof.output_commitment0
        proof.output_commitment1 pairs w.storage.tree pool.tree checked.in_field.commitment0_lt
        checked.in_field.commitment1_lt room in
    let inserted =
      insert_outputs_run host proof spent (2 * length pairs, 2 * length pairs + 1) tree pool.used
        pool.has_used inserts in
    let final = record spent { tree = tree; commitments = some (both_used pool.used proof) } in
    let paying = record (publish_nullifiers ns (record w { storage = spent })) {
      storage = final;
    } in
    let (paid, pays) =
      pay_out_runs host token recipient ext_data payout paying takes has_recipient in
    (
      _,
      settle_run host proof ext_data w paying paid spent final token payout
          (some (2 * length pairs, 2 * length pairs + 1)) ext_data.ext_amount checks outputs
          (spend_runs ns w.storage pool.spent checked.unspent pool.has_spent)
          (publish_nullifiers-keeps ns (record w { storage = spent })).0
          (ap (λ o. ok_or o not_initialized) has_token) has_payout inserted refl pays
          (fits_i128 ext_data.ext_amount fits),
    )
