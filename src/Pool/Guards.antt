-- ===== src/Pool/Guards.antt =====
-- What a call that spends has been checked for.
use mathlib.Core.Path.{subst}
use veil_contract.Prelude.{
  ℕ, suc, ◌+◌, ◌%◌, ◌^◌, ◌<◌, ◌≡◌, ◌≢◌, ◌∙◌, inl, inr, sym, ap, refl, List, true, some, ok, arith,
  ok-injective,
}
use veil_contract.Prelude.Int.{pos_part, neg_part}
use veil_contract.Field.{bn256_modulus}
use veil_contract.Pool.Merkle.Roots.{IsRecent, is_known_root_lem}
use veil_contract.Pool.Merkle.Insert.{history_of}
use veil_contract.Pool.Types.{Proof, ExtData, Storage, World, Host}
use veil_contract.Pool.Storage.{get_asp_membership, get_verifier}
use veil_contract.Pool.Settle.{hash_ext_data, get_asp_membership_root, verify_proof, public_inputs}
use veil_contract.Pool.Settle.Checks.{Checked, InField}
use veil_contract.Pool.Amount.Laws.{public_amount_value, public_amount_range}
use veil_contract.Pool.Contract.Calls.{pay_in-keeps, transact-Transacted, exit-Exited}
use veil_contract.Pool.Invariant.{IsPool}
use veil_contract.Pool.Steps.Spending.{Spends}

asp_read :
    (host : Host) (s : Storage) (root : ℕ)
    → get_asp_membership_root host s ≡ ok root
    → (address : ℕ) × (s.asp_membership ≡ some address) × (host.asp_root address ≡ some root)
unfolding get_asp_membership_root get_asp_membership
asp_read host s root h = ground arith

verifier_read :
    (host : Host) (proof : Proof) (s : Storage)
    → verify_proof host proof s ≡ ok true
    → (address : ℕ) × (s.verifier ≡ some address)
      × (host.verifies address proof.proof (public_inputs proof) ≡ some true)
unfolding verify_proof get_verifier
verifier_read host proof s h = ground arith

hash_read :
    (host : Host) (ext_data : ExtData)
    → hash_ext_data host ext_data ≡ host.ext_data_digest ext_data % bn256_modulus
unfolding hash_ext_data
hash_read host ext_data = refl

-- What the pool promises of a spend, in terms of the state before the call and of what the other
-- contracts answered.
pub record IsSound (host : Host) (proof : Proof) (ext_data : ExtData) (history : List ℕ)
    (s : Storage) : Type 0 where
  pub in_field : InField proof
  pub root_nonzero : proof.root ≢ 0
  pub root_recent : IsRecent history proof.root
  pub bound : proof.ext_data_hash ≡ host.ext_data_digest ext_data % bn256_modulus
  pub small : pos_part ext_data.ext_amount + neg_part ext_data.ext_amount < 2 ^ 248
  pub amount :
      (proof.public_amount + neg_part ext_data.ext_amount) % bn256_modulus
      ≡ pos_part ext_data.ext_amount
  pub enrolled :
      (address : ℕ) × (s.asp_membership ≡ some address)
      × (host.asp_root address ≡ some proof.asp_membership_root)
  pub verified :
      (address : ℕ) × (s.verifier ≡ some address)
      × (host.verifies address proof.proof (public_inputs proof) ≡ some true)

Checked-IsSound :
    {permutation : ℕ → ℕ → ℕ} {depth : ℕ} {pairs : List (ℕ × ℕ)} (host : Host) (proof : Proof)
    (ext_data : ExtData) (s : Storage)
    → IsPool permutation depth pairs s
    → Checked host proof ext_data s
    → IsSound host proof ext_data (history_of permutation (suc depth) pairs) s
Checked-IsSound {permutation} {depth} {pairs} host proof ext_data s pool c =
    let (b, found, meaning) =
      is_known_root_lem (history_of permutation (suc depth) pairs) s.tree proof.root
        pool.tree.ring in
    let (nonzero, recent) = meaning.0 (ok-injective (sym found ∙ c.known)) in
    let small = public_amount_range ext_data.ext_amount c.amount in
    let (pa, computed, below, congruent) = public_amount_value ext_data.ext_amount small in
    let same : pa ≡ proof.public_amount = ok-injective (sym computed ∙ c.amount) in
    record {
      in_field = c.in_field;
      root_nonzero = nonzero;
      root_recent = recent;
      bound = sym c.bound ∙ hash_read host ext_data;
      small = small;
      amount =
          ap (λ (v : ℕ). (v + neg_part ext_data.ext_amount) % bn256_modulus) (sym same) ∙ congruent;
      enrolled = asp_read host s proof.asp_membership_root c.enrolled;
      verified = verifier_read host proof s c.verified;
    }

-- In a pool that satisfies the invariant a call of `transact` or `exit` succeeds only if the sender authorized it, every public input is a
-- field element, the root is one of the last 90 and not zero, the proof is bound to the external
-- data, the public amount stands for the external amount, the membership root is the live one, and
-- the verifier accepts the proof on these inputs.
pub spend-IsSound :
    (permutation : ℕ → ℕ → ℕ) (depth : ℕ) (pairs : List (ℕ × ℕ)) (host : Host) (proof : Proof)
    (ext_data : ExtData) (sender : ℕ) (w w' : World)
    → IsPool permutation depth pairs w.storage
    → Spends host proof ext_data sender w w'
    → (host.authorizes sender ≡ true)
      × IsSound host proof ext_data (history_of permutation (suc depth) pairs) w.storage
spend-IsSound permutation depth pairs host proof ext_data sender w w' pool (inl h) =
    let t = transact-Transacted host proof ext_data sender w w' h in
    let kept = (pay_in-keeps host t.token ext_data sender w t.paid_in t.pays_in).0 in
    (
      t.authorized,
      Checked-IsSound host proof ext_data w.storage pool
          (subst (Checked host proof ext_data) kept t.settled.checked),
    )
spend-IsSound permutation depth pairs host proof ext_data sender w w' pool (inr h) =
    let t = exit-Exited host proof ext_data sender w w' h in
    (t.authorized, Checked-IsSound host proof ext_data w.storage pool t.settled.checked)
