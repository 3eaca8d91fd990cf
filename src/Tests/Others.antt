-- ===== src/Tests/Others.antt =====
-- The theorems on the verifier and the faucet, at small inputs.
use veil_contract.Prelude.{
  List, ℕ, ◌+◌, ◌*◌, ◌≤◌, ◌≡◌, refl, inl, inr, [], ◌∷◌, length, true, some, ok, arith,
}
use veil_contract.Prelude.Int.{pos}
use veil_contract.Pool.Settle.{public_inputs}
use veil_contract.Verifier.{Bn254, VerificationKey, Groth16Proof, verify_with_vk, add_inputs}
use veil_contract.Verifier.Combination.{decision, verify_with_vk_lem}
use veil_contract.Verifier.Mock.{mock_proof, verify_mock_policy_transaction}
use veil_contract.Verifier.Arity.{verified_arity}
use veil_contract.Faucet.{
  World, Host, unwritten, saturating_add, constructor, onboard, drip, here, set_drip,
}
use veil_contract.Faucet.Settings.{settings_signed, setting_drip, is_positive}
use veil_contract.Faucet.Cooldown.{cooldown_kept}
use veil_contract.Tests.Worlds.{value_of, succeeds, succeeds-ok, deposit_proof}

-- Operations on numbers modulo nothing, with a pairing check that always passes.
abbrev toy_bn : Bn254
toy_bn = record {
  g1_mul = λ v s. some (v * s);
  g1_add = λ a b. some (a + b);
  g1_neg = λ a. some a;
  pairing_check = λ ps qs. some true;
}

abbrev toy_vk : VerificationKey
toy_vk = record { alpha = 1; beta = 2; gamma = 3; delta = 4; ic = 5 ∷ 6 ∷ 7 ∷ [] }

abbrev points : Groth16Proof
points = record { a = 1; b = 2; c = 3 }

verify_with_vk_lem_example :
    verify_with_vk toy_bn toy_vk points (8 ∷ 9 ∷ [])
    ≡ decision toy_bn toy_vk 5 (6 ∷ 7 ∷ []) points (8 ∷ 9 ∷ [])
verify_with_vk_lem_example =
    verify_with_vk_lem toy_bn toy_vk 5 (6 ∷ 7 ∷ []) points (8 ∷ 9 ∷ []) refl refl (omega arith)

-- A key with ten points.
abbrev pool_vk : VerificationKey
pool_vk = record toy_vk { ic = 0 ∷ 1 ∷ 2 ∷ 3 ∷ 4 ∷ 5 ∷ 6 ∷ 7 ∷ 8 ∷ 9 ∷ [] }

accepts : verify_with_vk toy_bn pool_vk points (public_inputs deposit_proof) ≡ ok true
unfolding verify_with_vk add_inputs public_inputs
accepts = refl

verified_arity_example : 10 ≡ 2 * length deposit_proof.input_nullifiers + 6
verified_arity_example = verified_arity toy_bn pool_vk points deposit_proof true accepts

abbrev faucet_host : ℕ → Host
faucet_host now = record { sequence = now; authorizes = λ a. true; takes = λ i. true }

abbrev faucet0 : World
faucet0 =
    value_of
      (constructor 1 (some 2) 3 (pos 50) 10
        (record { storage = unwritten; events = []; invocations = [] }))
      (record { storage = unwritten; events = []; invocations = [] })

abbrev faucet1 : World
faucet1 = value_of (onboard (faucet_host 100) 7 71 faucet0) faucet0

abbrev faucet2 : World
faucet2 = value_of (drip (faucet_host 110) 7 faucet1) faucet1

onboard-succeeds : succeeds (onboard (faucet_host 100) 7 71 faucet0) ≡ true
unfolding constructor onboard
onboard-succeeds = refl

drip-succeeds : succeeds (drip (faucet_host 110) 7 faucet1) ≡ true
unfolding constructor onboard drip
drip-succeeds = refl

cooldown_held : faucet1.storage.cooldown_ledgers ≡ some 10
unfolding constructor onboard
cooldown_held = refl

cooldown_kept_example : saturating_add 100 10 ≤ 110
cooldown_kept_example =
    cooldown_kept (faucet_host 100) (faucet_host 110) 7 10 100 faucet0 faucet1 faucet1 faucet2
      (inl (71, succeeds-ok (onboard (faucet_host 100) 7 71 faucet0) faucet0 onboard-succeeds)) here
      cooldown_held (inr (succeeds-ok (drip (faucet_host 110) 7 faucet1) faucet1 drip-succeeds))

abbrev faucet3 : World
faucet3 = value_of (set_drip (faucet_host 120) (pos 60) 20 faucet2) faucet2

set_drip-succeeds : succeeds (set_drip (faucet_host 120) (pos 60) 20 faucet2) ≡ true
unfolding constructor onboard drip set_drip
set_drip-succeeds = refl

settings_signed_example :
    (a : ℕ) × (faucet2.storage.admin ≡ some a)
    × ((faucet_host 120).authorizes a ≡ true)
    × (is_positive (setting_drip (pos 60) 20) ≡ true)
settings_signed_example =
    settings_signed (faucet_host 120) (setting_drip (pos 60) 20) faucet2 faucet3
      (succeeds-ok (set_drip (faucet_host 120) (pos 60) 20 faucet2) faucet2 set_drip-succeeds)

abbrev nine : List ℕ
nine = 1 ∷ 2 ∷ 3 ∷ 4 ∷ 5 ∷ 6 ∷ 7 ∷ 8 ∷ 9 ∷ []

mock_runs : verify_mock_policy_transaction mock_proof nine ≡ ok true
unfolding verify_mock_policy_transaction
mock_runs = refl
