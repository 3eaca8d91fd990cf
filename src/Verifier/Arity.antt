-- ===== src/Verifier/Arity.antt =====
-- How many nullifiers a key lets the pool spend: the inputs that the pool hands to the verifier
-- (contracts/pool/src/verifier_boundary.rs) against the length that the verifier asks for.
use native.Mathlib.Decide.{ℕ_discrete}
use veil_contract.Prelude.{
  ◌+◌, ◌*◌, ◌≡◌, ◌∙◌, sym, ◌∷◌, Bool, length, length-append, length-replicate, replicate, ok, err,
  arith,
}
use veil_contract.Verifier.{
  Bn254, VerificationKey, Groth16Proof, verify_with_vk, malformed_public_inputs,
}
use veil_contract.Verifier.Combination.{verify_with_vk-malformed}
use veil_contract.Pool.Types.{Proof}
use veil_contract.Pool.Settle.{public_inputs}

length-public_inputs :
    (proof : Proof) → length (public_inputs proof) ≡ 2 * length proof.input_nullifiers + 5
unfolding public_inputs
length-public_inputs proof = omega (
  arith,
  length-append proof.input_nullifiers (
      proof.output_commitment0
      ∷ proof.output_commitment1
      ∷ replicate (length proof.input_nullifiers) proof.asp_membership_root),
  length-replicate (length proof.input_nullifiers) proof.asp_membership_root,
)

-- A proof that the verifier accepts on the inputs that the pool hands to it spends as many
-- nullifiers as the key has points for: two each, beside six others.
pub verified_arity :
    (bn : Bn254) (vk : VerificationKey) (points : Groth16Proof) (proof : Proof) (b : Bool)
    → verify_with_vk bn vk points (public_inputs proof) ≡ ok b
    → length vk.ic ≡ 2 * length proof.input_nullifiers + 6
verified_arity bn vk points proof b h =
    elim (ℕ_discrete (length (public_inputs proof) + 1) (length vk.ic)) [
      | yes same ↦ omega (arith, length-public_inputs proof)
      | no differs ↦
          (let e : ok b ≡ err malformed_public_inputs =
              sym h ∙ verify_with_vk-malformed bn vk points (public_inputs proof) differs in
            cc)
    ]
