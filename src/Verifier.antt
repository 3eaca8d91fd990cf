-- ===== src/Verifier.antt =====
-- The Groth16 verifier (contracts/verifier/src/contract.rs). The host's BN254 operations are
-- parameters; a point is the number that stands for it, and an operation on what is no valid point
-- has no value, and traps.
pub mod Combination
pub mod Arity
pub mod Mock
use veil_contract.Prelude.{
  ℕ, zero, suc, ◌+◌, ◌^◌, Bool, true, false, not, List, [], ◌∷◌, Option, some, none, length,
  get_elem?, ltb, ◌==◌, if◌then◌else◌, Outcome, ok, err, trap, ok_or, or_trap, refuse_if, ◌>>=◌,
  ◌>>◌,
}

-- `contract_types::Groth16Error`
pub data Groth16Error : Type 0 where
  invalid_proof malformed_public_inputs malformed_proof : Groth16Error

-- `env.crypto().bn254()`, and the negation of a point of the first group.
pub record Bn254 : Type 0 where
  pub g1_mul : ℕ → ℕ → Option ℕ
  pub g1_add : ℕ → ℕ → Option ℕ
  pub g1_neg : ℕ → Option ℕ
  pub pairing_check : List ℕ → List ℕ → Option Bool

pub record Groth16Proof : Type 0 where
  pub a : ℕ
  pub b : ℕ
  pub c : ℕ

pub record VerificationKey : Type 0 where
  pub alpha : ℕ
  pub beta : ℕ
  pub gamma : ℕ
  pub delta : ℕ
  pub ic : List ℕ

abbrev pub Call : Type 0 → Type 0
Call A = Outcome Groth16Error A

-- `a.checked_add(b)` of `u32`
abbrev pub checked_add : ℕ → ℕ → Option ℕ
checked_add a b = if ltb (a + b) (2 ^ 32) then some (a + b) else none

-- `x != Some(n)`
abbrev pub differs : Option ℕ → ℕ → Bool
differs none n = true
differs (some m) n = not (m == n)

-- `for i in 0..pub_inputs.len()`, with the rounds left.
unfoldable pub add_inputs : Bn254 → List ℕ → List ℕ → ℕ → ℕ → ℕ → Call ℕ
add_inputs bn ic pub_inputs zero i vk_x = ok vk_x
add_inputs bn ic pub_inputs (suc rounds) i vk_x = do
  s ← ok_or (get_elem? pub_inputs i) malformed_public_inputs
  ic_idx ← ok_or (checked_add i 1) malformed_public_inputs
  v ← ok_or (get_elem? ic ic_idx) malformed_public_inputs
  prod ← or_trap (bn.g1_mul v s)
  vk_x' ← or_trap (bn.g1_add vk_x prod)
  add_inputs bn ic pub_inputs rounds (i + 1) vk_x'

unfoldable pub verify_with_vk : Bn254 → VerificationKey → Groth16Proof → List ℕ → Call Bool
verify_with_vk bn vk proof pub_inputs = do
  refuse_if (differs (checked_add (length pub_inputs) 1) (length vk.ic)) malformed_public_inputs
  vk_x0 ← ok_or (get_elem? vk.ic 0) malformed_public_inputs
  vk_x ← add_inputs bn vk.ic pub_inputs (length pub_inputs) 0 vk_x0
  neg_a ← or_trap (bn.g1_neg proof.a)
  passes ← or_trap (
      bn.pairing_check (neg_a ∷ vk.alpha ∷ vk_x ∷ proof.c ∷ [])
        (proof.b ∷ vk.beta ∷ vk.gamma ∷ vk.delta ∷ []))
  if passes then ok true else err invalid_proof
