-- ===== src/Verifier/Mock.antt =====
-- The demo verifier (contracts/mock-verifier/src/lib.rs), which takes one proof. A point is the list
-- of its bytes here.
use veil_contract.Prelude.{
  ℕ, ◌≡◌, refl, Bool, true, false, not, ◌||◌, ◌&&◌, List, [], ◌∷◌, ◌++◌, length, replicate, ◌==◌,
  ok, refuse_if, ◌>>◌, arith,
}
use veil_contract.Pool.Types.{Groth16Proof, is_empty}
use veil_contract.Verifier.{Call, invalid_proof, malformed_public_inputs, malformed_proof}

abbrev pub mock_policy_public_inputs : ℕ
mock_policy_public_inputs = 9

-- Zero bytes, then one with a value.
abbrev byte_after : ℕ → ℕ → List ℕ
byte_after zeros value = replicate zeros 0 ++ (value ∷ [])

abbrev pub mock_g1_bytes : List ℕ
mock_g1_bytes = byte_after 31 1 ++ byte_after 31 2

abbrev pub mock_g2_bytes : List ℕ
mock_g2_bytes = byte_after 31 1 ++ (byte_after 31 1 ++ (byte_after 31 1 ++ byte_after 31 1))

abbrev pub mock_proof : Groth16Proof
mock_proof = record { a = mock_g1_bytes; b = mock_g2_bytes; c = mock_g1_bytes }

abbrev same_bytes : List ℕ → List ℕ → Bool
same_bytes [] [] = true
same_bytes (x ∷ xs) (y ∷ ys) = x == y && same_bytes xs ys
same_bytes _ _ = false

unfoldable pub verify_mock_policy_transaction : Groth16Proof → List ℕ → Call Bool
verify_mock_policy_transaction proof public_inputs = do
  refuse_if (not (length public_inputs == mock_policy_public_inputs)) malformed_public_inputs
  refuse_if (is_empty proof) malformed_proof
  let expected = mock_proof
  refuse_if
      (not (same_bytes proof.a expected.a)
        || (not (same_bytes proof.b expected.b) || not (same_bytes proof.c expected.c)))
      invalid_proof
  ok true

same_bytes-eq : (xs ys : List ℕ) → same_bytes xs ys ≡ true → xs ≡ ys
same_bytes-eq [] [] h = refl
same_bytes-eq [] (y ∷ ys) h = cc
same_bytes-eq (x ∷ xs) [] h = cc
same_bytes-eq (x ∷ xs) (y ∷ ys) h = ground (arith, same_bytes-eq xs ys)

accepted :
    (proof : Groth16Proof) (inputs : List ℕ) (b : Bool)
    → verify_mock_policy_transaction proof inputs ≡ ok b
    → (length inputs ≡ 9)
      × (same_bytes proof.a mock_g1_bytes ≡ true)
      × (same_bytes proof.b mock_g2_bytes ≡ true)
      × (same_bytes proof.c mock_g1_bytes ≡ true)
unfolding verify_mock_policy_transaction
accepted proof inputs b h = ground arith

-- The demo verifier answers without an error only for the one mock proof, with nine public inputs.
pub mock_accepts :
    (proof : Groth16Proof) (inputs : List ℕ) (b : Bool)
    → verify_mock_policy_transaction proof inputs ≡ ok b
    → (proof ≡ mock_proof) × (length inputs ≡ 9)
mock_accepts proof inputs b h =
    let (count, a, b', c) = accepted proof inputs b h in
    let ea = same_bytes-eq proof.a mock_g1_bytes a in
    let eb = same_bytes-eq proof.b mock_g2_bytes b' in
    let ec = same_bytes-eq proof.c mock_g1_bytes c in (cc, count)
