-- ===== src/Verifier/Combination.antt =====
-- The linear combination of the inputs in `verify_with_vk` (contracts/verifier/src/contract.rs).
use mathlib.Core.Path.{ap₂}
use veil_contract.Prelude.{
  ℕ, zero, suc, ◌+◌, ◌<◌, ◌≤◌, ◌^◌, ◌≡◌, ◌≢◌, ◌∙◌, sym, ap, refl, Bool, true, List, [], ◌∷◌, length,
  get_elem?, Option, none, some, or_trap, ◌>>=◌, ltb, ◌==◌, ==_iff, if◌then◌else◌, ok, err, arith,
}
use veil_contract.Verifier.{
  Bn254, Groth16Proof, VerificationKey, Call, invalid_proof, malformed_public_inputs, add_inputs,
  verify_with_vk,
}

abbrev and_then : Option ℕ → (ℕ → Option ℕ) → Option ℕ
and_then none rest = none
and_then (some sum) rest = rest sum

-- A point, plus a point times an input.
abbrev plus_product : Bn254 → ℕ → ℕ → ℕ → Option ℕ
plus_product bn sum v s = and_then (bn.g1_mul v s) (λ product. bn.g1_add sum product)

-- A point, plus each further point of the key times its input.
abbrev pub combine : Bn254 → ℕ → List ℕ → List ℕ → Option ℕ
combine bn sum (v ∷ vs) (s ∷ ss) =
    and_then (plus_product bn sum v s) (λ next. combine bn next vs ss)
combine bn sum _ _ = some sum

one_trap :
    {A : Type 0} (o : Option ℕ) (f : ℕ → Option ℕ) (rest : ℕ → Call A)
    → (or_trap o >>= λ product. or_trap (f product) >>= rest) ≡ (or_trap (and_then o f) >>= rest)
one_trap none f rest = refl
one_trap (some product) f rest = refl

combined :
    (o : Option ℕ) (rest : ℕ → Call ℕ) (further : ℕ → Option ℕ)
    → ((sum : ℕ) → rest sum ≡ or_trap (further sum))
    → (or_trap o >>= rest) ≡ or_trap (and_then o further)
combined none rest further same = refl
combined (some sum) rest further same = same sum

-- The entries of a list from an index on.
abbrev pub from : ℕ → List ℕ → List ℕ
from i [] = []
from zero (x ∷ xs) = x ∷ xs
from (suc i) (x ∷ xs) = from i xs

from-step :
    (i : ℕ) (xs : List ℕ)
    → i < length xs
    → (x : ℕ) × (get_elem? xs i ≡ some x) × (from i xs ≡ x ∷ from (suc i) xs)
from-step i [] lt = absurd (omega arith)
from-step zero (x ∷ []) lt = (x, refl, refl)
from-step zero (x ∷ y ∷ xs) lt = (x, refl, refl)
from-step (suc i) (x ∷ xs) lt = from-step i xs (omega arith)

from-beyond : (i : ℕ) (xs : List ℕ) → length xs ≤ i → from i xs ≡ []
from-beyond i [] le = refl
from-beyond zero (x ∷ xs) le = absurd (omega arith)
from-beyond (suc i) (x ∷ xs) le = from-beyond i xs (omega arith)

module _ (bn : Bn254) where
  add_step :
      (ic inputs : List ℕ) (rounds i sum s v : ℕ)
      → get_elem? inputs i ≡ some s
      → get_elem? ic (i + 1) ≡ some v
      → i + 1 < 2 ^ 32
      → add_inputs bn ic inputs (suc rounds) i sum ≡ (
          or_trap (bn.g1_mul v s) >>= λ product.
          or_trap (bn.g1_add sum product) >>= λ next. add_inputs bn ic inputs rounds (i + 1) next)
  unfolding add_inputs
  add_step ic inputs rounds i sum s v has_s has_v small =
      let fits : ltb (i + 1) (2 ^ 32) ≡ true = ground (arith, small) in rw (has_s, fits, has_v) refl

  add_inputs_lem :
      (ic inputs : List ℕ) (rounds i sum : ℕ)
      → length inputs + 1 ≡ length ic
      → length ic < 2 ^ 32
      → i + rounds ≡ length inputs
      → add_inputs bn ic inputs rounds i sum
        ≡ or_trap (combine bn sum (from (suc i) ic) (from i inputs))
  unfolding add_inputs
  add_inputs_lem ic inputs zero i sum same small at =
      rw (from-beyond i inputs (omega arith), from-beyond (suc i) ic (omega arith)) refl
  add_inputs_lem ic inputs (suc rounds) i sum same small at =
      let (s, has_s, split_s) = from-step i inputs (omega arith) in
      let (v, has_v, split_v) = from-step (suc i) ic (omega arith) in
      let at_next : suc i ≡ i + 1 = omega arith in
      add_step ic inputs rounds i sum s v has_s (ap (get_elem? ic) (sym at_next) ∙ has_v)
        (omega arith)
      ∙ one_trap (bn.g1_mul v s) (λ product. bn.g1_add sum product)
          (λ next. add_inputs bn ic inputs rounds (i + 1) next)
      ∙ combined (plus_product bn sum v s) (λ next. add_inputs bn ic inputs rounds (i + 1) next)
          (λ next. combine bn next (from (suc (i + 1)) ic) (from (i + 1) inputs))
          (λ next. add_inputs_lem ic inputs rounds (i + 1) next same small (omega arith))
      ∙ sym (
          ap₂ (λ a b. or_trap (combine bn sum a b))
            (split_v ∙ ap (λ k. v ∷ from (suc k) ic) at_next)
            (split_s ∙ ap (λ k. s ∷ from k inputs) at_next))

  -- What the verifier answers once the combination of the inputs is a point.
  abbrev pub paired : VerificationKey → Groth16Proof → ℕ → Call Bool
  paired vk proof sum = do
    neg_a ← or_trap (bn.g1_neg proof.a)
    passes ← or_trap (
        bn.pairing_check (neg_a ∷ vk.alpha ∷ sum ∷ proof.c ∷ [])
          (proof.b ∷ vk.beta ∷ vk.gamma ∷ vk.delta ∷ []))
    if passes then ok true else err invalid_proof

  -- What the verifier decides, from the key and the inputs: the pairing check over the first point of
  -- the key plus each further point times its input.
  abbrev pub decision : VerificationKey → ℕ → List ℕ → Groth16Proof → List ℕ → Call Bool
  decision vk first rest proof inputs =
      or_trap (combine bn first rest inputs) >>= λ sum. paired vk proof sum

  verify_run :
      (vk : VerificationKey) (first : ℕ) (sum : Call ℕ) (proof : Groth16Proof) (inputs : List ℕ)
      → length inputs + 1 ≡ length vk.ic
      → length vk.ic < 2 ^ 32
      → get_elem? vk.ic 0 ≡ some first
      → add_inputs bn vk.ic inputs (length inputs) 0 first ≡ sum
      → verify_with_vk bn vk proof inputs ≡ (sum >>= λ point. paired vk proof point)
  unfolding verify_with_vk
  verify_run vk first sum proof inputs same small has added =
      let fits : ltb (length inputs + 1) (2 ^ 32) ≡ true = ground (arith, same, small) in
      let agrees : (length inputs + 1 == length vk.ic) ≡ true = (==_iff _ _).1 same in
      rw (fits, agrees, has, added) refl

  from_start : (xs : List ℕ) → from 0 xs ≡ xs
  from_start [] = refl
  from_start (x ∷ xs) = refl

  -- With one input fewer than the key has points, and fewer than 2 ^ 32 points, the verifier answers by the pairing check over the
  -- inputs' linear combination: true, or `invalid_proof`; it traps where an operation on points has no
  -- value.
  pub verify_with_vk_lem :
      (vk : VerificationKey) (first : ℕ) (rest : List ℕ) (proof : Groth16Proof) (inputs : List ℕ)
      → vk.ic ≡ first ∷ rest
      → length inputs ≡ length rest
      → length rest + 1 < 2 ^ 32
      → verify_with_vk bn vk proof inputs ≡ decision vk first rest proof inputs
  verify_with_vk_lem vk first rest proof inputs points same small =
      let count : length vk.ic ≡ length rest + 1 = ap length points ∙ omega arith in
      verify_run vk first (or_trap (combine bn first (from 1 vk.ic) (from 0 inputs))) proof inputs
        (omega arith) (omega arith) (ap (λ l. get_elem? l 0) points)
        (add_inputs_lem vk.ic inputs (length inputs) 0 first (omega arith) (omega arith)
          (omega arith))
      ∙ ap₂ (λ a b. or_trap (combine bn first a b) >>= λ sum. paired vk proof sum)
          (ap (from 1) points ∙ from_start rest) (from_start inputs)

  -- With any other number of inputs it answers `malformed_public_inputs`.
  pub verify_with_vk-malformed :
      (vk : VerificationKey) (proof : Groth16Proof) (inputs : List ℕ)
      → length inputs + 1 ≢ length vk.ic
      → verify_with_vk bn vk proof inputs ≡ err malformed_public_inputs
  unfolding verify_with_vk
  verify_with_vk-malformed vk proof inputs ne = ground arith
