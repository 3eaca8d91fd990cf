-- ===== src/Pool/Amount/Laws.antt =====
-- The public amount against the external amount, and the share of a fee.
use veil_contract.Prelude.{ℕ, ◌+◌, ◌-◌, ◌*◌, ◌/◌, ◌%◌, ◌^◌, ◌≤◌, ◌<◌, ◌≡◌, ok, err, arith}
use veil_contract.Prelude.Int.{ℤ, pos, negsuc, pos_part, neg_part}
use veil_contract.Field.{bn256_modulus}
use veil_contract.Field.Hash.{modulus_value}
use veil_contract.Pool.Types.{wrong_ext_amount}
use veil_contract.Pool.Amount.{calculate_public_amount, max_fee_bps}

-- An external amount below 2 ^ 248 in size has a public amount: itself, or the modulus less it.
pub public_amount_value :
    (x : ℤ)
    → pos_part x + neg_part x < 2 ^ 248
    → (pa : ℕ) × (calculate_public_amount x ≡ ok pa)
      × (pa < bn256_modulus)
      × ((pa + neg_part x) % bn256_modulus ≡ pos_part x)
unfolding calculate_public_amount
public_amount_value (pos n) h =
    (n, ground (arith, modulus_value), omega (arith, modulus_value), rw modulus_value (omega arith))
public_amount_value (negsuc n) h = (
  bn256_modulus - (n + 1),
  ground (arith, modulus_value),
  omega (arith, modulus_value),
  rw modulus_value (omega arith),
)

-- An external amount of 2 ^ 248 or more in size, and below 2 ^ 255, has no public amount: it is
-- refused with `wrong_ext_amount`.
pub public_amount_refused :
    (x : ℤ)
    → 2 ^ 248 ≤ pos_part x + neg_part x
    → pos_part x + neg_part x < 2 ^ 255
    → calculate_public_amount x ≡ err wrong_ext_amount
unfolding calculate_public_amount
public_amount_refused (pos n) h b = ground arith
public_amount_refused (negsuc n) h b = ground arith

-- Only amounts below 2 ^ 248 have a public amount.
pub public_amount_range :
    (x : ℤ) {pa : ℕ} → calculate_public_amount x ≡ ok pa → pos_part x + neg_part x < 2 ^ 248
unfolding calculate_public_amount
public_amount_range (pos n) h = ground arith
public_amount_range (negsuc n) h = ground arith

-- Two external amounts with the same public amount are equal.
pub public_amount_injective :
    (x y : ℤ) {pa : ℕ}
    → calculate_public_amount x ≡ ok pa
    → calculate_public_amount y ≡ ok pa
    → x ≡ y
unfolding calculate_public_amount
public_amount_injective (pos n) (pos m) h k = ground (arith, modulus_value)
public_amount_injective (pos n) (negsuc m) h k = ground (arith, modulus_value)
public_amount_injective (negsuc n) (pos m) h k = ground (arith, modulus_value)
public_amount_injective (negsuc n) (negsuc m) h k = ground (arith, modulus_value)

pub share_le : (n bps : ℕ) → bps ≤ max_fee_bps → n * bps / max_fee_bps ≤ n
share_le n bps le = let product : n * bps ≤ n * 10000 = grind arith in omega arith
