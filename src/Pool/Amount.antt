-- ===== src/Pool/Amount.antt =====
-- Amounts of the pool: the public amount, the fee, and the conversions between the host's widths
-- (contracts/pool/src/contract.rs). An `I256` is an integer between -2 ^ 255 and 2 ^ 255 - 1, and an
-- `i128` one between -2 ^ 127 and 2 ^ 127 - 1.
pub mod Laws
use veil_contract.Prelude.{
  ℕ, suc, ◌+◌, ◌-◌, ◌*◌, ◌/◌, ◌^◌, Bool, Option, some, none, ltb, leb, ◌==◌, if◌then◌else◌, Outcome,
  ok, err, trap, ok_or, refuse_if, ◌>>=◌, ◌>>◌,
}
use veil_contract.Prelude.Int.{ℤ, pos, negsuc, pos_part, neg_part, sub_ℕ, ltb_ℤ, leb_ℤ}
use veil_contract.Field.{bn256_modulus}
use veil_contract.Pool.Types.{ContractError, wrong_ext_amount, overflow}
use veil_contract.Pool.Storage.{Call}

abbrev pub max_fee_bps : ℕ
max_fee_bps = 10000

-- minus n
abbrev pub neg : ℕ → ℤ
neg n = if n == 0 then pos 0 else negsuc (n - 1)

-- `I256::from_i32(env, 0).sub(v)`, which traps at -2 ^ 255.
abbrev pub zero_sub : ℤ → Call ℤ
zero_sub (pos n) = ok (neg n)
zero_sub (negsuc n) = if ltb (n + 1) (2 ^ 255) then ok (pos (n + 1)) else trap

-- `U256::from_be_bytes(env, &v.to_be_bytes())`, two's complement.
abbrev pub u256_bits : ℤ → ℕ
u256_bits (pos n) = n
u256_bits (negsuc n) = 2 ^ 256 - (n + 1)

abbrev pub in_i128 : ℤ → Bool
in_i128 (pos n) = ltb n (2 ^ 127)
in_i128 (negsuc n) = ltb n (2 ^ 127)

-- `I256::to_i128`
abbrev pub to_i128 : ℤ → Option ℤ
to_i128 v = if in_i128 v then some v else none

-- `2 ^ 248`, as `U256::from_parts(env, 0x0100_0000_0000_0000, 0, 0, 0)`
abbrev pub max_ext_amount : ℕ
max_ext_amount = 0x0100_0000_0000_0000 * 2 ^ 192

-- `U256::sub`, which traps below 0.
abbrev pub u256_sub : ℕ → ℕ → Call ℕ
u256_sub a b = if ltb a b then trap else ok (a - b)

unfoldable pub i256_abs_to_u256 : ℤ → Call ℕ
i256_abs_to_u256 v = do abs ← if leb_ℤ (pos 0) v then ok v else zero_sub v; ok (u256_bits abs)

unfoldable pub i256_to_i128_nonneg : ℤ → Call ℤ
i256_to_i128_nonneg v = do
  refuse_if (ltb_ℤ v (pos 0)) wrong_ext_amount
  ok_or (to_i128 v) wrong_ext_amount

unfoldable pub calculate_public_amount : ℤ → Call ℕ
unfolding i256_abs_to_u256
calculate_public_amount ext_amount = do
  abs_ext ← i256_abs_to_u256 ext_amount
  refuse_if (leb max_ext_amount abs_ext) wrong_ext_amount
  (if leb_ℤ (pos 0) ext_amount
      then ok (u256_bits ext_amount)
      else (do neg_amount ← zero_sub ext_amount; u256_sub bn256_modulus (u256_bits neg_amount)))

-- `i128::checked_mul` by a `u32`, `i128::checked_div` by a positive number (towards zero), and
-- `i128::checked_sub`.
abbrev pub checked_mul : ℤ → ℕ → Option ℤ
checked_mul (pos n) k = to_i128 (pos (n * k))
checked_mul (negsuc n) k = to_i128 (neg ((n + 1) * k))

abbrev pub checked_div : ℤ → ℕ → Option ℤ
checked_div (pos n) k = some (pos (n / k))
checked_div (negsuc n) k = some (neg ((n + 1) / k))

abbrev pub checked_sub : ℤ → ℤ → Option ℤ
checked_sub a b = to_i128 (sub_ℕ (pos_part a + neg_part b) (neg_part a + pos_part b))

unfoldable pub calculate_fee_amount : ℤ → ℕ → Call ℤ
calculate_fee_amount amount fee_bps = do
  product ← ok_or (checked_mul amount fee_bps) overflow
  ok_or (checked_div product max_fee_bps) overflow
