-- ===== src/Fixture/Bits.antt =====
-- Powers of two, siblings and the bits of an index (`merkle_proof` of
-- tools/policy-fixture/src/lib.rs).
use native.Mathlib.Nat.{div-eq_of_lt, pow-suc, pow-le-pow_right}
use veil_contract.Prelude.{
  ℕ, zero, suc, ◌+◌, ◌*◌, ◌/◌, ◌%◌, ◌^◌, ◌≤◌, ◌<◌, inl, inr, ◌≡◌, ◌∙◌, ap, refl, List, [], ◌∷◌,
  some, ok, length, get_elem?, get_or, arith,
}
use veil_contract.Tree.Climb.{parity}
use veil_contract.Fixture.{ilog2, sibling_of, set_bit}
use veil_contract.Indexer.Tree.{flip_low_bit}

pub ilog2-pow : (rounds k : ℕ) → k ≤ rounds → ilog2 rounds (2 ^ k) ≡ k
unfolding ilog2
ilog2-pow zero k h = omega arith
ilog2-pow (suc rounds) zero h = refl
ilog2-pow (suc rounds) (suc k) h =
    let half : 2 ^ suc k / 2 ≡ 2 ^ k = omega (arith, pow-suc 2 k) in
    let large : 2 ≤ 2 ^ suc k =
      pow-le-pow_right {n = 2} (omega arith) {i = 1} {j = suc k} (omega arith) in
    rw half (ground (arith, large, ilog2-pow rounds k (omega arith)))

pub below_pow : (n : ℕ) → n ≤ 2 ^ n
below_pow zero = omega arith
below_pow (suc n) = omega (
  arith,
  below_pow n,
  pow-suc 2 n,
  pow-le-pow_right {n = 2} (omega arith) {i = 0} {j = n} (omega arith),
)

pub get_elem?-get_or :
    (nodes : List ℕ) (i : ℕ) → i < length nodes → get_elem? nodes i ≡ some (get_or nodes i 0)
get_elem?-get_or [] i h = absurd (omega arith)
get_elem?-get_or (a ∷ nodes) zero h = refl
get_elem?-get_or (a ∷ nodes) (suc i) h = get_elem?-get_or nodes i (omega arith)

pub sibling_of_lem : (index : ℕ) → index + 1 < 2 ^ 64 → sibling_of index ≡ ok (flip_low_bit index)
unfolding sibling_of
sibling_of_lem index small = ground arith

pub set_bit_lem :
    (level bits : ℕ) → level < 64 → bits < 2 ^ level → set_bit level bits ≡ ok (bits + 2 ^ level)
unfolding set_bit
set_bit_lem level bits shallow small =
    let clear : bits / 2 ^ level ≡ 0 = div-eq_of_lt small in rw clear (ground (arith, shallow))

double_pow : (n : ℕ) → 2 ^ (n + 1) ≡ 2 ^ n * 2
double_pow n = let next : n + 1 ≡ suc n = omega arith in ap (λ k. 2 ^ k) next ∙ pow-suc 2 n

split_low_bit : (p h r : ℕ) → p * r + p * 2 * h ≡ p * (2 * h + r)
split_low_bit p h r = grind arith

pub flip_low_bit_lt : (index half : ℕ) → index < half * 2 → flip_low_bit index < half * 2
flip_low_bit_lt index half inside = ground arith

-- The number that the bits so far and those of the rest of an index make.
pub bits_total :
    (level index bits : ℕ)
    → bits + 2 ^ level * (index % 2) + 2 ^ (level + 1) * (index / 2) ≡ bits + 2 ^ level * index
bits_total level index bits =
    let whole : 2 * (index / 2) + index % 2 ≡ index = omega arith in
    let parts = split_low_bit (2 ^ level) (index / 2) (index % 2) ∙ ap (λ n. 2 ^ level * n) whole in
    let twice : 2 ^ (level + 1) * (index / 2) ≡ 2 ^ level * 2 * (index / 2) =
      ap (λ n. n * (index / 2)) (double_pow level) in
    omega (arith, parts, twice)

pub bits_lt :
    (level index bits : ℕ) → bits < 2 ^ level → bits + 2 ^ level * (index % 2) < 2 ^ (level + 1)
bits_lt level index bits small = elim (parity index) [
  | inl odd ↦ rw odd (omega (arith, double_pow level))
  | inr even ↦ rw even (omega (arith, double_pow level))
]
