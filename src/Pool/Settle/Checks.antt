-- ===== src/Pool/Settle/Checks.antt =====
-- What the checks ahead of a spend establish.
use veil_contract.Prelude.{
  double_negation, ℕ, ◌<◌, ◌≡◌, ◌≢◌, Bool, true, false, not, List, [], ◌∷◌, some, NatMap, update,
  ◌==◌, ==_iff, Outcome, ok, err, trap, refuse_if-ok, passed, ran, >>=-eq-ok, arith, sym, ap, ◌∙◌,
  All, inl, inr, ◌||◌, Bool-cases,
}
use veil_contract.Field.{bn256_modulus}
use veil_contract.Pool.Merkle.{is_known_root}
use veil_contract.Pool.Types.{Proof, ExtData, Storage, Host}
use veil_contract.Pool.Storage.{lift_merkle}
use veil_contract.Pool.Amount.{calculate_public_amount}
use veil_contract.Pool.Settle.{
  ensure_field_element, ensure_field_elements, ensure_proof_field_elements, has_mark, all_unspent,
  ensure_nullifiers_unspent, hash_ext_data, get_asp_membership_root, verify_proof, check_spend,
}

lift_merkle-ok : {A : Type 0} (m : Outcome _ A) (a : A) → lift_merkle m ≡ ok a → m ≡ ok a
lift_merkle-ok (ok b) a h = cc
lift_merkle-ok (err e) a h = cc
lift_merkle-ok trap a h = cc

-- Every public input of a proof lies in the field.
pub record InField (proof : Proof) : Type 0 where
  pub root_lt : proof.root < bn256_modulus
  pub amount_lt : proof.public_amount < bn256_modulus
  pub nullifiers_lt : All (λ n. n < bn256_modulus) proof.input_nullifiers
  pub commitment0_lt : proof.output_commitment0 < bn256_modulus
  pub commitment1_lt : proof.output_commitment1 < bn256_modulus
  pub asp_root_lt : proof.asp_membership_root < bn256_modulus

element_lt : (v : ℕ) {u : Unit {0}} → ensure_field_element v ≡ ok u → v < bn256_modulus
unfolding ensure_field_element
element_lt v h = ground arith

elements_lt :
    (vs : List ℕ) {u : Unit {0}} → ensure_field_elements vs ≡ ok u → All (λ n. n < bn256_modulus) vs
unfolding ensure_field_elements
elements_lt [] h = tt
elements_lt (v ∷ vs) h =
    let (first, rest) = ran (ensure_field_element v) (ensure_field_elements vs) h in
    (element_lt v first, elements_lt vs rest)

pub proof-InField :
    (proof : Proof) {u : Unit {0}} → ensure_proof_field_elements proof ≡ ok u → InField proof
unfolding ensure_proof_field_elements
proof-InField proof h =
    let (a, h1) = ran (ensure_field_element proof.root) _ h in
    let (b, h2) = ran (ensure_field_element proof.public_amount) _ h1 in
    let (c, h3) = ran (ensure_field_elements proof.input_nullifiers) _ h2 in
    let (d, h4) = ran (ensure_field_element proof.output_commitment0) _ h3 in
    let (e, f) = ran (ensure_field_element proof.output_commitment1) _ h4 in
    record {
      root_lt = element_lt proof.root a;
      amount_lt = element_lt proof.public_amount b;
      nullifiers_lt = elements_lt proof.input_nullifiers c;
      commitment0_lt = element_lt proof.output_commitment0 d;
      commitment1_lt = element_lt proof.output_commitment1 e;
      asp_root_lt = element_lt proof.asp_membership_root f;
    }

abbrev pub Fresh : NatMap Bool → List ℕ → Type 0
Fresh stored ns = All (λ n. has_mark stored n ≡ false) ns

-- No two entries of a list are equal.
abbrev pub AllDistinct : List ℕ → Type 0
AllDistinct [] = Unit {0}
AllDistinct (n ∷ ns) = All (λ m. m ≢ n) ns × AllDistinct ns

pub has_mark-update :
    (m : NatMap Bool) (k j : ℕ) → has_mark (update m k true) j ≡ (j == k || has_mark m j)
has_mark-update m k j = elim (Bool-cases (j == k)) [
  | inl e ↦ let there : update m k true j ≡ some true = rw e in rw (there, e)
  | inr e ↦ let other : update m k true j ≡ m j = rw e in rw (other, e)
]

unmarked :
    (seen : NatMap Bool) (n m : ℕ)
    → has_mark (update seen n true) m ≡ false
    → (has_mark seen m ≡ false) × (m ≢ n)
unmarked seen n m h =
    let either : (m == n || has_mark seen m) ≡ false = sym (has_mark-update seen n m) ∙ h in
    ground arith

unseen_weaken :
    (seen : NatMap Bool) (n : ℕ) (ns : List ℕ)
    → Fresh (update seen n true) ns
    → Fresh seen ns × All (λ m. m ≢ n) ns
unseen_weaken seen n [] h = (tt, tt)
unseen_weaken seen n (m ∷ ns) h =
    let rest = unseen_weaken seen n ns h.1 in
    let (old, other) = unmarked seen n m h.0 in ((old, rest.0), (other, rest.1))

pub all_unspent-Fresh :
    (stored seen : NatMap Bool) (ns : List ℕ) {u : Unit {0}}
    → all_unspent stored seen ns ≡ ok u
    → Fresh stored ns × Fresh seen ns × AllDistinct ns
unfolding all_unspent
all_unspent-Fresh stored seen [] h = (tt, tt, tt)
all_unspent-Fresh stored seen (n ∷ ns) h =
    let (neither, rest) = passed _ _ (all_unspent stored (update seen n true) ns) h in
    let (fresh, unseen, distinct) = all_unspent-Fresh stored (update seen n true) ns rest in
    let (weaker, others) = unseen_weaken seen n ns unseen in
    ((ground arith, fresh), (ground arith, weaker), (others, distinct))

-- What `check_spend` has established when it lets a spend through.
pub record Checked (host : Host) (proof : Proof) (ext_data : ExtData) (s : Storage) : Type 0 where
  pub in_field : InField proof
  pub known : is_known_root proof.root s.tree ≡ ok true
  pub unspent : ensure_nullifiers_unspent proof.input_nullifiers s ≡ ok tt
  pub bound : hash_ext_data host ext_data ≡ proof.ext_data_hash
  pub amount : calculate_public_amount ext_data.ext_amount ≡ ok proof.public_amount
  pub enrolled : get_asp_membership_root host s ≡ ok proof.asp_membership_root
  pub verified : verify_proof host proof s ≡ ok true

pub check_spend-Checked :
    (host : Host) (proof : Proof) (ext_data : ExtData) (s : Storage)
    → check_spend host proof ext_data s ≡ ok tt
    → Checked host proof ext_data s
unfolding check_spend
check_spend-Checked host proof ext_data s h =
    let (fields, h1) = ran (ensure_proof_field_elements proof) _ h in
    let (known, is_known, h2) = >>=-eq-ok (lift_merkle (is_known_root proof.root s.tree)) _ h1 in
    let (unknown, h3) = passed (not known) _ _ h2 in
    let (unspent, h4) = ran (ensure_nullifiers_unspent proof.input_nullifiers s) _ h3 in
    let (hashed, h5) = passed _ _ _ h4 in
    let (expected, computed, h6) = >>=-eq-ok (calculate_public_amount ext_data.ext_amount) _ h5 in
    let (matches, h7) = passed _ _ _ h6 in
    let (member_root, live, h8) = >>=-eq-ok (get_asp_membership_root host s) _ h7 in
    let (same_root, h9) = passed _ _ _ h8 in
    let (verified, answer, h10) = >>=-eq-ok (verify_proof host proof s) _ h9 in
    record {
      in_field = proof-InField proof fields;
      known = lift_merkle-ok _ true (is_known ∙ ap ok (double_negation known unknown));
      unspent = unspent;
      bound = (==_iff _ _).0 (double_negation _ hashed);
      amount = computed ∙ ap ok (sym ((==_iff _ _).0 (double_negation _ matches)));
      enrolled = live ∙ ap ok ((==_iff _ _).0 (double_negation _ same_root));
      verified = answer ∙ ap ok (double_negation verified (refuse_if-ok (not verified) _ tt h10));
    }
