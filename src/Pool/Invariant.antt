-- ===== src/Pool/Invariant.antt =====
-- The invariant of the pool's storage, and how a spend that settles keeps it.
pub mod Growth
pub mod Progress
use native.Mathlib.Decide.{dec_lt}
use veil_contract.Prelude.{
  passed, ran, ℕ, suc, ◌+◌, ◌*◌, ◌^◌, ◌≤◌, ◌<◌, ◌≡◌, ◌≢◌, ◌⊎◌, ◌↔◌, ◌∙◌, inl, inr, refl, sym, ap,
  Bool, true, false, ◌||◌, List, [], ◌∷◌, length, Option, some, none, NatMap, update, ◌==◌, ==_iff,
  Outcome, ok, err, trap, ok_or, refuse_if, ◌>>=◌, >>=-eq-ok, ok-injective, ok_or-eq-ok, arith,
  Bool-cases,
}
use veil_contract.Field.{bn256_modulus}
use veil_contract.Field.Hash.{PermutesField}
use veil_contract.Pool.Merkle.{Store, MerkleError, insert_two_leaves}
use veil_contract.Pool.Merkle.Insert.{IsTree, insert_two_leaves_lem}
use veil_contract.Pool.Merkle.Capacity.{insert_two_leaves-full}
use veil_contract.Pool.Types.{
  ContractError, not_initialized, already_inserted_commitment, Proof, Storage, Host, from_merkle,
}
use veil_contract.Pool.Types
use veil_contract.Pool.Storage.{Call, get_commitments, set_commitments, lift_merkle}
use veil_contract.Pool.Amount.{max_fee_bps}
use veil_contract.Pool.Settle.{
  has_mark, is_commitment_inserted, ensure_commitment_unused, mark_commitment_inserted,
  check_outputs, insert_outputs,
}
use veil_contract.Pool.Settle.Checks.{has_mark-update}
use veil_contract.Pool.Settle.Effects.{Marked}

-- A commitment is a leaf of one of the insertions.
abbrev pub IsLeaf : ℕ → List (ℕ × ℕ) → Type 0
IsLeaf c [] = ⊥
IsLeaf c ((left, right) ∷ pairs) = (c ≡ left) ⊎ ((c ≡ right) ⊎ IsLeaf c pairs)

-- No leaf has been inserted twice.
abbrev pub HasDistinctLeaves : List (ℕ × ℕ) → Type 0
HasDistinctLeaves [] = Unit {0}
HasDistinctLeaves ((left, right) ∷ pairs) =
    (left ≢ right) × (¬ IsLeaf left pairs) × (¬ IsLeaf right pairs) × HasDistinctLeaves pairs

-- The storage of a pool with a tree of `suc depth` levels after a sequence of insertions, the latest
-- first.
pub record IsPool (permutation : ℕ → ℕ → ℕ) (depth : ℕ) (pairs : List (ℕ × ℕ)) (s : Storage)
    : Type 0 where
  pub tree : IsTree permutation depth pairs s.tree
  pub spent : NatMap Bool
  pub has_spent : s.nullifiers ≡ some spent
  pub used : NatMap Bool
  pub has_used : s.commitments ≡ some used
  pub used_leaf : (c : ℕ) → has_mark used c ≡ true → IsLeaf c pairs
  pub leaf_used : (c : ℕ) → IsLeaf c pairs → has_mark used c ≡ true
  pub distinct : HasDistinctLeaves pairs
  pub bps : ℕ
  pub has_bps : s.fee_bps ≡ some bps
  pub bps_le : bps ≤ max_fee_bps

-- Spending nullifiers keeps the invariant.
pub Marked-IsPool :
    {permutation : ℕ → ℕ → ℕ} {depth : ℕ} {pairs : List (ℕ × ℕ)} (ns : List ℕ) (s s' : Storage)
    → IsPool permutation depth pairs s
    → Marked ns s s'
    → IsPool permutation depth pairs s'
Marked-IsPool ns s s' pool marked = rw marked.now (record {
  tree = pool.tree;
  spent = marked.new;
  has_spent = refl;
  used = pool.used;
  has_used = pool.has_used;
  used_leaf = pool.used_leaf;
  leaf_used = pool.leaf_used;
  distinct = pool.distinct;
  bps = pool.bps;
  has_bps = pool.has_bps;
  bps_le = pool.bps_le;
})

-- What the checks of the outputs establish.
pub outputs_unused :
    (proof : Proof) (s : Storage) (used : NatMap Bool)
    → s.commitments ≡ some used
    → check_outputs true proof s ≡ ok tt
    → (has_mark used proof.output_commitment0 ≡ false)
      × (has_mark used proof.output_commitment1 ≡ false)
      × (proof.output_commitment0 ≢ proof.output_commitment1)
unfolding check_outputs ensure_commitment_unused is_commitment_inserted get_commitments
outputs_unused proof s used has h = ground arith

-- Marking the two outputs adds them to the used commitments.
abbrev both_used : NatMap Bool → Proof → NatMap Bool
both_used used proof =
    update (update used proof.output_commitment0 true) proof.output_commitment1 true

both_used_lem :
    (used : NatMap Bool) (proof : Proof) (c : ℕ)
    → has_mark (both_used used proof) c
      ≡ (c == proof.output_commitment1 || (c == proof.output_commitment0 || has_mark used c))
both_used_lem used proof c =
    has_mark-update (update used proof.output_commitment0 true) proof.output_commitment1 c
    ∙ ap (λ b. c == proof.output_commitment1 || b) (has_mark-update used proof.output_commitment0 c)

insert_outputs_run :
    (host : Host) (proof : Proof) (s : Storage) (indices : ℕ × ℕ) (tree : Store)
    (used : NatMap Bool)
    → s.commitments ≡ some used
    → insert_two_leaves host.permutation proof.output_commitment0 proof.output_commitment1 s.tree
      ≡ ok (indices, tree)
    → insert_outputs host true proof s
      ≡ ok (some indices, record s { tree = tree; commitments = some (both_used used proof) })
unfolding insert_outputs mark_commitment_inserted get_commitments set_commitments
insert_outputs_run host proof s indices tree used has inserted = ground arith

insert_outputs_full :
    (host : Host) (proof : Proof) (s : Storage)
    → insert_two_leaves host.permutation proof.output_commitment0 proof.output_commitment1 s.tree
      ≡ err MerkleError.merkle_tree_full
    → insert_outputs host true proof s ≡ err Types.merkle_tree_full
unfolding insert_outputs
insert_outputs_full host proof s full = ground arith
