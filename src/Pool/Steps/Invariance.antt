-- ===== src/Pool/Steps/Invariance.antt =====
-- The invariant of the pool over sequences of its calls.
use mathlib.Core.Path.{subst}
use mathlib.Core.List.{append_assoc}
use veil_contract.Prelude.{ℕ, ◌≡◌, ◌∙◌, sym, List, [], ◌∷◌, ◌++◌, ok, arith}
use veil_contract.Field.Hash.{PermutesField}
use veil_contract.Pool.Merkle.Insert.{IsTree}
use veil_contract.Pool.Types.{Proof, ExtData, Account, Storage, World, Host}
use veil_contract.Pool.Contract.{
  register, transact, exit, update_admin, update_verifier, update_asp_membership,
}
use veil_contract.Pool.Contract.Calls.{pay_in-keeps, transact-Transacted, exit-Exited}
use veil_contract.Pool.Invariant.{IsPool}
use veil_contract.Pool.Invariant.Growth.{transact_Grown, exit_IsPool}
use veil_contract.Pool.Steps.{
  Step, registers, transacts, exits, updates_admin, updates_verifier, updates_asp_membership, Reach,
  here, next,
}

-- The entries that `IsPool` speaks of.
abbrev pub SamePool : Storage → Storage → Type 0
SamePool s s' =
    (s'.tree ≡ s.tree)
    × (s'.nullifiers ≡ s.nullifiers)
    × (s'.commitments ≡ s.commitments)
    × (s'.fee_bps ≡ s.fee_bps)

-- Every other call keeps the entries that the invariant speaks of.
pub other_calls_keep :
    (host : Host) (account : Account) (address : ℕ) (w w' : World)
    → (register host account w ≡ ok w' → SamePool w.storage w'.storage)
      × (update_admin host address w ≡ ok w' → SamePool w.storage w'.storage)
      × (update_verifier host address w ≡ ok w' → SamePool w.storage w'.storage)
      × (update_asp_membership host address w ≡ ok w' → SamePool w.storage w'.storage)
unfolding register update_admin update_verifier update_asp_membership
other_calls_keep host account address w w' =
    ((λ h. ground arith), (λ h. ground arith), (λ h. ground arith), (λ h. ground arith))

SamePool-IsPool :
    {permutation : ℕ → ℕ → ℕ} {depth : ℕ} {pairs : List (ℕ × ℕ)} (s s' : Storage)
    → SamePool s s'
    → IsPool permutation depth pairs s
    → IsPool permutation depth pairs s'
SamePool-IsPool {permutation} {depth} {pairs} s s' (tree, nullifiers, commitments, fee_bps) pool =
    record {
      tree = subst (IsTree permutation depth pairs) (sym tree) pool.tree;
      spent = pool.spent;
      has_spent = nullifiers ∙ pool.has_spent;
      used = pool.used;
      has_used = commitments ∙ pool.has_used;
      used_leaf = pool.used_leaf;
      leaf_used = pool.leaf_used;
      distinct = pool.distinct;
      bps = pool.bps;
      has_bps = fee_bps ∙ pool.has_bps;
      bps_le = pool.bps_le;
    }

-- The pool after further insertions.
abbrev pub Evolved : (ℕ → ℕ → ℕ) → ℕ → List (ℕ × ℕ) → Storage → Type 0
Evolved permutation depth pairs s = (new : List (ℕ × ℕ)) × IsPool permutation depth (new ++ pairs) s

abbrev pub nobody : Account
nobody = record { owner = 0; encryption_key = []; note_key = [] }

module _ (permutation : ℕ → ℕ → ℕ) (closed : PermutesField permutation) (depth : ℕ) where
  pub transact-IsPool :
      (pairs : List (ℕ × ℕ)) (w w' : World) (host : Host) (proof : Proof) (ext_data : ExtData)
      (sender : ℕ)
      → host.permutation ≡ permutation
      → transact host proof ext_data sender w ≡ ok w'
      → IsPool permutation depth pairs w.storage
      → IsPool permutation depth
          ((proof.output_commitment0, proof.output_commitment1) ∷ pairs)
          w'.storage
  transact-IsPool pairs w w' host proof ext_data sender same h pool =
      let t = transact-Transacted host proof ext_data sender w w' h in
      let kept = pay_in-keeps host t.token ext_data sender w t.paid_in t.pays_in in
      let pool' : IsPool host.permutation depth pairs t.paid_in.storage = rw (same, kept.0) pool in
      let after =
        (transact_Grown host (subst PermutesField (sym same) closed) depth pairs proof ext_data
          t.paid_in w' pool' t.settled).pool in
      subst
        (λ p.
          IsPool p depth ((proof.output_commitment0, proof.output_commitment1) ∷ pairs) w'.storage)
        same after

  pub exit-IsPool :
      (pairs : List (ℕ × ℕ)) (w w' : World) (host : Host) (proof : Proof) (ext_data : ExtData)
      (sender : ℕ)
      → host.permutation ≡ permutation
      → exit host proof ext_data sender w ≡ ok w'
      → IsPool permutation depth pairs w.storage
      → IsPool permutation depth pairs w'.storage
  exit-IsPool pairs w w' host proof ext_data sender same h pool =
      let t = exit-Exited host proof ext_data sender w w' h in
      let pool' : IsPool host.permutation depth pairs w.storage = rw same pool in
      subst (λ p. IsPool p depth pairs w'.storage) same
        (exit_IsPool host (subst PermutesField (sym same) closed) depth pairs proof ext_data w w'
          pool' t.settled)

  pub Step-IsPool :
      (pairs : List (ℕ × ℕ)) (w w' : World)
      → Step permutation w w'
      → IsPool permutation depth pairs w.storage
      → Evolved permutation depth pairs w'.storage
  Step-IsPool pairs w w' (registers host account h) pool =
      ([], SamePool-IsPool w.storage w'.storage ((other_calls_keep host account 0 w w').0 h) pool)
  Step-IsPool pairs w w' (transacts host proof ext_data sender same h) pool = (
    (proof.output_commitment0, proof.output_commitment1) ∷ [],
    transact-IsPool pairs w w' host proof ext_data sender same h pool,
  )
  Step-IsPool pairs w w' (exits host proof ext_data sender same h) pool =
      ([], exit-IsPool pairs w w' host proof ext_data sender same h pool)
  Step-IsPool pairs w w' (updates_admin host admin h) pool = (
    [],
    SamePool-IsPool w.storage w'.storage ((other_calls_keep host nobody admin w w').1 h) pool,
  )
  Step-IsPool pairs w w' (updates_verifier host verifier h) pool = (
    [],
    SamePool-IsPool w.storage w'.storage ((other_calls_keep host nobody verifier w w').2 h) pool,
  )
  Step-IsPool pairs w w' (updates_asp_membership host address h) pool = (
    [],
    SamePool-IsPool w.storage w'.storage ((other_calls_keep host nobody address w w').3 h) pool,
  )

  -- Whatever calls succeed after a pool state that satisfies the invariant, the invariant holds
  -- again, and the tree's leaves have only been added to.
  pub Reach-IsPool :
      (pairs : List (ℕ × ℕ)) (w w' : World)
      → IsPool permutation depth pairs w.storage
      → Reach permutation w w'
      → Evolved permutation depth pairs w'.storage
  Reach-IsPool pairs w w' pool here = ([], pool)
  Reach-IsPool pairs w w' pool (next {u} reached step) =
      let (new, middle) = Reach-IsPool pairs w u pool reached in
      let (newer, last) = Step-IsPool (new ++ pairs) u w' step middle in
      (newer ++ new, rw append_assoc last)
