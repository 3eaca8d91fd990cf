-- ===== src/Pool/Steps/Leaves.antt =====
-- What a successful spend does to the tree, and which roots and commitments the pool then knows.
use mathlib.Core.Path.{subst}
use veil_contract.Prelude.{
  ℕ, suc, ◌+◌, ◌*◌, ◌^◌, ◌<◌, ◌≤◌, ◌≡◌, ◌≢◌, ◌∙◌, ◌↔◌, ◌⊎◌, inl, inr, false, Bool-cases, refl, sym,
  ap, Bool, true, List, [], ◌∷◌, ◌++◌, length, get_elem?, some, ok, ok-injective, arith, ltb,
}
use veil_contract.Field.Hash.{PermutesField}
use veil_contract.Pool.Merkle.{is_known_root}
use veil_contract.Pool.Merkle.Roots.{is_known_root_lem, get_last_root_lem}
use veil_contract.Pool.Merkle.Insert.{root_of, history_of}
use veil_contract.Pool.Merkle.Capacity.{is_full_lem}
use veil_contract.Pool.Types.{Proof, ExtData, Storage, World, Host}
use veil_contract.Pool.Settle.{has_mark}
use veil_contract.Pool.Settle.Effects.{spend-Marked}
use veil_contract.Pool.Contract.{transact, exit, get_root, has_commitment}
use veil_contract.Pool.Contract.Calls.{pay_in-keeps, transact-Transacted, exit-Exited}
use veil_contract.Pool.Invariant.{IsLeaf, IsPool}
use veil_contract.Pool.Invariant.Growth.{transact_Grown, exit_storage}

get_root_lem :
    (permutation : ℕ → ℕ → ℕ) (depth : ℕ) (pairs : List (ℕ × ℕ)) (s : Storage)
    → IsPool permutation depth pairs s
    → get_root s ≡ ok (root_of permutation (suc depth) pairs)
unfolding get_root
get_root_lem permutation depth [] s pool =
    rw (get_last_root_lem (history_of permutation (suc depth) []) s.tree pool.tree.ring) refl
get_root_lem permutation depth (pair ∷ pairs) s pool =
    rw (get_last_root_lem (history_of permutation (suc depth) (pair ∷ pairs)) s.tree pool.tree.ring)
      refl

commitment_read :
    (c : ℕ) (s : Storage) (permutation : ℕ → ℕ → ℕ) (depth : ℕ) (pairs : List (ℕ × ℕ))
    → (pool : IsPool permutation depth pairs s) → has_commitment c s ≡ ok (has_mark pool.used c)
unfolding has_commitment
commitment_read c s permutation depth pairs pool = rw pool.has_used refl

has_commitment_lem :
    (permutation : ℕ → ℕ → ℕ) (depth : ℕ) (pairs : List (ℕ × ℕ)) (c : ℕ) (s : Storage)
    → IsPool permutation depth pairs s
    → (b : Bool) × (has_commitment c s ≡ ok b) × ((b ≡ true) ↔ IsLeaf c pairs)
has_commitment_lem permutation depth pairs c s pool = (
  has_mark pool.used c,
  commitment_read c s permutation depth pairs pool,
  (pool.used_leaf c, pool.leaf_used c),
)

has_commitment_unused :
    (permutation : ℕ → ℕ → ℕ) (depth : ℕ) (pairs : List (ℕ × ℕ)) (c : ℕ) (s : Storage)
    → IsPool permutation depth pairs s
    → ¬ IsLeaf c pairs
    → has_commitment c s ≡ ok false
has_commitment_unused permutation depth pairs c s pool unused =
    let (b, answers, meaning) = has_commitment_lem permutation depth pairs c s pool in
    elim (Bool-cases b) [
      | inl known ↦ absurd (unused (meaning.0 known))
      | inr unknown ↦ answers ∙ ap ok unknown
    ]

module _ (host : Host) (closed : PermutesField host.permutation) (depth : ℕ) (pairs : List (ℕ × ℕ))
    (proof : Proof) (ext_data : ExtData) (sender : ℕ) (w w' : World)
    (pool : IsPool host.permutation depth pairs w.storage) where
  -- In a pool that satisfies the invariant a successful `transact` found room for two leaves and has appended the two output commitments:
  -- the invariant holds for the longer tree, and the published root is that of the whole tree.
  pub transact_appends :
      transact host proof ext_data sender w ≡ ok w'
      → (2 * length pairs + 2 ≤ 2 ^ suc depth)
        × IsPool host.permutation depth
            ((proof.output_commitment0, proof.output_commitment1) ∷ pairs)
            w'.storage
        × (get_root w'.storage
            ≡ ok (
                root_of host.permutation
                  (suc depth)
                  ((proof.output_commitment0, proof.output_commitment1) ∷ pairs)))
  transact_appends h =
      let t = transact-Transacted host proof ext_data sender w w' h in
      let kept = (pay_in-keeps host t.token ext_data sender w t.paid_in t.pays_in).0 in
      let grown =
        transact_Grown host closed depth pairs proof ext_data t.paid_in w'
          (subst (IsPool host.permutation depth pairs) (sym kept) pool) t.settled in
      (
        grown.room,
        grown.pool,
        get_root_lem host.permutation depth
            ((proof.output_commitment0, proof.output_commitment1) ∷ pairs) w'.storage grown.pool,
      )

  -- In a pool that satisfies the invariant a successful `transact` publishes two output commitments
  -- that `has_commitment` did not know before; afterwards it answers true for these two and for the
  -- values it knew before, and false for every other.
  pub transact_commits :
      transact host proof ext_data sender w ≡ ok w'
      → (has_commitment proof.output_commitment0 w.storage ≡ ok false)
        × (has_commitment proof.output_commitment1 w.storage ≡ ok false)
        × ((c : ℕ)
            → (before after : Bool) × (has_commitment c w.storage ≡ ok before)
              × (has_commitment c w'.storage ≡ ok after)
              × ((after ≡ true) ↔ (
                  (c ≡ proof.output_commitment0)
                  ⊎ ((c ≡ proof.output_commitment1) ⊎ (before ≡ true)))))
  transact_commits h =
      let (room, pool', published) = transact_appends h in
      let (apart, fresh0, fresh1, others) = pool'.distinct in
      (
        has_commitment_unused host.permutation depth pairs proof.output_commitment0 w.storage pool
            fresh0,
        has_commitment_unused host.permutation depth pairs proof.output_commitment1 w.storage pool
            fresh1,
        λ c.
            let (before, answers, known) =
              has_commitment_lem host.permutation depth pairs c w.storage pool in
            let (after, answers', known') =
              has_commitment_lem host.permutation depth
                ((proof.output_commitment0, proof.output_commitment1) ∷ pairs) c w'.storage pool' in
            (before, after, answers, answers', ground (arith, known, known')),
      )

  -- In a pool that satisfies the invariant a successful `exit` found the tree full, and left the tree and the set of commitments alone.
  pub exit_keeps_tree :
      exit host proof ext_data sender w ≡ ok w'
      → (2 ^ suc depth < 2 * length pairs + 2)
        × (w'.storage.tree ≡ w.storage.tree)
        × (w'.storage.commitments ≡ w.storage.commitments)
  exit_keeps_tree h =
      let t = exit-Exited host proof ext_data sender w w' h in
      let marked = spend-Marked proof.input_nullifiers w.storage t.settled.spent t.settled.marked in
      let final = exit_storage t.settled ∙ marked.now in
      let full : ltb (2 ^ suc depth) (2 * length pairs + 2) ≡ true =
        ok-injective
          (sym (is_full_lem host.permutation depth pairs w.storage.tree pool.tree) ∙ t.full) in
      (ground arith, ap (λ (s : Storage). s.tree) final, ap (λ (s : Storage). s.commitments) final)

get_elem?-history :
    (permutation : ℕ → ℕ → ℕ) (depth : ℕ) (new pairs : List (ℕ × ℕ))
    → get_elem? (history_of permutation (suc depth) (new ++ pairs)) (length new)
      ≡ some (root_of permutation (suc depth) pairs)
get_elem?-history permutation depth [] [] = refl
get_elem?-history permutation depth [] (pair ∷ pairs) = refl
get_elem?-history permutation depth (n ∷ new) pairs = get_elem?-history permutation depth new pairs

-- In a pool that satisfies the invariant each root of the tree, unless it is zero, is still known
-- after up to 89 further insertions.
pub known_root_window :
    (permutation : ℕ → ℕ → ℕ) (depth : ℕ) (new pairs : List (ℕ × ℕ)) (s : Storage)
    → IsPool permutation depth (new ++ pairs) s
    → length new < 90
    → root_of permutation (suc depth) pairs ≢ 0
    → is_known_root (root_of permutation (suc depth) pairs) s.tree ≡ ok true
known_root_window permutation depth new pairs s pool lt nonzero =
    let (b, found, meaning) =
      is_known_root_lem (history_of permutation (suc depth) (new ++ pairs)) s.tree
        (root_of permutation (suc depth) pairs) pool.tree.ring in
    found
    ∙ ap ok (meaning.1 (nonzero, (length new, lt, get_elem?-history permutation depth new pairs)))
