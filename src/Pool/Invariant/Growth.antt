-- ===== src/Pool/Invariant/Growth.antt =====
-- The invariant under the writes of a spend that settles, with and without its outputs.
use native.Mathlib.Decide.{dec_lt}
use veil_contract.Prelude.{
  ℕ, suc, ◌+◌, ◌*◌, ◌^◌, ◌≤◌, ◌<◌, ◌≡◌, ◌≢◌, ◌∙◌, refl, sym, ap, Bool, true, false, List, ◌∷◌,
  length, Option, some, ok, ok-injective, arith,
}
use veil_contract.Field.{bn256_modulus}
use veil_contract.Field.Hash.{PermutesField}
use veil_contract.Pool.Merkle.Insert.{insert_two_leaves_lem}
use veil_contract.Pool.Merkle.Capacity.{insert_two_leaves-full}
use veil_contract.Pool.Types.{Proof, ExtData, Storage, World, Host}
use veil_contract.Pool.Settle.{has_mark, insert_outputs}
use veil_contract.Pool.Settle.Effects.{spend-Marked, pay_out-keeps}
use veil_contract.Pool.Settle.Trace.{Settled, announce-keeps}
use veil_contract.Pool.Invariant.{
  IsLeaf, IsPool, Marked-IsPool, outputs_unused, both_used, both_used_lem, insert_outputs_run,
  insert_outputs_full,
}

module _ (host : Host) (closed : PermutesField host.permutation) (depth : ℕ) (pairs : List (ℕ × ℕ))
    (proof : Proof) where
  abbrev pub grown : List (ℕ × ℕ)
  grown = (proof.output_commitment0, proof.output_commitment1) ∷ pairs

  -- What a step that inserts the outputs has done.
  pub record Grown (inserted : Option (ℕ × ℕ)) (s s' : Storage) : Type 0 where
    pub room : 2 * length pairs + 2 ≤ 2 ^ suc depth
    pub indices : inserted ≡ some (2 * length pairs, 2 * length pairs + 1)
    pub pool : IsPool host.permutation depth grown s'
    pub same_nullifiers : s'.nullifiers ≡ s.nullifiers

  module _ (s : Storage) (pool : IsPool host.permutation depth pairs s)
      (fresh0 : has_mark pool.used proof.output_commitment0 ≡ false)
      (fresh1 : has_mark pool.used proof.output_commitment1 ≡ false)
      (apart : proof.output_commitment0 ≢ proof.output_commitment1) where
    not-IsLeaf : (c : ℕ) → has_mark pool.used c ≡ false → ¬ IsLeaf c pairs
    not-IsLeaf c unmarked leaf = ground (arith, pool.leaf_used c leaf)

    used-IsLeaf' : (c : ℕ) → has_mark (both_used pool.used proof) c ≡ true → IsLeaf c grown
    used-IsLeaf' c h = ground (arith, both_used_lem pool.used proof c, pool.used_leaf c)

    leaf_used' : (c : ℕ) → IsLeaf c grown → has_mark (both_used pool.used proof) c ≡ true
    leaf_used' c leaf = both_used_lem pool.used proof c ∙ ground (arith, pool.leaf_used c)

    outputs_Grown :
        (inserted : Option (ℕ × ℕ)) (s' : Storage)
        → proof.output_commitment0 < bn256_modulus
        → proof.output_commitment1 < bn256_modulus
        → insert_outputs host true proof s ≡ ok (inserted, s')
        → Grown inserted s s'
    outputs_Grown inserted s' lt0 lt1 h = elim (dec_lt (2 ^ suc depth) (2 * length pairs + 2)) [
      | yes full ↦ cc (
        h,
        insert_outputs_full host proof s (
            insert_two_leaves-full host.permutation depth pairs s.tree pool.tree
              proof.output_commitment0 proof.output_commitment1 full),
      )
      | no room ↦
          let (tree, inserts, is_tree) =
            insert_two_leaves_lem host.permutation closed depth proof.output_commitment0
              proof.output_commitment1 pairs s.tree pool.tree lt0 lt1 (omega arith) in
          let result = ok-injective (
            sym h
            ∙ insert_outputs_run host proof s (2 * length pairs, 2 * length pairs + 1) tree
                pool.used pool.has_used inserts) in
          rw
            (
              ap (λ (p : Option (ℕ × ℕ) × Storage). p.1) result,
              ap (λ (p : Option (ℕ × ℕ) × Storage). p.0) result,
            )
            (record {
              room = omega arith;
              indices = refl;
              pool = record {
                tree = is_tree;
                spent = pool.spent;
                has_spent = pool.has_spent;
                used = both_used pool.used proof;
                has_used = refl;
                used_leaf = used-IsLeaf';
                leaf_used = leaf_used';
                distinct = (apart, not-IsLeaf _ fresh0, not-IsLeaf _ fresh1, pool.distinct);
                bps = pool.bps;
                has_bps = pool.has_bps;
                bps_le = pool.bps_le;
              };
              same_nullifiers = refl;
            })
    ]

-- The storage that a settled spend leaves is the one that it had before it paid.
pub storage-Settled :
    {host : Host} {proof : Proof} {ext_data : ExtData} {insert : Bool} {w w' : World}
    → (t : Settled host proof ext_data insert w w') → w'.storage ≡ t.final
storage-Settled {host} {proof} {ext_data} t =
    ap (λ (v : World). v.storage) t.announced
    ∙ (announce-keeps host proof ext_data t.token t.bucket t.payout t.inserted t.paid).0
    ∙ (pay_out-keeps host t.token ext_data t.payout t.paying t.paid t.pays).0
    ∙ t.starts_paying.0

-- Without insertion the storage is the one in which the nullifiers are marked.
pub exit_storage :
    {host : Host} {proof : Proof} {ext_data : ExtData} {w w' : World}
    → (t : Settled host proof ext_data false w w') → w'.storage ≡ t.spent
unfolding insert_outputs
exit_storage {host} {proof} {ext_data} {w} {w'} t =
    storage-Settled t
    ∙ sym (ap (λ (p : Option (ℕ × ℕ) × Storage). p.1) (ok-injective t.has_inserted))

module _ (host : Host) (closed : PermutesField host.permutation) (depth : ℕ) (pairs : List (ℕ × ℕ))
    (proof : Proof) (ext_data : ExtData) (w w' : World) where
  pub transact_Grown :
      IsPool host.permutation depth pairs w.storage
      → (t : Settled host proof ext_data true w w')
      → Grown host closed depth pairs proof t.inserted t.spent w'.storage
  transact_Grown pool t =
      let marked = spend-Marked proof.input_nullifiers w.storage t.spent t.marked in
      let pool' = Marked-IsPool proof.input_nullifiers w.storage t.spent pool marked in
      let (fresh0, fresh1, apart) =
        outputs_unused proof w.storage pool'.used
          (sym (ap (λ (s : Storage). s.commitments) marked.now) ∙ pool'.has_used) t.outputs in
      rw (storage-Settled t) (
        outputs_Grown host closed depth pairs proof t.spent pool' fresh0 fresh1 apart t.inserted
          t.final t.checked.in_field.commitment0_lt t.checked.in_field.commitment1_lt
          t.has_inserted)

  pub exit_IsPool :
      IsPool host.permutation depth pairs w.storage
      → Settled host proof ext_data false w w'
      → IsPool host.permutation depth pairs w'.storage
  exit_IsPool pool t = rw (exit_storage t) (
      Marked-IsPool proof.input_nullifiers w.storage t.spent pool
        (spend-Marked proof.input_nullifiers w.storage t.spent t.marked))
