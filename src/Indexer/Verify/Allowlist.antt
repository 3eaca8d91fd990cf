-- ===== src/Indexer/Verify/Allowlist.antt =====
-- What a passed comparison of the allowlist means (`check_allowlist` of
-- services/indexer/src/verify.rs).
use mathlib.Core.Path.{subst}
use veil_contract.Prelude.{
  ℕ, ◌≡◌, ◌∙◌, sym, refl, true, false, List, [], ok, >>=-eq-ok, ok-injective, length, arith,
}
use veil_contract.Asp.Insert.{root_of}
use veil_contract.Indexer.Tree.{new}
use veil_contract.Indexer.Tree.Push.{new-only}
use veil_contract.Indexer.Verify.{
  AllowlistTree, AllowlistRow, Replay, Check, lift_tree, replay, check_allowlist, allowlist_checks,
  all_ok,
}
use veil_contract.Indexer.Verify.Replayed.{
  lift_tree-ok, RowsAgree, replay-IsReplay, RowsAgree-length,
}

-- Checks that all passed while the contract maintains its list.
passed_checks :
    (r : Replay) (state : AllowlistTree)
    → all_ok (allowlist_checks r state) ≡ true
    → state.operator_maintained ≡ false
    → (r.handed_to_operator ≡ false)
      × (r.emitted_roots_match ≡ true)
      × (r.tree.root ≡ state.root)
      × (r.replayed ≡ state.next_index)
unfolding all_ok allowlist_checks
passed_checks r state passed_all on_chain = ground (arith, passed_all, on_chain)

-- If `check_allowlist` passes every check and the contract still maintains its list itself, then the
-- rows are insertions, one leaf each and in order of their indices; every root that was emitted is the
-- root of the full tree over the leaves so far; and the root and the next index on chain are those of
-- the tree over all of them.
pub check_allowlist_lem :
    (permutation : ℕ → ℕ → ℕ) (rows : List AllowlistRow) (state : AllowlistTree)
    (checks : List Check)
    → check_allowlist permutation rows state ≡ ok checks
    → all_ok checks ≡ true
    → state.operator_maintained ≡ false
    → (leaves : List ℕ) × (length leaves ≡ length rows)
      × RowsAgree permutation state.levels [] rows leaves
      × (state.root ≡ root_of permutation state.levels leaves)
      × (state.next_index ≡ length leaves)
unfolding check_allowlist
check_allowlist_lem permutation rows state checks h passed_all on_chain =
    let (tree, fresh, h1) = >>=-eq-ok (lift_tree (new permutation state.levels)) _ h in
    let (r, replayed, h2) = >>=-eq-ok (replay permutation rows _) _ h1 in
    let found =
      passed_checks r state (subst (λ c. all_ok c ≡ true) (sym (ok-injective h2)) passed_all)
        on_chain in
    let (kept, matched, root_is, next_is) = found in
    let (_, (leaves, held, agree)) =
      replay-IsReplay permutation state.levels rows [] _ r
        (record {
          tree = new-only permutation state.levels tree (lift_tree-ok _ tree fresh);
          count = refl;
          on_chain = refl;
        })
        replayed kept matched in
    (
      leaves,
      RowsAgree-length permutation state.levels [] rows leaves agree,
      agree,
      sym root_is ∙ held.tree.has_root,
      sym next_is ∙ held.count,
    )
