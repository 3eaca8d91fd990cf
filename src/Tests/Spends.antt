-- ===== src/Tests/Spends.antt =====
-- The theorems on the pool's calls, at the runs of the small pool.
use veil_contract.Prelude.{
  ℕ, ◌+◌, ◌*◌, ◌^◌, ◌<◌, ◌≤◌, ◌≡◌, ◌⊎◌, ◌≢◌, ◌∙◌, ap, get_elem?, ◌↔◌, refl, inl, inr, [], ◌∷◌, ◌++◌,
  Bool, true, some, ok, arith, false, Bool, ◌⊎◌,
}
use veil_contract.Prelude.Int.{pos, negsuc}
use veil_contract.Field.Zeroes.{get_zeroes}
use veil_contract.Tree.{tree_root}
use veil_contract.Pool.Merkle.{is_known_root}
use veil_contract.Pool.Merkle.Insert.{root_of, history_of}
use veil_contract.Pool.Types.{World}
use veil_contract.Pool.Contract.Admin.{SignedByAdmin, admin_writes, updating_admin, changed}
use veil_contract.Pool.Merkle.{init, init_levels}
use veil_contract.Pool.Storage.{
  set_admin, set_token, set_verifier, set_maximum_deposit, set_nullifiers, set_commitments,
  set_asp_membership, set_fee_recipient, set_fee_bps,
}
use veil_contract.Pool.Contract.{
  transact, configured, update_admin, constructor, get_root, get_config, has_commitment,
}
use veil_contract.Pool.Contract.Deploy.{constructor_lem}
use veil_contract.Pool.Contract.Money.{owed, total}
use veil_contract.Pool.Contract.Moves.{transact_moves, exit_moves}
use veil_contract.Pool.Invariant.{IsPool}
use veil_contract.Pool.Steps.{transacts, exits, here, next}
use veil_contract.Pool.Steps.Invariance.{Evolved, Reach-IsPool}
use veil_contract.Pool.Steps.Spending.{Spends, SpendsOnce, spend_once, no_double_spend}
use veil_contract.Pool.Steps.Leaves.{
  transact_appends, exit_keeps_tree, known_root_window, transact_commits,
}
use veil_contract.Pool.Steps.Success.{transact_succeeds}
use veil_contract.Pool.Guards.{IsSound, spend-IsSound}
use veil_contract.Tests.Toy.{toy, toy-PermutesField, toy-HasZeroTable}
use veil_contract.Tests.Worlds.{
  deposit_checked, value_of, succeeds, succeeds-ok, host, config, fresh, deployed, ext_of,
  deposit_proof, exit_proof, after_deposit, after_exit, deposit_runs, exit_runs, deployed-IsPool,
  deployed-IsConfigured, paid-IsConfigured,
}

no_double_spend_example : ¬ Spends host deposit_proof (ext_of (pos 500)) 9 after_exit after_exit
no_double_spend_example =
    no_double_spend toy 201 host host deposit_proof deposit_proof (ext_of (pos 500))
      (ext_of (pos 500)) 9 9 deployed after_deposit after_exit after_exit (inl deposit_runs)
      (next here (exits host exit_proof (ext_of (negsuc 199)) 9 refl exit_runs)) (inl refl)
      (inl refl)

spend-IsSound_example :
    (host.authorizes 9 ≡ true)
    × IsSound host deposit_proof (ext_of (pos 500)) (history_of toy 1 []) deployed.storage
spend-IsSound_example =
    spend-IsSound toy 0 [] host deposit_proof (ext_of (pos 500)) 9 deployed after_deposit
      deployed-IsPool (inl deposit_runs)

Reach-IsPool_example : Evolved toy 0 [] after_exit.storage
Reach-IsPool_example = Reach-IsPool toy toy-PermutesField 0 [] deployed after_exit deployed-IsPool (
    next (next here (transacts host deposit_proof (ext_of (pos 500)) 9 refl deposit_runs))
      (exits host exit_proof (ext_of (negsuc 199)) 9 refl exit_runs))

spend_once_example : SpendsOnce (203 ∷ 204 ∷ []) after_deposit.storage after_exit.storage
spend_once_example =
    spend_once host exit_proof (ext_of (negsuc 199)) 9 after_deposit after_exit (inr exit_runs)

transact_moves_example :
    after_deposit.transfers ≡ deployed.transfers ++ owed host 2 6 100 (ext_of (pos 500)) 9 (pos 500)
transact_moves_example =
    transact_moves host deposit_proof (ext_of (pos 500)) 9 2 6 100 deployed after_deposit
      deployed-IsConfigured.0 deployed-IsConfigured.1 deployed-IsConfigured.2 (omega arith)
      deposit_runs

exit_moves_example :
    (m : ℕ) × (negsuc 199 ≡ negsuc m)
    × (after_exit.transfers
        ≡ after_deposit.transfers ++ owed host 2 6 100 (ext_of (negsuc 199)) 9 (negsuc m))
    × (total (owed host 2 6 100 (ext_of (negsuc 199)) 9 (negsuc m)) ≡ m + 1)
exit_moves_example =
    exit_moves host exit_proof (ext_of (negsuc 199)) 9 2 6 100 after_deposit after_exit
      paid-IsConfigured.0 paid-IsConfigured.1 paid-IsConfigured.2 (omega arith) exit_runs

constructor_lem_example :
    (w : World) × (constructor config 1 fresh ≡ ok w)
    × (get_config w.storage ≡ ok config)
    × IsPool toy 0 [] w.storage
constructor_lem_example =
    constructor_lem toy config 0 fresh toy-HasZeroTable refl (omega arith) (omega arith)

transact_appends_example :
    (2 * 0 + 2 ≤ 2 ^ 1)
    × IsPool toy 0 ((301, 302) ∷ []) after_deposit.storage
    × (get_root after_deposit.storage ≡ ok (root_of toy 1 ((301, 302) ∷ [])))
transact_appends_example =
    transact_appends host toy-PermutesField 0 [] deposit_proof (ext_of (pos 500)) 9 deployed
      after_deposit deployed-IsPool deposit_runs

filled-IsPool : IsPool toy 0 ((301, 302) ∷ []) after_deposit.storage
filled-IsPool =
    (transact_appends host toy-PermutesField 0 [] deposit_proof (ext_of (pos 500)) 9 deployed
      after_deposit deployed-IsPool deposit_runs).1

exit_keeps_tree_example :
    (2 ^ 1 < 2 * 1 + 2)
    × (after_exit.storage.tree ≡ after_deposit.storage.tree)
    × (after_exit.storage.commitments ≡ after_deposit.storage.commitments)
exit_keeps_tree_example =
    exit_keeps_tree host toy-PermutesField 0 ((301, 302) ∷ []) exit_proof (ext_of (negsuc 199)) 9
      after_deposit after_exit filled-IsPool exit_runs

empty_root_nonzero : root_of toy 1 [] ≢ 0
unfolding tree_root get_zeroes
empty_root_nonzero e =
    let entry = toy-HasZeroTable 1 (omega arith) in
    let zero_entry : get_elem? get_zeroes 1 ≡ some 0 = entry ∙ ap some e in cc

known_root_window_example : is_known_root (root_of toy 1 []) after_deposit.storage.tree ≡ ok true
known_root_window_example =
    known_root_window toy 0 ((301, 302) ∷ []) [] after_deposit.storage filled-IsPool (omega arith)
      empty_root_nonzero

transact_commits_example :
    (has_commitment 301 deployed.storage ≡ ok false)
    × (has_commitment 302 deployed.storage ≡ ok false)
    × ((c : ℕ)
        → (before after : Bool) × (has_commitment c deployed.storage ≡ ok before)
          × (has_commitment c after_deposit.storage ≡ ok after)
          × ((after ≡ true) ↔ ((c ≡ 301) ⊎ ((c ≡ 302) ⊎ (before ≡ true)))))
transact_commits_example =
    transact_commits host toy-PermutesField 0 [] deposit_proof (ext_of (pos 500)) 9 deployed
      after_deposit deployed-IsPool deposit_runs

abbrev renamed : World
renamed = value_of (update_admin host 5 deployed) deployed

renamed_succeeds : succeeds (update_admin host 5 deployed) ≡ true
unfolding constructor configured init init_levels get_zeroes update_admin set_admin set_token
    set_verifier set_maximum_deposit set_nullifiers set_commitments set_asp_membership
    set_fee_recipient set_fee_bps
renamed_succeeds = refl

admin_writes_example :
    SignedByAdmin host deployed.storage × (renamed ≡ changed (updating_admin 5) deployed)
admin_writes_example =
    admin_writes host (updating_admin 5) deployed renamed
      (succeeds-ok (update_admin host 5 deployed) deployed renamed_succeeds)

transact_succeeds_example :
    (w : World) × (transact host deposit_proof (ext_of (pos 500)) 9 deployed ≡ ok w)
transact_succeeds_example =
    transact_succeeds host 0 [] deposit_proof (ext_of (pos 500)) 9 2 6 1000 deployed
      toy-PermutesField deployed-IsPool refl (λ w t. refl) deployed-IsConfigured.0
      deployed-IsConfigured.1 deposit_checked.2 (omega arith) (omega arith) deposit_checked.0
      deposit_checked.1 (omega arith)
