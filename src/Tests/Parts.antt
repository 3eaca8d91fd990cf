-- ===== src/Tests/Parts.antt =====
-- The theorems on the pool's tree and amounts, at the small pool and at concrete amounts.
use veil_contract.Prelude.{ℕ, ◌+◌, ◌%◌, ◌<◌, ◌≡◌, ◌≢◌, ◌↔◌, [], ◌∷◌, Bool, true, ok, arith}
use veil_contract.Prelude.Int.{negsuc, neg_part, pos_part}
use veil_contract.Field.{bn256_modulus}
use veil_contract.Field.Hash.{modulus_value}
use veil_contract.Pool.Merkle.{Store, insert_two_leaves, is_known_root}
use veil_contract.Pool.Merkle.Insert.{IsTree, history_of, insert_two_leaves_lem}
use veil_contract.Pool.Merkle.Roots.{IsRecent, is_known_root_lem}
use veil_contract.Pool.Amount.{calculate_public_amount}
use veil_contract.Pool.Amount.Laws.{public_amount_value}
use veil_contract.Tests.Toy.{toy, toy-PermutesField}
use veil_contract.Tests.Worlds.{deployed, deployed-IsPool}

insert_two_leaves_lem_example :
    (s : Store) × (insert_two_leaves toy 301 302 deployed.storage.tree ≡ ok ((0, 1), s))
    × IsTree toy 0 ((301, 302) ∷ []) s
insert_two_leaves_lem_example =
    insert_two_leaves_lem toy toy-PermutesField 0 301 302 [] deployed.storage.tree
      deployed-IsPool.tree (omega (arith, modulus_value)) (omega (arith, modulus_value))
      (omega arith)

full_tree : (s : Store) × IsTree toy 0 ((301, 302) ∷ []) s
full_tree =
    let (s, _, tree) =
      insert_two_leaves_lem toy toy-PermutesField 0 301 302 [] deployed.storage.tree
        deployed-IsPool.tree (omega (arith, modulus_value)) (omega (arith, modulus_value))
        (omega arith) in
    (s, tree)

is_known_root_lem_example :
    (b : Bool) × (is_known_root 5 full_tree.0 ≡ ok b)
    × ((b ≡ true) ↔ (◌≢◌ {A = ℕ} 5 0 × IsRecent (history_of toy 1 ((301, 302) ∷ [])) 5))
is_known_root_lem_example =
    is_known_root_lem (history_of toy 1 ((301, 302) ∷ [])) full_tree.0 5 full_tree.1.ring

public_amount_value_example :
    (pa : ℕ) × (calculate_public_amount (negsuc 199) ≡ ok pa)
    × (pa < bn256_modulus)
    × ((pa + neg_part (negsuc 199)) % bn256_modulus ≡ pos_part (negsuc 199))
public_amount_value_example = public_amount_value (negsuc 199) (omega arith)
