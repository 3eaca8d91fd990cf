-- ===== src/Tests/Allowlists.antt =====
-- The theorems on the allowlist, at an allowlist of one level.
use mathlib.Core.Path.{subst}
use veil_contract.Prelude.{
  ok-injective, sym, ◌∙◌, ℕ, ◌<◌, ◌≡◌, refl, List, [], ◌∷◌, true, some, ok, err, ◌==◌, arith,
}
use veil_contract.Field.{bn256_modulus, from_be_bytes, poseidon2_compress, u256_add}
use veil_contract.Field.Zeroes.{get_zeroes}
use veil_contract.Tree.{climb, climb_step}
use veil_contract.Field.Hash.{modulus_value}
use veil_contract.Asp.{
  World, Host, Call, init_levels, get_admin_insert_only, unwritten, constructor, insert_leaf,
  revoke_leaf, get_root, is_operator_maintained, operator_maintained, ensure_field_element,
}
use veil_contract.Asp.Insert.{IsAllowlist, MayInsert, insert_leaf_lem}
use veil_contract.Asp.Deploy.{constructor-IsAllowlist}
use veil_contract.Asp.Admin.{
  revoking, SignedByAdmin, admin_call_signed, insert_leaf_signed, revocation_is_final, here,
}
use veil_contract.Indexer.Tree.{IncrementalTree, new, push, root}
use veil_contract.Indexer.Tree.Push.{IsTree, new-IsTree}
use veil_contract.Indexer.Tree.Agreement.{insert_leaf-push-root}
use veil_contract.Tests.Worlds.{value_of, succeeds, succeeds-ok}
use veil_contract.Tests.Toy.{toy, toy-PermutesField, toy-HasZeroTable}

abbrev asp_host : Host
asp_host = record { permutation = toy; authorizes = λ a. a == 1; uploaded = λ h. true }

abbrev asp_fresh : World
asp_fresh = record { storage = unwritten; events = []; wasm = 0 }

abbrev list0 : World
list0 = value_of (constructor 1 1 asp_fresh) asp_fresh

abbrev list1 : World
list1 = value_of (insert_leaf asp_host 71 list0) list0

abbrev list2 : World
list2 = value_of (insert_leaf asp_host 72 list1) list1

abbrev revoked : World
revoked = value_of (revoke_leaf asp_host 71 99 list2) list2

list0_succeeds : succeeds (constructor 1 1 asp_fresh) ≡ true
unfolding constructor init_levels insert_leaf revoke_leaf ensure_field_element climb climb_step
    poseidon2_compress u256_add bn256_modulus from_be_bytes get_zeroes toy
list0_succeeds = refl

list1_succeeds : succeeds (insert_leaf asp_host 71 list0) ≡ true
unfolding constructor init_levels insert_leaf revoke_leaf ensure_field_element climb climb_step
    poseidon2_compress u256_add bn256_modulus from_be_bytes get_zeroes toy
list1_succeeds = refl

list2_succeeds : succeeds (insert_leaf asp_host 72 list1) ≡ true
unfolding constructor init_levels insert_leaf revoke_leaf ensure_field_element climb climb_step
    poseidon2_compress u256_add bn256_modulus from_be_bytes get_zeroes toy
list2_succeeds = refl

revoked_succeeds : succeeds (revoke_leaf asp_host 71 99 list2) ≡ true
unfolding constructor init_levels insert_leaf revoke_leaf ensure_field_element climb climb_step
    poseidon2_compress u256_add bn256_modulus from_be_bytes get_zeroes toy
revoked_succeeds = refl

same-IsAllowlist :
    (levels : ℕ) (members : List ℕ) (m : Call World) (d w : World)
    → m ≡ ok w
    → IsAllowlist toy levels members w.storage
    → succeeds m ≡ true
    → IsAllowlist toy levels members (value_of m d).storage
same-IsAllowlist levels members m d w e list h =
    subst (λ (v : World). IsAllowlist toy levels members v.storage)
      (ok-injective (sym e ∙ succeeds-ok m d h)) list

may0 : MayInsert asp_host list0.storage
unfolding constructor init_levels insert_leaf revoke_leaf ensure_field_element climb climb_step
    poseidon2_compress u256_add bn256_modulus from_be_bytes get_zeroes toy
may0 = (1, refl, λ only. refl)

may1 : MayInsert asp_host list1.storage
unfolding constructor init_levels insert_leaf revoke_leaf ensure_field_element climb climb_step
    poseidon2_compress u256_add bn256_modulus from_be_bytes get_zeroes toy
may1 = (1, refl, λ only. refl)

only0 : get_admin_insert_only list0.storage ≡ true
unfolding constructor init_levels insert_leaf revoke_leaf ensure_field_element climb climb_step
    poseidon2_compress u256_add bn256_modulus from_be_bytes get_zeroes toy
only0 = refl

list0-IsAllowlist : IsAllowlist toy 1 [] list0.storage
list0-IsAllowlist =
    let (w, e, _, list) =
      constructor-IsAllowlist toy 1 1 asp_fresh toy-HasZeroTable refl (omega arith) (omega arith) in
    same-IsAllowlist 1 [] (constructor 1 1 asp_fresh) asp_fresh w e list list0_succeeds

list1-IsAllowlist : IsAllowlist toy 1 (71 ∷ []) list1.storage
list1-IsAllowlist =
    let (w, e, list) =
      insert_leaf_lem asp_host toy-PermutesField 1 71 [] list0 list0-IsAllowlist may0
        (omega (arith, modulus_value)) (omega arith) in
    same-IsAllowlist 1 (71 ∷ []) (insert_leaf asp_host 71 list0) list0 w e list list1_succeeds

constructor-IsAllowlist_example :
    (w : World) × (constructor 1 1 asp_fresh ≡ ok w)
    × (w.storage.admin ≡ some 1)
    × IsAllowlist toy 1 [] w.storage
constructor-IsAllowlist_example =
    constructor-IsAllowlist toy 1 1 asp_fresh toy-HasZeroTable refl (omega arith) (omega arith)

insert_leaf_lem_example :
    (w : World) × (insert_leaf asp_host 72 list1 ≡ ok w)
    × IsAllowlist toy 1 (71 ∷ 72 ∷ []) w.storage
insert_leaf_lem_example =
    insert_leaf_lem asp_host toy-PermutesField 1 72 (71 ∷ []) list1 list1-IsAllowlist may1
      (omega (arith, modulus_value)) (omega arith)

tree0 : (tree : IncrementalTree) × (new toy 1 ≡ ok tree) × IsTree toy 1 [] tree
tree0 = new-IsTree toy 1 (omega arith, omega arith)

insert_leaf-push-root_example :
    (w : World) × (tree' : IncrementalTree) × (top : ℕ) × (insert_leaf asp_host 71 list0 ≡ ok w)
    × (w.storage.root ≡ some top)
    × (push toy 71 tree0.0 ≡ ok (top, tree'))
    × (root toy 1 ((0, 71) ∷ []) ≡ ok top)
insert_leaf-push-root_example =
    insert_leaf-push-root asp_host toy-PermutesField 1 71 [] list0 tree0.0 list0-IsAllowlist tree0.2
      may0 (omega (arith, modulus_value)) (omega arith)

admin_call_signed_example : SignedByAdmin asp_host list2.storage
admin_call_signed_example =
    admin_call_signed asp_host (revoking 71 99) list2 revoked
      (succeeds-ok (revoke_leaf asp_host 71 99 list2) list2 revoked_succeeds)

insert_leaf_signed_example : SignedByAdmin asp_host list0.storage
insert_leaf_signed_example =
    insert_leaf_signed asp_host 71 list0 list1 only0
      (succeeds-ok (insert_leaf asp_host 71 list0) list0 list1_succeeds)

revocation_is_final_example :
    (get_root revoked.storage ≡ ok 99)
    × (99 < bn256_modulus)
    × (is_operator_maintained revoked.storage ≡ true)
    × (insert_leaf asp_host 73 revoked ≡ err operator_maintained)
revocation_is_final_example =
    revocation_is_final asp_host asp_host 71 99 73 list2 revoked revoked
      (succeeds-ok (revoke_leaf asp_host 71 99 list2) list2 revoked_succeeds) here
      (omega (arith, modulus_value))
