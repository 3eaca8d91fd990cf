-- ===== src/Asp/Admin.antt =====
-- Who may change the allowlist, and what a revocation does: the calls of contract.rs that the
-- administrator signs, and the calls of a deployed allowlist as a step relation.
use veil_contract.Prelude.{ℕ, ◌<◌, ◌≡◌, Bool, true, false, some, ok, err, arith}
use veil_contract.Field.{bn256_modulus}
use veil_contract.Asp.{
  Storage, World, Host, Call, operator_maintained, not_operator_maintained, insert_leaf,
  revoke_leaf, publish_leaf, update_admin, set_admin_insert_only, upgrade, ensure_field_element,
  get_operator_maintained, get_admin_insert_only, get_root, is_operator_maintained,
}

-- The calls that only the administrator may make.
pub data AdminCall : Type 0 where
  revoking : ℕ → ℕ → AdminCall
  publishing : ℕ → ℕ → ℕ → AdminCall
  updating_admin : ℕ → AdminCall
  setting_insert_only : Bool → AdminCall
  upgrading : ℕ → AdminCall

abbrev pub run_admin : Host → AdminCall → World → Call World
run_admin host (revoking leaf new_root) w = revoke_leaf host leaf new_root w
run_admin host (publishing leaf index new_root) w = publish_leaf host leaf index new_root w
run_admin host (updating_admin new_admin) w = update_admin host new_admin w
run_admin host (setting_insert_only admin_only) w = set_admin_insert_only host admin_only w
run_admin host (upgrading new_wasm_hash) w = upgrade host new_wasm_hash w

abbrev pub SignedByAdmin : Host → Storage → Type 0
SignedByAdmin host s = (a : ℕ) × (s.admin ≡ some a) × (host.authorizes a ≡ true)

-- Revoking, publishing, replacing the administrator, opening or closing insertion and upgrading
-- succeed only if the stored administrator authorized the call.
pub admin_call_signed :
    (host : Host) (call : AdminCall) (w w' : World)
    → run_admin host call w ≡ ok w'
    → SignedByAdmin host w.storage
unfolding revoke_leaf publish_leaf update_admin set_admin_insert_only upgrade ensure_field_element
admin_call_signed host (revoking leaf new_root) w w' h = ground arith
admin_call_signed host (publishing leaf index new_root) w w' h = ground arith
admin_call_signed host (updating_admin new_admin) w w' h = ground arith
admin_call_signed host (setting_insert_only admin_only) w w' h = ground arith
admin_call_signed host (upgrading new_wasm_hash) w w' h = ground arith

-- An insertion that succeeds was signed by the administrator, unless anybody may insert.
pub insert_leaf_signed :
    (host : Host) (leaf : ℕ) (w w' : World)
    → get_admin_insert_only w.storage ≡ true
    → insert_leaf host leaf w ≡ ok w'
    → SignedByAdmin host w.storage
unfolding insert_leaf ensure_field_element
insert_leaf_signed host leaf w w' only h = ground arith

-- The calls of a deployed allowlist. After `upgrade` other code runs, so it has no step.
pub data Step (w w' : World) : Type 0 where
  inserts : (host : Host) (leaf : ℕ) → insert_leaf host leaf w ≡ ok w' → Step w w'
  revokes : (host : Host) (leaf new_root : ℕ) → revoke_leaf host leaf new_root w ≡ ok w' → Step w w'
  publishes :
      (host : Host) (leaf index new_root : ℕ)
      → publish_leaf host leaf index new_root w ≡ ok w'
      → Step w w'
  updates_admin : (host : Host) (new_admin : ℕ) → update_admin host new_admin w ≡ ok w' → Step w w'
  opens_or_closes :
      (host : Host) (admin_only : Bool)
      → set_admin_insert_only host admin_only w ≡ ok w'
      → Step w w'

pub data Reach (w : World) : World → Type 0 where
  here : Reach w w
  next : {u v : World} → Reach w u → Step u v → Reach w v

revoked :
    (host : Host) (leaf new_root : ℕ) (w w' : World)
    → revoke_leaf host leaf new_root w ≡ ok w'
    → (get_operator_maintained w'.storage ≡ true)
      × (get_root w'.storage ≡ ok new_root)
      × (new_root < bn256_modulus)
unfolding revoke_leaf ensure_field_element get_root
revoked host leaf new_root w w' h = ground arith

insert_refused :
    (host : Host) (leaf : ℕ) (w : World)
    → get_operator_maintained w.storage ≡ true
    → leaf < bn256_modulus
    → insert_leaf host leaf w ≡ err operator_maintained
unfolding insert_leaf ensure_field_element
insert_refused host leaf w e lt = ground arith

insert_needs_chain_mode :
    (host : Host) (leaf : ℕ) (w w' : World)
    → insert_leaf host leaf w ≡ ok w'
    → get_operator_maintained w.storage ≡ false
unfolding insert_leaf ensure_field_element
insert_needs_chain_mode host leaf w w' h = ground arith

Step-operator :
    (w w' : World)
    → Step w w'
    → get_operator_maintained w.storage ≡ true
    → get_operator_maintained w'.storage ≡ true
unfolding insert_leaf revoke_leaf publish_leaf update_admin set_admin_insert_only
    ensure_field_element
Step-operator w w' (inserts host leaf h) e = let f = insert_needs_chain_mode host leaf w w' h in cc
Step-operator w w' (revokes host leaf new_root h) e = (revoked host leaf new_root w w' h).0
Step-operator w w' (publishes host leaf index new_root h) e = ground arith
Step-operator w w' (updates_admin host new_admin h) e = ground arith
Step-operator w w' (opens_or_closes host admin_only h) e = ground arith

Reach-operator :
    (w w' : World)
    → Reach w w'
    → get_operator_maintained w.storage ≡ true
    → get_operator_maintained w'.storage ≡ true
Reach-operator w w' here e = e
Reach-operator w w' (next {u} reached step) e =
    Step-operator u w' step (Reach-operator w u reached e)

-- A revocation publishes exactly the given root, a field element. From then on, whatever calls
-- follow, the allowlist says that an operator maintains it and refuses every insertion of a field
-- element with `operator_maintained`.
pub revocation_is_final :
    (host host' : Host) (leaf new_root leaf' : ℕ) (w w1 w2 : World)
    → revoke_leaf host leaf new_root w ≡ ok w1
    → Reach w1 w2
    → leaf' < bn256_modulus
    → (get_root w1.storage ≡ ok new_root)
      × (new_root < bn256_modulus)
      × (is_operator_maintained w2.storage ≡ true)
      × (insert_leaf host' leaf' w2 ≡ err operator_maintained)
unfolding is_operator_maintained
revocation_is_final host host' leaf new_root leaf' w w1 w2 h reached lt =
    let r = revoked host leaf new_root w w1 h in
    let mode = Reach-operator w1 w2 reached r.0 in
    (r.1, r.2, mode, insert_refused host' leaf' w2 mode lt)

-- Before any revocation an operator cannot publish: `publish_leaf` of field elements is refused
-- with `not_operator_maintained`.
pub publish_leaf-on_chain :
    (host : Host) (leaf index new_root : ℕ) (w : World)
    → get_operator_maintained w.storage ≡ false
    → leaf < bn256_modulus
    → new_root < bn256_modulus
    → publish_leaf host leaf index new_root w ≡ err not_operator_maintained
unfolding publish_leaf ensure_field_element
publish_leaf-on_chain host leaf index new_root w e lt lt' = ground arith
