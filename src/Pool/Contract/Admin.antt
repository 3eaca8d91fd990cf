-- ===== src/Pool/Contract/Admin.antt =====
-- The administrator's calls.
use veil_contract.Prelude.{ℕ, ◌≡◌, some, ok, true, arith}
use veil_contract.Pool.Types.{Storage, World, Host}
use veil_contract.Pool.Storage.{Call}
use veil_contract.Pool.Contract.{update_admin, update_verifier, update_asp_membership, upgrade}

-- The stored administrator authorized the call.
abbrev pub SignedByAdmin : Host → Storage → Type 0
SignedByAdmin host s = (a : ℕ) × (s.admin ≡ some a) × (host.authorizes a ≡ true)

pub data AdminCall : Type 0 where
  updating_admin updating_verifier updating_asp_membership upgrading : ℕ → AdminCall

abbrev pub run_admin : Host → AdminCall → World → Call World
run_admin host (updating_admin n) w = update_admin host n w
run_admin host (updating_verifier n) w = update_verifier host n w
run_admin host (updating_asp_membership n) w = update_asp_membership host n w
run_admin host (upgrading n) w = upgrade host n w

-- What each call is to change.
abbrev pub changed : AdminCall → World → World
changed (updating_admin n) w = record w { storage = record (w.storage) { admin = some n } }
changed (updating_verifier n) w = record w { storage = record (w.storage) { verifier = some n } }
changed (updating_asp_membership n) w = record w {
  storage = record (w.storage) { asp_membership = some n };
}
changed (upgrading n) w = record w { wasm = n }

-- Replacing the administrator, the verifier, the allowlist or the code succeeds only if the stored
-- administrator authorized it, and changes that one entry, or the code, and nothing else.
pub admin_writes :
    (host : Host) (call : AdminCall) (w w' : World)
    → run_admin host call w ≡ ok w'
    → SignedByAdmin host w.storage × (w' ≡ changed call w)
unfolding update_admin update_verifier update_asp_membership upgrade
admin_writes host (updating_admin n) w w' h = ground arith
admin_writes host (updating_verifier n) w w' h = ground arith
admin_writes host (updating_asp_membership n) w w' h = ground arith
admin_writes host (upgrading n) w w' h = ground arith
