-- ===== src/Pool/Steps.antt =====
-- The calls of a deployed pool as a step relation. Each call has a host of its own, which says who
-- authorized it and how the other contracts answer; the hash stays the same.
-- `upgrade` has no step: after it other code runs.
pub mod Invariance
pub mod Spending
pub mod Leaves
pub mod Success
use veil_contract.Prelude.{ℕ, ◌≡◌, ok}
use veil_contract.Pool.Types.{Proof, ExtData, Account, World, Host}
use veil_contract.Pool.Contract.{
  register, transact, exit, update_admin, update_verifier, update_asp_membership,
}

module _ (permutation : ℕ → ℕ → ℕ) where
  pub data Step (w w' : World) : Type 0 where
    registers : (host : Host) (account : Account) → register host account w ≡ ok w' → Step w w'
    transacts :
        (host : Host) (proof : Proof) (ext_data : ExtData) (sender : ℕ)
        → host.permutation ≡ permutation
        → transact host proof ext_data sender w ≡ ok w'
        → Step w w'
    exits :
        (host : Host) (proof : Proof) (ext_data : ExtData) (sender : ℕ)
        → host.permutation ≡ permutation
        → exit host proof ext_data sender w ≡ ok w'
        → Step w w'
    updates_admin : (host : Host) (admin : ℕ) → update_admin host admin w ≡ ok w' → Step w w'
    updates_verifier :
        (host : Host) (verifier : ℕ) → update_verifier host verifier w ≡ ok w' → Step w w'
    updates_asp_membership :
        (host : Host) (address : ℕ) → update_asp_membership host address w ≡ ok w' → Step w w'

  pub data Reach (w : World) : World → Type 0 where
    here : Reach w w
    next : {u v : World} → Reach w u → Step u v → Reach w v
