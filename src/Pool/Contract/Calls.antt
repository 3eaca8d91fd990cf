-- ===== src/Pool/Contract/Calls.antt =====
-- The course of the calls that end with a value.
use veil_contract.Prelude.{passed, ran, ℕ, ◌≡◌, Bool, true, false, some, ok, >>=-eq-ok, arith, not}
use veil_contract.Prelude.Int.{pos, leb_ℤ}
use veil_contract.Pool.Merkle.{is_full}
use veil_contract.Pool.Types.{Proof, ExtData, Storage, World, Host}
use veil_contract.Pool.Storage.{get_token, get_admin, require_auth, lift_merkle}
use veil_contract.Pool.Settle.Trace.{Settled, settle-Settled}
use veil_contract.Pool.Contract.{pay_in, transact, exit, as_admin}

pub pay_in-keeps :
    (host : Host) (token : ℕ) (ext_data : ExtData) (sender : ℕ) (w w' : World)
    → pay_in host token ext_data sender w ≡ ok w'
    → (w'.storage ≡ w.storage) × (w'.events ≡ w.events) × (w'.wasm ≡ w.wasm)
unfolding pay_in
pay_in-keeps host token ext_data sender w w' h = ground arith

pub auth-ok :
    (host : Host) (a : ℕ) {u : Unit {0}} → require_auth host a ≡ ok u → host.authorizes a ≡ true
auth-ok host a h = ground arith

token_read : (s : Storage) (token : ℕ) → get_token s ≡ ok token → s.token ≡ some token
unfolding get_token
token_read s token h = ground arith

-- A call of `transact` that succeeds: its authorization, what was paid in, and the spend.
pub record Transacted (host : Host) (proof : Proof) (ext_data : ExtData) (sender : ℕ) (w w' : World)
    : Type 0 where
  pub authorized : host.authorizes sender ≡ true
  pub token : ℕ
  pub has_token : w.storage.token ≡ some token
  pub paid_in : World
  pub pays_in : pay_in host token ext_data sender w ≡ ok paid_in
  pub settled : Settled host proof ext_data true paid_in w'

pub transact-Transacted :
    (host : Host) (proof : Proof) (ext_data : ExtData) (sender : ℕ) (w w' : World)
    → transact host proof ext_data sender w ≡ ok w'
    → Transacted host proof ext_data sender w w'
unfolding transact
transact-Transacted host proof ext_data sender w w' h =
    let (auth, h1) = ran (require_auth host sender) _ h in
    let (token, has_token, h2) = >>=-eq-ok (get_token w.storage) _ h1 in
    let (paid, pays, h3) = >>=-eq-ok (pay_in host token ext_data sender w) _ h2 in
    record {
      authorized = auth-ok host sender auth;
      token = token;
      has_token = token_read w.storage token has_token;
      paid_in = paid;
      pays_in = pays;
      settled = settle-Settled host proof ext_data true paid w' h3;
    }

-- A call of `exit` that succeeds.
pub record Exited (host : Host) (proof : Proof) (ext_data : ExtData) (sender : ℕ) (w w' : World)
    : Type 0 where
  pub authorized : host.authorizes sender ≡ true
  pub full : is_full w.storage.tree ≡ ok true
  pub withdraws : leb_ℤ (pos 0) ext_data.ext_amount ≡ false
  pub settled : Settled host proof ext_data false w w'

full_read :
    (w : World) (full : Bool)
    → lift_merkle (is_full w.storage.tree) ≡ ok full
    → not full ≡ false
    → is_full w.storage.tree ≡ ok true
full_read w full h e = ground arith

pub exit-Exited :
    (host : Host) (proof : Proof) (ext_data : ExtData) (sender : ℕ) (w w' : World)
    → exit host proof ext_data sender w ≡ ok w'
    → Exited host proof ext_data sender w w'
unfolding exit
exit-Exited host proof ext_data sender w w' h =
    let (auth, h1) = ran (require_auth host sender) _ h in
    let (full, has_full, h2) = >>=-eq-ok (lift_merkle (is_full w.storage.tree)) _ h1 in
    let (not_full, h3) = passed (not full) _ _ h2 in
    let (withdraws, h4) = passed (leb_ℤ (pos 0) ext_data.ext_amount) _ _ h3 in
    record {
      authorized = auth-ok host sender auth;
      full = full_read w full has_full not_full;
      withdraws = withdraws;
      settled = settle-Settled host proof ext_data false w w' h4;
    }

-- A write of the administrator: authorized by the stored admin, and nothing but the write.
pub as_admin-ok :
    (host : Host) (write : Storage → Storage) (w w' : World)
    → as_admin host write w ≡ ok w'
    → (admin : ℕ) × (w.storage.admin ≡ some admin)
      × (host.authorizes admin ≡ true)
      × (w' ≡ record w { storage = write w.storage })
unfolding as_admin get_admin
as_admin-ok host write w w' h = ground arith
