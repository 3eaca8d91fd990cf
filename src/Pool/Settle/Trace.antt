-- ===== src/Pool/Settle/Trace.antt =====
-- The course of a spend that settles: the values between its steps, and what each step leaves alone.
use veil_contract.Prelude.{
  ran, ℕ, ◌≡◌, ◌∙◌, refl, sym, ap, Bool, List, [], ◌∷◌, Option, some, none, ok, ok_or, >>=-eq-ok,
  ok-injective,
}
use veil_contract.Prelude.Int.{ℤ}
use veil_contract.Pool.Types.{wrong_ext_amount, new_nullifier, Proof, ExtData, Storage, World, Host}
use veil_contract.Pool.Storage.{get_token, publish}
use veil_contract.Pool.Amount.{to_i128}
use veil_contract.Pool.Settle.{
  check_spend, check_outputs, spend_nullifiers_once, publish_nullifiers, payout_of, insert_outputs,
  pay_out, publish_exits, publish_settlements, announce, settle,
}
use veil_contract.Pool.Settle.Checks.{Checked, check_spend-Checked}

-- Worlds that differ in their events alone.
abbrev pub SameButEvents : World → World → Type 0
SameButEvents w w' = (w'.storage ≡ w.storage) × (w'.transfers ≡ w.transfers) × (w'.wasm ≡ w.wasm)

pub publish_nullifiers-keeps : (ns : List ℕ) (w : World) → SameButEvents w (publish_nullifiers ns w)
unfolding publish_nullifiers
publish_nullifiers-keeps [] w = (refl, refl, refl)
publish_nullifiers-keeps (n ∷ ns) w = publish_nullifiers-keeps ns (publish (new_nullifier n) w)

module _ (host : Host) (proof : Proof) (ext_data : ExtData) (token : ℕ) (bucket : ℤ) where
  publish_exits-keeps :
      (ns : List ℕ) (w : World)
      → SameButEvents w (publish_exits host proof ext_data token bucket ns w)
  unfolding publish_exits
  publish_exits-keeps [] w = (refl, refl, refl)
  publish_exits-keeps (n ∷ ns) w = publish_exits-keeps ns _

  publish_settlements-keeps :
      (recipient : Option ℕ) (indices : ℕ × ℕ) (ns : List ℕ) (w : World)
      → SameButEvents w (publish_settlements host proof recipient token bucket indices ns w)
  unfolding publish_settlements
  publish_settlements-keeps recipient (i, j) [] w = (refl, refl, refl)
  publish_settlements-keeps recipient (i, j) (n ∷ ns) w =
      publish_settlements-keeps recipient (i, j) ns _

  pub announce-keeps :
      (payout : Option (ℤ × ℤ)) (inserted : Option (ℕ × ℕ)) (w : World)
      → SameButEvents w (announce host proof ext_data token bucket payout inserted w)
  unfolding announce
  announce-keeps payout none w = publish_exits-keeps proof.input_nullifiers w
  announce-keeps payout (some (i, j)) w =
      publish_settlements-keeps _ (i, j) proof.input_nullifiers _

-- What a spend that settled went through. `insert` is true for `transact` and false for `exit`.
pub record Settled (host : Host) (proof : Proof) (ext_data : ExtData) (insert : Bool) (w w' : World)
    : Type 0 where
  pub spent : Storage
  pub token : ℕ
  pub payout : Option (ℤ × ℤ)
  pub inserted : Option (ℕ × ℕ)
  pub final : Storage
  pub paying : World
  pub paid : World
  pub bucket : ℤ
  pub checked : Checked host proof ext_data w.storage
  pub outputs : check_outputs insert proof w.storage ≡ ok tt
  pub marked : spend_nullifiers_once proof.input_nullifiers w.storage ≡ ok spent
  pub has_token : get_token spent ≡ ok token
  pub has_payout : payout_of ext_data spent ≡ ok payout
  pub has_inserted : insert_outputs host insert proof spent ≡ ok (inserted, final)
  pub starts_paying :
      (paying.storage ≡ final) × (paying.transfers ≡ w.transfers) × (paying.wasm ≡ w.wasm)
  pub pays : pay_out host token ext_data payout paying ≡ ok paid
  pub announced : w' ≡ announce host proof ext_data token bucket payout inserted paid

pub settle-Settled :
    (host : Host) (proof : Proof) (ext_data : ExtData) (insert : Bool) (w w' : World)
    → settle host proof ext_data insert w ≡ ok w'
    → Settled host proof ext_data insert w w'
unfolding settle
settle-Settled host proof ext_data insert w w' h =
    let (checked, h1) = ran (check_spend host proof ext_data w.storage) _ h in
    let (outputs, h2) = ran (check_outputs insert proof w.storage) _ h1 in
    let (spent, marked, h3) =
      >>=-eq-ok (spend_nullifiers_once proof.input_nullifiers w.storage) _ h2 in
    let w1 = publish_nullifiers proof.input_nullifiers (record w { storage = spent }) in
    let kept = publish_nullifiers-keeps proof.input_nullifiers (record w { storage = spent }) in
    let (token, has_token, h4) = >>=-eq-ok (get_token w1.storage) _ h3 in
    let (payout, has_payout, h5) = >>=-eq-ok (payout_of ext_data w1.storage) _ h4 in
    let (made, has_inserted, h6) = >>=-eq-ok (insert_outputs host insert proof w1.storage) _ h5 in
    let (paid, pays, h7) =
      >>=-eq-ok (pay_out host token ext_data payout (record w1 { storage = made.1 })) _ h6 in
    let (bucket, has_bucket, h8) =
      >>=-eq-ok (ok_or (to_i128 ext_data.ext_amount) wrong_ext_amount) _ h7 in
    record {
      spent = spent;
      token = token;
      payout = payout;
      inserted = made.0;
      final = made.1;
      paying = record w1 { storage = made.1 };
      paid = paid;
      bucket = bucket;
      checked = check_spend-Checked host proof ext_data w.storage checked;
      outputs = outputs;
      marked = marked;
      has_token = ap get_token (sym kept.0) ∙ has_token;
      has_payout = ap (payout_of ext_data) (sym kept.0) ∙ has_payout;
      has_inserted = ap (insert_outputs host insert proof) (sym kept.0) ∙ has_inserted;
      starts_paying = (refl, kept.1, kept.2);
      pays = pays;
      announced = sym (ok-injective h8);
    }
