-- ===== src/Faucet.antt =====
-- The testnet faucet (contracts/faucet/src/lib.rs): it enrols an address in the allowlist, and mints
-- tokens to it, under a cooldown for each address.
pub mod Cooldown
pub mod Settings
use veil_contract.Prelude.{
  ℕ, zero, suc, ◌+◌, ◌-◌, ◌^◌, ◌≤◌, ◌≡◌, Bool, true, false, ◌&&◌, not, List, [], ◌∷◌, ◌++◌, Option,
  some, none, NatMap, empty_map, update, ltb, if◌then◌else◌, Outcome, ok, err, trap, ok_or,
  refuse_if, ◌>>=◌, ◌>>◌,
}
use veil_contract.Prelude.Int.{ℤ, pos, leb_ℤ}

pub data Error : Type 0 where
  not_initialized cooldown_active invalid_amount no_token_configured : Error

-- The persistent entries under `DataKey`, `LastDrip` as a map.
pub record Storage : Type 0 where
  pub admin : Option ℕ
  pub token : Option ℕ
  pub asp : Option ℕ
  pub drip_amount : Option ℤ
  pub cooldown_ledgers : Option ℕ
  pub last_drip : NatMap ℕ

abbrev pub unwritten : Storage
unwritten = record {
  admin = none;
  token = none;
  asp = none;
  drip_amount = none;
  cooldown_ledgers = none;
  last_drip = empty_map;
}

-- `OnboardEvent`
pub record Onboard : Type 0 where
  pub to : ℕ
  pub amount : ℤ
  pub leaf : ℕ

-- A call `mint(to, amount)` of a token contract, and one `insert_leaf(leaf)` of an allowlist.
pub data Invocation : Type 0 where
  mint : ℕ → ℕ → ℤ → Invocation
  enrol : ℕ → ℕ → Invocation

-- The storage, and the events and the calls of other contracts in order.
pub record World : Type 0 where
  pub storage : Storage
  pub events : List Onboard
  pub invocations : List Invocation

-- What a call takes from the host: the ledger number, who authorized it, and which calls the other
-- contracts take.
pub record Host : Type 0 where
  pub sequence : ℕ
  pub authorizes : ℕ → Bool
  pub takes : Invocation → Bool

abbrev pub Call : Type 0 → Type 0
Call A = Outcome Error A

abbrev pub require_auth : Host → ℕ → Call (Unit {0})
require_auth host address = if host.authorizes address then ok tt else trap

abbrev pub invoke : Host → Invocation → World → Call World
invoke host i w =
    if host.takes i then ok (record w { invocations = w.invocations ++ (i ∷ []) }) else trap

-- `u32::saturating_add`
abbrev pub saturating_add : ℕ → ℕ → ℕ
saturating_add a b = if ltb (a + b) (2 ^ 32) then a + b else 2 ^ 32 - 1

abbrev pub is_some : Option ℕ → Bool
is_some none = false
is_some (some a) = true

unfoldable pub constructor : ℕ → Option ℕ → ℕ → ℤ → ℕ → World → Call World
constructor admin token asp drip_amount cooldown_ledgers w = do
  refuse_if (is_some token && leb_ℤ drip_amount (pos 0)) invalid_amount
  ok (record w {
    storage = record (w.storage) {
      admin = some admin;
      token = elim token [ none ↦ w.storage.token | some t ↦ some t ];
      asp = some asp;
      drip_amount = some drip_amount;
      cooldown_ledgers = some cooldown_ledgers;
    };
  })

-- `if let Some(last) = .. && now < ..`
abbrev pub is_cooling : Option ℕ → ℕ → ℕ → Bool
is_cooling none cooldown now = false
is_cooling (some last) cooldown now = ltb now (saturating_add last cooldown)

abbrev pub mint_drip : Host → ℕ → Option ℕ → World → Call (ℤ × World)
mint_drip host to none w = ok (pos 0, w)
mint_drip host to (some token) w = do
  amount ← ok_or w.storage.drip_amount not_initialized
  w1 ← invoke host (mint token to amount) w
  ok (amount, w1)

unfoldable pub drip_with_cooldown : Host → ℕ → World → Call (ℤ × World)
drip_with_cooldown host to w = do
  cooldown ← ok_or w.storage.cooldown_ledgers not_initialized
  let now = host.sequence
  refuse_if (is_cooling (w.storage.last_drip to) cooldown now) cooldown_active
  mint_drip host to w.storage.token
      (record w { storage = record (w.storage) { last_drip = update w.storage.last_drip to now } })

unfoldable pub onboard : Host → ℕ → ℕ → World → Call World
unfolding drip_with_cooldown
onboard host to membership_leaf w = do
  (amount, w1) ← drip_with_cooldown host to w
  asp ← ok_or w1.storage.asp not_initialized
  w2 ← invoke host (enrol asp membership_leaf) w1
  ok (record w2 {
    events = w2.events ++ (record { to = to; amount = amount; leaf = membership_leaf } ∷ []);
  })

unfoldable pub drip : Host → ℕ → World → Call World
unfolding drip_with_cooldown
drip host to w = do
  refuse_if (not (is_some w.storage.token)) no_token_configured
  (amount, w1) ← drip_with_cooldown host to w
  ok w1

unfoldable pub set_drip : Host → ℤ → ℕ → World → Call World
set_drip host drip_amount cooldown_ledgers w = do
  refuse_if (leb_ℤ drip_amount (pos 0)) invalid_amount
  admin ← ok_or w.storage.admin not_initialized
  require_auth host admin
  ok (record w {
    storage = record (w.storage) {
      drip_amount = some drip_amount;
      cooldown_ledgers = some cooldown_ledgers;
    };
  })

unfoldable pub update_admin : Host → ℕ → World → Call World
update_admin host new_admin w = do
  admin ← ok_or w.storage.admin not_initialized
  require_auth host admin
  ok (record w { storage = record (w.storage) { admin = some new_admin } })

unfoldable pub drip_amount_view : Storage → Call ℤ
drip_amount_view s = ok_or s.drip_amount not_initialized

unfoldable pub cooldown_view : Storage → Call ℕ
cooldown_view s = ok_or s.cooldown_ledgers not_initialized

-- The calls of a deployed faucet, at a ledger not before a given one.
pub data Step (since : ℕ) (w w' : World) : ℕ → Type 0 where
  onboards :
      (host : Host) (to leaf : ℕ)
      → since ≤ host.sequence
      → onboard host to leaf w ≡ ok w'
      → Step since w w' host.sequence
  drips :
      (host : Host) (to : ℕ)
      → since ≤ host.sequence
      → drip host to w ≡ ok w'
      → Step since w w' host.sequence
  sets_drip :
      (host : Host) (amount : ℤ) (cooldown : ℕ)
      → since ≤ host.sequence
      → set_drip host amount cooldown w ≡ ok w'
      → Step since w w' host.sequence
  updates_admin :
      (host : Host) (admin : ℕ)
      → since ≤ host.sequence
      → update_admin host admin w ≡ ok w'
      → Step since w w' host.sequence

-- Sequences of calls from a world at a ledger to a world at a ledger.
pub data Reach (since : ℕ) (w : World) : ℕ → World → Type 0 where
  here : Reach since w since w
  next : {t t' : ℕ} {u v : World} → Reach since w t u → Step t u v t' → Reach since w t' v
