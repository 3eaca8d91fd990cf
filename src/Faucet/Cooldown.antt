-- ===== src/Faucet/Cooldown.antt =====
-- The cooldown of `drip_with_cooldown` (contracts/faucet/src/lib.rs) over sequences of calls.
use native.Mathlib.Decide.{ℕ_discrete}
use veil_contract.Prelude.{ℕ, ◌≢◌, ◌∙◌, ap, inl, inr, ◌≤◌, ◌≡◌, ◌⊎◌, some, ok, arith}
use veil_contract.Prelude.Int.{ℤ, pos}
use veil_contract.Faucet.{
  Storage, World, Host, saturating_add, onboard, drip, set_drip, update_admin, Step, onboards,
  drips, sets_drip, updates_admin, Reach, here, next,
}

-- The last drip to an address was not before a given ledger.
abbrev pub DrippedSince : ℕ → ℕ → Storage → Type 0
DrippedSince t to s = (last : ℕ) × (s.last_drip to ≡ some last) × (t ≤ last)

-- A call that drips to an address.
abbrev pub Drips : Host → ℕ → World → World → Type 0
Drips host to w w' = ((leaf : ℕ) × (onboard host to leaf w ≡ ok w')) ⊎ (drip host to w ≡ ok w')

onboard_drips :
    (host : Host) (to leaf : ℕ) (w w' : World)
    → onboard host to leaf w ≡ ok w'
    → w'.storage.last_drip to ≡ some host.sequence
unfolding onboard
onboard_drips host to leaf w w' h = ground arith

drip_drips :
    (host : Host) (to : ℕ) (w w' : World)
    → drip host to w ≡ ok w'
    → w'.storage.last_drip to ≡ some host.sequence
unfolding drip
drip_drips host to w w' h = ground arith

onboard_others :
    (host : Host) (a to leaf : ℕ) (w w' : World)
    → onboard host to leaf w ≡ ok w'
    → a ≢ to
    → w'.storage.last_drip a ≡ w.storage.last_drip a
unfolding onboard
onboard_others host a to leaf w w' h ne = ground arith

drip_others :
    (host : Host) (a to : ℕ) (w w' : World)
    → drip host to w ≡ ok w'
    → a ≢ to
    → w'.storage.last_drip a ≡ w.storage.last_drip a
unfolding drip
drip_others host a to w w' h ne = ground arith

settings_keep :
    (host : Host) (amount : ℤ) (n : ℕ) (w w' : World)
    → (set_drip host amount n w ≡ ok w' → w'.storage.last_drip ≡ w.storage.last_drip)
      × (update_admin host n w ≡ ok w' → w'.storage.last_drip ≡ w.storage.last_drip)
unfolding set_drip update_admin
settings_keep host amount n w w' = ((λ h. ground arith), (λ h. ground arith))

-- The last drip to an address is at most put off.
put_off :
    (t now a to : ℕ) (s s' : Storage)
    → t ≤ now
    → s'.last_drip to ≡ some now
    → (a ≢ to → s'.last_drip a ≡ s.last_drip a)
    → DrippedSince t a s
    → DrippedSince t a s'
put_off t now a to s s' le dripped others (last, e, later) = elim (ℕ_discrete a to) [
  | yes same ↦ (now, ap s'.last_drip same ∙ dripped, le)
  | no ne ↦ (last, others ne ∙ e, later)
]

Step-DrippedSince :
    (t0 since a : ℕ) (w w' : World) (t : ℕ)
    → t0 ≤ since
    → Step since w w' t
    → DrippedSince t0 a w.storage
    → DrippedSince t0 a w'.storage
Step-DrippedSince t0 since a w w' t le (onboards host to leaf later h) d =
    put_off t0 host.sequence a to w.storage w'.storage (omega arith)
      (onboard_drips host to leaf w w' h) (onboard_others host a to leaf w w' h) d
Step-DrippedSince t0 since a w w' t le (drips host to later h) d =
    put_off t0 host.sequence a to w.storage w'.storage (omega arith) (drip_drips host to w w' h)
      (drip_others host a to w w' h) d
Step-DrippedSince t0 since a w w' t le (sets_drip host amount cooldown later h)
      (last, e, since_last) =
    (last, ap (λ m. m a) ((settings_keep host amount cooldown w w').0 h) ∙ e, since_last)
Step-DrippedSince t0 since a w w' t le (updates_admin host admin later h) (last, e, since_last) =
    (last, ap (λ m. m a) ((settings_keep host (pos 0) admin w w').1 h) ∙ e, since_last)

clock_grows : (since t : ℕ) (w w' : World) → Step since w w' t → since ≤ t
clock_grows since t w w' (onboards host to leaf later h) = later
clock_grows since t w w' (drips host to later h) = later
clock_grows since t w w' (sets_drip host amount cooldown later h) = later
clock_grows since t w w' (updates_admin host admin later h) = later

Reach-DrippedSince :
    (t0 a : ℕ) (w w' : World) (t : ℕ)
    → Reach t0 w t w'
    → DrippedSince t0 a w.storage
    → DrippedSince t0 a w'.storage × (t0 ≤ t)
Reach-DrippedSince t0 a w w' t here d = (d, omega arith)
Reach-DrippedSince t0 a w w' t (next {t = t1} {u = u} reached step) d =
    let (middle, le) = Reach-DrippedSince t0 a w u t1 reached d in
    (
      Step-DrippedSince t0 t1 a u w' t le step middle,
      (let more = clock_grows t1 t u w' step in omega arith),
    )

onboard_waited :
    (host : Host) (to leaf last cooldown : ℕ) (w w' : World)
    → w.storage.last_drip to ≡ some last
    → w.storage.cooldown_ledgers ≡ some cooldown
    → onboard host to leaf w ≡ ok w'
    → saturating_add last cooldown ≤ host.sequence
unfolding onboard
onboard_waited host to leaf last cooldown w w' e c h = ground arith

drip_waited :
    (host : Host) (to last cooldown : ℕ) (w w' : World)
    → w.storage.last_drip to ≡ some last
    → w.storage.cooldown_ledgers ≡ some cooldown
    → drip host to w ≡ ok w'
    → saturating_add last cooldown ≤ host.sequence
unfolding drip
drip_waited host to last cooldown w w' e c h = ground arith

dripped :
    (host : Host) (to : ℕ) (w w' : World)
    → Drips host to w w'
    → w'.storage.last_drip to ≡ some host.sequence
dripped host to w w' (inl (leaf, h)) = onboard_drips host to leaf w w' h
dripped host to w w' (inr h) = drip_drips host to w w' h

waited :
    (host : Host) (to last cooldown : ℕ) (w w' : World)
    → w.storage.last_drip to ≡ some last
    → w.storage.cooldown_ledgers ≡ some cooldown
    → Drips host to w w'
    → saturating_add last cooldown ≤ host.sequence
waited host to last cooldown w w' e c (inl (leaf, h)) =
    onboard_waited host to leaf last cooldown w w' e c h
waited host to last cooldown w w' e c (inr h) = drip_waited host to last cooldown w w' e c h

saturating_add_mono : (a b c : ℕ) → a ≤ b → saturating_add a c ≤ saturating_add b c
saturating_add_mono a b c le = ground arith

-- Between two successful drips to one address, whatever calls the faucet has taken at the ledgers
-- between, lies the cooldown that holds at the second, up to the largest ledger number.
pub cooldown_kept :
    (host host' : Host) (to cooldown t : ℕ) (w w1 w2 w3 : World)
    → Drips host to w w1
    → Reach host.sequence w1 t w2
    → w2.storage.cooldown_ledgers ≡ some cooldown
    → Drips host' to w2 w3
    → saturating_add host.sequence cooldown ≤ host'.sequence
cooldown_kept host host' to cooldown t w w1 w2 w3 first reached c second =
    let (last, e, since) =
      (Reach-DrippedSince host.sequence to w1 w2 t reached
        (host.sequence, dripped host to w w1 first, omega arith)).0 in
    let grown = saturating_add_mono host.sequence last cooldown since in
    let gap = waited host' to last cooldown w2 w3 e c second in omega arith
