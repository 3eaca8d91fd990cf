-- ===== src/Faucet/Settings.antt =====
-- Who may change the faucet's settings.
use veil_contract.Prelude.{ℕ, ◌≡◌, some, ok, Bool, true, arith}
use veil_contract.Prelude.Int.{ℤ, pos, ltb_ℤ}
use veil_contract.Faucet.{World, Host, Call, set_drip, update_admin}

pub data Setting : Type 0 where
  setting_drip : ℤ → ℕ → Setting
  updating_admin : ℕ → Setting

abbrev pub run_setting : Host → Setting → World → Call World
run_setting host (setting_drip amount cooldown) w = set_drip host amount cooldown w
run_setting host (updating_admin new_admin) w = update_admin host new_admin w

abbrev pub is_positive : Setting → Bool
is_positive (setting_drip amount cooldown) = ltb_ℤ (pos 0) amount
is_positive (updating_admin new_admin) = true

-- Setting the drip or replacing the administrator succeeds only if the stored administrator
-- authorized it, and the drip amount that it sets, if any, is positive.
pub settings_signed :
    (host : Host) (setting : Setting) (w w' : World)
    → run_setting host setting w ≡ ok w'
    → (a : ℕ) × (w.storage.admin ≡ some a)
      × (host.authorizes a ≡ true)
      × (is_positive setting ≡ true)
unfolding set_drip update_admin
settings_signed host (setting_drip amount cooldown) w w' h = ground arith
settings_signed host (updating_admin new_admin) w w' h = ground arith
