-- ===== src/Registry/Settings.antt =====
-- The settings that the invariant of the storage reads, as idle moves.
use proof_of_heart_stellar.Prelude.{ℕ, ◌≡◌, true, arith}
use proof_of_heart_stellar.Types.{Address}
use proof_of_heart_stellar.Host.{Host}
use proof_of_heart_stellar.Store.{is_initialized, State}
use proof_of_heart_stellar.Action.{ok}
use proof_of_heart_stellar.Admin.{init}
use proof_of_heart_stellar.Admin.Settings.{update_platform_fee}
use proof_of_heart_stellar.Campaigns.Withdraw.{set_vesting_params}
use proof_of_heart_stellar.Registry.{Move, idle}

module _ (env : Host) (s t : State) where
  -- `init` runs once.
  pub init-Move :
      (a b : Address) (x : ℕ) → is_initialized s ≡ true → init env a b x s ≡ ok tt t → Move s t
  unfolding init
  init-Move a b x i h = absurd (ground arith)

  pub update_platform_fee-Move : (x : ℕ) → update_platform_fee env x s ≡ ok tt t → Move s t
  unfolding update_platform_fee
  update_platform_fee-Move x h = idle (ground arith) (ground arith)

  pub set_vesting_params-Move :
      (a : Address) (x y : ℕ) → set_vesting_params env a x y s ≡ ok tt t → Move s t
  unfolding set_vesting_params
  set_vesting_params-Move a x y h = idle (ground arith) (ground arith)
