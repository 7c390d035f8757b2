-- ===== src/Safety/UnsignedSettings.antt =====
-- Each change of a setting (src/admin.rs) is refused unless the administrator has signed.
use proof_of_heart_stellar.Prelude.{ℕ, ◌≡◌, Bool, false, some, List, arith}
use proof_of_heart_stellar.Prelude.Int.{ℤ}
use proof_of_heart_stellar.Types.{Address, Category}
use proof_of_heart_stellar.Host.{Host}
use proof_of_heart_stellar.Store.{stored_admin, State}
use proof_of_heart_stellar.Admin.Settings.{
  set_creation_disabled_fn, set_token_allowed_fn, set_voting_params, set_min_voting_balance_fn,
  update_platform_fee, set_transaction_cap, set_campaign_fee_override, set_duration_cap,
  remove_duration_cap, set_category_voting_threshold, remove_category_voting_threshold,
  set_min_campaign_funding_goal_fn, set_max_campaign_funding_goal_fn, migrate,
  set_token_update_delay_secs_fn, purge_voting_state,
}
use proof_of_heart_stellar.Safety.{Refused}

pub set_token_allowed_unsigned :
    (env : Host) (s : State) (a : Address) (b : Bool) {p : Address}
    → stored_admin s ≡ some p
    → env.is_authorized p ≡ false
    → Refused (set_token_allowed_fn env a b s)
unfolding set_token_allowed_fn
set_token_allowed_unsigned env s a b h q = ground arith

pub purge_voting_state_unsigned :
    (env : Host) (s : State) (n : ℕ) (signers : List Address) (b : Bool) {p : Address}
    → stored_admin s ≡ some p
    → env.is_authorized p ≡ false
    → Refused (purge_voting_state env n signers b s)
unfolding purge_voting_state
purge_voting_state_unsigned env s n signers b h q = ground arith

pub set_creation_disabled_unsigned :
    (env : Host) (s : State) (b : Bool) {p : Address}
    → stored_admin s ≡ some p
    → env.is_authorized p ≡ false
    → Refused (set_creation_disabled_fn env b s)
unfolding set_creation_disabled_fn
set_creation_disabled_unsigned env s b h q = ground arith

pub update_platform_fee_unsigned :
    (env : Host) (s : State) (n : ℕ) {p : Address}
    → stored_admin s ≡ some p
    → env.is_authorized p ≡ false
    → Refused (update_platform_fee env n s)
unfolding update_platform_fee
update_platform_fee_unsigned env s n h q = ground arith

pub set_max_contribution_per_tx_unsigned :
    (env : Host) (s : State) (a : Address) (amount : ℤ) {p : Address}
    → stored_admin s ≡ some p
    → env.is_authorized p ≡ false
    → Refused (set_transaction_cap env a amount s)
unfolding set_transaction_cap
set_max_contribution_per_tx_unsigned env s a amount h q = ground arith

pub set_campaign_fee_override_unsigned :
    (env : Host) (s : State) (n : ℕ) (a : Address) (n' : ℕ) {p : Address}
    → stored_admin s ≡ some p
    → env.is_authorized p ≡ false
    → Refused (set_campaign_fee_override env n a n' s)
unfolding set_campaign_fee_override
set_campaign_fee_override_unsigned env s n a n' h q = ground arith

pub set_category_duration_cap_unsigned :
    (env : Host) (s : State) (a : Address) (category : Category) (n : ℕ) {p : Address}
    → stored_admin s ≡ some p
    → env.is_authorized p ≡ false
    → Refused (set_duration_cap env a category n s)
unfolding set_duration_cap
set_category_duration_cap_unsigned env s a category n h q = ground arith

pub remove_category_duration_cap_unsigned :
    (env : Host) (s : State) (a : Address) (category : Category) {p : Address}
    → stored_admin s ≡ some p
    → env.is_authorized p ≡ false
    → Refused (remove_duration_cap env a category s)
unfolding remove_duration_cap
remove_category_duration_cap_unsigned env s a category h q = ground arith

pub set_min_campaign_funding_goal_unsigned :
    (env : Host) (s : State) (a : Address) (amount : ℤ) {p : Address}
    → stored_admin s ≡ some p
    → env.is_authorized p ≡ false
    → Refused (set_min_campaign_funding_goal_fn env a amount s)
unfolding set_min_campaign_funding_goal_fn
set_min_campaign_funding_goal_unsigned env s a amount h q = ground arith

pub set_max_campaign_funding_goal_unsigned :
    (env : Host) (s : State) (a : Address) (amount : ℤ) {p : Address}
    → stored_admin s ≡ some p
    → env.is_authorized p ≡ false
    → Refused (set_max_campaign_funding_goal_fn env a amount s)
unfolding set_max_campaign_funding_goal_fn
set_max_campaign_funding_goal_unsigned env s a amount h q = ground arith

pub set_voting_params_unsigned :
    (env : Host) (s : State) (a : Address) (n : ℕ) (n' : ℕ) {p : Address}
    → stored_admin s ≡ some p
    → env.is_authorized p ≡ false
    → Refused (set_voting_params env a n n' s)
unfolding set_voting_params
set_voting_params_unsigned env s a n n' h q = ground arith

pub set_min_voting_balance_unsigned :
    (env : Host) (s : State) (a : Address) (amount : ℤ) {p : Address}
    → stored_admin s ≡ some p
    → env.is_authorized p ≡ false
    → Refused (set_min_voting_balance_fn env a amount s)
unfolding set_min_voting_balance_fn
set_min_voting_balance_unsigned env s a amount h q = ground arith

pub set_category_voting_threshold_unsigned :
    (env : Host) (s : State) (a : Address) (category : Category) (n : ℕ) {p : Address}
    → stored_admin s ≡ some p
    → env.is_authorized p ≡ false
    → Refused (set_category_voting_threshold env a category n s)
unfolding set_category_voting_threshold
set_category_voting_threshold_unsigned env s a category n h q = ground arith

pub remove_category_voting_threshold_unsigned :
    (env : Host) (s : State) (a : Address) (category : Category) {p : Address}
    → stored_admin s ≡ some p
    → env.is_authorized p ≡ false
    → Refused (remove_category_voting_threshold env a category s)
unfolding remove_category_voting_threshold
remove_category_voting_threshold_unsigned env s a category h q = ground arith

pub set_token_update_delay_secs_unsigned :
    (env : Host) (s : State) (a : Address) (n : ℕ) {p : Address}
    → stored_admin s ≡ some p
    → env.is_authorized p ≡ false
    → Refused (set_token_update_delay_secs_fn env a n s)
unfolding set_token_update_delay_secs_fn
set_token_update_delay_secs_unsigned env s a n h q = ground arith

pub migrate_unsigned :
    (env : Host) (s : State) (a : Address) (n : ℕ) {p : Address}
    → stored_admin s ≡ some p
    → env.is_authorized p ≡ false
    → Refused (migrate env a n s)
unfolding migrate
migrate_unsigned env s a n h q = ground arith
