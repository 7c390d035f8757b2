-- ===== src/Admin/Settings.antt =====
-- The settings that the admin writes, and the purge of votes: src/admin.rs.
use proof_of_heart_stellar.Prelude.{
  ltb, leb, ◌==◌, length, is_empty, ℕ, Bool, not, ◌&&◌, ◌||◌, some, List, [], ◌∷◌,
}
use proof_of_heart_stellar.Prelude.Int.{ℤ, pos, ltb_ℤ, leb_ℤ}
use proof_of_heart_stellar.Types.{Address, Category}
use proof_of_heart_stellar.Types.Limits.{
  bps_denominator, max_token_update_delay_secs, contract_version, campaign_duration_min_days,
  campaign_duration_max_days, campaign_funding_goal_min, platform_fee_max_bps,
  platform_fee_absolute_max_bps, min_approval_threshold_bps,
}
use proof_of_heart_stellar.Types.Error.{
  funding_goal_must_be_positive, validation_failed, invalid_platform_fee,
}
use proof_of_heart_stellar.Host.{Host}
use proof_of_heart_stellar.Store.{
  set_platform_fee, set_max_contribution_per_transaction, get_min_campaign_funding_goal,
  set_min_campaign_funding_goal, set_max_campaign_funding_goal, get_version, set_version,
  set_creation_disabled, set_token_update_delay_secs, set_token_allowed, State, remove_has_voted,
  remove_voting_state, set_min_voting_balance, set_category_voting_threshold_bps,
  remove_category_voting_threshold_bps, set_campaign, set_category_duration_cap,
  remove_category_duration_cap,
}
use proof_of_heart_stellar.Action.{Action, Done, gets, ◌>>=◌, ◌>>◌, modify, reject_if, when}
use proof_of_heart_stellar.Lifecycle.{allowed, get_admin, get_campaign_or_error, assert_admin}
use proof_of_heart_stellar.Voting.{set_params}

unfoldable pub set_creation_disabled_fn : Host → Bool → Action Done
set_creation_disabled_fn env disabled = do
  admin ← get_admin
  assert_admin env admin
  modify (set_creation_disabled disabled)

unfoldable pub set_token_allowed_fn : Host → Address → Bool → Action Done
set_token_allowed_fn env token allowed = do
  admin ← get_admin
  assert_admin env admin
  modify (set_token_allowed token allowed)

unfoldable pub set_voting_params : Host → Address → ℕ → ℕ → Action Done
set_voting_params env admin quorum threshold = do
  assert_admin env admin
  set_params quorum threshold

unfoldable pub set_min_voting_balance_fn : Host → Address → ℤ → Action Done
set_min_voting_balance_fn env admin min_balance = do
  assert_admin env admin
  reject_if (ltb_ℤ min_balance (pos 0)) validation_failed
  modify (set_min_voting_balance min_balance)

unfoldable pub update_platform_fee : Host → ℕ → Action Done
update_platform_fee env new_fee = do
  admin ← get_admin
  assert_admin env admin
  reject_if (ltb platform_fee_absolute_max_bps new_fee || ltb platform_fee_max_bps new_fee)
      invalid_platform_fee
  modify (set_platform_fee new_fee)

unfoldable pub set_transaction_cap : Host → Address → ℤ → Action Done
set_transaction_cap env admin amount = do
  assert_admin env admin
  reject_if (ltb_ℤ amount (pos 0)) validation_failed
  modify (set_max_contribution_per_transaction amount)

unfoldable pub set_campaign_fee_override : Host → ℕ → Address → ℕ → Action Done
set_campaign_fee_override env id admin fee_bps = do
  assert_admin env admin
  campaign ← get_campaign_or_error id
  reject_if (ltb platform_fee_absolute_max_bps fee_bps || ltb platform_fee_max_bps fee_bps)
      invalid_platform_fee
  modify (set_campaign id (record campaign { fee_override = some fee_bps }))

unfoldable pub set_duration_cap : Host → Address → Category → ℕ → Action Done
set_duration_cap env admin category max_days = do
  assert_admin env admin
  reject_if
      (not (leb campaign_duration_min_days max_days && leb max_days campaign_duration_max_days))
      validation_failed
  modify (set_category_duration_cap category max_days)

unfoldable pub remove_duration_cap : Host → Address → Category → Action Done
remove_duration_cap env admin category = do
  assert_admin env admin
  modify (remove_category_duration_cap category)

unfoldable pub set_category_voting_threshold : Host → Address → Category → ℕ → Action Done
set_category_voting_threshold env admin category threshold_bps = do
  assert_admin env admin
  reject_if
      (not (leb min_approval_threshold_bps threshold_bps && leb threshold_bps bps_denominator))
      validation_failed
  modify (set_category_voting_threshold_bps category threshold_bps)

unfoldable pub remove_category_voting_threshold : Host → Address → Category → Action Done
remove_category_voting_threshold env admin category = do
  assert_admin env admin
  modify (remove_category_voting_threshold_bps category)

unfoldable pub set_min_campaign_funding_goal_fn : Host → Address → ℤ → Action Done
set_min_campaign_funding_goal_fn env admin min_goal = do
  assert_admin env admin
  reject_if (leb_ℤ min_goal (pos 0)) funding_goal_must_be_positive
  modify (set_min_campaign_funding_goal min_goal)

unfoldable pub set_max_campaign_funding_goal_fn : Host → Address → ℤ → Action Done
set_max_campaign_funding_goal_fn env admin max_goal = do
  assert_admin env admin
  reject_if (leb_ℤ max_goal (pos 0)) funding_goal_must_be_positive
  min_goal ← gets (get_min_campaign_funding_goal campaign_funding_goal_min)
  reject_if (ltb_ℤ max_goal min_goal) validation_failed
  modify (set_max_campaign_funding_goal max_goal)

unfoldable pub migrate : Host → Address → ℕ → Action Done
migrate env admin expected_old_version = do
  assert_admin env admin
  current ← gets get_version
  reject_if (not (current == expected_old_version)) validation_failed
  modify (set_version contract_version)

unfoldable pub set_token_update_delay_secs_fn : Host → Address → ℕ → Action Done
set_token_update_delay_secs_fn env admin delay_secs = do
  assert_admin env admin
  reject_if (delay_secs == 0 || ltb max_token_update_delay_secs delay_secs) validation_failed
  modify (set_token_update_delay_secs delay_secs)

-- The loop of `purge_voting_state`.
unfoldable pub remove_each : ℕ → List Address → State → State
remove_each id [] s = s
remove_each id (voter ∷ voters) s = remove_each id voters (remove_has_voted id voter s)

unfoldable pub purge_voting_state : Host → ℕ → List Address → Bool → Action Done
purge_voting_state env id voters finalize_aggregate = do
  admin ← get_admin
  assert_admin env admin
  campaign ← get_campaign_or_error id
  reject_if (not campaign.funds_withdrawn && not campaign.is_cancelled) validation_failed
  reject_if (is_empty voters) validation_failed
  reject_if (ltb 50 (length voters)) validation_failed
  modify (remove_each id voters)
  when finalize_aggregate (modify (remove_voting_state id))
