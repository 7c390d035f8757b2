-- ===== src/Types/Error.antt =====
-- The error codes of src/errors.rs, in the order of their numbers.
pub data Error : Type 0 where
  not_authorized : Error
  campaign_not_found : Error
  campaign_not_active : Error
  funding_goal_must_be_positive : Error
  invalid_duration : Error
  invalid_revenue_share : Error
  revenue_share_only_for_startup : Error
  deadline_passed : Error
  contribution_must_be_positive : Error
  deadline_not_passed : Error
  funds_already_withdrawn : Error
  funding_goal_not_reached : Error
  no_funds_to_withdraw : Error
  campaign_already_verified : Error
  validation_failed : Error
  already_voted : Error
  not_token_holder : Error
  voting_quorum_not_met : Error
  voting_threshold_not_met : Error
  already_initialized : Error
  not_pending_owner : Error
  no_transfer_pending : Error
  invalid_new_owner : Error
  contract_paused : Error
  contribution_cap_exceeded : Error
  campaign_not_verified : Error
  amount_raised_is_zero : Error
  revenue_sharing_not_enabled : Error
  cancellation_not_allowed : Error
  overflow : Error
  invalid_token_contract : Error
  creation_disabled : Error
  funding_goal_too_low : Error
  admin_verification_conflict : Error
  community_verification_conflict : Error
  deadline_already_extended : Error
  extension_too_long : Error
  funding_goal_too_high : Error
  invalid_platform_fee : Error
  transfer_already_pending : Error
  invalid_vesting_delay : Error
  goal_met_cancellation_not_allowed : Error
  invalid_state_transition : Error
  campaign_already_bookmarked : Error
  campaign_not_bookmarked : Error
  personal_cap_not_found : Error
  bookmark_limit_reached : Error
  milestone_not_found : Error
  milestone_not_verified : Error
  milestone_already_claimed : Error
