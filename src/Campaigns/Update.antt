-- ===== src/Campaigns/Update.antt =====
-- Edits of a campaign: src/campaigns/update.rs.
use proof_of_heart_stellar.Prelude.{ltb, leb, ◌==◌, unwrap_or, ℕ, ◌/◌, true, false, not, ◌||◌}
use proof_of_heart_stellar.Prelude.Int.{pos, ltb_ℤ}
use proof_of_heart_stellar.Prelude.Words.{checked_add_u64, checked_sub_u64}
use proof_of_heart_stellar.Types.{Text, Campaign}
use proof_of_heart_stellar.Types.Limits.{
  seconds_per_day, max_extension_days, campaign_duration_max_days, campaign_extension_max_days,
}
use proof_of_heart_stellar.Types.Error.{
  invalid_duration, deadline_passed, validation_failed, overflow, deadline_already_extended,
  extension_too_long,
}
use proof_of_heart_stellar.Host.{Host}
use proof_of_heart_stellar.Store.{remove_voting_state, set_campaign, get_category_duration_cap}
use proof_of_heart_stellar.Action.{
  Action, Done, gets, ok_or, ◌>>=◌, ◌>>◌, modify, reject_if, when, mul_u64,
}
use proof_of_heart_stellar.Lifecycle.{
  get_creator_campaign, require_active_campaign, require_unverified_campaign, require_not_paused,
  campaign_start_time_or_error, decrement_verified_campaign_count,
}
use proof_of_heart_stellar.Campaigns.Create.{title_fits, description_fits}

unfoldable pub update_campaign : Host → ℕ → Text → Text → Action Done
update_campaign env id title description = do
  campaign ← get_creator_campaign env id
  require_not_paused
  require_unverified_campaign campaign
  reject_if (ltb_ℤ (pos 0) campaign.amount_raised) validation_failed
  require_active_campaign campaign
  reject_if (not (title_fits title)) validation_failed
  reject_if (not (description_fits description)) validation_failed
  modify (set_campaign id (record campaign { title = title; description = description }))

unfoldable pub update_campaign_description : Host → ℕ → Text → Action Done
update_campaign_description env id description = do
  campaign ← get_creator_campaign env id
  require_not_paused
  require_active_campaign campaign
  reject_if (not (description_fits description)) validation_failed
  modify (set_campaign id (record campaign { is_verified = false; description = description }))
  when campaign.is_verified do decrement_verified_campaign_count; modify (remove_voting_state id)

unfoldable pub check_extension : Campaign → ℕ → ℕ → Action Done
check_extension campaign start_time new_deadline = do
  cap ← gets (get_category_duration_cap campaign.category)
  seconds ← ok_or overflow (checked_sub_u64 new_deadline start_time)
  let days = seconds / seconds_per_day
  reject_if (ltb (unwrap_or campaign_duration_max_days cap) days) invalid_duration
  reject_if (ltb campaign_extension_max_days days) invalid_duration

unfoldable pub extend_campaign_deadline : Host → ℕ → ℕ → Action Done
extend_campaign_deadline env id additional_days = do
  campaign ← get_creator_campaign env id
  require_not_paused
  require_active_campaign campaign
  reject_if campaign.deadline_extended deadline_already_extended
  reject_if (leb campaign.deadline env.timestamp) deadline_passed
  reject_if (additional_days == 0 || ltb max_extension_days additional_days) extension_too_long
  extension ← mul_u64 additional_days seconds_per_day
  new_deadline ← ok_or overflow (checked_add_u64 campaign.deadline extension)
  start_time ← campaign_start_time_or_error id
  check_extension campaign start_time new_deadline
  modify (set_campaign id (record campaign { deadline = new_deadline; deadline_extended = true }))
