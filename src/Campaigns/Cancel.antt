-- ===== src/Campaigns/Cancel.antt =====
-- Cancellation by the creator and by the admin: src/campaigns/cancel.rs. The source's
-- `prune_bookmarks_for_campaign` does nothing.
use proof_of_heart_stellar.Prelude.{ltb, ◌==◌, length, ℕ, true, false, ◌||◌}
use proof_of_heart_stellar.Prelude.Int.{pos, ltb_ℤ, leb_ℤ}
use proof_of_heart_stellar.Types.{Address, Text, Campaign}
use proof_of_heart_stellar.Types.Limits.{campaign_description_max_len}
use proof_of_heart_stellar.Types.Error.{
  validation_failed, cancellation_not_allowed, goal_met_cancellation_not_allowed,
}
use proof_of_heart_stellar.Host.{Host}
use proof_of_heart_stellar.Store.{
  remove_voting_state, get_total_raised_global, set_total_raised_global, get_revenue_pool,
  set_revenue_pool, set_campaign,
}
use proof_of_heart_stellar.Action.{
  Action, Done, gets, ◌>>=◌, ◌>>◌, modify, reject_if, when, transfer, sub_or_overflow,
}
use proof_of_heart_stellar.Lifecycle.{
  cancelled, state_of, transition, get_campaign_token, get_campaign_or_error, get_creator_campaign,
  assert_admin, require_active_campaign, require_not_paused, decrement_active_campaign_count,
  increment_cancelled_campaign_count,
}

-- The part that the two entry points have in common, from the global total on.
unfoldable pub mark_cancelled : ℕ → Campaign → Action Done
mark_cancelled id campaign = do
  when (ltb_ℤ (pos 0) campaign.amount_raised) do
    total ← gets get_total_raised_global
    new_total ← sub_or_overflow total campaign.amount_raised
    modify (set_total_raised_global new_total)
  modify (set_campaign id (record campaign { is_cancelled = true; is_active = false }))
  modify (remove_voting_state id)
  decrement_active_campaign_count
  increment_cancelled_campaign_count

unfoldable pub cancel_campaign : Host → ℕ → Action Done
cancel_campaign env id = do
  campaign ← get_creator_campaign env id
  require_not_paused
  require_active_campaign campaign
  reject_if campaign.funds_withdrawn cancellation_not_allowed
  reject_if (leb_ℤ campaign.funding_goal campaign.amount_raised) goal_met_cancellation_not_allowed
  transition (state_of campaign) cancelled
  revenue_pool ← gets (get_revenue_pool id)
  when (ltb_ℤ (pos 0) revenue_pool) (modify (set_revenue_pool id (pos 0)))
  mark_cancelled id campaign
  when (ltb_ℤ (pos 0) revenue_pool) do
    token ← get_campaign_token id
    transfer env token env.contract_address campaign.creator revenue_pool

unfoldable pub admin_cancel_campaign : Host → Address → ℕ → Text → Action Done
admin_cancel_campaign env admin id reason = do
  assert_admin env admin
  require_not_paused
  campaign ← get_campaign_or_error id
  require_active_campaign campaign
  reject_if campaign.funds_withdrawn cancellation_not_allowed
  reject_if (length reason == 0 || ltb campaign_description_max_len (length reason))
      validation_failed
  transition (state_of campaign) cancelled
  mark_cancelled id campaign
