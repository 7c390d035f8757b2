-- ===== src/Safety/PausedCalls.antt =====
-- Calls while the contract is paused.
use proof_of_heart_stellar.Prelude.{◌≡◌, Bool, true, false}
use proof_of_heart_stellar.Host.{Host}
use proof_of_heart_stellar.Store.{State}
use proof_of_heart_stellar.Lifecycle.{is_paused}
use proof_of_heart_stellar.Calls.{
  Call, init_call, create_campaign_call, create_campaign_with_token_call, set_token_allowed_call,
  contribute_call, claim_refund_call, batch_contribute_call, withdraw_funds_call,
  withdraw_reserve_call, set_vesting_params_call, set_milestones_call, verify_milestone_call,
  claim_milestone_call, cancel_campaign_call, admin_cancel_campaign_call, update_campaign_call,
  update_campaign_description_call, extend_campaign_deadline_call, initiate_campaign_transfer_call,
  accept_campaign_transfer_call, cancel_campaign_transfer_call, deposit_revenue_call,
  claim_revenue_call, claim_creator_revenue_call, vote_on_campaign_call, verify_campaign_call,
  verify_campaigns_call, verify_campaign_with_votes_call, resume_campaign_call,
  purge_voting_state_call, pause_call, unpause_call, emergency_pause_call,
  set_emergency_pause_signers_call, set_creation_disabled_call, update_platform_fee_call,
  set_max_contribution_per_tx_call, set_campaign_fee_override_call, set_category_duration_cap_call,
  remove_category_duration_cap_call, set_min_campaign_funding_goal_call,
  set_max_campaign_funding_goal_call, set_voting_params_call, set_min_voting_balance_call,
  set_category_voting_threshold_call, remove_category_voting_threshold_call,
  propose_token_update_call, accept_token_update_call, cancel_token_update_call,
  set_token_update_delay_secs_call, initiate_admin_transfer_call, accept_admin_transfer_call,
  cancel_admin_transfer_call, update_admin_call, migrate_call, set_personal_cap_call,
  remove_personal_cap_call, save_campaign_call, batch_save_campaigns_call,
  remove_saved_campaign_call, clear_saved_campaigns_call, censure_comment_call,
  uncensure_comment_call, step,
}
use proof_of_heart_stellar.Campaigns.Cancel.{cancel_campaign, admin_cancel_campaign}
use proof_of_heart_stellar.Campaigns.Create.{create_campaign, create_campaign_with_token}
use proof_of_heart_stellar.Campaigns.Transfer.{
  initiate_campaign_transfer, accept_campaign_transfer, cancel_campaign_transfer,
}
use proof_of_heart_stellar.Campaigns.Update.{
  update_campaign, update_campaign_description, extend_campaign_deadline,
}
use proof_of_heart_stellar.Campaigns.Withdraw.{withdraw_funds, withdraw_reserve, set_vesting_params}
use proof_of_heart_stellar.Contributions.{contribute, claim_refund}
use proof_of_heart_stellar.Contributions.Batch.{batch_contribute}
use proof_of_heart_stellar.Milestones.{set_milestones, verify_milestone, claim_milestone}
use proof_of_heart_stellar.Moderation.{censure_comment_by_admin, uncensure_comment_by_admin}
use proof_of_heart_stellar.Revenue.{deposit_revenue, claim_revenue, claim_creator_revenue}
use proof_of_heart_stellar.Safety.{invoke-Refused}
use proof_of_heart_stellar.Safety.Paused.{
  create_campaign_while_paused, create_campaign_with_token_while_paused, contribute_while_paused,
  claim_refund_while_paused, batch_contribute_while_paused, withdraw_funds_while_paused,
  withdraw_reserve_while_paused, set_vesting_params_while_paused, set_milestones_while_paused,
  verify_milestone_while_paused, claim_milestone_while_paused, cancel_campaign_while_paused,
  admin_cancel_campaign_while_paused, update_campaign_while_paused,
  update_campaign_description_while_paused, extend_campaign_deadline_while_paused,
  initiate_campaign_transfer_while_paused, accept_campaign_transfer_while_paused,
  cancel_campaign_transfer_while_paused, deposit_revenue_while_paused, claim_revenue_while_paused,
  claim_creator_revenue_while_paused, vote_on_campaign_while_paused, verify_campaign_while_paused,
  verify_campaigns_while_paused, verify_campaign_with_votes_while_paused,
  censure_comment_while_paused, uncensure_comment_while_paused,
}
use proof_of_heart_stellar.Voting.{
  vote_on_campaign, verify_campaign, verify_campaigns, verify_campaign_with_votes,
}

-- The calls that ask for a contract that is not paused.
unfoldable pub needs_unpaused : Call → Bool
needs_unpaused (create_campaign_call _) = true
needs_unpaused (create_campaign_with_token_call _ _) = true
needs_unpaused (contribute_call _ _ _) = true
needs_unpaused (claim_refund_call _ _) = true
needs_unpaused (batch_contribute_call _ _) = true
needs_unpaused (withdraw_funds_call _) = true
needs_unpaused (withdraw_reserve_call _) = true
needs_unpaused (set_vesting_params_call _ _ _) = true
needs_unpaused (set_milestones_call _ _) = true
needs_unpaused (verify_milestone_call _ _ _) = true
needs_unpaused (claim_milestone_call _ _) = true
needs_unpaused (cancel_campaign_call _) = true
needs_unpaused (admin_cancel_campaign_call _ _ _) = true
needs_unpaused (update_campaign_call _ _ _) = true
needs_unpaused (update_campaign_description_call _ _) = true
needs_unpaused (extend_campaign_deadline_call _ _) = true
needs_unpaused (initiate_campaign_transfer_call _ _) = true
needs_unpaused (accept_campaign_transfer_call _) = true
needs_unpaused (cancel_campaign_transfer_call _) = true
needs_unpaused (deposit_revenue_call _ _) = true
needs_unpaused (claim_revenue_call _ _) = true
needs_unpaused (claim_creator_revenue_call _) = true
needs_unpaused (vote_on_campaign_call _ _ _) = true
needs_unpaused (verify_campaign_call _) = true
needs_unpaused (verify_campaigns_call _) = true
needs_unpaused (verify_campaign_with_votes_call _) = true
needs_unpaused (censure_comment_call _ _ _) = true
needs_unpaused (uncensure_comment_call _ _) = true
needs_unpaused _ = false

-- While the contract is paused, by hand or by the burst guard, no call that asks for an unpaused
-- contract changes anything.
pub step-paused :
    (env : Host) (call : Call) (s : State)
    → is_paused s ≡ true
    → needs_unpaused call ≡ true
    → step env call s ≡ s
unfolding step needs_unpaused
step-paused env (init_call _ _ _) s p h = cc
step-paused env (create_campaign_call params) s p h =
    invoke-Refused (create_campaign env params) s (create_campaign_while_paused env s params p)
step-paused env (create_campaign_with_token_call params a) s p h =
    invoke-Refused (create_campaign_with_token env params a) s
      (create_campaign_with_token_while_paused env s params a p)
step-paused env (set_token_allowed_call _ _) s p h = cc
step-paused env (contribute_call n a amount) s p h =
    invoke-Refused (contribute env n a amount) s (contribute_while_paused env s n a amount p)
step-paused env (claim_refund_call n a) s p h =
    invoke-Refused (claim_refund env n a) s (claim_refund_while_paused env s n a p)
step-paused env (batch_contribute_call a items) s p h =
    invoke-Refused (batch_contribute env a items) s (batch_contribute_while_paused env s a items p)
step-paused env (withdraw_funds_call n) s p h =
    invoke-Refused (withdraw_funds env n) s (withdraw_funds_while_paused env s n p)
step-paused env (withdraw_reserve_call n) s p h =
    invoke-Refused (withdraw_reserve env n) s (withdraw_reserve_while_paused env s n p)
step-paused env (set_vesting_params_call a n n') s p h =
    invoke-Refused (set_vesting_params env a n n') s
      (set_vesting_params_while_paused env s a n n' p)
step-paused env (set_milestones_call n milestones) s p h =
    invoke-Refused (set_milestones env n milestones) s
      (set_milestones_while_paused env s n milestones p)
step-paused env (verify_milestone_call a n n') s p h =
    invoke-Refused (verify_milestone env a n n') s (verify_milestone_while_paused env s a n n' p)
step-paused env (claim_milestone_call n n') s p h =
    invoke-Refused (claim_milestone env n n') s (claim_milestone_while_paused env s n n' p)
step-paused env (cancel_campaign_call n) s p h =
    invoke-Refused (cancel_campaign env n) s (cancel_campaign_while_paused env s n p)
step-paused env (admin_cancel_campaign_call a n text) s p h =
    invoke-Refused (admin_cancel_campaign env a n text) s
      (admin_cancel_campaign_while_paused env s a n text p)
step-paused env (update_campaign_call n text text') s p h =
    invoke-Refused (update_campaign env n text text') s
      (update_campaign_while_paused env s n text text' p)
step-paused env (update_campaign_description_call n text) s p h =
    invoke-Refused (update_campaign_description env n text) s
      (update_campaign_description_while_paused env s n text p)
step-paused env (extend_campaign_deadline_call n n') s p h =
    invoke-Refused (extend_campaign_deadline env n n') s
      (extend_campaign_deadline_while_paused env s n n' p)
step-paused env (initiate_campaign_transfer_call n a) s p h =
    invoke-Refused (initiate_campaign_transfer env n a) s
      (initiate_campaign_transfer_while_paused env s n a p)
step-paused env (accept_campaign_transfer_call n) s p h =
    invoke-Refused (accept_campaign_transfer env n) s
      (accept_campaign_transfer_while_paused env s n p)
step-paused env (cancel_campaign_transfer_call n) s p h =
    invoke-Refused (cancel_campaign_transfer env n) s
      (cancel_campaign_transfer_while_paused env s n p)
step-paused env (deposit_revenue_call n amount) s p h =
    invoke-Refused (deposit_revenue env n amount) s (deposit_revenue_while_paused env s n amount p)
step-paused env (claim_revenue_call n a) s p h =
    invoke-Refused (claim_revenue env n a) s (claim_revenue_while_paused env s n a p)
step-paused env (claim_creator_revenue_call n) s p h =
    invoke-Refused (claim_creator_revenue env n) s (claim_creator_revenue_while_paused env s n p)
step-paused env (vote_on_campaign_call n a b) s p h =
    invoke-Refused (vote_on_campaign env n a b) s (vote_on_campaign_while_paused env s n a b p)
step-paused env (verify_campaign_call n) s p h =
    invoke-Refused (verify_campaign env n) s (verify_campaign_while_paused env s n p)
step-paused env (verify_campaigns_call ids) s p h =
    invoke-Refused (verify_campaigns env ids) s (verify_campaigns_while_paused env s ids p)
step-paused env (verify_campaign_with_votes_call n) s p h =
    invoke-Refused (verify_campaign_with_votes env n) s
      (verify_campaign_with_votes_while_paused env s n p)
step-paused env (resume_campaign_call _ _) s p h = cc
step-paused env (purge_voting_state_call _ _ _) s p h = cc
step-paused env pause_call s p h = cc
step-paused env unpause_call s p h = cc
step-paused env (emergency_pause_call _) s p h = cc
step-paused env (set_emergency_pause_signers_call _ _) s p h = cc
step-paused env (set_creation_disabled_call _) s p h = cc
step-paused env (update_platform_fee_call _) s p h = cc
step-paused env (set_max_contribution_per_tx_call _ _) s p h = cc
step-paused env (set_campaign_fee_override_call _ _ _) s p h = cc
step-paused env (set_category_duration_cap_call _ _ _) s p h = cc
step-paused env (remove_category_duration_cap_call _ _) s p h = cc
step-paused env (set_min_campaign_funding_goal_call _ _) s p h = cc
step-paused env (set_max_campaign_funding_goal_call _ _) s p h = cc
step-paused env (set_voting_params_call _ _ _) s p h = cc
step-paused env (set_min_voting_balance_call _ _) s p h = cc
step-paused env (set_category_voting_threshold_call _ _ _) s p h = cc
step-paused env (remove_category_voting_threshold_call _ _) s p h = cc
step-paused env (propose_token_update_call _ _) s p h = cc
step-paused env (accept_token_update_call _) s p h = cc
step-paused env (cancel_token_update_call _) s p h = cc
step-paused env (set_token_update_delay_secs_call _ _) s p h = cc
step-paused env (initiate_admin_transfer_call _ _) s p h = cc
step-paused env accept_admin_transfer_call s p h = cc
step-paused env (cancel_admin_transfer_call _) s p h = cc
step-paused env (update_admin_call _) s p h = cc
step-paused env (migrate_call _ _) s p h = cc
step-paused env (set_personal_cap_call _ _ _) s p h = cc
step-paused env (remove_personal_cap_call _ _) s p h = cc
step-paused env (save_campaign_call _ _) s p h = cc
step-paused env (batch_save_campaigns_call _ _) s p h = cc
step-paused env (remove_saved_campaign_call _ _) s p h = cc
step-paused env (clear_saved_campaigns_call _) s p h = cc
step-paused env (censure_comment_call n n' text) s p h =
    invoke-Refused (censure_comment_by_admin env n n' text) s
      (censure_comment_while_paused env s n n' text p)
step-paused env (uncensure_comment_call n n') s p h =
    invoke-Refused (uncensure_comment_by_admin env n n') s
      (uncensure_comment_while_paused env s n n' p)
