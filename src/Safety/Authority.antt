-- ===== src/Safety/Authority.antt =====
-- Who must sign each call.
use proof_of_heart_stellar.Prelude.{◌≡◌, false, Option, none, some}
use proof_of_heart_stellar.Types.{Address}
use proof_of_heart_stellar.Host.{Host}
use proof_of_heart_stellar.Store.{stored_admin, get_pending_admin, State, get_campaign}
use proof_of_heart_stellar.Admin.{
  init, pause, unpause, set_emergency_signers, emergency_pause, resume_campaign,
  initiate_admin_transfer, update_admin, accept_admin_transfer, cancel_admin_transfer,
  propose_token_update, accept_token_update, cancel_token_update,
}
use proof_of_heart_stellar.Admin.Settings.{
  set_creation_disabled_fn, set_token_allowed_fn, set_voting_params, set_min_voting_balance_fn,
  update_platform_fee, set_transaction_cap, set_campaign_fee_override, set_duration_cap,
  remove_duration_cap, set_category_voting_threshold, remove_category_voting_threshold,
  set_min_campaign_funding_goal_fn, set_max_campaign_funding_goal_fn, migrate,
  set_token_update_delay_secs_fn, purge_voting_state,
}
use proof_of_heart_stellar.Bookmarks.{
  save_campaign, remove_saved_campaign, batch_save_campaigns, clear_saved_campaigns,
}
use proof_of_heart_stellar.Calls.{
  Call, init_call, create_campaign_call, create_campaign_with_token_call, set_token_allowed_call,
  contribute_call, claim_refund_call, batch_contribute_call, withdraw_funds_call,
  withdraw_reserve_call, set_vesting_params_call, set_milestones_call, verify_milestone_call,
  claim_milestone_call, cancel_campaign_call, admin_cancel_campaign_call, update_campaign_call,
  update_campaign_description_call, extend_campaign_deadline_call, initiate_campaign_transfer_call,
  accept_campaign_transfer_call, cancel_campaign_transfer_call, deposit_revenue_call,
  claim_revenue_call, claim_creator_revenue_call, vote_on_campaign_call, verify_campaign_call,
  verify_campaigns_call, verify_campaign_with_votes_call, resume_campaign_call,
  purge_voting_state_call, pause_call, unpause_call, emergency_pause_call,
  set_emergency_pause_signers_call, set_creation_disabled_call, update_platform_fee_call,
  set_max_contribution_per_tx_call, set_campaign_fee_override_call, set_category_duration_cap_call,
  remove_category_duration_cap_call, set_min_campaign_funding_goal_call,
  set_max_campaign_funding_goal_call, set_voting_params_call, set_min_voting_balance_call,
  set_category_voting_threshold_call, remove_category_voting_threshold_call,
  propose_token_update_call, accept_token_update_call, cancel_token_update_call,
  set_token_update_delay_secs_call, initiate_admin_transfer_call, accept_admin_transfer_call,
  cancel_admin_transfer_call, update_admin_call, migrate_call, set_personal_cap_call,
  remove_personal_cap_call, save_campaign_call, batch_save_campaigns_call,
  remove_saved_campaign_call, clear_saved_campaigns_call, censure_comment_call,
  uncensure_comment_call, step,
}
use proof_of_heart_stellar.Campaigns.Cancel.{cancel_campaign, admin_cancel_campaign}
use proof_of_heart_stellar.Campaigns.Create.{create_campaign, create_campaign_with_token}
use proof_of_heart_stellar.Campaigns.Transfer.{
  initiate_campaign_transfer, accept_campaign_transfer, cancel_campaign_transfer,
}
use proof_of_heart_stellar.Campaigns.Update.{
  update_campaign, update_campaign_description, extend_campaign_deadline,
}
use proof_of_heart_stellar.Campaigns.Withdraw.{withdraw_funds, withdraw_reserve, set_vesting_params}
use proof_of_heart_stellar.Contributions.{
  contribute, claim_refund, set_personal_cap_fn, remove_personal_cap_fn,
}
use proof_of_heart_stellar.Contributions.Batch.{batch_contribute}
use proof_of_heart_stellar.Milestones.{set_milestones, verify_milestone, claim_milestone}
use proof_of_heart_stellar.Moderation.{censure_comment_by_admin, uncensure_comment_by_admin}
use proof_of_heart_stellar.Revenue.{deposit_revenue, claim_revenue, claim_creator_revenue}
use proof_of_heart_stellar.Safety.{invoke-Refused}
use proof_of_heart_stellar.Safety.Unsigned.{
  creator_of, heir_of, create_campaign_unsigned, create_campaign_with_token_unsigned,
  contribute_unsigned, claim_refund_unsigned, batch_contribute_unsigned, withdraw_funds_unsigned,
  withdraw_reserve_unsigned, set_milestones_unsigned, claim_milestone_unsigned,
  cancel_campaign_unsigned, update_campaign_unsigned, update_campaign_description_unsigned,
  extend_campaign_deadline_unsigned, initiate_campaign_transfer_unsigned,
  accept_campaign_transfer_unsigned, cancel_campaign_transfer_unsigned, deposit_revenue_unsigned,
  claim_revenue_unsigned, claim_creator_revenue_unsigned, vote_on_campaign_unsigned,
  set_personal_cap_unsigned, remove_personal_cap_unsigned, save_campaign_unsigned,
  batch_save_campaigns_unsigned, remove_saved_campaign_unsigned, clear_saved_campaigns_unsigned,
}
use proof_of_heart_stellar.Safety.UnsignedAdmin.{
  init_unsigned, set_vesting_params_unsigned, verify_milestone_unsigned,
  admin_cancel_campaign_unsigned, verify_campaign_unsigned, verify_campaigns_unsigned,
  resume_campaign_unsigned, pause_unsigned, unpause_unsigned, emergency_pause_unsigned,
  set_emergency_pause_signers_unsigned, propose_token_update_unsigned, accept_token_update_unsigned,
  cancel_token_update_unsigned, initiate_admin_transfer_unsigned, accept_admin_transfer_unsigned,
  cancel_admin_transfer_unsigned, update_admin_unsigned, censure_comment_unsigned,
  uncensure_comment_unsigned,
}
use proof_of_heart_stellar.Safety.UnsignedSettings.{
  set_token_allowed_unsigned, purge_voting_state_unsigned, set_creation_disabled_unsigned,
  update_platform_fee_unsigned, set_max_contribution_per_tx_unsigned,
  set_campaign_fee_override_unsigned, set_category_duration_cap_unsigned,
  remove_category_duration_cap_unsigned, set_min_campaign_funding_goal_unsigned,
  set_max_campaign_funding_goal_unsigned, set_voting_params_unsigned,
  set_min_voting_balance_unsigned, set_category_voting_threshold_unsigned,
  remove_category_voting_threshold_unsigned, set_token_update_delay_secs_unsigned, migrate_unsigned,
}
use proof_of_heart_stellar.Voting.{vote_on_campaign, verify_campaign, verify_campaigns}

-- The party whose signature a call asks for: the administrator, the creator of the campaign, the
-- one who is to take it over, or the address that the call is made for. Verification by votes is
-- open to anyone.
unfoldable pub signer : Call → State → Option Address
signer (init_call a _ _) _ = some a
signer (create_campaign_call params) _ = some params.creator
signer (create_campaign_with_token_call params _) _ = some params.creator
signer (set_token_allowed_call _ _) s = stored_admin s
signer (contribute_call _ a _) _ = some a
signer (claim_refund_call _ a) _ = some a
signer (batch_contribute_call a _) _ = some a
signer (withdraw_funds_call n) s = creator_of (get_campaign n s)
signer (withdraw_reserve_call n) s = creator_of (get_campaign n s)
signer (set_vesting_params_call _ _ _) s = stored_admin s
signer (set_milestones_call n _) s = creator_of (get_campaign n s)
signer (verify_milestone_call _ _ _) s = stored_admin s
signer (claim_milestone_call n _) s = creator_of (get_campaign n s)
signer (cancel_campaign_call n) s = creator_of (get_campaign n s)
signer (admin_cancel_campaign_call _ _ _) s = stored_admin s
signer (update_campaign_call n _ _) s = creator_of (get_campaign n s)
signer (update_campaign_description_call n _) s = creator_of (get_campaign n s)
signer (extend_campaign_deadline_call n _) s = creator_of (get_campaign n s)
signer (initiate_campaign_transfer_call n _) s = creator_of (get_campaign n s)
signer (accept_campaign_transfer_call n) s = heir_of (get_campaign n s)
signer (cancel_campaign_transfer_call n) s = creator_of (get_campaign n s)
signer (deposit_revenue_call n _) s = creator_of (get_campaign n s)
signer (claim_revenue_call _ a) _ = some a
signer (claim_creator_revenue_call n) s = creator_of (get_campaign n s)
signer (vote_on_campaign_call _ a _) _ = some a
signer (verify_campaign_call _) s = stored_admin s
signer (verify_campaigns_call _) s = stored_admin s
signer (verify_campaign_with_votes_call _) _ = none
signer (resume_campaign_call _ a) _ = some a
signer (purge_voting_state_call _ _ _) s = stored_admin s
signer pause_call s = stored_admin s
signer unpause_call s = stored_admin s
signer (emergency_pause_call a) _ = some a
signer (set_emergency_pause_signers_call _ _) s = stored_admin s
signer (set_creation_disabled_call _) s = stored_admin s
signer (update_platform_fee_call _) s = stored_admin s
signer (set_max_contribution_per_tx_call _ _) s = stored_admin s
signer (set_campaign_fee_override_call _ _ _) s = stored_admin s
signer (set_category_duration_cap_call _ _ _) s = stored_admin s
signer (remove_category_duration_cap_call _ _) s = stored_admin s
signer (set_min_campaign_funding_goal_call _ _) s = stored_admin s
signer (set_max_campaign_funding_goal_call _ _) s = stored_admin s
signer (set_voting_params_call _ _ _) s = stored_admin s
signer (set_min_voting_balance_call _ _) s = stored_admin s
signer (set_category_voting_threshold_call _ _ _) s = stored_admin s
signer (remove_category_voting_threshold_call _ _) s = stored_admin s
signer (propose_token_update_call _ _) s = stored_admin s
signer (accept_token_update_call _) s = stored_admin s
signer (cancel_token_update_call _) s = stored_admin s
signer (set_token_update_delay_secs_call _ _) s = stored_admin s
signer (initiate_admin_transfer_call _ _) s = stored_admin s
signer accept_admin_transfer_call s = get_pending_admin s
signer (cancel_admin_transfer_call _) s = stored_admin s
signer (update_admin_call _) s = stored_admin s
signer (migrate_call _ _) s = stored_admin s
signer (set_personal_cap_call _ a _) _ = some a
signer (remove_personal_cap_call _ a) _ = some a
signer (save_campaign_call a _) _ = some a
signer (batch_save_campaigns_call a _) _ = some a
signer (remove_saved_campaign_call a _) _ = some a
signer (clear_saved_campaigns_call a) _ = some a
signer (censure_comment_call _ _ _) s = stored_admin s
signer (uncensure_comment_call _ _) s = stored_admin s

-- Where a call asks for the signature of a party and that party has not signed, it changes
-- nothing.
pub step-unsigned :
    (env : Host) (call : Call) (s : State) (p : Address)
    → signer call s ≡ some p
    → env.is_authorized p ≡ false
    → step env call s ≡ s
unfolding step signer
step-unsigned env (init_call a a' n) s p h q =
    invoke-Refused (init env a a' n) s (init_unsigned env s a a' n h q)
step-unsigned env (create_campaign_call params) s p h q =
    invoke-Refused (create_campaign env params) s (create_campaign_unsigned env s params h q)
step-unsigned env (create_campaign_with_token_call params a) s p h q =
    invoke-Refused (create_campaign_with_token env params a) s
      (create_campaign_with_token_unsigned env s params a h q)
step-unsigned env (set_token_allowed_call a b) s p h q =
    invoke-Refused (set_token_allowed_fn env a b) s (set_token_allowed_unsigned env s a b h q)
step-unsigned env (contribute_call n a amount) s p h q =
    invoke-Refused (contribute env n a amount) s (contribute_unsigned env s n a amount h q)
step-unsigned env (claim_refund_call n a) s p h q =
    invoke-Refused (claim_refund env n a) s (claim_refund_unsigned env s n a h q)
step-unsigned env (batch_contribute_call a items) s p h q =
    invoke-Refused (batch_contribute env a items) s (batch_contribute_unsigned env s a items h q)
step-unsigned env (withdraw_funds_call n) s p h q =
    invoke-Refused (withdraw_funds env n) s (withdraw_funds_unsigned env s n h q)
step-unsigned env (withdraw_reserve_call n) s p h q =
    invoke-Refused (withdraw_reserve env n) s (withdraw_reserve_unsigned env s n h q)
step-unsigned env (set_vesting_params_call a n n') s p h q =
    invoke-Refused (set_vesting_params env a n n') s (set_vesting_params_unsigned env s a n n' h q)
step-unsigned env (set_milestones_call n milestones) s p h q =
    invoke-Refused (set_milestones env n milestones) s
      (set_milestones_unsigned env s n milestones h q)
step-unsigned env (verify_milestone_call a n n') s p h q =
    invoke-Refused (verify_milestone env a n n') s (verify_milestone_unsigned env s a n n' h q)
step-unsigned env (claim_milestone_call n n') s p h q =
    invoke-Refused (claim_milestone env n n') s (claim_milestone_unsigned env s n n' h q)
step-unsigned env (cancel_campaign_call n) s p h q =
    invoke-Refused (cancel_campaign env n) s (cancel_campaign_unsigned env s n h q)
step-unsigned env (admin_cancel_campaign_call a n text) s p h q =
    invoke-Refused (admin_cancel_campaign env a n text) s
      (admin_cancel_campaign_unsigned env s a n text h q)
step-unsigned env (update_campaign_call n text text') s p h q =
    invoke-Refused (update_campaign env n text text') s
      (update_campaign_unsigned env s n text text' h q)
step-unsigned env (update_campaign_description_call n text) s p h q =
    invoke-Refused (update_campaign_description env n text) s
      (update_campaign_description_unsigned env s n text h q)
step-unsigned env (extend_campaign_deadline_call n n') s p h q =
    invoke-Refused (extend_campaign_deadline env n n') s
      (extend_campaign_deadline_unsigned env s n n' h q)
step-unsigned env (initiate_campaign_transfer_call n a) s p h q =
    invoke-Refused (initiate_campaign_transfer env n a) s
      (initiate_campaign_transfer_unsigned env s n a h q)
step-unsigned env (accept_campaign_transfer_call n) s p h q =
    invoke-Refused (accept_campaign_transfer env n) s
      (accept_campaign_transfer_unsigned env s n h q)
step-unsigned env (cancel_campaign_transfer_call n) s p h q =
    invoke-Refused (cancel_campaign_transfer env n) s
      (cancel_campaign_transfer_unsigned env s n h q)
step-unsigned env (deposit_revenue_call n amount) s p h q =
    invoke-Refused (deposit_revenue env n amount) s (deposit_revenue_unsigned env s n amount h q)
step-unsigned env (claim_revenue_call n a) s p h q =
    invoke-Refused (claim_revenue env n a) s (claim_revenue_unsigned env s n a h q)
step-unsigned env (claim_creator_revenue_call n) s p h q =
    invoke-Refused (claim_creator_revenue env n) s (claim_creator_revenue_unsigned env s n h q)
step-unsigned env (vote_on_campaign_call n a b) s p h q =
    invoke-Refused (vote_on_campaign env n a b) s (vote_on_campaign_unsigned env s n a b h q)
step-unsigned env (verify_campaign_call n) s p h q =
    invoke-Refused (verify_campaign env n) s (verify_campaign_unsigned env s n h q)
step-unsigned env (verify_campaigns_call ids) s p h q =
    invoke-Refused (verify_campaigns env ids) s (verify_campaigns_unsigned env s ids h q)
step-unsigned env (verify_campaign_with_votes_call _) s p h q = cc
step-unsigned env (resume_campaign_call n a) s p h q =
    invoke-Refused (resume_campaign env n a) s (resume_campaign_unsigned env s n a h q)
step-unsigned env (purge_voting_state_call n signers b) s p h q =
    invoke-Refused (purge_voting_state env n signers b) s
      (purge_voting_state_unsigned env s n signers b h q)
step-unsigned env pause_call s p h q = invoke-Refused (pause env) s (pause_unsigned env s h q)
step-unsigned env unpause_call s p h q = invoke-Refused (unpause env) s (unpause_unsigned env s h q)
step-unsigned env (emergency_pause_call a) s p h q =
    invoke-Refused (emergency_pause env a) s (emergency_pause_unsigned env s a h q)
step-unsigned env (set_emergency_pause_signers_call a signers) s p h q =
    invoke-Refused (set_emergency_signers env a signers) s
      (set_emergency_pause_signers_unsigned env s a signers h q)
step-unsigned env (set_creation_disabled_call b) s p h q =
    invoke-Refused (set_creation_disabled_fn env b) s (set_creation_disabled_unsigned env s b h q)
step-unsigned env (update_platform_fee_call n) s p h q =
    invoke-Refused (update_platform_fee env n) s (update_platform_fee_unsigned env s n h q)
step-unsigned env (set_max_contribution_per_tx_call a amount) s p h q =
    invoke-Refused (set_transaction_cap env a amount) s
      (set_max_contribution_per_tx_unsigned env s a amount h q)
step-unsigned env (set_campaign_fee_override_call n a n') s p h q =
    invoke-Refused (set_campaign_fee_override env n a n') s
      (set_campaign_fee_override_unsigned env s n a n' h q)
step-unsigned env (set_category_duration_cap_call a category n) s p h q =
    invoke-Refused (set_duration_cap env a category n) s
      (set_category_duration_cap_unsigned env s a category n h q)
step-unsigned env (remove_category_duration_cap_call a category) s p h q =
    invoke-Refused (remove_duration_cap env a category) s
      (remove_category_duration_cap_unsigned env s a category h q)
step-unsigned env (set_min_campaign_funding_goal_call a amount) s p h q =
    invoke-Refused (set_min_campaign_funding_goal_fn env a amount) s
      (set_min_campaign_funding_goal_unsigned env s a amount h q)
step-unsigned env (set_max_campaign_funding_goal_call a amount) s p h q =
    invoke-Refused (set_max_campaign_funding_goal_fn env a amount) s
      (set_max_campaign_funding_goal_unsigned env s a amount h q)
step-unsigned env (set_voting_params_call a n n') s p h q =
    invoke-Refused (set_voting_params env a n n') s (set_voting_params_unsigned env s a n n' h q)
step-unsigned env (set_min_voting_balance_call a amount) s p h q =
    invoke-Refused (set_min_voting_balance_fn env a amount) s
      (set_min_voting_balance_unsigned env s a amount h q)
step-unsigned env (set_category_voting_threshold_call a category n) s p h q =
    invoke-Refused (set_category_voting_threshold env a category n) s
      (set_category_voting_threshold_unsigned env s a category n h q)
step-unsigned env (remove_category_voting_threshold_call a category) s p h q =
    invoke-Refused (remove_category_voting_threshold env a category) s
      (remove_category_voting_threshold_unsigned env s a category h q)
step-unsigned env (propose_token_update_call a a') s p h q =
    invoke-Refused (propose_token_update env a a') s (propose_token_update_unsigned env s a a' h q)
step-unsigned env (accept_token_update_call a) s p h q =
    invoke-Refused (accept_token_update env a) s (accept_token_update_unsigned env s a h q)
step-unsigned env (cancel_token_update_call a) s p h q =
    invoke-Refused (cancel_token_update env a) s (cancel_token_update_unsigned env s a h q)
step-unsigned env (set_token_update_delay_secs_call a n) s p h q =
    invoke-Refused (set_token_update_delay_secs_fn env a n) s
      (set_token_update_delay_secs_unsigned env s a n h q)
step-unsigned env (initiate_admin_transfer_call a a') s p h q =
    invoke-Refused (initiate_admin_transfer env a a') s
      (initiate_admin_transfer_unsigned env s a a' h q)
step-unsigned env accept_admin_transfer_call s p h q =
    invoke-Refused (accept_admin_transfer env) s (accept_admin_transfer_unsigned env s h q)
step-unsigned env (cancel_admin_transfer_call a) s p h q =
    invoke-Refused (cancel_admin_transfer env a) s (cancel_admin_transfer_unsigned env s a h q)
step-unsigned env (update_admin_call a) s p h q =
    invoke-Refused (update_admin env a) s (update_admin_unsigned env s a h q)
step-unsigned env (migrate_call a n) s p h q =
    invoke-Refused (migrate env a n) s (migrate_unsigned env s a n h q)
step-unsigned env (set_personal_cap_call n a amount) s p h q =
    invoke-Refused (set_personal_cap_fn env n a amount) s
      (set_personal_cap_unsigned env s n a amount h q)
step-unsigned env (remove_personal_cap_call n a) s p h q =
    invoke-Refused (remove_personal_cap_fn env n a) s (remove_personal_cap_unsigned env s n a h q)
step-unsigned env (save_campaign_call a n) s p h q =
    invoke-Refused (save_campaign env a n) s (save_campaign_unsigned env s a n h q)
step-unsigned env (batch_save_campaigns_call a ids) s p h q =
    invoke-Refused (batch_save_campaigns env a ids) s
      (batch_save_campaigns_unsigned env s a ids h q)
step-unsigned env (remove_saved_campaign_call a n) s p h q =
    invoke-Refused (remove_saved_campaign env a n) s (remove_saved_campaign_unsigned env s a n h q)
step-unsigned env (clear_saved_campaigns_call a) s p h q =
    invoke-Refused (clear_saved_campaigns env a) s (clear_saved_campaigns_unsigned env s a h q)
step-unsigned env (censure_comment_call n n' text) s p h q =
    invoke-Refused (censure_comment_by_admin env n n' text) s
      (censure_comment_unsigned env s n n' text h q)
step-unsigned env (uncensure_comment_call n n') s p h q =
    invoke-Refused (uncensure_comment_by_admin env n n') s
      (uncensure_comment_unsigned env s n n' h q)
