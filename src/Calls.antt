-- ===== src/Calls.antt =====
-- The calls of the contract: every function of src/lib.rs that changes the storage, and the
-- histories of calls that start from the empty storage.
use proof_of_heart_stellar.Prelude.{ℕ, Bool, List, [], ◌∷◌}
use proof_of_heart_stellar.Prelude.Int.{ℤ}
use proof_of_heart_stellar.Types.{Address, Text, Category, CreateCampaignParams, Milestone}
use proof_of_heart_stellar.Host.{Host}
use proof_of_heart_stellar.Store.{State}
use proof_of_heart_stellar.Action.{invoke}
use proof_of_heart_stellar.Admin.{
  init, pause, unpause, set_emergency_signers, emergency_pause, resume_campaign,
  initiate_admin_transfer, update_admin, accept_admin_transfer, cancel_admin_transfer,
  propose_token_update, accept_token_update, cancel_token_update,
}
use proof_of_heart_stellar.Admin.Settings.{
  set_creation_disabled_fn, set_token_allowed_fn, set_voting_params, set_min_voting_balance_fn,
  update_platform_fee, set_transaction_cap, set_campaign_fee_override, set_duration_cap,
  remove_duration_cap, set_category_voting_threshold, remove_category_voting_threshold,
  set_min_campaign_funding_goal_fn, set_max_campaign_funding_goal_fn, migrate,
  set_token_update_delay_secs_fn, purge_voting_state,
}
use proof_of_heart_stellar.Bookmarks.{
  save_campaign, remove_saved_campaign, batch_save_campaigns, clear_saved_campaigns,
}
use proof_of_heart_stellar.Campaigns.Cancel.{cancel_campaign, admin_cancel_campaign}
use proof_of_heart_stellar.Campaigns.Create.{create_campaign, create_campaign_with_token}
use proof_of_heart_stellar.Campaigns.Transfer.{
  initiate_campaign_transfer, accept_campaign_transfer, cancel_campaign_transfer,
}
use proof_of_heart_stellar.Campaigns.Update.{
  update_campaign, update_campaign_description, extend_campaign_deadline,
}
use proof_of_heart_stellar.Campaigns.Withdraw.{withdraw_funds, withdraw_reserve, set_vesting_params}
use proof_of_heart_stellar.Contributions.{
  contribute, claim_refund, set_personal_cap_fn, remove_personal_cap_fn,
}
use proof_of_heart_stellar.Contributions.Batch.{batch_contribute}
use proof_of_heart_stellar.Milestones.{set_milestones, verify_milestone, claim_milestone}
use proof_of_heart_stellar.Moderation.{censure_comment_by_admin, uncensure_comment_by_admin}
use proof_of_heart_stellar.Revenue.{deposit_revenue, claim_revenue, claim_creator_revenue}
use proof_of_heart_stellar.Voting.{
  vote_on_campaign, verify_campaign, verify_campaigns, verify_campaign_with_votes,
}

pub data Call : Type 0 where
  init_call : Address → Address → ℕ → Call
  create_campaign_call : CreateCampaignParams → Call
  create_campaign_with_token_call : CreateCampaignParams → Address → Call
  set_token_allowed_call : Address → Bool → Call
  contribute_call : ℕ → Address → ℤ → Call
  claim_refund_call : ℕ → Address → Call
  batch_contribute_call : Address → List (ℕ × ℤ) → Call
  withdraw_funds_call : ℕ → Call
  withdraw_reserve_call : ℕ → Call
  set_vesting_params_call : Address → ℕ → ℕ → Call
  set_milestones_call : ℕ → List Milestone → Call
  verify_milestone_call : Address → ℕ → ℕ → Call
  claim_milestone_call : ℕ → ℕ → Call
  cancel_campaign_call : ℕ → Call
  admin_cancel_campaign_call : Address → ℕ → Text → Call
  update_campaign_call : ℕ → Text → Text → Call
  update_campaign_description_call : ℕ → Text → Call
  extend_campaign_deadline_call : ℕ → ℕ → Call
  initiate_campaign_transfer_call : ℕ → Address → Call
  accept_campaign_transfer_call : ℕ → Call
  cancel_campaign_transfer_call : ℕ → Call
  deposit_revenue_call : ℕ → ℤ → Call
  claim_revenue_call : ℕ → Address → Call
  claim_creator_revenue_call : ℕ → Call
  vote_on_campaign_call : ℕ → Address → Bool → Call
  verify_campaign_call : ℕ → Call
  verify_campaigns_call : List ℕ → Call
  verify_campaign_with_votes_call : ℕ → Call
  resume_campaign_call : ℕ → Address → Call
  purge_voting_state_call : ℕ → List Address → Bool → Call
  pause_call : Call
  unpause_call : Call
  emergency_pause_call : Address → Call
  set_emergency_pause_signers_call : Address → List Address → Call
  set_creation_disabled_call : Bool → Call
  update_platform_fee_call : ℕ → Call
  set_max_contribution_per_tx_call : Address → ℤ → Call
  set_campaign_fee_override_call : ℕ → Address → ℕ → Call
  set_category_duration_cap_call : Address → Category → ℕ → Call
  remove_category_duration_cap_call : Address → Category → Call
  set_min_campaign_funding_goal_call : Address → ℤ → Call
  set_max_campaign_funding_goal_call : Address → ℤ → Call
  set_voting_params_call : Address → ℕ → ℕ → Call
  set_min_voting_balance_call : Address → ℤ → Call
  set_category_voting_threshold_call : Address → Category → ℕ → Call
  remove_category_voting_threshold_call : Address → Category → Call
  propose_token_update_call : Address → Address → Call
  accept_token_update_call : Address → Call
  cancel_token_update_call : Address → Call
  set_token_update_delay_secs_call : Address → ℕ → Call
  initiate_admin_transfer_call : Address → Address → Call
  accept_admin_transfer_call : Call
  cancel_admin_transfer_call : Address → Call
  update_admin_call : Address → Call
  migrate_call : Address → ℕ → Call
  set_personal_cap_call : ℕ → Address → ℤ → Call
  remove_personal_cap_call : ℕ → Address → Call
  save_campaign_call : Address → ℕ → Call
  batch_save_campaigns_call : Address → List ℕ → Call
  remove_saved_campaign_call : Address → ℕ → Call
  clear_saved_campaigns_call : Address → Call
  censure_comment_call : ℕ → ℕ → Text → Call
  uncensure_comment_call : ℕ → ℕ → Call

-- The state that a call leaves: what it wrote if it returned, and the state before it otherwise.
unfoldable pub step : Host → Call → State → State
step env (init_call a a' n) = invoke (init env a a' n)
step env (create_campaign_call params) = invoke (create_campaign env params)
step env (create_campaign_with_token_call params a) =
    invoke (create_campaign_with_token env params a)
step env (set_token_allowed_call a b) = invoke (set_token_allowed_fn env a b)
step env (contribute_call n a amount) = invoke (contribute env n a amount)
step env (claim_refund_call n a) = invoke (claim_refund env n a)
step env (batch_contribute_call a items) = invoke (batch_contribute env a items)
step env (withdraw_funds_call n) = invoke (withdraw_funds env n)
step env (withdraw_reserve_call n) = invoke (withdraw_reserve env n)
step env (set_vesting_params_call a n n') = invoke (set_vesting_params env a n n')
step env (set_milestones_call n milestones) = invoke (set_milestones env n milestones)
step env (verify_milestone_call a n n') = invoke (verify_milestone env a n n')
step env (claim_milestone_call n n') = invoke (claim_milestone env n n')
step env (cancel_campaign_call n) = invoke (cancel_campaign env n)
step env (admin_cancel_campaign_call a n text) = invoke (admin_cancel_campaign env a n text)
step env (update_campaign_call n text text') = invoke (update_campaign env n text text')
step env (update_campaign_description_call n text) = invoke (update_campaign_description env n text)
step env (extend_campaign_deadline_call n n') = invoke (extend_campaign_deadline env n n')
step env (initiate_campaign_transfer_call n a) = invoke (initiate_campaign_transfer env n a)
step env (accept_campaign_transfer_call n) = invoke (accept_campaign_transfer env n)
step env (cancel_campaign_transfer_call n) = invoke (cancel_campaign_transfer env n)
step env (deposit_revenue_call n amount) = invoke (deposit_revenue env n amount)
step env (claim_revenue_call n a) = invoke (claim_revenue env n a)
step env (claim_creator_revenue_call n) = invoke (claim_creator_revenue env n)
step env (vote_on_campaign_call n a b) = invoke (vote_on_campaign env n a b)
step env (verify_campaign_call n) = invoke (verify_campaign env n)
step env (verify_campaigns_call ids) = invoke (verify_campaigns env ids)
step env (verify_campaign_with_votes_call n) = invoke (verify_campaign_with_votes env n)
step env (resume_campaign_call n a) = invoke (resume_campaign env n a)
step env (purge_voting_state_call n signers b) = invoke (purge_voting_state env n signers b)
step env pause_call = invoke (pause env)
step env unpause_call = invoke (unpause env)
step env (emergency_pause_call a) = invoke (emergency_pause env a)
step env (set_emergency_pause_signers_call a signers) = invoke (set_emergency_signers env a signers)
step env (set_creation_disabled_call b) = invoke (set_creation_disabled_fn env b)
step env (update_platform_fee_call n) = invoke (update_platform_fee env n)
step env (set_max_contribution_per_tx_call a amount) = invoke (set_transaction_cap env a amount)
step env (set_campaign_fee_override_call n a n') = invoke (set_campaign_fee_override env n a n')
step env (set_category_duration_cap_call a category n) = invoke (set_duration_cap env a category n)
step env (remove_category_duration_cap_call a category) =
    invoke (remove_duration_cap env a category)
step env (set_min_campaign_funding_goal_call a amount) =
    invoke (set_min_campaign_funding_goal_fn env a amount)
step env (set_max_campaign_funding_goal_call a amount) =
    invoke (set_max_campaign_funding_goal_fn env a amount)
step env (set_voting_params_call a n n') = invoke (set_voting_params env a n n')
step env (set_min_voting_balance_call a amount) = invoke (set_min_voting_balance_fn env a amount)
step env (set_category_voting_threshold_call a category n) =
    invoke (set_category_voting_threshold env a category n)
step env (remove_category_voting_threshold_call a category) =
    invoke (remove_category_voting_threshold env a category)
step env (propose_token_update_call a a') = invoke (propose_token_update env a a')
step env (accept_token_update_call a) = invoke (accept_token_update env a)
step env (cancel_token_update_call a) = invoke (cancel_token_update env a)
step env (set_token_update_delay_secs_call a n) = invoke (set_token_update_delay_secs_fn env a n)
step env (initiate_admin_transfer_call a a') = invoke (initiate_admin_transfer env a a')
step env accept_admin_transfer_call = invoke (accept_admin_transfer env)
step env (cancel_admin_transfer_call a) = invoke (cancel_admin_transfer env a)
step env (update_admin_call a) = invoke (update_admin env a)
step env (migrate_call a n) = invoke (migrate env a n)
step env (set_personal_cap_call n a amount) = invoke (set_personal_cap_fn env n a amount)
step env (remove_personal_cap_call n a) = invoke (remove_personal_cap_fn env n a)
step env (save_campaign_call a n) = invoke (save_campaign env a n)
step env (batch_save_campaigns_call a ids) = invoke (batch_save_campaigns env a ids)
step env (remove_saved_campaign_call a n) = invoke (remove_saved_campaign env a n)
step env (clear_saved_campaigns_call a) = invoke (clear_saved_campaigns env a)
step env (censure_comment_call n n' text) = invoke (censure_comment_by_admin env n n' text)
step env (uncensure_comment_call n n') = invoke (uncensure_comment_by_admin env n n')

-- A sequence of calls, each with the host that it runs in, the first call first.
unfoldable pub history : List (Host × Call) → State → State
history [] s = s
history ((env, call) ∷ calls) s = history calls (step env call s)
