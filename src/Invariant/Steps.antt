-- ===== src/Invariant/Steps.antt =====
-- Every call keeps the invariant, and so does every history of calls.
use proof_of_heart_stellar.Prelude.{◌≡◌, refl, List, [], ◌∷◌}
use proof_of_heart_stellar.Host.{Host}
use proof_of_heart_stellar.Store.{State}
use proof_of_heart_stellar.Action.{Outcome, ok, err, trap, Action, invoke}
use proof_of_heart_stellar.Admin.{
  init, pause, unpause, set_emergency_signers, emergency_pause, resume_campaign,
  initiate_admin_transfer, update_admin, accept_admin_transfer, cancel_admin_transfer,
  propose_token_update, accept_token_update, cancel_token_update,
}
use proof_of_heart_stellar.Admin.Settings.{
  set_creation_disabled_fn, set_token_allowed_fn, set_voting_params, set_min_voting_balance_fn,
  update_platform_fee, set_transaction_cap, set_campaign_fee_override, set_duration_cap,
  remove_duration_cap, set_category_voting_threshold, remove_category_voting_threshold,
  set_min_campaign_funding_goal_fn, set_max_campaign_funding_goal_fn, migrate,
  set_token_update_delay_secs_fn, purge_voting_state,
}
use proof_of_heart_stellar.Bookmarks.{
  save_campaign, remove_saved_campaign, batch_save_campaigns, clear_saved_campaigns,
}
use proof_of_heart_stellar.Calls.{
  Call, init_call, create_campaign_call, create_campaign_with_token_call, set_token_allowed_call,
  contribute_call, claim_refund_call, batch_contribute_call, withdraw_funds_call,
  withdraw_reserve_call, set_vesting_params_call, set_milestones_call, verify_milestone_call,
  claim_milestone_call, cancel_campaign_call, admin_cancel_campaign_call, update_campaign_call,
  update_campaign_description_call, extend_campaign_deadline_call, initiate_campaign_transfer_call,
  accept_campaign_transfer_call, cancel_campaign_transfer_call, deposit_revenue_call,
  claim_revenue_call, claim_creator_revenue_call, vote_on_campaign_call, verify_campaign_call,
  verify_campaigns_call, verify_campaign_with_votes_call, resume_campaign_call,
  purge_voting_state_call, pause_call, unpause_call, emergency_pause_call,
  set_emergency_pause_signers_call, set_creation_disabled_call, update_platform_fee_call,
  set_max_contribution_per_tx_call, set_campaign_fee_override_call, set_category_duration_cap_call,
  remove_category_duration_cap_call, set_min_campaign_funding_goal_call,
  set_max_campaign_funding_goal_call, set_voting_params_call, set_min_voting_balance_call,
  set_category_voting_threshold_call, remove_category_voting_threshold_call,
  propose_token_update_call, accept_token_update_call, cancel_token_update_call,
  set_token_update_delay_secs_call, initiate_admin_transfer_call, accept_admin_transfer_call,
  cancel_admin_transfer_call, update_admin_call, migrate_call, set_personal_cap_call,
  remove_personal_cap_call, save_campaign_call, batch_save_campaigns_call,
  remove_saved_campaign_call, clear_saved_campaigns_call, censure_comment_call,
  uncensure_comment_call, step, history,
}
use proof_of_heart_stellar.Campaigns.Cancel.{cancel_campaign, admin_cancel_campaign}
use proof_of_heart_stellar.Campaigns.Create.{create_campaign, create_campaign_with_token}
use proof_of_heart_stellar.Campaigns.Transfer.{
  initiate_campaign_transfer, accept_campaign_transfer, cancel_campaign_transfer,
}
use proof_of_heart_stellar.Campaigns.Update.{
  update_campaign, update_campaign_description, extend_campaign_deadline,
}
use proof_of_heart_stellar.Campaigns.Withdraw.{withdraw_funds, withdraw_reserve, set_vesting_params}
use proof_of_heart_stellar.Contributions.{
  contribute, claim_refund, set_personal_cap_fn, remove_personal_cap_fn,
}
use proof_of_heart_stellar.Contributions.Batch.{batch_contribute}
use proof_of_heart_stellar.Invariant.Creation.{
  create_campaign-IsSound, create_campaign_with_token-IsSound,
}
use proof_of_heart_stellar.Invariant.Defs.{IsSound, Same, Same-IsSound}
use proof_of_heart_stellar.Invariant.Edits.{
  update_campaign-IsSound, update_campaign_description-IsSound, extend_campaign_deadline-IsSound,
  initiate_campaign_transfer-IsSound, cancel_campaign_transfer-IsSound,
  accept_campaign_transfer-IsSound, set_campaign_fee_override-IsSound,
}
use proof_of_heart_stellar.Invariant.Ends.{
  cancel_campaign-IsSound, admin_cancel_campaign-IsSound, claim_refund-IsSound,
}
use proof_of_heart_stellar.Invariant.Funds.{contribute-IsSound, batch_contribute-IsSound}
use proof_of_heart_stellar.Invariant.Loops.{
  set_milestones-Same, verify_milestone-Same, batch_save_campaigns-Same,
}
use proof_of_heart_stellar.Invariant.Payouts.{withdraw_funds-IsSound, claim_milestone-IsSound}
use proof_of_heart_stellar.Invariant.Settings.{
  set_creation_disabled_fn-Same, set_token_allowed_fn-Same, set_voting_params-Same,
  set_min_voting_balance_fn-Same, set_transaction_cap-Same, set_duration_cap-Same,
  remove_duration_cap-Same, set_category_voting_threshold-Same,
  remove_category_voting_threshold-Same, set_min_campaign_funding_goal_fn-Same,
  set_max_campaign_funding_goal_fn-Same, migrate-Same, set_token_update_delay_secs_fn-Same,
  purge_voting_state-Same, update_platform_fee-IsSound, set_vesting_params-IsSound, init-IsSound,
}
use proof_of_heart_stellar.Invariant.Shares.{claim_revenue-Same}
use proof_of_heart_stellar.Invariant.Untouched.{
  set_personal_cap_fn-Same, remove_personal_cap_fn-Same, deposit_revenue-Same,
  claim_creator_revenue-Same, withdraw_reserve-Same, vote_on_campaign-Same, save_campaign-Same,
  remove_saved_campaign-Same, clear_saved_campaigns-Same, censure_comment-Same,
  uncensure_comment-Same, pause-Same, unpause-Same, emergency_pause-Same,
  set_emergency_signers-Same, resume_campaign-Same, initiate_admin_transfer-Same, update_admin-Same,
  accept_admin_transfer-Same, cancel_admin_transfer-Same, propose_token_update-Same,
  accept_token_update-Same, cancel_token_update-Same,
}
use proof_of_heart_stellar.Invariant.Verify.{
  verify_campaigns-IsSound, verify_campaign-IsSound, verify_campaign_with_votes-IsSound,
}
use proof_of_heart_stellar.Milestones.{set_milestones, verify_milestone, claim_milestone}
use proof_of_heart_stellar.Moderation.{censure_comment_by_admin, uncensure_comment_by_admin}
use proof_of_heart_stellar.Revenue.{deposit_revenue, claim_revenue, claim_creator_revenue}
use proof_of_heart_stellar.Voting.{
  vote_on_campaign, verify_campaign, verify_campaigns, verify_campaign_with_votes,
}

module _ {A : Type 0} (m : Action A) (s : State) (v : IsSound s) where
  kept : ((a : A) (t : State) → m s ≡ ok a t → IsSound t) → IsSound (invoke m s)
  unfolding invoke
  kept k = go (m s) refl
    where
      go : (r : Outcome A) → m s ≡ r → IsSound (elim r [ ok a s' ↦ s' | err e s' ↦ s | trap ↦ s ])
      go (ok a t) e = k a t e
      go (err x t) e = v
      go trap e = v

  kept_as_it_was : ((a : A) (t : State) → m s ≡ ok a t → Same s t) → IsSound (invoke m s)
  kept_as_it_was k = kept (λ a t e. Same-IsSound s t v (k a t e))

step-IsSound : (env : Host) (call : Call) (s : State) → IsSound s → IsSound (step env call s)
unfolding step
step-IsSound env (init_call a a' n) s v =
    kept (init env a a' n) s v (λ _ t h. init-IsSound env s a a' n v h)
step-IsSound env (create_campaign_call params) s v =
    kept (create_campaign env params) s v (λ id t h. create_campaign-IsSound env params s v id t h)
step-IsSound env (create_campaign_with_token_call params a) s v =
    kept (create_campaign_with_token env params a) s v
      (λ id t h. create_campaign_with_token-IsSound env params s v id t a h)
step-IsSound env (set_token_allowed_call a b) s v =
    kept_as_it_was (set_token_allowed_fn env a b) s v
      (λ _ t h. set_token_allowed_fn-Same env s a b h)
step-IsSound env (contribute_call n a amount) s v =
    kept (contribute env n a amount) s v (λ _ t h. contribute-IsSound env n a amount s t v h)
step-IsSound env (claim_refund_call n a) s v =
    kept (claim_refund env n a) s v (λ _ t h. claim_refund-IsSound env n s t v a h)
step-IsSound env (batch_contribute_call a items) s v =
    kept (batch_contribute env a items) s v (λ _ t h. batch_contribute-IsSound env a items s t v h)
step-IsSound env (withdraw_funds_call n) s v =
    kept (withdraw_funds env n) s v (λ _ t h. withdraw_funds-IsSound env n s t v h)
step-IsSound env (withdraw_reserve_call n) s v =
    kept_as_it_was (withdraw_reserve env n) s v (λ _ t h. withdraw_reserve-Same env s n h)
step-IsSound env (set_vesting_params_call a n n') s v =
    kept (set_vesting_params env a n n') s v (λ _ t h. set_vesting_params-IsSound env s a n n' v h)
step-IsSound env (set_milestones_call n milestones) s v =
    kept_as_it_was (set_milestones env n milestones) s v
      (λ _ t h. set_milestones-Same env s n milestones h)
step-IsSound env (verify_milestone_call a n n') s v =
    kept_as_it_was (verify_milestone env a n n') s v (λ _ t h. verify_milestone-Same env s a n n' h)
step-IsSound env (claim_milestone_call n n') s v =
    kept (claim_milestone env n n') s v (λ _ t h. claim_milestone-IsSound env n s t v n' h)
step-IsSound env (cancel_campaign_call n) s v =
    kept (cancel_campaign env n) s v (λ _ t h. cancel_campaign-IsSound env n s t v h)
step-IsSound env (admin_cancel_campaign_call a n text) s v =
    kept (admin_cancel_campaign env a n text) s v
      (λ _ t h. admin_cancel_campaign-IsSound env n s t v a text h)
step-IsSound env (update_campaign_call n text text') s v =
    kept (update_campaign env n text text') s v
      (λ _ t h. update_campaign-IsSound env n s t v text text' h)
step-IsSound env (update_campaign_description_call n text) s v =
    kept (update_campaign_description env n text) s v
      (λ _ t h. update_campaign_description-IsSound env n s t v text h)
step-IsSound env (extend_campaign_deadline_call n n') s v =
    kept (extend_campaign_deadline env n n') s v
      (λ _ t h. extend_campaign_deadline-IsSound env n s t v n' h)
step-IsSound env (initiate_campaign_transfer_call n a) s v =
    kept (initiate_campaign_transfer env n a) s v
      (λ _ t h. initiate_campaign_transfer-IsSound env n s t v a h)
step-IsSound env (accept_campaign_transfer_call n) s v =
    kept (accept_campaign_transfer env n) s v
      (λ _ t h. accept_campaign_transfer-IsSound env n s t v h)
step-IsSound env (cancel_campaign_transfer_call n) s v =
    kept (cancel_campaign_transfer env n) s v
      (λ _ t h. cancel_campaign_transfer-IsSound env n s t v h)
step-IsSound env (deposit_revenue_call n amount) s v =
    kept_as_it_was (deposit_revenue env n amount) s v
      (λ _ t h. deposit_revenue-Same env s n amount h)
step-IsSound env (claim_revenue_call n a) s v =
    kept_as_it_was (claim_revenue env n a) s v (λ _ t h. claim_revenue-Same env n a s t h)
step-IsSound env (claim_creator_revenue_call n) s v =
    kept_as_it_was (claim_creator_revenue env n) s v (λ _ t h. claim_creator_revenue-Same env s n h)
step-IsSound env (vote_on_campaign_call n a b) s v =
    kept_as_it_was (vote_on_campaign env n a b) s v (λ _ t h. vote_on_campaign-Same env s n a b h)
step-IsSound env (verify_campaign_call n) s v =
    kept (verify_campaign env n) s v (λ _ t h. verify_campaign-IsSound env n s t v h)
step-IsSound env (verify_campaigns_call ids) s v =
    kept (verify_campaigns env ids) s v (λ _ t h. verify_campaigns-IsSound env ids s t v h)
step-IsSound env (verify_campaign_with_votes_call n) s v =
    kept (verify_campaign_with_votes env n) s v
      (λ _ t h. verify_campaign_with_votes-IsSound env n s t v h)
step-IsSound env (resume_campaign_call n a) s v =
    kept_as_it_was (resume_campaign env n a) s v (λ _ t h. resume_campaign-Same env s n a h)
step-IsSound env (purge_voting_state_call n signers b) s v =
    kept_as_it_was (purge_voting_state env n signers b) s v
      (λ _ t h. purge_voting_state-Same env s n signers b h)
step-IsSound env pause_call s v = kept_as_it_was (pause env) s v (λ _ t h. pause-Same env s h)
step-IsSound env unpause_call s v = kept_as_it_was (unpause env) s v (λ _ t h. unpause-Same env s h)
step-IsSound env (emergency_pause_call a) s v =
    kept_as_it_was (emergency_pause env a) s v (λ _ t h. emergency_pause-Same env s a h)
step-IsSound env (set_emergency_pause_signers_call a signers) s v =
    kept_as_it_was (set_emergency_signers env a signers) s v
      (λ _ t h. set_emergency_signers-Same env s a signers h)
step-IsSound env (set_creation_disabled_call b) s v =
    kept_as_it_was (set_creation_disabled_fn env b) s v
      (λ _ t h. set_creation_disabled_fn-Same env s b h)
step-IsSound env (update_platform_fee_call n) s v =
    kept (update_platform_fee env n) s v (λ _ t h. update_platform_fee-IsSound env s n v h)
step-IsSound env (set_max_contribution_per_tx_call a amount) s v =
    kept_as_it_was (set_transaction_cap env a amount) s v
      (λ _ t h. set_transaction_cap-Same env s a amount h)
step-IsSound env (set_campaign_fee_override_call n a n') s v =
    kept (set_campaign_fee_override env n a n') s v
      (λ _ t h. set_campaign_fee_override-IsSound env n s t v a n' h)
step-IsSound env (set_category_duration_cap_call a category n) s v =
    kept_as_it_was (set_duration_cap env a category n) s v
      (λ _ t h. set_duration_cap-Same env s a category n h)
step-IsSound env (remove_category_duration_cap_call a category) s v =
    kept_as_it_was (remove_duration_cap env a category) s v
      (λ _ t h. remove_duration_cap-Same env s a category h)
step-IsSound env (set_min_campaign_funding_goal_call a amount) s v =
    kept_as_it_was (set_min_campaign_funding_goal_fn env a amount) s v
      (λ _ t h. set_min_campaign_funding_goal_fn-Same env s a amount h)
step-IsSound env (set_max_campaign_funding_goal_call a amount) s v =
    kept_as_it_was (set_max_campaign_funding_goal_fn env a amount) s v
      (λ _ t h. set_max_campaign_funding_goal_fn-Same env s a amount h)
step-IsSound env (set_voting_params_call a n n') s v =
    kept_as_it_was (set_voting_params env a n n') s v
      (λ _ t h. set_voting_params-Same env s a n n' h)
step-IsSound env (set_min_voting_balance_call a amount) s v =
    kept_as_it_was (set_min_voting_balance_fn env a amount) s v
      (λ _ t h. set_min_voting_balance_fn-Same env s a amount h)
step-IsSound env (set_category_voting_threshold_call a category n) s v =
    kept_as_it_was (set_category_voting_threshold env a category n) s v
      (λ _ t h. set_category_voting_threshold-Same env s a category n h)
step-IsSound env (remove_category_voting_threshold_call a category) s v =
    kept_as_it_was (remove_category_voting_threshold env a category) s v
      (λ _ t h. remove_category_voting_threshold-Same env s a category h)
step-IsSound env (propose_token_update_call a a') s v =
    kept_as_it_was (propose_token_update env a a') s v
      (λ _ t h. propose_token_update-Same env s a a' h)
step-IsSound env (accept_token_update_call a) s v =
    kept_as_it_was (accept_token_update env a) s v (λ _ t h. accept_token_update-Same env s a h)
step-IsSound env (cancel_token_update_call a) s v =
    kept_as_it_was (cancel_token_update env a) s v (λ _ t h. cancel_token_update-Same env s a h)
step-IsSound env (set_token_update_delay_secs_call a n) s v =
    kept_as_it_was (set_token_update_delay_secs_fn env a n) s v
      (λ _ t h. set_token_update_delay_secs_fn-Same env s a n h)
step-IsSound env (initiate_admin_transfer_call a a') s v =
    kept_as_it_was (initiate_admin_transfer env a a') s v
      (λ _ t h. initiate_admin_transfer-Same env s a a' h)
step-IsSound env accept_admin_transfer_call s v =
    kept_as_it_was (accept_admin_transfer env) s v (λ _ t h. accept_admin_transfer-Same env s h)
step-IsSound env (cancel_admin_transfer_call a) s v =
    kept_as_it_was (cancel_admin_transfer env a) s v (λ _ t h. cancel_admin_transfer-Same env s a h)
step-IsSound env (update_admin_call a) s v =
    kept_as_it_was (update_admin env a) s v (λ _ t h. update_admin-Same env s a h)
step-IsSound env (migrate_call a n) s v =
    kept_as_it_was (migrate env a n) s v (λ _ t h. migrate-Same env s a n h)
step-IsSound env (set_personal_cap_call n a amount) s v =
    kept_as_it_was (set_personal_cap_fn env n a amount) s v
      (λ _ t h. set_personal_cap_fn-Same env s n a amount h)
step-IsSound env (remove_personal_cap_call n a) s v =
    kept_as_it_was (remove_personal_cap_fn env n a) s v
      (λ _ t h. remove_personal_cap_fn-Same env s n a h)
step-IsSound env (save_campaign_call a n) s v =
    kept_as_it_was (save_campaign env a n) s v (λ _ t h. save_campaign-Same env s a n h)
step-IsSound env (batch_save_campaigns_call a ids) s v =
    kept_as_it_was (batch_save_campaigns env a ids) s v
      (λ _ t h. batch_save_campaigns-Same env s a ids h)
step-IsSound env (remove_saved_campaign_call a n) s v =
    kept_as_it_was (remove_saved_campaign env a n) s v
      (λ _ t h. remove_saved_campaign-Same env s a n h)
step-IsSound env (clear_saved_campaigns_call a) s v =
    kept_as_it_was (clear_saved_campaigns env a) s v (λ _ t h. clear_saved_campaigns-Same env s a h)
step-IsSound env (censure_comment_call n n' text) s v =
    kept_as_it_was (censure_comment_by_admin env n n' text) s v
      (λ _ t h. censure_comment-Same env s n n' text h)
step-IsSound env (uncensure_comment_call n n') s v =
    kept_as_it_was (uncensure_comment_by_admin env n n') s v
      (λ _ t h. uncensure_comment-Same env s n n' h)

pub history-IsSound :
    (calls : List (Host × Call)) (s : State) → IsSound s → IsSound (history calls s)
unfolding history
history-IsSound [] s v = v
history-IsSound ((env, call) ∷ calls) s v =
    history-IsSound calls (step env call s) (step-IsSound env call s v)
