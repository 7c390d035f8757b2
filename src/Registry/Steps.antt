-- ===== src/Registry/Steps.antt =====
-- Every call is a number of moves once the contract is initialised, and so is every history of
-- calls.
use proof_of_heart_stellar.Prelude.{◌≡◌, refl, true}
use proof_of_heart_stellar.Host.{Host}
use proof_of_heart_stellar.Store.{is_initialized, State}
use proof_of_heart_stellar.Action.{Outcome, ok, err, trap, Action, invoke}
use proof_of_heart_stellar.Admin.{
  init, pause, unpause, set_emergency_signers, emergency_pause, resume_campaign,
  initiate_admin_transfer, update_admin, accept_admin_transfer, cancel_admin_transfer,
  propose_token_update, accept_token_update, cancel_token_update,
}
use proof_of_heart_stellar.Admin.Settings.{
  set_creation_disabled_fn, set_token_allowed_fn, set_voting_params, set_min_voting_balance_fn,
  update_platform_fee, set_transaction_cap, set_campaign_fee_override, set_duration_cap,
  remove_duration_cap, set_category_voting_threshold, remove_category_voting_threshold,
  set_min_campaign_funding_goal_fn, set_max_campaign_funding_goal_fn, migrate,
  set_token_update_delay_secs_fn, purge_voting_state,
}
use proof_of_heart_stellar.Bookmarks.{
  save_campaign, remove_saved_campaign, batch_save_campaigns, clear_saved_campaigns,
}
use proof_of_heart_stellar.Calls.{
  Call, init_call, create_campaign_call, create_campaign_with_token_call, set_token_allowed_call,
  contribute_call, claim_refund_call, batch_contribute_call, withdraw_funds_call,
  withdraw_reserve_call, set_vesting_params_call, set_milestones_call, verify_milestone_call,
  claim_milestone_call, cancel_campaign_call, admin_cancel_campaign_call, update_campaign_call,
  update_campaign_description_call, extend_campaign_deadline_call, initiate_campaign_transfer_call,
  accept_campaign_transfer_call, cancel_campaign_transfer_call, deposit_revenue_call,
  claim_revenue_call, claim_creator_revenue_call, vote_on_campaign_call, verify_campaign_call,
  verify_campaigns_call, verify_campaign_with_votes_call, resume_campaign_call,
  purge_voting_state_call, pause_call, unpause_call, emergency_pause_call,
  set_emergency_pause_signers_call, set_creation_disabled_call, update_platform_fee_call,
  set_max_contribution_per_tx_call, set_campaign_fee_override_call, set_category_duration_cap_call,
  remove_category_duration_cap_call, set_min_campaign_funding_goal_call,
  set_max_campaign_funding_goal_call, set_voting_params_call, set_min_voting_balance_call,
  set_category_voting_threshold_call, remove_category_voting_threshold_call,
  propose_token_update_call, accept_token_update_call, cancel_token_update_call,
  set_token_update_delay_secs_call, initiate_admin_transfer_call, accept_admin_transfer_call,
  cancel_admin_transfer_call, update_admin_call, migrate_call, set_personal_cap_call,
  remove_personal_cap_call, save_campaign_call, batch_save_campaigns_call,
  remove_saved_campaign_call, clear_saved_campaigns_call, censure_comment_call,
  uncensure_comment_call, step,
}
use proof_of_heart_stellar.Campaigns.Cancel.{cancel_campaign, admin_cancel_campaign}
use proof_of_heart_stellar.Campaigns.Create.{create_campaign, create_campaign_with_token}
use proof_of_heart_stellar.Campaigns.Transfer.{
  initiate_campaign_transfer, accept_campaign_transfer, cancel_campaign_transfer,
}
use proof_of_heart_stellar.Campaigns.Update.{
  update_campaign, update_campaign_description, extend_campaign_deadline,
}
use proof_of_heart_stellar.Campaigns.Withdraw.{withdraw_funds, withdraw_reserve, set_vesting_params}
use proof_of_heart_stellar.Contributions.{
  contribute, claim_refund, set_personal_cap_fn, remove_personal_cap_fn,
}
use proof_of_heart_stellar.Contributions.Batch.{batch_contribute}
use proof_of_heart_stellar.Invariant.{Same}
use proof_of_heart_stellar.Invariant.Loops.{
  set_milestones-Same, verify_milestone-Same, batch_save_campaigns-Same,
}
use proof_of_heart_stellar.Invariant.Settings.{
  set_creation_disabled_fn-Same, set_token_allowed_fn-Same, set_voting_params-Same,
  set_min_voting_balance_fn-Same, set_transaction_cap-Same, set_duration_cap-Same,
  remove_duration_cap-Same, set_category_voting_threshold-Same,
  remove_category_voting_threshold-Same, set_min_campaign_funding_goal_fn-Same,
  set_max_campaign_funding_goal_fn-Same, migrate-Same, set_token_update_delay_secs_fn-Same,
  purge_voting_state-Same,
}
use proof_of_heart_stellar.Invariant.Shares.{claim_revenue-Same}
use proof_of_heart_stellar.Invariant.Untouched.{
  set_personal_cap_fn-Same, remove_personal_cap_fn-Same, deposit_revenue-Same,
  claim_creator_revenue-Same, withdraw_reserve-Same, vote_on_campaign-Same, save_campaign-Same,
  remove_saved_campaign-Same, clear_saved_campaigns-Same, censure_comment-Same,
  uncensure_comment-Same, pause-Same, unpause-Same, emergency_pause-Same,
  set_emergency_signers-Same, resume_campaign-Same, initiate_admin_transfer-Same, update_admin-Same,
  accept_admin_transfer-Same, cancel_admin_transfer-Same, propose_token_update-Same,
  accept_token_update-Same, cancel_token_update-Same,
}
use proof_of_heart_stellar.Milestones.{set_milestones, verify_milestone, claim_milestone}
use proof_of_heart_stellar.Moderation.{censure_comment_by_admin, uncensure_comment_by_admin}
use proof_of_heart_stellar.Registry.{Move, Moves, here, one}
use proof_of_heart_stellar.Registry.Creation.{
  create_campaign-Moves, create_campaign_with_token-Moves,
}
use proof_of_heart_stellar.Registry.Edits.{
  Same-Move, update_campaign-Move, update_campaign_description-Move, extend_campaign_deadline-Move,
  initiate_campaign_transfer-Move, cancel_campaign_transfer-Move, accept_campaign_transfer-Move,
  set_campaign_fee_override-Move, cancel_campaign-Move, admin_cancel_campaign-Move,
  claim_refund-Move, withdraw_funds-Move, claim_milestone-Move,
}
use proof_of_heart_stellar.Registry.Funds.{contribute-Moves, batch_contribute-Moves}
use proof_of_heart_stellar.Registry.Settings.{
  init-Move, update_platform_fee-Move, set_vesting_params-Move,
}
use proof_of_heart_stellar.Registry.Verify.{
  verify_campaign-Move, verify_campaign_with_votes-Move, verify_campaigns-Moves,
}
use proof_of_heart_stellar.Revenue.{deposit_revenue, claim_revenue, claim_creator_revenue}
use proof_of_heart_stellar.Voting.{
  vote_on_campaign, verify_campaign, verify_campaigns, verify_campaign_with_votes,
}

module _ {A : Type 0} (m : Action A) (s : State) where
  moved : ((a : A) (t : State) → m s ≡ ok a t → Moves s t) → Moves s (invoke m s)
  unfolding invoke
  moved k = go (m s) refl
    where
      go : (r : Outcome A) → m s ≡ r → Moves s (elim r [ ok a s' ↦ s' | err e s' ↦ s | trap ↦ s ])
      go (ok a t) e = k a t e
      go (err x t) e = here
      go trap e = here

  moved_once : ((a : A) (t : State) → m s ≡ ok a t → Move s t) → Moves s (invoke m s)
  moved_once k = moved (λ a t e. one (k a t e))

  unmoved : ((a : A) (t : State) → m s ≡ ok a t → Same s t) → Moves s (invoke m s)
  unmoved k = moved_once (λ a t e. Same-Move s t (k a t e))

pub step-Moves :
    (env : Host) (call : Call) (s : State) → is_initialized s ≡ true → Moves s (step env call s)
unfolding step
step-Moves env (init_call a a' n) s i =
    moved_once (init env a a' n) s (λ _ t h. init-Move env s t a a' n i h)
step-Moves env (create_campaign_call params) s i =
    moved (create_campaign env params) s (λ _ t h. create_campaign-Moves env params s t h)
step-Moves env (create_campaign_with_token_call params a) s i =
    moved (create_campaign_with_token env params a) s
      (λ _ t h. create_campaign_with_token-Moves env params s t a h)
step-Moves env (set_token_allowed_call a b) s i =
    unmoved (set_token_allowed_fn env a b) s (λ _ t h. set_token_allowed_fn-Same env s a b h)
step-Moves env (contribute_call n a amount) s i =
    moved (contribute env n a amount) s (λ _ t h. contribute-Moves env n a amount s t h)
step-Moves env (claim_refund_call n a) s i =
    moved_once (claim_refund env n a) s (λ _ t h. claim_refund-Move env n s t a h)
step-Moves env (batch_contribute_call a items) s i =
    moved (batch_contribute env a items) s (λ _ t h. batch_contribute-Moves env a items s t h)
step-Moves env (withdraw_funds_call n) s i =
    moved_once (withdraw_funds env n) s (λ _ t h. withdraw_funds-Move env n s t h)
step-Moves env (withdraw_reserve_call n) s i =
    unmoved (withdraw_reserve env n) s (λ _ t h. withdraw_reserve-Same env s n h)
step-Moves env (set_vesting_params_call a n n') s i =
    moved_once (set_vesting_params env a n n') s (λ _ t h. set_vesting_params-Move env s t a n n' h)
step-Moves env (set_milestones_call n milestones) s i =
    unmoved (set_milestones env n milestones) s (λ _ t h. set_milestones-Same env s n milestones h)
step-Moves env (verify_milestone_call a n n') s i =
    unmoved (verify_milestone env a n n') s (λ _ t h. verify_milestone-Same env s a n n' h)
step-Moves env (claim_milestone_call n n') s i =
    moved_once (claim_milestone env n n') s (λ _ t h. claim_milestone-Move env n s t n' h)
step-Moves env (cancel_campaign_call n) s i =
    moved_once (cancel_campaign env n) s (λ _ t h. cancel_campaign-Move env n s t h)
step-Moves env (admin_cancel_campaign_call a n text) s i =
    moved_once (admin_cancel_campaign env a n text) s
      (λ _ t h. admin_cancel_campaign-Move env n s t a text h)
step-Moves env (update_campaign_call n text text') s i =
    moved_once (update_campaign env n text text') s
      (λ _ t h. update_campaign-Move env n s t text text' h)
step-Moves env (update_campaign_description_call n text) s i =
    moved_once (update_campaign_description env n text) s
      (λ _ t h. update_campaign_description-Move env n s t text h)
step-Moves env (extend_campaign_deadline_call n n') s i =
    moved_once (extend_campaign_deadline env n n') s
      (λ _ t h. extend_campaign_deadline-Move env n s t n' h)
step-Moves env (initiate_campaign_transfer_call n a) s i =
    moved_once (initiate_campaign_transfer env n a) s
      (λ _ t h. initiate_campaign_transfer-Move env n s t a h)
step-Moves env (accept_campaign_transfer_call n) s i =
    moved_once (accept_campaign_transfer env n) s
      (λ _ t h. accept_campaign_transfer-Move env n s t h)
step-Moves env (cancel_campaign_transfer_call n) s i =
    moved_once (cancel_campaign_transfer env n) s
      (λ _ t h. cancel_campaign_transfer-Move env n s t h)
step-Moves env (deposit_revenue_call n amount) s i =
    unmoved (deposit_revenue env n amount) s (λ _ t h. deposit_revenue-Same env s n amount h)
step-Moves env (claim_revenue_call n a) s i =
    unmoved (claim_revenue env n a) s (λ _ t h. claim_revenue-Same env n a s t h)
step-Moves env (claim_creator_revenue_call n) s i =
    unmoved (claim_creator_revenue env n) s (λ _ t h. claim_creator_revenue-Same env s n h)
step-Moves env (vote_on_campaign_call n a b) s i =
    unmoved (vote_on_campaign env n a b) s (λ _ t h. vote_on_campaign-Same env s n a b h)
step-Moves env (verify_campaign_call n) s i =
    moved_once (verify_campaign env n) s (λ _ t h. verify_campaign-Move env n s t h)
step-Moves env (verify_campaigns_call ids) s i =
    moved (verify_campaigns env ids) s (λ _ t h. verify_campaigns-Moves env ids s t h)
step-Moves env (verify_campaign_with_votes_call n) s i =
    moved_once (verify_campaign_with_votes env n) s
      (λ _ t h. verify_campaign_with_votes-Move env n s t h)
step-Moves env (resume_campaign_call n a) s i =
    unmoved (resume_campaign env n a) s (λ _ t h. resume_campaign-Same env s n a h)
step-Moves env (purge_voting_state_call n signers b) s i =
    unmoved (purge_voting_state env n signers b) s
      (λ _ t h. purge_voting_state-Same env s n signers b h)
step-Moves env pause_call s i = unmoved (pause env) s (λ _ t h. pause-Same env s h)
step-Moves env unpause_call s i = unmoved (unpause env) s (λ _ t h. unpause-Same env s h)
step-Moves env (emergency_pause_call a) s i =
    unmoved (emergency_pause env a) s (λ _ t h. emergency_pause-Same env s a h)
step-Moves env (set_emergency_pause_signers_call a signers) s i =
    unmoved (set_emergency_signers env a signers) s
      (λ _ t h. set_emergency_signers-Same env s a signers h)
step-Moves env (set_creation_disabled_call b) s i =
    unmoved (set_creation_disabled_fn env b) s (λ _ t h. set_creation_disabled_fn-Same env s b h)
step-Moves env (update_platform_fee_call n) s i =
    moved_once (update_platform_fee env n) s (λ _ t h. update_platform_fee-Move env s t n h)
step-Moves env (set_max_contribution_per_tx_call a amount) s i =
    unmoved (set_transaction_cap env a amount) s
      (λ _ t h. set_transaction_cap-Same env s a amount h)
step-Moves env (set_campaign_fee_override_call n a n') s i =
    moved_once (set_campaign_fee_override env n a n') s
      (λ _ t h. set_campaign_fee_override-Move env n s t a n' h)
step-Moves env (set_category_duration_cap_call a category n) s i =
    unmoved (set_duration_cap env a category n) s
      (λ _ t h. set_duration_cap-Same env s a category n h)
step-Moves env (remove_category_duration_cap_call a category) s i =
    unmoved (remove_duration_cap env a category) s
      (λ _ t h. remove_duration_cap-Same env s a category h)
step-Moves env (set_min_campaign_funding_goal_call a amount) s i =
    unmoved (set_min_campaign_funding_goal_fn env a amount) s
      (λ _ t h. set_min_campaign_funding_goal_fn-Same env s a amount h)
step-Moves env (set_max_campaign_funding_goal_call a amount) s i =
    unmoved (set_max_campaign_funding_goal_fn env a amount) s
      (λ _ t h. set_max_campaign_funding_goal_fn-Same env s a amount h)
step-Moves env (set_voting_params_call a n n') s i =
    unmoved (set_voting_params env a n n') s (λ _ t h. set_voting_params-Same env s a n n' h)
step-Moves env (set_min_voting_balance_call a amount) s i =
    unmoved (set_min_voting_balance_fn env a amount) s
      (λ _ t h. set_min_voting_balance_fn-Same env s a amount h)
step-Moves env (set_category_voting_threshold_call a category n) s i =
    unmoved (set_category_voting_threshold env a category n) s
      (λ _ t h. set_category_voting_threshold-Same env s a category n h)
step-Moves env (remove_category_voting_threshold_call a category) s i =
    unmoved (remove_category_voting_threshold env a category) s
      (λ _ t h. remove_category_voting_threshold-Same env s a category h)
step-Moves env (propose_token_update_call a a') s i =
    unmoved (propose_token_update env a a') s (λ _ t h. propose_token_update-Same env s a a' h)
step-Moves env (accept_token_update_call a) s i =
    unmoved (accept_token_update env a) s (λ _ t h. accept_token_update-Same env s a h)
step-Moves env (cancel_token_update_call a) s i =
    unmoved (cancel_token_update env a) s (λ _ t h. cancel_token_update-Same env s a h)
step-Moves env (set_token_update_delay_secs_call a n) s i =
    unmoved (set_token_update_delay_secs_fn env a n) s
      (λ _ t h. set_token_update_delay_secs_fn-Same env s a n h)
step-Moves env (initiate_admin_transfer_call a a') s i =
    unmoved (initiate_admin_transfer env a a') s
      (λ _ t h. initiate_admin_transfer-Same env s a a' h)
step-Moves env accept_admin_transfer_call s i =
    unmoved (accept_admin_transfer env) s (λ _ t h. accept_admin_transfer-Same env s h)
step-Moves env (cancel_admin_transfer_call a) s i =
    unmoved (cancel_admin_transfer env a) s (λ _ t h. cancel_admin_transfer-Same env s a h)
step-Moves env (update_admin_call a) s i =
    unmoved (update_admin env a) s (λ _ t h. update_admin-Same env s a h)
step-Moves env (migrate_call a n) s i =
    unmoved (migrate env a n) s (λ _ t h. migrate-Same env s a n h)
step-Moves env (set_personal_cap_call n a amount) s i =
    unmoved (set_personal_cap_fn env n a amount) s
      (λ _ t h. set_personal_cap_fn-Same env s n a amount h)
step-Moves env (remove_personal_cap_call n a) s i =
    unmoved (remove_personal_cap_fn env n a) s (λ _ t h. remove_personal_cap_fn-Same env s n a h)
step-Moves env (save_campaign_call a n) s i =
    unmoved (save_campaign env a n) s (λ _ t h. save_campaign-Same env s a n h)
step-Moves env (batch_save_campaigns_call a ids) s i =
    unmoved (batch_save_campaigns env a ids) s (λ _ t h. batch_save_campaigns-Same env s a ids h)
step-Moves env (remove_saved_campaign_call a n) s i =
    unmoved (remove_saved_campaign env a n) s (λ _ t h. remove_saved_campaign-Same env s a n h)
step-Moves env (clear_saved_campaigns_call a) s i =
    unmoved (clear_saved_campaigns env a) s (λ _ t h. clear_saved_campaigns-Same env s a h)
step-Moves env (censure_comment_call n n' text) s i =
    unmoved (censure_comment_by_admin env n n' text) s
      (λ _ t h. censure_comment-Same env s n n' text h)
step-Moves env (uncensure_comment_call n n') s i =
    unmoved (uncensure_comment_by_admin env n n') s (λ _ t h. uncensure_comment-Same env s n n' h)
