-- ===== src/Tests/Stored.antt =====
-- What is stored in the states of the scenario.
use proof_of_heart_stellar.Prelude.{is_some, ◌≡◌, refl, true, false, some}
use proof_of_heart_stellar.Prelude.Int.{
  pos, ◌+ℤ◌, ◌-ℤ◌, ◌*ℤ◌, ◌/ℤ◌, in_i128, checked_add, checked_sub, checked_mul, checked_div,
}
use proof_of_heart_stellar.Prelude.Words.{checked_add_u32, checked_add_u64, checked_mul_u64}
use proof_of_heart_stellar.Store.{stored_token, get_contribution, get_revenue_pool, get_campaign}
use proof_of_heart_stellar.Action.{transfer, invoke}
use proof_of_heart_stellar.Lifecycle.{state_of, transition, calculate_deadline, is_paused}
use proof_of_heart_stellar.Admin.{init, pause}
use proof_of_heart_stellar.Calls.{step}
use proof_of_heart_stellar.Campaigns.Cancel.{mark_cancelled, cancel_campaign}
use proof_of_heart_stellar.Campaigns.Create.{
  hash_text, stored_share, check_goal, check_duration, check_texts, check_share, choose_token,
  index_by_category, index_by_creator, check_params, store_campaign, create_campaign_inner,
  create_campaign,
}
use proof_of_heart_stellar.Campaigns.Withdraw.{
  ceil_bps, check_withdrawal, vesting_of, split_funds, hold_reserve, close_campaign, fee_recipient,
  pay_out, withdraw_funds,
}
use proof_of_heart_stellar.Contributions.{
  check_contribution_caps, check_transaction_contribution_cap, check_personal_cap,
  check_burst_count, check_burst_guard, update_contribution_accounting, check_open, check_limits,
  accept_contribution, is_new_top, settle_contribution, contribute, claim_refund,
}
use proof_of_heart_stellar.Funding.Payouts.{fee_of}
use proof_of_heart_stellar.Revenue.{deposit_revenue, creator_share, claim_creator_revenue}
use proof_of_heart_stellar.Tests.Scenario.{
  created, verified_state, funded, complete, revenue_in, cancelled_state, paused_state, campaign_in,
}
use proof_of_heart_stellar.Voting.{mark_verified, admin_verify, verify_campaign}

pub verified_campaign : get_campaign 1 verified_state ≡ some (campaign_in verified_state)
unfolding step invoke transfer init create_campaign create_campaign_inner check_params check_goal
    check_duration check_texts check_share stored_share hash_text choose_token store_campaign
    index_by_category index_by_creator calculate_deadline checked_add_u32 checked_add_u64
    checked_mul_u64 verify_campaign admin_verify mark_verified transition state_of
verified_campaign = refl

pub funded_campaign : get_campaign 1 funded ≡ some (campaign_in funded)
unfolding step invoke transfer init create_campaign create_campaign_inner check_params check_goal
    check_duration check_texts check_share stored_share hash_text choose_token store_campaign
    index_by_category index_by_creator calculate_deadline checked_add_u32 checked_add_u64
    checked_mul_u64 verify_campaign admin_verify mark_verified transition state_of contribute
    accept_contribution check_open check_limits check_transaction_contribution_cap
    check_contribution_caps check_personal_cap check_burst_guard check_burst_count
    update_contribution_accounting settle_contribution is_new_top checked_add checked_sub
    checked_mul in_i128 ◌+ℤ◌ ◌*ℤ◌
funded_campaign = refl

pub created_campaign : get_campaign 1 created ≡ some (campaign_in created)
unfolding step invoke transfer init create_campaign create_campaign_inner check_params check_goal
    check_duration check_texts check_share stored_share hash_text choose_token store_campaign
    index_by_category index_by_creator calculate_deadline checked_add_u32 checked_add_u64
    checked_mul_u64
created_campaign = refl

pub complete_campaign : get_campaign 1 complete ≡ some (campaign_in complete)
unfolding step invoke transfer init create_campaign create_campaign_inner check_params check_goal
    check_duration check_texts check_share stored_share hash_text choose_token store_campaign
    index_by_category index_by_creator calculate_deadline checked_add_u32 checked_add_u64
    checked_mul_u64 verify_campaign admin_verify mark_verified transition state_of contribute
    accept_contribution check_open check_limits check_transaction_contribution_cap
    check_contribution_caps check_personal_cap check_burst_guard check_burst_count
    update_contribution_accounting settle_contribution is_new_top checked_add checked_sub
    checked_mul in_i128 ◌+ℤ◌ ◌*ℤ◌
complete_campaign = refl

pub complete_amount : (campaign_in complete).effective_amount_raised ≡ pos 100_001
unfolding step invoke transfer init create_campaign create_campaign_inner check_params check_goal
    check_duration check_texts check_share stored_share hash_text choose_token store_campaign
    index_by_category index_by_creator calculate_deadline checked_add_u32 checked_add_u64
    checked_mul_u64 verify_campaign admin_verify mark_verified transition state_of contribute
    accept_contribution check_open check_limits check_transaction_contribution_cap
    check_contribution_caps check_personal_cap check_burst_guard check_burst_count
    update_contribution_accounting settle_contribution is_new_top checked_add checked_sub
    checked_mul in_i128 ◌+ℤ◌ ◌*ℤ◌
complete_amount = refl

pub complete_fee : fee_of (campaign_in complete) complete ≡ 300
unfolding step invoke transfer init create_campaign create_campaign_inner check_params check_goal
    check_duration check_texts check_share stored_share hash_text choose_token store_campaign
    index_by_category index_by_creator calculate_deadline checked_add_u32 checked_add_u64
    checked_mul_u64 verify_campaign admin_verify mark_verified transition state_of contribute
    accept_contribution check_open check_limits check_transaction_contribution_cap
    check_contribution_caps check_personal_cap check_burst_guard check_burst_count
    update_contribution_accounting settle_contribution is_new_top checked_add checked_sub
    checked_mul in_i128 ◌+ℤ◌ ◌*ℤ◌
complete_fee = refl

pub complete_vesting : (vesting_of 1 complete).1 ≡ 0
unfolding step invoke transfer init create_campaign create_campaign_inner check_params check_goal
    check_duration check_texts check_share stored_share hash_text choose_token store_campaign
    index_by_category index_by_creator calculate_deadline checked_add_u32 checked_add_u64
    checked_mul_u64 verify_campaign admin_verify mark_verified transition state_of contribute
    accept_contribution check_open check_limits check_transaction_contribution_cap
    check_contribution_caps check_personal_cap check_burst_guard check_burst_count
    update_contribution_accounting settle_contribution is_new_top checked_add checked_sub
    checked_mul in_i128 ◌+ℤ◌ ◌*ℤ◌
complete_vesting = refl

pub revenue_campaign : get_campaign 1 revenue_in ≡ some (campaign_in revenue_in)
unfolding step invoke transfer init create_campaign create_campaign_inner check_params check_goal
    check_duration check_texts check_share stored_share hash_text choose_token store_campaign
    index_by_category index_by_creator calculate_deadline checked_add_u32 checked_add_u64
    checked_mul_u64 verify_campaign admin_verify mark_verified transition state_of contribute
    accept_contribution check_open check_limits check_transaction_contribution_cap
    check_contribution_caps check_personal_cap check_burst_guard check_burst_count
    update_contribution_accounting settle_contribution is_new_top checked_add checked_sub
    checked_mul in_i128 ◌+ℤ◌ ◌*ℤ◌ withdraw_funds check_withdrawal split_funds ceil_bps pay_out
    close_campaign hold_reserve fee_recipient ◌-ℤ◌ ◌/ℤ◌ deposit_revenue claim_creator_revenue
    creator_share checked_div
revenue_campaign = refl

pub revenue_amount : get_revenue_pool 1 revenue_in ≡ pos 1999
unfolding step invoke transfer init create_campaign create_campaign_inner check_params check_goal
    check_duration check_texts check_share stored_share hash_text choose_token store_campaign
    index_by_category index_by_creator calculate_deadline checked_add_u32 checked_add_u64
    checked_mul_u64 verify_campaign admin_verify mark_verified transition state_of contribute
    accept_contribution check_open check_limits check_transaction_contribution_cap
    check_contribution_caps check_personal_cap check_burst_guard check_burst_count
    update_contribution_accounting settle_contribution is_new_top checked_add checked_sub
    checked_mul in_i128 ◌+ℤ◌ ◌*ℤ◌ withdraw_funds check_withdrawal split_funds ceil_bps pay_out
    close_campaign hold_reserve fee_recipient ◌-ℤ◌ ◌/ℤ◌ deposit_revenue claim_creator_revenue
    creator_share checked_div
revenue_amount = refl

pub cancelled_campaign : get_campaign 1 cancelled_state ≡ some (campaign_in cancelled_state)
unfolding step invoke transfer init create_campaign create_campaign_inner check_params check_goal
    check_duration check_texts check_share stored_share hash_text choose_token store_campaign
    index_by_category index_by_creator calculate_deadline checked_add_u32 checked_add_u64
    checked_mul_u64 verify_campaign admin_verify mark_verified transition state_of contribute
    accept_contribution check_open check_limits check_transaction_contribution_cap
    check_contribution_caps check_personal_cap check_burst_guard check_burst_count
    update_contribution_accounting settle_contribution is_new_top checked_add checked_sub
    checked_mul in_i128 ◌+ℤ◌ ◌*ℤ◌ cancel_campaign mark_cancelled ◌-ℤ◌
cancelled_campaign = refl

pub cancelled_flag : (campaign_in cancelled_state).is_cancelled ≡ true
unfolding step invoke transfer init create_campaign create_campaign_inner check_params check_goal
    check_duration check_texts check_share stored_share hash_text choose_token store_campaign
    index_by_category index_by_creator calculate_deadline checked_add_u32 checked_add_u64
    checked_mul_u64 verify_campaign admin_verify mark_verified transition state_of contribute
    accept_contribution check_open check_limits check_transaction_contribution_cap
    check_contribution_caps check_personal_cap check_burst_guard check_burst_count
    update_contribution_accounting settle_contribution is_new_top checked_add checked_sub
    checked_mul in_i128 ◌+ℤ◌ ◌*ℤ◌ cancel_campaign mark_cancelled ◌-ℤ◌
cancelled_flag = refl

pub cancelled_unpaused : is_paused cancelled_state ≡ false
unfolding step invoke transfer init create_campaign create_campaign_inner check_params check_goal
    check_duration check_texts check_share stored_share hash_text choose_token store_campaign
    index_by_category index_by_creator calculate_deadline checked_add_u32 checked_add_u64
    checked_mul_u64 verify_campaign admin_verify mark_verified transition state_of contribute
    accept_contribution check_open check_limits check_transaction_contribution_cap
    check_contribution_caps check_personal_cap check_burst_guard check_burst_count
    update_contribution_accounting settle_contribution is_new_top checked_add checked_sub
    checked_mul in_i128 ◌+ℤ◌ ◌*ℤ◌ cancel_campaign mark_cancelled ◌-ℤ◌
cancelled_unpaused = refl

pub cancelled_contribution : get_contribution 1 20 cancelled_state ≡ pos 60_001
unfolding step invoke transfer init create_campaign create_campaign_inner check_params check_goal
    check_duration check_texts check_share stored_share hash_text choose_token store_campaign
    index_by_category index_by_creator calculate_deadline checked_add_u32 checked_add_u64
    checked_mul_u64 verify_campaign admin_verify mark_verified transition state_of contribute
    accept_contribution check_open check_limits check_transaction_contribution_cap
    check_contribution_caps check_personal_cap check_burst_guard check_burst_count
    update_contribution_accounting settle_contribution is_new_top checked_add checked_sub
    checked_mul in_i128 ◌+ℤ◌ ◌*ℤ◌ cancel_campaign mark_cancelled ◌-ℤ◌
cancelled_contribution = refl

pub cancelled_difference :
    in_i128 (
      (campaign_in cancelled_state).effective_amount_raised
      -ℤ get_contribution 1 20 cancelled_state)
    ≡ true
unfolding step invoke transfer init create_campaign create_campaign_inner check_params check_goal
    check_duration check_texts check_share stored_share hash_text choose_token store_campaign
    index_by_category index_by_creator calculate_deadline checked_add_u32 checked_add_u64
    checked_mul_u64 verify_campaign admin_verify mark_verified transition state_of contribute
    accept_contribution check_open check_limits check_transaction_contribution_cap
    check_contribution_caps check_personal_cap check_burst_guard check_burst_count
    update_contribution_accounting settle_contribution is_new_top checked_add checked_sub
    checked_mul in_i128 ◌+ℤ◌ ◌*ℤ◌ cancel_campaign mark_cancelled ◌-ℤ◌ claim_refund
cancelled_difference = refl

pub cancelled_token : is_some (stored_token cancelled_state) ≡ true
unfolding step invoke transfer init create_campaign create_campaign_inner check_params check_goal
    check_duration check_texts check_share stored_share hash_text choose_token store_campaign
    index_by_category index_by_creator calculate_deadline checked_add_u32 checked_add_u64
    checked_mul_u64 verify_campaign admin_verify mark_verified transition state_of contribute
    accept_contribution check_open check_limits check_transaction_contribution_cap
    check_contribution_caps check_personal_cap check_burst_guard check_burst_count
    update_contribution_accounting settle_contribution is_new_top checked_add checked_sub
    checked_mul in_i128 ◌+ℤ◌ ◌*ℤ◌ cancel_campaign mark_cancelled ◌-ℤ◌
cancelled_token = refl

pub paused_flag : is_paused paused_state ≡ true
unfolding step invoke transfer init create_campaign create_campaign_inner check_params check_goal
    check_duration check_texts check_share stored_share hash_text choose_token store_campaign
    index_by_category index_by_creator calculate_deadline checked_add_u32 checked_add_u64
    checked_mul_u64 verify_campaign admin_verify mark_verified transition state_of contribute
    accept_contribution check_open check_limits check_transaction_contribution_cap
    check_contribution_caps check_personal_cap check_burst_guard check_burst_count
    update_contribution_accounting settle_contribution is_new_top checked_add checked_sub
    checked_mul in_i128 ◌+ℤ◌ ◌*ℤ◌ pause
paused_flag = refl
