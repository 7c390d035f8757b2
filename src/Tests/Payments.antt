-- ===== src/Tests/Payments.antt =====
-- Runs of bookmarks, censures, the reserve, revenue and milestones.
use proof_of_heart_stellar.Prelude.{◌≡◌, refl, true, false, some, [], ◌∷◌}
use proof_of_heart_stellar.Prelude.Int.{
  ◌+ℤ◌, ◌-ℤ◌, ◌*ℤ◌, ◌/ℤ◌, in_i128, checked_add, checked_sub, checked_mul, checked_div,
}
use proof_of_heart_stellar.Prelude.Words.{
  checked_add_u32, checked_sub_u32, checked_add_u64, checked_mul_u64, saturating_add_u32,
}
use proof_of_heart_stellar.Store.{
  is_comment_censured, get_campaign_censured_count, get_campaign, get_campaign_reserve,
}
use proof_of_heart_stellar.Action.{ok, transfer, invoke}
use proof_of_heart_stellar.Lifecycle.{state_of, transition, calculate_deadline}
use proof_of_heart_stellar.Admin.{init}
use proof_of_heart_stellar.Bookmarks.{save_campaign}
use proof_of_heart_stellar.Calls.{claim_milestone_call, claim_revenue_call, step}
use proof_of_heart_stellar.Campaigns.Create.{
  hash_text, stored_share, check_goal, check_duration, check_texts, check_share, choose_token,
  index_by_category, index_by_creator, check_params, store_campaign, create_campaign_inner,
  create_campaign,
}
use proof_of_heart_stellar.Campaigns.Withdraw.{
  ceil_bps, check_withdrawal, split_funds, hold_reserve, close_campaign, fee_recipient, pay_out,
  withdraw_funds, withdraw_reserve, set_vesting_params,
}
use proof_of_heart_stellar.Contributions.{
  check_contribution_caps, check_transaction_contribution_cap, check_personal_cap,
  check_burst_count, check_burst_guard, update_contribution_accounting, check_open, check_limits,
  accept_contribution, is_new_top, settle_contribution, contribute,
}
use proof_of_heart_stellar.Funding.Books.{is_ok}
use proof_of_heart_stellar.Milestones.{
  validate_milestones, normalize, set_milestones, mark_milestone, verify_milestone, find_milestone,
  slice_bps, add_claimed, claimed_so_far, others_claimed, check_milestone_claim,
  claimable_milestone, last_payout, milestone_payout, claim_milestone,
}
use proof_of_heart_stellar.Moderation.{censure_comment, uncensure_comment}
use proof_of_heart_stellar.Revenue.{
  deposit_revenue, revenue_due, creator_share, last_claimant, absorb_dust, check_claim,
  revenue_claimable, record_claim, claim_revenue, claim_creator_revenue,
}
use proof_of_heart_stellar.Roundtrips.Uniqueness.{IsUnique}
use proof_of_heart_stellar.Tests.Runs.{returned}
use proof_of_heart_stellar.Tests.Scenario.{
  host_at, host, created, revenue_in, campaign_in, reached, bookmarked, censured, uncensured,
  reserved, reserve_of, released_state,
}
use proof_of_heart_stellar.Voting.{mark_verified, admin_verify, verify_campaign}

save_runs_ok : is_ok (save_campaign host 20 1 created) ≡ true
unfolding step invoke transfer init create_campaign create_campaign_inner check_params check_goal
    check_duration check_texts check_share stored_share hash_text choose_token store_campaign
    index_by_category index_by_creator calculate_deadline checked_add_u32 checked_add_u64
    checked_mul_u64 save_campaign
save_runs_ok = refl

pub save_runs : save_campaign host 20 1 created ≡ ok tt bookmarked
unfolding step
save_runs = returned (save_campaign host 20 1) created save_runs_ok

pub created-IsUnique : IsUnique created
unfolding IsUnique step invoke transfer init create_campaign create_campaign_inner check_params
    check_goal check_duration check_texts check_share stored_share hash_text choose_token
    store_campaign index_by_category index_by_creator calculate_deadline checked_add_u32
    checked_add_u64 checked_mul_u64
created-IsUnique user = refl

pub uncensured_before : is_comment_censured 1 77 created ≡ false
unfolding step invoke transfer init create_campaign create_campaign_inner check_params check_goal
    check_duration check_texts check_share stored_share hash_text choose_token store_campaign
    index_by_category index_by_creator calculate_deadline checked_add_u32 checked_add_u64
    checked_mul_u64
uncensured_before = refl

pub censures_before : get_campaign_censured_count 1 created ≡ 0
unfolding step invoke transfer init create_campaign create_campaign_inner check_params check_goal
    check_duration check_texts check_share stored_share hash_text choose_token store_campaign
    index_by_category index_by_creator calculate_deadline checked_add_u32 checked_add_u64
    checked_mul_u64
censures_before = refl

censure_runs_ok : is_ok (censure_comment host 1 1 77 (88 ∷ []) created) ≡ true
unfolding step invoke transfer init create_campaign create_campaign_inner check_params check_goal
    check_duration check_texts check_share stored_share hash_text choose_token store_campaign
    index_by_category index_by_creator calculate_deadline checked_add_u32 checked_add_u64
    checked_mul_u64 censure_comment saturating_add_u32
censure_runs_ok = refl

pub censure_runs : censure_comment host 1 1 77 (88 ∷ []) created ≡ ok tt censured
unfolding step
censure_runs = returned (censure_comment host 1 1 77 (88 ∷ [])) created censure_runs_ok

uncensure_runs_ok : is_ok (uncensure_comment (host_at 2000) 1 1 77 censured) ≡ true
unfolding step invoke transfer init create_campaign create_campaign_inner check_params check_goal
    check_duration check_texts check_share stored_share hash_text choose_token store_campaign
    index_by_category index_by_creator calculate_deadline checked_add_u32 checked_add_u64
    checked_mul_u64 censure_comment uncensure_comment saturating_add_u32
uncensure_runs_ok = refl

pub uncensure_runs : uncensure_comment (host_at 2000) 1 1 77 censured ≡ ok tt uncensured
unfolding step
uncensure_runs = returned (uncensure_comment (host_at 2000) 1 1 77) censured uncensure_runs_ok

pub reserved_reserve : get_campaign_reserve 1 reserved ≡ some (reserve_of reserved)
unfolding step invoke transfer init create_campaign create_campaign_inner check_params check_goal
    check_duration check_texts check_share stored_share hash_text choose_token store_campaign
    index_by_category index_by_creator calculate_deadline checked_add_u32 checked_add_u64
    checked_mul_u64 verify_campaign admin_verify mark_verified transition state_of contribute
    accept_contribution check_open check_limits check_transaction_contribution_cap
    check_contribution_caps check_personal_cap check_burst_guard check_burst_count
    update_contribution_accounting settle_contribution is_new_top checked_add checked_sub
    checked_mul in_i128 ◌+ℤ◌ ◌*ℤ◌ withdraw_funds check_withdrawal split_funds ceil_bps pay_out
    close_campaign hold_reserve fee_recipient ◌-ℤ◌ ◌/ℤ◌ set_vesting_params
reserved_reserve = refl

pub reserved_campaign : get_campaign 1 reserved ≡ some (campaign_in reserved)
unfolding step invoke transfer init create_campaign create_campaign_inner check_params check_goal
    check_duration check_texts check_share stored_share hash_text choose_token store_campaign
    index_by_category index_by_creator calculate_deadline checked_add_u32 checked_add_u64
    checked_mul_u64 verify_campaign admin_verify mark_verified transition state_of contribute
    accept_contribution check_open check_limits check_transaction_contribution_cap
    check_contribution_caps check_personal_cap check_burst_guard check_burst_count
    update_contribution_accounting settle_contribution is_new_top checked_add checked_sub
    checked_mul in_i128 ◌+ℤ◌ ◌*ℤ◌ withdraw_funds check_withdrawal split_funds ceil_bps pay_out
    close_campaign hold_reserve fee_recipient ◌-ℤ◌ ◌/ℤ◌ set_vesting_params
reserved_campaign = refl

release_runs_ok : is_ok (withdraw_reserve (host_at 1_000_000) 1 reserved) ≡ true
unfolding step invoke transfer init create_campaign create_campaign_inner check_params check_goal
    check_duration check_texts check_share stored_share hash_text choose_token store_campaign
    index_by_category index_by_creator calculate_deadline checked_add_u32 checked_add_u64
    checked_mul_u64 verify_campaign admin_verify mark_verified transition state_of contribute
    accept_contribution check_open check_limits check_transaction_contribution_cap
    check_contribution_caps check_personal_cap check_burst_guard check_burst_count
    update_contribution_accounting settle_contribution is_new_top checked_add checked_sub
    checked_mul in_i128 ◌+ℤ◌ ◌*ℤ◌ withdraw_funds check_withdrawal split_funds ceil_bps pay_out
    close_campaign hold_reserve fee_recipient ◌-ℤ◌ ◌/ℤ◌ set_vesting_params withdraw_reserve
release_runs_ok = refl

pub release_runs : withdraw_reserve (host_at 1_000_000) 1 reserved ≡ ok tt released_state
unfolding step
release_runs = returned (withdraw_reserve (host_at 1_000_000) 1) reserved release_runs_ok

contributor_claim_runs_ok : is_ok (claim_revenue host 1 20 revenue_in) ≡ true
unfolding step invoke transfer init create_campaign create_campaign_inner check_params check_goal
    check_duration check_texts check_share stored_share hash_text choose_token store_campaign
    index_by_category index_by_creator calculate_deadline checked_add_u32 checked_add_u64
    checked_mul_u64 verify_campaign admin_verify mark_verified transition state_of contribute
    accept_contribution check_open check_limits check_transaction_contribution_cap
    check_contribution_caps check_personal_cap check_burst_guard check_burst_count
    update_contribution_accounting settle_contribution is_new_top checked_add checked_sub
    checked_mul in_i128 ◌+ℤ◌ ◌*ℤ◌ withdraw_funds check_withdrawal split_funds ceil_bps pay_out
    close_campaign hold_reserve fee_recipient ◌-ℤ◌ ◌/ℤ◌ deposit_revenue claim_creator_revenue
    creator_share checked_div claim_revenue revenue_claimable revenue_due record_claim check_claim
    last_claimant absorb_dust
contributor_claim_runs_ok = refl

pub contributor_claim_runs :
    claim_revenue host 1 20 revenue_in ≡ ok tt (step host (claim_revenue_call 1 20) revenue_in)
unfolding step
contributor_claim_runs = returned (claim_revenue host 1 20) revenue_in contributor_claim_runs_ok

pub reached_campaign : get_campaign 1 reached ≡ some (campaign_in reached)
unfolding step invoke transfer init create_campaign create_campaign_inner check_params check_goal
    check_duration check_texts check_share stored_share hash_text choose_token store_campaign
    index_by_category index_by_creator calculate_deadline checked_add_u32 checked_add_u64
    checked_mul_u64 verify_campaign admin_verify mark_verified transition state_of contribute
    accept_contribution check_open check_limits check_transaction_contribution_cap
    check_contribution_caps check_personal_cap check_burst_guard check_burst_count
    update_contribution_accounting settle_contribution is_new_top checked_add checked_sub
    checked_mul in_i128 ◌+ℤ◌ ◌*ℤ◌ set_milestones validate_milestones normalize verify_milestone
    mark_milestone
reached_campaign = refl

milestone_runs_ok : is_ok (claim_milestone host 1 1 reached) ≡ true
unfolding step invoke transfer init create_campaign create_campaign_inner check_params check_goal
    check_duration check_texts check_share stored_share hash_text choose_token store_campaign
    index_by_category index_by_creator calculate_deadline checked_add_u32 checked_add_u64
    checked_mul_u64 verify_campaign admin_verify mark_verified transition state_of contribute
    accept_contribution check_open check_limits check_transaction_contribution_cap
    check_contribution_caps check_personal_cap check_burst_guard check_burst_count
    update_contribution_accounting settle_contribution is_new_top checked_add checked_sub
    checked_mul in_i128 ◌+ℤ◌ ◌*ℤ◌ set_milestones validate_milestones normalize verify_milestone
    mark_milestone claim_milestone check_milestone_claim claimable_milestone find_milestone
    milestone_payout ceil_bps claimed_so_far add_claimed slice_bps others_claimed last_payout
    close_campaign checked_sub_u32 ◌-ℤ◌ ◌/ℤ◌
milestone_runs_ok = refl

pub milestone_runs :
    claim_milestone host 1 1 reached ≡ ok tt (step host (claim_milestone_call 1 1) reached)
unfolding step
milestone_runs = returned (claim_milestone host 1 1) reached milestone_runs_ok
