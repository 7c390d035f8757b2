-- ===== src/Tests/Listed.antt =====
-- The states of the scenario as listed states, and what the queries read in them.
use proof_of_heart_stellar.Prelude.{
  length, slice, slice-nil, ℕ, zero, suc, ◌+◌, ◌*◌, ◌≡◌, refl, sym, ap, ◌∙◌, true, some, [], ◌∷◌,
  arith,
}
use proof_of_heart_stellar.Prelude.Int.{
  pos, ◌+ℤ◌, ◌-ℤ◌, ◌*ℤ◌, ◌/ℤ◌, in_i128, checked_add, checked_sub, checked_mul, checked_div,
}
use proof_of_heart_stellar.Prelude.Words.{checked_add_u32, checked_add_u64, checked_mul_u64}
use proof_of_heart_stellar.Types.{Category}
use proof_of_heart_stellar.Store.{
  get_category_campaign_count, get_creator_campaign_count, get_creator_campaign_bucket,
  empty_storage, get_revenue_claimed, get_contributor_revenue_distributed, get_campaign_count,
}
use proof_of_heart_stellar.Action.{ok, transfer, invoke}
use proof_of_heart_stellar.Lifecycle.{state_of, transition, calculate_deadline}
use proof_of_heart_stellar.Admin.{init}
use proof_of_heart_stellar.Calls.{
  create_campaign_call, contribute_call, cancel_campaign_call, verify_campaign_call, step, history,
}
use proof_of_heart_stellar.Campaigns.Create.{
  hash_text, stored_share, check_goal, check_duration, check_texts, check_share, choose_token,
  index_by_category, index_by_creator, check_params, store_campaign, create_campaign_inner,
  create_campaign,
}
use proof_of_heart_stellar.Campaigns.Withdraw.{
  ceil_bps, check_withdrawal, split_funds, hold_reserve, close_campaign, fee_recipient, pay_out,
  withdraw_funds,
}
use proof_of_heart_stellar.Contributions.{
  check_contribution_caps, check_transaction_contribution_cap, check_personal_cap,
  check_burst_count, check_burst_guard, update_contribution_accounting, check_open, check_limits,
  accept_contribution, is_new_top, settle_contribution, contribute,
}
use proof_of_heart_stellar.Funding.Books.{is_ok}
use proof_of_heart_stellar.Funding.Distribution.{IsShared}
use proof_of_heart_stellar.Funding.Sums.{sum_of}
use proof_of_heart_stellar.Listing.Portfolios.{Lists, first}
use proof_of_heart_stellar.Queries.{scan_active, list_active_campaigns}
use proof_of_heart_stellar.Queries.Portfolio.{holding, holdings_from, get_contributor_portfolio}
use proof_of_heart_stellar.Registry.History.{IsListed, init-IsListed, history-IsListed}
use proof_of_heart_stellar.Revenue.{deposit_revenue, creator_share, claim_creator_revenue}
use proof_of_heart_stellar.Tests.Runs.{returned}
use proof_of_heart_stellar.Tests.Scenario.{
  host, params, started, created, funded, revenue_in, cancelled_state, campaign_in, second_params,
  two_campaigns, short_bucket, funded_holding,
}
use proof_of_heart_stellar.Voting.{mark_verified, admin_verify, verify_campaign}

init_runs_ok : is_ok (init host 1 2 300 empty_storage) ≡ true
unfolding step invoke transfer init create_campaign create_campaign_inner check_params check_goal
    check_duration check_texts check_share stored_share hash_text choose_token store_campaign
    index_by_category index_by_creator calculate_deadline checked_add_u32 checked_add_u64
    checked_mul_u64
init_runs_ok = refl

pub init_runs : init host 1 2 300 empty_storage ≡ ok tt started
unfolding step
init_runs = returned (init host 1 2 300) empty_storage init_runs_ok

pub started-IsListed : IsListed started
started-IsListed = init-IsListed host 1 2 300 started init_runs

pub two-IsListed : IsListed two_campaigns
unfolding history
two-IsListed =
    history-IsListed
      ((host, create_campaign_call params) ∷ (host, create_campaign_call second_params) ∷ [])
      started started-IsListed

pub funded-IsListed : IsListed funded
unfolding history
funded-IsListed =
    history-IsListed
      ((host, create_campaign_call params)
        ∷ (host, verify_campaign_call 1)
        ∷ (host, contribute_call 1 20 (pos 60_001))
        ∷ [])
      started started-IsListed

pub cancelled-IsListed : IsListed cancelled_state
unfolding history
cancelled-IsListed = history-IsListed ((host, cancel_campaign_call 1) ∷ []) funded funded-IsListed

pub two_count : get_campaign_count two_campaigns ≡ 2
unfolding step invoke transfer init create_campaign create_campaign_inner check_params check_goal
    check_duration check_texts check_share stored_share hash_text choose_token store_campaign
    index_by_category index_by_creator calculate_deadline checked_add_u32 checked_add_u64
    checked_mul_u64
two_count = refl

pub two_of_category : get_category_campaign_count Category.educational_startup two_campaigns ≡ 2
unfolding step invoke transfer init create_campaign create_campaign_inner check_params check_goal
    check_duration check_texts check_share stored_share hash_text choose_token store_campaign
    index_by_category index_by_creator calculate_deadline checked_add_u32 checked_add_u64
    checked_mul_u64
two_of_category = refl

pub first_active :
    list_active_campaigns 0 1 two_campaigns ≡ some (campaign_in two_campaigns ∷ [], 2)
unfolding step invoke transfer init create_campaign create_campaign_inner check_params check_goal
    check_duration check_texts check_share stored_share hash_text choose_token store_campaign
    index_by_category index_by_creator calculate_deadline checked_add_u32 checked_add_u64
    checked_mul_u64 list_active_campaigns scan_active
first_active = refl

pub short_entry : length (get_creator_campaign_bucket 10 0 short_bucket) ≡ 1
unfolding step invoke transfer init create_campaign create_campaign_inner check_params check_goal
    check_duration check_texts check_share stored_share hash_text choose_token store_campaign
    index_by_category index_by_creator calculate_deadline checked_add_u32 checked_add_u64
    checked_mul_u64
short_entry = refl

pub short_count : get_creator_campaign_count 10 short_bucket ≡ 2
unfolding step invoke transfer init create_campaign create_campaign_inner check_params check_goal
    check_duration check_texts check_share stored_share hash_text choose_token store_campaign
    index_by_category index_by_creator calculate_deadline checked_add_u32 checked_add_u64
    checked_mul_u64
short_count = refl

pub created_count : get_creator_campaign_count 10 created ≡ 1
unfolding step invoke transfer init create_campaign create_campaign_inner check_params check_goal
    check_duration check_texts check_share stored_share hash_text choose_token store_campaign
    index_by_category index_by_creator calculate_deadline checked_add_u32 checked_add_u64
    checked_mul_u64
created_count = refl

pub revenue_undistributed : get_contributor_revenue_distributed 1 revenue_in ≡ pos 0
unfolding step invoke transfer init create_campaign create_campaign_inner check_params check_goal
    check_duration check_texts check_share stored_share hash_text choose_token store_campaign
    index_by_category index_by_creator calculate_deadline checked_add_u32 checked_add_u64
    checked_mul_u64 verify_campaign admin_verify mark_verified transition state_of contribute
    accept_contribution check_open check_limits check_transaction_contribution_cap
    check_contribution_caps check_personal_cap check_burst_guard check_burst_count
    update_contribution_accounting settle_contribution is_new_top checked_add checked_sub
    checked_mul in_i128 ◌+ℤ◌ ◌*ℤ◌ withdraw_funds check_withdrawal split_funds ceil_bps pay_out
    close_campaign hold_reserve fee_recipient ◌-ℤ◌ ◌/ℤ◌ deposit_revenue claim_creator_revenue
    creator_share checked_div
revenue_undistributed = refl

pub revenue_unclaimed : get_revenue_claimed 1 20 revenue_in ≡ pos 0
unfolding step invoke transfer init create_campaign create_campaign_inner check_params check_goal
    check_duration check_texts check_share stored_share hash_text choose_token store_campaign
    index_by_category index_by_creator calculate_deadline checked_add_u32 checked_add_u64
    checked_mul_u64 verify_campaign admin_verify mark_verified transition state_of contribute
    accept_contribution check_open check_limits check_transaction_contribution_cap
    check_contribution_caps check_personal_cap check_burst_guard check_burst_count
    update_contribution_accounting settle_contribution is_new_top checked_add checked_sub
    checked_mul in_i128 ◌+ℤ◌ ◌*ℤ◌ withdraw_funds check_withdrawal split_funds ceil_bps pay_out
    close_campaign hold_reserve fee_recipient ◌-ℤ◌ ◌/ℤ◌ deposit_revenue claim_creator_revenue
    creator_share checked_div
revenue_unclaimed = refl

pub revenue_unclaimed' : get_revenue_claimed 1 21 revenue_in ≡ pos 0
unfolding step invoke transfer init create_campaign create_campaign_inner check_params check_goal
    check_duration check_texts check_share stored_share hash_text choose_token store_campaign
    index_by_category index_by_creator calculate_deadline checked_add_u32 checked_add_u64
    checked_mul_u64 verify_campaign admin_verify mark_verified transition state_of contribute
    accept_contribution check_open check_limits check_transaction_contribution_cap
    check_contribution_caps check_personal_cap check_burst_guard check_burst_count
    update_contribution_accounting settle_contribution is_new_top checked_add checked_sub
    checked_mul in_i128 ◌+ℤ◌ ◌*ℤ◌ withdraw_funds check_withdrawal split_funds ceil_bps pay_out
    close_campaign hold_reserve fee_recipient ◌-ℤ◌ ◌/ℤ◌ deposit_revenue claim_creator_revenue
    creator_share checked_div
revenue_unclaimed' = refl

created_bucket : get_creator_campaign_bucket 10 0 created ≡ 1 ∷ []
unfolding step invoke transfer init create_campaign create_campaign_inner check_params check_goal
    check_duration check_texts check_share stored_share hash_text choose_token store_campaign
    index_by_category index_by_creator calculate_deadline checked_add_u32 checked_add_u64
    checked_mul_u64
created_bucket = refl

created_no_bucket : (b : ℕ) → get_creator_campaign_bucket 10 (suc b) created ≡ []
unfolding step invoke transfer init create_campaign create_campaign_inner check_params check_goal
    check_duration check_texts check_share stored_share hash_text choose_token store_campaign
    index_by_category index_by_creator calculate_deadline checked_add_u32 checked_add_u64
    checked_mul_u64
created_no_bucket b = grind arith

pub created_buckets :
    (b : ℕ) → get_creator_campaign_bucket 10 b created ≡ slice (b * 500) 500 (1 ∷ [])
created_buckets zero = created_bucket
created_buckets (suc b) =
    let e : suc (b * 500 + 499) ≡ suc b * 500 = omega arith in
    created_no_bucket b ∙ sym (slice-nil (b * 500 + 499) 500) ∙ ap (λ n. slice n 500 (1 ∷ [])) e

pub funded_listed : Lists (get_contributor_portfolio host 20 funded) funded_holding
unfolding step invoke transfer init create_campaign create_campaign_inner check_params check_goal
    check_duration check_texts check_share stored_share hash_text choose_token store_campaign
    index_by_category index_by_creator calculate_deadline checked_add_u32 checked_add_u64
    checked_mul_u64 verify_campaign admin_verify mark_verified transition state_of contribute
    accept_contribution check_open check_limits check_transaction_contribution_cap
    check_contribution_caps check_personal_cap check_burst_guard check_burst_count
    update_contribution_accounting settle_contribution is_new_top checked_add checked_sub
    checked_mul in_i128 ◌+ℤ◌ ◌*ℤ◌ get_contributor_portfolio holdings_from holding
funded_listed = first

pub revenue-IsShared : IsShared (20 ∷ 21 ∷ []) 1 revenue_in
unfolding IsShared sum_of ◌+ℤ◌
revenue-IsShared = ground (arith, revenue_undistributed, revenue_unclaimed, revenue_unclaimed')
