-- ===== src/Tests/Runs.antt =====
-- What the runs of the scenario do.
use proof_of_heart_stellar.Prelude.{◌≡◌, refl, true, [], ◌∷◌}
use proof_of_heart_stellar.Prelude.Int.{
  pos, ◌+ℤ◌, ◌-ℤ◌, ◌*ℤ◌, ◌/ℤ◌, in_i128, checked_add, checked_sub, checked_mul, checked_div,
}
use proof_of_heart_stellar.Prelude.Words.{checked_add_u32, checked_add_u64, checked_mul_u64}
use proof_of_heart_stellar.Store.{State}
use proof_of_heart_stellar.Action.{Outcome, ok, err, trap, Action, Done, transfer, invoke}
use proof_of_heart_stellar.Lifecycle.{state_of, transition, calculate_deadline}
use proof_of_heart_stellar.Admin.{init}
use proof_of_heart_stellar.Calls.{
  claim_refund_call, batch_contribute_call, claim_creator_revenue_call, step,
}
use proof_of_heart_stellar.Campaigns.Cancel.{mark_cancelled, cancel_campaign}
use proof_of_heart_stellar.Campaigns.Create.{
  hash_text, stored_share, check_goal, check_duration, check_texts, check_share, choose_token,
  index_by_category, index_by_creator, check_params, store_campaign, create_campaign_inner,
  create_campaign,
}
use proof_of_heart_stellar.Campaigns.Withdraw.{
  ceil_bps, check_withdrawal, split_funds, hold_reserve, close_campaign, fee_recipient, pay_out,
  withdraw_funds,
}
use proof_of_heart_stellar.Contributions.{
  check_contribution_caps, check_transaction_contribution_cap, check_personal_cap,
  check_burst_count, check_burst_guard, update_contribution_accounting, check_open, check_limits,
  accept_contribution, is_new_top, settle_contribution, contribute, claim_refund,
}
use proof_of_heart_stellar.Contributions.Batch.{
  owed_get, owed_set, batch_items, pay_owed, batch_contribute,
}
use proof_of_heart_stellar.Funding.Books.{is_ok}
use proof_of_heart_stellar.Funding.Payouts.{split_of}
use proof_of_heart_stellar.Revenue.{deposit_revenue, creator_share, claim_creator_revenue}
use proof_of_heart_stellar.Tests.Scenario.{
  host, params, started, created, verified_state, funded, complete, paid_out, revenue_in,
  cancelled_state,
}
use proof_of_heart_stellar.Voting.{mark_verified, admin_verify, verify_campaign}

-- A call that returned left the state that it wrote.
pub returned : (m : Action Done) (s : State) → is_ok (m s) ≡ true → m s ≡ ok tt (invoke m s)
unfolding invoke
returned m s h = go (m s) h
  where
    go :
        (r : Outcome Done)
        → is_ok r ≡ true
        → r ≡ ok tt (elim r [ ok a t ↦ t | err e t ↦ s | trap ↦ s ])
    go (ok tt t) h = refl
    go (err e t) h = cc
    go trap h = cc

pub create_runs : create_campaign host params started ≡ ok 1 created
unfolding step invoke transfer init create_campaign create_campaign_inner check_params check_goal
    check_duration check_texts check_share stored_share hash_text choose_token store_campaign
    index_by_category index_by_creator calculate_deadline checked_add_u32 checked_add_u64
    checked_mul_u64
create_runs = refl

contribute_runs_ok : is_ok (contribute host 1 20 (pos 60_001) verified_state) ≡ true
unfolding step invoke transfer init create_campaign create_campaign_inner check_params check_goal
    check_duration check_texts check_share stored_share hash_text choose_token store_campaign
    index_by_category index_by_creator calculate_deadline checked_add_u32 checked_add_u64
    checked_mul_u64 verify_campaign admin_verify mark_verified transition state_of contribute
    accept_contribution check_open check_limits check_transaction_contribution_cap
    check_contribution_caps check_personal_cap check_burst_guard check_burst_count
    update_contribution_accounting settle_contribution is_new_top checked_add checked_sub
    checked_mul in_i128 ◌+ℤ◌ ◌*ℤ◌
contribute_runs_ok = refl

pub contribute_runs : contribute host 1 20 (pos 60_001) verified_state ≡ ok tt funded
unfolding step
contribute_runs = returned (contribute host 1 20 (pos 60_001)) verified_state contribute_runs_ok

batch_runs_ok :
    is_ok (batch_contribute host 20 ((1, pos 60_001) ∷ (1, pos 9) ∷ []) verified_state) ≡ true
unfolding step invoke transfer init create_campaign create_campaign_inner check_params check_goal
    check_duration check_texts check_share stored_share hash_text choose_token store_campaign
    index_by_category index_by_creator calculate_deadline checked_add_u32 checked_add_u64
    checked_mul_u64 verify_campaign admin_verify mark_verified transition state_of contribute
    accept_contribution check_open check_limits check_transaction_contribution_cap
    check_contribution_caps check_personal_cap check_burst_guard check_burst_count
    update_contribution_accounting settle_contribution is_new_top checked_add checked_sub
    checked_mul in_i128 ◌+ℤ◌ ◌*ℤ◌ batch_contribute batch_items owed_get owed_set pay_owed
batch_runs_ok = refl

pub batch_runs :
    batch_contribute host 20 ((1, pos 60_001) ∷ (1, pos 9) ∷ []) verified_state
    ≡ ok tt
        (step host (batch_contribute_call 20 ((1, pos 60_001) ∷ (1, pos 9) ∷ [])) verified_state)
unfolding step
batch_runs =
    returned (batch_contribute host 20 ((1, pos 60_001) ∷ (1, pos 9) ∷ [])) verified_state
      batch_runs_ok

refund_runs_ok : is_ok (claim_refund host 1 20 cancelled_state) ≡ true
unfolding step invoke transfer init create_campaign create_campaign_inner check_params check_goal
    check_duration check_texts check_share stored_share hash_text choose_token store_campaign
    index_by_category index_by_creator calculate_deadline checked_add_u32 checked_add_u64
    checked_mul_u64 verify_campaign admin_verify mark_verified transition state_of contribute
    accept_contribution check_open check_limits check_transaction_contribution_cap
    check_contribution_caps check_personal_cap check_burst_guard check_burst_count
    update_contribution_accounting settle_contribution is_new_top checked_add checked_sub
    checked_mul in_i128 ◌+ℤ◌ ◌*ℤ◌ cancel_campaign mark_cancelled ◌-ℤ◌ claim_refund
refund_runs_ok = refl

pub refund_runs :
    claim_refund host 1 20 cancelled_state
    ≡ ok tt (step host (claim_refund_call 1 20) cancelled_state)
unfolding step
refund_runs = returned (claim_refund host 1 20) cancelled_state refund_runs_ok

withdraw_runs_ok : is_ok (withdraw_funds host 1 complete) ≡ true
unfolding step invoke transfer init create_campaign create_campaign_inner check_params check_goal
    check_duration check_texts check_share stored_share hash_text choose_token store_campaign
    index_by_category index_by_creator calculate_deadline checked_add_u32 checked_add_u64
    checked_mul_u64 verify_campaign admin_verify mark_verified transition state_of contribute
    accept_contribution check_open check_limits check_transaction_contribution_cap
    check_contribution_caps check_personal_cap check_burst_guard check_burst_count
    update_contribution_accounting settle_contribution is_new_top checked_add checked_sub
    checked_mul in_i128 ◌+ℤ◌ ◌*ℤ◌ withdraw_funds check_withdrawal split_funds ceil_bps pay_out
    close_campaign hold_reserve fee_recipient ◌-ℤ◌ ◌/ℤ◌
withdraw_runs_ok = refl

pub withdraw_runs : withdraw_funds host 1 complete ≡ ok tt paid_out
unfolding step
withdraw_runs = returned (withdraw_funds host 1) complete withdraw_runs_ok

creator_claim_runs_ok : is_ok (claim_creator_revenue host 1 revenue_in) ≡ true
unfolding step invoke transfer init create_campaign create_campaign_inner check_params check_goal
    check_duration check_texts check_share stored_share hash_text choose_token store_campaign
    index_by_category index_by_creator calculate_deadline checked_add_u32 checked_add_u64
    checked_mul_u64 verify_campaign admin_verify mark_verified transition state_of contribute
    accept_contribution check_open check_limits check_transaction_contribution_cap
    check_contribution_caps check_personal_cap check_burst_guard check_burst_count
    update_contribution_accounting settle_contribution is_new_top checked_add checked_sub
    checked_mul in_i128 ◌+ℤ◌ ◌*ℤ◌ withdraw_funds check_withdrawal split_funds ceil_bps pay_out
    close_campaign hold_reserve fee_recipient ◌-ℤ◌ ◌/ℤ◌ deposit_revenue claim_creator_revenue
    creator_share checked_div
creator_claim_runs_ok = refl

pub creator_claim_runs :
    claim_creator_revenue host 1 revenue_in
    ≡ ok tt (step host (claim_creator_revenue_call 1) revenue_in)
unfolding step
creator_claim_runs = returned (claim_creator_revenue host 1) revenue_in creator_claim_runs_ok

pub split_runs : split_funds (pos 100_001) 300 1000 started ≡ ok (split_of 100_001 300 1000) started
unfolding step invoke transfer init create_campaign create_campaign_inner check_params check_goal
    check_duration check_texts check_share stored_share hash_text choose_token store_campaign
    index_by_category index_by_creator calculate_deadline checked_add_u32 checked_add_u64
    checked_mul_u64 split_funds ceil_bps checked_add checked_sub checked_mul in_i128 ◌+ℤ◌ ◌*ℤ◌ ◌-ℤ◌
    ◌/ℤ◌
split_runs = refl
