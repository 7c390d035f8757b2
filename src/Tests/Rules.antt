-- ===== src/Tests/Rules.antt =====
-- Runs of votes, terms, plans and hand-overs.
use proof_of_heart_stellar.Prelude.{unwrap_or, ◌≡◌, refl, sym, ap, true, some, [], ◌∷◌}
use proof_of_heart_stellar.Prelude.Int.{
  pos, ◌+ℤ◌, ◌-ℤ◌, ◌*ℤ◌, in_i128, checked_add, checked_sub, checked_mul,
}
use proof_of_heart_stellar.Prelude.Words.{
  checked_add_u32, checked_add_u64, checked_sub_u64, checked_mul_u64,
}
use proof_of_heart_stellar.Types.Limits.{token_update_delay_secs}
use proof_of_heart_stellar.Store.{get_token_update_delay_secs, get_campaign}
use proof_of_heart_stellar.Action.{ok, transfer, invoke}
use proof_of_heart_stellar.Lifecycle.{state_of, transition, calculate_deadline}
use proof_of_heart_stellar.Admin.{
  init, initiate_admin_transfer, accept_admin_transfer, propose_token_update, accept_token_update,
}
use proof_of_heart_stellar.Calls.{
  contribute_call, set_milestones_call, extend_campaign_deadline_call, accept_token_update_call,
  accept_admin_transfer_call, step,
}
use proof_of_heart_stellar.Campaigns.Cancel.{mark_cancelled, cancel_campaign}
use proof_of_heart_stellar.Campaigns.Create.{
  hash_text, stored_share, check_goal, check_duration, check_texts, check_share, choose_token,
  index_by_category, index_by_creator, check_params, store_campaign, create_campaign_inner,
  create_campaign,
}
use proof_of_heart_stellar.Campaigns.Update.{check_extension, extend_campaign_deadline}
use proof_of_heart_stellar.Contributions.{
  check_contribution_caps, check_transaction_contribution_cap, check_personal_cap,
  check_burst_count, check_burst_guard, update_contribution_accounting, check_open, check_limits,
  accept_contribution, is_new_top, settle_contribution, contribute,
}
use proof_of_heart_stellar.Funding.Books.{is_ok}
use proof_of_heart_stellar.Funding.Sums.{sum_of}
use proof_of_heart_stellar.Funding.Totals.{contributed, IsBalanced}
use proof_of_heart_stellar.Milestones.{validate_milestones, normalize, set_milestones}
use proof_of_heart_stellar.Safety.Authority.{signer}
use proof_of_heart_stellar.Safety.PausedCalls.{needs_unpaused}
use proof_of_heart_stellar.Tests.Runs.{returned}
use proof_of_heart_stellar.Tests.Scenario.{
  host_at, host, started, created, verified_state, cancelled_state, campaign_in, voted,
  thrice_voted, plan, proposed, named,
}
use proof_of_heart_stellar.Voting.{
  effective_approval_threshold_bps, count_vote, cast_vote, mark_verified, admin_verify,
  approval_bps, verify_with_votes, vote_on_campaign, verify_campaign, verify_campaign_with_votes,
}

vote_runs_ok : is_ok (vote_on_campaign host 1 20 true created) ≡ true
unfolding step invoke transfer init create_campaign create_campaign_inner check_params check_goal
    check_duration check_texts check_share stored_share hash_text choose_token store_campaign
    index_by_category index_by_creator calculate_deadline checked_add_u32 checked_add_u64
    checked_mul_u64 vote_on_campaign cast_vote count_vote checked_add in_i128 ◌+ℤ◌
vote_runs_ok = refl

pub vote_runs : vote_on_campaign host 1 20 true created ≡ ok tt voted
unfolding step
vote_runs = returned (vote_on_campaign host 1 20 true) created vote_runs_ok

pub thrice_voted_campaign : get_campaign 1 thrice_voted ≡ some (campaign_in thrice_voted)
unfolding step invoke transfer init create_campaign create_campaign_inner check_params check_goal
    check_duration check_texts check_share stored_share hash_text choose_token store_campaign
    index_by_category index_by_creator calculate_deadline checked_add_u32 checked_add_u64
    checked_mul_u64 vote_on_campaign cast_vote count_vote checked_add in_i128 ◌+ℤ◌
thrice_voted_campaign = refl

verify_runs_ok : is_ok (verify_with_votes 1 thrice_voted) ≡ true
unfolding step invoke transfer init create_campaign create_campaign_inner check_params check_goal
    check_duration check_texts check_share stored_share hash_text choose_token store_campaign
    index_by_category index_by_creator calculate_deadline checked_add_u32 checked_add_u64
    checked_mul_u64 vote_on_campaign cast_vote count_vote checked_add in_i128 ◌+ℤ◌
    verify_campaign_with_votes verify_with_votes approval_bps effective_approval_threshold_bps
    mark_verified transition state_of
verify_runs_ok = refl

pub verify_runs :
    verify_with_votes 1 thrice_voted ≡ ok tt (invoke (verify_with_votes 1) thrice_voted)
unfolding step
verify_runs = returned (verify_with_votes 1) thrice_voted verify_runs_ok

extend_runs_ok : is_ok (extend_campaign_deadline host 1 5 created) ≡ true
unfolding step invoke transfer init create_campaign create_campaign_inner check_params check_goal
    check_duration check_texts check_share stored_share hash_text choose_token store_campaign
    index_by_category index_by_creator calculate_deadline checked_add_u32 checked_add_u64
    checked_mul_u64 extend_campaign_deadline check_extension checked_sub_u64
extend_runs_ok = refl

pub extend_runs :
    extend_campaign_deadline host 1 5 created
    ≡ ok tt (step host (extend_campaign_deadline_call 1 5) created)
unfolding step
extend_runs = returned (extend_campaign_deadline host 1 5) created extend_runs_ok

plan_runs_ok : is_ok (set_milestones host 1 plan created) ≡ true
unfolding step invoke transfer init create_campaign create_campaign_inner check_params check_goal
    check_duration check_texts check_share stored_share hash_text choose_token store_campaign
    index_by_category index_by_creator calculate_deadline checked_add_u32 checked_add_u64
    checked_mul_u64 set_milestones validate_milestones normalize
plan_runs_ok = refl

pub plan_runs :
    set_milestones host 1 plan created ≡ ok tt (step host (set_milestones_call 1 plan) created)
unfolding step
plan_runs = returned (set_milestones host 1 plan) created plan_runs_ok

propose_runs_ok : is_ok (propose_token_update host 1 3 started) ≡ true
unfolding step invoke transfer init create_campaign create_campaign_inner check_params check_goal
    check_duration check_texts check_share stored_share hash_text choose_token store_campaign
    index_by_category index_by_creator calculate_deadline checked_add_u32 checked_add_u64
    checked_mul_u64 propose_token_update
propose_runs_ok = refl

pub propose_runs : propose_token_update host 1 3 started ≡ ok tt proposed
unfolding step
propose_runs = returned (propose_token_update host 1 3) started propose_runs_ok

token_runs_ok : is_ok (accept_token_update (host_at 700_000) 1 proposed) ≡ true
unfolding step invoke transfer init create_campaign create_campaign_inner check_params check_goal
    check_duration check_texts check_share stored_share hash_text choose_token store_campaign
    index_by_category index_by_creator calculate_deadline checked_add_u32 checked_add_u64
    checked_mul_u64 propose_token_update accept_token_update
token_runs_ok = refl

pub token_runs :
    accept_token_update (host_at 700_000) 1 proposed
    ≡ ok tt (step (host_at 700_000) (accept_token_update_call 1) proposed)
unfolding step
token_runs = returned (accept_token_update (host_at 700_000) 1) proposed token_runs_ok

pub delay : get_token_update_delay_secs token_update_delay_secs started ≡ 604_800
unfolding step invoke transfer init create_campaign create_campaign_inner check_params check_goal
    check_duration check_texts check_share stored_share hash_text choose_token store_campaign
    index_by_category index_by_creator calculate_deadline checked_add_u32 checked_add_u64
    checked_mul_u64
delay = refl

handover_runs_ok : is_ok (initiate_admin_transfer host 1 5 started) ≡ true
unfolding step invoke transfer init create_campaign create_campaign_inner check_params check_goal
    check_duration check_texts check_share stored_share hash_text choose_token store_campaign
    index_by_category index_by_creator calculate_deadline checked_add_u32 checked_add_u64
    checked_mul_u64 initiate_admin_transfer
handover_runs_ok = refl

pub handover_runs : initiate_admin_transfer host 1 5 started ≡ ok tt named
unfolding step
handover_runs = returned (initiate_admin_transfer host 1 5) started handover_runs_ok

takeover_runs_ok : is_ok (accept_admin_transfer host named) ≡ true
unfolding step invoke transfer init create_campaign create_campaign_inner check_params check_goal
    check_duration check_texts check_share stored_share hash_text choose_token store_campaign
    index_by_category index_by_creator calculate_deadline checked_add_u32 checked_add_u64
    checked_mul_u64 initiate_admin_transfer accept_admin_transfer
takeover_runs_ok = refl

pub takeover_runs :
    accept_admin_transfer host named ≡ ok tt (step host accept_admin_transfer_call named)
unfolding step
takeover_runs = returned (accept_admin_transfer host) named takeover_runs_ok

pub funded_needed : signer (contribute_call 1 20 (pos 7)) verified_state ≡ some 20
unfolding signer
funded_needed = refl

pub contribute_needs : needs_unpaused (contribute_call 1 20 (pos 7)) ≡ true
unfolding needs_unpaused
contribute_needs = refl

pub verified-IsBalanced : IsBalanced (20 ∷ 21 ∷ []) 1 verified_state
unfolding IsBalanced contributed sum_of step invoke transfer init create_campaign
    create_campaign_inner check_params check_goal check_duration check_texts check_share
    stored_share hash_text choose_token store_campaign index_by_category index_by_creator
    calculate_deadline checked_add_u32 checked_add_u64 checked_mul_u64 verify_campaign admin_verify
    mark_verified transition state_of ◌+ℤ◌
verified-IsBalanced c e =
    ap (λ r. (unwrap_or (campaign_in verified_state) r).effective_amount_raised) (sym e)

pub cancelled-IsBalanced : IsBalanced (20 ∷ 21 ∷ []) 1 cancelled_state
unfolding IsBalanced contributed sum_of step invoke transfer init create_campaign
    create_campaign_inner check_params check_goal check_duration check_texts check_share
    stored_share hash_text choose_token store_campaign index_by_category index_by_creator
    calculate_deadline checked_add_u32 checked_add_u64 checked_mul_u64 verify_campaign admin_verify
    mark_verified transition state_of contribute accept_contribution check_open check_limits
    check_transaction_contribution_cap check_contribution_caps check_personal_cap check_burst_guard
    check_burst_count update_contribution_accounting settle_contribution is_new_top checked_add
    checked_sub checked_mul in_i128 ◌+ℤ◌ ◌*ℤ◌ cancel_campaign mark_cancelled ◌-ℤ◌
cancelled-IsBalanced c e =
    ap (λ r. (unwrap_or (campaign_in cancelled_state) r).effective_amount_raised) (sym e)
