-- ===== src/Tests/Witnesses.antt =====
-- The theorems at the states of the scenario.
use proof_of_heart_stellar.Prelude.{
  ltb, ◌==◌, if◌then◌else◌, min, is_some, length, get_elem?, slice, ℕ, ◌+◌, ◌-◌, ◌*◌, ◌≤◌, ◌<◌, ◌≡◌,
  refl, ◌⊎◌, true, false, none, some, [], ◌∷◌, arith,
}
use proof_of_heart_stellar.Prelude.Int.{pos, pos_part, ◌+ℤ◌, ◌≤ℤ◌}
use proof_of_heart_stellar.Types.{Category}
use proof_of_heart_stellar.Types.Limits.{bps_denominator, list_max_limit}
use proof_of_heart_stellar.Store.{
  stored_admin, get_pending_admin, get_auto_paused, get_creator_campaign_bucket,
  is_comment_censured, get_campaign_censured_count, get_saved_campaigns, set_saved_campaigns,
  empty_storage, get_contribution, get_campaign_count, get_campaign,
}
use proof_of_heart_stellar.Action.{ok, invoke}
use proof_of_heart_stellar.Bookmarks.{remove_saved_campaign}
use proof_of_heart_stellar.Calls.{
  init_call, create_campaign_call, contribute_call, claim_refund_call, batch_contribute_call,
  set_milestones_call, claim_milestone_call, cancel_campaign_call, extend_campaign_deadline_call,
  claim_revenue_call, claim_creator_revenue_call, vote_on_campaign_call, verify_campaign_call,
  accept_token_update_call, accept_admin_transfer_call, step, history,
}
use proof_of_heart_stellar.Campaigns.Withdraw.{vesting_of, withdraw_reserve}
use proof_of_heart_stellar.Contributions.{claim_refund}
use proof_of_heart_stellar.Funding.Batches.{batch_contribute-IsBalanced}
use proof_of_heart_stellar.Funding.Books.{
  PaidIn, contribute-PaidIn, PaidBack, claim_refund-PaidBack, claim_refund_once, is_ok,
  refund_available,
}
use proof_of_heart_stellar.Funding.Distribution.{IsShared, claim_revenue-IsShared}
use proof_of_heart_stellar.Funding.Guard.{contribute_never_auto_pauses}
use proof_of_heart_stellar.Funding.Milestones.{Claims, claim_milestone_settles}
use proof_of_heart_stellar.Funding.Payouts.{
  split_of, fee_of, PaidOut, withdraw_funds-PaidOut, split_funds_exact,
}
use proof_of_heart_stellar.Funding.Reserve.{Released, withdraw_reserve_settles}
use proof_of_heart_stellar.Funding.Shares.{CreatorPaid, claim_creator_revenue-CreatorPaid}
use proof_of_heart_stellar.Funding.Totals.{
  IsBalanced, contribute-IsBalanced, claim_refund-IsBalanced,
}
use proof_of_heart_stellar.Governance.Handover.{
  Replaced, accept_token_update-Replaced, token_update_waits, admin_handover,
}
use proof_of_heart_stellar.Governance.Plans.{Planned, set_milestones-Planned}
use proof_of_heart_stellar.Governance.Terms.{
  Extended, extend_campaign_deadline-Extended, extend_campaign_deadline_once,
}
use proof_of_heart_stellar.Governance.Votes.{Approved, verify_with_votes-Approved, vote_once}
use proof_of_heart_stellar.Invariant.{IsSound}
use proof_of_heart_stellar.Invariant.History.{reached-IsSound}
use proof_of_heart_stellar.Listing.Actives.{open_campaigns, list_active_campaigns-Scanned}
use proof_of_heart_stellar.Listing.Answers.{list_active_campaigns_answers}
use proof_of_heart_stellar.Listing.Buckets.{lookup_all}
use proof_of_heart_stellar.Listing.Categories.{get_campaigns_by_category-Paged}
use proof_of_heart_stellar.Listing.Pages.{page_through, list_campaigns-Paged, page_through_all}
use proof_of_heart_stellar.Listing.Portfolios.{Lists, refund-Listed, not_refundable-Refused}
use proof_of_heart_stellar.Listing.Stuck.{get_creator_campaigns_held}
use proof_of_heart_stellar.Listing.Totals.{get_creator_stats-Counted}
use proof_of_heart_stellar.Milestones.{claim_milestone}
use proof_of_heart_stellar.Queries.{
  list_campaigns, list_active_campaigns, page, unfinished, get_campaigns_by_category,
  get_creator_campaigns,
}
use proof_of_heart_stellar.Queries.Portfolio.{status_of, get_contributor_portfolio}
use proof_of_heart_stellar.Queries.Stats.{count_entries, zero_stats, get_creator_stats}
use proof_of_heart_stellar.Registry.Categories.{all_members}
use proof_of_heart_stellar.Registry.Fates.{Survives}
use proof_of_heart_stellar.Registry.History.{IsListed, history-IsListed, history-Survives}
use proof_of_heart_stellar.Roundtrips.Bookmarks.{save_then_remove}
use proof_of_heart_stellar.Roundtrips.Comments.{censure_then_uncensure}
use proof_of_heart_stellar.Roundtrips.Uniqueness.{save_step, IsUnique, Bookmarking-IsUnique}
use proof_of_heart_stellar.Safety.Authority.{step-unsigned}
use proof_of_heart_stellar.Safety.PausedCalls.{step-paused}
use proof_of_heart_stellar.Tests.Listed.{
  started-IsListed, two-IsListed, funded-IsListed, cancelled-IsListed, two_count, two_of_category,
  first_active, short_entry, short_count, created_count, created_buckets, funded_listed,
  revenue-IsShared,
}
use proof_of_heart_stellar.Tests.Payments.{
  save_runs, created-IsUnique, uncensured_before, censures_before, censure_runs, uncensure_runs,
  reserved_reserve, reserved_campaign, release_runs, contributor_claim_runs, reached_campaign,
  milestone_runs,
}
use proof_of_heart_stellar.Tests.Rules.{
  vote_runs, thrice_voted_campaign, verify_runs, extend_runs, plan_runs, propose_runs, token_runs,
  delay, handover_runs, takeover_runs, funded_needed, contribute_needs, verified-IsBalanced,
  cancelled-IsBalanced,
}
use proof_of_heart_stellar.Tests.Runs.{
  contribute_runs, batch_runs, refund_runs, withdraw_runs, creator_claim_runs, split_runs,
}
use proof_of_heart_stellar.Tests.Scenario.{
  host_at, host, silent_host, params, started, created, verified_state, funded, complete, paid_out,
  revenue_in, cancelled_state, paused_state, campaign_in, voted, thrice_voted, plan, reached,
  proposed, named, two_campaigns, short_bucket, bookmarked, censured, uncensured, reserved,
  reserve_of, released_state, funded_holding,
}
use proof_of_heart_stellar.Tests.Stored.{
  verified_campaign, funded_campaign, created_campaign, complete_campaign, complete_amount,
  complete_fee, complete_vesting, revenue_campaign, revenue_amount, cancelled_campaign,
  cancelled_flag, cancelled_unpaused, cancelled_contribution, cancelled_difference, cancelled_token,
  paused_flag,
}
use proof_of_heart_stellar.Voting.{verify_with_votes}

reached-IsSound_example :
    IsSound
      (history ((host, init_call 1 2 300) ∷ (host, create_campaign_call params) ∷ []) empty_storage)
reached-IsSound_example =
    reached-IsSound ((host, init_call 1 2 300) ∷ (host, create_campaign_call params) ∷ [])

step-unsigned_example :
    step silent_host (contribute_call 1 20 (pos 7)) verified_state ≡ verified_state
step-unsigned_example =
    step-unsigned silent_host (contribute_call 1 20 (pos 7)) verified_state 20 funded_needed refl

step-paused_example : step host (contribute_call 1 20 (pos 7)) paused_state ≡ paused_state
step-paused_example =
    step-paused host (contribute_call 1 20 (pos 7)) paused_state paused_flag contribute_needs

contribute-IsBalanced_example : IsBalanced (20 ∷ 21 ∷ []) 1 funded
contribute-IsBalanced_example =
    contribute-IsBalanced (20 ∷ 21 ∷ []) 1 20 refl refl host verified_state funded
      verified-IsBalanced (pos 60_001) contribute_runs

claim_refund-IsBalanced_example :
    IsBalanced (20 ∷ 21 ∷ []) 1 (step host (claim_refund_call 1 20) cancelled_state)
claim_refund-IsBalanced_example =
    claim_refund-IsBalanced (20 ∷ 21 ∷ []) 1 20 refl refl host cancelled_state
      (step host (claim_refund_call 1 20) cancelled_state) cancelled-IsBalanced refund_runs

withdraw_funds-PaidOut_example :
    PaidOut host 1
      (campaign_in complete)
      (split_of 100_001 (fee_of (campaign_in complete) complete) ((vesting_of 1 complete).1))
      complete
      paid_out
withdraw_funds-PaidOut_example =
    withdraw_funds-PaidOut host 1 100_001 complete paid_out complete_campaign complete_amount
      (ground (arith, complete_fee)) (ground (arith, complete_vesting)) withdraw_runs

split_funds_exact_example :
    let split = split_of 100_001 300 1000 in
    (split.fee +ℤ split.reserve +ℤ split.payout ≡ pos 100_001)
    × (pos 0 ≤ℤ split.payout)
    × (100_001 * 300 ≤ pos_part split.fee * bps_denominator)
    × (pos_part split.fee * bps_denominator < 100_001 * 300 + bps_denominator)
    × ((100_001 - pos_part split.fee) * 1000 ≤ pos_part split.reserve * bps_denominator)
    × (pos_part split.reserve * bps_denominator
        < (100_001 - pos_part split.fee) * 1000 + bps_denominator)
split_funds_exact_example =
    split_funds_exact 100_001 300 1000 started started (ground arith) (ground arith) split_runs

contribute-PaidIn_example :
    PaidIn host 1 20 (pos 60_001) (campaign_in verified_state) verified_state funded
contribute-PaidIn_example =
    contribute-PaidIn host 1 20 (pos 60_001) verified_state funded verified_campaign contribute_runs

claim_refund-PaidBack_example :
    PaidBack host 1 20
      (get_contribution 1 20 cancelled_state)
      (campaign_in cancelled_state)
      cancelled_state
      (step host (claim_refund_call 1 20) cancelled_state)
claim_refund-PaidBack_example =
    claim_refund-PaidBack host 1 20 cancelled_state
      (step host (claim_refund_call 1 20) cancelled_state) cancelled_campaign refund_runs

claim_refund_once_example :
    invoke (claim_refund (host_at 2000) 1 20) (step host (claim_refund_call 1 20) cancelled_state)
    ≡ step host (claim_refund_call 1 20) cancelled_state
claim_refund_once_example =
    claim_refund_once host (host_at 2000) 1 20 cancelled_state
      (step host (claim_refund_call 1 20) cancelled_state) refund_runs

refund_available_example : is_ok (claim_refund host 1 20 cancelled_state) ≡ true
refund_available_example =
    refund_available host 1 20 cancelled_state cancelled_campaign cancelled_flag cancelled_unpaused
      refl (ground (arith, cancelled_contribution)) cancelled_difference cancelled_token refl

claim_creator_revenue-CreatorPaid_example :
    CreatorPaid host 1 1999
      (campaign_in revenue_in)
      revenue_in
      (step host (claim_creator_revenue_call 1) revenue_in)
claim_creator_revenue-CreatorPaid_example =
    claim_creator_revenue-CreatorPaid host 1 1999 revenue_in
      (step host (claim_creator_revenue_call 1) revenue_in) revenue_campaign revenue_amount
      creator_claim_runs

contribute_never_auto_pauses_example :
    get_auto_paused (step host (contribute_call 1 20 (pos 300_000)) verified_state)
    ≡ get_auto_paused verified_state
contribute_never_auto_pauses_example =
    contribute_never_auto_pauses host 1 20 (pos 300_000) verified_state

verify_with_votes-Approved_example :
    Approved 1 (campaign_in thrice_voted) thrice_voted (invoke (verify_with_votes 1) thrice_voted)
verify_with_votes-Approved_example =
    verify_with_votes-Approved 1 thrice_voted (invoke (verify_with_votes 1) thrice_voted)
      thrice_voted_campaign verify_runs

vote_once_example : step (host_at 2000) (vote_on_campaign_call 1 20 false) voted ≡ voted
vote_once_example = vote_once host (host_at 2000) 1 20 true false created voted vote_runs

extend_campaign_deadline-Extended_example :
    Extended host 1 5
      (campaign_in created)
      created
      (step host (extend_campaign_deadline_call 1 5) created)
extend_campaign_deadline-Extended_example =
    extend_campaign_deadline-Extended host 1 5 created
      (step host (extend_campaign_deadline_call 1 5) created) created_campaign extend_runs

extend_campaign_deadline_once_example :
    step
      (host_at 2000)
      (extend_campaign_deadline_call 1 7)
      (step host (extend_campaign_deadline_call 1 5) created)
    ≡ step host (extend_campaign_deadline_call 1 5) created
extend_campaign_deadline_once_example =
    extend_campaign_deadline_once host 1 5 created
      (step host (extend_campaign_deadline_call 1 5) created) created_campaign extend_runs
      (host_at 2000) 7

set_milestones-Planned_example :
    Planned 1 plan created (step host (set_milestones_call 1 plan) created)
set_milestones-Planned_example =
    set_milestones-Planned host 1 plan created (step host (set_milestones_call 1 plan) created)
      plan_runs

accept_token_update-Replaced_example :
    Replaced
      (host_at 700_000)
      proposed
      (step (host_at 700_000) (accept_token_update_call 1) proposed)
accept_token_update-Replaced_example =
    accept_token_update-Replaced (host_at 700_000) 1 proposed
      (step (host_at 700_000) (accept_token_update_call 1) proposed) token_runs

token_update_waits_example : step (host_at 9000) (accept_token_update_call 1) proposed ≡ proposed
token_update_waits_example =
    token_update_waits host (host_at 9000) 1 1 3 started proposed propose_runs
      (ground (arith, delay))

admin_handover_example :
    (stored_admin started ≡ some 1)
    × (host.is_authorized 1 ≡ true)
    × (host.is_authorized 5 ≡ true)
    × (stored_admin named ≡ some 1)
    × (stored_admin (step host accept_admin_transfer_call named) ≡ some 5)
    × (get_pending_admin (step host accept_admin_transfer_call named) ≡ none)
admin_handover_example =
    admin_handover host host 1 5 started named (step host accept_admin_transfer_call named)
      handover_runs takeover_runs

batch_contribute-IsBalanced_example :
    IsBalanced
      (20 ∷ 21 ∷ [])
      1
      (step host (batch_contribute_call 20 ((1, pos 60_001) ∷ (1, pos 9) ∷ [])) verified_state)
batch_contribute-IsBalanced_example =
    batch_contribute-IsBalanced (20 ∷ 21 ∷ []) 1 20 refl refl host
      ((1, pos 60_001) ∷ (1, pos 9) ∷ []) verified_state
      (step host (batch_contribute_call 20 ((1, pos 60_001) ∷ (1, pos 9) ∷ [])) verified_state)
      verified-IsBalanced batch_runs

history-IsListed_example :
    IsListed
      (history ((host, create_campaign_call params) ∷ (host, verify_campaign_call 1) ∷ []) started)
history-IsListed_example =
    history-IsListed ((host, create_campaign_call params) ∷ (host, verify_campaign_call 1) ∷ [])
      started started-IsListed

history-Survives_example :
    Survives 1 (campaign_in funded) (history ((host, cancel_campaign_call 1) ∷ []) funded)
history-Survives_example =
    history-Survives ((host, cancel_campaign_call 1) ∷ []) funded 1 (campaign_in funded)
      funded-IsListed funded_campaign

list_campaigns-Paged_example : get_elem? (list_campaigns 0 10 two_campaigns) 1 ≡ (
    if ltb 1 (min (min 10 list_max_limit) (get_campaign_count two_campaigns - 0))
    then get_campaign (0 + 1 + 1) two_campaigns
    else none)
list_campaigns-Paged_example =
    list_campaigns-Paged two_campaigns (two-IsListed.numbered) (omega (arith, two_count)) 0 10 1

page_through_all_example : get_elem? (page_through 3 0 1 two_campaigns) 1 ≡ (
    if ltb 1 (get_campaign_count two_campaigns) then get_campaign (1 + 1) two_campaigns else none)
page_through_all_example =
    page_through_all two_campaigns (two-IsListed.numbered) (omega (arith, two_count)) 3 1 1
      (omega arith) (omega arith) (omega (arith, two_count))

get_campaigns_by_category-Paged_example :
    get_campaigns_by_category 50 Category.educational_startup 0 10 two_campaigns
    ≡ page (
        lookup_all
          (slice 0 (min 10 list_max_limit) (all_members Category.educational_startup two_campaigns))
          two_campaigns)
get_campaigns_by_category-Paged_example =
    get_campaigns_by_category-Paged Category.educational_startup 50 0 10 two_campaigns
      (two-IsListed.indexed Category.educational_startup) (omega (arith, two_of_category))
      (omega arith)

get_creator_campaigns_held_example :
    get_creator_campaigns 1000 10
      (length (get_creator_campaign_bucket 10 0 short_bucket))
      5
      short_bucket
    ≡ unfinished
get_creator_campaigns_held_example =
    get_creator_campaigns_held 1000 10 5 short_bucket (omega (arith, short_entry))
      (omega (arith, short_entry)) (omega (arith, short_entry, short_count))
      (omega (arith, short_count)) (omega arith)

list_active_campaigns-Scanned_example :
    (campaign_in two_campaigns ∷ []
      ≡ open_campaigns
          (0 + 1)
          (if 2 == 0 then get_campaign_count two_campaigns - 0 else 2 - (0 + 1))
          two_campaigns)
    × ((◌≡◌ {A = ℕ} 2 0) ⊎ ((0 < 2) × (2 ≤ get_campaign_count two_campaigns + 1)))
    × (1 ≤ min 1 list_max_limit)
list_active_campaigns-Scanned_example =
    list_active_campaigns-Scanned 0 1 two_campaigns (campaign_in two_campaigns ∷ []) 2 (omega arith)
      first_active

list_active_campaigns_answers_example : is_some (list_active_campaigns 0 1 two_campaigns) ≡ true
list_active_campaigns_answers_example =
    list_active_campaigns_answers 0 1 two_campaigns (omega (arith, two_count))

refund-Listed_example : Lists (get_contributor_portfolio host 20 cancelled_state) (record {
  campaign_id = 1;
  amount = get_contribution 1 20 cancelled_state;
  status = status_of (campaign_in cancelled_state);
  refundable = true;
})
refund-Listed_example =
    refund-Listed host 1 20 cancelled_state (step host (claim_refund_call 1 20) cancelled_state)
      (campaign_in cancelled_state) (cancelled-IsListed.numbered) cancelled_campaign refund_runs

not_refundable-Refused_example : invoke (claim_refund host 1 20) funded ≡ funded
not_refundable-Refused_example =
    not_refundable-Refused host 20 funded_holding funded funded_listed refl

get_creator_stats-Counted_example :
    get_creator_stats 10 created ≡ count_entries created (1 ∷ []) (zero_stats 1)
get_creator_stats-Counted_example =
    get_creator_stats-Counted created 10 (1 ∷ []) created_buckets created_count

save_then_remove_example :
    remove_saved_campaign (host_at 2000) 20 1 bookmarked
    ≡ ok tt (set_saved_campaigns 20 (get_saved_campaigns 20 created) bookmarked)
save_then_remove_example =
    save_then_remove host 20 1 created bookmarked save_runs (host_at 2000) refl

censure_then_uncensure_example :
    (is_comment_censured 1 77 censured ≡ true)
    × (get_campaign_censured_count 1 censured ≡ get_campaign_censured_count 1 created + 1)
    × (is_comment_censured 1 77 uncensured ≡ false)
    × (get_campaign_censured_count 1 uncensured ≡ get_campaign_censured_count 1 created)
censure_then_uncensure_example =
    censure_then_uncensure host (host_at 2000) 1 1 77 (88 ∷ []) created censured uncensured
      uncensured_before (omega (arith, censures_before)) censure_runs uncensure_runs

withdraw_reserve_settles_example :
    Released
      (host_at 1_000_000)
      1
      (reserve_of reserved)
      (campaign_in reserved)
      reserved
      released_state
    × (invoke (withdraw_reserve (host_at 2_000_000) 1) released_state ≡ released_state)
withdraw_reserve_settles_example =
    withdraw_reserve_settles (host_at 1_000_000) (host_at 2_000_000) 1 reserved released_state
      reserved_reserve reserved_campaign release_runs

claim_milestone_settles_example :
    Claims host 1 1 (campaign_in reached) reached (step host (claim_milestone_call 1 1) reached)
    × (invoke (claim_milestone (host_at 2000) 1 1) (step host (claim_milestone_call 1 1) reached)
        ≡ step host (claim_milestone_call 1 1) reached)
claim_milestone_settles_example =
    claim_milestone_settles host (host_at 2000) 1 1 reached
      (step host (claim_milestone_call 1 1) reached) reached_campaign milestone_runs

claim_revenue-IsShared_example :
    IsShared (20 ∷ 21 ∷ []) 1 (step host (claim_revenue_call 1 20) revenue_in)
claim_revenue-IsShared_example =
    claim_revenue-IsShared (20 ∷ 21 ∷ []) host 1 20 revenue_in
      (step host (claim_revenue_call 1 20) revenue_in) refl refl revenue-IsShared
      contributor_claim_runs

Bookmarking-IsUnique_example : IsUnique bookmarked
Bookmarking-IsUnique_example =
    Bookmarking-IsUnique created bookmarked created-IsUnique (save_step host 20 1 save_runs)
