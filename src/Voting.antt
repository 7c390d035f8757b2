-- ===== src/Voting.antt =====
-- Community votes and verification: src/voting.rs, with `vote_on_campaign`, `verify_campaign` and
-- `verify_campaign_with_votes` of src/lib.rs.
use proof_of_heart_stellar.Prelude.{
  ltb, leb, ◌==◌, if◌then◌else◌, unwrap_or, ◌and_then◌, take, ℕ, ◌/◌, ◌%◌, ◌^◌, Bool, true, false,
  not, ◌&&◌, ◌||◌, none, some, List, [], ◌∷◌, ◌++◌,
}
use proof_of_heart_stellar.Prelude.Int.{pos, ltb_ℤ, leb_ℤ}
use proof_of_heart_stellar.Prelude.Words.{checked_add_u32, checked_mul_u64}
use proof_of_heart_stellar.Types.{Address, Category, Campaign}
use proof_of_heart_stellar.Types.Limits.{
  bps_denominator, default_min_votes_quorum, max_votes_quorum, default_approval_threshold_bps,
  min_approval_threshold_bps,
}
use proof_of_heart_stellar.Types.Error.{
  campaign_not_active, deadline_passed, validation_failed, already_voted, not_token_holder,
  voting_quorum_not_met, voting_threshold_not_met, overflow, admin_verification_conflict,
  community_verification_conflict,
}
use proof_of_heart_stellar.Host.{Host}
use proof_of_heart_stellar.Store.{
  State, get_approve_votes, set_approve_votes, get_reject_votes, set_reject_votes,
  get_approve_weight, set_approve_weight, get_reject_weight, set_reject_weight, get_has_voted,
  set_has_voted, get_min_votes_quorum, set_min_votes_quorum, get_approval_threshold_bps,
  set_approval_threshold_bps, get_min_voting_balance, get_category_voting_threshold_bps,
  set_campaign,
}
use proof_of_heart_stellar.Action.{
  ok, err, trap, Action, Done, gets, ok_or, ◌>>=◌, ◌>>◌, modify, reject_if, require_auth,
  add_or_overflow,
}
use proof_of_heart_stellar.Lifecycle.{
  verified, state_of, transition, get_admin, get_token, get_campaign_or_error, assert_admin,
  require_active_campaign, require_unverified_campaign, require_not_paused,
  increment_verified_campaign_count,
}

unfoldable pub effective_approval_threshold_bps : Category → State → ℕ
effective_approval_threshold_bps category s =
    unwrap_or (get_approval_threshold_bps default_approval_threshold_bps s)
      (get_category_voting_threshold_bps category s)

unfoldable pub set_params : ℕ → ℕ → Action Done
set_params min_votes_quorum approval_threshold_bps = do
  reject_if
      (min_votes_quorum == 0
        || ltb max_votes_quorum min_votes_quorum
        || not (
            leb min_approval_threshold_bps approval_threshold_bps
            && leb approval_threshold_bps bps_denominator))
      validation_failed
  modify (set_min_votes_quorum min_votes_quorum)
  modify (set_approval_threshold_bps approval_threshold_bps)

-- One more vote, and its unit weight.
unfoldable pub count_vote : ℕ → Bool → Action Done
count_vote id true = do
  votes ← gets (get_approve_votes id)
  new_count ← ok_or overflow (checked_add_u32 votes 1)
  modify (set_approve_votes id new_count)
  weight ← gets (get_approve_weight id)
  new_weight ← add_or_overflow weight (pos 1)
  modify (set_approve_weight id new_weight)
count_vote id false = do
  votes ← gets (get_reject_votes id)
  new_count ← ok_or overflow (checked_add_u32 votes 1)
  modify (set_reject_votes id new_count)
  weight ← gets (get_reject_weight id)
  new_weight ← add_or_overflow weight (pos 1)
  modify (set_reject_weight id new_weight)

unfoldable pub cast_vote : Host → ℕ → Address → Bool → Action Done
cast_vote env id voter approve = do
  require_auth env voter
  campaign ← get_campaign_or_error id
  reject_if campaign.funds_withdrawn campaign_not_active
  require_active_campaign campaign
  reject_if (ltb campaign.deadline env.timestamp) deadline_passed
  require_unverified_campaign campaign
  token ← get_token
  balance ← gets (λ s. env.balance s.transfers token voter)
  reject_if (leb_ℤ balance (pos 0)) not_token_holder
  min_voting_balance ← gets get_min_voting_balance
  reject_if (ltb_ℤ balance min_voting_balance) not_token_holder
  voted ← gets (get_has_voted id voter)
  reject_if voted already_voted
  count_vote id approve
  modify (set_has_voted id voter)

unfoldable pub mark_verified : ℕ → Campaign → Action Done
mark_verified id campaign = do
  transition (state_of campaign) verified
  modify (set_campaign id (record campaign { is_verified = true }))
  increment_verified_campaign_count

unfoldable pub admin_verify : ℕ → Action Done
admin_verify id = do
  campaign ← get_campaign_or_error id
  reject_if campaign.is_cancelled campaign_not_active
  reject_if campaign.is_verified admin_verification_conflict
  require_active_campaign campaign
  mark_verified id campaign

-- `approve_votes * 10000 / total_votes`, or 0 where that is undefined
unfoldable pub approval_bps : ℕ → ℕ → ℕ
approval_bps approve_votes total_votes =
    unwrap_or 0 (
      checked_mul_u64 approve_votes bps_denominator
      and_then (λ n. if total_votes == 0 then none else some (n / total_votes)))
    % 2 ^ 32

unfoldable pub verify_with_votes : ℕ → Action Done
verify_with_votes id = do
  campaign ← get_campaign_or_error id
  reject_if campaign.is_cancelled campaign_not_active
  reject_if campaign.is_verified community_verification_conflict
  require_active_campaign campaign
  approve_votes ← gets (get_approve_votes id)
  reject_votes ← gets (get_reject_votes id)
  total_votes ← ok_or overflow (checked_add_u32 approve_votes reject_votes)
  min_quorum ← gets (get_min_votes_quorum default_min_votes_quorum)
  reject_if (ltb total_votes min_quorum) voting_quorum_not_met
  threshold ← gets (effective_approval_threshold_bps campaign.category)
  reject_if (ltb (approval_bps approve_votes total_votes) threshold) voting_threshold_not_met
  mark_verified id campaign

unfoldable pub vote_on_campaign : Host → ℕ → Address → Bool → Action Done
vote_on_campaign env id voter approve = do require_not_paused; cast_vote env id voter approve

unfoldable pub verify_campaign : Host → ℕ → Action Done
verify_campaign env id = do
  admin ← get_admin
  assert_admin env admin
  require_not_paused
  admin_verify id

-- An error of one campaign is caught, and the batch goes on from what was written by then.
unfoldable pub verify_each : List ℕ → List ℕ → List ℕ → Action (List ℕ × List ℕ)
verify_each [] verified_ids failed_ids s = ok (verified_ids, failed_ids) s
verify_each (id ∷ ids) verified_ids failed_ids s = elim (admin_verify id s) [
  | ok _ t ↦ verify_each ids (verified_ids ++ id ∷ []) failed_ids t
  | err _ t ↦ verify_each ids verified_ids (failed_ids ++ id ∷ []) t
  | trap ↦ trap
]

unfoldable pub verify_campaigns : Host → List ℕ → Action (List ℕ × List ℕ)
verify_campaigns env campaign_ids = do
  admin ← get_admin
  assert_admin env admin
  require_not_paused
  verify_each (take 50 campaign_ids) [] []

unfoldable pub verify_campaign_with_votes : Host → ℕ → Action Done
verify_campaign_with_votes env id = do require_not_paused; verify_with_votes id
