-- ===== src/Milestones.antt =====
-- Milestone withdrawals: src/milestones.rs.
use proof_of_heart_stellar.Prelude.{
  ltb, ◌==◌, if◌then◌else◌, unwrap_or, length, is_empty, contains, ℕ, Bool, true, false, not, ◌&&◌,
  ◌||◌, Option, none, some, List, [], ◌∷◌, ◌++◌,
}
use proof_of_heart_stellar.Prelude.Int.{ℤ, pos, ◌/ℤ◌, ltb_ℤ, leb_ℤ, eqb_ℤ}
use proof_of_heart_stellar.Prelude.Words.{checked_add_u32, checked_sub_u32}
use proof_of_heart_stellar.Types.{Address, Campaign, Milestone}
use proof_of_heart_stellar.Types.Limits.{bps_denominator, max_milestones}
use proof_of_heart_stellar.Types.Error.{
  campaign_not_active, funds_already_withdrawn, funding_goal_not_reached, no_funds_to_withdraw,
  validation_failed, campaign_not_verified, overflow, milestone_not_found, milestone_not_verified,
  milestone_already_claimed,
}
use proof_of_heart_stellar.Host.{Host}
use proof_of_heart_stellar.Store.{
  get_platform_fee, State, get_total_raised_global, set_total_raised_global,
  get_campaign_milestones, set_campaign_milestones, is_milestone_claimed, set_milestone_claimed,
}
use proof_of_heart_stellar.Action.{
  Action, Done, pure, gets, ok_or, ◌>>=◌, ◌>>◌, modify, reject_if, when, require_auth, transfer,
  add_or_overflow, sub_or_overflow, mul_or_overflow, sub_i128,
}
use proof_of_heart_stellar.Lifecycle.{
  get_admin, get_campaign_token, get_campaign_or_error, assert_admin, require_not_paused,
}
use proof_of_heart_stellar.Campaigns.Withdraw.{ceil_bps, close_campaign}

-- The first loop of `set_milestones`: the ids seen, and the sum of the shares.
unfoldable pub validate_milestones : List Milestone → List ℕ → ℕ → Action ℕ
validate_milestones [] seen_ids total_bps = pure total_bps
validate_milestones (m ∷ ms) seen_ids total_bps = do
  reject_if (m.payout_bps == 0 || ltb bps_denominator m.payout_bps) validation_failed
  reject_if (is_empty m.description) validation_failed
  reject_if (contains seen_ids m.id) validation_failed
  sum ← ok_or overflow (checked_add_u32 total_bps m.payout_bps)
  validate_milestones ms (seen_ids ++ m.id ∷ []) sum

unfoldable pub normalize : List Milestone → List Milestone
normalize [] = []
normalize (m ∷ ms) = record m { verified = false } ∷ normalize ms

unfoldable pub set_milestones : Host → ℕ → List Milestone → Action Done
set_milestones env id milestones = do
  campaign ← get_campaign_or_error id
  require_auth env campaign.creator
  require_not_paused
  reject_if (campaign.is_cancelled || campaign.funds_withdrawn) campaign_not_active
  reject_if (is_empty milestones || ltb max_milestones (length milestones)) validation_failed
  present ← gets (get_campaign_milestones id)
  reject_if (not (is_empty present)) validation_failed
  total_bps ← validate_milestones milestones [] 0
  reject_if (not (total_bps == bps_denominator)) validation_failed
  modify (set_campaign_milestones id (normalize milestones))

-- The loop of `verify_milestone`: the updated list, and whether the milestone was found.
unfoldable pub mark_milestone : ℕ → List Milestone → Action (List Milestone × Bool)
mark_milestone milestone_id [] = pure ([], false)
mark_milestone milestone_id (m ∷ ms) =
    if m.id == milestone_id
    then (do
      reject_if m.verified validation_failed
      rest ← mark_milestone milestone_id ms
      pure (record m { verified = true } ∷ rest.0, true))
    else (do rest ← mark_milestone milestone_id ms; pure (m ∷ rest.0, rest.1))

unfoldable pub verify_milestone : Host → Address → ℕ → ℕ → Action Done
verify_milestone env admin id milestone_id = do
  assert_admin env admin
  require_not_paused
  campaign ← get_campaign_or_error id
  reject_if campaign.is_cancelled campaign_not_active
  milestones ← gets (get_campaign_milestones id)
  reject_if (is_empty milestones) milestone_not_found
  marked ← mark_milestone milestone_id milestones
  reject_if (not marked.1) milestone_not_found
  modify (set_campaign_milestones id marked.0)

unfoldable pub find_milestone : ℕ → List Milestone → Option Milestone
find_milestone milestone_id [] = none
find_milestone milestone_id (m ∷ ms) =
    if m.id == milestone_id then some m else find_milestone milestone_id ms

-- `amount * bps / 10000`
unfoldable pub slice_bps : ℤ → ℕ → Action ℤ
slice_bps amount bps = do
  product ← mul_or_overflow amount (pos bps)
  pure (product /ℤ pos bps_denominator)

-- One milestone of the loop below: `claimed` says whether it is claimed.
unfoldable pub add_claimed : Bool → ℤ → ℕ → ℕ → ℤ → Action (ℕ × ℤ)
add_claimed false total payout_bps bps amount = pure (bps, amount)
add_claimed true total payout_bps bps amount = do
  new_bps ← ok_or overflow (checked_add_u32 bps payout_bps)
  part ← slice_bps total payout_bps
  new_amount ← add_or_overflow amount part
  pure (new_bps, new_amount)

-- The shares of the claimed milestones, and what they were paid of `total`.
unfoldable pub claimed_so_far : ℕ → ℤ → List Milestone → ℕ → ℤ → Action (ℕ × ℤ)
claimed_so_far id total [] bps amount = pure (bps, amount)
claimed_so_far id total (m ∷ ms) bps amount = do
  claimed ← gets (is_milestone_claimed id m.id)
  next ← add_claimed claimed total m.payout_bps bps amount
  claimed_so_far id total ms next.0 next.1

unfoldable pub add_fee : Bool → ℤ → ℕ → ℤ → Action ℤ
add_fee false fee_total payout_bps sum = pure sum
add_fee true fee_total payout_bps sum = do
  part ← slice_bps fee_total payout_bps
  add_or_overflow sum part

-- The same loop over the fee, which sums no shares.
unfoldable pub fee_claimed_so_far : ℕ → ℤ → List Milestone → ℤ → Action ℤ
fee_claimed_so_far id fee_total [] sum = pure sum
fee_claimed_so_far id fee_total (m ∷ ms) sum = do
  claimed ← gets (is_milestone_claimed id m.id)
  next ← add_fee claimed fee_total m.payout_bps sum
  fee_claimed_so_far id fee_total ms next

-- Whether every other milestone is claimed.
unfoldable pub others_claimed : ℕ → ℕ → List Milestone → State → Bool
others_claimed id milestone_id [] s = true
others_claimed id milestone_id (m ∷ ms) s =
    (m.id == milestone_id || is_milestone_claimed id m.id s) && others_claimed id milestone_id ms s

unfoldable pub check_milestone_claim : Host → Campaign → Action Done
check_milestone_claim env campaign = do
  require_auth env campaign.creator
  require_not_paused
  reject_if campaign.is_cancelled campaign_not_active
  reject_if (not campaign.is_verified) campaign_not_verified
  reject_if campaign.funds_withdrawn funds_already_withdrawn
  reject_if (eqb_ℤ campaign.amount_raised (pos 0)) no_funds_to_withdraw
  reject_if (ltb_ℤ campaign.amount_raised campaign.funding_goal) funding_goal_not_reached

-- The milestone to claim, checked.
unfoldable pub claimable_milestone : ℕ → ℕ → List Milestone → Action Milestone
claimable_milestone id milestone_id milestones = do
  reject_if (is_empty milestones) milestone_not_found
  milestone ← ok_or milestone_not_found (find_milestone milestone_id milestones)
  reject_if (not milestone.verified) milestone_not_verified
  claimed ← gets (is_milestone_claimed id milestone_id)
  reject_if claimed milestone_already_claimed
  pure milestone

-- The payout and the fee of the last milestone: what is left of either.
unfoldable pub last_payout : ℕ → List Milestone → ℤ → ℤ → ℤ → ℤ → Action (ℤ × ℤ)
last_payout id milestones total_after_fee claimed_amount fee_total fee_slice = do
  fee_claimed ← fee_claimed_so_far id fee_total milestones (pos 0)
  fee_remaining ← sub_or_overflow fee_total fee_claimed
  total_remaining ← sub_or_overflow total_after_fee claimed_amount
  pure (total_remaining, (if ltb_ℤ fee_slice fee_remaining then fee_remaining else fee_slice))

-- What a claim pays to the creator, and as the fee.
unfoldable pub milestone_payout : ℕ → Campaign → List Milestone → Milestone → Action (ℤ × ℤ)
milestone_payout id campaign milestones milestone = do
  global_fee ← gets get_platform_fee
  fee_total ← ceil_bps campaign.amount_raised (unwrap_or global_fee campaign.fee_override)
  total_after_fee ← sub_i128 campaign.amount_raised fee_total
  claimed ← claimed_so_far id total_after_fee milestones 0 (pos 0)
  claimable ← slice_bps total_after_fee milestone.payout_bps
  remaining_bps ← ok_or overflow (checked_sub_u32 bps_denominator claimed.0)
  let is_last = remaining_bps == milestone.payout_bps
  when is_last do _ ← sub_or_overflow total_after_fee claimed.1; pure tt
  fee_slice ← slice_bps fee_total milestone.payout_bps
  if is_last
      then last_payout id milestones total_after_fee claimed.1 fee_total fee_slice
      else pure (claimable, fee_slice)

unfoldable pub claim_milestone : Host → ℕ → ℕ → Action Done
claim_milestone env id milestone_id = do
  campaign ← get_campaign_or_error id
  check_milestone_claim env campaign
  milestones ← gets (get_campaign_milestones id)
  milestone ← claimable_milestone id milestone_id milestones
  payout ← milestone_payout id campaign milestones milestone
  reject_if (leb_ℤ payout.0 (pos 0)) no_funds_to_withdraw
  modify (set_milestone_claimed id milestone_id)
  to_deduct ← add_or_overflow payout.1 payout.0
  total_raised ← gets get_total_raised_global
  new_total ← sub_or_overflow total_raised to_deduct
  modify (set_total_raised_global new_total)
  all_claimed ← gets (others_claimed id milestone_id milestones)
  when all_claimed (close_campaign id campaign)
  admin ← get_admin
  token ← get_campaign_token id
  when (ltb_ℤ (pos 0) payout.1) (transfer env token env.contract_address admin payout.1)
  transfer env token env.contract_address campaign.creator payout.0
