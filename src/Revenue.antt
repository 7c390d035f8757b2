-- ===== src/Revenue.antt =====
-- Revenue sharing: src/revenue.rs.
use proof_of_heart_stellar.Prelude.{
  ltb, leb, if◌then◌else◌, ◌and_then◌, ℕ, Bool, true, false, not, ◌&&◌, Option,
}
use proof_of_heart_stellar.Prelude.Int.{ℤ, pos, ◌-ℤ◌, ltb_ℤ, leb_ℤ, eqb_ℤ, checked_mul, checked_div}
use proof_of_heart_stellar.Prelude.Words.{checked_add_u32}
use proof_of_heart_stellar.Types.{Address, Campaign}
use proof_of_heart_stellar.Types.Limits.{bps_denominator}
use proof_of_heart_stellar.Types.Error.{
  campaign_not_active, no_funds_to_withdraw, validation_failed, amount_raised_is_zero,
  revenue_sharing_not_enabled, overflow,
}
use proof_of_heart_stellar.Host.{Host}
use proof_of_heart_stellar.Store.{
  get_contribution, get_contributor_count, get_revenue_pool, set_revenue_pool, get_revenue_claimed,
  set_revenue_claimed, get_creator_revenue_claimed, set_creator_revenue_claimed,
  get_contributor_revenue_distributed, set_contributor_revenue_distributed,
  get_contributor_revenue_claimants, set_contributor_revenue_claimants,
}
use proof_of_heart_stellar.Action.{
  Action, Done, pure, gets, ok_or, ◌>>=◌, ◌>>◌, modify, reject_if, when, require_auth, transfer,
  add_or_overflow, sub_i128,
}
use proof_of_heart_stellar.Lifecycle.{
  get_campaign_token, get_campaign_or_error, get_creator_campaign, require_revenue_sharing,
  require_not_paused,
}

unfoldable pub deposit_revenue : Host → ℕ → ℤ → Action Done
deposit_revenue env id amount = do
  campaign ← get_creator_campaign env id
  require_not_paused
  reject_if (leb_ℤ amount (pos 0)) validation_failed
  reject_if campaign.is_cancelled campaign_not_active
  reject_if (not campaign.funds_withdrawn) validation_failed
  require_revenue_sharing campaign revenue_sharing_not_enabled
  reject_if (eqb_ℤ campaign.amount_raised (pos 0)) amount_raised_is_zero
  current_pool ← gets (get_revenue_pool id)
  pool ← add_or_overflow current_pool amount
  modify (set_revenue_pool id pool)
  token ← get_campaign_token id
  transfer env token campaign.creator env.contract_address amount

-- A contributor's share of the pool, divided only at the end.
unfoldable pub revenue_due : Campaign → ℤ → ℤ → Option ℤ
revenue_due campaign contribution total_pool =
    checked_mul contribution total_pool
    and_then (λ n. checked_mul n (pos campaign.revenue_share_percentage))
    and_then (λ n. checked_div n campaign.effective_amount_raised)
    and_then (λ n. checked_div n (pos bps_denominator))

-- The creator's share of the pool.
unfoldable pub creator_share : Campaign → ℤ → Option ℤ
creator_share campaign total_pool =
    checked_mul total_pool (pos bps_denominator -ℤ pos campaign.revenue_share_percentage)
    and_then (λ n. checked_div n (pos bps_denominator))

-- Whether this is a first claim and no other contributor has yet to make one.
unfoldable pub last_claimant : ℤ → ℕ → ℕ → Action Bool
last_claimant already_claimed claimants_so_far total_contributors =
    if eqb_ℤ already_claimed (pos 0) && ltb 0 total_contributors
    then (do
      next ← ok_or overflow (checked_add_u32 claimants_so_far 1)
      pure (leb total_contributors next))
    else pure false

-- The last claimant takes what is left of the contributors' side of the pool, if that is more.
unfoldable pub absorb_dust : Bool → Campaign → ℤ → ℤ → ℤ → Action ℤ
absorb_dust false campaign total_pool distributed claimable = pure claimable
absorb_dust true campaign total_pool distributed claimable = do
  creator_total ← ok_or overflow (creator_share campaign total_pool)
  contributor_pool_total ← sub_i128 total_pool creator_total
  pool_remaining ← sub_i128 contributor_pool_total distributed
  pure (if ltb_ℤ claimable pool_remaining then pool_remaining else claimable)

unfoldable pub check_claim : Campaign → ℤ → Action Done
check_claim campaign contribution = do
  reject_if (eqb_ℤ contribution (pos 0)) validation_failed
  reject_if (eqb_ℤ campaign.effective_amount_raised (pos 0)) amount_raised_is_zero

-- What a claim pays out.
unfoldable pub revenue_claimable : ℕ → Address → Campaign → Action ℤ
revenue_claimable id contributor campaign = do
  contribution ← gets (get_contribution id contributor)
  check_claim campaign contribution
  total_pool ← gets (get_revenue_pool id)
  total_due ← ok_or overflow (revenue_due campaign contribution total_pool)
  already_claimed ← gets (get_revenue_claimed id contributor)
  due ← sub_i128 total_due already_claimed
  reject_if (leb_ℤ due (pos 0)) no_funds_to_withdraw
  claimants_so_far ← gets (get_contributor_revenue_claimants id)
  total_contributors ← gets (get_contributor_count id)
  is_last ← last_claimant already_claimed claimants_so_far total_contributors
  distributed_so_far ← gets (get_contributor_revenue_distributed id)
  claimable ← absorb_dust is_last campaign total_pool distributed_so_far due
  reject_if (leb_ℤ claimable (pos 0)) no_funds_to_withdraw
  pure claimable

-- The writes of a claim.
unfoldable pub record_claim : ℕ → Address → ℤ → Action Done
record_claim id contributor claimable = do
  already_claimed ← gets (get_revenue_claimed id contributor)
  claimants_so_far ← gets (get_contributor_revenue_claimants id)
  distributed_so_far ← gets (get_contributor_revenue_distributed id)
  claimed ← add_or_overflow already_claimed claimable
  modify (set_revenue_claimed id contributor claimed)
  distributed ← add_or_overflow distributed_so_far claimable
  modify (set_contributor_revenue_distributed id distributed)
  when (eqb_ℤ already_claimed (pos 0)) do
    claimants ← ok_or overflow (checked_add_u32 claimants_so_far 1)
    modify (set_contributor_revenue_claimants id claimants)

unfoldable pub claim_revenue : Host → ℕ → Address → Action Done
claim_revenue env id contributor = do
  require_auth env contributor
  require_not_paused
  campaign ← get_campaign_or_error id
  reject_if campaign.is_cancelled campaign_not_active
  require_revenue_sharing campaign validation_failed
  reject_if (not campaign.funds_withdrawn) validation_failed
  claimable ← revenue_claimable id contributor campaign
  record_claim id contributor claimable
  token ← get_campaign_token id
  transfer env token env.contract_address contributor claimable

unfoldable pub claim_creator_revenue : Host → ℕ → Action Done
claim_creator_revenue env id = do
  campaign ← get_creator_campaign env id
  require_not_paused
  require_revenue_sharing campaign validation_failed
  reject_if (ltb bps_denominator campaign.revenue_share_percentage) validation_failed
  total_pool ← gets (get_revenue_pool id)
  share ← ok_or overflow (creator_share campaign total_pool)
  already_claimed ← gets (get_creator_revenue_claimed id)
  claimable ← sub_i128 share already_claimed
  reject_if (leb_ℤ claimable (pos 0)) no_funds_to_withdraw
  claimed ← add_or_overflow already_claimed claimable
  modify (set_creator_revenue_claimed id claimed)
  token ← get_campaign_token id
  transfer env token env.contract_address campaign.creator claimable
