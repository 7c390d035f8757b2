-- ===== src/Campaigns/Withdraw.antt =====
-- Withdrawal of the funds and of the reserve: src/campaigns/withdraw.rs.
use proof_of_heart_stellar.Prelude.{
  ltb, ◌==◌, unwrap_or, ◌and_then◌, is_empty, ℕ, true, false, not, ◌&&◌, ◌||◌, none, some,
}
use proof_of_heart_stellar.Prelude.Int.{ℤ, pos, ◌/ℤ◌, ltb_ℤ, eqb_ℤ, checked_add, checked_mul}
use proof_of_heart_stellar.Prelude.Words.{checked_add_u64}
use proof_of_heart_stellar.Types.{Address, Campaign}
use proof_of_heart_stellar.Types.Limits.{bps_denominator, bps_ceil_offset, seconds_per_day}
use proof_of_heart_stellar.Types.Error.{
  campaign_not_active, funds_already_withdrawn, funding_goal_not_reached, no_funds_to_withdraw,
  validation_failed, campaign_not_verified, overflow, invalid_vesting_delay,
}
use proof_of_heart_stellar.Host.{Host}
use proof_of_heart_stellar.Store.{
  get_platform_fee, get_withdraw_release_delay_days, set_withdraw_release_delay_days,
  get_withdraw_reserve_percentage, set_withdraw_reserve_percentage, State, get_total_raised_global,
  set_total_raised_global, set_campaign, get_campaign_reserve, set_campaign_reserve,
  get_campaign_vesting, get_campaign_milestones, get_campaign_fee_recipient,
}
use proof_of_heart_stellar.Action.{
  ok, Action, Done, pure, gets, ok_or, ◌>>=◌, ◌>>◌, modify, reject_if, when, require_auth, transfer,
  sub_or_overflow, sub_i128, mul_u64,
}
use proof_of_heart_stellar.Lifecycle.{
  withdrawn, state_of, transition, get_admin, get_campaign_token, get_campaign_or_error,
  get_creator_campaign, assert_admin, require_not_paused, decrement_active_campaign_count,
}

-- `ceil(amount * bps / 10000)` with checked operations
unfoldable pub ceil_bps : ℤ → ℕ → Action ℤ
ceil_bps amount bps = do
  product ←
      ok_or overflow (checked_mul amount (pos bps) and_then (λ n. checked_add n bps_ceil_offset))
  pure (product /ℤ pos bps_denominator)

unfoldable pub check_withdrawal : ℕ → Campaign → Action Done
check_withdrawal id campaign = do
  milestones ← gets (get_campaign_milestones id)
  reject_if (not (is_empty milestones)) validation_failed
  reject_if (not campaign.is_verified) campaign_not_verified
  reject_if campaign.is_cancelled campaign_not_active
  reject_if campaign.funds_withdrawn funds_already_withdrawn
  reject_if (eqb_ℤ campaign.amount_raised (pos 0)) no_funds_to_withdraw
  reject_if (ltb_ℤ campaign.amount_raised campaign.funding_goal) funding_goal_not_reached
  transition (state_of campaign) withdrawn

abbrev pub vesting_of : ℕ → State → ℕ × ℕ
vesting_of id s =
    unwrap_or (get_withdraw_release_delay_days s, get_withdraw_reserve_percentage s)
      (get_campaign_vesting id s)

-- How the escrowed amount is divided: the fee, the reserve, and the creator's part.
pub record Split : Type 0 where
  pub fee : ℤ
  pub reserve : ℤ
  pub payout : ℤ

unfoldable pub split_funds : ℤ → ℕ → ℕ → Action Split
split_funds effective platform_fee reserve_bps = do
  fee_amount ← ceil_bps effective platform_fee
  total_after_fee ← sub_i128 effective fee_amount
  reserve_amount ← ceil_bps total_after_fee reserve_bps
  creator_amount ← sub_i128 total_after_fee reserve_amount
  pure (record { fee = fee_amount; reserve = reserve_amount; payout = creator_amount })

unfoldable pub hold_reserve : Host → ℕ → ℕ → ℤ → Action Done
hold_reserve env id delay_days amount = when (ltb_ℤ (pos 0) amount) do
  delay ← mul_u64 delay_days seconds_per_day
  release ← ok_or overflow (checked_add_u64 env.timestamp delay)
  modify (
      set_campaign_reserve id
        (record { amount = amount; release_timestamp = release; released = false }))

unfoldable pub close_campaign : ℕ → Campaign → Action Done
close_campaign id campaign = do
  modify (set_campaign id (record campaign { funds_withdrawn = true; is_active = false }))
  decrement_active_campaign_count

-- The admin of the first contribution, or the present one where none was recorded.
unfoldable pub fee_recipient : ℕ → Action Address
fee_recipient id s = elim (get_campaign_fee_recipient id s) [
  | none ↦ get_admin s
  | some recipient ↦ ok recipient s
]

-- The writes and the transfers of `withdraw_funds`, once the amounts are known.
unfoldable pub pay_out : Host → ℕ → Campaign → ℕ → Split → Action Done
pay_out env id campaign delay_days split = do
  close_campaign id campaign
  hold_reserve env id delay_days split.reserve
  total_raised ← gets get_total_raised_global
  released ← sub_i128 campaign.effective_amount_raised split.reserve
  new_total ← sub_or_overflow total_raised released
  modify (set_total_raised_global new_total)
  recipient ← fee_recipient id
  token ← get_campaign_token id
  transfer env token env.contract_address recipient split.fee
  transfer env token env.contract_address campaign.creator split.payout

unfoldable pub withdraw_funds : Host → ℕ → Action Done
withdraw_funds env id = do
  campaign ← get_creator_campaign env id
  require_not_paused
  check_withdrawal id campaign
  global_fee ← gets get_platform_fee
  vesting ← gets (vesting_of id)
  split ←
      split_funds campaign.effective_amount_raised (unwrap_or global_fee campaign.fee_override)
        vesting.1
  pay_out env id campaign vesting.0 split

unfoldable pub withdraw_reserve : Host → ℕ → Action Done
withdraw_reserve env id = do
  found ← gets (get_campaign_reserve id)
  reserve ← ok_or no_funds_to_withdraw found
  require_not_paused
  reject_if reserve.released funds_already_withdrawn
  reject_if (ltb env.timestamp reserve.release_timestamp) validation_failed
  campaign ← get_campaign_or_error id
  reject_if (not campaign.funds_withdrawn) validation_failed
  require_auth env campaign.creator
  modify (set_campaign_reserve id (record reserve { released = true }))
  total_raised ← gets get_total_raised_global
  new_total ← sub_or_overflow total_raised reserve.amount
  modify (set_total_raised_global new_total)
  token ← get_campaign_token id
  transfer env token env.contract_address campaign.creator reserve.amount

unfoldable pub set_vesting_params : Host → Address → ℕ → ℕ → Action Done
set_vesting_params env admin delay_days reserve_bps = do
  assert_admin env admin
  require_not_paused
  reject_if (ltb bps_denominator reserve_bps || ltb 365 delay_days) validation_failed
  reject_if (delay_days == 0 && ltb 0 reserve_bps) invalid_vesting_delay
  modify (set_withdraw_release_delay_days delay_days)
  modify (set_withdraw_reserve_percentage reserve_bps)
