-- ===== src/Contributions.antt =====
-- Contributions and refunds: src/contributions.rs.
pub mod Effects
pub mod Batch
use proof_of_heart_stellar.Prelude.{
  ltb, ◌==◌, if◌then◌else◌, is_some, ℕ, Bool, true, not, ◌&&◌, ◌||◌, none, some,
}
use proof_of_heart_stellar.Prelude.Int.{ℤ, pos, ltb_ℤ, leb_ℤ, eqb_ℤ}
use proof_of_heart_stellar.Types.{Address, Campaign}
use proof_of_heart_stellar.Types.Limits.{
  bps_denominator, auto_pause_single_contribution_bps_threshold, auto_pause_burst_threshold,
  auto_pause_burst_check_min_raised_bps,
}
use proof_of_heart_stellar.Types.Error.{
  not_authorized, deadline_passed, contribution_must_be_positive, no_funds_to_withdraw,
  validation_failed, contract_paused, contribution_cap_exceeded, campaign_not_verified,
  personal_cap_not_found,
}
use proof_of_heart_stellar.Host.{Host}
use proof_of_heart_stellar.Store.{
  get_max_contribution_per_transaction, set_auto_paused, State, get_contribution, set_contribution,
  remove_contribution, get_lifetime_contribution, set_lifetime_contribution, get_top_contributor,
  set_top_contributor, set_last_contribution_time, get_total_raised_global, set_total_raised_global,
  get_personal_cap, set_personal_cap, remove_personal_cap, get_campaign_block_contribution_count,
  set_campaign_block_contribution_count, remove_revenue_claimed, set_campaign,
  set_campaign_fee_recipient,
}
use proof_of_heart_stellar.Action.{
  Action, Done, pure, fail, gets, ◌>>=◌, ◌>>◌, modify, reject_if, when, require_auth, transfer,
  add_or_overflow, sub_or_overflow, mul_or_overflow, add_u32,
}
use proof_of_heart_stellar.Lifecycle.{
  get_admin, get_campaign_token, get_campaign_or_error, require_active_campaign, require_not_paused,
  increment_contributor_count, decrement_contributor_count,
}

unfoldable pub check_contribution_caps : Campaign → ℤ → ℤ → Action Done
check_contribution_caps campaign lifetime amount =
    when (ltb_ℤ (pos 0) campaign.max_contribution_per_user) do
      total ← add_or_overflow lifetime amount
      reject_if (ltb_ℤ campaign.max_contribution_per_user total) contribution_cap_exceeded

unfoldable pub check_transaction_contribution_cap : ℤ → Action Done
check_transaction_contribution_cap amount = do
  cap ← gets get_max_contribution_per_transaction
  reject_if (ltb_ℤ (pos 0) cap && ltb_ℤ cap amount) validation_failed

-- `if let Some(cap) = get_personal_cap(...)` of `contribute` and `batch_contribute`
unfoldable pub check_personal_cap : ℕ → Address → ℤ → ℤ → Action Done
check_personal_cap id contributor current amount s = elim (get_personal_cap id contributor s) [
  | none ↦ pure tt s
  | some cap ↦
      (do
        total ← add_or_overflow current amount
        reject_if (ltb_ℤ cap total) contribution_cap_exceeded)
        s
]

-- The burst count of `check_burst_guard`: contributions to a campaign in one ledger.
unfoldable pub check_burst_count : Host → ℕ → Action Done
check_burst_count env id = do
  last ← gets (get_campaign_block_contribution_count id)
  block_count ← (if env.sequence == last.0 then add_u32 last.1 1 else pure 1)
  modify (set_campaign_block_contribution_count id (env.sequence, block_count))
  when (ltb auto_pause_burst_threshold block_count)
      do modify (set_auto_paused true); fail contract_paused

unfoldable pub check_burst_guard : Host → ℕ → Campaign → ℤ → Action Done
check_burst_guard env id campaign amount = do
  amount_bps ← mul_or_overflow amount (pos bps_denominator)
  threshold ← mul_or_overflow campaign.funding_goal auto_pause_single_contribution_bps_threshold
  when (ltb_ℤ threshold amount_bps) do modify (set_auto_paused true); fail contract_paused
  raised_bps ← mul_or_overflow campaign.amount_raised (pos bps_denominator)
  burst_check_threshold ←
      mul_or_overflow campaign.funding_goal auto_pause_burst_check_min_raised_bps
  when (ltb_ℤ burst_check_threshold raised_bps) (check_burst_count env id)

-- The campaign comes back with its new totals, as the source's `&mut` argument does.
unfoldable pub update_contribution_accounting : ℕ → Address → Campaign → ℤ → ℤ → ℤ → Action Campaign
update_contribution_accounting id contributor campaign current lifetime amount = do
  when (eqb_ℤ campaign.amount_raised (pos 0))
      do admin ← get_admin; modify (set_campaign_fee_recipient id admin)
  raised ← add_or_overflow campaign.amount_raised amount
  effective ← add_or_overflow campaign.effective_amount_raised amount
  let updated = record campaign { amount_raised = raised; effective_amount_raised = effective }
  modify (set_campaign id updated)
  new_current ← add_or_overflow current amount
  modify (set_contribution id contributor new_current)
  new_lifetime ← add_or_overflow lifetime amount
  modify (set_lifetime_contribution id contributor new_lifetime)
  when (eqb_ℤ lifetime (pos 0)) (increment_contributor_count id)
  total_raised ← gets get_total_raised_global
  new_total ← add_or_overflow total_raised amount
  modify (set_total_raised_global new_total)
  pure updated

unfoldable pub check_open : Host → Address → Campaign → Action Done
check_open env contributor campaign = do
  reject_if (not campaign.is_verified) campaign_not_verified
  require_active_campaign campaign
  reject_if (contributor == campaign.creator) not_authorized
  reject_if (ltb campaign.deadline env.timestamp) deadline_passed

unfoldable pub check_limits : Host → ℕ → Address → ℤ → Campaign → ℤ → ℤ → Action Done
check_limits env id contributor amount campaign current lifetime = do
  check_transaction_contribution_cap amount
  check_contribution_caps campaign lifetime amount
  check_personal_cap id contributor current amount
  check_burst_guard env id campaign amount

-- The part that `contribute` and each item of `batch_contribute` have in common, from the test of
-- the amount to the accounting. It returns the contribution that stood before.
unfoldable pub accept_contribution : Host → ℕ → Address → ℤ → Action ℤ
accept_contribution env id contributor amount = do
  reject_if (leb_ℤ amount (pos 0)) contribution_must_be_positive
  campaign ← get_campaign_or_error id
  check_open env contributor campaign
  current ← gets (get_contribution id contributor)
  lifetime ← gets (get_lifetime_contribution id contributor)
  check_limits env id contributor amount campaign current lifetime
  _ ← update_contribution_accounting id contributor campaign current lifetime amount
  pure current

unfoldable pub is_new_top : ℕ → Address → ℤ → State → Bool
is_new_top id contributor new_total s = elim (get_top_contributor id s) [
  | none ↦ true
  | some top ↦ if top == contributor then true else ltb_ℤ (get_contribution id top s) new_total
]

-- The bookkeeping of `contribute` after the accounting, and the transfer.
unfoldable pub settle_contribution : Host → ℕ → Address → ℤ → ℤ → Action Done
settle_contribution env id contributor amount current = do
  new_total ← add_or_overflow current amount
  new_top ← gets (is_new_top id contributor new_total)
  when new_top (modify (set_top_contributor id contributor))
  modify (set_last_contribution_time id env.timestamp)
  token ← get_campaign_token id
  transfer env token contributor env.contract_address amount

unfoldable pub contribute : Host → ℕ → Address → ℤ → Action Done
contribute env id contributor amount = do
  require_auth env contributor
  require_not_paused
  current ← accept_contribution env id contributor amount
  settle_contribution env id contributor amount current

unfoldable pub claim_refund : Host → ℕ → Address → Action Done
claim_refund env id contributor = do
  require_auth env contributor
  require_not_paused
  campaign ← get_campaign_or_error id
  let failed_due_to_goal =
      ltb campaign.deadline env.timestamp && ltb_ℤ campaign.amount_raised campaign.funding_goal
  reject_if (not (campaign.is_cancelled || failed_due_to_goal)) validation_failed
  amount ← gets (get_contribution id contributor)
  reject_if (eqb_ℤ amount (pos 0)) no_funds_to_withdraw
  modify (remove_contribution id contributor)
  modify (remove_revenue_claimed id contributor)
  modify (remove_personal_cap id contributor)
  decrement_contributor_count id
  effective ← sub_or_overflow campaign.effective_amount_raised amount
  modify (set_campaign id (record campaign { effective_amount_raised = effective }))
  when (not campaign.is_cancelled) do
    total_raised ← gets get_total_raised_global
    new_total ← sub_or_overflow total_raised amount
    modify (set_total_raised_global new_total)
  token ← get_campaign_token id
  transfer env token env.contract_address contributor amount

unfoldable pub set_personal_cap_fn : Host → ℕ → Address → ℤ → Action Done
set_personal_cap_fn env id contributor amount = do
  require_auth env contributor
  reject_if (ltb_ℤ amount (pos 0)) validation_failed
  lifetime ← gets (get_lifetime_contribution id contributor)
  reject_if (ltb_ℤ amount lifetime) validation_failed
  campaign ← get_campaign_or_error id
  require_active_campaign campaign
  reject_if
      (ltb_ℤ (pos 0) campaign.max_contribution_per_user
        && ltb_ℤ campaign.max_contribution_per_user amount)
      validation_failed
  modify (set_personal_cap id contributor amount)

unfoldable pub remove_personal_cap_fn : Host → ℕ → Address → Action Done
remove_personal_cap_fn env id contributor = do
  require_auth env contributor
  campaign ← get_campaign_or_error id
  require_active_campaign campaign
  cap ← gets (get_personal_cap id contributor)
  reject_if (not (is_some cap)) personal_cap_not_found
  modify (remove_personal_cap id contributor)
