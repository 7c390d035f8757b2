-- ===== src/Admin.antt =====
-- Platform administration: src/admin.rs.
pub mod Settings
use proof_of_heart_stellar.Prelude.{
  ltb, ◌==◌, is_some, is_empty, contains, ℕ, true, false, not, ◌&&◌, ◌||◌, List,
}
use proof_of_heart_stellar.Prelude.Int.{pos, eqb_ℤ}
use proof_of_heart_stellar.Prelude.Words.{checked_add_u64}
use proof_of_heart_stellar.Types.{Address}
use proof_of_heart_stellar.Types.Limits.{
  token_update_delay_secs, contract_version, campaign_funding_goal_min, platform_fee_max_bps,
  platform_fee_absolute_max_bps, default_min_votes_quorum, default_approval_threshold_bps,
}
use proof_of_heart_stellar.Types.Error.{
  not_authorized, validation_failed, already_initialized, no_transfer_pending, invalid_new_owner,
  invalid_token_contract, invalid_platform_fee,
}
use proof_of_heart_stellar.Host.{Host}
use proof_of_heart_stellar.Store.{
  is_initialized, set_initialized, set_admin, get_pending_admin, set_pending_admin,
  remove_pending_admin, set_token, set_platform_fee, set_max_contribution_per_transaction,
  set_min_campaign_funding_goal, set_version, set_paused, get_auto_paused, set_auto_paused,
  set_withdraw_release_delay_days, set_withdraw_reserve_percentage, get_pending_token,
  set_pending_token, remove_pending_token, get_pending_token_release, set_pending_token_release,
  get_token_update_delay_secs, get_emergency_pause_signers, set_emergency_pause_signers,
  set_min_votes_quorum, set_approval_threshold_bps, get_total_raised_global,
  set_total_raised_global, set_campaign_count, get_active_campaign_count,
}
use proof_of_heart_stellar.Action.{
  Action, Done, gets, ok_or, ◌>>=◌, ◌>>◌, modify, reject_if, require_auth,
}
use proof_of_heart_stellar.Lifecycle.{
  get_admin, get_token, get_campaign_or_error, assert_admin, require_active_campaign,
}

-- `try_invoke_contract(token, "decimals")`, with either failure mapped to one error
abbrev pub check_token : Host → Address → Action Done
check_token env token = reject_if (not (env.has_decimals token)) invalid_token_contract

unfoldable pub init : Host → Address → Address → ℕ → Action Done
init env admin token platform_fee = do
  initialized ← gets is_initialized
  reject_if initialized already_initialized
  require_auth env admin
  reject_if (ltb platform_fee_absolute_max_bps platform_fee) invalid_platform_fee
  reject_if (ltb platform_fee_max_bps platform_fee) invalid_platform_fee
  check_token env token
  modify (set_admin admin)
  modify remove_pending_admin
  modify (set_token token)
  modify set_initialized
  modify (set_platform_fee platform_fee)
  modify (set_campaign_count 0)
  modify (set_total_raised_global (pos 0))
  modify (set_version contract_version)
  modify (set_min_campaign_funding_goal campaign_funding_goal_min)
  modify (set_min_votes_quorum default_min_votes_quorum)
  modify (set_approval_threshold_bps default_approval_threshold_bps)
  modify (set_withdraw_release_delay_days 0)
  modify (set_withdraw_reserve_percentage 0)
  modify (set_max_contribution_per_transaction (pos 0))

-- The stored admin must sign: the head of the entry points that name no caller.
abbrev pub require_admin : Host → Action Done
require_admin env = do admin ← get_admin; assert_admin env admin

unfoldable pub pause : Host → Action Done
pause env = do require_admin env; modify (set_paused true)

unfoldable pub unpause : Host → Action Done
unpause env = do require_admin env; modify (set_paused false); modify (set_auto_paused false)

unfoldable pub set_emergency_signers : Host → Address → List Address → Action Done
set_emergency_signers env admin signers = do
  assert_admin env admin
  reject_if (is_empty signers) validation_failed
  modify (set_emergency_pause_signers signers)

unfoldable pub emergency_pause : Host → Address → Action Done
emergency_pause env caller = do
  require_auth env caller
  signers ← gets get_emergency_pause_signers
  reject_if (is_empty signers) not_authorized
  reject_if (not (contains signers caller)) not_authorized
  modify (set_paused true)

unfoldable pub resume_campaign : Host → ℕ → Address → Action Done
resume_campaign env id caller = do
  require_auth env caller
  auto_paused ← gets get_auto_paused
  reject_if (not auto_paused) validation_failed
  campaign ← get_campaign_or_error id
  require_active_campaign campaign
  admin ← get_admin
  reject_if (not (caller == campaign.creator) && not (caller == admin)) not_authorized
  modify (set_auto_paused false)

unfoldable pub initiate_admin_transfer : Host → Address → Address → Action Done
initiate_admin_transfer env admin new_admin = do
  assert_admin env admin
  current_admin ← get_admin
  reject_if (new_admin == current_admin) invalid_new_owner
  modify (set_pending_admin new_admin)

-- `update_admin` of lib.rs.
unfoldable pub update_admin : Host → Address → Action Done
update_admin env new_admin = do admin ← get_admin; initiate_admin_transfer env admin new_admin

unfoldable pub accept_admin_transfer : Host → Action Done
accept_admin_transfer env = do
  found ← gets get_pending_admin
  pending_admin ← ok_or no_transfer_pending found
  require_auth env pending_admin
  _ ← get_admin
  modify (set_admin pending_admin)
  modify remove_pending_admin

unfoldable pub cancel_admin_transfer : Host → Address → Action Done
cancel_admin_transfer env admin = do
  assert_admin env admin
  found ← gets get_pending_admin
  reject_if (not (is_some found)) no_transfer_pending
  modify remove_pending_admin

unfoldable pub propose_token_update : Host → Address → Address → Action Done
propose_token_update env admin new_token = do
  assert_admin env admin
  check_token env new_token
  delay_secs ← gets (get_token_update_delay_secs token_update_delay_secs)
  release_after ← ok_or validation_failed (checked_add_u64 env.timestamp delay_secs)
  modify (set_pending_token new_token)
  modify (set_pending_token_release release_after)

unfoldable pub accept_token_update : Host → Address → Action Done
accept_token_update env admin = do
  assert_admin env admin
  found ← gets get_pending_token
  new_token ← ok_or validation_failed found
  release ← gets get_pending_token_release
  release_after ← ok_or validation_failed release
  reject_if (ltb env.timestamp release_after) validation_failed
  active_count ← gets get_active_campaign_count
  total_raised ← gets get_total_raised_global
  reject_if (ltb 0 active_count || not (eqb_ℤ total_raised (pos 0))) validation_failed
  _ ← get_token
  modify (set_token new_token)
  modify remove_pending_token

unfoldable pub cancel_token_update : Host → Address → Action Done
cancel_token_update env admin = do
  assert_admin env admin
  found ← gets get_pending_token
  reject_if (not (is_some found)) validation_failed
  modify remove_pending_token
