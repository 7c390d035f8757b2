-- ===== src/Safety/UnsignedAdmin.antt =====
-- Each other call of the administration is refused unless the party that it asks for has signed.
use proof_of_heart_stellar.Prelude.{ℕ, ◌≡◌, false, some, List, arith}
use proof_of_heart_stellar.Types.{Address, Text}
use proof_of_heart_stellar.Host.{Host}
use proof_of_heart_stellar.Store.{stored_admin, get_pending_admin, State}
use proof_of_heart_stellar.Admin.{
  init, pause, unpause, set_emergency_signers, emergency_pause, resume_campaign,
  initiate_admin_transfer, update_admin, accept_admin_transfer, cancel_admin_transfer,
  propose_token_update, accept_token_update, cancel_token_update,
}
use proof_of_heart_stellar.Campaigns.Cancel.{admin_cancel_campaign}
use proof_of_heart_stellar.Campaigns.Withdraw.{set_vesting_params}
use proof_of_heart_stellar.Milestones.{verify_milestone}
use proof_of_heart_stellar.Moderation.{
  censure_comment, uncensure_comment, censure_comment_by_admin, uncensure_comment_by_admin,
}
use proof_of_heart_stellar.Safety.{Refused}
use proof_of_heart_stellar.Voting.{verify_campaign, verify_campaigns}

pub init_unsigned :
    (env : Host) (s : State) (a : Address) (a' : Address) (n : ℕ) {p : Address}
    → some a ≡ some p
    → env.is_authorized p ≡ false
    → Refused (init env a a' n s)
unfolding init
init_unsigned env s a a' n h q = ground arith

pub set_vesting_params_unsigned :
    (env : Host) (s : State) (a : Address) (n : ℕ) (n' : ℕ) {p : Address}
    → stored_admin s ≡ some p
    → env.is_authorized p ≡ false
    → Refused (set_vesting_params env a n n' s)
unfolding set_vesting_params
set_vesting_params_unsigned env s a n n' h q = ground arith

pub verify_milestone_unsigned :
    (env : Host) (s : State) (a : Address) (n : ℕ) (n' : ℕ) {p : Address}
    → stored_admin s ≡ some p
    → env.is_authorized p ≡ false
    → Refused (verify_milestone env a n n' s)
unfolding verify_milestone
verify_milestone_unsigned env s a n n' h q = ground arith

pub admin_cancel_campaign_unsigned :
    (env : Host) (s : State) (a : Address) (n : ℕ) (text : Text) {p : Address}
    → stored_admin s ≡ some p
    → env.is_authorized p ≡ false
    → Refused (admin_cancel_campaign env a n text s)
unfolding admin_cancel_campaign
admin_cancel_campaign_unsigned env s a n text h q = ground arith

pub verify_campaign_unsigned :
    (env : Host) (s : State) (n : ℕ) {p : Address}
    → stored_admin s ≡ some p
    → env.is_authorized p ≡ false
    → Refused (verify_campaign env n s)
unfolding verify_campaign
verify_campaign_unsigned env s n h q = ground arith

pub verify_campaigns_unsigned :
    (env : Host) (s : State) (ids : List ℕ) {p : Address}
    → stored_admin s ≡ some p
    → env.is_authorized p ≡ false
    → Refused (verify_campaigns env ids s)
unfolding verify_campaigns
verify_campaigns_unsigned env s ids h q = ground arith

pub resume_campaign_unsigned :
    (env : Host) (s : State) (n : ℕ) (a : Address) {p : Address}
    → some a ≡ some p
    → env.is_authorized p ≡ false
    → Refused (resume_campaign env n a s)
unfolding resume_campaign
resume_campaign_unsigned env s n a h q = ground arith

pub pause_unsigned :
    (env : Host) (s : State) {p : Address}
    → stored_admin s ≡ some p
    → env.is_authorized p ≡ false
    → Refused (pause env s)
unfolding pause
pause_unsigned env s h q = ground arith

pub unpause_unsigned :
    (env : Host) (s : State) {p : Address}
    → stored_admin s ≡ some p
    → env.is_authorized p ≡ false
    → Refused (unpause env s)
unfolding unpause
unpause_unsigned env s h q = ground arith

pub emergency_pause_unsigned :
    (env : Host) (s : State) (a : Address) {p : Address}
    → some a ≡ some p
    → env.is_authorized p ≡ false
    → Refused (emergency_pause env a s)
unfolding emergency_pause
emergency_pause_unsigned env s a h q = ground arith

pub set_emergency_pause_signers_unsigned :
    (env : Host) (s : State) (a : Address) (signers : List Address) {p : Address}
    → stored_admin s ≡ some p
    → env.is_authorized p ≡ false
    → Refused (set_emergency_signers env a signers s)
unfolding set_emergency_signers
set_emergency_pause_signers_unsigned env s a signers h q = ground arith

pub propose_token_update_unsigned :
    (env : Host) (s : State) (a : Address) (a' : Address) {p : Address}
    → stored_admin s ≡ some p
    → env.is_authorized p ≡ false
    → Refused (propose_token_update env a a' s)
unfolding propose_token_update
propose_token_update_unsigned env s a a' h q = ground arith

pub accept_token_update_unsigned :
    (env : Host) (s : State) (a : Address) {p : Address}
    → stored_admin s ≡ some p
    → env.is_authorized p ≡ false
    → Refused (accept_token_update env a s)
unfolding accept_token_update
accept_token_update_unsigned env s a h q = ground arith

pub cancel_token_update_unsigned :
    (env : Host) (s : State) (a : Address) {p : Address}
    → stored_admin s ≡ some p
    → env.is_authorized p ≡ false
    → Refused (cancel_token_update env a s)
unfolding cancel_token_update
cancel_token_update_unsigned env s a h q = ground arith

pub initiate_admin_transfer_unsigned :
    (env : Host) (s : State) (a : Address) (a' : Address) {p : Address}
    → stored_admin s ≡ some p
    → env.is_authorized p ≡ false
    → Refused (initiate_admin_transfer env a a' s)
unfolding initiate_admin_transfer
initiate_admin_transfer_unsigned env s a a' h q = ground arith

pub accept_admin_transfer_unsigned :
    (env : Host) (s : State) {p : Address}
    → get_pending_admin s ≡ some p
    → env.is_authorized p ≡ false
    → Refused (accept_admin_transfer env s)
unfolding accept_admin_transfer
accept_admin_transfer_unsigned env s h q = ground arith

pub cancel_admin_transfer_unsigned :
    (env : Host) (s : State) (a : Address) {p : Address}
    → stored_admin s ≡ some p
    → env.is_authorized p ≡ false
    → Refused (cancel_admin_transfer env a s)
unfolding cancel_admin_transfer
cancel_admin_transfer_unsigned env s a h q = ground arith

pub update_admin_unsigned :
    (env : Host) (s : State) (a : Address) {p : Address}
    → stored_admin s ≡ some p
    → env.is_authorized p ≡ false
    → Refused (update_admin env a s)
unfolding update_admin initiate_admin_transfer
update_admin_unsigned env s a h q = ground arith

pub censure_comment_unsigned :
    (env : Host) (s : State) (n : ℕ) (n' : ℕ) (text : Text) {p : Address}
    → stored_admin s ≡ some p
    → env.is_authorized p ≡ false
    → Refused (censure_comment_by_admin env n n' text s)
unfolding censure_comment_by_admin censure_comment
censure_comment_unsigned env s n n' text h q = ground arith

pub uncensure_comment_unsigned :
    (env : Host) (s : State) (n : ℕ) (n' : ℕ) {p : Address}
    → stored_admin s ≡ some p
    → env.is_authorized p ≡ false
    → Refused (uncensure_comment_by_admin env n n' s)
unfolding uncensure_comment_by_admin uncensure_comment
uncensure_comment_unsigned env s n n' h q = ground arith
