-- ===== src/Safety/Paused.antt =====
-- Each call that asks for a contract that is not paused is refused while it is paused.
use proof_of_heart_stellar.Prelude.{ℕ, ◌≡◌, Bool, true, List, arith}
use proof_of_heart_stellar.Prelude.Int.{ℤ}
use proof_of_heart_stellar.Types.{Address, Text, CreateCampaignParams, Milestone}
use proof_of_heart_stellar.Host.{Host}
use proof_of_heart_stellar.Store.{State}
use proof_of_heart_stellar.Lifecycle.{is_paused}
use proof_of_heart_stellar.Campaigns.Cancel.{cancel_campaign, admin_cancel_campaign}
use proof_of_heart_stellar.Campaigns.Create.{
  check_params, create_campaign_inner, create_campaign, create_campaign_with_token,
}
use proof_of_heart_stellar.Campaigns.Transfer.{
  initiate_campaign_transfer, accept_campaign_transfer, cancel_campaign_transfer,
}
use proof_of_heart_stellar.Campaigns.Update.{
  update_campaign, update_campaign_description, extend_campaign_deadline,
}
use proof_of_heart_stellar.Campaigns.Withdraw.{withdraw_funds, withdraw_reserve, set_vesting_params}
use proof_of_heart_stellar.Contributions.{contribute, claim_refund}
use proof_of_heart_stellar.Contributions.Batch.{batch_contribute}
use proof_of_heart_stellar.Milestones.{
  set_milestones, verify_milestone, check_milestone_claim, claim_milestone,
}
use proof_of_heart_stellar.Moderation.{
  censure_comment, uncensure_comment, censure_comment_by_admin, uncensure_comment_by_admin,
}
use proof_of_heart_stellar.Revenue.{deposit_revenue, claim_revenue, claim_creator_revenue}
use proof_of_heart_stellar.Safety.{Refused}
use proof_of_heart_stellar.Voting.{
  vote_on_campaign, verify_campaign, verify_campaigns, verify_campaign_with_votes,
}

pub create_campaign_while_paused :
    (env : Host) (s : State) (params : CreateCampaignParams)
    → is_paused s ≡ true
    → Refused (create_campaign env params s)
unfolding create_campaign create_campaign_inner check_params
create_campaign_while_paused env s params h = ground arith

pub create_campaign_with_token_while_paused :
    (env : Host) (s : State) (params : CreateCampaignParams) (a : Address)
    → is_paused s ≡ true
    → Refused (create_campaign_with_token env params a s)
unfolding create_campaign_with_token create_campaign_inner check_params
create_campaign_with_token_while_paused env s params a h = ground arith

pub contribute_while_paused :
    (env : Host) (s : State) (n : ℕ) (a : Address) (amount : ℤ)
    → is_paused s ≡ true
    → Refused (contribute env n a amount s)
unfolding contribute
contribute_while_paused env s n a amount h = ground arith

pub claim_refund_while_paused :
    (env : Host) (s : State) (n : ℕ) (a : Address)
    → is_paused s ≡ true
    → Refused (claim_refund env n a s)
unfolding claim_refund
claim_refund_while_paused env s n a h = ground arith

pub batch_contribute_while_paused :
    (env : Host) (s : State) (a : Address) (items : List (ℕ × ℤ))
    → is_paused s ≡ true
    → Refused (batch_contribute env a items s)
unfolding batch_contribute
batch_contribute_while_paused env s a items h = ground arith

pub withdraw_funds_while_paused :
    (env : Host) (s : State) (n : ℕ) → is_paused s ≡ true → Refused (withdraw_funds env n s)
unfolding withdraw_funds
withdraw_funds_while_paused env s n h = ground arith

pub withdraw_reserve_while_paused :
    (env : Host) (s : State) (n : ℕ) → is_paused s ≡ true → Refused (withdraw_reserve env n s)
unfolding withdraw_reserve
withdraw_reserve_while_paused env s n h = ground arith

pub set_vesting_params_while_paused :
    (env : Host) (s : State) (a : Address) (n : ℕ) (n' : ℕ)
    → is_paused s ≡ true
    → Refused (set_vesting_params env a n n' s)
unfolding set_vesting_params
set_vesting_params_while_paused env s a n n' h = ground arith

pub set_milestones_while_paused :
    (env : Host) (s : State) (n : ℕ) (milestones : List Milestone)
    → is_paused s ≡ true
    → Refused (set_milestones env n milestones s)
unfolding set_milestones
set_milestones_while_paused env s n milestones h = ground arith

pub verify_milestone_while_paused :
    (env : Host) (s : State) (a : Address) (n : ℕ) (n' : ℕ)
    → is_paused s ≡ true
    → Refused (verify_milestone env a n n' s)
unfolding verify_milestone
verify_milestone_while_paused env s a n n' h = ground arith

pub claim_milestone_while_paused :
    (env : Host) (s : State) (n : ℕ) (n' : ℕ)
    → is_paused s ≡ true
    → Refused (claim_milestone env n n' s)
unfolding claim_milestone check_milestone_claim
claim_milestone_while_paused env s n n' h = ground arith

pub cancel_campaign_while_paused :
    (env : Host) (s : State) (n : ℕ) → is_paused s ≡ true → Refused (cancel_campaign env n s)
unfolding cancel_campaign
cancel_campaign_while_paused env s n h = ground arith

pub admin_cancel_campaign_while_paused :
    (env : Host) (s : State) (a : Address) (n : ℕ) (text : Text)
    → is_paused s ≡ true
    → Refused (admin_cancel_campaign env a n text s)
unfolding admin_cancel_campaign
admin_cancel_campaign_while_paused env s a n text h = ground arith

pub update_campaign_while_paused :
    (env : Host) (s : State) (n : ℕ) (text : Text) (text' : Text)
    → is_paused s ≡ true
    → Refused (update_campaign env n text text' s)
unfolding update_campaign
update_campaign_while_paused env s n text text' h = ground arith

pub update_campaign_description_while_paused :
    (env : Host) (s : State) (n : ℕ) (text : Text)
    → is_paused s ≡ true
    → Refused (update_campaign_description env n text s)
unfolding update_campaign_description
update_campaign_description_while_paused env s n text h = ground arith

pub extend_campaign_deadline_while_paused :
    (env : Host) (s : State) (n : ℕ) (n' : ℕ)
    → is_paused s ≡ true
    → Refused (extend_campaign_deadline env n n' s)
unfolding extend_campaign_deadline
extend_campaign_deadline_while_paused env s n n' h = ground arith

pub initiate_campaign_transfer_while_paused :
    (env : Host) (s : State) (n : ℕ) (a : Address)
    → is_paused s ≡ true
    → Refused (initiate_campaign_transfer env n a s)
unfolding initiate_campaign_transfer
initiate_campaign_transfer_while_paused env s n a h = ground arith

pub accept_campaign_transfer_while_paused :
    (env : Host) (s : State) (n : ℕ)
    → is_paused s ≡ true
    → Refused (accept_campaign_transfer env n s)
unfolding accept_campaign_transfer
accept_campaign_transfer_while_paused env s n h = ground arith

pub cancel_campaign_transfer_while_paused :
    (env : Host) (s : State) (n : ℕ)
    → is_paused s ≡ true
    → Refused (cancel_campaign_transfer env n s)
unfolding cancel_campaign_transfer
cancel_campaign_transfer_while_paused env s n h = ground arith

pub deposit_revenue_while_paused :
    (env : Host) (s : State) (n : ℕ) (amount : ℤ)
    → is_paused s ≡ true
    → Refused (deposit_revenue env n amount s)
unfolding deposit_revenue
deposit_revenue_while_paused env s n amount h = ground arith

pub claim_revenue_while_paused :
    (env : Host) (s : State) (n : ℕ) (a : Address)
    → is_paused s ≡ true
    → Refused (claim_revenue env n a s)
unfolding claim_revenue
claim_revenue_while_paused env s n a h = ground arith

pub claim_creator_revenue_while_paused :
    (env : Host) (s : State) (n : ℕ) → is_paused s ≡ true → Refused (claim_creator_revenue env n s)
unfolding claim_creator_revenue
claim_creator_revenue_while_paused env s n h = ground arith

pub vote_on_campaign_while_paused :
    (env : Host) (s : State) (n : ℕ) (a : Address) (b : Bool)
    → is_paused s ≡ true
    → Refused (vote_on_campaign env n a b s)
unfolding vote_on_campaign
vote_on_campaign_while_paused env s n a b h = ground arith

pub verify_campaign_while_paused :
    (env : Host) (s : State) (n : ℕ) → is_paused s ≡ true → Refused (verify_campaign env n s)
unfolding verify_campaign
verify_campaign_while_paused env s n h = ground arith

pub verify_campaigns_while_paused :
    (env : Host) (s : State) (ids : List ℕ)
    → is_paused s ≡ true
    → Refused (verify_campaigns env ids s)
unfolding verify_campaigns
verify_campaigns_while_paused env s ids h = ground arith

pub verify_campaign_with_votes_while_paused :
    (env : Host) (s : State) (n : ℕ)
    → is_paused s ≡ true
    → Refused (verify_campaign_with_votes env n s)
unfolding verify_campaign_with_votes
verify_campaign_with_votes_while_paused env s n h = ground arith

pub censure_comment_while_paused :
    (env : Host) (s : State) (n : ℕ) (n' : ℕ) (text : Text)
    → is_paused s ≡ true
    → Refused (censure_comment_by_admin env n n' text s)
unfolding censure_comment_by_admin censure_comment
censure_comment_while_paused env s n n' text h = ground arith

pub uncensure_comment_while_paused :
    (env : Host) (s : State) (n : ℕ) (n' : ℕ)
    → is_paused s ≡ true
    → Refused (uncensure_comment_by_admin env n n' s)
unfolding uncensure_comment_by_admin uncensure_comment
uncensure_comment_while_paused env s n n' h = ground arith
