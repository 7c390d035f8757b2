-- ===== src/Safety/Unsigned.antt =====
-- Each call for a campaign or for an address is refused unless the party that it asks for has
-- signed.
use proof_of_heart_stellar.Prelude.{ℕ, ◌≡◌, Bool, false, Option, none, some, List, arith}
use proof_of_heart_stellar.Prelude.Int.{ℤ}
use proof_of_heart_stellar.Types.{Address, Text, Campaign, CreateCampaignParams, Milestone}
use proof_of_heart_stellar.Host.{Host}
use proof_of_heart_stellar.Store.{State, get_campaign}
use proof_of_heart_stellar.Bookmarks.{
  save_campaign, remove_saved_campaign, batch_save_campaigns, clear_saved_campaigns,
}
use proof_of_heart_stellar.Campaigns.Cancel.{cancel_campaign}
use proof_of_heart_stellar.Campaigns.Create.{
  check_params, create_campaign_inner, create_campaign, create_campaign_with_token,
}
use proof_of_heart_stellar.Campaigns.Transfer.{
  initiate_campaign_transfer, accept_campaign_transfer, cancel_campaign_transfer,
}
use proof_of_heart_stellar.Campaigns.Update.{
  update_campaign, update_campaign_description, extend_campaign_deadline,
}
use proof_of_heart_stellar.Campaigns.Withdraw.{withdraw_funds, withdraw_reserve}
use proof_of_heart_stellar.Contributions.{
  contribute, claim_refund, set_personal_cap_fn, remove_personal_cap_fn,
}
use proof_of_heart_stellar.Contributions.Batch.{batch_contribute}
use proof_of_heart_stellar.Milestones.{set_milestones, check_milestone_claim, claim_milestone}
use proof_of_heart_stellar.Revenue.{deposit_revenue, claim_revenue, claim_creator_revenue}
use proof_of_heart_stellar.Safety.{Refused}
use proof_of_heart_stellar.Voting.{cast_vote, vote_on_campaign}

abbrev pub creator_of : Option Campaign → Option Address
creator_of none = none
creator_of (some c) = some c.creator

abbrev pub heir_of : Option Campaign → Option Address
heir_of none = none
heir_of (some c) = c.pending_creator

pub create_campaign_unsigned :
    (env : Host) (s : State) (params : CreateCampaignParams) {p : Address}
    → some params.creator ≡ some p
    → env.is_authorized p ≡ false
    → Refused (create_campaign env params s)
unfolding create_campaign create_campaign_inner check_params
create_campaign_unsigned env s params h q = ground arith

pub create_campaign_with_token_unsigned :
    (env : Host) (s : State) (params : CreateCampaignParams) (a : Address) {p : Address}
    → some params.creator ≡ some p
    → env.is_authorized p ≡ false
    → Refused (create_campaign_with_token env params a s)
unfolding create_campaign_with_token create_campaign_inner check_params
create_campaign_with_token_unsigned env s params a h q = ground arith

pub contribute_unsigned :
    (env : Host) (s : State) (n : ℕ) (a : Address) (amount : ℤ) {p : Address}
    → some a ≡ some p
    → env.is_authorized p ≡ false
    → Refused (contribute env n a amount s)
unfolding contribute
contribute_unsigned env s n a amount h q = ground arith

pub claim_refund_unsigned :
    (env : Host) (s : State) (n : ℕ) (a : Address) {p : Address}
    → some a ≡ some p
    → env.is_authorized p ≡ false
    → Refused (claim_refund env n a s)
unfolding claim_refund
claim_refund_unsigned env s n a h q = ground arith

pub batch_contribute_unsigned :
    (env : Host) (s : State) (a : Address) (items : List (ℕ × ℤ)) {p : Address}
    → some a ≡ some p
    → env.is_authorized p ≡ false
    → Refused (batch_contribute env a items s)
unfolding batch_contribute
batch_contribute_unsigned env s a items h q = ground arith

pub withdraw_funds_unsigned :
    (env : Host) (s : State) (n : ℕ) {p : Address}
    → creator_of (get_campaign n s) ≡ some p
    → env.is_authorized p ≡ false
    → Refused (withdraw_funds env n s)
unfolding withdraw_funds
withdraw_funds_unsigned env s n h q = ground arith

pub withdraw_reserve_unsigned :
    (env : Host) (s : State) (n : ℕ) {p : Address}
    → creator_of (get_campaign n s) ≡ some p
    → env.is_authorized p ≡ false
    → Refused (withdraw_reserve env n s)
unfolding withdraw_reserve
withdraw_reserve_unsigned env s n h q = ground arith

pub set_milestones_unsigned :
    (env : Host) (s : State) (n : ℕ) (milestones : List Milestone) {p : Address}
    → creator_of (get_campaign n s) ≡ some p
    → env.is_authorized p ≡ false
    → Refused (set_milestones env n milestones s)
unfolding set_milestones
set_milestones_unsigned env s n milestones h q = ground arith

pub claim_milestone_unsigned :
    (env : Host) (s : State) (n : ℕ) (n' : ℕ) {p : Address}
    → creator_of (get_campaign n s) ≡ some p
    → env.is_authorized p ≡ false
    → Refused (claim_milestone env n n' s)
unfolding claim_milestone check_milestone_claim
claim_milestone_unsigned env s n n' h q = ground arith

pub cancel_campaign_unsigned :
    (env : Host) (s : State) (n : ℕ) {p : Address}
    → creator_of (get_campaign n s) ≡ some p
    → env.is_authorized p ≡ false
    → Refused (cancel_campaign env n s)
unfolding cancel_campaign
cancel_campaign_unsigned env s n h q = ground arith

pub update_campaign_unsigned :
    (env : Host) (s : State) (n : ℕ) (text : Text) (text' : Text) {p : Address}
    → creator_of (get_campaign n s) ≡ some p
    → env.is_authorized p ≡ false
    → Refused (update_campaign env n text text' s)
unfolding update_campaign
update_campaign_unsigned env s n text text' h q = ground arith

pub update_campaign_description_unsigned :
    (env : Host) (s : State) (n : ℕ) (text : Text) {p : Address}
    → creator_of (get_campaign n s) ≡ some p
    → env.is_authorized p ≡ false
    → Refused (update_campaign_description env n text s)
unfolding update_campaign_description
update_campaign_description_unsigned env s n text h q = ground arith

pub extend_campaign_deadline_unsigned :
    (env : Host) (s : State) (n : ℕ) (n' : ℕ) {p : Address}
    → creator_of (get_campaign n s) ≡ some p
    → env.is_authorized p ≡ false
    → Refused (extend_campaign_deadline env n n' s)
unfolding extend_campaign_deadline
extend_campaign_deadline_unsigned env s n n' h q = ground arith

pub initiate_campaign_transfer_unsigned :
    (env : Host) (s : State) (n : ℕ) (a : Address) {p : Address}
    → creator_of (get_campaign n s) ≡ some p
    → env.is_authorized p ≡ false
    → Refused (initiate_campaign_transfer env n a s)
unfolding initiate_campaign_transfer
initiate_campaign_transfer_unsigned env s n a h q = ground arith

pub accept_campaign_transfer_unsigned :
    (env : Host) (s : State) (n : ℕ) {p : Address}
    → heir_of (get_campaign n s) ≡ some p
    → env.is_authorized p ≡ false
    → Refused (accept_campaign_transfer env n s)
unfolding accept_campaign_transfer
accept_campaign_transfer_unsigned env s n h q = ground arith

pub cancel_campaign_transfer_unsigned :
    (env : Host) (s : State) (n : ℕ) {p : Address}
    → creator_of (get_campaign n s) ≡ some p
    → env.is_authorized p ≡ false
    → Refused (cancel_campaign_transfer env n s)
unfolding cancel_campaign_transfer
cancel_campaign_transfer_unsigned env s n h q = ground arith

pub deposit_revenue_unsigned :
    (env : Host) (s : State) (n : ℕ) (amount : ℤ) {p : Address}
    → creator_of (get_campaign n s) ≡ some p
    → env.is_authorized p ≡ false
    → Refused (deposit_revenue env n amount s)
unfolding deposit_revenue
deposit_revenue_unsigned env s n amount h q = ground arith

pub claim_revenue_unsigned :
    (env : Host) (s : State) (n : ℕ) (a : Address) {p : Address}
    → some a ≡ some p
    → env.is_authorized p ≡ false
    → Refused (claim_revenue env n a s)
unfolding claim_revenue
claim_revenue_unsigned env s n a h q = ground arith

pub claim_creator_revenue_unsigned :
    (env : Host) (s : State) (n : ℕ) {p : Address}
    → creator_of (get_campaign n s) ≡ some p
    → env.is_authorized p ≡ false
    → Refused (claim_creator_revenue env n s)
unfolding claim_creator_revenue
claim_creator_revenue_unsigned env s n h q = ground arith

pub vote_on_campaign_unsigned :
    (env : Host) (s : State) (n : ℕ) (a : Address) (b : Bool) {p : Address}
    → some a ≡ some p
    → env.is_authorized p ≡ false
    → Refused (vote_on_campaign env n a b s)
unfolding vote_on_campaign cast_vote
vote_on_campaign_unsigned env s n a b h q = ground arith

pub set_personal_cap_unsigned :
    (env : Host) (s : State) (n : ℕ) (a : Address) (amount : ℤ) {p : Address}
    → some a ≡ some p
    → env.is_authorized p ≡ false
    → Refused (set_personal_cap_fn env n a amount s)
unfolding set_personal_cap_fn
set_personal_cap_unsigned env s n a amount h q = ground arith

pub remove_personal_cap_unsigned :
    (env : Host) (s : State) (n : ℕ) (a : Address) {p : Address}
    → some a ≡ some p
    → env.is_authorized p ≡ false
    → Refused (remove_personal_cap_fn env n a s)
unfolding remove_personal_cap_fn
remove_personal_cap_unsigned env s n a h q = ground arith

pub save_campaign_unsigned :
    (env : Host) (s : State) (a : Address) (n : ℕ) {p : Address}
    → some a ≡ some p
    → env.is_authorized p ≡ false
    → Refused (save_campaign env a n s)
unfolding save_campaign
save_campaign_unsigned env s a n h q = ground arith

pub batch_save_campaigns_unsigned :
    (env : Host) (s : State) (a : Address) (ids : List ℕ) {p : Address}
    → some a ≡ some p
    → env.is_authorized p ≡ false
    → Refused (batch_save_campaigns env a ids s)
unfolding batch_save_campaigns
batch_save_campaigns_unsigned env s a ids h q = ground arith

pub remove_saved_campaign_unsigned :
    (env : Host) (s : State) (a : Address) (n : ℕ) {p : Address}
    → some a ≡ some p
    → env.is_authorized p ≡ false
    → Refused (remove_saved_campaign env a n s)
unfolding remove_saved_campaign
remove_saved_campaign_unsigned env s a n h q = ground arith

pub clear_saved_campaigns_unsigned :
    (env : Host) (s : State) (a : Address) {p : Address}
    → some a ≡ some p
    → env.is_authorized p ≡ false
    → Refused (clear_saved_campaigns env a s)
unfolding clear_saved_campaigns
clear_saved_campaigns_unsigned env s a h q = ground arith
