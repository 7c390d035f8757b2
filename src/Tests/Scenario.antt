-- ===== src/Tests/Scenario.antt =====
-- A host, and the states that a few calls reach.
use proof_of_heart_stellar.Prelude.{unwrap_or, length, ℕ, true, false, List, [], ◌∷◌}
use proof_of_heart_stellar.Prelude.Int.{pos}
use proof_of_heart_stellar.Types.{
  Category, Campaign, CreateCampaignParams, Milestone, CampaignReserve,
}
use proof_of_heart_stellar.Host.{Host}
use proof_of_heart_stellar.Store.{
  State, set_creator_campaign_count, empty_storage, get_campaign, get_campaign_reserve,
}
use proof_of_heart_stellar.Action.{invoke}
use proof_of_heart_stellar.Calls.{
  init_call, create_campaign_call, contribute_call, withdraw_funds_call, withdraw_reserve_call,
  set_vesting_params_call, set_milestones_call, verify_milestone_call, cancel_campaign_call,
  deposit_revenue_call, vote_on_campaign_call, verify_campaign_call, pause_call,
  propose_token_update_call, initiate_admin_transfer_call, save_campaign_call, step,
}
use proof_of_heart_stellar.Campaigns.Create.{new_campaign}
use proof_of_heart_stellar.Moderation.{censure_comment, uncensure_comment}
use proof_of_heart_stellar.Queries.Portfolio.{Status, Holding}

-- Everyone signs, tokens carry out every transfer, everyone holds 5 tokens.
abbrev pub host_at : ℕ → Host
host_at time = record {
  timestamp = time;
  sequence = 7;
  contract_address = 9;
  is_authorized = λ a. true;
  accepts = λ made t. true;
  balance = λ made token a. pos 5;
  has_decimals = λ a. true;
  sha256 = λ text. length text;
}

abbrev pub host : Host
host = host_at 1000

-- The same, where nobody signs.
abbrev pub silent_host : Host
silent_host = record host { is_authorized = λ a. false }

abbrev pub params : CreateCampaignParams
params = record {
  creator = 10;
  title = 65 ∷ [];
  description = 66 ∷ [];
  funding_goal = pos 100_000;
  duration_days = 30;
  category = Category.educational_startup;
  has_revenue_sharing = true;
  revenue_share_percentage = 2000;
  max_contribution_per_user = pos 0;
}

abbrev pub started : State
started = step host (init_call 1 2 300) empty_storage

abbrev pub created : State
created = step host (create_campaign_call params) started

abbrev pub verified_state : State
verified_state = step host (verify_campaign_call 1) created

abbrev pub funded : State
funded = step host (contribute_call 1 20 (pos 60_001)) verified_state

abbrev pub complete : State
complete = step host (contribute_call 1 21 (pos 40_000)) funded

abbrev pub paid_out : State
paid_out = step host (withdraw_funds_call 1) complete

abbrev pub revenue_in : State
revenue_in = step host (deposit_revenue_call 1 (pos 1999)) paid_out

abbrev pub cancelled_state : State
cancelled_state = step host (cancel_campaign_call 1) funded

abbrev pub paused_state : State
paused_state = step host pause_call funded

-- The campaign as it is stored, or a blank one.
abbrev pub campaign_in : State → Campaign
campaign_in s = unwrap_or (new_campaign params 0 0) (get_campaign 1 s)

abbrev pub voted : State
voted = step host (vote_on_campaign_call 1 20 true) created

abbrev pub thrice_voted : State
thrice_voted =
    step host (vote_on_campaign_call 1 22 true) (step host (vote_on_campaign_call 1 21 true) voted)

abbrev pub plan : List Milestone
plan =
    record { id = 1; description = 67 ∷ []; payout_bps = 4000; verified = true }
    ∷ record { id = 2; description = 68 ∷ []; payout_bps = 6000; verified = false }
    ∷ []

-- The first milestone of the plan is reached, and its campaign has met the goal.
abbrev pub planned : State
planned = step host (verify_campaign_call 1) (step host (set_milestones_call 1 plan) created)

abbrev pub reached : State
reached =
    step host (verify_milestone_call 1 1 1) (step host (contribute_call 1 20 (pos 100_000)) planned)

abbrev pub proposed : State
proposed = step host (propose_token_update_call 1 3) started

abbrev pub named : State
named = step host (initiate_admin_transfer_call 1 5) started

-- Two campaigns of the same creator and category.
abbrev pub second_params : CreateCampaignParams
second_params = record params { title = 67 ∷ 67 ∷ [] }

abbrev pub two_campaigns : State
two_campaigns = step host (create_campaign_call second_params) created

-- The contract counts two campaigns of the creator 10, and its first bucket has one.
abbrev pub short_bucket : State
short_bucket = set_creator_campaign_count 10 2 created

abbrev pub bookmarked : State
bookmarked = step host (save_campaign_call 20 1) created

abbrev pub censured : State
censured = invoke (censure_comment host 1 1 77 (88 ∷ [])) created

abbrev pub uncensured : State
uncensured = invoke (uncensure_comment (host_at 2000) 1 1 77) censured

-- A tenth of the payout is withheld for ten days.
abbrev pub vested : State
vested =
    step host (create_campaign_call params) (step host (set_vesting_params_call 1 10 1000) started)

abbrev pub reserved : State
reserved =
    step host (withdraw_funds_call 1)
      (step host (contribute_call 1 20 (pos 100_000)) (step host (verify_campaign_call 1) vested))

abbrev pub reserve_of : State → CampaignReserve
reserve_of s =
    unwrap_or (record { amount = pos 0; release_timestamp = 0; released = true })
      (get_campaign_reserve 1 s)

abbrev pub released_state : State
released_state = step (host_at 1_000_000) (withdraw_reserve_call 1) reserved

abbrev pub funded_holding : Holding
funded_holding = record {
  campaign_id = 1;
  amount = pos 60_001;
  status = Status.verified;
  refundable = false;
}
