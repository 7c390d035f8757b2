-- ===== src/Store/Empty.antt =====
-- The storage before the first call.
use proof_of_heart_stellar.Prelude.{none, []}
use proof_of_heart_stellar.Store.Record.{State}

abbrev pub empty_storage : State
empty_storage = record {
  admin_keys = record {
    admin = none;
    pending_admin = none;
    token = none;
    pending_token = none;
    pending_token_release = none;
    platform_fee = none;
    version = none;
    initialized = none;
    paused = none;
    auto_paused = none;
    creation_disabled = none;
    min_campaign_funding_goal = none;
    max_campaign_funding_goal = none;
    withdraw_release_delay_days = none;
    withdraw_reserve_percentage = none;
    token_update_delay_secs = none;
    emergency_pause_signers = none;
    allowed_token = λ _. none;
    max_contribution_per_transaction = none;
  };
  campaign_keys = record {
    campaign_count = none;
    campaign = λ _. none;
    campaign_vesting = λ _. none;
    campaign_start_time = λ _. none;
    campaign_reserve = λ _. none;
    category_campaigns_bucket = λ _ _. none;
    category_campaign_count = λ _. none;
    category_duration_cap = λ _. none;
    creator_campaign_count = λ _. none;
    creator_campaigns_bucket = λ _ _. none;
    active_campaign_count = none;
    verified_campaign_count = none;
    cancelled_campaign_count = none;
    campaign_creator_index = λ _. none;
    campaign_milestones = λ _. none;
    milestone_claimed = λ _ _. none;
    comment_censured = λ _ _. none;
    campaign_censured_count = λ _. none;
    campaign_token = λ _. none;
    creator_campaign_position = λ _ _. none;
    creator_campaign_title_index = λ _ _. none;
    campaign_fee_recipient = λ _. none;
    tag_campaigns_bucket = λ _ _. none;
    tag_campaign_count = λ _. none;
    campaign_tags = λ _. none;
  };
  contribution_keys = record {
    contribution = λ _ _. none;
    lifetime_contribution = λ _ _. none;
    personal_cap = λ _ _. none;
    contributor_count = λ _. none;
    total_raised = none;
    block_campaign_contribution_count = λ _. none;
    top_contributor = λ _. none;
    last_contribution_time = λ _. none;
  };
  voting_keys = record {
    approve_votes = λ _. none;
    reject_votes = λ _. none;
    approve_weight = λ _. none;
    reject_weight = λ _. none;
    has_voted = λ _ _. none;
    min_votes_quorum = none;
    approval_threshold_bps = none;
    min_voting_balance = none;
    category_threshold_bps = λ _. none;
  };
  revenue_keys = record {
    revenue_pool = λ _. none;
    revenue_claimed = λ _ _. none;
    creator_revenue_claimed = λ _. none;
    contributor_revenue_distributed = λ _. none;
    contributor_revenue_claimants = λ _. none;
  };
  bookmark_keys = record { saved_campaigns = λ _. none };
  transfers = [];
}
