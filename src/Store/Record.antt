-- ===== src/Store/Record.antt =====
-- The keys of the storage as record fields: `AdminKey`, `CampaignKey`, `ContributionKey`,
-- `VotingKey`, `RevenueKey` and `BookmarkKey` of src/storage.rs.
use proof_of_heart_stellar.Prelude.{ℕ, Bool, Option, List, Map, Map₂}
use proof_of_heart_stellar.Prelude.Int.{ℤ}
use proof_of_heart_stellar.Types.{
  Address, Text, Campaign, Milestone, CampaignReserve, CommentCensure,
}
use proof_of_heart_stellar.Host.{Transfer}

pub record AdminKeys : Type 0 where
  pub admin : Option Address
  pub pending_admin : Option Address
  pub token : Option Address
  pub pending_token : Option Address
  pub pending_token_release : Option ℕ
  pub platform_fee : Option ℕ
  pub version : Option ℕ
  pub initialized : Option Bool
  pub paused : Option Bool
  pub auto_paused : Option Bool
  pub creation_disabled : Option Bool
  pub min_campaign_funding_goal : Option ℤ
  pub max_campaign_funding_goal : Option ℤ
  pub withdraw_release_delay_days : Option ℕ
  pub withdraw_reserve_percentage : Option ℕ
  pub token_update_delay_secs : Option ℕ
  pub emergency_pause_signers : Option (List Address)
  pub allowed_token : Map Bool
  pub max_contribution_per_transaction : Option ℤ

-- The unused key `CategoryCampaigns` is left out. A position is a bucket and a slot.
pub record CampaignKeys : Type 0 where
  pub campaign_count : Option ℕ
  pub campaign : Map Campaign
  pub campaign_vesting : Map (ℕ × ℕ)
  pub campaign_start_time : Map ℕ
  pub campaign_reserve : Map CampaignReserve
  pub category_campaigns_bucket : Map₂ (List ℕ)
  pub category_campaign_count : Map ℕ
  pub category_duration_cap : Map ℕ
  pub creator_campaign_count : Map ℕ
  pub creator_campaigns_bucket : Map₂ (List ℕ)
  pub active_campaign_count : Option ℕ
  pub verified_campaign_count : Option ℕ
  pub cancelled_campaign_count : Option ℕ
  pub campaign_creator_index : Map Address
  pub campaign_milestones : Map (List Milestone)
  pub milestone_claimed : Map₂ Bool
  pub comment_censured : Map₂ CommentCensure
  pub campaign_censured_count : Map ℕ
  pub campaign_token : Map Address
  pub creator_campaign_position : Map₂ (ℕ × ℕ)
  pub creator_campaign_title_index : Map₂ ℕ
  pub campaign_fee_recipient : Map Address
  pub tag_campaigns_bucket : Map₂ (List ℕ)
  pub tag_campaign_count : Map ℕ
  pub campaign_tags : Map (List Text)

pub record ContributionKeys : Type 0 where
  pub contribution : Map₂ ℤ
  pub lifetime_contribution : Map₂ ℤ
  pub personal_cap : Map₂ ℤ
  pub contributor_count : Map ℕ
  pub total_raised : Option ℤ
  pub block_campaign_contribution_count : Map (ℕ × ℕ)
  pub top_contributor : Map Address
  pub last_contribution_time : Map ℕ

pub record VotingKeys : Type 0 where
  pub approve_votes : Map ℕ
  pub reject_votes : Map ℕ
  pub approve_weight : Map ℤ
  pub reject_weight : Map ℤ
  pub has_voted : Map₂ Bool
  pub min_votes_quorum : Option ℕ
  pub approval_threshold_bps : Option ℕ
  pub min_voting_balance : Option ℤ
  pub category_threshold_bps : Map ℕ

pub record RevenueKeys : Type 0 where
  pub revenue_pool : Map ℤ
  pub revenue_claimed : Map₂ ℤ
  pub creator_revenue_claimed : Map ℤ
  pub contributor_revenue_distributed : Map ℤ
  pub contributor_revenue_claimants : Map ℕ

pub record BookmarkKeys : Type 0 where
  pub saved_campaigns : Map (List ℕ)

-- The storage, and the transfers that the contract has asked of token contracts, newest first.
pub record State : Type 0 where
  pub admin_keys : AdminKeys
  pub campaign_keys : CampaignKeys
  pub contribution_keys : ContributionKeys
  pub voting_keys : VotingKeys
  pub revenue_keys : RevenueKeys
  pub bookmark_keys : BookmarkKeys
  pub transfers : List Transfer
