-- ===== src/Queries/Stats.antt =====
-- The aggregates that the contract answers with (src/queries.rs). `none` is a trap: an overflow of
-- a plain addition, or a storage without a token.
use proof_of_heart_stellar.Prelude.{
  if◌then◌else◌, is_some, ◌and_then◌, ℕ, zero, suc, ◌+◌, ◌-◌, ◌/◌, Bool, false, not, ◌&&◌, ◌||◌,
  Option, none, some, List, [], ◌∷◌,
}
use proof_of_heart_stellar.Prelude.Int.{ℤ, pos, ◌/ℤ◌, checked_add}
use proof_of_heart_stellar.Prelude.Words.{checked_add_u32}
use proof_of_heart_stellar.Types.{Address, MaybePendingCreator, Campaign}
use proof_of_heart_stellar.Types.Limits.{creator_campaigns_bucket_size}
use proof_of_heart_stellar.Store.{
  stored_token, get_platform_fee, get_paused, get_auto_paused, State, get_creator_campaign_count,
  get_creator_campaign_bucket, get_contributor_count, get_top_contributor,
  get_last_contribution_time, get_total_raised_global, get_campaign_count, get_campaign,
  get_active_campaign_count, get_verified_campaign_count, get_cancelled_campaign_count,
}

pub record PlatformStats : Type 0 where
  pub total_campaigns : ℕ
  pub active_campaigns : ℕ
  pub verified_campaigns : ℕ
  pub cancelled_campaigns : ℕ
  pub total_amount_raised : ℤ
  pub stats_are_partial : Bool
  pub scanned_up_to : ℕ

pub record PlatformReport : Type 0 where
  pub total_campaigns : ℕ
  pub active_campaigns : ℕ
  pub total_raised : ℤ
  pub total_contributors : ℕ
  pub platform_fee_bps : ℕ
  pub is_paused : Bool
  pub token : Address

pub record CreatorStats : Type 0 where
  pub total_campaigns : ℕ
  pub active_campaigns : ℕ
  pub total_raised : ℤ
  pub total_contributors : ℕ

pub record CampaignStats : Type 0 where
  pub contributor_count : ℕ
  pub top_contributor : MaybePendingCreator
  pub avg_contribution : ℤ
  pub last_contribution_time : ℕ

-- What one entry of a bucket adds to the running totals of `get_creator_stats`.
unfoldable pub count_campaign : State → ℕ → CreatorStats → Option CreatorStats
count_campaign s id stats = elim (get_campaign id s) [
  | none ↦ some stats
  | some campaign ↦
      (if campaign.is_active && not campaign.is_cancelled
        then checked_add_u32 stats.active_campaigns 1
        else some stats.active_campaigns)
      and_then λ active.
          (if not campaign.is_cancelled
            then checked_add stats.total_raised campaign.amount_raised
            else some stats.total_raised)
          and_then λ raised.
              checked_add_u32 stats.total_contributors (get_contributor_count id s)
              and_then λ contributors. some (record stats {
                active_campaigns = active;
                total_raised = raised;
                total_contributors = contributors;
              })
]

unfoldable pub count_entries : State → List ℕ → CreatorStats → Option CreatorStats
count_entries s [] stats = some stats
count_entries s (id ∷ ids) stats = count_campaign s id stats and_then count_entries s ids

-- The loop over the buckets from `bucket_idx` on, with `left` buckets to go.
unfoldable pub count_buckets : Address → ℕ → ℕ → State → CreatorStats → Option CreatorStats
count_buckets creator bucket_idx zero s stats = some stats
count_buckets creator bucket_idx (suc left) s stats =
    count_entries s (get_creator_campaign_bucket creator bucket_idx s) stats
    and_then count_buckets creator (bucket_idx + 1) left s

-- `total.div_ceil(CREATOR_CAMPAIGNS_BUCKET_SIZE)`
abbrev pub creator_buckets : ℕ → ℕ
creator_buckets total =
    (total + (creator_campaigns_bucket_size - 1)) / creator_campaigns_bucket_size

-- The totals before the first bucket.
abbrev pub zero_stats : ℕ → CreatorStats
zero_stats total = record {
  total_campaigns = total;
  active_campaigns = 0;
  total_raised = pos 0;
  total_contributors = 0;
}

unfoldable pub get_creator_stats : Address → State → Option CreatorStats
get_creator_stats creator s =
    let total = get_creator_campaign_count creator s in
    count_buckets creator 0 (creator_buckets total) s (zero_stats total)

unfoldable pub get_platform_stats : State → PlatformStats
get_platform_stats s = record {
  total_campaigns = get_campaign_count s;
  active_campaigns = get_active_campaign_count s;
  verified_campaigns = get_verified_campaign_count s;
  cancelled_campaigns = get_cancelled_campaign_count s;
  total_amount_raised = get_total_raised_global s;
  stats_are_partial = false;
  scanned_up_to = get_campaign_count s;
}

-- The division of `get_campaign_stats`.
abbrev pub average : ℤ → ℕ → ℤ
average amount zero = pos 0
average amount (suc n) = amount /ℤ pos (suc n)

abbrev pub raised_by : Option Campaign → ℤ
raised_by none = pos 0
raised_by (some campaign) = campaign.amount_raised

unfoldable pub get_campaign_stats : ℕ → State → CampaignStats
get_campaign_stats id s = record {
  contributor_count = get_contributor_count id s;
  top_contributor = get_top_contributor id s;
  avg_contribution = average (raised_by (get_campaign id s)) (get_contributor_count id s);
  last_contribution_time = get_last_contribution_time id s;
}

-- The loop of `get_platform_report` over the ids from `id` on.
unfoldable pub count_contributors : ℕ → ℕ → State → ℕ → Option ℕ
count_contributors id zero s total = some total
count_contributors id (suc left) s total =
    (if is_some (get_campaign id s)
      then checked_add_u32 total (get_contributor_count id s)
      else some total)
    and_then count_contributors (id + 1) left s

unfoldable pub get_platform_report : State → Option PlatformReport
get_platform_report s = count_contributors 1 (get_campaign_count s) s 0 and_then λ contributors.
    stored_token s and_then λ token. some (record {
      total_campaigns = get_campaign_count s;
      active_campaigns = get_active_campaign_count s;
      total_raised = get_total_raised_global s;
      total_contributors = contributors;
      platform_fee_bps = get_platform_fee s;
      is_paused = get_paused s || get_auto_paused s;
      token = token;
    })
