-- ===== src/Types/Limits.antt =====
-- The named limits of the contract, from src/lib.rs, src/constants.rs and the modules that use them.
use proof_of_heart_stellar.Prelude.{ℕ, ◌*◌, ◌-◌}
use proof_of_heart_stellar.Prelude.Int.{ℤ, pos}

abbrev pub bps_denominator : ℕ
bps_denominator = 10000

abbrev pub bps_ceil_offset : ℤ
bps_ceil_offset = pos (bps_denominator - 1)

abbrev pub seconds_per_day : ℕ
seconds_per_day = 86400

abbrev pub token_update_delay_secs : ℕ
token_update_delay_secs = 7 * seconds_per_day

abbrev pub max_token_update_delay_secs : ℕ
max_token_update_delay_secs = 365 * seconds_per_day

abbrev pub max_extension_days : ℕ
max_extension_days = 30

abbrev pub contract_version : ℕ
contract_version = 1

abbrev pub campaign_title_min_len : ℕ
campaign_title_min_len = 1

abbrev pub campaign_title_max_len : ℕ
campaign_title_max_len = 100

abbrev pub campaign_description_min_len : ℕ
campaign_description_min_len = 1

abbrev pub campaign_description_max_len : ℕ
campaign_description_max_len = 1000

abbrev pub campaign_tag_min_len : ℕ
campaign_tag_min_len = 1

abbrev pub campaign_tag_max_len : ℕ
campaign_tag_max_len = 32

abbrev pub max_tags_per_campaign : ℕ
max_tags_per_campaign = 10

abbrev pub campaign_duration_min_days : ℕ
campaign_duration_min_days = 1

abbrev pub campaign_duration_max_days : ℕ
campaign_duration_max_days = 365

abbrev pub campaign_extension_max_days : ℕ
campaign_extension_max_days = 365

abbrev pub campaign_funding_goal_min : ℤ
campaign_funding_goal_min = pos 100_000

abbrev pub campaign_funding_goal_max : ℤ
campaign_funding_goal_max = pos 1_000_000_000_000_000

abbrev pub platform_fee_max_bps : ℕ
platform_fee_max_bps = 1000

abbrev pub platform_fee_absolute_max_bps : ℕ
platform_fee_absolute_max_bps = bps_denominator

abbrev pub revenue_share_max_bps : ℕ
revenue_share_max_bps = 5000

abbrev pub auto_pause_single_contribution_bps_threshold : ℤ
auto_pause_single_contribution_bps_threshold = pos 20000

abbrev pub auto_pause_burst_threshold : ℕ
auto_pause_burst_threshold = 10

abbrev pub auto_pause_burst_check_min_raised_bps : ℤ
auto_pause_burst_check_min_raised_bps = pos 5000

abbrev pub max_batch_contribute_size : ℕ
max_batch_contribute_size = 20

-- src/voting.rs
abbrev pub default_min_votes_quorum : ℕ
default_min_votes_quorum = 3

abbrev pub max_votes_quorum : ℕ
max_votes_quorum = 1000

abbrev pub default_approval_threshold_bps : ℕ
default_approval_threshold_bps = 6000

abbrev pub min_approval_threshold_bps : ℕ
min_approval_threshold_bps = 1000

-- src/milestones.rs
abbrev pub max_milestones : ℕ
max_milestones = 10

-- src/bookmarks.rs
abbrev pub max_bookmarks_per_wallet : ℕ
max_bookmarks_per_wallet = 50

-- src/comments.rs
abbrev pub censure_reason_max_len : ℕ
censure_reason_max_len = 200

-- src/storage.rs: `CATEGORY_CAMPAIGNS_BUCKET_SIZE`, `CREATOR_CAMPAIGNS_BUCKET_SIZE` and
-- `TAG_CAMPAIGNS_BUCKET_SIZE`
abbrev pub category_campaigns_bucket_size : ℕ
category_campaigns_bucket_size = 500

abbrev pub creator_campaigns_bucket_size : ℕ
creator_campaigns_bucket_size = 500

abbrev pub tag_campaigns_bucket_size : ℕ
tag_campaigns_bucket_size = 500

-- The queries: `LIST_MAX_LIMIT` and `MAX_SCAN_WINDOW`
abbrev pub list_max_limit : ℕ
list_max_limit = 50

abbrev pub max_scan_window : ℕ
max_scan_window = 1000
