-- ===== src/Campaigns/Create.antt =====
-- Creation of a campaign: src/campaigns/create.rs, with `create_campaign` and
-- `create_campaign_with_token` of src/lib.rs.
use proof_of_heart_stellar.Prelude.{
  ltb, leb, ◌==◌, if◌then◌else◌, unwrap_or, length, take, ℕ, ◌/◌, Bool, true, false, not, ◌&&◌,
  Option, none, some, [], ◌∷◌, ◌++◌,
}
use proof_of_heart_stellar.Prelude.Int.{ℤ, pos, ltb_ℤ, leb_ℤ}
use proof_of_heart_stellar.Prelude.Words.{checked_add_u32}
use proof_of_heart_stellar.Types.{
  Address, Text, Category, is_startup, Campaign, CreateCampaignParams,
}
use proof_of_heart_stellar.Types.Limits.{
  campaign_title_min_len, campaign_title_max_len, campaign_description_min_len,
  campaign_description_max_len, campaign_duration_min_days, campaign_duration_max_days,
  campaign_funding_goal_min, campaign_funding_goal_max, revenue_share_max_bps,
  category_campaigns_bucket_size, creator_campaigns_bucket_size,
}
use proof_of_heart_stellar.Types.Error.{
  funding_goal_must_be_positive, invalid_duration, invalid_revenue_share,
  revenue_share_only_for_startup, validation_failed, overflow, creation_disabled,
  funding_goal_too_low, funding_goal_too_high,
}
use proof_of_heart_stellar.Host.{Host}
use proof_of_heart_stellar.Store.{
  get_min_campaign_funding_goal, get_max_campaign_funding_goal, get_withdraw_release_delay_days,
  get_withdraw_reserve_percentage, get_creation_disabled, is_token_explicitly_allowed,
  get_category_campaign_count, set_category_campaign_count, get_category_campaign_bucket,
  set_category_campaign_bucket, get_creator_campaign_count, set_creator_campaign_count,
  get_creator_campaign_bucket, set_creator_campaign_bucket, set_creator_campaign_position,
  set_campaign_creator_index, creator_has_title, set_creator_title_index, set_revenue_pool,
  get_campaign_count, set_campaign_count, set_campaign, set_campaign_start_time,
  set_campaign_vesting, get_category_duration_cap, set_campaign_token,
}
use proof_of_heart_stellar.Action.{
  Action, Done, pure, gets, ok_or, ◌>>=◌, ◌>>◌, modify, reject_if, require_auth, add_u32,
}
use proof_of_heart_stellar.Lifecycle.{
  get_token, calculate_deadline, require_not_paused, increment_active_campaign_count,
}

-- `hash_text`: a text within the limits is hashed whole.
unfoldable pub hash_text : Host → Text → ℕ
hash_text env text = env.sha256 (take campaign_title_max_len text)

-- The share that is stored: none where revenue sharing is off.
unfoldable pub stored_share : CreateCampaignParams → ℕ
stored_share params = if params.has_revenue_sharing then params.revenue_share_percentage else 0

unfoldable pub check_goal : ℤ → Action Done
check_goal funding_goal = do
  reject_if (leb_ℤ funding_goal (pos 0)) funding_goal_must_be_positive
  min_goal ← gets (get_min_campaign_funding_goal campaign_funding_goal_min)
  reject_if (ltb_ℤ funding_goal min_goal) funding_goal_too_low
  max_goal ← gets (get_max_campaign_funding_goal campaign_funding_goal_max)
  reject_if (ltb_ℤ max_goal funding_goal) funding_goal_too_high

unfoldable pub check_duration : Category → ℕ → Action Done
check_duration category duration_days = do
  cap ← gets (get_category_duration_cap category)
  let duration_max = unwrap_or campaign_duration_max_days cap
  reject_if (not (leb campaign_duration_min_days duration_days && leb duration_days duration_max))
      invalid_duration

abbrev pub title_fits : Text → Bool
title_fits title =
    leb campaign_title_min_len (length title) && leb (length title) campaign_title_max_len

abbrev pub description_fits : Text → Bool
description_fits description =
    leb campaign_description_min_len (length description)
    && leb (length description) campaign_description_max_len

unfoldable pub check_texts : Host → CreateCampaignParams → Action Done
check_texts env params = do
  reject_if (not (title_fits params.title)) validation_failed
  taken ← gets (creator_has_title params.creator (hash_text env params.title))
  reject_if taken validation_failed
  reject_if (not (description_fits params.description)) validation_failed

unfoldable pub check_share : CreateCampaignParams → Action Done
check_share params = do
  reject_if (not (is_startup params.category) && params.has_revenue_sharing)
      revenue_share_only_for_startup
  reject_if (ltb revenue_share_max_bps (stored_share params)) invalid_revenue_share
  reject_if (params.has_revenue_sharing && stored_share params == 0) invalid_revenue_share
  reject_if (ltb_ℤ params.max_contribution_per_user (pos 0)) validation_failed

-- The token to pin: none where the platform token is meant.
unfoldable pub choose_token : Option Address → Action (Option Address)
choose_token none = pure none
choose_token (some t) = do
  platform ← get_token
  listed ← gets (is_token_explicitly_allowed t)
  reject_if (not (t == platform) && not listed) validation_failed
  pure (if t == platform then none else some t)

abbrev pub pin_token : ℕ → Option Address → Action Done
pin_token id none = pure tt
pin_token id (some t) = modify (set_campaign_token id t)

abbrev pub new_campaign : CreateCampaignParams → ℕ → ℕ → Campaign
new_campaign params count deadline = record {
  id = count;
  creator = params.creator;
  first_creator = params.creator;
  pending_creator = none;
  title = params.title;
  description = params.description;
  funding_goal = params.funding_goal;
  deadline = deadline;
  amount_raised = pos 0;
  is_active = true;
  funds_withdrawn = false;
  is_cancelled = false;
  is_verified = false;
  category = params.category;
  has_revenue_sharing = params.has_revenue_sharing;
  revenue_share_percentage = stored_share params;
  max_contribution_per_user = params.max_contribution_per_user;
  fee_override = none;
  deadline_extended = false;
  effective_amount_raised = pos 0;
}

unfoldable pub index_by_category : Category → ℕ → Action Done
index_by_category category id = do
  count ← gets (get_category_campaign_count category)
  let bucket_idx = count / category_campaigns_bucket_size
  bucket ← gets (get_category_campaign_bucket category bucket_idx)
  modify (set_category_campaign_bucket category bucket_idx (bucket ++ id ∷ []))
  next ← add_u32 count 1
  modify (set_category_campaign_count category next)

unfoldable pub index_by_creator : Address → ℕ → Action Done
index_by_creator creator id = do
  count ← gets (get_creator_campaign_count creator)
  let bucket_idx = count / creator_campaigns_bucket_size
  bucket ← gets (get_creator_campaign_bucket creator bucket_idx)
  modify (set_creator_campaign_bucket creator bucket_idx (bucket ++ id ∷ []))
  modify (set_creator_campaign_position creator id (bucket_idx, length bucket))
  next ← add_u32 count 1
  modify (set_creator_campaign_count creator next)

-- The checks before any write.
unfoldable pub check_params : Host → CreateCampaignParams → Action Done
check_params env params = do
  require_auth env params.creator
  require_not_paused
  disabled ← gets get_creation_disabled
  reject_if disabled creation_disabled
  check_goal params.funding_goal
  check_duration params.category params.duration_days
  check_texts env params
  check_share params

-- The writes, from the new id on.
unfoldable pub store_campaign : Host → CreateCampaignParams → Option Address → ℕ → ℕ → Action Done
store_campaign env params pinned count deadline = do
  vesting_delay ← gets get_withdraw_release_delay_days
  vesting_bps ← gets get_withdraw_reserve_percentage
  modify (set_campaign_vesting count (vesting_delay, vesting_bps))
  pin_token count pinned
  modify (set_campaign count (new_campaign params count deadline))
  modify (set_campaign_start_time count env.timestamp)
  modify (set_campaign_count count)
  modify (set_revenue_pool count (pos 0))
  index_by_category params.category count
  index_by_creator params.creator count
  modify (set_campaign_creator_index count params.creator)
  modify (set_creator_title_index params.creator (hash_text env params.title) count)

unfoldable pub create_campaign_inner : Host → CreateCampaignParams → Option Address → Action ℕ
create_campaign_inner env params token = do
  check_params env params
  pinned ← choose_token token
  last ← gets get_campaign_count
  count ← ok_or overflow (checked_add_u32 last 1)
  deadline ← calculate_deadline env.timestamp params.duration_days
  store_campaign env params pinned count deadline
  pure count

unfoldable pub create_campaign : Host → CreateCampaignParams → Action ℕ
create_campaign env params = do
  id ← create_campaign_inner env params none
  increment_active_campaign_count
  pure id

unfoldable pub create_campaign_with_token : Host → CreateCampaignParams → Address → Action ℕ
create_campaign_with_token env params token = do
  id ← create_campaign_inner env params (some token)
  increment_active_campaign_count
  pure id
