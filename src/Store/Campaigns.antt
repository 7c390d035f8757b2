-- ===== src/Store/Campaigns.antt =====
-- Getters and setters of campaigns and their counters (src/storage.rs).
use proof_of_heart_stellar.Prelude.{
  ℕ, Bool, true, false, Option, some, List, [], unwrap_or, insert, erase, insert₂,
}
use proof_of_heart_stellar.Types.{
  Address, Category, category_index, Campaign, Milestone, CampaignReserve,
}
use proof_of_heart_stellar.Store.Record.{State}

abbrev pub get_campaign_count : State → ℕ
get_campaign_count s = unwrap_or 0 s.campaign_keys.campaign_count

abbrev pub set_campaign_count : ℕ → State → State
set_campaign_count v s = record s {
  campaign_keys = record (s.campaign_keys) { campaign_count = some v };
}

abbrev pub get_campaign : ℕ → State → Option Campaign
get_campaign id s = s.campaign_keys.campaign id

abbrev pub set_campaign : ℕ → Campaign → State → State
set_campaign id v s = record s {
  campaign_keys = record (s.campaign_keys) { campaign = insert id v s.campaign_keys.campaign };
}

abbrev pub get_campaign_start_time : ℕ → State → Option ℕ
get_campaign_start_time id s = s.campaign_keys.campaign_start_time id

abbrev pub set_campaign_start_time : ℕ → ℕ → State → State
set_campaign_start_time id v s = record s {
  campaign_keys = record (s.campaign_keys) {
    campaign_start_time = insert id v s.campaign_keys.campaign_start_time;
  };
}

abbrev pub get_campaign_reserve : ℕ → State → Option CampaignReserve
get_campaign_reserve id s = s.campaign_keys.campaign_reserve id

abbrev pub set_campaign_reserve : ℕ → CampaignReserve → State → State
set_campaign_reserve id v s = record s {
  campaign_keys = record (s.campaign_keys) {
    campaign_reserve = insert id v s.campaign_keys.campaign_reserve;
  };
}

abbrev pub get_campaign_vesting : ℕ → State → Option (ℕ × ℕ)
get_campaign_vesting id s = s.campaign_keys.campaign_vesting id

abbrev pub set_campaign_vesting : ℕ → (ℕ × ℕ) → State → State
set_campaign_vesting id v s = record s {
  campaign_keys = record (s.campaign_keys) {
    campaign_vesting = insert id v s.campaign_keys.campaign_vesting;
  };
}

abbrev pub get_category_duration_cap : Category → State → Option ℕ
get_category_duration_cap c s = s.campaign_keys.category_duration_cap (category_index c)

abbrev pub set_category_duration_cap : Category → ℕ → State → State
set_category_duration_cap c v s = record s {
  campaign_keys = record (s.campaign_keys) {
    category_duration_cap = insert (category_index c) v s.campaign_keys.category_duration_cap;
  };
}

abbrev pub remove_category_duration_cap : Category → State → State
remove_category_duration_cap c s = record s {
  campaign_keys = record (s.campaign_keys) {
    category_duration_cap = erase (category_index c) s.campaign_keys.category_duration_cap;
  };
}

abbrev pub get_active_campaign_count : State → ℕ
get_active_campaign_count s = unwrap_or 0 s.campaign_keys.active_campaign_count

abbrev pub set_active_campaign_count : ℕ → State → State
set_active_campaign_count v s = record s {
  campaign_keys = record (s.campaign_keys) { active_campaign_count = some v };
}

abbrev pub get_verified_campaign_count : State → ℕ
get_verified_campaign_count s = unwrap_or 0 s.campaign_keys.verified_campaign_count

abbrev pub set_verified_campaign_count : ℕ → State → State
set_verified_campaign_count v s = record s {
  campaign_keys = record (s.campaign_keys) { verified_campaign_count = some v };
}

abbrev pub get_cancelled_campaign_count : State → ℕ
get_cancelled_campaign_count s = unwrap_or 0 s.campaign_keys.cancelled_campaign_count

abbrev pub set_cancelled_campaign_count : ℕ → State → State
set_cancelled_campaign_count v s = record s {
  campaign_keys = record (s.campaign_keys) { cancelled_campaign_count = some v };
}

abbrev pub get_campaign_milestones : ℕ → State → List Milestone
get_campaign_milestones id s = unwrap_or [] (s.campaign_keys.campaign_milestones id)

abbrev pub set_campaign_milestones : ℕ → (List Milestone) → State → State
set_campaign_milestones id v s = record s {
  campaign_keys = record (s.campaign_keys) {
    campaign_milestones = insert id v s.campaign_keys.campaign_milestones;
  };
}

abbrev pub is_milestone_claimed : ℕ → ℕ → State → Bool
is_milestone_claimed id milestone s =
    unwrap_or false (s.campaign_keys.milestone_claimed id milestone)

abbrev pub set_milestone_claimed : ℕ → ℕ → State → State
set_milestone_claimed id milestone s = record s {
  campaign_keys = record (s.campaign_keys) {
    milestone_claimed = insert₂ id milestone true s.campaign_keys.milestone_claimed;
  };
}

abbrev pub pinned_campaign_token : ℕ → State → Option Address
pinned_campaign_token id s = s.campaign_keys.campaign_token id

abbrev pub set_campaign_token : ℕ → Address → State → State
set_campaign_token id v s = record s {
  campaign_keys = record (s.campaign_keys) {
    campaign_token = insert id v s.campaign_keys.campaign_token;
  };
}

abbrev pub get_campaign_fee_recipient : ℕ → State → Option Address
get_campaign_fee_recipient id s = s.campaign_keys.campaign_fee_recipient id

abbrev pub set_campaign_fee_recipient : ℕ → Address → State → State
set_campaign_fee_recipient id v s = record s {
  campaign_keys = record (s.campaign_keys) {
    campaign_fee_recipient = insert id v s.campaign_keys.campaign_fee_recipient;
  };
}
