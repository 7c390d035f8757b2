-- ===== src/Lifecycle.antt =====
-- Guards and lookups shared by the entry points: src/lifecycle.rs, and the getters and counters of
-- src/storage.rs that may trap.
use proof_of_heart_stellar.Prelude.{
  ltb, ◌==◌, if◌then◌else◌, ℕ, ◌-◌, Bool, true, false, not, ◌||◌, none, some,
}
use proof_of_heart_stellar.Prelude.Words.{checked_add_u64, checked_mul_u64}
use proof_of_heart_stellar.Types.{Address, Campaign}
use proof_of_heart_stellar.Types.Limits.{seconds_per_day}
use proof_of_heart_stellar.Types.Error.{
  Error, not_authorized, campaign_not_found, campaign_not_active, invalid_duration,
  campaign_already_verified, validation_failed, contract_paused, invalid_state_transition,
}
use proof_of_heart_stellar.Host.{Host}
use proof_of_heart_stellar.Store.{
  stored_admin, stored_token, get_paused, get_auto_paused, State, get_contributor_count,
  set_contributor_count, get_campaign, get_campaign_start_time, get_active_campaign_count,
  set_active_campaign_count, get_verified_campaign_count, set_verified_campaign_count,
  get_cancelled_campaign_count, set_cancelled_campaign_count, pinned_campaign_token,
}
use proof_of_heart_stellar.Action.{
  Action, Done, pure, gets, ok_or, or_trap, ◌>>=◌, ◌>>◌, modify, reject_if, when, require_auth,
  add_u32,
}

pub data CampaignState : Type 0 where
  active verified withdrawn cancelled : CampaignState

-- `CampaignState::of`
unfoldable pub state_of : Campaign → CampaignState
state_of c =
    if c.is_cancelled
    then cancelled
    else (if c.funds_withdrawn then withdrawn else (if c.is_verified then verified else active))

abbrev pub allowed : CampaignState → CampaignState → Bool
allowed active verified = true
allowed active cancelled = true
allowed verified cancelled = true
allowed verified withdrawn = true
allowed _ _ = false

unfoldable pub transition : CampaignState → CampaignState → Action Done
transition from to = reject_if (not (allowed from to)) invalid_state_transition

-- `get_admin` and `get_token` unwrap: they trap before `init`.
abbrev pub get_admin : Action Address
get_admin s = or_trap (stored_admin s) s

abbrev pub get_token : Action Address
get_token s = or_trap (stored_token s) s

abbrev pub get_campaign_token : ℕ → Action Address
get_campaign_token id s = elim (pinned_campaign_token id s) [
  | none ↦ get_token s
  | some t ↦ pure t s
]

abbrev pub get_campaign_or_error : ℕ → Action Campaign
get_campaign_or_error id s = ok_or campaign_not_found (get_campaign id s) s

abbrev pub assert_creator : Host → Campaign → Action Done
assert_creator env c = require_auth env c.creator

abbrev pub get_creator_campaign : Host → ℕ → Action Campaign
get_creator_campaign env id = do
  campaign ← get_campaign_or_error id
  assert_creator env campaign
  pure campaign

abbrev pub assert_admin : Host → Address → Action Done
assert_admin env caller = do
  admin ← get_admin
  reject_if (not (caller == admin)) not_authorized
  require_auth env caller

abbrev pub require_active_campaign : Campaign → Action Done
require_active_campaign c = reject_if (c.is_cancelled || not c.is_active) campaign_not_active

abbrev pub require_unverified_campaign : Campaign → Action Done
require_unverified_campaign c = reject_if c.is_verified campaign_already_verified

abbrev pub require_revenue_sharing : Campaign → Error → Action Done
require_revenue_sharing c e = reject_if (not c.has_revenue_sharing) e

unfoldable pub calculate_deadline : ℕ → ℕ → Action ℕ
calculate_deadline now days = do
  seconds ← ok_or validation_failed (checked_mul_u64 days seconds_per_day)
  ok_or validation_failed (checked_add_u64 now seconds)

abbrev pub is_paused : State → Bool
is_paused s = get_paused s || get_auto_paused s

abbrev pub require_not_paused : Action Done
require_not_paused s = reject_if (is_paused s) contract_paused s

abbrev pub campaign_start_time_or_error : ℕ → Action ℕ
campaign_start_time_or_error id s = ok_or invalid_duration (get_campaign_start_time id s) s

abbrev pub increment_contributor_count : ℕ → Action Done
increment_contributor_count id = do
  count ← gets (get_contributor_count id)
  next ← add_u32 count 1
  modify (set_contributor_count id next)

abbrev pub decrement_contributor_count : ℕ → Action Done
decrement_contributor_count id = do
  count ← gets (get_contributor_count id)
  when (ltb 0 count) (modify (set_contributor_count id (count - 1)))

abbrev pub increment_active_campaign_count : Action Done
increment_active_campaign_count = do
  count ← gets get_active_campaign_count
  next ← add_u32 count 1
  modify (set_active_campaign_count next)

abbrev pub decrement_active_campaign_count : Action Done
decrement_active_campaign_count = do
  count ← gets get_active_campaign_count
  when (ltb 0 count) (modify (set_active_campaign_count (count - 1)))

abbrev pub increment_verified_campaign_count : Action Done
increment_verified_campaign_count = do
  count ← gets get_verified_campaign_count
  next ← add_u32 count 1
  modify (set_verified_campaign_count next)

-- `saturating_sub`
abbrev pub decrement_verified_campaign_count : Action Done
decrement_verified_campaign_count = do
  count ← gets get_verified_campaign_count
  modify (set_verified_campaign_count (count - 1))

abbrev pub increment_cancelled_campaign_count : Action Done
increment_cancelled_campaign_count = do
  count ← gets get_cancelled_campaign_count
  next ← add_u32 count 1
  modify (set_cancelled_campaign_count next)
