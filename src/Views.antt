-- ===== src/Views.antt =====
-- The reads of src/lib.rs and src/storage.rs that answer with more than a stored entry. The other
-- read-only entry points of src/lib.rs pass on a getter of `Store` or a function of `Queries`.
use proof_of_heart_stellar.Prelude.{
  ◌==◌, unwrap_or, is_some, ◌and_then◌, ℕ, Bool, false, ◌||◌, Option, none, some,
}
use proof_of_heart_stellar.Prelude.Int.{ℤ, pos}
use proof_of_heart_stellar.Types.{Address, Category, Campaign}
use proof_of_heart_stellar.Types.Limits.{
  token_update_delay_secs, campaign_funding_goal_min, campaign_funding_goal_max,
  default_min_votes_quorum, default_approval_threshold_bps,
}
use proof_of_heart_stellar.Store.{
  stored_token, get_min_campaign_funding_goal, get_max_campaign_funding_goal,
  get_token_update_delay_secs, is_token_explicitly_allowed, State, get_campaign_creator_index,
  get_min_votes_quorum, get_approval_threshold_bps, get_personal_cap, get_campaign,
  pinned_campaign_token,
}
use proof_of_heart_stellar.Action.{Action}
use proof_of_heart_stellar.Lifecycle.{get_campaign_or_error}
use proof_of_heart_stellar.Voting.{effective_approval_threshold_bps}

-- `get_campaign` of src/lib.rs, which fails where the storage's `get_campaign` has none.
abbrev pub campaign_or_error : ℕ → Action Campaign
campaign_or_error id = get_campaign_or_error id

unfoldable pub min_campaign_funding_goal : State → ℤ
min_campaign_funding_goal s = get_min_campaign_funding_goal campaign_funding_goal_min s

unfoldable pub max_campaign_funding_goal : State → ℤ
max_campaign_funding_goal s = get_max_campaign_funding_goal campaign_funding_goal_max s

unfoldable pub token_update_delay : State → ℕ
token_update_delay s = get_token_update_delay_secs token_update_delay_secs s

unfoldable pub min_votes_quorum : State → ℕ
min_votes_quorum s = get_min_votes_quorum default_min_votes_quorum s

unfoldable pub approval_threshold : State → ℕ
approval_threshold s = get_approval_threshold_bps default_approval_threshold_bps s

unfoldable pub category_voting_threshold : Category → State → ℕ
category_voting_threshold category s = effective_approval_threshold_bps category s

-- `0` where no cap is set.
unfoldable pub personal_cap : ℕ → Address → State → ℤ
personal_cap id contributor s = unwrap_or (pos 0) (get_personal_cap id contributor s)

unfoldable pub has_pending_campaign_transfer : ℕ → State → Bool
has_pending_campaign_transfer id s = elim (get_campaign id s) [
  | none ↦ false
  | some c ↦ is_some c.pending_creator
]

unfoldable pub is_campaign_creator : ℕ → Address → State → Bool
is_campaign_creator id creator s = elim (get_campaign_creator_index id s) [
  | none ↦ false
  | some c ↦ c == creator
]

unfoldable pub has_campaign_token : ℕ → State → Bool
has_campaign_token id s = is_some (pinned_campaign_token id s)

-- `none` where the storage has no token, which traps.
unfoldable pub is_token_allowed : Address → State → Option Bool
is_token_allowed token s = stored_token s and_then λ platform.
    some (token == platform || is_token_explicitly_allowed token s)
