-- ===== src/Governance/Terms.antt =====
-- The terms that a campaign starts with and the one extension of its deadline:
-- src/campaigns/create.rs and src/campaigns/update.rs.
use proof_of_heart_stellar.Prelude.{
  ◌==◌, insert, ℕ, ◌+◌, ◌*◌, ◌≤◌, ◌<◌, ◌≡◌, ◌⊎◌, true, false, some, arith,
}
use proof_of_heart_stellar.Prelude.Words.{checked_add_u64, checked_mul_u64}
use proof_of_heart_stellar.Types.{Campaign, CreateCampaignParams}
use proof_of_heart_stellar.Types.Limits.{seconds_per_day, max_extension_days}
use proof_of_heart_stellar.Types.Error.{validation_failed}
use proof_of_heart_stellar.Host.{Host}
use proof_of_heart_stellar.Store.{
  State, creator_has_title, get_campaign_count, get_campaign, get_campaign_start_time,
}
use proof_of_heart_stellar.Action.{ok, err}
use proof_of_heart_stellar.Lifecycle.{calculate_deadline}
use proof_of_heart_stellar.Calls.{extend_campaign_deadline_call, step}
use proof_of_heart_stellar.Campaigns.Create.{hash_text, new_campaign}
use proof_of_heart_stellar.Campaigns.Update.{check_extension, extend_campaign_deadline}
use proof_of_heart_stellar.Governance.Checks.{Checked}
use proof_of_heart_stellar.Safety.{Refused, invoke-Refused}

-- The terms of an extension by `days`.
pub record Extended (env : Host) (id days : ℕ) (c : Campaign) (s t : State) : Type 0 where
  pub days_bound : (0 < days) × (days ≤ max_extension_days)
  pub in_time : env.timestamp < c.deadline
  pub first : c.deadline_extended ≡ false
  pub campaign :
      get_campaign id t
      ≡ some (record c { deadline = c.deadline + days * seconds_per_day; deadline_extended = true })

module _ (env : Host) (id days : ℕ) (s t : State) {c : Campaign} (e : get_campaign id s ≡ some c)
    (h : extend_campaign_deadline env id days s ≡ ok tt t) where
  -- An extension of a stored campaign that returns is of 1 to 30 days, comes before the deadline,
  -- is the first, and moves the deadline by exactly these days.
  pub extend_campaign_deadline-Extended : Extended env id days c s t
  unfolding extend_campaign_deadline check_extension checked_add_u64 checked_mul_u64
  extend_campaign_deadline-Extended = record {
    days_bound = ground arith;
    in_time = ground arith;
    first = ground arith;
    campaign = ground arith;
  }

  extension-Refused : (env' : Host) (days' : ℕ) → Refused (extend_campaign_deadline env' id days' t)
  unfolding extend_campaign_deadline
  extension-Refused env' days' = ground (arith, extend_campaign_deadline-Extended.campaign)

  -- After an extension of a stored campaign that returns, a second one changes nothing.
  pub extend_campaign_deadline_once :
      (env' : Host) (days' : ℕ) → step env' (extend_campaign_deadline_call id days') t ≡ t
  unfolding step
  extend_campaign_deadline_once env' days' =
      invoke-Refused (extend_campaign_deadline env' id days') t (extension-Refused env' days')

-- What a new campaign has passed, how it is stored, and what stays.
pub record Created (env : Host) (p : CreateCampaignParams) (s : State) (id : ℕ) (t : State)
    : Type 0 where
  pub next_id : id ≡ get_campaign_count s + 1
  pub count : get_campaign_count t ≡ id
  pub checked : Checked env p s
  pub stored :
      get_campaign id t
      ≡ some (new_campaign p id (env.timestamp + p.duration_days * seconds_per_day))
  pub others : (j : ℕ) → (j == id) ≡ false → get_campaign j t ≡ get_campaign j s
  pub start : get_campaign_start_time id t ≡ some env.timestamp
  pub title : creator_has_title p.creator (hash_text env p.title) t ≡ true

-- What the writes of a new campaign that index it leave alone.
abbrev Listed : State → State → Type 0
Listed s t =
    (t.campaign_keys.campaign ≡ s.campaign_keys.campaign)
    × (t.campaign_keys.campaign_count ≡ s.campaign_keys.campaign_count)
    × (t.campaign_keys.campaign_start_time ≡ s.campaign_keys.campaign_start_time)
    × (t.campaign_keys.creator_campaign_title_index ≡ s.campaign_keys.creator_campaign_title_index)

-- The writes of a new campaign.
record StoredAs (env : Host) (p : CreateCampaignParams) (id deadline : ℕ) (s t : State)
    : Type 0 where
  campaigns :
      t.campaign_keys.campaign ≡ insert id (new_campaign p id deadline) s.campaign_keys.campaign
  count : get_campaign_count t ≡ id
  start : get_campaign_start_time id t ≡ some env.timestamp
  title : creator_has_title p.creator (hash_text env p.title) t ≡ true

pub calculate_deadline_value :
    (now days : ℕ) (s : State)
    → (calculate_deadline now days s ≡ ok (now + days * seconds_per_day) s)
      ⊎ (calculate_deadline now days s ≡ err validation_failed s)
unfolding calculate_deadline checked_add_u64 checked_mul_u64
calculate_deadline_value now days s = ground arith
