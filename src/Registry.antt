-- ===== src/Registry.antt =====
-- The campaigns as an abstract machine: what a call may do to the set of campaigns, whatever the
-- call is. `Move` is one change, and `Moves` any number of them.
pub mod Rewritings
pub mod Edits
pub mod Verify
pub mod Funds
pub mod Creation
pub mod Settings
pub mod Steps
pub mod Numbers
pub mod Fates
pub mod History
pub mod Categories
use proof_of_heart_stellar.Prelude.{ℕ, ◌+◌, ◌≤◌, ◌≡◌, Bool, true, false, some}
use proof_of_heart_stellar.Prelude.Int.{◌≤ℤ◌}
use proof_of_heart_stellar.Types.{Campaign}
use proof_of_heart_stellar.Store.{State, get_campaign_count, get_campaign}
use proof_of_heart_stellar.Lifecycle.{
  CampaignState, active, verified, withdrawn, cancelled, state_of,
}
use proof_of_heart_stellar.Invariant.{Categorised, SameCampaigns, Rewrites}

-- The states that a campaign may pass to, its own included. Beyond `allowed`, a new description
-- makes a verified campaign active again.
unfoldable pub may_become : CampaignState → CampaignState → Bool
may_become active active = true
may_become active verified = true
may_become active cancelled = true
may_become active withdrawn = false
may_become verified _ = true
may_become withdrawn withdrawn = true
may_become withdrawn _ = false
may_become cancelled cancelled = true
may_become cancelled _ = false

-- How a stored campaign may change.
pub record Progress (c d : Campaign) : Type 0 where
  pub passes : may_become (state_of c) (state_of d) ≡ true
  pub id : d.id ≡ c.id
  pub first_creator : d.first_creator ≡ c.first_creator
  pub category : d.category ≡ c.category
  pub goal : d.funding_goal ≡ c.funding_goal
  pub share : d.revenue_share_percentage ≡ c.revenue_share_percentage
  pub raised : c.amount_raised ≤ℤ d.amount_raised
  pub deadline : c.deadline ≤ d.deadline

-- The count of the campaigns, the index by category and the mark of `init` are as they were.
abbrev pub SameListing : State → State → Type 0
SameListing s t =
    (t.campaign_keys.campaign_count ≡ s.campaign_keys.campaign_count)
    × (t.campaign_keys.category_campaign_count ≡ s.campaign_keys.category_campaign_count)
    × (t.campaign_keys.category_campaigns_bucket ≡ s.campaign_keys.category_campaigns_bucket)
    × (t.admin_keys.initialized ≡ s.admin_keys.initialized)

pub data Move (s t : State) : Type 0 where
  idle : SameCampaigns s t → SameListing s t → Move s t
  changed :
      (id : ℕ) (c d : Campaign)
      → get_campaign id s ≡ some c
      → Progress c d
      → Rewrites id d s t
      → SameListing s t
      → Move s t
  entered :
      (c : Campaign)
      → c.id ≡ get_campaign_count s + 1
      → state_of c ≡ active
      → Rewrites c.id c s t
      → t.campaign_keys.campaign_count ≡ some c.id
      → Categorised c.category c.id s t
      → t.admin_keys.initialized ≡ s.admin_keys.initialized
      → Move s t

pub data Moves (s : State) : State → Type 0 where
  here : Moves s s
  next : {t u : State} → Moves s t → Move t u → Moves s u

pub Moves-trans : {s t u : State} → Moves s t → Moves t u → Moves s u
Moves-trans m here = m
Moves-trans m (next k l) = next (Moves-trans m k) l

pub one : {s t : State} → Move s t → Moves s t
one m = next here m
