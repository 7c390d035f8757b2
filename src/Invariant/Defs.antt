-- ===== src/Invariant/Defs.antt =====
-- What is well formed in the storage, and how a call can change the parts that this is about.
use proof_of_heart_stellar.Prelude.{
  ◌==◌, Bool-cases, unwrap_or, insert, insert₂, ℕ, ◌+◌, ◌/◌, ◌≤◌, ◌≡◌, inl, inr, true, false, not,
  ◌&&◌, ◌||◌, Option, none, some, [], ◌∷◌, ◌++◌, arith,
}
use proof_of_heart_stellar.Prelude.Int.{pos, ◌≤ℤ◌, ◌<ℤ◌}
use proof_of_heart_stellar.Types.{Address, Category, category_index, Campaign}
use proof_of_heart_stellar.Types.Limits.{
  bps_denominator, platform_fee_max_bps, revenue_share_max_bps, category_campaigns_bucket_size,
}
use proof_of_heart_stellar.Store.{
  get_platform_fee, get_withdraw_reserve_percentage, State, get_category_campaign_count,
  get_category_campaign_bucket, get_contribution, get_campaign, get_campaign_vesting,
}

-- A campaign is active until it is cancelled or withdrawn, and never both; its goal is positive;
-- its share and its fee are within their limits; refunds never exceed what was raised.
pub record IsCoherent (c : Campaign) : Type 0 where
  pub active_flag : c.is_active ≡ not (c.is_cancelled || c.funds_withdrawn)
  pub one_end : (c.is_cancelled && c.funds_withdrawn) ≡ false
  pub goal_positive : pos 0 <ℤ c.funding_goal
  pub share_bound : c.revenue_share_percentage ≤ revenue_share_max_bps
  pub share_off : (c.has_revenue_sharing || c.revenue_share_percentage == 0) ≡ true
  pub fee_bound : unwrap_or 0 c.fee_override ≤ platform_fee_max_bps
  pub raised_bound : c.effective_amount_raised ≤ℤ c.amount_raised

abbrev pub CoherentAt : Option Campaign → Type 0
CoherentAt none = Unit {0}
CoherentAt (some c) = IsCoherent c

abbrev pub VestingAt : Option (ℕ × ℕ) → Type 0
VestingAt none = Unit {0}
VestingAt (some v) = v.1 ≤ bps_denominator

pub record IsSound (s : State) : Type 0 where
  pub campaigns : (id : ℕ) → CoherentAt (get_campaign id s)
  pub fee : get_platform_fee s ≤ platform_fee_max_bps
  pub reserve : get_withdraw_reserve_percentage s ≤ bps_denominator
  pub vesting : (id : ℕ) → VestingAt (get_campaign_vesting id s)
  pub contributions : (id : ℕ) (a : Address) → pos 0 ≤ℤ get_contribution id a s

-- The settings, the count of the campaigns and the index by category are as they were.
abbrev pub SameSettings : State → State → Type 0
SameSettings s t =
    (t.admin_keys.platform_fee ≡ s.admin_keys.platform_fee)
    × (t.admin_keys.withdraw_reserve_percentage ≡ s.admin_keys.withdraw_reserve_percentage)
    × (t.campaign_keys.campaign_vesting ≡ s.campaign_keys.campaign_vesting)
    × (t.campaign_keys.campaign_count ≡ s.campaign_keys.campaign_count)
    × (t.campaign_keys.category_campaign_count ≡ s.campaign_keys.category_campaign_count)
    × (t.campaign_keys.category_campaigns_bucket ≡ s.campaign_keys.category_campaigns_bucket)
    × (t.admin_keys.initialized ≡ s.admin_keys.initialized)

-- The index by category has `id` added to it, and is otherwise as it was.
abbrev pub Categorised : Category → ℕ → State → State → Type 0
Categorised category id s t =
    (t.campaign_keys.category_campaign_count
      ≡ insert (category_index category) (get_category_campaign_count category s + 1)
          s.campaign_keys.category_campaign_count)
    × (t.campaign_keys.category_campaigns_bucket
        ≡ insert₂ (category_index category)
            (get_category_campaign_count category s / category_campaigns_bucket_size)
            (get_category_campaign_bucket category
                (get_category_campaign_count category s / category_campaigns_bucket_size) s
              ++ id ∷ [])
            s.campaign_keys.category_campaigns_bucket)

abbrev pub SameContributions : State → State → Type 0
SameContributions s t = t.contribution_keys.contribution ≡ s.contribution_keys.contribution

abbrev pub SameCampaigns : State → State → Type 0
SameCampaigns s t = t.campaign_keys.campaign ≡ s.campaign_keys.campaign

-- The campaign `id` is now `c`, and no other has changed.
abbrev pub Rewrites : ℕ → Campaign → State → State → Type 0
Rewrites id c s t = t.campaign_keys.campaign ≡ insert id c s.campaign_keys.campaign

-- Nothing that the invariant is about has changed.
abbrev pub Same : State → State → Type 0
Same s t = SameCampaigns s t × SameSettings s t × SameContributions s t

pub Same-IsSound : (s t : State) → IsSound s → Same s t → IsSound t
Same-IsSound s t v e = record {
  campaigns = λ id. rw e.0 (v.campaigns id);
  fee = rw e.1.0 v.fee;
  reserve = rw e.1.1 v.reserve;
  vesting = λ id. rw e.1.2 (v.vesting id);
  contributions = λ id a. rw e.2 (v.contributions id a);
}

pub Same-trans : (s t u : State) → Same s t → Same t u → Same s u
Same-trans s t u p q = ground arith

pub CoherentAt-Rewrites :
    (id : ℕ) (c : Campaign) (s t : State)
    → ((j : ℕ) → CoherentAt (get_campaign j s))
    → IsCoherent c
    → Rewrites id c s t
    → (j : ℕ) → CoherentAt (get_campaign j t)
CoherentAt-Rewrites id c s t v k e j =
    rw e elim (Bool-cases (j == id)) [ inl h ↦ rw h k | inr h ↦ rw h (v j) ]

-- One campaign is rewritten to a coherent one.
pub Rewrites-IsSound :
    (id : ℕ) (c : Campaign) (s t : State)
    → IsSound s
    → IsCoherent c
    → Rewrites id c s t × SameSettings s t × SameContributions s t
    → IsSound t
Rewrites-IsSound id c s t v k e = record {
  campaigns = CoherentAt-Rewrites id c s t v.campaigns k e.0;
  fee = rw e.1.0 v.fee;
  reserve = rw e.1.1 v.reserve;
  vesting = λ j. rw e.1.2 (v.vesting j);
  contributions = λ j a. rw e.2 (v.contributions j a);
}

-- A stored campaign is coherent.
pub coherent :
    (id : ℕ) (c : Campaign) (s : State) → IsSound s → get_campaign id s ≡ some c → IsCoherent c
coherent id c s v e = rw e at (v.campaigns id)
