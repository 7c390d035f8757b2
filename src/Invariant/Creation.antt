-- ===== src/Invariant/Creation.antt =====
-- A new campaign keeps the invariant.
use proof_of_heart_stellar.Prelude.{
  ◌==◌, insert, ℕ, ◌≤◌, ◌≡◌, refl, true, ◌||◌, Option, none, some, arith,
}
use proof_of_heart_stellar.Prelude.Int.{ℤ, pos, ◌<ℤ◌}
use proof_of_heart_stellar.Prelude.Words.{checked_add_u32}
use proof_of_heart_stellar.Types.{Address, Category, CreateCampaignParams}
use proof_of_heart_stellar.Types.Limits.{revenue_share_max_bps}
use proof_of_heart_stellar.Host.{Host}
use proof_of_heart_stellar.Store.{
  get_withdraw_release_delay_days, get_withdraw_reserve_percentage, State,
}
use proof_of_heart_stellar.Action.{ok, Ensures, Keeps, Ensures-intro, Ensures-at}
use proof_of_heart_stellar.Lifecycle.{calculate_deadline}
use proof_of_heart_stellar.Campaigns.Create.{
  stored_share, check_goal, check_duration, check_texts, check_share, choose_token, pin_token,
  new_campaign, index_by_category, index_by_creator, check_params, store_campaign,
  create_campaign_inner, create_campaign, create_campaign_with_token,
}
use proof_of_heart_stellar.Invariant.Defs.{
  IsCoherent, IsSound, Categorised, SameContributions, SameCampaigns, Rewrites, Same, Same-IsSound,
  CoherentAt-Rewrites,
}

-- What the invariant needs of the parameters of `create_campaign`, which checks more than this.
pub record IsCreatable (p : CreateCampaignParams) : Type 0 where
  pub goal : pos 0 <ℤ p.funding_goal
  pub share : stored_share p ≤ revenue_share_max_bps
  pub share_off : (p.has_revenue_sharing || stored_share p == 0) ≡ true

check_goal-Keeps : (g : ℤ) (s : State) → Keeps s (check_goal g s)
unfolding check_goal
check_goal-Keeps g s = ground arith

check_goal_positive : (g : ℤ) (s : State) → Ensures (λ _. pos 0 <ℤ g) (check_goal g s)
unfolding check_goal
check_goal_positive g s = ground arith

check_duration-Keeps : (c : Category) (n : ℕ) (s : State) → Keeps s (check_duration c n s)
unfolding check_duration
check_duration-Keeps c n s = ground arith

check_texts-Keeps :
    (env : Host) (p : CreateCampaignParams) (s : State) → Keeps s (check_texts env p s)
unfolding check_texts
check_texts-Keeps env p s = ground arith

module _ (p : CreateCampaignParams) (s : State) where
  check_share-Keeps : Keeps s (check_share p s)
  unfolding check_share
  check_share-Keeps = ground arith

  check_share_bound : Ensures (λ _. stored_share p ≤ revenue_share_max_bps) (check_share p s)
  unfolding check_share
  check_share_bound = ground arith

  stored_share_off : (p.has_revenue_sharing || stored_share p == 0) ≡ true
  unfolding stored_share
  stored_share_off = ground arith

module _ (env : Host) (p : CreateCampaignParams) (s : State) where
  pub check_params-Keeps : Keeps s (check_params env p s)
  unfolding check_params
  check_params-Keeps = ground (
    arith,
    check_goal-Keeps p.funding_goal s,
    check_duration-Keeps p.category p.duration_days s,
    check_texts-Keeps env p s,
    check_share-Keeps p s,
  )

  pub check_params-IsCreatable : (t : State) → check_params env p s ≡ ok tt t → IsCreatable p
  unfolding check_params
  check_params-IsCreatable t h = record {
    goal = ground (arith, check_goal_positive p.funding_goal s);
    share = ground (
      arith,
      check_goal-Keeps p.funding_goal s,
      check_duration-Keeps p.category p.duration_days s,
      check_texts-Keeps env p s,
      check_share_bound p s,
    );
    share_off = stored_share_off p s;
  }

pub choose_token-Keeps : (x : Option Address) (s : State) → Keeps s (choose_token x s)
unfolding choose_token
choose_token-Keeps none s = ground arith
choose_token-Keeps (some t) s = ground arith

pub IsCoherent-new :
    (p : CreateCampaignParams) (count deadline : ℕ)
    → IsCreatable p
    → IsCoherent (new_campaign p count deadline)
IsCoherent-new p count deadline k = record {
  active_flag = refl;
  one_end = refl;
  goal_positive = k.goal;
  share_bound = k.share;
  share_off = k.share_off;
  fee_bound = ground arith;
  raised_bound = ground arith;
}

pin_token-Same : (id : ℕ) (x : Option Address) (s : State) → Ensures (Same s) (pin_token id x s)
pin_token-Same id none s = ground arith
pin_token-Same id (some t) s = ground arith

module _ (env : Host) (p : CreateCampaignParams) (count deadline : ℕ) (s : State) where
  -- What the index by category changes of the parts of the invariant.
  abbrev Filed : Category → State → State → Type 0
  Filed c u t =
      SameCampaigns u t
      × (t.admin_keys.platform_fee ≡ u.admin_keys.platform_fee)
      × (t.admin_keys.withdraw_reserve_percentage ≡ u.admin_keys.withdraw_reserve_percentage)
      × (t.campaign_keys.campaign_vesting ≡ u.campaign_keys.campaign_vesting)
      × (t.campaign_keys.campaign_count ≡ u.campaign_keys.campaign_count)
      × Categorised c count u t
      × SameContributions u t
      × (t.admin_keys.initialized ≡ u.admin_keys.initialized)

  index_by_category-Filed :
      (c : Category) (u : State) → Ensures (Filed c u) (index_by_category c count u)
  unfolding index_by_category checked_add_u32
  index_by_category-Filed c u = ground arith

  index_by_creator-Same : (a : Address) (u : State) → Ensures (Same u) (index_by_creator a count u)
  unfolding index_by_creator
  index_by_creator-Same a u = ground arith

  -- What the storage of a new campaign changes of the parts of the invariant.
  abbrev pub Added : State → Type 0
  Added t =
      Rewrites count (new_campaign p count deadline) s t
      × (t.admin_keys.platform_fee ≡ s.admin_keys.platform_fee)
      × (t.admin_keys.withdraw_reserve_percentage ≡ s.admin_keys.withdraw_reserve_percentage)
      × (t.campaign_keys.campaign_vesting
          ≡ insert count (get_withdraw_release_delay_days s, get_withdraw_reserve_percentage s)
              s.campaign_keys.campaign_vesting)
      × SameContributions s t
      × (t.campaign_keys.campaign_count ≡ some count)
      × Categorised p.category count s t
      × (t.admin_keys.initialized ≡ s.admin_keys.initialized)

  pub store_campaign_effect :
      (x : Option Address) → Ensures Added (store_campaign env p x count deadline s)
  unfolding store_campaign
  store_campaign_effect x =
      grind (arith, pin_token-Same, index_by_category-Filed, index_by_creator-Same)

  Added-IsSound : (t : State) → IsSound s → IsCreatable p → Added t → IsSound t
  Added-IsSound t v k e = record {
    campaigns =
        CoherentAt-Rewrites count (new_campaign p count deadline) s t v.campaigns
          (IsCoherent-new p count deadline k) e.0;
    fee = rw e.1 v.fee;
    reserve = rw e.2 v.reserve;
    vesting = λ j. rw e.3 (ground (arith, v.vesting j, v.reserve));
    contributions = λ j b. rw e.4 (v.contributions j b);
  }

pub calculate_deadline-Keeps : (now days : ℕ) (s : State) → Keeps s (calculate_deadline now days s)
unfolding calculate_deadline
calculate_deadline-Keeps now days s = ground arith

pub check_params-Ensures :
    (env : Host) (p : CreateCampaignParams) (s : State)
    → Ensures (λ t. (t ≡ s) × IsCreatable p) (check_params env p s)
check_params-Ensures env p s = Ensures-intro (check_params env p s) (λ _ t h. (
  Ensures-at (λ u. u ≡ s) (check_params env p s) (check_params-Keeps env p s) h,
  check_params-IsCreatable env p s t h,
))

create_campaign_inner-IsSound :
    (env : Host) (p : CreateCampaignParams) (x : Option Address) (s : State)
    → IsSound s
    → Ensures IsSound (create_campaign_inner env p x s)
unfolding create_campaign_inner
create_campaign_inner-IsSound env p x s v = grind (
  arith,
  check_params-Ensures env p s,
  choose_token-Keeps,
  calculate_deadline-Keeps,
  store_campaign_effect,
  Added-IsSound,
)

module _ (env : Host) (p : CreateCampaignParams) (s : State) (v : IsSound s) (id : ℕ)
    (t : State) where
  pub create_campaign-IsSound : create_campaign env p s ≡ ok id t → IsSound t
  unfolding create_campaign
  create_campaign-IsSound h =
      grind (arith, create_campaign_inner-IsSound env p none s v, Same-IsSound)

  pub create_campaign_with_token-IsSound :
      (token : Address) → create_campaign_with_token env p token s ≡ ok id t → IsSound t
  unfolding create_campaign_with_token
  create_campaign_with_token-IsSound token h =
      grind (arith, create_campaign_inner-IsSound env p (some token) s v, Same-IsSound)
