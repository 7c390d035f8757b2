-- ===== src/Governance/Checks.antt =====
-- The checks of a new campaign, written out: src/campaigns/create.rs.
use proof_of_heart_stellar.Prelude.{
  Bool-cases, unwrap_or, length, ◌≤◌, ◌<◌, ◌≡◌, ap, inl, inr, true, false, arith,
}
use proof_of_heart_stellar.Prelude.Int.{pos, ◌≤ℤ◌, ◌<ℤ◌}
use proof_of_heart_stellar.Types.{Category, is_startup, CreateCampaignParams}
use proof_of_heart_stellar.Types.Limits.{
  campaign_title_min_len, campaign_title_max_len, campaign_description_min_len,
  campaign_description_max_len, campaign_duration_min_days, campaign_duration_max_days,
  campaign_funding_goal_min, campaign_funding_goal_max, revenue_share_max_bps,
}
use proof_of_heart_stellar.Host.{Host}
use proof_of_heart_stellar.Store.{
  get_min_campaign_funding_goal, get_max_campaign_funding_goal, get_creation_disabled, State,
  creator_has_title, get_category_duration_cap,
}
use proof_of_heart_stellar.Action.{ok}
use proof_of_heart_stellar.Lifecycle.{is_paused}
use proof_of_heart_stellar.Campaigns.Create.{
  hash_text, stored_share, check_goal, check_duration, check_texts, check_share, check_params,
}

-- What `create_campaign` asks of the parameters, of the signature and of the settings.
pub record Checked (env : Host) (p : CreateCampaignParams) (s : State) : Type 0 where
  pub signed : env.is_authorized p.creator ≡ true
  pub running : is_paused s ≡ false
  pub enabled : get_creation_disabled s ≡ false
  pub goal_positive : pos 0 <ℤ p.funding_goal
  pub goal_least : get_min_campaign_funding_goal campaign_funding_goal_min s ≤ℤ p.funding_goal
  pub goal_most : p.funding_goal ≤ℤ get_max_campaign_funding_goal campaign_funding_goal_max s
  pub duration_least : campaign_duration_min_days ≤ p.duration_days
  pub duration_most :
      p.duration_days
      ≤ unwrap_or campaign_duration_max_days (get_category_duration_cap p.category s)
  pub title_least : campaign_title_min_len ≤ length p.title
  pub title_most : length p.title ≤ campaign_title_max_len
  pub title_free : creator_has_title p.creator (hash_text env p.title) s ≡ false
  pub description_least : campaign_description_min_len ≤ length p.description
  pub description_most : length p.description ≤ campaign_description_max_len
  pub sharer : p.has_revenue_sharing ≡ true → p.category ≡ Category.educational_startup
  pub share_some : p.has_revenue_sharing ≡ true → 0 < p.revenue_share_percentage
  pub share_most : p.has_revenue_sharing ≡ true → p.revenue_share_percentage ≤ revenue_share_max_bps
  pub cap : pos 0 ≤ℤ p.max_contribution_per_user

is_startup_eq : (c : Category) → is_startup c ≡ true → c ≡ Category.educational_startup
is_startup_eq c h = ground arith

pub check_params-Checked :
    (env : Host) (p : CreateCampaignParams) (s t : State)
    → check_params env p s ≡ ok tt t
    → Checked env p s
unfolding check_params check_goal check_duration check_texts check_share stored_share
check_params-Checked env p s t h = record {
  signed = ground arith;
  running = ground arith;
  enabled = ground arith;
  goal_positive = ground arith;
  goal_least = ground arith;
  goal_most = ground arith;
  duration_least = ground arith;
  duration_most = ground arith;
  title_least = ground arith;
  title_most = ground arith;
  title_free = ground arith;
  description_least = ground arith;
  description_most = ground arith;
  sharer = λ q. is_startup_eq p.category (ground arith);
  share_some = λ q. ground arith;
  share_most = λ q. ground arith;
  cap = ground arith;
}

module _ (env : Host) (p : CreateCampaignParams) (s : State) (v : Checked env p s) where
  check_goal-Checked : check_goal p.funding_goal s ≡ ok tt s
  unfolding check_goal
  check_goal-Checked = ground (arith, v.goal_positive, v.goal_least, v.goal_most)

  check_duration-Checked : check_duration p.category p.duration_days s ≡ ok tt s
  unfolding check_duration
  check_duration-Checked = ground (arith, v.duration_least, v.duration_most)

  check_texts-Checked : check_texts env p s ≡ ok tt s
  unfolding check_texts
  check_texts-Checked = ground arith

  check_share-Checked : check_share p s ≡ ok tt s
  unfolding check_share stored_share
  check_share-Checked = elim (Bool-cases p.has_revenue_sharing) [
    | inl q ↦
        let k : is_startup p.category ≡ true = ap is_startup (v.sharer q) in
        let l = v.share_some q in let m = v.share_most q in ground (arith, v.cap)
    | inr q ↦ ground (arith, v.cap)
  ]

  -- The checks ask for nothing else, and write nothing.
  pub Checked-passes : check_params env p s ≡ ok tt s
  unfolding check_params
  Checked-passes = ground (
    arith, v.signed, v.running, v.enabled, check_goal-Checked, check_duration-Checked,
    check_texts-Checked, check_share-Checked,
  )
