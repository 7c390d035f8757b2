-- ===== src/Store/Contributions.antt =====
-- Getters and setters of contributions and revenue (src/storage.rs).
use proof_of_heart_stellar.Prelude.{ℕ, Option, some, unwrap_or, insert, insert₂, erase₂}
use proof_of_heart_stellar.Prelude.Int.{ℤ, pos}
use proof_of_heart_stellar.Types.{Address}
use proof_of_heart_stellar.Store.Record.{State}

abbrev pub get_contribution : ℕ → Address → State → ℤ
get_contribution id a s = unwrap_or (pos 0) (s.contribution_keys.contribution id a)

abbrev pub set_contribution : ℕ → Address → ℤ → State → State
set_contribution id a v s = record s {
  contribution_keys = record (s.contribution_keys) {
    contribution = insert₂ id a v s.contribution_keys.contribution;
  };
}

abbrev pub remove_contribution : ℕ → Address → State → State
remove_contribution id a s = record s {
  contribution_keys = record (s.contribution_keys) {
    contribution = erase₂ id a s.contribution_keys.contribution;
  };
}

abbrev pub get_lifetime_contribution : ℕ → Address → State → ℤ
get_lifetime_contribution id a s =
    unwrap_or (pos 0) (s.contribution_keys.lifetime_contribution id a)

abbrev pub set_lifetime_contribution : ℕ → Address → ℤ → State → State
set_lifetime_contribution id a v s = record s {
  contribution_keys = record (s.contribution_keys) {
    lifetime_contribution = insert₂ id a v s.contribution_keys.lifetime_contribution;
  };
}

abbrev pub get_contributor_count : ℕ → State → ℕ
get_contributor_count id s = unwrap_or 0 (s.contribution_keys.contributor_count id)

abbrev pub set_contributor_count : ℕ → ℕ → State → State
set_contributor_count id v s = record s {
  contribution_keys = record (s.contribution_keys) {
    contributor_count = insert id v s.contribution_keys.contributor_count;
  };
}

abbrev pub get_top_contributor : ℕ → State → Option Address
get_top_contributor id s = s.contribution_keys.top_contributor id

abbrev pub set_top_contributor : ℕ → Address → State → State
set_top_contributor id v s = record s {
  contribution_keys = record (s.contribution_keys) {
    top_contributor = insert id v s.contribution_keys.top_contributor;
  };
}

abbrev pub get_last_contribution_time : ℕ → State → ℕ
get_last_contribution_time id s = unwrap_or 0 (s.contribution_keys.last_contribution_time id)

abbrev pub set_last_contribution_time : ℕ → ℕ → State → State
set_last_contribution_time id v s = record s {
  contribution_keys = record (s.contribution_keys) {
    last_contribution_time = insert id v s.contribution_keys.last_contribution_time;
  };
}

abbrev pub get_total_raised_global : State → ℤ
get_total_raised_global s = unwrap_or (pos 0) s.contribution_keys.total_raised

abbrev pub set_total_raised_global : ℤ → State → State
set_total_raised_global v s = record s {
  contribution_keys = record (s.contribution_keys) { total_raised = some v };
}

abbrev pub get_personal_cap : ℕ → Address → State → Option ℤ
get_personal_cap id a s = s.contribution_keys.personal_cap id a

abbrev pub set_personal_cap : ℕ → Address → ℤ → State → State
set_personal_cap id a v s = record s {
  contribution_keys = record (s.contribution_keys) {
    personal_cap = insert₂ id a v s.contribution_keys.personal_cap;
  };
}

abbrev pub remove_personal_cap : ℕ → Address → State → State
remove_personal_cap id a s = record s {
  contribution_keys = record (s.contribution_keys) {
    personal_cap = erase₂ id a s.contribution_keys.personal_cap;
  };
}

abbrev pub get_campaign_block_contribution_count : ℕ → State → ℕ × ℕ
get_campaign_block_contribution_count id s =
    unwrap_or (0, 0) (s.contribution_keys.block_campaign_contribution_count id)

abbrev pub set_campaign_block_contribution_count : ℕ → (ℕ × ℕ) → State → State
set_campaign_block_contribution_count id v s = record s {
  contribution_keys = record (s.contribution_keys) {
    block_campaign_contribution_count =
        insert id v s.contribution_keys.block_campaign_contribution_count;
  };
}

abbrev pub get_revenue_pool : ℕ → State → ℤ
get_revenue_pool id s = unwrap_or (pos 0) (s.revenue_keys.revenue_pool id)

abbrev pub set_revenue_pool : ℕ → ℤ → State → State
set_revenue_pool id v s = record s {
  revenue_keys = record (s.revenue_keys) { revenue_pool = insert id v s.revenue_keys.revenue_pool };
}

abbrev pub get_revenue_claimed : ℕ → Address → State → ℤ
get_revenue_claimed id a s = unwrap_or (pos 0) (s.revenue_keys.revenue_claimed id a)

abbrev pub set_revenue_claimed : ℕ → Address → ℤ → State → State
set_revenue_claimed id a v s = record s {
  revenue_keys = record (s.revenue_keys) {
    revenue_claimed = insert₂ id a v s.revenue_keys.revenue_claimed;
  };
}

abbrev pub remove_revenue_claimed : ℕ → Address → State → State
remove_revenue_claimed id a s = record s {
  revenue_keys = record (s.revenue_keys) {
    revenue_claimed = erase₂ id a s.revenue_keys.revenue_claimed;
  };
}

abbrev pub get_creator_revenue_claimed : ℕ → State → ℤ
get_creator_revenue_claimed id s = unwrap_or (pos 0) (s.revenue_keys.creator_revenue_claimed id)

abbrev pub set_creator_revenue_claimed : ℕ → ℤ → State → State
set_creator_revenue_claimed id v s = record s {
  revenue_keys = record (s.revenue_keys) {
    creator_revenue_claimed = insert id v s.revenue_keys.creator_revenue_claimed;
  };
}

abbrev pub get_contributor_revenue_distributed : ℕ → State → ℤ
get_contributor_revenue_distributed id s =
    unwrap_or (pos 0) (s.revenue_keys.contributor_revenue_distributed id)

abbrev pub set_contributor_revenue_distributed : ℕ → ℤ → State → State
set_contributor_revenue_distributed id v s = record s {
  revenue_keys = record (s.revenue_keys) {
    contributor_revenue_distributed = insert id v s.revenue_keys.contributor_revenue_distributed;
  };
}

abbrev pub get_contributor_revenue_claimants : ℕ → State → ℕ
get_contributor_revenue_claimants id s =
    unwrap_or 0 (s.revenue_keys.contributor_revenue_claimants id)

abbrev pub set_contributor_revenue_claimants : ℕ → ℕ → State → State
set_contributor_revenue_claimants id v s = record s {
  revenue_keys = record (s.revenue_keys) {
    contributor_revenue_claimants = insert id v s.revenue_keys.contributor_revenue_claimants;
  };
}
