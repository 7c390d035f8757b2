-- ===== src/Contributions/Effects.antt =====
-- What an accepted contribution has checked and what it writes: src/contributions.rs.
use proof_of_heart_stellar.Prelude.{
  ◌==◌, if◌then◌else◌, insert, insert₂, ℕ, ◌+◌, ◌≤◌, ◌≡◌, ◌≢◌, ◌⊎◌, true, not, ◌&&◌, none, some,
  arith,
}
use proof_of_heart_stellar.Prelude.Int.{ℤ, pos, ◌+ℤ◌, ◌<ℤ◌, checked_add}
use proof_of_heart_stellar.Prelude.Words.{checked_add_u32}
use proof_of_heart_stellar.Types.{Address, Campaign}
use proof_of_heart_stellar.Host.{Host}
use proof_of_heart_stellar.Store.{
  State, get_contribution, get_lifetime_contribution, get_total_raised_global,
  get_campaign_block_contribution_count, set_campaign_block_contribution_count, get_campaign,
}
use proof_of_heart_stellar.Action.{ok, Ensures, Keeps}
use proof_of_heart_stellar.Contributions.{
  check_contribution_caps, check_transaction_contribution_cap, check_personal_cap,
  check_burst_count, check_burst_guard, update_contribution_accounting, check_open, check_limits,
  accept_contribution,
}

-- The state with one more contribution counted in the present ledger.
abbrev counted : Host → ℕ → State → State
counted env id s =
    let last = get_campaign_block_contribution_count id s in
    set_campaign_block_contribution_count id
      (env.sequence, (if env.sequence == last.0 then last.1 + 1 else 1)) s

check_burst_guard_counts :
    (env : Host) (id : ℕ) (c : Campaign) (amount : ℤ) (s : State)
    → Ensures (λ t. (t ≡ s) ⊎ (t ≡ counted env id s)) (check_burst_guard env id c amount s)
unfolding check_burst_guard check_burst_count checked_add_u32
check_burst_guard_counts env id c amount s = ground arith

check_personal_cap-Keeps :
    (id : ℕ) (a : Address) (current amount : ℤ) (s : State)
    → Keeps s (check_personal_cap id a current amount s)
unfolding check_personal_cap
check_personal_cap-Keeps id a current amount s = ground arith

-- The limits of a contribution write nothing but the count of the ledger.
check_limits_counts :
    (env : Host) (id : ℕ) (a : Address) (amount : ℤ) (c : Campaign) (current lifetime : ℤ)
    (s : State)
    → Ensures
        (λ t. (t ≡ s) ⊎ (t ≡ counted env id s))
        (check_limits env id a amount c current lifetime s)
unfolding check_limits check_transaction_contribution_cap check_contribution_caps
check_limits_counts env id a amount c current lifetime s = ground (
  arith,
  check_personal_cap-Keeps id a current amount s,
  check_burst_guard_counts env id c amount s,
)

-- The campaign after a contribution.
abbrev pub raised_by : ℤ → Campaign → Campaign
raised_by amount c = record c {
  amount_raised = c.amount_raised +ℤ amount;
  effective_amount_raised = c.effective_amount_raised +ℤ amount;
}

-- What an accepted contribution of `a` to the campaign `c` has passed.
pub record IsOpenTo (env : Host) (a : Address) (amount : ℤ) (c : Campaign) : Type 0 where
  pub amount_positive : pos 0 <ℤ amount
  pub campaign_verified : c.is_verified ≡ true
  pub campaign_active : (c.is_active && not c.is_cancelled) ≡ true
  pub not_creator : a ≢ c.creator
  pub in_time : env.timestamp ≤ c.deadline

-- What it has written.
pub record Accounted (id : ℕ) (a : Address) (amount : ℤ) (c : Campaign) (current lifetime : ℤ)
    (s t : State) : Type 0 where
  pub campaigns : t.campaign_keys.campaign ≡ insert id (raised_by amount c) s.campaign_keys.campaign
  pub contributions :
      t.contribution_keys.contribution
      ≡ insert₂ id a (current +ℤ amount) s.contribution_keys.contribution
  pub lifetimes :
      t.contribution_keys.lifetime_contribution
      ≡ insert₂ id a (lifetime +ℤ amount) s.contribution_keys.lifetime_contribution
  pub total : get_total_raised_global t ≡ get_total_raised_global s +ℤ amount
  pub admin_keys : t.admin_keys ≡ s.admin_keys
  pub vesting : t.campaign_keys.campaign_vesting ≡ s.campaign_keys.campaign_vesting
  pub tokens : t.campaign_keys.campaign_token ≡ s.campaign_keys.campaign_token
  pub count : t.campaign_keys.campaign_count ≡ s.campaign_keys.campaign_count
  pub category_count :
      t.campaign_keys.category_campaign_count ≡ s.campaign_keys.category_campaign_count
  pub category_buckets :
      t.campaign_keys.category_campaigns_bucket ≡ s.campaign_keys.category_campaigns_bucket
  pub transfers : t.transfers ≡ s.transfers

update_accounting_effect :
    (id : ℕ) (a : Address) (amount : ℤ) (c : Campaign) (current lifetime : ℤ) (s : State)
    → Ensures
        (Accounted id a amount c current lifetime s)
        (update_contribution_accounting id a c current lifetime amount s)
unfolding update_contribution_accounting checked_add
update_accounting_effect id a amount c current lifetime s = ground arith

pub accept_contribution_open :
    (env : Host) (id : ℕ) (a : Address) (amount : ℤ) (s : State) {c : Campaign} {current : ℤ}
    {t : State}
    → get_campaign id s ≡ some c
    → accept_contribution env id a amount s ≡ ok current t
    → IsOpenTo env a amount c
unfolding accept_contribution check_open
accept_contribution_open env id a amount s e h = ground arith

pub accept_contribution_effect :
    (env : Host) (id : ℕ) (a : Address) (amount : ℤ) (s : State) {c : Campaign} {current : ℤ}
    {t : State}
    → get_campaign id s ≡ some c
    → accept_contribution env id a amount s ≡ ok current t
    → (current ≡ get_contribution id a s)
      × Accounted id a amount c (get_contribution id a s) (get_lifetime_contribution id a s) s t
unfolding accept_contribution check_open
accept_contribution_effect env id a amount s {c} e h =
    let before = get_contribution id a s in
    let lifetime = get_lifetime_contribution id a s in
    ground (
      arith,
      check_limits_counts env id a amount c before lifetime s,
      update_accounting_effect id a amount c before lifetime s,
      update_accounting_effect id a amount c before lifetime (counted env id s),
    )

pub accept_contribution_missing :
    (env : Host) (id : ℕ) (a : Address) (amount : ℤ) (s : State) {current : ℤ} {t : State}
    → get_campaign id s ≡ none
    → accept_contribution env id a amount s ≢ ok current t
unfolding accept_contribution
accept_contribution_missing env id a amount s e h = ground arith
