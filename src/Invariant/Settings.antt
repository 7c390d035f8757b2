-- ===== src/Invariant/Settings.antt =====
-- The settings of the admin: most are no part of the invariant, and the fee and the reserve stay
-- within their limits.
use proof_of_heart_stellar.Prelude.{ℕ, ◌≡◌, refl, Bool, List, [], ◌∷◌, arith}
use proof_of_heart_stellar.Prelude.Int.{ℤ}
use proof_of_heart_stellar.Types.{Address, Category}
use proof_of_heart_stellar.Host.{Host}
use proof_of_heart_stellar.Store.{State, remove_has_voted}
use proof_of_heart_stellar.Action.{ok}
use proof_of_heart_stellar.Admin.{init}
use proof_of_heart_stellar.Admin.Settings.{
  set_creation_disabled_fn, set_token_allowed_fn, set_voting_params, set_min_voting_balance_fn,
  update_platform_fee, set_transaction_cap, set_duration_cap, remove_duration_cap,
  set_category_voting_threshold, remove_category_voting_threshold, set_min_campaign_funding_goal_fn,
  set_max_campaign_funding_goal_fn, migrate, set_token_update_delay_secs_fn, remove_each,
  purge_voting_state,
}
use proof_of_heart_stellar.Campaigns.Withdraw.{set_vesting_params}
use proof_of_heart_stellar.Invariant.Defs.{IsSound, Same, Same-trans}
use proof_of_heart_stellar.Voting.{set_params}

module _ (env : Host) (s : State) {t : State} where
  pub set_creation_disabled_fn-Same :
      (b : Bool) → set_creation_disabled_fn env b s ≡ ok tt t → Same s t
  unfolding set_creation_disabled_fn
  set_creation_disabled_fn-Same b h = ground arith

  pub set_token_allowed_fn-Same :
      (a : Address) (b : Bool) → set_token_allowed_fn env a b s ≡ ok tt t → Same s t
  unfolding set_token_allowed_fn
  set_token_allowed_fn-Same a b h = ground arith

  pub set_voting_params-Same :
      (a : Address) (x y : ℕ) → set_voting_params env a x y s ≡ ok tt t → Same s t
  unfolding set_voting_params set_params
  set_voting_params-Same a x y h = ground arith

  pub set_min_voting_balance_fn-Same :
      (a : Address) (x : ℤ) → set_min_voting_balance_fn env a x s ≡ ok tt t → Same s t
  unfolding set_min_voting_balance_fn
  set_min_voting_balance_fn-Same a x h = ground arith

  pub set_transaction_cap-Same :
      (a : Address) (x : ℤ) → set_transaction_cap env a x s ≡ ok tt t → Same s t
  unfolding set_transaction_cap
  set_transaction_cap-Same a x h = ground arith

  pub set_duration_cap-Same :
      (a : Address) (c : Category) (x : ℕ) → set_duration_cap env a c x s ≡ ok tt t → Same s t
  unfolding set_duration_cap
  set_duration_cap-Same a c x h = ground arith

  pub remove_duration_cap-Same :
      (a : Address) (c : Category) → remove_duration_cap env a c s ≡ ok tt t → Same s t
  unfolding remove_duration_cap
  remove_duration_cap-Same a c h = ground arith

  pub set_category_voting_threshold-Same :
      (a : Address) (c : Category) (x : ℕ)
      → set_category_voting_threshold env a c x s ≡ ok tt t
      → Same s t
  unfolding set_category_voting_threshold
  set_category_voting_threshold-Same a c x h = ground arith

  pub remove_category_voting_threshold-Same :
      (a : Address) (c : Category) → remove_category_voting_threshold env a c s ≡ ok tt t → Same s t
  unfolding remove_category_voting_threshold
  remove_category_voting_threshold-Same a c h = ground arith

  pub set_min_campaign_funding_goal_fn-Same :
      (a : Address) (x : ℤ) → set_min_campaign_funding_goal_fn env a x s ≡ ok tt t → Same s t
  unfolding set_min_campaign_funding_goal_fn
  set_min_campaign_funding_goal_fn-Same a x h = ground arith

  pub set_max_campaign_funding_goal_fn-Same :
      (a : Address) (x : ℤ) → set_max_campaign_funding_goal_fn env a x s ≡ ok tt t → Same s t
  unfolding set_max_campaign_funding_goal_fn
  set_max_campaign_funding_goal_fn-Same a x h = ground arith

  pub migrate-Same : (a : Address) (x : ℕ) → migrate env a x s ≡ ok tt t → Same s t
  unfolding migrate
  migrate-Same a x h = ground arith

  pub set_token_update_delay_secs_fn-Same :
      (a : Address) (x : ℕ) → set_token_update_delay_secs_fn env a x s ≡ ok tt t → Same s t
  unfolding set_token_update_delay_secs_fn
  set_token_update_delay_secs_fn-Same a x h = ground arith

remove_each-Same : (id : ℕ) (voters : List Address) (s : State) → Same s (remove_each id voters s)
unfolding remove_each
remove_each-Same id [] s = (refl, (refl, refl, refl, refl, refl, refl, refl), refl)
remove_each-Same id (v ∷ vs) s =
    Same-trans s (remove_has_voted id v s) (remove_each id vs (remove_has_voted id v s))
      (refl, (refl, refl, refl, refl, refl, refl, refl), refl)
      (remove_each-Same id vs (remove_has_voted id v s))

pub purge_voting_state-Same :
    (env : Host) (s : State) {t : State} (id : ℕ) (voters : List Address) (b : Bool)
    → purge_voting_state env id voters b s ≡ ok tt t
    → Same s t
unfolding purge_voting_state
purge_voting_state-Same env s id voters b h = ground (arith, remove_each-Same id voters s)

-- The settings of the invariant move within their limits.
pub update_platform_fee-IsSound :
    (env : Host) (s : State) {t : State} (x : ℕ)
    → IsSound s
    → update_platform_fee env x s ≡ ok tt t
    → IsSound t
unfolding update_platform_fee
update_platform_fee-IsSound env s {t} x v h = record {
  campaigns = λ id. ground (arith, v.campaigns id);
  fee = ground arith;
  reserve = ground (arith, v.reserve);
  vesting = λ id. ground (arith, v.vesting id);
  contributions = λ id a. ground (arith, v.contributions id a);
}

pub set_vesting_params-IsSound :
    (env : Host) (s : State) {t : State} (a : Address) (x y : ℕ)
    → IsSound s
    → set_vesting_params env a x y s ≡ ok tt t
    → IsSound t
unfolding set_vesting_params
set_vesting_params-IsSound env s {t} a x y v h = record {
  campaigns = λ id. ground (arith, v.campaigns id);
  fee = ground (arith, v.fee);
  reserve = ground arith;
  vesting = λ id. ground (arith, v.vesting id);
  contributions = λ id a. ground (arith, v.contributions id a);
}

pub init-IsSound :
    (env : Host) (s : State) {t : State} (a b : Address) (x : ℕ)
    → IsSound s
    → init env a b x s ≡ ok tt t
    → IsSound t
unfolding init
init-IsSound env s {t} a b x v h = record {
  campaigns = λ id. ground (arith, v.campaigns id);
  fee = ground arith;
  reserve = ground arith;
  vesting = λ id. ground (arith, v.vesting id);
  contributions = λ id a. ground (arith, v.contributions id a);
}
