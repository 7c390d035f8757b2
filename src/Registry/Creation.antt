-- ===== src/Registry/Creation.antt =====
-- Creation of a campaign, as a move.
use proof_of_heart_stellar.Prelude.{ℕ, ◌+◌, ◌*◌, ◌≡◌, refl, Option, none, some, arith}
use proof_of_heart_stellar.Prelude.Words.{checked_add_u32}
use proof_of_heart_stellar.Types.{Address, CreateCampaignParams}
use proof_of_heart_stellar.Types.Limits.{seconds_per_day}
use proof_of_heart_stellar.Host.{Host}
use proof_of_heart_stellar.Store.{State, get_campaign_count}
use proof_of_heart_stellar.Action.{ok, pure, ◌>>=◌, ◌>>◌, >>=-eq-ok}
use proof_of_heart_stellar.Lifecycle.{state_of, increment_active_campaign_count}
use proof_of_heart_stellar.Campaigns.Create.{
  new_campaign, create_campaign_inner, create_campaign, create_campaign_with_token,
}
use proof_of_heart_stellar.Governance.Terms.{calculate_deadline_value}
use proof_of_heart_stellar.Invariant.{Same}
use proof_of_heart_stellar.Invariant.Creation.{
  choose_token-Keeps, Added, store_campaign_effect, check_params-Ensures,
}
use proof_of_heart_stellar.Registry.{Move, entered, Moves, next, one}
use proof_of_heart_stellar.Registry.Edits.{Same-Move}

create_campaign_inner-Added :
    (env : Host) (p : CreateCampaignParams) (x : Option Address) (s : State) {id : ℕ} {t : State}
    → create_campaign_inner env p x s ≡ ok id t
    → (id ≡ get_campaign_count s + 1)
      × Added env p id (env.timestamp + p.duration_days * seconds_per_day) s t
unfolding create_campaign_inner checked_add_u32
create_campaign_inner-Added env p x s h = grind (
  arith,
  check_params-Ensures env p s,
  choose_token-Keeps x s,
  calculate_deadline_value env.timestamp p.duration_days s,
  store_campaign_effect,
)

create_campaign_inner-Move :
    (env : Host) (p : CreateCampaignParams) (x : Option Address) (s t : State) {id : ℕ}
    → create_campaign_inner env p x s ≡ ok id t
    → Move s t
unfolding state_of
create_campaign_inner-Move env p x s t {id} h =
    let (i, w) = create_campaign_inner-Added env p x s h in
    entered (new_campaign p id (env.timestamp + p.duration_days * seconds_per_day)) i refl w.0 w.5
      w.6 w.7

-- The count of the active campaigns is no part of a move.
counted_in :
    (env : Host) (p : CreateCampaignParams) (x : Option Address) (s t : State) {id : ℕ}
    → (create_campaign_inner env p x >>= λ j. increment_active_campaign_count >> pure j) s ≡ ok id t
    → Moves s t
counted_in env p x s t h =
    let (j, u, e, k) =
      >>=-eq-ok (create_campaign_inner env p x) (λ j. increment_active_campaign_count >> pure j) s
        h in
    let after : Same u t = ground arith in
    next (one (create_campaign_inner-Move env p x s u e)) (Same-Move u t after)

module _ (env : Host) (p : CreateCampaignParams) (s t : State) {id : ℕ} where
  pub create_campaign-Moves : create_campaign env p s ≡ ok id t → Moves s t
  unfolding create_campaign
  create_campaign-Moves h = counted_in env p none s t h

  pub create_campaign_with_token-Moves :
      (token : Address) → create_campaign_with_token env p token s ≡ ok id t → Moves s t
  unfolding create_campaign_with_token
  create_campaign_with_token-Moves token h = counted_in env p (some token) s t h
