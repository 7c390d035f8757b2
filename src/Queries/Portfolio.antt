-- ===== src/Queries/Portfolio.antt =====
-- What a contributor has in the campaigns (src/queries.rs: `get_contributor_portfolio`). The five
-- status texts are the constructors of `Status`.
use proof_of_heart_stellar.Prelude.{
  ltb, if◌then◌else◌, ◌and_then◌, prepend, ℕ, zero, suc, ◌+◌, Bool, not, ◌&&◌, ◌||◌, Option, none,
  some, List, [],
}
use proof_of_heart_stellar.Prelude.Int.{ℤ, pos, ltb_ℤ, eqb_ℤ}
use proof_of_heart_stellar.Types.{Address, Campaign}
use proof_of_heart_stellar.Host.{Host}
use proof_of_heart_stellar.Store.{State, get_contribution, get_campaign_count, get_campaign}

pub data Status : Type 0 where
  cancelled : Status
  withdrawn : Status
  inactive : Status
  verified : Status
  active : Status

pub record Holding : Type 0 where
  pub campaign_id : ℕ
  pub amount : ℤ
  pub status : Status
  pub refundable : Bool

abbrev pub status_of : Campaign → Status
status_of campaign =
    if campaign.is_cancelled
    then cancelled
    else (if campaign.funds_withdrawn
        then withdrawn
        else (if not campaign.is_active
            then inactive
            else (if campaign.is_verified then verified else active)))

abbrev pub is_refundable : Host → Campaign → Bool
is_refundable env campaign =
    campaign.is_cancelled
    || ltb campaign.deadline env.timestamp && ltb_ℤ campaign.amount_raised campaign.funding_goal

-- One turn of the loop: nothing where the contribution is zero or no campaign is stored.
unfoldable pub holding : Host → Address → ℕ → State → Option Holding
holding env contributor id s =
    if eqb_ℤ (get_contribution id contributor s) (pos 0)
    then none
    else (get_campaign id s and_then λ campaign. some (record {
      campaign_id = id;
      amount = get_contribution id contributor s;
      status = status_of campaign;
      refundable = is_refundable env campaign;
    }))

unfoldable pub holdings_from : Host → Address → ℕ → ℕ → State → List Holding
holdings_from env contributor id zero s = []
holdings_from env contributor id (suc left) s =
    prepend (holding env contributor id s) (holdings_from env contributor (id + 1) left s)

unfoldable pub get_contributor_portfolio : Host → Address → State → List Holding
get_contributor_portfolio env contributor s =
    holdings_from env contributor 1 (get_campaign_count s) s
