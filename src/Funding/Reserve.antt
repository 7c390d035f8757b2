-- ===== src/Funding/Reserve.antt =====
-- The withheld reserve of a withdrawal and its release (src/withdrawals.rs).
use proof_of_heart_stellar.Prelude.{
  Option-cases, insert, ℕ, ◌≤◌, ◌≡◌, inl, inr, true, false, some, arith,
}
use proof_of_heart_stellar.Prelude.Int.{◌-ℤ◌, checked_sub}
use proof_of_heart_stellar.Types.{Campaign, CampaignReserve}
use proof_of_heart_stellar.Host.{Host}
use proof_of_heart_stellar.Store.{
  State, get_total_raised_global, get_campaign, get_campaign_reserve,
}
use proof_of_heart_stellar.Action.{ok, transfer, invoke}
use proof_of_heart_stellar.Campaigns.Withdraw.{withdraw_reserve}
use proof_of_heart_stellar.Funding.Books.{Moved}
use proof_of_heart_stellar.Safety.{invoke-Refused}

pub record Released (env : Host) (id : ℕ) (r : CampaignReserve) (c : Campaign) (s t : State)
    : Type 0 where
  pub held : r.released ≡ false
  pub due : r.release_timestamp ≤ env.timestamp
  pub withdrawn_before : c.funds_withdrawn ≡ true
  pub signed : env.is_authorized c.creator ≡ true
  pub spent :
      t.campaign_keys.campaign_reserve
      ≡ insert id (record r { released = true }) s.campaign_keys.campaign_reserve
  pub campaigns : t.campaign_keys.campaign ≡ s.campaign_keys.campaign
  pub total : get_total_raised_global t ≡ get_total_raised_global s -ℤ r.amount
  pub moved : Moved id env.contract_address c.creator r.amount s t

module _ (env : Host) (id : ℕ) (s t : State) {r : CampaignReserve} {c : Campaign}
    (f : get_campaign_reserve id s ≡ some r) (e : get_campaign id s ≡ some c)
    (h : withdraw_reserve env id s ≡ ok tt t) where
  -- A release of a reserve that returns is of one not released before, at or after its time, of a
  -- withdrawn campaign whose creator signed; it marks the reserve as released, takes it from the
  -- total, moves it to the creator and leaves the campaigns as they are.
  pub withdraw_reserve-Released : Released env id r c s t
  unfolding withdraw_reserve transfer checked_sub
  withdraw_reserve-Released = record {
    held = ground arith;
    due = ground arith;
    withdrawn_before = ground arith;
    signed = ground arith;
    spent = ground arith;
    campaigns = ground arith;
    total = ground arith;
    moved = ground arith;
  }

-- After a release of a reserve that returns, a second one changes nothing.
pub withdraw_reserve_once :
    (env env' : Host) (id : ℕ) (s t : State)
    → withdraw_reserve env id s ≡ ok tt t
    → invoke (withdraw_reserve env' id) t ≡ t
unfolding withdraw_reserve
withdraw_reserve_once env env' id s t h =
    invoke-Refused (withdraw_reserve env' id) t (elim (Option-cases (get_campaign_reserve id s)) [
      | inl f ↦ absurd (ground arith)
      | inr (r, f) ↦ elim (Option-cases (get_campaign id s)) [
        | inl e ↦ absurd (ground arith)
        | inr (c, e) ↦
            let p = withdraw_reserve-Released env id s t f e h in
            let q : get_campaign_reserve id t ≡ some (record r { released = true }) =
              grind (arith, p.spent) in
            ground arith
      ]
    ])

module _ (env env' : Host) (id : ℕ) (s t : State) {r : CampaignReserve} {c : Campaign} where
  -- A release of a reserve that returns is of one not released before, at or after its time, of a
  -- withdrawn campaign whose creator signed; it marks the reserve as released, takes it from the
  -- total, moves it to the creator and leaves the campaigns as they are, and a second release
  -- changes nothing.
  pub withdraw_reserve_settles :
      get_campaign_reserve id s ≡ some r
      → get_campaign id s ≡ some c
      → withdraw_reserve env id s ≡ ok tt t
      → Released env id r c s t × (invoke (withdraw_reserve env' id) t ≡ t)
  withdraw_reserve_settles f e h =
      (withdraw_reserve-Released env id s t f e h, withdraw_reserve_once env env' id s t h)
