-- ===== src/Funding/Shares.antt =====
-- The creator's side of the revenue pool: src/revenue.rs.
use proof_of_heart_stellar.Prelude.{ℕ, ◌-◌, ◌*◌, ◌/◌, ◌≤◌, ◌≡◌, ◌⊎◌, none, some, arith}
use proof_of_heart_stellar.Prelude.Int.{
  ℤ, pos, ◌+ℤ◌, ◌-ℤ◌, ◌*ℤ◌, ◌/ℤ◌, ◌<ℤ◌, checked_add, checked_sub, checked_mul, checked_div,
  -ℤ_parts, int_laws,
}
use proof_of_heart_stellar.Types.{Campaign}
use proof_of_heart_stellar.Types.Limits.{bps_denominator}
use proof_of_heart_stellar.Host.{Host}
use proof_of_heart_stellar.Store.{
  State, get_revenue_pool, get_creator_revenue_claimed, get_campaign,
}
use proof_of_heart_stellar.Action.{ok, transfer}
use proof_of_heart_stellar.Funding.Books.{Moved}
use proof_of_heart_stellar.Funding.Payouts.{mul_bound}
use proof_of_heart_stellar.Revenue.{creator_share, claim_creator_revenue}

-- The creator's share of a pool of `n`, rounded down.
abbrev pub share_of : Campaign → ℕ → ℕ
share_of c n = n * (bps_denominator - c.revenue_share_percentage) / bps_denominator

creator_share_value :
    (c : Campaign) (n : ℕ)
    → c.revenue_share_percentage ≤ bps_denominator
    → (creator_share c (pos n) ≡ some (pos (share_of c n))) ⊎ (creator_share c (pos n) ≡ none)
unfolding creator_share checked_mul checked_div ◌*ℤ◌ ◌-ℤ◌ ◌/ℤ◌
creator_share_value c n p = ground arith

share_of_bound : (c : Campaign) (n : ℕ) → share_of c n ≤ n
share_of_bound c n =
    ground (arith, mul_bound n (bps_denominator - c.revenue_share_percentage) bps_denominator)

+ℤ-cancel : (a b : ℤ) → b +ℤ (a -ℤ b) ≡ a
+ℤ-cancel a b = grind int_laws

-- What the creator's claim has written.
pub record CreatorPaid (env : Host) (id n : ℕ) (c : Campaign) (s t : State) : Type 0 where
  pub claimed : get_creator_revenue_claimed id t ≡ pos (share_of c n)
  pub more : get_creator_revenue_claimed id s <ℤ pos (share_of c n)
  pub pool : get_revenue_pool id t ≡ get_revenue_pool id s
  pub campaign : get_campaign id t ≡ some c
  pub moved :
      Moved id env.contract_address c.creator
        (pos (share_of c n) -ℤ get_creator_revenue_claimed id s)
        s
        t

module _ (env : Host) (id n : ℕ) (s t : State) {c : Campaign} (e : get_campaign id s ≡ some c)
    (k : get_revenue_pool id s ≡ pos n) (h : claim_creator_revenue env id s ≡ ok tt t) where
  share_within : c.revenue_share_percentage ≤ bps_denominator
  unfolding claim_creator_revenue
  share_within = ground arith

  -- A claim of the creator that returns, on a pool of `n`, brings what the creator has claimed to
  -- exactly the creator's share of `n`, rounded down, which is more than before; it leaves the
  -- pool and the campaign alone and moves the difference.
  pub claim_creator_revenue-CreatorPaid : CreatorPaid env id n c s t
  unfolding claim_creator_revenue checked_add checked_sub transfer
  claim_creator_revenue-CreatorPaid =
      let v = creator_share_value c n share_within in
      let x = get_creator_revenue_claimed id s in
      let z = pos (share_of c n) in
      record {
        claimed = ground (arith, v, +ℤ-cancel z x);
        more = ground (arith, v, -ℤ_parts z x);
        pool = ground (arith, v);
        campaign = ground (arith, v);
        moved = ground (arith, v);
      }
