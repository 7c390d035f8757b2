-- ===== src/Invariant/Payouts.antt =====
-- Withdrawals in one payment and by milestones keep the invariant.
use proof_of_heart_stellar.Prelude.{Option-cases, ℕ, ◌≡◌, ◌⊎◌, inl, inr, true, false, some, arith}
use proof_of_heart_stellar.Prelude.Int.{ℤ}
use proof_of_heart_stellar.Types.{Campaign}
use proof_of_heart_stellar.Host.{Host}
use proof_of_heart_stellar.Store.{State, get_campaign}
use proof_of_heart_stellar.Action.{ok, transfer, Ensures, Keeps}
use proof_of_heart_stellar.Lifecycle.{transition}
use proof_of_heart_stellar.Campaigns.Withdraw.{
  ceil_bps, check_withdrawal, Split, split_funds, hold_reserve, close_campaign, fee_recipient,
  pay_out, withdraw_funds,
}
use proof_of_heart_stellar.Invariant.Defs.{IsSound, Same, Same-IsSound, Rewrites-IsSound, coherent}
use proof_of_heart_stellar.Invariant.Edits.{OnlyRewrites}
use proof_of_heart_stellar.Invariant.Ends.{IsCoherent-withdrawn}
use proof_of_heart_stellar.Invariant.Loops.{milestone_payout-Keeps}
use proof_of_heart_stellar.Milestones.{check_milestone_claim, claimable_milestone, claim_milestone}

close_campaign_effect :
    (id : ℕ) (c : Campaign) (s t : State)
    → close_campaign id c s ≡ ok tt t
    → OnlyRewrites id (record c { funds_withdrawn = true; is_active = false }) s t
unfolding close_campaign
close_campaign_effect id c s t h = ground arith

pay_out_effect :
    (env : Host) (id : ℕ) (c : Campaign) (days : ℕ) (x : Split) (s : State)
    → Ensures
        (OnlyRewrites id (record c { funds_withdrawn = true; is_active = false }) s)
        (pay_out env id c days x s)
unfolding pay_out close_campaign hold_reserve fee_recipient transfer
pay_out_effect env id c days x s = ground arith

split_funds-Keeps : (x : ℤ) (fee bps : ℕ) (s : State) → Keeps s (split_funds x fee bps s)
unfolding split_funds ceil_bps
split_funds-Keeps x fee bps s = ground arith

check_withdrawal-Keeps :
    (id : ℕ) (c : Campaign) (s : State)
    → Ensures
        (λ t. (t ≡ s) × (c.is_cancelled ≡ false) × (c.is_verified ≡ true))
        (check_withdrawal id c s)
unfolding check_withdrawal transition
check_withdrawal-Keeps id c s = ground arith

pub withdraw_effect :
    (env : Host) (id : ℕ) (s t : State) {c : Campaign}
    → get_campaign id s ≡ some c
    → withdraw_funds env id s ≡ ok tt t
    → (c.is_cancelled ≡ false)
      × (c.is_verified ≡ true)
      × OnlyRewrites id (record c { funds_withdrawn = true; is_active = false }) s t
unfolding withdraw_funds
withdraw_effect env id s t {c} e h =
    grind (arith, check_withdrawal-Keeps id c s, split_funds-Keeps, pay_out_effect)

pub milestone_effect :
    (env : Host) (id m : ℕ) (s t : State) {c : Campaign}
    → get_campaign id s ≡ some c
    → claim_milestone env id m s ≡ ok tt t
    → (c.is_cancelled ≡ false)
      × (c.is_verified ≡ true)
      × (OnlyRewrites id (record c { funds_withdrawn = true; is_active = false }) s t ⊎ Same s t)
unfolding claim_milestone check_milestone_claim claimable_milestone close_campaign transfer
milestone_effect env id m s t {c} e h = grind (arith, milestone_payout-Keeps)

module _ (env : Host) (id : ℕ) (s t : State) (v : IsSound s) where
  pub withdraw_funds-IsSound : withdraw_funds env id s ≡ ok tt t → IsSound t
  unfolding withdraw_funds
  withdraw_funds-IsSound h = elim (Option-cases (get_campaign id s)) [
    | inl e ↦ absurd (ground arith)
    | inr (c, e) ↦
        let (w, _, r) = withdraw_effect env id s t e h in
        Rewrites-IsSound id _ s t v (IsCoherent-withdrawn c (coherent id c s v e) w) r
  ]

  pub claim_milestone-IsSound : (m : ℕ) → claim_milestone env id m s ≡ ok tt t → IsSound t
  unfolding claim_milestone
  claim_milestone-IsSound m h = elim (Option-cases (get_campaign id s)) [
    | inl e ↦ absurd (ground arith)
    | inr (c, e) ↦
        let (w, _, r) = milestone_effect env id m s t e h in
        elim r [
          | inl r ↦ Rewrites-IsSound id _ s t v (IsCoherent-withdrawn c (coherent id c s v e) w) r
          | inr r ↦ Same-IsSound s t v r
        ]
  ]
