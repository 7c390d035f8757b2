-- ===== src/Registry/Edits.antt =====
-- The calls that rewrite one campaign, as moves.
use proof_of_heart_stellar.Prelude.{Option-cases, ℕ, ◌*◌, ◌≡◌, inl, inr, none, some, arith}
use proof_of_heart_stellar.Prelude.Int.{◌-ℤ◌}
use proof_of_heart_stellar.Types.{Address, Text, Campaign}
use proof_of_heart_stellar.Types.Limits.{seconds_per_day}
use proof_of_heart_stellar.Host.{Host}
use proof_of_heart_stellar.Store.{State, get_contribution, get_campaign}
use proof_of_heart_stellar.Action.{ok}
use proof_of_heart_stellar.Admin.Settings.{set_campaign_fee_override}
use proof_of_heart_stellar.Campaigns.Cancel.{cancel_campaign, admin_cancel_campaign}
use proof_of_heart_stellar.Campaigns.Transfer.{
  initiate_campaign_transfer, accept_campaign_transfer, cancel_campaign_transfer,
}
use proof_of_heart_stellar.Campaigns.Update.{
  update_campaign, update_campaign_description, extend_campaign_deadline,
}
use proof_of_heart_stellar.Campaigns.Withdraw.{withdraw_funds}
use proof_of_heart_stellar.Contributions.{claim_refund}
use proof_of_heart_stellar.Invariant.{Same}
use proof_of_heart_stellar.Invariant.Edits.{OnlyRewrites, extend_effect, accept_effect}
use proof_of_heart_stellar.Invariant.Ends.{cancel_effect, admin_cancel_effect, refund_effect}
use proof_of_heart_stellar.Invariant.Payouts.{withdraw_effect, milestone_effect}
use proof_of_heart_stellar.Milestones.{claim_milestone}
use proof_of_heart_stellar.Registry.{Progress, Move, idle, changed}
use proof_of_heart_stellar.Registry.Rewritings.{
  Progress-texts, Progress-description, Progress-deadline, Progress-pending, Progress-creator,
  Progress-fee, Progress-cancelled, Progress-withdrawn, Progress-effective,
}

pub Same-Move : (s t : State) → Same s t → Move s t
Same-Move s t k = idle (ground arith) (ground arith)

pub rewritten :
    (id : ℕ) (c d : Campaign) (s t : State)
    → get_campaign id s ≡ some c
    → Progress c d
    → OnlyRewrites id d s t
    → Move s t
rewritten id c d s t e p r = changed id c d e p (ground arith) (ground arith)

module _ (env : Host) (id : ℕ) (s t : State) where
  pub update_campaign-Move : (x y : Text) → update_campaign env id x y s ≡ ok tt t → Move s t
  unfolding update_campaign
  update_campaign-Move x y h = elim (Option-cases (get_campaign id s)) [
    | inl e ↦ absurd (ground arith)
    | inr (c, e) ↦ rewritten id c _ s t e (Progress-texts c x y) (ground arith)
  ]

  pub update_campaign_description-Move :
      (x : Text) → update_campaign_description env id x s ≡ ok tt t → Move s t
  unfolding update_campaign_description
  update_campaign_description-Move x h = elim (Option-cases (get_campaign id s)) [
    | inl e ↦ absurd (ground arith)
    | inr (c, e) ↦ rewritten id c _ s t e (Progress-description c x) (ground arith)
  ]

  pub extend_campaign_deadline-Move :
      (x : ℕ) → extend_campaign_deadline env id x s ≡ ok tt t → Move s t
  unfolding extend_campaign_deadline
  extend_campaign_deadline-Move x h = elim (Option-cases (get_campaign id s)) [
    | inl e ↦ absurd (ground arith)
    | inr (c, e) ↦
        rewritten id c _ s t e (Progress-deadline c (x * seconds_per_day))
          (extend_effect env id s t x e h)
  ]

  pub initiate_campaign_transfer-Move :
      (a : Address) → initiate_campaign_transfer env id a s ≡ ok tt t → Move s t
  unfolding initiate_campaign_transfer
  initiate_campaign_transfer-Move a h = elim (Option-cases (get_campaign id s)) [
    | inl e ↦ absurd (ground arith)
    | inr (c, e) ↦ rewritten id c _ s t e (Progress-pending c (some a)) (ground arith)
  ]

  pub cancel_campaign_transfer-Move : cancel_campaign_transfer env id s ≡ ok tt t → Move s t
  unfolding cancel_campaign_transfer
  cancel_campaign_transfer-Move h = elim (Option-cases (get_campaign id s)) [
    | inl e ↦ absurd (ground arith)
    | inr (c, e) ↦ rewritten id c _ s t e (Progress-pending c none) (ground arith)
  ]

  pub accept_campaign_transfer-Move : accept_campaign_transfer env id s ≡ ok tt t → Move s t
  unfolding accept_campaign_transfer
  accept_campaign_transfer-Move h = elim (Option-cases (get_campaign id s)) [
    | inl e ↦ absurd (ground arith)
    | inr (c, e) ↦ elim (Option-cases c.pending_creator) [
      | inl p ↦ absurd (ground arith)
      | inr (a, p) ↦ rewritten id c _ s t e (Progress-creator c a) (accept_effect env id s t e p h)
    ]
  ]

  pub set_campaign_fee_override-Move :
      (a : Address) (x : ℕ) → set_campaign_fee_override env id a x s ≡ ok tt t → Move s t
  unfolding set_campaign_fee_override
  set_campaign_fee_override-Move a x h = elim (Option-cases (get_campaign id s)) [
    | inl e ↦ absurd (ground arith)
    | inr (c, e) ↦ rewritten id c _ s t e (Progress-fee c x) (ground arith)
  ]

  pub cancel_campaign-Move : cancel_campaign env id s ≡ ok tt t → Move s t
  unfolding cancel_campaign
  cancel_campaign-Move h = elim (Option-cases (get_campaign id s)) [
    | inl e ↦ absurd (ground arith)
    | inr (c, e) ↦
        let (w, r) = cancel_effect env id s t e h in
        rewritten id c _ s t e (Progress-cancelled c w) r
  ]

  pub admin_cancel_campaign-Move :
      (a : Address) (x : Text) → admin_cancel_campaign env a id x s ≡ ok tt t → Move s t
  unfolding admin_cancel_campaign
  admin_cancel_campaign-Move a x h = elim (Option-cases (get_campaign id s)) [
    | inl e ↦ absurd (ground arith)
    | inr (c, e) ↦
        let (w, r) = admin_cancel_effect env id s t a x e h in
        rewritten id c _ s t e (Progress-cancelled c w) r
  ]

  pub claim_refund-Move : (a : Address) → claim_refund env id a s ≡ ok tt t → Move s t
  unfolding claim_refund
  claim_refund-Move a h = elim (Option-cases (get_campaign id s)) [
    | inl e ↦ absurd (ground arith)
    | inr (c, e) ↦
        let r = refund_effect env id s t a e h in
        changed id c _ e
          (Progress-effective c (c.effective_amount_raised -ℤ get_contribution id a s)) r.0
          (ground arith)
  ]

  pub withdraw_funds-Move : withdraw_funds env id s ≡ ok tt t → Move s t
  unfolding withdraw_funds
  withdraw_funds-Move h = elim (Option-cases (get_campaign id s)) [
    | inl e ↦ absurd (ground arith)
    | inr (c, e) ↦
        let (w, v, r) = withdraw_effect env id s t e h in
        rewritten id c _ s t e (Progress-withdrawn c w v) r
  ]

  pub claim_milestone-Move : (m : ℕ) → claim_milestone env id m s ≡ ok tt t → Move s t
  unfolding claim_milestone
  claim_milestone-Move m h = elim (Option-cases (get_campaign id s)) [
    | inl e ↦ absurd (ground arith)
    | inr (c, e) ↦
        let (w, v, r) = milestone_effect env id m s t e h in
        elim r [
          | inl r ↦ rewritten id c _ s t e (Progress-withdrawn c w v) r
          | inr r ↦ Same-Move s t r
        ]
  ]
