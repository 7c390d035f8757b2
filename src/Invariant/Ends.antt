-- ===== src/Invariant/Ends.antt =====
-- Cancellation, withdrawal and refunds keep the invariant.
use proof_of_heart_stellar.Prelude.{
  Option-cases, erase₂, ℕ, ◌≡◌, inl, inr, true, false, some, arith,
}
use proof_of_heart_stellar.Prelude.Int.{ℤ, pos, ◌-ℤ◌, ◌≤ℤ◌, checked_sub, int_laws}
use proof_of_heart_stellar.Types.{Address, Text, Campaign}
use proof_of_heart_stellar.Host.{Host}
use proof_of_heart_stellar.Store.{State, get_contribution, set_revenue_pool, get_campaign}
use proof_of_heart_stellar.Action.{ok, transfer, Ensures}
use proof_of_heart_stellar.Lifecycle.{transition}
use proof_of_heart_stellar.Campaigns.Cancel.{mark_cancelled, cancel_campaign, admin_cancel_campaign}
use proof_of_heart_stellar.Contributions.{claim_refund}
use proof_of_heart_stellar.Invariant.Defs.{
  IsCoherent, IsSound, SameSettings, Rewrites, CoherentAt-Rewrites, Rewrites-IsSound, coherent,
}
use proof_of_heart_stellar.Invariant.Edits.{OnlyRewrites}

module _ (c : Campaign) (k : IsCoherent c) where
  IsCoherent-cancelled :
      c.funds_withdrawn ≡ false → IsCoherent (record c { is_cancelled = true; is_active = false })
  IsCoherent-cancelled w = ground arith

  pub IsCoherent-withdrawn :
      c.is_cancelled ≡ false → IsCoherent (record c { funds_withdrawn = true; is_active = false })
  IsCoherent-withdrawn w = ground arith

  IsCoherent-refunded :
      (x : ℤ)
      → pos 0 ≤ℤ x
      → IsCoherent (record c { effective_amount_raised = c.effective_amount_raised -ℤ x })
  IsCoherent-refunded x p = grind int_laws

mark_cancelled_effect :
    (id : ℕ) (c : Campaign) (s : State)
    → Ensures
        (OnlyRewrites id (record c { is_cancelled = true; is_active = false }) s)
        (mark_cancelled id c s)
unfolding mark_cancelled
mark_cancelled_effect id c s = ground arith

module _ (env : Host) (id : ℕ) (s t : State) where
  pub cancel_effect :
      {c : Campaign}
      → get_campaign id s ≡ some c
      → cancel_campaign env id s ≡ ok tt t
      → (c.funds_withdrawn ≡ false)
        × OnlyRewrites id (record c { is_cancelled = true; is_active = false }) s t
  unfolding cancel_campaign transition transfer
  cancel_effect {c} e h = ground (
    arith,
    mark_cancelled_effect id c s,
    mark_cancelled_effect id c (set_revenue_pool id (pos 0) s),
  )

  pub admin_cancel_effect :
      (a : Address) (x : Text) {c : Campaign}
      → get_campaign id s ≡ some c
      → admin_cancel_campaign env a id x s ≡ ok tt t
      → (c.funds_withdrawn ≡ false)
        × OnlyRewrites id (record c { is_cancelled = true; is_active = false }) s t
  unfolding admin_cancel_campaign transition
  admin_cancel_effect a x {c} e h = ground (arith, mark_cancelled_effect id c s)

  pub refund_effect :
      (a : Address) {c : Campaign}
      → get_campaign id s ≡ some c
      → claim_refund env id a s ≡ ok tt t
      → Rewrites id
          (record c {
            effective_amount_raised = c.effective_amount_raised -ℤ get_contribution id a s;
          })
          s
          t
        × SameSettings s t
        × (t.contribution_keys.contribution ≡ erase₂ id a s.contribution_keys.contribution)
  unfolding claim_refund transfer checked_sub
  refund_effect a e h = ground arith

pub IsSound-refunded :
    (id : ℕ) (a : Address) (c : Campaign) (s t : State)
    → IsSound s
    → IsCoherent c
    → Rewrites id c s t
      × SameSettings s t
      × (t.contribution_keys.contribution ≡ erase₂ id a s.contribution_keys.contribution)
    → IsSound t
IsSound-refunded id a c s t v k e = record {
  campaigns = CoherentAt-Rewrites id c s t v.campaigns k e.0;
  fee = rw e.1.0 v.fee;
  reserve = rw e.1.1 v.reserve;
  vesting = λ j. rw e.1.2 (v.vesting j);
  contributions = λ j b. rw e.2 (ground (arith, v.contributions j b));
}

module _ (env : Host) (id : ℕ) (s t : State) (v : IsSound s) where
  pub cancel_campaign-IsSound : cancel_campaign env id s ≡ ok tt t → IsSound t
  unfolding cancel_campaign
  cancel_campaign-IsSound h = elim (Option-cases (get_campaign id s)) [
    | inl e ↦ absurd (ground arith)
    | inr (c, e) ↦
        let (w, r) = cancel_effect env id s t e h in
        Rewrites-IsSound id _ s t v (IsCoherent-cancelled c (coherent id c s v e) w) r
  ]

  pub admin_cancel_campaign-IsSound :
      (a : Address) (x : Text) → admin_cancel_campaign env a id x s ≡ ok tt t → IsSound t
  unfolding admin_cancel_campaign
  admin_cancel_campaign-IsSound a x h = elim (Option-cases (get_campaign id s)) [
    | inl e ↦ absurd (ground arith)
    | inr (c, e) ↦
        let (w, r) = admin_cancel_effect env id s t a x e h in
        Rewrites-IsSound id _ s t v (IsCoherent-cancelled c (coherent id c s v e) w) r
  ]

  pub claim_refund-IsSound : (a : Address) → claim_refund env id a s ≡ ok tt t → IsSound t
  unfolding claim_refund
  claim_refund-IsSound a h = elim (Option-cases (get_campaign id s)) [
    | inl e ↦ absurd (ground arith)
    | inr (c, e) ↦
        IsSound-refunded id a _ s t v
          (IsCoherent-refunded c (coherent id c s v e) (get_contribution id a s)
            (v.contributions id a))
          (refund_effect env id s t a e h)
  ]
