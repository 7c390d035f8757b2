-- ===== src/Funding/Milestones.antt =====
-- The claim of a milestone (src/milestones.rs).
use proof_of_heart_stellar.Prelude.{
  Option-cases, insert₂, ℕ, ◌≡◌, refl, ap, ◌∙◌, inl, inr, true, false, ◌||◌, some, List, [], ◌∷◌,
  arith,
}
use proof_of_heart_stellar.Prelude.Int.{ℤ, pos, ◌+ℤ◌, ◌-ℤ◌, ◌≤ℤ◌, ◌<ℤ◌, checked_add, checked_sub}
use proof_of_heart_stellar.Types.{Campaign, Milestone}
use proof_of_heart_stellar.Host.{Host}
use proof_of_heart_stellar.Store.{
  State, get_total_raised_global, get_campaign, get_campaign_milestones, is_milestone_claimed,
}
use proof_of_heart_stellar.Action.{Outcome, ok, err, trap, transfer, invoke, Ensures-at}
use proof_of_heart_stellar.Campaigns.Withdraw.{close_campaign}
use proof_of_heart_stellar.Invariant.Loops.{milestone_payout-Keeps}
use proof_of_heart_stellar.Milestones.{
  find_milestone, check_milestone_claim, claimable_milestone, milestone_payout, claim_milestone,
}
use proof_of_heart_stellar.Safety.{invoke-Refused}

-- What the claim of the milestone `m` of `c` has written, at a payout and a fee.
pub record Claimed (env : Host) (id : ℕ) (m : Milestone) (c : Campaign) (payout fee : ℤ)
    (s t : State) : Type 0 where
  pub signed : env.is_authorized c.creator ≡ true
  pub goal_met : c.funding_goal ≤ℤ c.amount_raised
  pub open_campaign : (c.is_cancelled || c.funds_withdrawn) ≡ false
  pub verified_campaign : c.is_verified ≡ true
  pub verified_milestone : m.verified ≡ true
  pub some_amount : pos 0 <ℤ payout
  pub claimed :
      t.campaign_keys.milestone_claimed ≡ insert₂ id m.id true s.campaign_keys.milestone_claimed
  pub total : get_total_raised_global t ≡ get_total_raised_global s -ℤ (fee +ℤ payout)

claimable_milestone_found :
    (id mid : ℕ) (ms : List Milestone) (s u : State) {m : Milestone}
    → claimable_milestone id mid ms s ≡ ok m u
    → (u ≡ s)
      × (find_milestone mid ms ≡ some m)
      × (m.verified ≡ true)
      × (is_milestone_claimed id mid s ≡ false)
unfolding claimable_milestone
claimable_milestone_found id mid ms s u h = (ground arith, ground arith, ground arith, ground arith)

find_milestone_id :
    (mid : ℕ) (ms : List Milestone) {m : Milestone} → find_milestone mid ms ≡ some m → m.id ≡ mid
unfolding find_milestone
find_milestone_id mid [] h = cc
find_milestone_id mid (x ∷ ms) h = grind (arith, find_milestone_id mid ms)

module _ (env : Host) (id mid : ℕ) (c : Campaign) (m : Milestone) (payout fee : ℤ) (s t : State)
    (e : get_campaign id s ≡ some c)
    (f : claimable_milestone id mid (get_campaign_milestones id s) s ≡ ok m s)
    (p : milestone_payout id c (get_campaign_milestones id s) m s ≡ ok (payout, fee) s)
    (h : claim_milestone env id mid s ≡ ok tt t) where
  claim_milestone_writes : Claimed env id m c payout fee s t
  unfolding claim_milestone check_milestone_claim close_campaign checked_add checked_sub transfer
  claim_milestone_writes =
      let (_, found, verified, _) =
        claimable_milestone_found id mid (get_campaign_milestones id s) s s f in
      let i = find_milestone_id mid (get_campaign_milestones id s) found in
      record {
        signed = ground arith;
        goal_met = ground arith;
        open_campaign = ground arith;
        verified_campaign = ground arith;
        verified_milestone = verified;
        some_amount = ground (arith, f, p);
        claimed = ground (arith, f, p, i);
        total = ground (arith, f, p);
      }

-- What a claim that returned has paid out, and of which milestone.
abbrev pub Claims : Host → ℕ → ℕ → Campaign → State → State → Type 0
Claims env id mid c s t =
    (m : Milestone) × (payout : ℤ) × (fee : ℤ) × (find_milestone mid (get_campaign_milestones id s)
      ≡ some m)
    × (is_milestone_claimed id mid s ≡ false)
    × (milestone_payout id c (get_campaign_milestones id s) m s ≡ ok (payout, fee) s)
    × Claimed env id m c payout fee s t

module _ (env : Host) (id mid : ℕ) (s t : State) {c : Campaign} (e : get_campaign id s ≡ some c)
    (h : claim_milestone env id mid s ≡ ok tt t) where
  claimed_payout :
      (m : Milestone)
      → claimable_milestone id mid (get_campaign_milestones id s) s ≡ ok m s
      → (o : Outcome (ℤ × ℤ)) → milestone_payout id c (get_campaign_milestones id s) m s ≡ o
      → Claims env id mid c s t
  unfolding claim_milestone check_milestone_claim
  claimed_payout m f (ok (payout, fee) u) p =
      let (_, found, _, free) =
        claimable_milestone_found id mid (get_campaign_milestones id s) s s f in
      let k : u ≡ s =
        Ensures-at (λ v. v ≡ s) _ (milestone_payout-Keeps id c (get_campaign_milestones id s) m s)
          p in
      let q = p ∙ ap (ok (payout, fee)) k in
      (m, payout, fee, found, free, q, claim_milestone_writes env id mid c m payout fee s t e f q h)
  claimed_payout m f (err x u) p = absurd (ground (arith, f, p))
  claimed_payout m f trap p = absurd (ground (arith, f, p))

  claimed_milestone :
      (o : Outcome Milestone)
      → claimable_milestone id mid (get_campaign_milestones id s) s ≡ o
      → Claims env id mid c s t
  unfolding claim_milestone check_milestone_claim
  claimed_milestone (ok m u) f =
      let (k, _, _, _) = claimable_milestone_found id mid (get_campaign_milestones id s) s u f in
      let g = f ∙ ap (ok m) k in
      claimed_payout m g (milestone_payout id c (get_campaign_milestones id s) m s) refl
  claimed_milestone (err x u) f = absurd (ground (arith, f))
  claimed_milestone trap f = absurd (ground (arith, f))

  pub claim_milestone-Claims : Claims env id mid c s t
  claim_milestone-Claims =
      claimed_milestone (claimable_milestone id mid (get_campaign_milestones id s) s) refl

pub claim_milestone_once :
    (env env' : Host) (id mid : ℕ) (s t : State)
    → claim_milestone env id mid s ≡ ok tt t
    → invoke (claim_milestone env' id mid) t ≡ t
unfolding claim_milestone check_milestone_claim claimable_milestone
claim_milestone_once env env' id mid s t h = elim (Option-cases (get_campaign id s)) [
  | inl e ↦ absurd (ground arith)
  | inr (c, e) ↦
      let (m, _, _, found, _, _, w) = claim_milestone-Claims env id mid s t e h in
      let i = find_milestone_id mid (get_campaign_milestones id s) found in
      let k : is_milestone_claimed id mid t ≡ true = grind (arith, w.claimed, i) in
      invoke-Refused (claim_milestone env' id mid) t (ground arith)
]

module _ (env env' : Host) (id mid : ℕ) (s t : State) {c : Campaign} where
  -- A claim of a milestone of a stored campaign that returns is of a verified and unclaimed
  -- milestone of an open, verified campaign that met its goal and whose creator signed; it marks
  -- the milestone as claimed, takes the payout that the code computes, which is positive, and the
  -- fee from the total, and a second claim of the same milestone changes nothing.
  pub claim_milestone_settles :
      get_campaign id s ≡ some c
      → claim_milestone env id mid s ≡ ok tt t
      → Claims env id mid c s t × (invoke (claim_milestone env' id mid) t ≡ t)
  claim_milestone_settles e h =
      (claim_milestone-Claims env id mid s t e h, claim_milestone_once env env' id mid s t h)
