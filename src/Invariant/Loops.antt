-- ===== src/Invariant/Loops.antt =====
-- Entry points with loops that write nothing that the invariant is about.
use proof_of_heart_stellar.Prelude.{
  ◌==◌, if◌then◌else◌, unwrap_or, ℕ, ◌+◌, ◌≡◌, refl, Bool, true, false, List, [], ◌∷◌, ◌++◌, arith,
}
use proof_of_heart_stellar.Prelude.Int.{ℤ, pos}
use proof_of_heart_stellar.Prelude.Words.{checked_add_u32, checked_sub_u32}
use proof_of_heart_stellar.Types.{Address, Campaign, Milestone}
use proof_of_heart_stellar.Types.Limits.{bps_denominator}
use proof_of_heart_stellar.Types.Error.{overflow}
use proof_of_heart_stellar.Host.{Host}
use proof_of_heart_stellar.Store.{
  get_platform_fee, State, get_saved_campaigns, get_campaign_milestones, is_milestone_claimed,
}
use proof_of_heart_stellar.Action.{
  ok, Action, pure, ok_or, ◌>>=◌, when, sub_or_overflow, sub_i128, Keeps, Keeps-bind,
}
use proof_of_heart_stellar.Bookmarks.{save_each, batch_save_campaigns}
use proof_of_heart_stellar.Campaigns.Withdraw.{ceil_bps}
use proof_of_heart_stellar.Invariant.Defs.{Same}
use proof_of_heart_stellar.Milestones.{
  validate_milestones, set_milestones, mark_milestone, verify_milestone, slice_bps, add_claimed,
  claimed_so_far, add_fee, fee_claimed_so_far, last_payout, milestone_payout,
}

validate_milestones-Keeps :
    (ms : List Milestone) (seen : List ℕ) (bps : ℕ) (s : State)
    → Keeps s (validate_milestones ms seen bps s)
unfolding validate_milestones checked_add_u32
validate_milestones-Keeps [] seen bps s = refl
validate_milestones-Keeps (m ∷ ms) seen bps s =
    ground (arith, validate_milestones-Keeps ms (seen ++ m.id ∷ []) (bps + m.payout_bps) s)

pub set_milestones-Same :
    (env : Host) (s : State) {t : State} (id : ℕ) (ms : List Milestone)
    → set_milestones env id ms s ≡ ok tt t
    → Same s t
unfolding set_milestones
set_milestones-Same env s id ms h = ground (arith, validate_milestones-Keeps ms [] 0 s)

mark_milestone-Keeps : (id : ℕ) (ms : List Milestone) (s : State) → Keeps s (mark_milestone id ms s)
unfolding mark_milestone
mark_milestone-Keeps id [] s = refl
mark_milestone-Keeps id (m ∷ ms) s = ground (arith, mark_milestone-Keeps id ms s)

pub verify_milestone-Same :
    (env : Host) (s : State) {t : State} (a : Address) (id milestone : ℕ)
    → verify_milestone env a id milestone s ≡ ok tt t
    → Same s t
unfolding verify_milestone
verify_milestone-Same env s a id milestone h =
    ground (arith, mark_milestone-Keeps milestone (get_campaign_milestones id s) s)

save_each-Keeps : (ids saved : List ℕ) (s : State) → Keeps s (save_each ids saved s)
unfolding save_each
save_each-Keeps [] saved s = refl
save_each-Keeps (id ∷ ids) saved s = ground (arith, save_each-Keeps ids (saved ++ id ∷ []) s)

pub batch_save_campaigns-Same :
    (env : Host) (s : State) {t : State} (a : Address) (ids : List ℕ)
    → batch_save_campaigns env a ids s ≡ ok tt t
    → Same s t
unfolding batch_save_campaigns
batch_save_campaigns-Same env s a ids h =
    ground (arith, save_each-Keeps ids (get_saved_campaigns a s) s)

add_claimed-Keeps :
    (b : Bool) (total : ℤ) (part bps : ℕ) (amount : ℤ) (s : State)
    → Keeps s (add_claimed b total part bps amount s)
unfolding add_claimed slice_bps
add_claimed-Keeps false total part bps amount s = refl
add_claimed-Keeps true total part bps amount s = ground arith

claimed_so_far-Keeps :
    (id : ℕ) (total : ℤ) (ms : List Milestone) (bps : ℕ) (amount : ℤ) (s : State)
    → Keeps s (claimed_so_far id total ms bps amount s)
unfolding claimed_so_far
claimed_so_far-Keeps id total [] bps amount s = refl
claimed_so_far-Keeps id total (m ∷ ms) bps amount s =
    Keeps-bind _ s (λ next. claimed_so_far-Keeps id total ms next.0 next.1 s)
      (add_claimed (is_milestone_claimed id m.id s) total m.payout_bps bps amount)
      (add_claimed-Keeps (is_milestone_claimed id m.id s) total m.payout_bps bps amount s)

add_fee-Keeps :
    (b : Bool) (total : ℤ) (part : ℕ) (amount : ℤ) (s : State)
    → Keeps s (add_fee b total part amount s)
unfolding add_fee slice_bps
add_fee-Keeps false total part amount s = refl
add_fee-Keeps true total part amount s = ground arith

fee_claimed_so_far-Keeps :
    (id : ℕ) (total : ℤ) (ms : List Milestone) (amount : ℤ) (s : State)
    → Keeps s (fee_claimed_so_far id total ms amount s)
unfolding fee_claimed_so_far
fee_claimed_so_far-Keeps id total [] amount s = refl
fee_claimed_so_far-Keeps id total (m ∷ ms) amount s =
    Keeps-bind _ s (λ next. fee_claimed_so_far-Keeps id total ms next s)
      (add_fee (is_milestone_claimed id m.id s) total m.payout_bps amount)
      (add_fee-Keeps (is_milestone_claimed id m.id s) total m.payout_bps amount s)

ceil_bps-Keeps : (x : ℤ) (bps : ℕ) (s : State) → Keeps s (ceil_bps x bps s)
unfolding ceil_bps
ceil_bps-Keeps x bps s = ground arith

slice_bps-Keeps : (x : ℤ) (bps : ℕ) (s : State) → Keeps s (slice_bps x bps s)
unfolding slice_bps
slice_bps-Keeps x bps s = ground arith

last_payout-Keeps :
    (id : ℕ) (ms : List Milestone) (after paid fee slice : ℤ) (s : State)
    → Keeps s (last_payout id ms after paid fee slice s)
unfolding last_payout
last_payout-Keeps id ms after paid fee slice s =
    ground (arith, fee_claimed_so_far-Keeps id fee ms (pos 0) s)

choose-Keeps :
    {A : Type 0} (b : Bool) (m n : Action A) (s : State)
    → Keeps s (m s)
    → Keeps s (n s)
    → Keeps s ((if b then m else n) s)
choose-Keeps true m n s k l = k
choose-Keeps false m n s k l = l

-- Finding the payout of a milestone writes nothing.
pub milestone_payout-Keeps :
    (id : ℕ) (c : Campaign) (ms : List Milestone) (m : Milestone) (s : State)
    → Keeps s (milestone_payout id c ms m s)
unfolding milestone_payout
milestone_payout-Keeps id c ms m s =
    Keeps-bind _ s
      (λ fee.
        Keeps-bind _ s
          (λ after.
            Keeps-bind _ s
              (λ claimed.
                Keeps-bind _ s
                  (λ claimable.
                    Keeps-bind _ s
                      (λ left.
                        Keeps-bind _ s
                          (λ _.
                            Keeps-bind _ s
                              (λ slice.
                                choose-Keeps (left == m.payout_bps)
                                  (last_payout id ms after claimed.1 fee slice)
                                  (pure (claimable, slice)) s
                                  (last_payout-Keeps id ms after claimed.1 fee slice s) refl)
                              (slice_bps fee m.payout_bps) (slice_bps-Keeps fee m.payout_bps s))
                          (when (left == m.payout_bps)
                            (sub_or_overflow after claimed.1 >>= λ _. pure tt))
                          (ground arith))
                      (ok_or overflow (checked_sub_u32 bps_denominator claimed.0)) (ground arith))
                  (slice_bps after m.payout_bps) (slice_bps-Keeps after m.payout_bps s))
              (claimed_so_far id after ms 0 (pos 0)) (claimed_so_far-Keeps id after ms 0 (pos 0) s))
          (sub_i128 c.amount_raised fee) (ground arith))
      (ceil_bps c.amount_raised (unwrap_or (get_platform_fee s) c.fee_override))
      (ceil_bps-Keeps c.amount_raised (unwrap_or (get_platform_fee s) c.fee_override) s)
