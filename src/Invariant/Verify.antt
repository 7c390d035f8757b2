-- ===== src/Invariant/Verify.antt =====
-- Verification keeps the invariant, one campaign at a time and in a batch.
use proof_of_heart_stellar.Prelude.{
  Option-cases, take, ℕ, ◌≡◌, refl, inl, inr, List, [], ◌∷◌, ◌++◌, arith,
}
use proof_of_heart_stellar.Types.Error.{Error}
use proof_of_heart_stellar.Host.{Host}
use proof_of_heart_stellar.Store.{State, get_campaign}
use proof_of_heart_stellar.Action.{Outcome, ok, err, trap, Done, Ensures}
use proof_of_heart_stellar.Lifecycle.{transition}
use proof_of_heart_stellar.Invariant.Defs.{IsSound, Rewrites-IsSound, coherent}
use proof_of_heart_stellar.Invariant.Edits.{IsCoherent-verified}
use proof_of_heart_stellar.Voting.{
  mark_verified, admin_verify, verify_with_votes, verify_campaign, verify_each, verify_campaigns,
  verify_campaign_with_votes,
}

module _ (id : ℕ) (s t : State) where
  -- What an attempt that fails has written: nothing.
  pub admin_verify_err : {x : Error} → admin_verify id s ≡ err x t → t ≡ s
  unfolding admin_verify mark_verified transition
  admin_verify_err h = ground arith

module _ (id : ℕ) (s t : State) (v : IsSound s) where
  pub admin_verify-IsSound : admin_verify id s ≡ ok tt t → IsSound t
  unfolding admin_verify mark_verified transition
  admin_verify-IsSound h = elim (Option-cases (get_campaign id s)) [
    | inl e ↦ absurd (ground arith)
    | inr (c, e) ↦
        Rewrites-IsSound id _ s t v (IsCoherent-verified c (coherent id c s v e)) (ground arith)
  ]

  pub verify_with_votes-IsSound : verify_with_votes id s ≡ ok tt t → IsSound t
  unfolding verify_with_votes mark_verified transition
  verify_with_votes-IsSound h = elim (Option-cases (get_campaign id s)) [
    | inl e ↦ absurd (ground arith)
    | inr (c, e) ↦
        Rewrites-IsSound id _ s t v (IsCoherent-verified c (coherent id c s v e)) (ground arith)
  ]

verify_each-IsSound :
    (ids done failed : List ℕ) (s : State)
    → IsSound s
    → Ensures IsSound (verify_each ids done failed s)
unfolding verify_each
verify_each-IsSound [] done failed s v = v
verify_each-IsSound (id ∷ ids) done failed s v =
    go (admin_verify id s) refl (λ t. verify_each-IsSound ids (done ++ id ∷ []) failed t)
      (λ t. verify_each-IsSound ids done (failed ++ id ∷ []) t)
  where
    go :
        (r : Outcome Done)
        → admin_verify id s ≡ r
        → ((t : State) → IsSound t → Ensures IsSound (verify_each ids (done ++ id ∷ []) failed t))
        → ((t : State) → IsSound t → Ensures IsSound (verify_each ids done (failed ++ id ∷ []) t))
        → Ensures IsSound (elim r as (λ _. Outcome (List ℕ × List ℕ)) [
          | ok _ t ↦ verify_each ids (done ++ id ∷ []) failed t
          | err _ t ↦ verify_each ids done (failed ++ id ∷ []) t
          | trap ↦ trap
        ])
    go (ok a t) e k l = k t (admin_verify-IsSound id s t v e)
    go (err x t) e k l = l t (rw (admin_verify_err id s t e) v)
    go trap e k l = tt

pub verify_campaigns-IsSound :
    (env : Host) (ids : List ℕ) (s t : State) {r : List ℕ × List ℕ}
    → IsSound s
    → verify_campaigns env ids s ≡ ok r t
    → IsSound t
unfolding verify_campaigns
verify_campaigns-IsSound env ids s t v h =
    ground (arith, verify_each-IsSound (take 50 ids) [] [] s v)

pub verify_campaign-IsSound :
    (env : Host) (id : ℕ) (s t : State) → IsSound s → verify_campaign env id s ≡ ok tt t → IsSound t
unfolding verify_campaign
verify_campaign-IsSound env id s t v h = ground (arith, admin_verify-IsSound id s t v)

pub verify_campaign_with_votes-IsSound :
    (env : Host) (id : ℕ) (s t : State)
    → IsSound s
    → verify_campaign_with_votes env id s ≡ ok tt t
    → IsSound t
unfolding verify_campaign_with_votes
verify_campaign_with_votes-IsSound env id s t v h =
    ground (arith, verify_with_votes-IsSound id s t v)
