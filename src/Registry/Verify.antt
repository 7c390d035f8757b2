-- ===== src/Registry/Verify.antt =====
-- The calls that verify campaigns, as moves.
use proof_of_heart_stellar.Prelude.{
  Option-cases, take, ℕ, ◌≡◌, refl, sym, subst, inl, inr, List, [], ◌∷◌, ◌++◌, arith,
}
use proof_of_heart_stellar.Host.{Host}
use proof_of_heart_stellar.Store.{State, get_campaign}
use proof_of_heart_stellar.Action.{Outcome, ok, err, trap, Done, Ensures, Ensures-at}
use proof_of_heart_stellar.Lifecycle.{transition}
use proof_of_heart_stellar.Invariant.Verify.{admin_verify_err}
use proof_of_heart_stellar.Registry.{Move, Moves, here, next}
use proof_of_heart_stellar.Registry.Edits.{rewritten}
use proof_of_heart_stellar.Registry.Rewritings.{Progress-verified}
use proof_of_heart_stellar.Voting.{
  mark_verified, admin_verify, verify_with_votes, verify_campaign, verify_each, verify_campaigns,
  verify_campaign_with_votes,
}

module _ (id : ℕ) (s t : State) where
  pub admin_verify-Move : admin_verify id s ≡ ok tt t → Move s t
  unfolding admin_verify mark_verified transition
  admin_verify-Move h = elim (Option-cases (get_campaign id s)) [
    | inl e ↦ absurd (ground arith)
    | inr (c, e) ↦ rewritten id c _ s t e (Progress-verified c) (ground arith)
  ]

  verify_with_votes-Move : verify_with_votes id s ≡ ok tt t → Move s t
  unfolding verify_with_votes mark_verified transition
  verify_with_votes-Move h = elim (Option-cases (get_campaign id s)) [
    | inl e ↦ absurd (ground arith)
    | inr (c, e) ↦ rewritten id c _ s t e (Progress-verified c) (ground arith)
  ]

module _ (env : Host) (id : ℕ) (s t : State) where
  verify_campaign_verifies : verify_campaign env id s ≡ ok tt t → admin_verify id s ≡ ok tt t
  unfolding verify_campaign
  verify_campaign_verifies h = ground arith

  pub verify_campaign-Move : verify_campaign env id s ≡ ok tt t → Move s t
  verify_campaign-Move h = admin_verify-Move id s t (verify_campaign_verifies h)

  votes_verify : verify_campaign_with_votes env id s ≡ ok tt t → verify_with_votes id s ≡ ok tt t
  unfolding verify_campaign_with_votes
  votes_verify h = ground arith

  pub verify_campaign_with_votes-Move : verify_campaign_with_votes env id s ≡ ok tt t → Move s t
  verify_campaign_with_votes-Move h = verify_with_votes-Move id s t (votes_verify h)

verify_each-Moves :
    (ids done failed : List ℕ) (r s : State)
    → Moves r s
    → Ensures (Moves r) (verify_each ids done failed s)
unfolding verify_each
verify_each-Moves [] done failed r s v = v
verify_each-Moves (id ∷ ids) done failed r s v =
    go (admin_verify id s) refl (λ t. verify_each-Moves ids (done ++ id ∷ []) failed r t)
      (λ t. verify_each-Moves ids done (failed ++ id ∷ []) r t)
  where
    go :
        (o : Outcome Done)
        → admin_verify id s ≡ o
        → ((t : State) → Moves r t → Ensures (Moves r) (verify_each ids (done ++ id ∷ []) failed t))
        → ((t : State) → Moves r t → Ensures (Moves r) (verify_each ids done (failed ++ id ∷ []) t))
        → Ensures (Moves r) (elim o as (λ _. Outcome (List ℕ × List ℕ)) [
          | ok _ t ↦ verify_each ids (done ++ id ∷ []) failed t
          | err _ t ↦ verify_each ids done (failed ++ id ∷ []) t
          | trap ↦ trap
        ])
    go (ok a t) e k l = k t (next v (admin_verify-Move id s t e))
    go (err x t) e k l = l t (subst (Moves r) (sym (admin_verify_err id s t e)) v)
    go trap e k l = tt

verify_campaigns_each :
    (env : Host) (ids : List ℕ) (s t : State) {r : List ℕ × List ℕ}
    → verify_campaigns env ids s ≡ ok r t
    → verify_each (take 50 ids) [] [] s ≡ ok r t
unfolding verify_campaigns
verify_campaigns_each env ids s t h = ground arith

pub verify_campaigns-Moves :
    (env : Host) (ids : List ℕ) (s t : State) {r : List ℕ × List ℕ}
    → verify_campaigns env ids s ≡ ok r t
    → Moves s t
verify_campaigns-Moves env ids s t h =
    Ensures-at (Moves s) (verify_each (take 50 ids) [] [] s)
      (verify_each-Moves (take 50 ids) [] [] s s here) (verify_campaigns_each env ids s t h)
