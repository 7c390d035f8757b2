-- ===== src/Registry/Fates.antt =====
-- What stays of a campaign through any number of moves.
use proof_of_heart_stellar.Prelude.{
  ◌==◌, Bool-cases, ℕ, ◌≤◌, ◌≡◌, refl, ◌∙◌, subst, inl, inr, true, some, arith,
}
use proof_of_heart_stellar.Prelude.Int.{◌≤ℤ◌}
use proof_of_heart_stellar.Types.{Campaign}
use proof_of_heart_stellar.Store.{State, get_campaign}
use proof_of_heart_stellar.Lifecycle.{CampaignState, withdrawn, cancelled, state_of}
use proof_of_heart_stellar.Registry.{
  may_become, Progress, Move, idle, changed, entered, Moves, here, next,
}
use proof_of_heart_stellar.Registry.Numbers.{IsNumbered, lookup-Rewrites, Moves-IsNumbered}

-- How a stored campaign stands to what it was at some time before.
pub record Evolves (c d : Campaign) : Type 0 where
  pub id : d.id ≡ c.id
  pub first_creator : d.first_creator ≡ c.first_creator
  pub category : d.category ≡ c.category
  pub goal : d.funding_goal ≡ c.funding_goal
  pub share : d.revenue_share_percentage ≡ c.revenue_share_percentage
  pub raised : c.amount_raised ≤ℤ d.amount_raised
  pub deadline : c.deadline ≤ d.deadline
  pub cancelled_for_good : state_of c ≡ cancelled → state_of d ≡ cancelled
  pub withdrawn_for_good : state_of c ≡ withdrawn → state_of d ≡ withdrawn

module _ (c : Campaign) where
  Evolves-refl : Evolves c c
  Evolves-refl = record {
    id = refl;
    first_creator = refl;
    category = refl;
    goal = refl;
    share = refl;
    raised = ground arith;
    deadline = ground arith;
    cancelled_for_good = λ e. e;
    withdrawn_for_good = λ e. e;
  }

may_become_cancelled : (x : CampaignState) → may_become cancelled x ≡ true → x ≡ cancelled
unfolding may_become
may_become_cancelled x h = ground arith

may_become_withdrawn : (x : CampaignState) → may_become withdrawn x ≡ true → x ≡ withdrawn
unfolding may_become
may_become_withdrawn x h = ground arith

module _ {c d e : Campaign} where
  Evolves-Progress : Evolves c d → Progress d e → Evolves c e
  Evolves-Progress v p = record {
    id = p.id ∙ v.id;
    first_creator = p.first_creator ∙ v.first_creator;
    category = p.category ∙ v.category;
    goal = p.goal ∙ v.goal;
    share = p.share ∙ v.share;
    raised = grind (arith, v.raised, p.raised);
    deadline = grind (arith, v.deadline, p.deadline);
    cancelled_for_good = λ h.
        may_become_cancelled (state_of e)
          (subst (λ x. may_become x (state_of e) ≡ true) (v.cancelled_for_good h) p.passes);
    withdrawn_for_good = λ h.
        may_become_withdrawn (state_of e)
          (subst (λ x. may_become x (state_of e) ≡ true) (v.withdrawn_for_good h) p.passes);
  }

-- The campaign `c`, stored as `id`, is stored there still, and what stands there has evolved from it.
abbrev pub Survives : ℕ → Campaign → State → Type 0
Survives id c t = (d : Campaign) × (get_campaign id t ≡ some d) × Evolves c d

module _ (id : ℕ) (c : Campaign) {s t : State} (v : IsNumbered s) where
  Move-Survives : Survives id c s → Move s t → Survives id c t
  Move-Survives (d, e, k) (idle p l) = (d, rw p e, k)
  Move-Survives (d, e, k) (changed j x y h p w l) = elim (Bool-cases (id == j)) [
    | inl q ↦ (
      y,
      grind (arith, lookup-Rewrites j id y s t w),
      Evolves-Progress (subst (Evolves c) (grind (arith, h)) k) p,
    )
    | inr q ↦ (d, grind (arith, lookup-Rewrites j id y s t w), k)
  ]
  Move-Survives (d, e, k) (entered x i a w n f u) =
      (d, grind (arith, lookup-Rewrites x.id id x s t w, v.stored id), k)

module _ (id : ℕ) (c : Campaign) {s : State} (v : IsNumbered s)
    (e : get_campaign id s ≡ some c) where
  pub Moves-Survives : {t : State} → Moves s t → Survives id c t
  Moves-Survives here = (c, e, Evolves-refl c)
  Moves-Survives (next k m) = Move-Survives id c (Moves-IsNumbered v k) (Moves-Survives k) m
