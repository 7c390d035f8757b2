-- ===== src/Registry/Rewritings.antt =====
-- The rewritings of a campaign that the calls make, each a progress of it.
use proof_of_heart_stellar.Prelude.{ℕ, ◌+◌, ◌≡◌, refl, true, false, Option, none, some, arith}
use proof_of_heart_stellar.Prelude.Int.{ℤ, pos, ◌<ℤ◌, +ℤ_parts}
use proof_of_heart_stellar.Types.{Address, Text, Campaign}
use proof_of_heart_stellar.Lifecycle.{state_of}
use proof_of_heart_stellar.Contributions.Effects.{raised_by}
use proof_of_heart_stellar.Registry.{may_become, Progress}

module _ (c : Campaign) where
  pub Progress-texts : (x y : Text) → Progress c (record c { title = x; description = y })
  unfolding may_become state_of
  Progress-texts x y = ground arith

  pub Progress-description :
      (x : Text) → Progress c (record c { is_verified = false; description = x })
  unfolding may_become state_of
  Progress-description x = ground arith

  pub Progress-deadline :
      (x : ℕ) → Progress c (record c { deadline = c.deadline + x; deadline_extended = true })
  unfolding may_become state_of
  Progress-deadline x = ground arith

  pub Progress-pending : (x : Option Address) → Progress c (record c { pending_creator = x })
  unfolding may_become state_of
  Progress-pending x = ground arith

  pub Progress-creator :
      (x : Address) → Progress c (record c { creator = x; pending_creator = none })
  unfolding may_become state_of
  Progress-creator x = ground arith

  pub Progress-fee : (x : ℕ) → Progress c (record c { fee_override = some x })
  unfolding may_become state_of
  Progress-fee x = ground arith

  pub Progress-verified : Progress c (record c { is_verified = true })
  unfolding may_become state_of
  Progress-verified = ground arith

  pub Progress-cancelled :
      c.funds_withdrawn ≡ false → Progress c (record c { is_cancelled = true; is_active = false })
  unfolding may_become state_of
  Progress-cancelled w = ground arith

  pub Progress-withdrawn :
      c.is_cancelled ≡ false
      → c.is_verified ≡ true
      → Progress c (record c { funds_withdrawn = true; is_active = false })
  unfolding may_become state_of
  Progress-withdrawn w v = ground arith

  pub Progress-effective : (x : ℤ) → Progress c (record c { effective_amount_raised = x })
  unfolding may_become state_of
  Progress-effective x = ground arith

  pub Progress-raised : (x : ℤ) → pos 0 <ℤ x → Progress c (raised_by x c)
  unfolding may_become state_of
  Progress-raised x h = record {
    passes = ground arith;
    id = refl;
    first_creator = refl;
    category = refl;
    goal = refl;
    share = refl;
    raised = omega (arith, +ℤ_parts c.amount_raised x);
    deadline = ground arith;
  }
