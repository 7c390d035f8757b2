-- ===== src/Invariant/Edits.antt =====
-- Edits, transfers and verification of a campaign keep it coherent.
use proof_of_heart_stellar.Prelude.{
  Option-cases, ℕ, ◌+◌, ◌*◌, ◌≤◌, ◌≡◌, inl, inr, Bool, true, false, Option, none, some, arith,
}
use proof_of_heart_stellar.Prelude.Words.{checked_add_u64, checked_mul_u64}
use proof_of_heart_stellar.Types.{Address, Text, Campaign}
use proof_of_heart_stellar.Types.Limits.{seconds_per_day, platform_fee_max_bps}
use proof_of_heart_stellar.Host.{Host}
use proof_of_heart_stellar.Store.{State, get_campaign}
use proof_of_heart_stellar.Action.{ok}
use proof_of_heart_stellar.Admin.Settings.{set_campaign_fee_override}
use proof_of_heart_stellar.Campaigns.Create.{index_by_creator}
use proof_of_heart_stellar.Campaigns.Transfer.{
  initiate_campaign_transfer, unindex_creator, accept_campaign_transfer, cancel_campaign_transfer,
}
use proof_of_heart_stellar.Campaigns.Update.{
  update_campaign, update_campaign_description, check_extension, extend_campaign_deadline,
}
use proof_of_heart_stellar.Invariant.Defs.{
  IsCoherent, IsSound, SameSettings, SameContributions, Rewrites, Rewrites-IsSound, coherent,
}

-- Changes of the fields that no clause of `IsCoherent` reads, or that keep it at once.
module _ (c : Campaign) (k : IsCoherent c) where
  IsCoherent-texts : (x y : Text) → IsCoherent (record c { title = x; description = y })
  IsCoherent-texts x y = ground arith

  IsCoherent-description :
      (b : Bool) (x : Text) → IsCoherent (record c { is_verified = b; description = x })
  IsCoherent-description b x = ground arith

  IsCoherent-deadline : (x : ℕ) → IsCoherent (record c { deadline = x; deadline_extended = true })
  IsCoherent-deadline x = ground arith

  IsCoherent-pending : (x : Option Address) → IsCoherent (record c { pending_creator = x })
  IsCoherent-pending x = ground arith

  IsCoherent-creator : (x : Address) → IsCoherent (record c { creator = x; pending_creator = none })
  IsCoherent-creator x = ground arith

  IsCoherent-fee :
      (x : ℕ) → x ≤ platform_fee_max_bps → IsCoherent (record c { fee_override = some x })
  IsCoherent-fee x h = ground arith

  pub IsCoherent-verified : IsCoherent (record c { is_verified = true })
  IsCoherent-verified = ground arith

-- `t` is `s` with the campaign `id` rewritten to `c`, as far as the invariant goes.
abbrev pub OnlyRewrites : ℕ → Campaign → State → State → Type 0
OnlyRewrites id c s t = Rewrites id c s t × SameSettings s t × SameContributions s t

module _ (env : Host) (id : ℕ) (s t : State) where
  pub extend_effect :
      (x : ℕ) {c : Campaign}
      → get_campaign id s ≡ some c
      → extend_campaign_deadline env id x s ≡ ok tt t
      → OnlyRewrites id
          (record c { deadline = c.deadline + x * seconds_per_day; deadline_extended = true })
          s
          t
  unfolding extend_campaign_deadline check_extension checked_mul_u64 checked_add_u64
  extend_effect x e h = ground arith

  pub accept_effect :
      {c : Campaign} {a : Address}
      → get_campaign id s ≡ some c
      → c.pending_creator ≡ some a
      → accept_campaign_transfer env id s ≡ ok tt t
      → OnlyRewrites id (record c { creator = a; pending_creator = none }) s t
  unfolding accept_campaign_transfer unindex_creator index_by_creator
  accept_effect e p h = ground arith

module _ (env : Host) (id : ℕ) (s t : State) (v : IsSound s) where
  pub update_campaign-IsSound : (x y : Text) → update_campaign env id x y s ≡ ok tt t → IsSound t
  unfolding update_campaign
  update_campaign-IsSound x y h = elim (Option-cases (get_campaign id s)) [
    | inl e ↦ absurd (ground arith)
    | inr (c, e) ↦
        Rewrites-IsSound id _ s t v (IsCoherent-texts c (coherent id c s v e) x y) (ground arith)
  ]

  pub update_campaign_description-IsSound :
      (x : Text) → update_campaign_description env id x s ≡ ok tt t → IsSound t
  unfolding update_campaign_description
  update_campaign_description-IsSound x h = elim (Option-cases (get_campaign id s)) [
    | inl e ↦ absurd (ground arith)
    | inr (c, e) ↦
        Rewrites-IsSound id _ s t v (IsCoherent-description c (coherent id c s v e) false x)
          (ground arith)
  ]

  pub extend_campaign_deadline-IsSound :
      (x : ℕ) → extend_campaign_deadline env id x s ≡ ok tt t → IsSound t
  unfolding extend_campaign_deadline
  extend_campaign_deadline-IsSound x h = elim (Option-cases (get_campaign id s)) [
    | inl e ↦ absurd (ground arith)
    | inr (c, e) ↦
        Rewrites-IsSound id _ s t v
          (IsCoherent-deadline c (coherent id c s v e) (c.deadline + x * seconds_per_day))
          (extend_effect env id s t x e h)
  ]

  pub initiate_campaign_transfer-IsSound :
      (a : Address) → initiate_campaign_transfer env id a s ≡ ok tt t → IsSound t
  unfolding initiate_campaign_transfer
  initiate_campaign_transfer-IsSound a h = elim (Option-cases (get_campaign id s)) [
    | inl e ↦ absurd (ground arith)
    | inr (c, e) ↦
        Rewrites-IsSound id _ s t v (IsCoherent-pending c (coherent id c s v e) (some a))
          (ground arith)
  ]

  pub cancel_campaign_transfer-IsSound : cancel_campaign_transfer env id s ≡ ok tt t → IsSound t
  unfolding cancel_campaign_transfer
  cancel_campaign_transfer-IsSound h = elim (Option-cases (get_campaign id s)) [
    | inl e ↦ absurd (ground arith)
    | inr (c, e) ↦
        Rewrites-IsSound id _ s t v (IsCoherent-pending c (coherent id c s v e) none) (ground arith)
  ]

  pub accept_campaign_transfer-IsSound : accept_campaign_transfer env id s ≡ ok tt t → IsSound t
  unfolding accept_campaign_transfer
  accept_campaign_transfer-IsSound h = elim (Option-cases (get_campaign id s)) [
    | inl e ↦ absurd (ground arith)
    | inr (c, e) ↦ elim (Option-cases c.pending_creator) [
      | inl p ↦ absurd (ground arith)
      | inr (a, p) ↦
          Rewrites-IsSound id _ s t v (IsCoherent-creator c (coherent id c s v e) a)
            (accept_effect env id s t e p h)
    ]
  ]

  pub set_campaign_fee_override-IsSound :
      (a : Address) (x : ℕ) → set_campaign_fee_override env id a x s ≡ ok tt t → IsSound t
  unfolding set_campaign_fee_override
  set_campaign_fee_override-IsSound a x h = elim (Option-cases (get_campaign id s)) [
    | inl e ↦ absurd (ground arith)
    | inr (c, e) ↦
        Rewrites-IsSound id _ s t v (IsCoherent-fee c (coherent id c s v e) x (ground arith))
          (ground arith)
  ]
