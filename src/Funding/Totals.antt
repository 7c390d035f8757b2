-- ===== src/Funding/Totals.antt =====
-- What a campaign counts as raised is the sum of what its contributors have in it.
use proof_of_heart_stellar.Prelude.{
  Option-cases, contains, ℕ, ◌≡◌, inl, inr, true, some, List, arith,
}
use proof_of_heart_stellar.Prelude.Int.{ℤ, pos, ◌+ℤ◌, ◌-ℤ◌, int_laws}
use proof_of_heart_stellar.Types.{Address, Campaign}
use proof_of_heart_stellar.Host.{Host}
use proof_of_heart_stellar.Store.{State, get_contribution, get_campaign}
use proof_of_heart_stellar.Action.{ok}
use proof_of_heart_stellar.Contributions.{contribute, claim_refund}
use proof_of_heart_stellar.Contributions.Effects.{accept_contribution_missing}
use proof_of_heart_stellar.Funding.Books.{
  PaidIn, contribute-PaidIn, PaidBack, claim_refund-PaidBack,
}
use proof_of_heart_stellar.Funding.Sums.{sum_of, is_distinct, Shifts, sum_of-Shifts}

-- The sum of the contributions of `xs` to the campaign `id`.
unfoldable pub contributed : List Address → ℕ → State → ℤ
contributed xs id s = sum_of (λ a. get_contribution id a s) xs

-- The contributions of one address have changed by `x`, and no other's.
abbrev pub Changes : ℕ → Address → ℤ → State → State → Type 0
Changes id a x s t = Shifts a x (λ b. get_contribution id b s) (λ b. get_contribution id b t)

module _ (id : ℕ) (a : Address) (x : ℤ) (s t : State) (k : Changes id a x s t) where
  pub contributed-Changes :
      (xs : List Address)
      → is_distinct xs ≡ true
      → contains xs a ≡ true
      → contributed xs id t ≡ contributed xs id s +ℤ x
  unfolding contributed
  contributed-Changes =
      sum_of-Shifts a x (λ b. get_contribution id b s) (λ b. get_contribution id b t) k

+ℤ-inverse : (x : ℤ) → pos 0 ≡ x +ℤ (pos 0 -ℤ x)
+ℤ-inverse x = grind int_laws

+ℤ-negate : (p x : ℤ) → p -ℤ x ≡ p +ℤ (pos 0 -ℤ x)
+ℤ-negate p x = grind int_laws

-- What the campaign counts as raised is what the contributors `xs` have in it.
unfoldable pub IsBalanced : List Address → ℕ → State → Type 0
IsBalanced xs id s =
    (c : Campaign) → get_campaign id s ≡ some c → c.effective_amount_raised ≡ contributed xs id s

module _ (xs : List Address) (id : ℕ) (a : Address) (d : is_distinct xs ≡ true)
    (m : contains xs a ≡ true) (env : Host) (s t : State) (v : IsBalanced xs id s) where
  PaidIn-IsBalanced :
      (amount : ℤ) (c : Campaign)
      → get_campaign id s ≡ some c
      → PaidIn env id a amount c s t
      → IsBalanced xs id t
  unfolding IsBalanced
  PaidIn-IsBalanced amount c e w c' e' =
      let changes : Changes id a amount s t =
        (ground (arith, w.contributions), λ b q. ground (arith, w.contributions)) in
      let sum = contributed-Changes id a amount s t changes xs d m in
      ground (arith, w.campaigns, v c e)

  PaidBack-IsBalanced :
      (c : Campaign)
      → get_campaign id s ≡ some c
      → PaidBack env id a (get_contribution id a s) c s t
      → IsBalanced xs id t
  unfolding IsBalanced
  PaidBack-IsBalanced c e w c' e' =
      let x = get_contribution id a s in
      let gone : get_contribution id a t ≡ pos 0 = ground (arith, w.contributions) in
      let changes : Changes id a (pos 0 -ℤ x) s t =
        (rw gone (+ℤ-inverse x), λ b q. ground (arith, w.contributions)) in
      let sum = contributed-Changes id a (pos 0 -ℤ x) s t changes xs d m in
      let raised : c'.effective_amount_raised ≡ c.effective_amount_raised -ℤ x =
        ground (arith, w.campaigns) in
      rw (raised, sum, v c e) (+ℤ-negate (contributed xs id s) x)

  -- Where a campaign counts as raised the sum of what the contributors `xs` have in it, without
  -- repetition, a contribution by one of them that returns keeps this so.
  pub contribute-IsBalanced :
      (amount : ℤ) → contribute env id a amount s ≡ ok tt t → IsBalanced xs id t
  unfolding contribute
  contribute-IsBalanced amount h = elim (Option-cases (get_campaign id s)) [
    | inl e ↦ absurd (grind (arith, accept_contribution_missing))
    | inr (c, e) ↦ PaidIn-IsBalanced amount c e (contribute-PaidIn env id a amount s t e h)
  ]

  -- Under the same conditions, a refund to one of them that returns keeps this so.
  pub claim_refund-IsBalanced : claim_refund env id a s ≡ ok tt t → IsBalanced xs id t
  unfolding claim_refund
  claim_refund-IsBalanced h = elim (Option-cases (get_campaign id s)) [
    | inl e ↦ absurd (ground arith)
    | inr (c, e) ↦ PaidBack-IsBalanced c e (claim_refund-PaidBack env id a s t e h)
  ]
