-- ===== src/Funding/Distribution.antt =====
-- The contributors' side of the revenue pool (src/revenue.rs).
use proof_of_heart_stellar.Prelude.{
  ◌==◌, Option-cases, contains, ℕ, ◌≡◌, refl, sym, ap, ◌∙◌, ◌≢◌, inl, inr, true, false, some, List,
  arith,
}
use proof_of_heart_stellar.Prelude.Int.{ℤ, pos, ◌+ℤ◌, ◌<ℤ◌, checked_add}
use proof_of_heart_stellar.Prelude.Words.{checked_add_u32}
use proof_of_heart_stellar.Types.{Address, Campaign}
use proof_of_heart_stellar.Host.{Host}
use proof_of_heart_stellar.Store.{
  State, get_contribution, get_revenue_pool, get_revenue_claimed,
  get_contributor_revenue_distributed, get_campaign,
}
use proof_of_heart_stellar.Action.{Outcome, ok, err, trap, transfer}
use proof_of_heart_stellar.Funding.Books.{Moved}
use proof_of_heart_stellar.Funding.Sums.{sum_of, is_distinct, sum_of-Shifts}
use proof_of_heart_stellar.Invariant.Shares.{revenue_claimable-Keeps}
use proof_of_heart_stellar.Revenue.{check_claim, revenue_claimable, record_claim, claim_revenue}

-- The writes of a claim of `x` by `a`, and the transfer that goes with it.
pub record Distributed (env : Host) (id : ℕ) (a : Address) (x : ℤ) (s t : State) : Type 0 where
  pub some_amount : pos 0 <ℤ x
  pub has_part : get_contribution id a s ≢ pos 0
  pub claimed : get_revenue_claimed id a t ≡ get_revenue_claimed id a s +ℤ x
  pub others :
      (b : Address) → (b == a) ≡ false → get_revenue_claimed id b t ≡ get_revenue_claimed id b s
  pub distributed :
      get_contributor_revenue_distributed id t ≡ get_contributor_revenue_distributed id s +ℤ x
  pub pool : get_revenue_pool id t ≡ get_revenue_pool id s
  pub campaigns : t.campaign_keys.campaign ≡ s.campaign_keys.campaign
  pub moved : Moved id env.contract_address a x s t

revenue_claimable_positive :
    (id : ℕ) (a : Address) (c : Campaign) (s u : State) {x : ℤ}
    → revenue_claimable id a c s ≡ ok x u
    → (u ≡ s) × (pos 0 <ℤ x) × (get_contribution id a s ≢ pos 0)
unfolding revenue_claimable check_claim
revenue_claimable_positive id a c s u h =
    (grind (arith, revenue_claimable-Keeps id a c s), grind arith, grind arith)

module _ (env : Host) (id : ℕ) (a : Address) (c : Campaign) (x : ℤ) (s t : State)
    (e : get_campaign id s ≡ some c) (r : revenue_claimable id a c s ≡ ok x s)
    (h : claim_revenue env id a s ≡ ok tt t) where
  claim_revenue_writes : Distributed env id a x s t
  unfolding claim_revenue record_claim checked_add checked_add_u32 transfer
  claim_revenue_writes =
      let p = revenue_claimable_positive id a c s s r in
      record {
        some_amount = p.1;
        has_part = p.2;
        claimed = ground (arith, r);
        others = λ b q. ground (arith, r);
        distributed = ground (arith, r);
        pool = ground (arith, r);
        campaigns = ground (arith, r);
        moved = ground (arith, r);
      }

claim_revenue-Distributed :
    (env : Host) (id : ℕ) (a : Address) (s t : State)
    → claim_revenue env id a s ≡ ok tt t
    → (x : ℤ) × Distributed env id a x s t
unfolding claim_revenue
claim_revenue-Distributed env id a s t h = elim (Option-cases (get_campaign id s)) [
  | inl e ↦ absurd (ground arith)
  | inr (c, e) ↦ go c e (revenue_claimable id a c s) refl
]
  where
    go :
        (c : Campaign)
        → get_campaign id s ≡ some c
        → (r : Outcome ℤ) → revenue_claimable id a c s ≡ r
        → (x : ℤ) × Distributed env id a x s t
    go c e (ok x u) q =
        let p = revenue_claimable_positive id a c s u q in
        (x, claim_revenue_writes env id a c x s t e (q ∙ ap (ok x) p.0) h)
    go c e (err y u) q = absurd (ground (arith, q))
    go c e trap q = absurd (ground (arith, q))

-- What counts as distributed is the sum of what the contributors `xs` have claimed.
unfoldable pub IsShared : List Address → ℕ → State → Type 0
IsShared xs id s =
    get_contributor_revenue_distributed id s ≡ sum_of (λ a. get_revenue_claimed id a s) xs

-- Where what a campaign counts as distributed of its revenue is the sum of what the contributors
-- `xs` have claimed, without repetition, a claim by one of them that returns keeps this so.
pub claim_revenue-IsShared :
    (xs : List Address) (env : Host) (id : ℕ) (a : Address) (s t : State)
    → is_distinct xs ≡ true
    → contains xs a ≡ true
    → IsShared xs id s
    → claim_revenue env id a s ≡ ok tt t
    → IsShared xs id t
unfolding IsShared
claim_revenue-IsShared xs env id a s t d m v h =
    let (x, w) = claim_revenue-Distributed env id a s t h in
    let before = λ (b : Address). get_revenue_claimed id b s in
    let after = λ (b : Address). get_revenue_claimed id b t in
    w.distributed
    ∙ ap (λ n. n +ℤ x) v
    ∙ sym (sum_of-Shifts a x before after (w.claimed, w.others) xs d m)
