-- ===== src/Listing/Portfolios.antt =====
-- The portfolio of a contributor against the refunds that the contract grants (src/queries.rs and
-- src/contributions.rs).
use proof_of_heart_stellar.Prelude.{
  ◌==◌, Bool-cases, prepend, ℕ, zero, suc, ◌+◌, ◌≤◌, ◌<◌, ◌≡◌, refl, sym, ap, ◌∙◌, subst, ◌≢◌, ◌⊎◌,
  inl, inr, true, false, Option, none, some, List, ◌∷◌, arith,
}
use proof_of_heart_stellar.Types.{Address, Campaign}
use proof_of_heart_stellar.Host.{Host}
use proof_of_heart_stellar.Store.{State, get_contribution, get_campaign_count, get_campaign}
use proof_of_heart_stellar.Action.{ok, invoke}
use proof_of_heart_stellar.Contributions.{claim_refund}
use proof_of_heart_stellar.Funding.Books.{claim_refund-PaidBack, claim_refund_erases}
use proof_of_heart_stellar.Queries.Portfolio.{
  Holding, status_of, holding, holdings_from, get_contributor_portfolio,
}
use proof_of_heart_stellar.Registry.Numbers.{IsNumbered}
use proof_of_heart_stellar.Safety.{invoke-Refused}

pub data Lists : List Holding → Holding → Type 0 where
  first : {h : Holding} {hs : List Holding} → Lists (h ∷ hs) h
  later : {h k : Holding} {hs : List Holding} → Lists hs h → Lists (k ∷ hs) h

module _ (env : Host) (a : Address) (s : State) where
  Lists-prepend :
      (o : Option Holding) (hs : List Holding) (h : Holding) → Lists hs h → Lists (prepend o hs) h
  Lists-prepend none hs h k = k
  Lists-prepend (some x) hs h k = later k

  -- What stands at an id of the range is listed.
  holdings_from-Lists :
      (id left j : ℕ) (h : Holding)
      → id ≤ j
      → j < id + left
      → holding env a j s ≡ some h
      → Lists (holdings_from env a id left s) h
  unfolding holdings_from
  holdings_from-Lists id zero j h l u e = absurd (omega arith)
  holdings_from-Lists id (suc left) j h l u e = elim (Bool-cases (j == id)) [
    | inl q ↦
        let f : holding env a id s ≡ some h = ap (λ i. holding env a i s) (sym (grind arith)) ∙ e in
        rw f first
    | inr q ↦
        Lists-prepend (holding env a id s) (holdings_from env a (id + 1) left s) h
          (holdings_from-Lists (id + 1) left j h (ground arith) (omega arith) e)
  ]

  Lists-prepend_cases :
      (o : Option Holding) (hs : List Holding) (h : Holding)
      → Lists (prepend o hs) h
      → (o ≡ some h) ⊎ Lists hs h
  Lists-prepend_cases none hs h k = inr k
  Lists-prepend_cases (some x) hs _ first = inl refl
  Lists-prepend_cases (some x) hs h (later k) = inr k

  holding_id : (id : ℕ) (h : Holding) → holding env a id s ≡ some h → h.campaign_id ≡ id
  unfolding holding
  holding_id id h e = ground arith

  -- What is listed stands at its id.
  holdings_from-holding :
      (id left : ℕ) (h : Holding)
      → Lists (holdings_from env a id left s) h
      → holding env a h.campaign_id s ≡ some h
  unfolding holdings_from
  holdings_from-holding id zero h k = elim k [ ]
  holdings_from-holding id (suc left) h k =
      elim (Lists-prepend_cases (holding env a id s) (holdings_from env a (id + 1) left s) h k) [
        | inl e ↦ subst (λ j. holding env a j s ≡ some h) (sym (holding_id id h e)) e
        | inr m ↦ holdings_from-holding (id + 1) left h m
      ]

module _ (env : Host) (id : ℕ) (a : Address) (s t : State) where
  -- Where the stored campaigns are numbered, a refund that returns was listed before in the
  -- contributor's portfolio, as refundable, with the amount of the contribution and the status of
  -- the campaign.
  pub refund-Listed :
      (c : Campaign)
      → IsNumbered s
      → get_campaign id s ≡ some c
      → claim_refund env id a s ≡ ok tt t
      → Lists (get_contributor_portfolio env a s) (record {
        campaign_id = id;
        amount = get_contribution id a s;
        status = status_of c;
        refundable = true;
      })
  unfolding get_contributor_portfolio holding claim_refund
  refund-Listed c v e h =
      let p = claim_refund-PaidBack env id a s t e h in
      holdings_from-Lists env a s 1 (get_campaign_count s) id _ (grind (arith, v.stored id))
        (grind (arith, v.stored id)) (ground arith)

  refunded_no_more :
      (h : Holding)
      → claim_refund env id a s ≡ ok tt t
      → Lists (get_contributor_portfolio env a t) h
      → h.campaign_id ≢ id
  unfolding get_contributor_portfolio holding
  refunded_no_more h k m e =
      let f = holdings_from-holding env a t 1 (get_campaign_count t) h m in
      ground (arith, claim_refund_erases env id a s t k)

-- Where a contributor's portfolio lists a campaign as not refundable, a refund asked for at the
-- same time changes nothing.
pub not_refundable-Refused :
    (env : Host) (a : Address) (h : Holding) (s : State)
    → Lists (get_contributor_portfolio env a s) h
    → h.refundable ≡ false
    → invoke (claim_refund env h.campaign_id a) s ≡ s
unfolding get_contributor_portfolio holding claim_refund
not_refundable-Refused env a h s k e =
    let f = holdings_from-holding env a s 1 (get_campaign_count s) h k in
    invoke-Refused (claim_refund env h.campaign_id a) s (ground arith)
