-- ===== src/Funding/Books.antt =====
-- The books after a contribution and after a refund: src/contributions.rs.
use proof_of_heart_stellar.Prelude.{
  if◌then◌else◌, Option-cases, unwrap_or, is_some, insert, insert₂, erase₂, ℕ, ◌<◌, ◌≡◌, refl, ◌≢◌,
  ◌⊎◌, inl, inr, Bool, true, false, some, ◌∷◌, arith,
}
use proof_of_heart_stellar.Prelude.Int.{ℤ, pos, ◌+ℤ◌, ◌-ℤ◌, ◌<ℤ◌, in_i128, checked_sub}
use proof_of_heart_stellar.Types.{Address, Campaign}
use proof_of_heart_stellar.Host.{Host}
use proof_of_heart_stellar.Store.{
  stored_token, State, get_contribution, get_lifetime_contribution, get_total_raised_global,
  get_campaign, pinned_campaign_token,
}
use proof_of_heart_stellar.Action.{Outcome, ok, err, trap, transfer, invoke, Ensures, Ensures-intro}
use proof_of_heart_stellar.Lifecycle.{is_paused}
use proof_of_heart_stellar.Contributions.{
  accept_contribution, settle_contribution, contribute, claim_refund,
}
use proof_of_heart_stellar.Contributions.Effects.{
  raised_by, IsOpenTo, Accounted, accept_contribution_open, accept_contribution_effect,
}
use proof_of_heart_stellar.Safety.{invoke-Refused}

-- The token that the campaign is paid in: the one pinned to it, or the platform's.
abbrev pub token_of : ℕ → State → Address
token_of id s = unwrap_or (unwrap_or 0 (stored_token s)) (pinned_campaign_token id s)

-- The campaign's token moved `amount`, and nothing else was moved.
abbrev pub Moved : ℕ → Address → Address → ℤ → State → State → Type 0
Moved id sender recipient amount s t = t.transfers ≡ (
    record { token = token_of id s; sender = sender; recipient = recipient; amount = amount }
    ∷ s.transfers)

-- What `contribute` writes after the accounting leaves the books alone.
settle_books :
    (env : Host) (id : ℕ) (a : Address) (amount current : ℤ) (s : State)
    → Ensures
        (λ t.
          (t.campaign_keys.campaign ≡ s.campaign_keys.campaign)
          × (t.contribution_keys.contribution ≡ s.contribution_keys.contribution)
          × (get_total_raised_global t ≡ get_total_raised_global s)
          × Moved id a env.contract_address amount s t)
        (settle_contribution env id a amount current s)
unfolding settle_contribution transfer
settle_books env id a amount current s = ground arith

-- The books of the campaign `c` after `a` has paid `amount` in.
pub record PaidIn (env : Host) (id : ℕ) (a : Address) (amount : ℤ) (c : Campaign) (s t : State)
    : Type 0 where
  pub open_to : IsOpenTo env a amount c
  pub campaigns : t.campaign_keys.campaign ≡ insert id (raised_by amount c) s.campaign_keys.campaign
  pub contributions :
      t.contribution_keys.contribution
      ≡ insert₂ id a (get_contribution id a s +ℤ amount) s.contribution_keys.contribution
  pub total : get_total_raised_global t ≡ get_total_raised_global s +ℤ amount
  pub moved : Moved id a env.contract_address amount s t

PaidIn-settled :
    (env : Host) (id : ℕ) (a : Address) (amount : ℤ) (s u t : State) {c : Campaign} {lifetime : ℤ}
    → IsOpenTo env a amount c
    → Accounted id a amount c (get_contribution id a s) lifetime s u
    → (t.campaign_keys.campaign ≡ u.campaign_keys.campaign)
      × (t.contribution_keys.contribution ≡ u.contribution_keys.contribution)
      × (get_total_raised_global t ≡ get_total_raised_global u)
      × Moved id a env.contract_address amount u t
    → PaidIn env id a amount c s t
PaidIn-settled env id a amount s u t o w k = record {
  open_to = o;
  campaigns = ground (arith, w.campaigns);
  contributions = ground (arith, w.contributions);
  total = ground (arith, w.total);
  moved = ground (arith, w.tokens, w.admin_keys, w.transfers);
}

pub accept_books :
    (env : Host) (id : ℕ) (a : Address) (amount : ℤ) (s : State) {c : Campaign}
    → get_campaign id s ≡ some c
    → Ensures
        (λ t.
          IsOpenTo env a amount c
          × Accounted id a amount c
              (get_contribution id a s)
              (get_lifetime_contribution id a s)
              s
              t)
        (accept_contribution env id a amount s)
accept_books env id a amount s e = Ensures-intro (accept_contribution env id a amount s) (λ _ t h. (
  accept_contribution_open env id a amount s e h,
  (accept_contribution_effect env id a amount s e h).1,
))

-- A contribution to a stored campaign that returns was positive, in time, to a verified and active
-- campaign and not by its creator; it adds the amount to the campaign, to the contributor and to
-- the total, and moves it in the campaign's token to the contract.
pub contribute-PaidIn :
    (env : Host) (id : ℕ) (a : Address) (amount : ℤ) (s t : State) {c : Campaign}
    → get_campaign id s ≡ some c
    → contribute env id a amount s ≡ ok tt t
    → PaidIn env id a amount c s t
unfolding contribute
contribute-PaidIn env id a amount s t {c} e h =
    grind (arith, accept_books env id a amount s e, settle_books, PaidIn-settled)

-- The books of the campaign `c` after `a` has been paid `amount` back. A failed campaign also gives
-- the amount up from the platform's total; a cancelled one did so when it was cancelled.
pub record PaidBack (env : Host) (id : ℕ) (a : Address) (amount : ℤ) (c : Campaign) (s t : State)
    : Type 0 where
  pub whole : amount ≡ get_contribution id a s
  pub some_amount : amount ≢ pos 0
  pub ended :
      (c.is_cancelled ≡ true) ⊎ ((c.deadline < env.timestamp) × (c.amount_raised <ℤ c.funding_goal))
  pub campaigns :
      t.campaign_keys.campaign
      ≡ insert id
          (record c { effective_amount_raised = c.effective_amount_raised -ℤ amount })
          s.campaign_keys.campaign
  pub contributions :
      t.contribution_keys.contribution ≡ erase₂ id a s.contribution_keys.contribution
  pub total :
      get_total_raised_global t
      ≡ (if c.is_cancelled then get_total_raised_global s else get_total_raised_global s -ℤ amount)
  pub moved : Moved id env.contract_address a amount s t

module _ (env : Host) (id : ℕ) (a : Address) (s t : State) {c : Campaign}
    (e : get_campaign id s ≡ some c) (h : claim_refund env id a s ≡ ok tt t) where
  refund-Moved : Moved id env.contract_address a (get_contribution id a s) s t
  unfolding claim_refund transfer checked_sub
  refund-Moved = ground arith

  -- A refund from a stored campaign that returns was of a campaign that is cancelled, or is past
  -- its deadline below its goal; it erases the contribution, takes it from the campaign, and from
  -- the total unless the campaign is cancelled, and moves the whole of it back.
  pub claim_refund-PaidBack : PaidBack env id a (get_contribution id a s) c s t
  unfolding claim_refund transfer checked_sub
  claim_refund-PaidBack = record {
    whole = refl;
    some_amount = ground arith;
    ended = ground arith;
    campaigns = ground arith;
    contributions = ground arith;
    total = ground arith;
    moved = refund-Moved;
  }

pub claim_refund_erases :
    (env : Host) (id : ℕ) (a : Address) (s t : State)
    → claim_refund env id a s ≡ ok tt t
    → get_contribution id a t ≡ pos 0
unfolding claim_refund
claim_refund_erases env id a s t h = elim (Option-cases (get_campaign id s)) [
  | inl e ↦ absurd (ground arith)
  | inr (c, e) ↦ ground (arith, (claim_refund-PaidBack env id a s t e h).contributions)
]

-- After a refund that returns, a second one to the same contributor changes nothing.
pub claim_refund_once :
    (env env' : Host) (id : ℕ) (a : Address) (s t : State)
    → claim_refund env id a s ≡ ok tt t
    → invoke (claim_refund env' id a) t ≡ t
unfolding claim_refund
claim_refund_once env env' id a s t h =
    invoke-Refused (claim_refund env' id a) t (ground (arith, claim_refund_erases env id a s t h))

-- Whether an action returned.
abbrev pub is_ok : {A : Type 0} → Outcome A → Bool
is_ok (ok a t) = true
is_ok (err e t) = false
is_ok trap = false

module _ (env : Host) (id : ℕ) (a : Address) (s : State) {c : Campaign} where
  -- A contributor to a cancelled campaign who signs gets a refund, where the contract is not
  -- paused and has a token, the contribution is not zero, the subtraction is within `i128`, and
  -- the token contract carries the transfer out.
  pub refund_available :
      get_campaign id s ≡ some c
      → c.is_cancelled ≡ true
      → is_paused s ≡ false
      → env.is_authorized a ≡ true
      → get_contribution id a s ≢ pos 0
      → in_i128 (c.effective_amount_raised -ℤ get_contribution id a s) ≡ true
      → is_some (stored_token s) ≡ true
      → env.accepts s.transfers (record {
        token = token_of id s;
        sender = env.contract_address;
        recipient = a;
        amount = get_contribution id a s;
      })
        ≡ true
      → is_ok (claim_refund env id a s) ≡ true
  unfolding claim_refund transfer checked_sub
  refund_available e k p q n r m x = ground arith
