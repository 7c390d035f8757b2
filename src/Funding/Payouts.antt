-- ===== src/Funding/Payouts.antt =====
-- How `withdraw_funds` divides what a campaign holds: src/campaigns/withdraw.rs.
use proof_of_heart_stellar.Prelude.{
  unwrap_or, insert, ℕ, zero, suc, ◌+◌, ◌-◌, ◌*◌, ◌/◌, ◌≤◌, ◌<◌, ◌≡◌, ◌⊎◌, true, false, ◌||◌, some,
  ◌∷◌, arith,
}
use proof_of_heart_stellar.Prelude.Int.{
  pos, pos_part, ◌+ℤ◌, ◌-ℤ◌, ◌*ℤ◌, ◌/ℤ◌, ◌≤ℤ◌, checked_add, checked_sub, checked_mul,
}
use proof_of_heart_stellar.Types.{Address, Campaign}
use proof_of_heart_stellar.Types.Limits.{bps_denominator}
use proof_of_heart_stellar.Types.Error.{overflow}
use proof_of_heart_stellar.Host.{Host}
use proof_of_heart_stellar.Store.{
  stored_admin, get_platform_fee, State, get_total_raised_global, get_campaign,
  get_campaign_fee_recipient,
}
use proof_of_heart_stellar.Action.{Outcome, ok, err, trap, transfer, Ensures}
use proof_of_heart_stellar.Lifecycle.{transition}
use proof_of_heart_stellar.Campaigns.Withdraw.{
  ceil_bps, check_withdrawal, vesting_of, Split, split_funds, hold_reserve, close_campaign,
  fee_recipient, pay_out, withdraw_funds,
}
use proof_of_heart_stellar.Funding.Books.{token_of}

-- `ceil(n * bps / 10000)` on natural numbers.
abbrev pub ceil_of : ℕ → ℕ → ℕ
ceil_of n bps = (n * bps + 9999) / 10000

pub mul_bound : (n b m : ℕ) → b ≤ m → n * b ≤ n * m
mul_bound zero b m h = ground arith
mul_bound (suc n) b m h = ground (arith, mul_bound n b m h)

ceil_of_bound : (n bps : ℕ) → bps ≤ 10000 → ceil_of n bps ≤ n
ceil_of_bound n bps h = ground (arith, mul_bound n bps 10000 h)

ceil_bps_value :
    (n bps : ℕ) (s : State)
    → (ceil_bps (pos n) bps s ≡ ok (pos (ceil_of n bps)) s)
      ⊎ (ceil_bps (pos n) bps s ≡ err overflow s)
unfolding ceil_bps checked_mul checked_add ◌*ℤ◌ ◌+ℤ◌ ◌/ℤ◌
ceil_bps_value n bps s = ground arith

-- An action that returned, returned `a` and has written nothing.
abbrev pub Returns : {A : Type 0} → A → State → Outcome A → Type 0
Returns a s (ok b t) = (b ≡ a) × (t ≡ s)
Returns a s (err e t) = Unit {0}
Returns a s trap = Unit {0}

-- The division of an amount of `n`: a fee rounded up, of the rest a reserve rounded up, and what
-- is left for the creator.
abbrev pub split_of : ℕ → ℕ → ℕ → Split
split_of n fee_bps reserve_bps =
    let fee = ceil_of n fee_bps in
    let reserve = ceil_of (n - fee) reserve_bps in
    record { fee = pos fee; reserve = pos reserve; payout = pos (n - fee - reserve) }

module _ (n fee_bps reserve_bps : ℕ) (p : fee_bps ≤ bps_denominator)
    (q : reserve_bps ≤ bps_denominator) where
  split_of_total :
      let split = split_of n fee_bps reserve_bps in
      split.fee +ℤ split.reserve +ℤ split.payout ≡ pos n
  unfolding ◌+ℤ◌
  split_of_total =
      ground (arith, ceil_of_bound n fee_bps p, ceil_of_bound (n - ceil_of n fee_bps) reserve_bps q)

  -- `split_funds`, where it returns, divides the amount so.
  split_funds_value :
      (s : State)
      → Returns (split_of n fee_bps reserve_bps) s (split_funds (pos n) fee_bps reserve_bps s)
  unfolding split_funds checked_sub ◌-ℤ◌
  split_funds_value s = ground (
    arith,
    ceil_bps_value n fee_bps s,
    ceil_of_bound n fee_bps p,
    ceil_bps_value (n - ceil_of n fee_bps) reserve_bps s,
    ceil_of_bound (n - ceil_of n fee_bps) reserve_bps q,
  )

-- The fee of a campaign: its own, or the platform's.
abbrev pub fee_of : Campaign → State → ℕ
fee_of c s = unwrap_or (get_platform_fee s) c.fee_override

-- Who is paid the fee: the admin of the first contribution, or else the present one.
abbrev pub recipient_of : ℕ → State → Address
recipient_of id s = unwrap_or (unwrap_or 0 (stored_admin s)) (get_campaign_fee_recipient id s)

-- What a withdrawal from the campaign `c` has passed and has written.
pub record PaidOut (env : Host) (id : ℕ) (c : Campaign) (split : Split) (s t : State) : Type 0 where
  pub verified_campaign : c.is_verified ≡ true
  pub open_campaign : (c.is_cancelled || c.funds_withdrawn) ≡ false
  pub goal_met : c.funding_goal ≤ℤ c.amount_raised
  pub closed :
      t.campaign_keys.campaign
      ≡ insert id (record c { funds_withdrawn = true; is_active = false }) s.campaign_keys.campaign
  pub total :
      get_total_raised_global t
      ≡ get_total_raised_global s -ℤ (c.effective_amount_raised -ℤ split.reserve)
  pub moved : t.transfers ≡ (
      record {
        token = token_of id s;
        sender = env.contract_address;
        recipient = c.creator;
        amount = split.payout;
      }
      ∷ record {
        token = token_of id s;
        sender = env.contract_address;
        recipient = recipient_of id s;
        amount = split.fee;
      }
      ∷ s.transfers)

-- What `check_withdrawal` has passed.
abbrev Withdrawable : Campaign → Type 0
Withdrawable c =
    (c.is_verified ≡ true)
    × ((c.is_cancelled || c.funds_withdrawn) ≡ false)
    × (c.funding_goal ≤ℤ c.amount_raised)

check_withdrawal_passed :
    (id : ℕ) (c : Campaign) (s : State)
    → Ensures (λ t. (t ≡ s) × Withdrawable c) (check_withdrawal id c s)
unfolding check_withdrawal transition
check_withdrawal_passed id c s = ground arith

pay_out_books :
    (env : Host) (id : ℕ) (c : Campaign) (days : ℕ) (split : Split) (s : State)
    → Withdrawable c
    → Ensures (PaidOut env id c split s) (pay_out env id c days split s)
unfolding pay_out close_campaign hold_reserve fee_recipient transfer checked_sub
pay_out_books env id c days split s k = ground arith

-- A withdrawal that returns, from a campaign that holds `n`, at a fee and a reserve of at most
-- 100%, was of a verified, open campaign that met its goal; it closes the campaign, gives up all
-- but the reserve from the total, and pays the fee and the creator the exact division of `n`.
pub withdraw_funds-PaidOut :
    (env : Host) (id n : ℕ) (s t : State) {c : Campaign}
    → get_campaign id s ≡ some c
    → c.effective_amount_raised ≡ pos n
    → fee_of c s ≤ bps_denominator
    → (vesting_of id s).1 ≤ bps_denominator
    → withdraw_funds env id s ≡ ok tt t
    → PaidOut env id c (split_of n (fee_of c s) ((vesting_of id s).1)) s t
unfolding withdraw_funds
withdraw_funds-PaidOut env id n s t {c} e k p q h = grind (
  arith,
  check_withdrawal_passed id c s,
  split_funds_value n (fee_of c s) ((vesting_of id s).1) p q s,
  pay_out_books,
)

module _ (n fee_bps reserve_bps : ℕ) (s t : State) {split : Split} where
  -- At a fee and a reserve of at most 100%, a division of `n` that returns loses nothing and
  -- leaves the creator no negative part; the fee is the fee share of the amount and the reserve
  -- the reserve share of the rest, each rounded up.
  pub split_funds_exact :
      fee_bps ≤ bps_denominator
      → reserve_bps ≤ bps_denominator
      → split_funds (pos n) fee_bps reserve_bps s ≡ ok split t
      → (split.fee +ℤ split.reserve +ℤ split.payout ≡ pos n)
        × (pos 0 ≤ℤ split.payout)
        × (n * fee_bps ≤ pos_part split.fee * bps_denominator)
        × (pos_part split.fee * bps_denominator < n * fee_bps + bps_denominator)
        × ((n - pos_part split.fee) * reserve_bps ≤ pos_part split.reserve * bps_denominator)
        × (pos_part split.reserve * bps_denominator
            < (n - pos_part split.fee) * reserve_bps + bps_denominator)
  split_funds_exact p q h =
      let v : split ≡ split_of n fee_bps reserve_bps =
        ground (arith, split_funds_value n fee_bps reserve_bps p q s) in
      rw v (
        split_of_total n fee_bps reserve_bps p q,
        ground arith,
        ground arith,
        ground arith,
        ground arith,
        ground arith,
      )
