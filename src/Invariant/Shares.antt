-- ===== src/Invariant/Shares.antt =====
-- Claims of revenue leave what the invariant is about as it was.
use proof_of_heart_stellar.Prelude.{ℕ, ◌≡◌, Bool, true, false, arith}
use proof_of_heart_stellar.Prelude.Int.{ℤ}
use proof_of_heart_stellar.Types.{Address, Campaign}
use proof_of_heart_stellar.Host.{Host}
use proof_of_heart_stellar.Store.{State, get_contribution}
use proof_of_heart_stellar.Action.{ok, transfer, Ensures, Keeps}
use proof_of_heart_stellar.Invariant.Defs.{Same, Same-trans}
use proof_of_heart_stellar.Revenue.{
  last_claimant, absorb_dust, check_claim, revenue_claimable, record_claim, claim_revenue,
}

last_claimant-Keeps : (x : ℤ) (m n : ℕ) (s : State) → Keeps s (last_claimant x m n s)
unfolding last_claimant
last_claimant-Keeps x m n s = ground arith

absorb_dust-Keeps :
    (b : Bool) (c : Campaign) (x y z : ℤ) (s : State) → Keeps s (absorb_dust b c x y z s)
unfolding absorb_dust
absorb_dust-Keeps true c x y z s = ground arith
absorb_dust-Keeps false c x y z s = ground arith

check_claim-Keeps : (c : Campaign) (x : ℤ) (s : State) → Keeps s (check_claim c x s)
unfolding check_claim
check_claim-Keeps c x s = ground arith

pub revenue_claimable-Keeps :
    (id : ℕ) (a : Address) (c : Campaign) (s : State) → Keeps s (revenue_claimable id a c s)
unfolding revenue_claimable
revenue_claimable-Keeps id a c s =
    grind (
      arith,
      check_claim-Keeps c (get_contribution id a s) s,
      last_claimant-Keeps,
      absorb_dust-Keeps,
    )

record_claim-Same :
    (id : ℕ) (a : Address) (x : ℤ) (s : State) → Ensures (Same s) (record_claim id a x s)
unfolding record_claim
record_claim-Same id a x s = ground arith

pay_claim-Same :
    (env : Host) (token a b : Address) (amount : ℤ) (s : State)
    → Ensures (Same s) (transfer env token a b amount s)
unfolding transfer
pay_claim-Same env token a b amount s = ground arith

pub claim_revenue-Same :
    (env : Host) (id : ℕ) (a : Address) (s t : State)
    → claim_revenue env id a s ≡ ok tt t
    → Same s t
unfolding claim_revenue
claim_revenue-Same env id a s t h =
    grind (arith, revenue_claimable-Keeps, record_claim-Same, pay_claim-Same, Same-trans)
