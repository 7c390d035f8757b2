-- ===== src/Governance/Votes.antt =====
-- Community votes: src/voting.rs.
use native.Mathlib.Nat.{div-mul-le_self, div-le_self, mul-le-mul_right, le_trans}
use proof_of_heart_stellar.Prelude.{
  ℕ, ◌+◌, ◌*◌, ◌/◌, ◌^◌, ◌≤◌, ◌<◌, ◌≡◌, Bool, true, false, some, arith,
}
use proof_of_heart_stellar.Prelude.Words.{checked_add_u32, checked_mul_u64}
use proof_of_heart_stellar.Types.{Address, Campaign}
use proof_of_heart_stellar.Types.Limits.{bps_denominator, default_min_votes_quorum}
use proof_of_heart_stellar.Host.{Host}
use proof_of_heart_stellar.Store.{
  State, get_approve_votes, get_reject_votes, get_has_voted, get_min_votes_quorum, get_campaign,
}
use proof_of_heart_stellar.Action.{ok}
use proof_of_heart_stellar.Lifecycle.{state_of, transition}
use proof_of_heart_stellar.Calls.{vote_on_campaign_call, step}
use proof_of_heart_stellar.Safety.{Refused, invoke-Refused}
use proof_of_heart_stellar.Voting.{
  effective_approval_threshold_bps, count_vote, cast_vote, mark_verified, approval_bps,
  verify_with_votes, vote_on_campaign,
}

-- The parts of a share in basis points.
div_bound : (x m q : ℕ) → q ≤ x / m → q * m ≤ x
div_bound x m q h = le_trans (mul-le-mul_right m h) (div-mul-le_self x m)

approval_reached :
    (a r q : ℕ) → a < 2 ^ 32 → q ≤ approval_bps a (a + r) → q * (a + r) ≤ a * bps_denominator
unfolding approval_bps checked_mul_u64
approval_reached a r q p h =
    ground
      (arith, div_bound (a * bps_denominator) (a + r) q, div-le_self (a * bps_denominator) (a + r))

-- What a verification by votes has passed.
pub record Approved (id : ℕ) (c : Campaign) (s t : State) : Type 0 where
  pub quorum :
      get_min_votes_quorum default_min_votes_quorum s
      ≤ get_approve_votes id s + get_reject_votes id s
  pub threshold :
      effective_approval_threshold_bps c.category s
        * (get_approve_votes id s + get_reject_votes id s)
      ≤ get_approve_votes id s * bps_denominator
  pub before : (c.is_verified ≡ false) × (c.is_cancelled ≡ false) × (c.funds_withdrawn ≡ false)
  pub after : get_campaign id t ≡ some (record c { is_verified = true })

module _ (id : ℕ) (s t : State) {c : Campaign} (e : get_campaign id s ≡ some c) where
  votes_needed :
      verify_with_votes id s ≡ ok tt t
      → (get_min_votes_quorum default_min_votes_quorum s
          ≤ get_approve_votes id s + get_reject_votes id s)
        × (effective_approval_threshold_bps c.category s
            ≤ approval_bps
                (get_approve_votes id s)
                (get_approve_votes id s + get_reject_votes id s))
        × (get_approve_votes id s < 2 ^ 32)
  unfolding verify_with_votes mark_verified transition checked_add_u32
  votes_needed h = ground arith

  marked :
      verify_with_votes id s ≡ ok tt t
      → (c.is_verified ≡ false)
        × (c.is_cancelled ≡ false)
        × (c.funds_withdrawn ≡ false)
        × (get_campaign id t ≡ some (record c { is_verified = true }))
  unfolding verify_with_votes mark_verified transition state_of
  marked h = ground arith

  -- A verification by votes of a stored campaign that returns has met the quorum and, in exact
  -- proportion, the threshold of the category; the campaign was neither verified, cancelled nor
  -- withdrawn, and is now verified.
  pub verify_with_votes-Approved : verify_with_votes id s ≡ ok tt t → Approved id c s t
  verify_with_votes-Approved h =
      let (q, p, r) = votes_needed h in
      let (v, x, w, u) = marked h in
      record {
        quorum = q;
        threshold =
            approval_reached (get_approve_votes id s) (get_reject_votes id s)
              (effective_approval_threshold_bps c.category s) r p;
        before = (v, x, w);
        after = u;
      }

module _ (env env' : Host) (id : ℕ) (a : Address) (b b' : Bool) (s t : State)
    (h : vote_on_campaign env id a b s ≡ ok tt t) where
  vote_recorded : get_has_voted id a t ≡ true
  unfolding vote_on_campaign cast_vote count_vote
  vote_recorded = ground arith

  vote-Refused : Refused (vote_on_campaign env' id a b' t)
  unfolding vote_on_campaign cast_vote
  vote-Refused = ground (arith, vote_recorded)

  -- After a vote that returns, a second vote of the same address on the same campaign changes
  -- nothing.
  pub vote_once : step env' (vote_on_campaign_call id a b') t ≡ t
  unfolding step
  vote_once = invoke-Refused (vote_on_campaign env' id a b') t vote-Refused
