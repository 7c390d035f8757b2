-- ===== src/Governance/Handover.antt =====
-- The hand-over of the administration and of the platform's token: src/admin.rs.
use proof_of_heart_stellar.Prelude.{is_some, ℕ, ◌+◌, ◌≤◌, ◌<◌, ◌≡◌, true, none, some, arith}
use proof_of_heart_stellar.Prelude.Int.{pos}
use proof_of_heart_stellar.Prelude.Words.{checked_add_u64}
use proof_of_heart_stellar.Types.{Address}
use proof_of_heart_stellar.Types.Limits.{token_update_delay_secs}
use proof_of_heart_stellar.Host.{Host}
use proof_of_heart_stellar.Store.{
  stored_admin, get_pending_admin, stored_token, get_pending_token, get_pending_token_release,
  get_token_update_delay_secs, State, get_total_raised_global, get_active_campaign_count,
}
use proof_of_heart_stellar.Action.{ok}
use proof_of_heart_stellar.Admin.{
  initiate_admin_transfer, accept_admin_transfer, propose_token_update, accept_token_update,
}
use proof_of_heart_stellar.Calls.{accept_token_update_call, step}
use proof_of_heart_stellar.Safety.{Refused, invoke-Refused}

-- The token is replaced only by the one proposed, after its delay, and while no campaign is active
-- and nothing is held.
pub record Replaced (env : Host) (s t : State) : Type 0 where
  pub proposed : (stored_token t ≡ get_pending_token s) × is_some (stored_token t) ≡ true
  pub waited : (release : ℕ) → get_pending_token_release s ≡ some release → release ≤ env.timestamp
  pub none_active : get_active_campaign_count s ≡ 0
  pub none_held : get_total_raised_global s ≡ pos 0
  pub settled : get_pending_token t ≡ none

-- An acceptance of a new token that returns takes the token that was proposed, at or after its
-- release, while no campaign is active and the total is zero, and settles the proposal.
pub accept_token_update-Replaced :
    (env : Host) (a : Address) (s t : State)
    → accept_token_update env a s ≡ ok tt t
    → Replaced env s t
unfolding accept_token_update
accept_token_update-Replaced env a s t h = record {
  proposed = ground arith;
  waited = λ release e. ground arith;
  none_active = ground arith;
  none_held = ground arith;
  settled = ground arith;
}

proposal_release :
    (env : Host) (a token : Address) (s t : State)
    → propose_token_update env a token s ≡ ok tt t
    → get_pending_token_release t
      ≡ some (env.timestamp + get_token_update_delay_secs token_update_delay_secs s)
unfolding propose_token_update checked_add_u64
proposal_release env a token s t h = ground arith

early-Refused :
    (env : Host) (b : Address) (s : State) {release : ℕ}
    → get_pending_token_release s ≡ some release
    → env.timestamp < release
    → Refused (accept_token_update env b s)
unfolding accept_token_update
early-Refused env b s e q = ground arith

-- After a proposal of a token that returns, an acceptance before the delay has passed changes
-- nothing.
pub token_update_waits :
    (env env' : Host) (a b token : Address) (s t : State)
    → propose_token_update env a token s ≡ ok tt t
    → env'.timestamp < env.timestamp + get_token_update_delay_secs token_update_delay_secs s
    → step env' (accept_token_update_call b) t ≡ t
unfolding step
token_update_waits env env' a b token s t h q =
    invoke-Refused (accept_token_update env' b) t
      (early-Refused env' b t (proposal_release env a token s t h) q)

module _ (env env' : Host) (a b : Address) (s t u : State)
    (h : initiate_admin_transfer env a b s ≡ ok tt t) where
  -- A hand-over of the administration whose two calls return was proposed by the administrator,
  -- who signed, and accepted by the one named, who signed; it is in force only from the acceptance
  -- on.
  pub admin_handover :
      accept_admin_transfer env' t ≡ ok tt u
      → (stored_admin s ≡ some a)
        × (env.is_authorized a ≡ true)
        × (env'.is_authorized b ≡ true)
        × (stored_admin t ≡ some a)
        × (stored_admin u ≡ some b)
        × (get_pending_admin u ≡ none)
  unfolding initiate_admin_transfer accept_admin_transfer
  admin_handover k = ground arith
