-- ===== src/Invariant/Untouched.antt =====
-- The entry points that write nothing that the invariant is about.
use proof_of_heart_stellar.Prelude.{ℕ, ◌≡◌, Bool, List, arith}
use proof_of_heart_stellar.Prelude.Int.{ℤ}
use proof_of_heart_stellar.Types.{Address, Text}
use proof_of_heart_stellar.Host.{Host}
use proof_of_heart_stellar.Store.{State}
use proof_of_heart_stellar.Action.{ok, transfer}
use proof_of_heart_stellar.Admin.{
  pause, unpause, set_emergency_signers, emergency_pause, resume_campaign, initiate_admin_transfer,
  update_admin, accept_admin_transfer, cancel_admin_transfer, propose_token_update,
  accept_token_update, cancel_token_update,
}
use proof_of_heart_stellar.Bookmarks.{save_campaign, remove_saved_campaign, clear_saved_campaigns}
use proof_of_heart_stellar.Campaigns.Withdraw.{withdraw_reserve}
use proof_of_heart_stellar.Contributions.{set_personal_cap_fn, remove_personal_cap_fn}
use proof_of_heart_stellar.Invariant.Defs.{Same}
use proof_of_heart_stellar.Moderation.{
  censure_comment, uncensure_comment, censure_comment_by_admin, uncensure_comment_by_admin,
  append_campaign_to_tag, add_campaign_tag,
}
use proof_of_heart_stellar.Revenue.{deposit_revenue, claim_creator_revenue}
use proof_of_heart_stellar.Voting.{count_vote, cast_vote, vote_on_campaign}

module _ (env : Host) (s : State) {t : State} where
  pub set_personal_cap_fn-Same :
      (id : ℕ) (a : Address) (x : ℤ) → set_personal_cap_fn env id a x s ≡ ok tt t → Same s t
  unfolding set_personal_cap_fn
  set_personal_cap_fn-Same id a x h = ground arith

  pub remove_personal_cap_fn-Same :
      (id : ℕ) (a : Address) → remove_personal_cap_fn env id a s ≡ ok tt t → Same s t
  unfolding remove_personal_cap_fn
  remove_personal_cap_fn-Same id a h = ground arith

  pub deposit_revenue-Same : (id : ℕ) (x : ℤ) → deposit_revenue env id x s ≡ ok tt t → Same s t
  unfolding deposit_revenue transfer
  deposit_revenue-Same id x h = ground arith

  pub claim_creator_revenue-Same : (id : ℕ) → claim_creator_revenue env id s ≡ ok tt t → Same s t
  unfolding claim_creator_revenue transfer
  claim_creator_revenue-Same id h = ground arith

  pub withdraw_reserve-Same : (id : ℕ) → withdraw_reserve env id s ≡ ok tt t → Same s t
  unfolding withdraw_reserve transfer
  withdraw_reserve-Same id h = ground arith

  pub vote_on_campaign-Same :
      (id : ℕ) (a : Address) (b : Bool) → vote_on_campaign env id a b s ≡ ok tt t → Same s t
  unfolding vote_on_campaign cast_vote count_vote
  vote_on_campaign-Same id a b h = ground arith

  pub save_campaign-Same : (a : Address) (id : ℕ) → save_campaign env a id s ≡ ok tt t → Same s t
  unfolding save_campaign
  save_campaign-Same a id h = ground arith

  pub remove_saved_campaign-Same :
      (a : Address) (id : ℕ) → remove_saved_campaign env a id s ≡ ok tt t → Same s t
  unfolding remove_saved_campaign
  remove_saved_campaign-Same a id h = ground arith

  pub clear_saved_campaigns-Same :
      (a : Address) → clear_saved_campaigns env a s ≡ ok tt t → Same s t
  unfolding clear_saved_campaigns
  clear_saved_campaigns-Same a h = ground arith

  pub censure_comment-Same :
      (id hash : ℕ) (x : Text) → censure_comment_by_admin env id hash x s ≡ ok tt t → Same s t
  unfolding censure_comment_by_admin censure_comment
  censure_comment-Same id hash x h = ground arith

  pub uncensure_comment-Same :
      (id hash : ℕ) → uncensure_comment_by_admin env id hash s ≡ ok tt t → Same s t
  unfolding uncensure_comment_by_admin uncensure_comment
  uncensure_comment-Same id hash h = ground arith

  pub add_campaign_tag-Same : (id : ℕ) (x : Text) → add_campaign_tag env id x s ≡ ok tt t → Same s t
  unfolding add_campaign_tag append_campaign_to_tag
  add_campaign_tag-Same id x h = ground arith

  pub pause-Same : pause env s ≡ ok tt t → Same s t
  unfolding pause
  pause-Same h = ground arith

  pub unpause-Same : unpause env s ≡ ok tt t → Same s t
  unfolding unpause
  unpause-Same h = ground arith

  pub emergency_pause-Same : (a : Address) → emergency_pause env a s ≡ ok tt t → Same s t
  unfolding emergency_pause
  emergency_pause-Same a h = ground arith

  pub set_emergency_signers-Same :
      (a : Address) (xs : List Address) → set_emergency_signers env a xs s ≡ ok tt t → Same s t
  unfolding set_emergency_signers
  set_emergency_signers-Same a xs h = ground arith

  pub resume_campaign-Same :
      (id : ℕ) (a : Address) → resume_campaign env id a s ≡ ok tt t → Same s t
  unfolding resume_campaign
  resume_campaign-Same id a h = ground arith

  pub initiate_admin_transfer-Same :
      (a b : Address) → initiate_admin_transfer env a b s ≡ ok tt t → Same s t
  unfolding initiate_admin_transfer
  initiate_admin_transfer-Same a b h = ground arith

  pub update_admin-Same : (a : Address) → update_admin env a s ≡ ok tt t → Same s t
  unfolding update_admin initiate_admin_transfer
  update_admin-Same a h = ground arith

  pub accept_admin_transfer-Same : accept_admin_transfer env s ≡ ok tt t → Same s t
  unfolding accept_admin_transfer
  accept_admin_transfer-Same h = ground arith

  pub cancel_admin_transfer-Same :
      (a : Address) → cancel_admin_transfer env a s ≡ ok tt t → Same s t
  unfolding cancel_admin_transfer
  cancel_admin_transfer-Same a h = ground arith

  pub propose_token_update-Same :
      (a b : Address) → propose_token_update env a b s ≡ ok tt t → Same s t
  unfolding propose_token_update
  propose_token_update-Same a b h = ground arith

  pub accept_token_update-Same : (a : Address) → accept_token_update env a s ≡ ok tt t → Same s t
  unfolding accept_token_update
  accept_token_update-Same a h = ground arith

  pub cancel_token_update-Same : (a : Address) → cancel_token_update env a s ≡ ok tt t → Same s t
  unfolding cancel_token_update
  cancel_token_update-Same a h = ground arith
