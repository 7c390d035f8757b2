-- ===== src/Roundtrips/Comments.antt =====
-- A comment that is censured and then restored (src/comments.rs).
use proof_of_heart_stellar.Prelude.{ℕ, ◌+◌, ◌^◌, ◌<◌, ◌≡◌, true, false, arith}
use proof_of_heart_stellar.Prelude.Words.{saturating_add_u32}
use proof_of_heart_stellar.Types.{Address, Text}
use proof_of_heart_stellar.Host.{Host}
use proof_of_heart_stellar.Store.{State, is_comment_censured, get_campaign_censured_count}
use proof_of_heart_stellar.Action.{ok}
use proof_of_heart_stellar.Moderation.{censure_comment, uncensure_comment}

module _ (env env' : Host) (admin : Address) (id comment_hash : ℕ) (reason : Text)
    (s t u : State) where
  -- A comment that is not censured, is censured by a call that returns, and restored by one that
  -- returns, reads as censured in between and not after, and the count goes up by one and back,
  -- where it is below the largest `u32`.
  pub censure_then_uncensure :
      is_comment_censured id comment_hash s ≡ false
      → get_campaign_censured_count id s + 1 < 2 ^ 32
      → censure_comment env admin id comment_hash reason s ≡ ok tt t
      → uncensure_comment env' admin id comment_hash t ≡ ok tt u
      → (is_comment_censured id comment_hash t ≡ true)
        × (get_campaign_censured_count id t ≡ get_campaign_censured_count id s + 1)
        × (is_comment_censured id comment_hash u ≡ false)
        × (get_campaign_censured_count id u ≡ get_campaign_censured_count id s)
  unfolding censure_comment uncensure_comment saturating_add_u32
  censure_then_uncensure n m h k = (ground arith, ground arith, ground arith, ground arith)
