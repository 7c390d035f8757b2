-- ===== src/Moderation.antt =====
-- Censured comments and tags: src/comments.rs and src/tags.rs, with `append_campaign_to_tag` of
-- src/storage.rs.
use proof_of_heart_stellar.Prelude.{
  ltb, leb, ◌==◌, length, ℕ, ◌-◌, ◌/◌, Bool, true, false, not, ◌&&◌, ◌||◌, List, [], ◌∷◌, ◌++◌,
}
use proof_of_heart_stellar.Prelude.Words.{saturating_add_u32}
use proof_of_heart_stellar.Types.{Address, Text}
use proof_of_heart_stellar.Types.Limits.{
  campaign_tag_min_len, campaign_tag_max_len, max_tags_per_campaign, censure_reason_max_len,
  tag_campaigns_bucket_size,
}
use proof_of_heart_stellar.Types.Error.{validation_failed}
use proof_of_heart_stellar.Host.{Host}
use proof_of_heart_stellar.Store.{
  set_comment_censure, remove_comment_censure, is_comment_censured, get_campaign_censured_count,
  set_campaign_censured_count, get_campaign_tags, set_campaign_tags, get_tag_campaign_count,
  set_tag_campaign_count, get_tag_campaigns_bucket, set_tag_campaigns_bucket,
}
use proof_of_heart_stellar.Action.{
  Action, Done, gets, ◌>>=◌, ◌>>◌, modify, reject_if, when, add_u32,
}
use proof_of_heart_stellar.Lifecycle.{
  get_admin, get_campaign_or_error, get_creator_campaign, assert_admin, require_active_campaign,
  require_not_paused,
}
use proof_of_heart_stellar.Campaigns.Create.{hash_text}

unfoldable pub censure_comment : Host → Address → ℕ → ℕ → Text → Action Done
censure_comment env admin id comment_hash reason = do
  assert_admin env admin
  require_not_paused
  _ ← get_campaign_or_error id
  reject_if (length reason == 0 || ltb censure_reason_max_len (length reason)) validation_failed
  censured ← gets (is_comment_censured id comment_hash)
  when (not censured) do
    modify (
        set_comment_censure id comment_hash
          (record { reason = reason; censured_at = env.timestamp; admin = admin }))
    count ← gets (get_campaign_censured_count id)
    modify (set_campaign_censured_count id (saturating_add_u32 count 1))

unfoldable pub uncensure_comment : Host → Address → ℕ → ℕ → Action Done
uncensure_comment env admin id comment_hash = do
  assert_admin env admin
  require_not_paused
  _ ← get_campaign_or_error id
  censured ← gets (is_comment_censured id comment_hash)
  when censured do
    modify (remove_comment_censure id comment_hash)
    count ← gets (get_campaign_censured_count id)
    modify (set_campaign_censured_count id (count - 1))

-- The entry points of the two read the administrator that they pass on.
unfoldable pub censure_comment_by_admin : Host → ℕ → ℕ → Text → Action Done
censure_comment_by_admin env id comment_hash reason = do
  admin ← get_admin
  censure_comment env admin id comment_hash reason

unfoldable pub uncensure_comment_by_admin : Host → ℕ → ℕ → Action Done
uncensure_comment_by_admin env id comment_hash = do
  admin ← get_admin
  uncensure_comment env admin id comment_hash

unfoldable pub append_campaign_to_tag : ℕ → ℕ → Action Done
append_campaign_to_tag tag_hash id = do
  count ← gets (get_tag_campaign_count tag_hash)
  let bucket_idx = count / tag_campaigns_bucket_size
  bucket ← gets (get_tag_campaigns_bucket tag_hash bucket_idx)
  modify (set_tag_campaigns_bucket tag_hash bucket_idx (bucket ++ id ∷ []))
  next ← add_u32 count 1
  modify (set_tag_campaign_count tag_hash next)

unfoldable pub text_eq : Text → Text → Bool
text_eq [] [] = true
text_eq (a ∷ x) (b ∷ y) = a == b && text_eq x y
text_eq _ _ = false

-- `tags.iter().any(|existing| existing == tag)`
unfoldable pub has_tag : List Text → Text → Bool
has_tag [] tag = false
has_tag (existing ∷ tags) tag = text_eq existing tag || has_tag tags tag

unfoldable pub add_campaign_tag : Host → ℕ → Text → Action Done
add_campaign_tag env id tag = do
  campaign ← get_creator_campaign env id
  require_not_paused
  require_active_campaign campaign
  reject_if (ltb (length tag) campaign_tag_min_len || ltb campaign_tag_max_len (length tag))
      validation_failed
  tags ← gets (get_campaign_tags id)
  reject_if (leb max_tags_per_campaign (length tags)) validation_failed
  reject_if (has_tag tags tag) validation_failed
  append_campaign_to_tag (hash_text env tag) id
  modify (set_campaign_tags id (tags ++ tag ∷ []))
