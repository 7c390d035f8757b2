-- ===== src/Bookmarks.antt =====
-- Saved campaigns of a wallet: src/bookmarks.rs.
use proof_of_heart_stellar.Prelude.{
  leb, if◌then◌else◌, length, contains, index_of, remove_at, ℕ, Bool, false, not, Option, none,
  some, List, [], ◌∷◌, ◌++◌,
}
use proof_of_heart_stellar.Types.{Address, Campaign}
use proof_of_heart_stellar.Types.Limits.{max_bookmarks_per_wallet}
use proof_of_heart_stellar.Types.Error.{
  campaign_already_bookmarked, campaign_not_bookmarked, bookmark_limit_reached,
}
use proof_of_heart_stellar.Host.{Host}
use proof_of_heart_stellar.Store.{State, get_saved_campaigns, set_saved_campaigns, get_campaign}
use proof_of_heart_stellar.Action.{
  Action, Done, pure, gets, ok_or, ◌>>=◌, ◌>>◌, modify, reject_if, require_auth,
}
use proof_of_heart_stellar.Lifecycle.{get_campaign_or_error}

unfoldable pub save_campaign : Host → Address → ℕ → Action Done
save_campaign env user id = do
  require_auth env user
  _ ← get_campaign_or_error id
  saved ← gets (get_saved_campaigns user)
  reject_if (contains saved id) campaign_already_bookmarked
  reject_if (leb max_bookmarks_per_wallet (length saved)) bookmark_limit_reached
  modify (set_saved_campaigns user (saved ++ id ∷ []))

unfoldable pub remove_saved_campaign : Host → Address → ℕ → Action Done
remove_saved_campaign env user id = do
  require_auth env user
  saved ← gets (get_saved_campaigns user)
  position ← ok_or campaign_not_bookmarked (index_of id saved)
  modify (set_saved_campaigns user (remove_at position saved))

-- The loop of `batch_save_campaigns`.
unfoldable pub save_each : List ℕ → List ℕ → Action (List ℕ)
save_each [] saved = pure saved
save_each (id ∷ ids) saved = do
  _ ← get_campaign_or_error id
  reject_if (contains saved id) campaign_already_bookmarked
  save_each ids (saved ++ id ∷ [])

unfoldable pub batch_save_campaigns : Host → Address → List ℕ → Action Done
batch_save_campaigns env user ids = do
  require_auth env user
  saved ← gets (get_saved_campaigns user)
  updated ← save_each ids saved
  modify (set_saved_campaigns user updated)

abbrev pub is_live : Option Campaign → Bool
is_live none = false
is_live (some campaign) = not campaign.is_cancelled

-- The loop of `get_saved`.
unfoldable pub live_only : List ℕ → State → List ℕ
live_only [] s = []
live_only (id ∷ ids) s =
    let rest = live_only ids s in if is_live (get_campaign id s) then id ∷ rest else rest

unfoldable pub get_saved : Address → State → List ℕ
get_saved user s = live_only (get_saved_campaigns user s) s

unfoldable pub get_saved_count : Address → State → ℕ
get_saved_count user s = length (get_saved user s)

unfoldable pub clear_saved_campaigns : Host → Address → Action Done
clear_saved_campaigns env user = do require_auth env user; modify (set_saved_campaigns user [])
