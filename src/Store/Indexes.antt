-- ===== src/Store/Indexes.antt =====
-- Getters and setters of the indexes by category, creator, title and tag, of censured comments and
-- of bookmarks (src/storage.rs).
use proof_of_heart_stellar.Prelude.{
  ℕ, Bool, Option, List, [], unwrap_or, is_some, insert, insert₂, erase₂,
}
use proof_of_heart_stellar.Types.{Address, Text, Category, category_index, CommentCensure}
use proof_of_heart_stellar.Store.Record.{State}

abbrev pub get_category_campaign_count : Category → State → ℕ
get_category_campaign_count c s =
    unwrap_or 0 (s.campaign_keys.category_campaign_count (category_index c))

abbrev pub set_category_campaign_count : Category → ℕ → State → State
set_category_campaign_count c v s = record s {
  campaign_keys = record (s.campaign_keys) {
    category_campaign_count = insert (category_index c) v s.campaign_keys.category_campaign_count;
  };
}

abbrev pub get_category_campaign_bucket : Category → ℕ → State → List ℕ
get_category_campaign_bucket c b s =
    unwrap_or [] (s.campaign_keys.category_campaigns_bucket (category_index c) b)

abbrev pub set_category_campaign_bucket : Category → ℕ → List ℕ → State → State
set_category_campaign_bucket c b ids s = record s {
  campaign_keys = record (s.campaign_keys) {
    category_campaigns_bucket =
        insert₂ (category_index c) b ids s.campaign_keys.category_campaigns_bucket;
  };
}

abbrev pub get_creator_campaign_count : Address → State → ℕ
get_creator_campaign_count a s = unwrap_or 0 (s.campaign_keys.creator_campaign_count a)

abbrev pub set_creator_campaign_count : Address → ℕ → State → State
set_creator_campaign_count a v s = record s {
  campaign_keys = record (s.campaign_keys) {
    creator_campaign_count = insert a v s.campaign_keys.creator_campaign_count;
  };
}

abbrev pub get_creator_campaign_bucket : Address → ℕ → State → List ℕ
get_creator_campaign_bucket a b s = unwrap_or [] (s.campaign_keys.creator_campaigns_bucket a b)

abbrev pub set_creator_campaign_bucket : Address → ℕ → (List ℕ) → State → State
set_creator_campaign_bucket a b v s = record s {
  campaign_keys = record (s.campaign_keys) {
    creator_campaigns_bucket = insert₂ a b v s.campaign_keys.creator_campaigns_bucket;
  };
}

abbrev pub get_creator_campaign_position : Address → ℕ → State → Option (ℕ × ℕ)
get_creator_campaign_position a id s = s.campaign_keys.creator_campaign_position a id

abbrev pub set_creator_campaign_position : Address → ℕ → (ℕ × ℕ) → State → State
set_creator_campaign_position a id v s = record s {
  campaign_keys = record (s.campaign_keys) {
    creator_campaign_position = insert₂ a id v s.campaign_keys.creator_campaign_position;
  };
}

abbrev pub remove_creator_campaign_position : Address → ℕ → State → State
remove_creator_campaign_position a id s = record s {
  campaign_keys = record (s.campaign_keys) {
    creator_campaign_position = erase₂ a id s.campaign_keys.creator_campaign_position;
  };
}

abbrev pub get_campaign_creator_index : ℕ → State → Option Address
get_campaign_creator_index id s = s.campaign_keys.campaign_creator_index id

abbrev pub set_campaign_creator_index : ℕ → Address → State → State
set_campaign_creator_index id v s = record s {
  campaign_keys = record (s.campaign_keys) {
    campaign_creator_index = insert id v s.campaign_keys.campaign_creator_index;
  };
}

abbrev pub creator_has_title : Address → ℕ → State → Bool
creator_has_title a hash s = is_some (s.campaign_keys.creator_campaign_title_index a hash)

abbrev pub set_creator_title_index : Address → ℕ → ℕ → State → State
set_creator_title_index a hash v s = record s {
  campaign_keys = record (s.campaign_keys) {
    creator_campaign_title_index = insert₂ a hash v s.campaign_keys.creator_campaign_title_index;
  };
}

abbrev pub remove_creator_title_index : Address → ℕ → State → State
remove_creator_title_index a hash s = record s {
  campaign_keys = record (s.campaign_keys) {
    creator_campaign_title_index = erase₂ a hash s.campaign_keys.creator_campaign_title_index;
  };
}

abbrev pub get_comment_censure : ℕ → ℕ → State → Option CommentCensure
get_comment_censure id hash s = s.campaign_keys.comment_censured id hash

abbrev pub set_comment_censure : ℕ → ℕ → CommentCensure → State → State
set_comment_censure id hash v s = record s {
  campaign_keys = record (s.campaign_keys) {
    comment_censured = insert₂ id hash v s.campaign_keys.comment_censured;
  };
}

abbrev pub remove_comment_censure : ℕ → ℕ → State → State
remove_comment_censure id hash s = record s {
  campaign_keys = record (s.campaign_keys) {
    comment_censured = erase₂ id hash s.campaign_keys.comment_censured;
  };
}

abbrev pub is_comment_censured : ℕ → ℕ → State → Bool
is_comment_censured id hash s = is_some (s.campaign_keys.comment_censured id hash)

abbrev pub get_campaign_censured_count : ℕ → State → ℕ
get_campaign_censured_count id s = unwrap_or 0 (s.campaign_keys.campaign_censured_count id)

abbrev pub set_campaign_censured_count : ℕ → ℕ → State → State
set_campaign_censured_count id v s = record s {
  campaign_keys = record (s.campaign_keys) {
    campaign_censured_count = insert id v s.campaign_keys.campaign_censured_count;
  };
}

abbrev pub get_campaign_tags : ℕ → State → List Text
get_campaign_tags id s = unwrap_or [] (s.campaign_keys.campaign_tags id)

abbrev pub set_campaign_tags : ℕ → (List Text) → State → State
set_campaign_tags id v s = record s {
  campaign_keys = record (s.campaign_keys) {
    campaign_tags = insert id v s.campaign_keys.campaign_tags;
  };
}

abbrev pub get_tag_campaign_count : ℕ → State → ℕ
get_tag_campaign_count hash s = unwrap_or 0 (s.campaign_keys.tag_campaign_count hash)

abbrev pub set_tag_campaign_count : ℕ → ℕ → State → State
set_tag_campaign_count hash v s = record s {
  campaign_keys = record (s.campaign_keys) {
    tag_campaign_count = insert hash v s.campaign_keys.tag_campaign_count;
  };
}

abbrev pub get_tag_campaigns_bucket : ℕ → ℕ → State → List ℕ
get_tag_campaigns_bucket hash b s = unwrap_or [] (s.campaign_keys.tag_campaigns_bucket hash b)

abbrev pub set_tag_campaigns_bucket : ℕ → ℕ → (List ℕ) → State → State
set_tag_campaigns_bucket hash b v s = record s {
  campaign_keys = record (s.campaign_keys) {
    tag_campaigns_bucket = insert₂ hash b v s.campaign_keys.tag_campaigns_bucket;
  };
}

abbrev pub get_saved_campaigns : Address → State → List ℕ
get_saved_campaigns user s = unwrap_or [] (s.bookmark_keys.saved_campaigns user)

abbrev pub set_saved_campaigns : Address → (List ℕ) → State → State
set_saved_campaigns user v s = record s {
  bookmark_keys = record (s.bookmark_keys) {
    saved_campaigns = insert user v s.bookmark_keys.saved_campaigns;
  };
}
