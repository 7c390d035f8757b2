-- ===== src/Types.antt =====
-- The data of the contract: src/types.rs, src/errors.rs, src/constants.rs, the limits of src/lib.rs
-- and of src/voting.rs, src/milestones.rs, src/bookmarks.rs, src/comments.rs. Addresses and hashes
-- are only compared, so they are numbers; a text is the list of its bytes.
pub mod Error
pub mod Limits
use proof_of_heart_stellar.Prelude.{ℕ, Bool, true, false, Option, List}
use proof_of_heart_stellar.Prelude.Int.{ℤ}

abbrev pub Address : Type 0
Address = ℕ

abbrev pub Text : Type 0
Text = List ℕ

-- The source's enum mirrors `Option<Address>`, and so does this.
abbrev pub MaybePendingCreator : Type 0
MaybePendingCreator = Option Address

pub data Category : Type 0 where
  learner educational_startup educator publisher : Category

-- `category as u32`
abbrev pub category_index : Category → ℕ
category_index Category.learner = 0
category_index Category.educational_startup = 1
category_index Category.educator = 2
category_index Category.publisher = 3

abbrev pub is_startup : Category → Bool
is_startup Category.educational_startup = true
is_startup _ = false

pub record Campaign : Type 0 where
  pub id : ℕ
  pub creator : Address
  pub first_creator : Address
  pub pending_creator : MaybePendingCreator
  pub title : Text
  pub description : Text
  pub funding_goal : ℤ
  pub deadline : ℕ
  pub amount_raised : ℤ
  pub is_active : Bool
  pub funds_withdrawn : Bool
  pub is_cancelled : Bool
  pub is_verified : Bool
  pub category : Category
  pub has_revenue_sharing : Bool
  pub revenue_share_percentage : ℕ
  pub max_contribution_per_user : ℤ
  pub fee_override : Option ℕ
  pub deadline_extended : Bool
  pub effective_amount_raised : ℤ

pub record CreateCampaignParams : Type 0 where
  pub creator : Address
  pub title : Text
  pub description : Text
  pub funding_goal : ℤ
  pub duration_days : ℕ
  pub category : Category
  pub has_revenue_sharing : Bool
  pub revenue_share_percentage : ℕ
  pub max_contribution_per_user : ℤ

pub record Milestone : Type 0 where
  pub id : ℕ
  pub description : Text
  pub payout_bps : ℕ
  pub verified : Bool

pub record CampaignReserve : Type 0 where
  pub amount : ℤ
  pub release_timestamp : ℕ
  pub released : Bool

-- src/storage.rs, `CommentCensure`
pub record CommentCensure : Type 0 where
  pub reason : Text
  pub censured_at : ℕ
  pub admin : Address
