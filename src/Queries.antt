-- ===== src/Queries.antt =====
-- The lists of campaigns that the contract answers with (src/queries.rs). A loop over ids is a
-- recursion on how many ids are left; the loop over buckets is on fuel, since it need not end.
pub mod Stats
pub mod Portfolio
use proof_of_heart_stellar.Prelude.{
  ltb, leb, ◌==◌, if◌then◌else◌, min, ◌and_then◌, length, drop, prepend, ℕ, zero, suc, ◌+◌, ◌-◌,
  ◌*◌, ◌/◌, Bool, true, false, not, ◌&&◌, ◌||◌, Option, none, some, List, [], ◌∷◌, ◌++◌,
}
use proof_of_heart_stellar.Prelude.Words.{checked_add_u32, saturating_add_u32}
use proof_of_heart_stellar.Types.{Address, Text, Category, Campaign}
use proof_of_heart_stellar.Types.Limits.{
  campaign_tag_min_len, campaign_tag_max_len, category_campaigns_bucket_size,
  creator_campaigns_bucket_size, tag_campaigns_bucket_size, list_max_limit, max_scan_window,
}
use proof_of_heart_stellar.Host.{Host}
use proof_of_heart_stellar.Store.{
  State, get_category_campaign_count, get_category_campaign_bucket, get_creator_campaign_count,
  get_creator_campaign_bucket, get_campaign_tags, get_tag_campaign_count, get_tag_campaigns_bucket,
  get_campaign_count, get_campaign,
}
use proof_of_heart_stellar.Campaigns.Create.{hash_text}

-- The loop of `list_campaigns` from `id` on, with `left` ids to go.
unfoldable pub campaigns_from : ℕ → ℕ → State → List Campaign
campaigns_from id zero s = []
campaigns_from id (suc left) s = prepend (get_campaign id s) (campaigns_from (id + 1) left s)

unfoldable pub list_campaigns : ℕ → ℕ → State → List Campaign
list_campaigns start limit s =
    let total_count = get_campaign_count s in
    let end = min (saturating_add_u32 start (min limit list_max_limit)) total_count in
    if leb total_count start || limit == 0 then [] else campaigns_from (start + 1) (end - start) s

-- `campaign.is_active && !campaign.is_cancelled`
abbrev pub is_open : Campaign → Bool
is_open c = c.is_active && not c.is_cancelled

-- The campaign that `list_active_campaigns` collects at an id.
abbrev pub open_only : Option Campaign → Option Campaign
open_only none = none
open_only (some c) = if is_open c then some c else none

-- `campaigns.push_back`, before what the rest of the loop collects.
abbrev pub collect : Campaign → Option (List Campaign × ℕ) → Option (List Campaign × ℕ)
collect c none = none
collect c (some (campaigns, next_cursor)) = some (c ∷ campaigns, next_cursor)

-- The loop of `list_active_campaigns`: the end of the scan window, the limit, what is collected so
-- far, the id, and the ids left. It yields what is still to be collected, and the cursor, and
-- `none` where the next id is above `u32`, which traps.
unfoldable pub scan_active : ℕ → ℕ → ℕ → ℕ → ℕ → State → Option (List Campaign × ℕ)
scan_active window limit collected id zero s = some ([], 0)
scan_active window limit collected id (suc left) s = elim (ltb window id) [
  | true ↦ some ([], id)
  | false ↦ elim (open_only (get_campaign id s)) [
    | none ↦ checked_add_u32 id 1 and_then λ following.
        scan_active window limit collected following left s
    | some c ↦ elim (leb limit (collected + 1)) [
      | true ↦ checked_add_u32 id 1 and_then λ following. some (c ∷ [], following)
      | false ↦ checked_add_u32 id 1 and_then λ following.
          collect c (scan_active window limit (collected + 1) following left s)
    ]
  ]
]

-- `none` where `start + MAX_SCAN_WINDOW`, or an id, is above `u32`, which traps.
unfoldable pub list_active_campaigns : ℕ → ℕ → State → Option (List Campaign × ℕ)
list_active_campaigns start limit s =
    let total_count = get_campaign_count s in
    let scan = λ (window : ℕ).
      scan_active window (min limit list_max_limit) 0 (start + 1) (total_count - start) s in
    if leb total_count start || limit == 0
    then some ([], 0)
    else (checked_add_u32 start max_scan_window and_then scan)

-- What comes of the traversal of buckets: the campaigns, or a trap where the position is above
-- `u32`, or no answer for want of fuel.
pub data Traversal : Type 0 where
  page : List Campaign → Traversal
  overflowed : Traversal
  unfinished : Traversal

abbrev pub more : List Campaign → Traversal → Traversal
more found (page campaigns) = page (found ++ campaigns)
more found overflowed = overflowed
more found unfinished = unfinished

-- The inner loop, over the entries from `idx_in_bucket` on: the position that it ends at, the
-- entries that it leaves, and the campaigns found.
unfoldable pub walk_bucket : List ℕ → ℕ → ℕ → State → ℕ × List ℕ × List Campaign
walk_bucket [] position end s = (position, [], [])
walk_bucket (id ∷ entries) position end s = elim (ltb position end) [
  | false ↦ (position, id ∷ entries, [])
  | true ↦
      let (reached, left, found) = walk_bucket entries (position + 1) end s in
      (reached, left, prepend (get_campaign id s) found)
]

-- The position after the inner loop: past the end of the bucket where its entries are used up.
abbrev pub advance : List ℕ → ℕ → ℕ → ℕ → ℕ → Option ℕ
advance (_ ∷ _) reached bucket_start bucket_len bucket_size = some reached
advance [] reached bucket_start bucket_len bucket_size =
    checked_add_u32 bucket_start (if bucket_len == 0 then bucket_size else bucket_len)

unfoldable pub traverse_buckets : ℕ → (ℕ → List ℕ) → ℕ → ℕ → ℕ → State → Traversal
traverse_buckets zero get_bucket bucket_size position end s =
    if ltb position end then unfinished else page []
traverse_buckets (suc fuel) get_bucket bucket_size position end s = elim (ltb position end) [
  | false ↦ page []
  | true ↦
      let bucket = get_bucket (position / bucket_size) in
      let bucket_start = position / bucket_size * bucket_size in
      let (reached, left, found) =
        walk_bucket (drop (position - bucket_start) bucket) position end s in
      elim (advance left reached bucket_start (length bucket) bucket_size) [
        | none ↦ overflowed
        | some advanced ↦ more found (traverse_buckets fuel get_bucket bucket_size advanced end s)
      ]
]

-- Fuel, start, limit, total, the size of a bucket, and the bucket at an index.
unfoldable pub get_campaigns_from_buckets : ℕ → ℕ → ℕ → ℕ → ℕ → (ℕ → List ℕ) → State → Traversal
get_campaigns_from_buckets fuel start limit total bucket_size get_bucket s =
    let capped_limit = min limit list_max_limit in
    if leb total start || capped_limit == 0
    then page []
    else traverse_buckets fuel get_bucket bucket_size start
        (min (saturating_add_u32 start capped_limit) total) s

unfoldable pub get_campaigns_by_category : ℕ → Category → ℕ → ℕ → State → Traversal
get_campaigns_by_category fuel category offset limit s =
    get_campaigns_from_buckets fuel offset limit (get_category_campaign_count category s)
      category_campaigns_bucket_size (λ idx. get_category_campaign_bucket category idx s) s

unfoldable pub get_creator_campaigns : ℕ → Address → ℕ → ℕ → State → Traversal
get_creator_campaigns fuel creator start limit s =
    get_campaigns_from_buckets fuel start limit (get_creator_campaign_count creator s)
      creator_campaigns_bucket_size (λ idx. get_creator_campaign_bucket creator idx s) s

unfoldable pub get_campaigns_by_tag : ℕ → Host → Text → ℕ → ℕ → State → Traversal
get_campaigns_by_tag fuel env tag offset limit s =
    if ltb (length tag) campaign_tag_min_len || ltb campaign_tag_max_len (length tag)
    then page []
    else get_campaigns_from_buckets fuel offset limit (get_tag_campaign_count (hash_text env tag) s)
        tag_campaigns_bucket_size (λ idx. get_tag_campaigns_bucket (hash_text env tag) idx s) s

unfoldable pub get_campaign_tag_list : ℕ → State → List Text
get_campaign_tag_list id s = get_campaign_tags id s
