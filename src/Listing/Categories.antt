-- ===== src/Listing/Categories.antt =====
-- The pages of a category, and the traversal that a short bucket holds up (src/queries.rs).
use proof_of_heart_stellar.Prelude.{
  leb, ◌==◌, min, Bool-cases, length, slice, slice-min, ℕ, ◌-◌, ◌*◌, ◌^◌, ◌≤◌, ◌<◌, ◌≡◌, sym, ap,
  ◌∙◌, inl, inr, true, false, ◌||◌, List, arith,
}
use proof_of_heart_stellar.Prelude.Words.{saturating_add_u32}
use proof_of_heart_stellar.Types.{Category}
use proof_of_heart_stellar.Types.Limits.{list_max_limit}
use proof_of_heart_stellar.Store.{State, get_category_campaign_count, get_category_campaign_bucket}
use proof_of_heart_stellar.Listing.Buckets.{lookup_all, traverse_buckets_eq}
use proof_of_heart_stellar.Queries.{page, get_campaigns_from_buckets, get_campaigns_by_category}
use proof_of_heart_stellar.Registry.Categories.{all_members, IsIndexed}

module _ (offset limit total : ℕ) (u : total < 2 ^ 32) where
  abbrev pub page_end : ℕ
  page_end = min (saturating_add_u32 offset (min limit list_max_limit)) total

  page_empty :
      (leb total offset || min limit list_max_limit == 0) ≡ true
      → min (min limit list_max_limit) (total - offset) ≡ 0
  page_empty h = ground arith

  page_span :
      (leb total offset || min limit list_max_limit == 0) ≡ false
      → page_end - offset ≡ min (min limit list_max_limit) (total - offset)
  unfolding saturating_add_u32
  page_span h = ground arith

  page_bounds :
      (leb total offset || min limit list_max_limit == 0) ≡ false
      → (offset ≤ page_end) × (page_end ≤ total) × (page_end - offset ≤ list_max_limit)
  unfolding saturating_add_u32
  page_bounds h = (ground arith, ground arith, ground arith)

-- Buckets that hold a list, each full before the next is begun, give its pages.
buckets-Paged :
    (get_bucket : ℕ → List ℕ) (ids : List ℕ) (fuel offset limit total : ℕ) (s : State)
    → ((b : ℕ) → get_bucket b ≡ slice (b * 500) 500 ids)
    → length ids < 2 ^ 32
    → total ≡ length ids
    → list_max_limit ≤ fuel
    → get_campaigns_from_buckets fuel offset limit total 500 get_bucket s
      ≡ page (lookup_all (slice offset (min limit list_max_limit) ids) s)
unfolding get_campaigns_from_buckets lookup_all
buckets-Paged get_bucket ids fuel offset limit total s g u e f =
    let cap = min limit list_max_limit in
    let shown = λ (k : ℕ). page (lookup_all (slice offset k ids) s) in
    let cut : shown (min cap (total - offset)) ≡ shown cap =
      ap (λ n. shown (min cap (n - offset))) e
      ∙ ap (λ xs. page (lookup_all xs s)) (slice-min offset cap ids) in
    let v : total < 2 ^ 32 = omega arith in
    elim (Bool-cases (leb total offset || cap == 0)) [
      | inl h ↦ rw h (ap shown (sym (page_empty offset limit total v h)) ∙ cut)
      | inr h ↦
          let (b, c, d) = page_bounds offset limit total v h in
          rw h (
            traverse_buckets_eq get_bucket ids g u s fuel offset (page_end offset limit total v) b
              (omega arith) (omega arith)
            ∙ ap shown (page_span offset limit total v h)
            ∙ cut)
    ]

-- Where the index by category holds the ids of the category's campaigns, fewer than 2^32, the
-- traversal of the buckets ends within 50 turns, and finds the campaigns under the ids of the list
-- from the offset on, as many as the limit and the cap of 50 allow.
pub get_campaigns_by_category-Paged :
    (category : Category) (fuel offset limit : ℕ) (s : State)
    → IsIndexed category s
    → get_category_campaign_count category s < 2 ^ 32
    → list_max_limit ≤ fuel
    → get_campaigns_by_category fuel category offset limit s
      ≡ page (lookup_all (slice offset (min limit list_max_limit) (all_members category s)) s)
unfolding get_campaigns_by_category
get_campaigns_by_category-Paged category fuel offset limit s v u f =
    buckets-Paged (λ b. get_category_campaign_bucket category b s) (all_members category s) fuel
      offset limit (get_category_campaign_count category s) s v.buckets (grind (arith, v.count))
      v.count f
