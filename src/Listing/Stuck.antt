-- ===== src/Listing/Stuck.antt =====
-- The traversal of the buckets of a creator does not end at a bucket that is not full
-- (src/queries.rs: `get_campaigns_from_buckets`).
use proof_of_heart_stellar.Prelude.{
  ltb, leb, ◌==◌, if◌then◌else◌, min, length, drop-length, ℕ, zero, suc, ◌+◌, ◌-◌, ◌*◌, ◌/◌, ◌^◌,
  ◌<◌, ◌≡◌, refl, ap, ◌∙◌, true, false, ◌||◌, some, List, [], arith,
}
use proof_of_heart_stellar.Prelude.Words.{checked_add_u32, saturating_add_u32}
use proof_of_heart_stellar.Types.{Address}
use proof_of_heart_stellar.Types.Limits.{creator_campaigns_bucket_size, list_max_limit}
use proof_of_heart_stellar.Store.{State, get_creator_campaign_count, get_creator_campaign_bucket}
use proof_of_heart_stellar.Listing.Categories.{page_end}
use proof_of_heart_stellar.Queries.{
  unfinished, more, walk_bucket, traverse_buckets, get_campaigns_from_buckets,
  get_creator_campaigns,
}

module _ (get_bucket : ℕ → List ℕ) (b end : ℕ) (s : State) (short : length (get_bucket b) < 500)
    (some_entry : 0 < length (get_bucket b)) where
  abbrev held : ℕ
  held = b * 500 + length (get_bucket b)

  held_again :
      held < 2 ^ 32
      → checked_add_u32
          (b * 500)
          (if length (get_bucket b) == 0 then 500 else length (get_bucket b))
        ≡ some held
  unfolding checked_add_u32
  held_again h = ground arith

  traverse_buckets_turn_held :
      (fuel : ℕ)
      → held < end
      → end < 2 ^ 32
      → traverse_buckets (suc fuel) get_bucket 500 held end s
        ≡ more [] (traverse_buckets fuel get_bucket 500 held end s)
  unfolding traverse_buckets walk_bucket
  traverse_buckets_turn_held fuel l m =
      let q : ltb held end ≡ true = ground arith in
      let i : held / 500 ≡ b = omega arith in
      let d : b * 500 + length (get_bucket b) - b * 500 ≡ length (get_bucket b) = omega arith in
      rw
        (
          traverse_buckets,
          q,
          i,
          d,
          drop-length (get_bucket b),
          held_again (omega arith),
          i,
          d,
          drop-length (get_bucket b),
        )
        refl

  traverse_buckets_held :
      (fuel : ℕ)
      → held < end
      → end < 2 ^ 32
      → traverse_buckets fuel get_bucket 500 held end s ≡ unfinished
  unfolding traverse_buckets
  traverse_buckets_held zero l m = let q : ltb held end ≡ true = ground arith in rw q refl
  traverse_buckets_held (suc fuel) l m =
      traverse_buckets_turn_held fuel l m ∙ ap (more []) (traverse_buckets_held fuel l m)

-- Where the first bucket of a creator is neither empty nor full and the creator has more campaigns
-- than it holds, the traversal that begins at the end of that bucket is unfinished on any fuel.
pub get_creator_campaigns_held :
    (fuel : ℕ) (creator : Address) (limit : ℕ) (s : State)
    → 0 < length (get_creator_campaign_bucket creator 0 s)
    → length (get_creator_campaign_bucket creator 0 s) < creator_campaigns_bucket_size
    → length (get_creator_campaign_bucket creator 0 s) < get_creator_campaign_count creator s
    → get_creator_campaign_count creator s < 2 ^ 32
    → 0 < limit
    → get_creator_campaigns fuel creator (length (get_creator_campaign_bucket creator 0 s)) limit s
      ≡ unfinished
unfolding get_creator_campaigns get_campaigns_from_buckets saturating_add_u32
get_creator_campaigns_held fuel creator limit s e f m u l =
    let h : (leb (get_creator_campaign_count creator s)
            (length (get_creator_campaign_bucket creator 0 s))
          || min limit list_max_limit == 0)
        ≡ false =
      ground arith in
    let bucket = λ (idx : ℕ). get_creator_campaign_bucket creator idx s in
    let end = page_end (length (bucket 0)) limit (get_creator_campaign_count creator s) u in
    let p : length (bucket 0) ≡ 0 * 500 + length (bucket 0) = omega arith in
    rw h (
      ap (λ k. traverse_buckets fuel bucket 500 k end s) p
      ∙ traverse_buckets_held bucket 0 end s f e fuel (ground arith) (ground arith))
