-- ===== src/Listing/Totals.antt =====
-- The totals of a creator against the list of the creator's campaigns (src/queries.rs).
use proof_of_heart_stellar.Prelude.{
  ◌and_then◌, length, slice, slice-add, take-all, ℕ, zero, suc, ◌+◌, ◌*◌, ◌≡◌, refl, sym, ap, ◌∙◌,
  Option, none, some, List, [], ◌∷◌, ◌++◌, arith,
}
use proof_of_heart_stellar.Types.{Address}
use proof_of_heart_stellar.Types.Limits.{creator_campaigns_bucket_size}
use proof_of_heart_stellar.Store.{State, get_creator_campaign_count, get_creator_campaign_bucket}
use proof_of_heart_stellar.Queries.Stats.{
  CreatorStats, count_campaign, count_entries, count_buckets, creator_buckets, zero_stats,
  get_creator_stats,
}

module _ (s : State) where
  and_then_assoc :
      (o : Option CreatorStats) (f g : CreatorStats → Option CreatorStats)
      → ((o and_then f) and_then g) ≡ (o and_then λ r. f r and_then g)
  and_then_assoc none f g = refl
  and_then_assoc (some r) f g = refl

  and_then_same :
      (o : Option CreatorStats) (f g : CreatorStats → Option CreatorStats)
      → ((r : CreatorStats) → f r ≡ g r)
      → (o and_then f) ≡ (o and_then g)
  and_then_same none f g k = refl
  and_then_same (some r) f g k = k r

  count_entries-append :
      (xs ys : List ℕ) (stats : CreatorStats)
      → count_entries s (xs ++ ys) stats ≡ (count_entries s xs stats and_then count_entries s ys)
  unfolding count_entries
  count_entries-append [] ys stats = refl
  count_entries-append (x ∷ xs) ys stats =
      let o = count_campaign s x stats in
      and_then_same o (count_entries s (xs ++ ys))
        (λ r. count_entries s xs r and_then count_entries s ys) (count_entries-append xs ys)
      ∙ sym (and_then_assoc o (count_entries s xs) (count_entries s ys))

  module _ (creator : Address) (ids : List ℕ)
      (g : (b : ℕ)
        → get_creator_campaign_bucket creator b s
          ≡ slice (b * creator_campaigns_bucket_size) creator_campaigns_bucket_size ids) where
    count_buckets_eq :
        (b left : ℕ) (stats : CreatorStats)
        → count_buckets creator b left s stats
          ≡ count_entries s (slice (b * 500) (left * 500) ids) stats
    unfolding count_buckets count_entries
    count_buckets_eq b zero stats = refl
    count_buckets_eq b (suc left) stats =
        let e : (b + 1) * 500 ≡ b * 500 + 500 = omega arith in
        let f : 500 + left * 500 ≡ suc left * 500 = omega arith in
        and_then_same (count_entries s (get_creator_campaign_bucket creator b s) stats)
          (count_buckets creator (b + 1) left s)
          (count_entries s (slice (b * 500 + 500) (left * 500) ids))
          (λ r.
            count_buckets_eq (b + 1) left r
            ∙ ap (λ m. count_entries s (slice m (left * 500) ids) r) e)
        ∙ ap
            (λ xs.
              count_entries s xs stats
              and_then count_entries s (slice (b * 500 + 500) (left * 500) ids))
            (g b)
        ∙ sym (
            count_entries-append (slice (b * 500) 500 ids) (slice (b * 500 + 500) (left * 500) ids)
              stats)
        ∙ ap (λ xs. count_entries s xs stats)
            (sym (slice-add (b * 500) 500 (left * 500) ids) ∙ ap (λ n. slice (b * 500) n ids) f)

    -- Where the buckets of a creator hold the list `ids`, each full before the next is begun, and
    -- the count is its length, the totals of the creator are those of one pass over `ids`.
    pub get_creator_stats-Counted :
        get_creator_campaign_count creator s ≡ length ids
        → get_creator_stats creator s ≡ count_entries s ids (zero_stats (length ids))
    unfolding get_creator_stats
    get_creator_stats-Counted n =
        let k = creator_buckets (length ids) in
        let all : slice (0 * 500) (k * 500) ids ≡ ids = take-all (k * 500) ids (omega arith) in
        rw n (
          count_buckets_eq 0 k (zero_stats (length ids))
          ∙ ap (λ xs. count_entries s xs (zero_stats (length ids))) all)
