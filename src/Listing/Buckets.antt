-- ===== src/Listing/Buckets.antt =====
-- The traversal of buckets that hold a list of ids, each bucket full before the next is begun: it
-- ends, and it finds what stands on the page (src/queries.rs).
use proof_of_heart_stellar.Prelude.{
  ltb, min, Bool-cases, length, take, drop, prepend, slice, length-drop, length-take, slice-add,
  slice-slice, ℕ, zero, suc, ◌+◌, ◌-◌, ◌*◌, ◌/◌, ◌^◌, ◌≤◌, ◌<◌, ◌≡◌, refl, sym, ap, ◌∙◌, inl, inr,
  true, false, some, List, [], ◌∷◌, ◌++◌, arith,
}
use proof_of_heart_stellar.Prelude.Words.{checked_add_u32}
use proof_of_heart_stellar.Types.{Campaign}
use proof_of_heart_stellar.Store.{State, get_campaign}
use proof_of_heart_stellar.Listing.Ranges.{prepend-append}
use proof_of_heart_stellar.Queries.{page, more, walk_bucket, advance, traverse_buckets}

-- The campaigns that are stored under a list of ids.
unfoldable pub lookup_all : List ℕ → State → List Campaign
lookup_all [] s = []
lookup_all (id ∷ ids) s = prepend (get_campaign id s) (lookup_all ids s)

module _ (s : State) where
  lookup_all-append :
      (xs ys : List ℕ) → lookup_all (xs ++ ys) s ≡ lookup_all xs s ++ lookup_all ys s
  unfolding lookup_all
  lookup_all-append [] ys = refl
  lookup_all-append (x ∷ xs) ys =
      ap (prepend (get_campaign x s)) (lookup_all-append xs ys)
      ∙ prepend-append s (get_campaign x s) (lookup_all xs s) (lookup_all ys s)

  -- The inner loop takes what is left of the bucket, as far as the page goes.
  walk_bucket_eq :
      (entries : List ℕ) (position end n : ℕ)
      → position ≤ end
      → n ≡ min (length entries) (end - position)
      → walk_bucket entries position end s
        ≡ (position + n, drop n entries, lookup_all (take n entries) s)
  unfolding walk_bucket lookup_all
  walk_bucket_eq [] position end zero h e =
      let z : position ≡ position + 0 = omega arith in ap (λ p. (p, [], [])) z
  walk_bucket_eq [] position end (suc n) h e = absurd (ground arith)
  walk_bucket_eq (id ∷ entries) position end zero h e =
      let z : position ≡ position + 0 = omega arith in
      let k : ltb position end ≡ false = ground arith in
      rw (walk_bucket, k) (ap (λ p. (p, id ∷ entries, [])) z)
  walk_bucket_eq (id ∷ entries) position end (suc n) h e =
      let k : ltb position end ≡ true = ground arith in
      let z : position + 1 + n ≡ position + suc n = omega arith in
      rw
        (
          walk_bucket,
          k,
          walk_bucket_eq entries (position + 1) end n (ground arith) (ground arith),
          z,
        )
        refl

module _ (get_bucket : ℕ → List ℕ) (ids : List ℕ)
    (g : (b : ℕ) → get_bucket b ≡ slice (b * 500) 500 ids) (u : length ids < 2 ^ 32) where
  module _ (position end : ℕ) (l : position < end) (m : end ≤ length ids) where
    start : ℕ
    start = position / 500 * 500

    entries : List ℕ
    entries = drop (position - start) (get_bucket (position / 500))

    taken : ℕ
    taken = min (length entries) (end - position)

    length-bucket : length (get_bucket (position / 500)) ≡ min 500 (length ids - start)
    unfolding start
    length-bucket =
        ap length (g (position / 500))
        ∙ length-take 500 (drop (position / 500 * 500) ids)
        ∙ ap (min 500) (length-drop (position / 500 * 500) ids)

    length-entries : length entries ≡ min 500 (length ids - start) - (position - start)
    unfolding entries
    length-entries =
        length-drop (position - start) (get_bucket (position / 500))
        ∙ ap (λ n. n - (position - start)) length-bucket

    taken_some : 0 < taken
    unfolding taken start
    taken_some = ground (arith, length-entries)

    taken_room : position + taken ≤ end
    unfolding taken
    taken_room = ground arith

    take-entries : take taken entries ≡ slice position taken ids
    unfolding entries start taken
    take-entries =
        let e : start + (position - start) ≡ position = omega arith in
        ap (λ b. slice (position - start) taken b) (g (position / 500))
        ∙ slice-slice (position - start) taken start 500 ids (ground (arith, length-entries))
        ∙ ap (λ j. slice j taken ids) e

    advance_eq :
        advance
          (drop taken entries)
          (position + taken)
          (position / 500 * 500)
          (length (get_bucket (position / 500)))
          500
        ≡ some (position + taken)
    unfolding taken start checked_add_u32
    advance_eq = go (drop taken entries) refl
      where
        go :
            (xs : List ℕ)
            → xs ≡ drop taken entries
            → advance xs
                (position + taken)
                (position / 500 * 500)
                (length (get_bucket (position / 500)))
                500
              ≡ some (position + taken)
        go (x ∷ xs) e = refl
        go [] e =
            let f : 0 ≡ length entries - taken = ap length e ∙ length-drop taken entries in
            ground (arith, length-entries, length-bucket, taken_room)

    walked :
        (s : State)
        → walk_bucket
            (drop (position - position / 500 * 500) (get_bucket (position / 500)))
            position
            end
            s
          ≡ (position + taken, drop taken entries, lookup_all (slice position taken ids) s)
    unfolding start entries taken
    walked s =
        walk_bucket_eq s entries position end taken (omega arith) refl
        ∙ ap (λ xs. (position + taken, drop taken entries, lookup_all xs s)) take-entries

    -- Each turn of the outer loop goes on by at least one place, and none beyond the end.
    traverse_buckets_turn :
        (s : State) (fuel : ℕ)
        → traverse_buckets (suc fuel) get_bucket 500 position end s
          ≡ more
              (lookup_all (slice position taken ids) s)
              (traverse_buckets fuel get_bucket 500 (position + taken) end s)
    unfolding traverse_buckets
    traverse_buckets_turn s fuel =
        let q : ltb position end ≡ true = ground arith in
        rw (traverse_buckets, q, walked s, advance_eq, walked s) refl

  pub traverse_buckets_eq :
      (s : State) (fuel position end : ℕ)
      → position ≤ end
      → end ≤ length ids
      → end - position ≤ fuel
      → traverse_buckets fuel get_bucket 500 position end s
        ≡ page (lookup_all (slice position (end - position) ids) s)
  unfolding traverse_buckets lookup_all
  traverse_buckets_eq s zero position end h m k =
      let q : ltb position end ≡ false = ground arith in
      let z : end - position ≡ 0 = omega arith in rw (q, z) refl
  traverse_buckets_eq s (suc fuel) position end h m k = elim (Bool-cases (ltb position end)) [
    | inl q ↦
        let l : position < end = ground arith in
        let n = taken position end l m in
        let room : position + n ≤ end = taken_room position end l m in
        let some_taken : 0 < n = taken_some position end l m in
        let e : end - position ≡ n + (end - (position + n)) = omega arith in
        traverse_buckets_turn position end l m s fuel
        ∙ ap (more (lookup_all (slice position n ids) s))
            (traverse_buckets_eq s fuel (position + n) end room m (omega arith))
        ∙ ap page (
            sym (
              lookup_all-append s (slice position n ids)
                (slice (position + n) (end - (position + n)) ids))
            ∙ ap (λ xs. lookup_all xs s)
                (sym (slice-add position n (end - (position + n)) ids)
                  ∙ ap (λ k. slice position k ids) (sym e)))
    | inr q ↦ let z : end - position ≡ 0 = ground arith in rw (traverse_buckets, q, z) refl
  ]
