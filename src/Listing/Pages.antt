-- ===== src/Listing/Pages.antt =====
-- `list_campaigns` and the client that pages through it (src/queries.rs).
use proof_of_heart_stellar.Prelude.{
  ltb, leb, ◌==◌, if◌then◌else◌, min, Bool-cases, length, get_elem?, ℕ, zero, suc, ◌+◌, ◌-◌, ◌^◌,
  ◌≤◌, ◌<◌, ◌≡◌, refl, sym, ap, ◌∙◌, inl, inr, true, false, ◌||◌, none, List, [], ◌∷◌, ◌++◌, arith,
}
use proof_of_heart_stellar.Prelude.Words.{saturating_add_u32}
use proof_of_heart_stellar.Types.{Campaign}
use proof_of_heart_stellar.Types.Limits.{list_max_limit}
use proof_of_heart_stellar.Store.{State, get_campaign_count, get_campaign}
use proof_of_heart_stellar.Listing.Ranges.{
  campaigns_from-append, get_elem?-campaigns_from, length-campaigns_from,
}
use proof_of_heart_stellar.Queries.{campaigns_from, list_campaigns}
use proof_of_heart_stellar.Registry.Numbers.{IsNumbered}

-- How many campaigns a page has.
abbrev page_length : ℕ → ℕ → ℕ → ℕ
page_length start limit count = min (min limit list_max_limit) (count - start)

module _ (start limit count : ℕ) (u : count < 2 ^ 32) where
  page_length_none : (leb count start || limit == 0) ≡ true → page_length start limit count ≡ 0
  page_length_none h = ground arith

  page_length_some :
      (leb count start || limit == 0) ≡ false
      → min (saturating_add_u32 start (min limit list_max_limit)) count - start
        ≡ page_length start limit count
  unfolding saturating_add_u32
  page_length_some h = ground arith

module _ (s : State) (u : get_campaign_count s < 2 ^ 32) (start limit : ℕ) where
  list_campaigns_eq :
      list_campaigns start limit s
      ≡ campaigns_from (start + 1) (page_length start limit (get_campaign_count s)) s
  unfolding list_campaigns campaigns_from
  list_campaigns_eq =
      let count = get_campaign_count s in
      elim (Bool-cases (leb count start || limit == 0)) [
        | inl h ↦ rw (h, page_length_none start limit count u h) refl
        | inr h ↦
            rw h (ap (λ k. campaigns_from (start + 1) k s) (page_length_some start limit count u h))
      ]

-- The client that the documentation of `list_campaigns` describes: it asks for the page after the
-- last id that it has, until a page has fewer campaigns than the limit.
unfoldable pub last_id : ℕ → List Campaign → ℕ
last_id start [] = start
last_id start (c ∷ campaigns) = last_id c.id campaigns

unfoldable pub page_through : ℕ → ℕ → ℕ → State → List Campaign
page_through zero start limit s = []
page_through (suc fuel) start limit s =
    let campaigns = list_campaigns start limit s in
    let rest = page_through fuel (last_id start campaigns) limit s in
    if ltb (length campaigns) limit then campaigns else campaigns ++ rest

module _ (s : State) (v : IsNumbered s) (u : get_campaign_count s < 2 ^ 32) where
  length-list_campaigns :
      (start limit : ℕ)
      → start ≤ get_campaign_count s
      → length (list_campaigns start limit s) ≡ page_length start limit (get_campaign_count s)
  length-list_campaigns start limit h =
      ap length (list_campaigns_eq s u start limit)
      ∙ length-campaigns_from s v (start + 1) (page_length start limit (get_campaign_count s))
          (ground arith) (ground arith)

  last_id-campaigns_from :
      (start id left : ℕ)
      → 1 ≤ id
      → id + left ≤ get_campaign_count s
      → last_id start (campaigns_from id (suc left) s) ≡ id + left
  unfolding last_id campaigns_from
  last_id-campaigns_from start id zero l k = grind (arith, v.stored id, v.own_id id)
  last_id-campaigns_from start id (suc left) l k =
      grind (arith, v.stored id, λ (c : Campaign). last_id-campaigns_from c.id (id + 1) left)

  last_id_page :
      (start n : ℕ)
      → 0 < n
      → start + n ≤ get_campaign_count s
      → last_id start (campaigns_from (start + 1) n s) ≡ start + n
  last_id_page start zero l h = absurd (omega arith)
  last_id_page start (suc n) l h =
      last_id-campaigns_from start (start + 1) n (omega arith) (omega arith) ∙ omega arith

  -- Where the stored campaigns are numbered, fewer than 2^32, the entry `i` of a page of
  -- `list_campaigns` is the campaign `start + 1 + i` as long as `i` is below the limit, the cap of
  -- 50 and the number of campaigns after `start`, and there is none beyond.
  pub list_campaigns-Paged :
      (start limit i : ℕ)
      → get_elem? (list_campaigns start limit s) i ≡ (
          if ltb i (min (min limit list_max_limit) (get_campaign_count s - start))
          then get_campaign (start + 1 + i) s
          else none)
  unfolding campaigns_from
  list_campaigns-Paged start limit i = elim (Bool-cases (ltb start (get_campaign_count s))) [
    | inl h ↦
        ap (λ xs. get_elem? xs i) (list_campaigns_eq s u start limit)
        ∙ get_elem?-campaigns_from s v (start + 1) (page_length start limit (get_campaign_count s))
            i (ground arith) (ground arith)
    | inr h ↦
        let z : page_length start limit (get_campaign_count s) ≡ 0 = ground arith in
        let e : list_campaigns start limit s ≡ [] =
          list_campaigns_eq s u start limit ∙ ap (λ n. campaigns_from (start + 1) n s) z in
        rw e (grind arith)
  ]

  page_filled :
      (start limit : ℕ)
      → start ≤ get_campaign_count s
      → limit ≤ list_max_limit
      → ltb (length (list_campaigns start limit s)) limit ≡ false
      → start + limit ≤ get_campaign_count s
  page_filled start limit h m q = ground (arith, length-list_campaigns start limit h)

  page_through_rest :
      (fuel start limit : ℕ)
      → 0 < limit
      → limit ≤ list_max_limit
      → start ≤ get_campaign_count s
      → get_campaign_count s - start < fuel
      → page_through fuel start limit s
        ≡ campaigns_from (start + 1) (get_campaign_count s - start) s
  unfolding page_through
  page_through_rest zero start limit l m h k = absurd (omega arith)
  page_through_rest (suc fuel) start limit l m h k =
      let count = get_campaign_count s in
      let page_of = λ (n : ℕ). campaigns_from (start + 1) n s in
      elim (Bool-cases (ltb (length (list_campaigns start limit s)) limit)) [
        | inl q ↦ rw q (
            list_campaigns_eq s u start limit
            ∙ ap page_of (ground (arith, length-list_campaigns start limit h)))
        | inr q ↦
            let f = page_filled start limit h m q in
            let e : list_campaigns start limit s ≡ page_of limit =
              list_campaigns_eq s u start limit ∙ ap page_of (ground arith) in
            rw (q, e)
              (ap (λ xs. page_of limit ++ xs)
                  (ap (λ j. page_through fuel j limit s) (last_id_page start limit l f)
                    ∙ page_through_rest fuel (start + limit) limit l m f (omega arith)
                    ∙ ap (λ j. campaigns_from j (count - (start + limit)) s) (omega arith))
                ∙ sym (campaigns_from-append s (start + 1) limit (count - (start + limit)))
                ∙ ap page_of (omega arith))
      ]

  -- Under the same conditions, the client that the documentation of `list_campaigns` describes
  -- gets every campaign once and in the order of the ids, at a limit of 1 to 50, in as many turns
  -- as there are campaigns and one more.
  pub page_through_all :
      (fuel limit i : ℕ)
      → 0 < limit
      → limit ≤ list_max_limit
      → get_campaign_count s < fuel
      → get_elem? (page_through fuel 0 limit s) i
        ≡ (if ltb i (get_campaign_count s) then get_campaign (1 + i) s else none)
  page_through_all fuel limit i l m h =
      ap (λ xs. get_elem? xs i)
        (page_through_rest fuel 0 limit l m (omega arith) (omega arith)
          ∙ ap (λ n. campaigns_from 1 n s) (omega arith))
      ∙ get_elem?-campaigns_from s v 1 (get_campaign_count s) i (omega arith) (omega arith)

-- Above the cap on a page, the client stops after one page.
page_through_stops :
    (s : State) (u : get_campaign_count s < 2 ^ 32) (v : IsNumbered s) (fuel limit : ℕ)
    → list_max_limit < limit
    → page_through (suc fuel) 0 limit s
      ≡ campaigns_from 1 (min list_max_limit (get_campaign_count s)) s
unfolding page_through
page_through_stops s u v fuel limit h =
    let q : ltb (length (list_campaigns 0 limit s)) limit ≡ true =
      ground (arith, length-list_campaigns s v u 0 limit (omega arith)) in
    rw q (list_campaigns_eq s u 0 limit ∙ ap (λ n. campaigns_from 1 n s) (ground arith))
