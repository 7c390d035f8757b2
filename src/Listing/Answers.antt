-- ===== src/Listing/Answers.antt =====
-- When `list_active_campaigns` answers (src/queries.rs).
use proof_of_heart_stellar.Prelude.{
  ltb, leb, ◌==◌, min, Bool-cases, Option-cases, is_some, ℕ, zero, suc, ◌+◌, ◌-◌, ◌^◌, ◌<◌, ◌≡◌,
  refl, inl, inr, true, false, Option, none, some, List, arith,
}
use proof_of_heart_stellar.Prelude.Words.{checked_add_u32}
use proof_of_heart_stellar.Types.{Campaign}
use proof_of_heart_stellar.Types.Limits.{list_max_limit, max_scan_window}
use proof_of_heart_stellar.Store.{State, get_campaign_count, get_campaign}
use proof_of_heart_stellar.Queries.{open_only, collect, scan_active, list_active_campaigns}

collect-is_some :
    (c : Campaign) (r : Option (List Campaign × ℕ))
    → is_some r ≡ true
    → is_some (collect c r) ≡ true
collect-is_some c none h = h
collect-is_some c (some (cs, cursor)) h = refl

following_id : (id : ℕ) → id + 1 < 2 ^ 32 → checked_add_u32 id 1 ≡ some (id + 1)
unfolding checked_add_u32
following_id id h = ground arith

scan_active_answers :
    (window limit collected id left : ℕ) (s : State)
    → id + left < 2 ^ 32
    → is_some (scan_active window limit collected id left s) ≡ true
unfolding scan_active
scan_active_answers window limit collected id zero s h = refl
scan_active_answers window limit collected id (suc left) s h =
    let z = following_id id (omega arith) in
    elim (Bool-cases (ltb window id)) [
      | inl q ↦ rw (scan_active, q) refl
      | inr q ↦ elim (Option-cases (open_only (get_campaign id s))) [
        | inl e ↦
            rw (scan_active, q, e, z)
              (scan_active_answers window limit collected (id + 1) left s (omega arith))
        | inr (c, e) ↦ elim (Bool-cases (leb limit (collected + 1))) [
          | inl k ↦ rw (scan_active, q, e, k, z) refl
          | inr k ↦
              rw (scan_active, q, e, k, z)
                (collect-is_some c _
                  (scan_active_answers window limit (collected + 1) (id + 1) left s (omega arith)))
        ]
      ]
    ]

module _ (start limit : ℕ) (s : State) where
  scan_runs :
      get_campaign_count s + max_scan_window < 2 ^ 32
      → leb (get_campaign_count s) start ≡ false
      → checked_add_u32 start max_scan_window ≡ some (start + max_scan_window)
  unfolding checked_add_u32
  scan_runs h q = ground arith

  -- Where the number of campaigns and a scan window of 1000 ids are together below 2^32,
  -- `list_active_campaigns` answers at every start and limit: none of its additions traps.
  pub list_active_campaigns_answers :
      get_campaign_count s + max_scan_window < 2 ^ 32
      → is_some (list_active_campaigns start limit s) ≡ true
  unfolding list_active_campaigns
  list_active_campaigns_answers h =
      let count = get_campaign_count s in
      elim (Bool-cases (leb count start)) [
        | inl q ↦ rw (list_active_campaigns, q) refl
        | inr q ↦ elim (Bool-cases (limit == 0)) [
          | inl z ↦ rw (list_active_campaigns, q, z) refl
          | inr z ↦
              rw (list_active_campaigns, q, z, scan_runs h q)
                (scan_active_answers (start + max_scan_window) (min limit list_max_limit) 0
                  (start + 1) (count - start) s (ground arith))
        ]
      ]
