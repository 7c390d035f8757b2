-- ===== src/Roundtrips/Bookmarks.antt =====
-- A bookmark that is saved and then removed (src/bookmarks.rs).
use proof_of_heart_stellar.Prelude.{
  length, contains, index_of, remove_at, ℕ, ◌<◌, ◌≡◌, refl, ap, true, false, some, List, [], ◌∷◌,
  ◌++◌, arith,
}
use proof_of_heart_stellar.Types.{Address}
use proof_of_heart_stellar.Types.Limits.{max_bookmarks_per_wallet}
use proof_of_heart_stellar.Host.{Host}
use proof_of_heart_stellar.Store.{State, get_saved_campaigns, set_saved_campaigns}
use proof_of_heart_stellar.Action.{ok}
use proof_of_heart_stellar.Bookmarks.{save_campaign, remove_saved_campaign}

index_of-append :
    (id : ℕ) (xs : List ℕ) → contains xs id ≡ false → index_of id (xs ++ id ∷ []) ≡ some (length xs)
index_of-append id [] h = grind arith
index_of-append id (x ∷ xs) h = grind (arith, index_of-append id xs)

remove_at-append : (id : ℕ) (xs : List ℕ) → remove_at (length xs) (xs ++ id ∷ []) ≡ xs
remove_at-append id [] = refl
remove_at-append id (x ∷ xs) = ap (λ ys. x ∷ ys) (remove_at-append id xs)

module _ (env : Host) (user : Address) (id : ℕ) (s t : State)
    (h : save_campaign env user id s ≡ ok tt t) where
  save_campaign_saved :
      (contains (get_saved_campaigns user s) id ≡ false)
      × (get_saved_campaigns user t ≡ get_saved_campaigns user s ++ id ∷ [])
      × (length (get_saved_campaigns user s) < max_bookmarks_per_wallet)
  unfolding save_campaign
  save_campaign_saved = ground arith

  -- After a campaign is saved by a call that returns, its removal by the same user, who signs,
  -- returns and leaves the user's list as it was before both.
  pub save_then_remove :
      (env' : Host)
      → env'.is_authorized user ≡ true
      → remove_saved_campaign env' user id t
        ≡ ok tt (set_saved_campaigns user (get_saved_campaigns user s) t)
  unfolding remove_saved_campaign
  save_then_remove env' q =
      let (n, e, k) = save_campaign_saved in
      let i = index_of-append id (get_saved_campaigns user s) n in
      let r = remove_at-append id (get_saved_campaigns user s) in rw (q, e, i, r) refl
