-- ===== src/Roundtrips/Uniqueness.antt =====
-- The lists of bookmarks under the four calls that write them (src/bookmarks.rs).
use proof_of_heart_stellar.Prelude.{
  ◌==◌, Bool-cases, Option-cases, contains, index_of, remove_at, ℕ, zero, suc, ◌≡◌, refl, sym,
  subst, inl, inr, true, false, ◌||◌, List, [], ◌∷◌, ◌++◌, arith,
}
use proof_of_heart_stellar.Types.{Address}
use proof_of_heart_stellar.Host.{Host}
use proof_of_heart_stellar.Store.{State, get_saved_campaigns, set_saved_campaigns}
use proof_of_heart_stellar.Action.{Outcome, ok, err, trap}
use proof_of_heart_stellar.Bookmarks.{
  save_campaign, remove_saved_campaign, save_each, batch_save_campaigns, clear_saved_campaigns,
}
use proof_of_heart_stellar.Funding.Sums.{is_distinct}

-- A call on bookmarks that returned.
pub data Bookmarking (s : State) : State → Type 0 where
  save_step :
      (env : Host) (user : Address) (id : ℕ) {t : State}
      → save_campaign env user id s ≡ ok tt t
      → Bookmarking s t
  batch_step :
      (env : Host) (user : Address) (ids : List ℕ) {t : State}
      → batch_save_campaigns env user ids s ≡ ok tt t
      → Bookmarking s t
  remove_step :
      (env : Host) (user : Address) (id : ℕ) {t : State}
      → remove_saved_campaign env user id s ≡ ok tt t
      → Bookmarking s t
  clear_step :
      (env : Host) (user : Address) {t : State}
      → clear_saved_campaigns env user s ≡ ok tt t
      → Bookmarking s t

-- No one has a campaign saved twice.
unfoldable pub IsUnique : State → Type 0
IsUnique s = (user : Address) → is_distinct (get_saved_campaigns user s) ≡ true

contains-append : (xs : List ℕ) (a b : ℕ) → contains (xs ++ a ∷ []) b ≡ (contains xs b || a == b)
contains-append [] a b = grind arith
contains-append (x ∷ xs) a b = grind (arith, contains-append xs a b)

is_distinct-append :
    (xs : List ℕ) (a : ℕ)
    → is_distinct xs ≡ true
    → contains xs a ≡ false
    → is_distinct (xs ++ a ∷ []) ≡ true
is_distinct-append [] a d n = refl
is_distinct-append (x ∷ xs) a d n = grind (arith, is_distinct-append xs a, contains-append xs a x)

contains-remove_at :
    (i : ℕ) (xs : List ℕ) (a : ℕ) → contains xs a ≡ false → contains (remove_at i xs) a ≡ false
contains-remove_at i [] a n = refl
contains-remove_at zero (x ∷ xs) a n = grind arith
contains-remove_at (suc i) (x ∷ xs) a n = grind (arith, contains-remove_at i xs a)

is_distinct-remove_at :
    (i : ℕ) (xs : List ℕ) → is_distinct xs ≡ true → is_distinct (remove_at i xs) ≡ true
is_distinct-remove_at i [] d = refl
is_distinct-remove_at zero (x ∷ xs) d = grind arith
is_distinct-remove_at (suc i) (x ∷ xs) d =
    grind (arith, is_distinct-remove_at i xs, contains-remove_at i xs x)

save_each_step :
    (id : ℕ) (ids held : List ℕ) (s u : State) {r : List ℕ}
    → save_each (id ∷ ids) held s ≡ ok r u
    → (contains held id ≡ false) × (save_each ids (held ++ id ∷ []) s ≡ ok r u)
unfolding save_each
save_each_step id ids held s u h = (ground arith, ground arith)

-- What `save_each` returns has nothing twice, and it writes nothing.
save_each_distinct :
    (ids held : List ℕ) (s u : State) {r : List ℕ}
    → is_distinct held ≡ true
    → save_each ids held s ≡ ok r u
    → (is_distinct r ≡ true) × (u ≡ s)
unfolding save_each
save_each_distinct [] held s u d h = (ground arith, ground arith)
save_each_distinct (id ∷ ids) held s u d h =
    let (n, k) = save_each_step id ids held s u h in
    save_each_distinct ids (held ++ id ∷ []) s u (is_distinct-append held id d n) k

-- One list is replaced by one with nothing twice.
IsUnique-set :
    (user : Address) (ids : List ℕ) (s : State)
    → IsUnique s
    → is_distinct ids ≡ true
    → IsUnique (set_saved_campaigns user ids s)
unfolding IsUnique
IsUnique-set user ids s v d other = elim (Bool-cases (other == user)) [
  | inl q ↦ rw q d
  | inr q ↦ rw q (v other)
]

-- What the four calls write.
module _ (env : Host) (user : Address) (s t : State) where
  save_writes :
      (id : ℕ)
      → save_campaign env user id s ≡ ok tt t
      → (contains (get_saved_campaigns user s) id ≡ false)
        × (t ≡ set_saved_campaigns user (get_saved_campaigns user s ++ id ∷ []) s)
  unfolding save_campaign
  save_writes id h = (ground arith, ground arith)

  save_many_writes :
      (ids : List ℕ)
      → is_distinct (get_saved_campaigns user s) ≡ true
      → batch_save_campaigns env user ids s ≡ ok tt t
      → (r : List ℕ) × (is_distinct r ≡ true) × (t ≡ set_saved_campaigns user r s)
  unfolding batch_save_campaigns
  save_many_writes ids d h = go (save_each ids (get_saved_campaigns user s) s) refl
    where
      go :
          (o : Outcome (List ℕ))
          → save_each ids (get_saved_campaigns user s) s ≡ o
          → (r : List ℕ) × (is_distinct r ≡ true) × (t ≡ set_saved_campaigns user r s)
      go (ok r u) e =
          let (k, w) = save_each_distinct ids (get_saved_campaigns user s) s u d e in
          (r, k, ground (arith, e, w))
      go (err x u) e = absurd (ground (arith, e))
      go trap e = absurd (ground (arith, e))

  remove_writes :
      (id : ℕ)
      → remove_saved_campaign env user id s ≡ ok tt t
      → (i : ℕ) × (t ≡ set_saved_campaigns user (remove_at i (get_saved_campaigns user s)) s)
  unfolding remove_saved_campaign
  remove_writes id h = elim (Option-cases (index_of id (get_saved_campaigns user s))) [
    | inl e ↦ absurd (ground arith)
    | inr (i, e) ↦ (i, ground arith)
  ]

  clear_writes : clear_saved_campaigns env user s ≡ ok tt t → t ≡ set_saved_campaigns user [] s
  unfolding clear_saved_campaigns
  clear_writes h = ground arith

-- The whole storage after a write of one list.
IsUnique-written :
    (user : Address) (ids : List ℕ) (s t : State)
    → IsUnique s
    → is_distinct ids ≡ true
    → t ≡ set_saved_campaigns user ids s
    → IsUnique t
IsUnique-written user ids s t v d e = subst IsUnique (sym e) (IsUnique-set user ids s v d)

unique : (user : Address) (s : State) → IsUnique s → is_distinct (get_saved_campaigns user s) ≡ true
unfolding IsUnique
unique user s v = v user

-- Where no one has a campaign saved twice, this is so after each of the four calls that write
-- bookmarks, if it returns: a single save, a batch, a removal and a clearing.
pub Bookmarking-IsUnique : (s t : State) → IsUnique s → Bookmarking s t → IsUnique t
Bookmarking-IsUnique s t v (save_step env user id h) =
    let (n, e) = save_writes env user s t id h in
    IsUnique-written user _ s t v
      (is_distinct-append (get_saved_campaigns user s) id (unique user s v) n) e
Bookmarking-IsUnique s t v (batch_step env user ids h) =
    let (r, d, e) = save_many_writes env user s t ids (unique user s v) h in
    IsUnique-written user r s t v d e
Bookmarking-IsUnique s t v (remove_step env user id h) =
    let (i, e) = remove_writes env user s t id h in
    IsUnique-written user _ s t v
      (is_distinct-remove_at i (get_saved_campaigns user s) (unique user s v)) e
Bookmarking-IsUnique s t v (clear_step env user h) =
    IsUnique-written user [] s t v refl (clear_writes env user s t h)
