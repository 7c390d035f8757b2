-- ===== src/Registry/Categories.antt =====
-- The index by category against the list that it stands for: the ids of the campaigns of the
-- category, in the order of creation.
use proof_of_heart_stellar.Prelude.{
  ltb, ◌==◌, if◌then◌else◌, Bool-cases, unwrap_or, length, length-append, slice, slice-append,
  slice-append_below, slice-append_above, ℕ, zero, suc, ◌+◌, ◌*◌, ◌/◌, ◌≤◌, ◌≡◌, refl, sym, ap, ◌∙◌,
  subst, inl, inr, Bool, true, false, Option, none, some, List, [], ◌∷◌, ◌++◌, append-nil, arith,
}
use proof_of_heart_stellar.Types.{Category, category_index, Campaign}
use proof_of_heart_stellar.Types.Limits.{category_campaigns_bucket_size}
use proof_of_heart_stellar.Store.{
  State, get_category_campaign_count, get_category_campaign_bucket, get_campaign_count,
  get_campaign,
}
use proof_of_heart_stellar.Invariant.{Categorised, Rewrites}
use proof_of_heart_stellar.Registry.{SameListing, Move, idle, changed, entered, Moves, here, next}
use proof_of_heart_stellar.Registry.Numbers.{IsNumbered, lookup-Rewrites, Moves-IsNumbered}

-- Whether a campaign is stored and of the category.
abbrev pub in_category : Category → Option Campaign → Bool
in_category category none = false
in_category category (some c) = category_index c.category == category_index category

-- The ids up to a bound whose campaigns are of the category.
unfoldable pub members : Category → ℕ → State → List ℕ
members category zero s = []
members category (suc n) s =
    members category n s
    ++ (if in_category category (get_campaign (suc n) s) then suc n ∷ [] else [])

abbrev pub all_members : Category → State → List ℕ
all_members category s = members category (get_campaign_count s) s

-- The count and the buckets of the category hold the list `ids`, 500 entries to a bucket.
pub record Holds (category : Category) (ids : List ℕ) (s : State) : Type 0 where
  pub count : get_category_campaign_count category s ≡ length ids
  pub buckets :
      (b : ℕ)
      → get_category_campaign_bucket category b s
        ≡ slice (b * category_campaigns_bucket_size) category_campaigns_bucket_size ids

abbrev pub IsIndexed : Category → State → Type 0
IsIndexed category s = Holds category (all_members category s) s

members_same :
    (category : Category) (n : ℕ) (s t : State)
    → ((id : ℕ)
        → id ≤ n
        → in_category category (get_campaign id t) ≡ in_category category (get_campaign id s))
    → members category n t ≡ members category n s
unfolding members
members_same category zero s t k = refl
members_same category (suc n) s t k =
    rw (members_same category n s t (λ id h. k id (omega arith)), k (suc n) (omega arith)) refl

module _ (category : Category) (id : ℕ) (c d : Campaign) (s t : State) where
  -- A campaign that keeps its category keeps every list.
  rewritten_same :
      get_campaign id s ≡ some c
      → d.category ≡ c.category
      → Rewrites id d s t
      → (j : ℕ) → in_category category (get_campaign j t) ≡ in_category category (get_campaign j s)
  rewritten_same e k w j = elim (Bool-cases (j == id)) [
    | inl q ↦ grind (arith, lookup-Rewrites id j d s t w)
    | inr q ↦ rw (lookup-Rewrites id j d s t w, q) refl
  ]

-- The lists and the index as they were.
IsIndexed-same :
    (category : Category) (s t : State)
    → ((j : ℕ) → in_category category (get_campaign j t) ≡ in_category category (get_campaign j s))
    → SameListing s t
    → IsIndexed category s
    → IsIndexed category t
IsIndexed-same category s t k l v =
    let n : get_campaign_count t ≡ get_campaign_count s = ap (unwrap_or 0) l.0 in
    let e : all_members category t ≡ all_members category s =
      ap (λ m. members category m t) n
      ∙ members_same category (get_campaign_count s) s t (λ j h. k j) in
    subst (λ ids. Holds category ids t) (sym e)
      (record { count = rw l.1 v.count; buckets = λ b. rw l.2 (v.buckets b) })

module _ (category : Category) (c : Campaign) (s t : State) (w : Rewrites c.id c s t)
    (i : c.id ≡ get_campaign_count s + 1) where
  added : List ℕ
  added = if category_index c.category == category_index category then c.id ∷ [] else []

  members_before : (n : ℕ) → n ≡ get_campaign_count s → members category n t ≡ members category n s
  members_before n e =
      members_same category n s t (λ j h. grind (arith, lookup-Rewrites c.id j c s t w))

  members_after :
      (n : ℕ) → c.id ≡ suc n → members category (suc n) t ≡ members category n t ++ added
  unfolding members added
  members_after n e = rw (lookup-Rewrites c.id (suc n) c s t w, e) (grind arith)

  members_created :
      get_campaign_count t ≡ c.id → all_members category t ≡ all_members category s ++ added
  members_created n =
      let k : get_campaign_count t ≡ suc (get_campaign_count s) = omega arith in
      ap (λ m. members category m t) k
      ∙ members_after (get_campaign_count s) (omega arith)
      ∙ ap (λ ids. ids ++ added) (members_before (get_campaign_count s) refl)

-- An append at the end goes to the last bucket.
bucket-append :
    (ids : List ℕ) (id b : ℕ)
    → slice (b * category_campaigns_bucket_size) category_campaigns_bucket_size (ids ++ id ∷ []) ≡ (
        if b == length ids / category_campaigns_bucket_size
        then slice (b * category_campaigns_bucket_size) category_campaigns_bucket_size ids
          ++ id ∷ []
        else slice (b * category_campaigns_bucket_size) category_campaigns_bucket_size ids)
bucket-append ids id b = elim (Bool-cases (b == length ids / 500)) [
  | inl h ↦ rw h (slice-append (b * 500) 500 ids id (grind arith) (grind arith))
  | inr h ↦ rw h elim (Bool-cases (ltb (length ids) (b * 500))) [
    | inl k ↦ slice-append_above (b * 500) 500 ids id (grind arith)
    | inr k ↦ slice-append_below (b * 500) 500 ids id (grind arith)
  ]
]

module _ (category other : Category) (id : ℕ) (ids : List ℕ) (s t : State)
    (f : Categorised other id s t) (v : Holds category ids s) where
  Holds-added : category_index other ≡ category_index category → Holds category (ids ++ id ∷ []) t
  Holds-added q =
      let g : Categorised category id s t = rw q at f in
      let length_now = length-append ids (id ∷ []) in
      record {
        count = rw g.0 (grind (arith, v.count, length_now));
        buckets = λ b. rw g.1 (grind (arith, v.count, v.buckets b, bucket-append ids id b));
      }

  Holds-other : (category_index other == category_index category) ≡ false → Holds category ids t
  Holds-other q = record {
    count = rw f.0 (grind (arith, v.count));
    buckets = λ b. rw f.1 (grind (arith, v.buckets b));
  }

Move-IsIndexed :
    (category : Category) {s t : State}
    → IsNumbered s
    → Move s t
    → IsIndexed category s
    → IsIndexed category t
unfolding added
Move-IsIndexed category {s} {t} n (idle p l) v = IsIndexed-same category s t (λ j. rw p refl) l v
Move-IsIndexed category {s} {t} n (changed id c d e p w l) v =
    IsIndexed-same category s t (rewritten_same category id c d s t e p.category w) l v
Move-IsIndexed category {s} {t} n (entered c i a w k f u) v =
    let e : all_members category t ≡ all_members category s ++ added category c s t w i =
      members_created category c s t w i (grind (arith, k)) in
    subst (λ ids. Holds category ids t) (sym e)
      (go (category_index c.category == category_index category) refl)
  where
    go :
        (b : Bool)
        → (category_index c.category == category_index category) ≡ b
        → Holds category (all_members category s ++ (if b then c.id ∷ [] else [])) t
    go true q = Holds-added category c.category c.id (all_members category s) s t f v (grind arith)
    go false q =
        rw (append-nil (all_members category s))
          (Holds-other category c.category c.id (all_members category s) s t f v q)

pub Moves-IsIndexed :
    (category : Category) {s t : State}
    → IsNumbered s
    → Moves s t
    → IsIndexed category s
    → IsIndexed category t
Moves-IsIndexed category n here v = v
Moves-IsIndexed category n (next k m) v =
    Move-IsIndexed category (Moves-IsNumbered n k) m (Moves-IsIndexed category n k v)
