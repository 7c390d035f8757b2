-- ===== src/Listing/Ranges.antt =====
-- The campaigns of a range of ids (src/queries.rs).
use proof_of_heart_stellar.Prelude.{
  ltb, if◌then◌else◌, length, get_elem?, prepend, ℕ, zero, suc, ◌+◌, ◌≤◌, ◌≡◌, refl, ap, ◌∙◌,
  Option, none, some, List, ◌++◌, arith,
}
use proof_of_heart_stellar.Types.{Campaign}
use proof_of_heart_stellar.Store.{State, get_campaign_count, get_campaign}
use proof_of_heart_stellar.Queries.{campaigns_from}
use proof_of_heart_stellar.Registry.Numbers.{IsNumbered}

add_suc : (m n : ℕ) → suc m + n ≡ suc (m + n)
add_suc m n = omega arith

module _ (s : State) where
  pub prepend-append :
      (o : Option Campaign) (xs ys : List Campaign) → prepend o (xs ++ ys) ≡ prepend o xs ++ ys
  prepend-append none xs ys = refl
  prepend-append (some c) xs ys = refl

  pub campaigns_from-append :
      (id m n : ℕ)
      → campaigns_from id (m + n) s ≡ campaigns_from id m s ++ campaigns_from (id + m) n s
  unfolding campaigns_from
  campaigns_from-append id zero n =
      ap (λ k. campaigns_from id k s) (omega arith) ∙ ap (λ k. campaigns_from k n s) (omega arith)
  campaigns_from-append id (suc m) n =
      ap (λ k. campaigns_from id k s) (add_suc m n)
      ∙ ap (prepend (get_campaign id s)) (
          campaigns_from-append (id + 1) m n
          ∙ ap (λ k. campaigns_from (id + 1) m s ++ campaigns_from k n s) (omega arith))
      ∙ prepend-append (get_campaign id s) (campaigns_from (id + 1) m s)
          (campaigns_from (id + suc m) n s)

  module _ (v : IsNumbered s) where
    pub get_elem?-campaigns_from :
        (id left i : ℕ)
        → 1 ≤ id
        → id + left ≤ get_campaign_count s + 1
        → get_elem? (campaigns_from id left s) i
          ≡ (if ltb i left then get_campaign (id + i) s else none)
    unfolding campaigns_from
    get_elem?-campaigns_from id zero i l u = grind arith
    get_elem?-campaigns_from id (suc left) zero l u = grind (arith, v.stored id)
    get_elem?-campaigns_from id (suc left) (suc i) l u =
        grind (arith, v.stored id, get_elem?-campaigns_from (id + 1) left i)

    pub length-campaigns_from :
        (id left : ℕ)
        → 1 ≤ id
        → id + left ≤ get_campaign_count s + 1
        → length (campaigns_from id left s) ≡ left
    unfolding campaigns_from
    length-campaigns_from id zero l u = refl
    length-campaigns_from id (suc left) l u =
        grind (arith, v.stored id, length-campaigns_from (id + 1) left)
