-- ===== src/Funding/Sums.antt =====
-- Sums of amounts over a list of addresses, and what a change at one address makes of them.
use proof_of_heart_stellar.Prelude.{
  ◌==◌, Bool-cases, contains, ◌≡◌, refl, inl, inr, Bool, true, false, not, ◌&&◌, List, [], ◌∷◌,
  arith,
}
use proof_of_heart_stellar.Prelude.Int.{ℤ, pos, ◌+ℤ◌, int_laws}
use proof_of_heart_stellar.Types.{Address}

unfoldable pub sum_of : (Address → ℤ) → List Address → ℤ
sum_of f [] = pos 0
sum_of f (a ∷ xs) = f a +ℤ sum_of f xs

abbrev pub is_distinct : List Address → Bool
is_distinct [] = true
is_distinct (a ∷ xs) = not (contains xs a) && is_distinct xs

-- The amount at one address has changed by `x`, and no other has.
abbrev pub Shifts : Address → ℤ → (Address → ℤ) → (Address → ℤ) → Type 0
Shifts a x f g = (g a ≡ f a +ℤ x) × ((b : Address) → (b == a) ≡ false → g b ≡ f b)

+ℤ-swap : (p q x : ℤ) → (p +ℤ x) +ℤ q ≡ (p +ℤ q) +ℤ x
+ℤ-swap p q x = grind int_laws

+ℤ-regroup : (p q x : ℤ) → p +ℤ (q +ℤ x) ≡ (p +ℤ q) +ℤ x
+ℤ-regroup p q x = grind int_laws

module _ (a : Address) (x : ℤ) (f g : Address → ℤ) (k : Shifts a x f g) where
  sum_of_others : (xs : List Address) → contains xs a ≡ false → sum_of g xs ≡ sum_of f xs
  unfolding sum_of
  sum_of_others [] h = refl
  sum_of_others (b ∷ xs) h = ground (arith, k.1 b, sum_of_others xs)

  pub sum_of-Shifts :
      (xs : List Address)
      → is_distinct xs ≡ true
      → contains xs a ≡ true
      → sum_of g xs ≡ sum_of f xs +ℤ x
  unfolding sum_of
  sum_of-Shifts [] d h = ground arith
  sum_of-Shifts (b ∷ xs) d h = elim (Bool-cases (b == a)) [
    | inl e ↦
        let front : g b ≡ f b +ℤ x = ground (arith, k.0) in
        let rest = sum_of_others xs (ground arith) in
        rw (front, rest) (+ℤ-swap (f b) (sum_of f xs) x)
    | inr e ↦
        let rest = sum_of-Shifts xs (ground arith) (ground arith) in
        rw (k.1 b e, rest) (+ℤ-regroup (f b) (sum_of f xs) x)
  ]
