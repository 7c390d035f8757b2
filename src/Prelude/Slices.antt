-- ===== src/Prelude/Slices.antt =====
-- A stretch of a list, and what an append at the end makes of it.
use Prim.Native.Nat.{ℕ, zero, suc, ◌+◌, ◌-◌, ◌≤◌, ◌<◌}
use mathlib.Core.Path.{◌≡◌, ◌∙◌, refl, sym, ap}
use mathlib.Core.List.{List, [], ◌∷◌, ◌++◌}
use native.Mathlib.Omega.{arith}
use proof_of_heart_stellar.Prelude.Lists.{length, take, drop}
use proof_of_heart_stellar.Prelude.Tests.{min}

module _ {ℓ} {A : Type ℓ} where
  -- `k` entries from the place `m` on.
  abbrev pub slice : ℕ → ℕ → List A → List A
  slice m k xs = take k (drop m xs)

  pub slice-nil : (m k : ℕ) → slice m k [] ≡ []
  slice-nil zero zero = refl
  slice-nil zero (suc k) = refl
  slice-nil (suc m) zero = refl
  slice-nil (suc m) (suc k) = refl

  pub length-drop : (m : ℕ) (xs : List A) → length (drop m xs) ≡ length xs - m
  length-drop zero xs = omega arith
  length-drop (suc m) [] = omega arith
  length-drop (suc m) (x ∷ xs) = omega (arith, length-drop m xs)

  drop-append :
      (m : ℕ) (xs : List A) (a : A) → m ≤ length xs → drop m (xs ++ a ∷ []) ≡ drop m xs ++ a ∷ []
  drop-append zero xs a h = refl
  drop-append (suc m) [] a h = absurd (omega arith)
  drop-append (suc m) (x ∷ xs) a h = drop-append m xs a (omega arith)

  drop-append_past :
      (m : ℕ) (xs : List A) (a : A) → length xs < m → drop m (xs ++ a ∷ []) ≡ drop m xs
  drop-append_past zero xs a h = absurd (omega arith)
  drop-append_past (suc zero) [] a h = refl
  drop-append_past (suc (suc m)) [] a h = refl
  drop-append_past (suc m) (x ∷ xs) a h = drop-append_past m xs a (omega arith)

  take-append :
      (k : ℕ) (xs : List A) (a : A) → length xs < k → take k (xs ++ a ∷ []) ≡ take k xs ++ a ∷ []
  take-append zero xs a h = absurd (omega arith)
  take-append (suc zero) [] a h = refl
  take-append (suc (suc k)) [] a h = refl
  take-append (suc k) (x ∷ xs) a h = ap (λ ys. x ∷ ys) (take-append k xs a (omega arith))

  take-append_full :
      (k : ℕ) (xs : List A) (a : A) → k ≤ length xs → take k (xs ++ a ∷ []) ≡ take k xs
  take-append_full zero xs a h = refl
  take-append_full (suc k) [] a h = absurd (omega arith)
  take-append_full (suc k) (x ∷ xs) a h = ap (λ ys. x ∷ ys) (take-append_full k xs a (omega arith))

  module _ (m k : ℕ) (xs : List A) (a : A) where
    pub slice-append :
        m ≤ length xs → length xs < m + k → slice m k (xs ++ a ∷ []) ≡ slice m k xs ++ a ∷ []
    slice-append l u =
        rw (drop-append m xs a l) (take-append k (drop m xs) a (omega (arith, length-drop m xs)))

    pub slice-append_below : m + k ≤ length xs → slice m k (xs ++ a ∷ []) ≡ slice m k xs
    slice-append_below u =
        rw (drop-append m xs a (omega arith))
          (take-append_full k (drop m xs) a (omega (arith, length-drop m xs)))

    pub slice-append_above : length xs < m → slice m k (xs ++ a ∷ []) ≡ slice m k xs
    slice-append_above u = rw (drop-append_past m xs a u) refl

  pub length-take : (k : ℕ) (xs : List A) → length (take k xs) ≡ min k (length xs)
  length-take zero xs = ground arith
  length-take (suc k) [] = ground arith
  length-take (suc k) (x ∷ xs) = ground (arith, length-take k xs)

  drop-nil : (m : ℕ) → drop {A = A} m [] ≡ []
  drop-nil zero = refl
  drop-nil (suc m) = refl

  take-nil : (m : ℕ) → take {A = A} m [] ≡ []
  take-nil zero = refl
  take-nil (suc m) = refl

  pub drop-drop : (m n : ℕ) (xs : List A) → drop m (drop n xs) ≡ drop (n + m) xs
  drop-drop m zero xs = let e : m ≡ 0 + m = omega arith in ap (λ k. drop k xs) e
  drop-drop m (suc n) [] = drop-nil m ∙ sym (drop-nil (suc n + m))
  drop-drop m (suc n) (x ∷ xs) =
      let e : suc (n + m) ≡ suc n + m = omega arith in
      drop-drop m n xs ∙ ap (λ k. drop k (x ∷ xs)) e

  pub take-add : (m n : ℕ) (xs : List A) → take (m + n) xs ≡ take m xs ++ take n (drop m xs)
  take-add zero n xs = let e : 0 + n ≡ n = omega arith in ap (λ k. take k xs) e
  take-add (suc m) n [] = take-nil (suc m + n) ∙ sym (take-nil n)
  take-add (suc m) n (x ∷ xs) =
      let e : suc m + n ≡ suc (m + n) = omega arith in
      ap (λ k. take k (x ∷ xs)) e ∙ ap (λ ys. x ∷ ys) (take-add m n xs)

  pub slice-add :
      (m k n : ℕ) (xs : List A) → slice m (k + n) xs ≡ slice m k xs ++ slice (m + k) n xs
  slice-add m k n xs =
      take-add k n (drop m xs) ∙ ap (λ ys. take k (drop m xs) ++ take n ys) (drop-drop k m xs)

  take-take : (n k : ℕ) (xs : List A) → n ≤ k → take n (take k xs) ≡ take n xs
  take-take zero k xs h = refl
  take-take (suc n) zero xs h = absurd (omega arith)
  take-take (suc n) (suc k) [] h = refl
  take-take (suc n) (suc k) (x ∷ xs) h = ap (λ ys. x ∷ ys) (take-take n k xs (omega arith))

  pub drop-take : (m k : ℕ) (xs : List A) → drop m (take k xs) ≡ take (k - m) (drop m xs)
  drop-take zero k xs = let e : k ≡ k - 0 = omega arith in ap (λ n. take n xs) e
  drop-take (suc m) zero xs =
      let e : 0 ≡ 0 - suc m = omega arith in ap (λ n. take n (drop (suc m) xs)) e
  drop-take (suc m) (suc k) [] = sym (take-nil (suc k - suc m))
  drop-take (suc m) (suc k) (x ∷ xs) =
      let e : k - m ≡ suc k - suc m = omega arith in
      drop-take m k xs ∙ ap (λ n. take n (drop m xs)) e

  -- A stretch within a stretch.
  pub slice-slice :
      (a n m k : ℕ) (xs : List A) → a + n ≤ k → slice a n (slice m k xs) ≡ slice (m + a) n xs
  slice-slice a n m k xs h =
      ap (take n) (drop-take a k (drop m xs))
      ∙ take-take n (k - a) (drop a (drop m xs)) (omega arith)
      ∙ ap (take n) (drop-drop a m xs)

  take-min : (k : ℕ) (xs : List A) → take (min k (length xs)) xs ≡ take k xs
  take-min zero xs = let e : min 0 (length xs) ≡ 0 = ground arith in ap (λ n. take n xs) e
  take-min (suc k) [] = take-nil (min (suc k) 0)
  take-min (suc k) (x ∷ xs) =
      let e : min (suc k) (suc (length xs)) ≡ suc (min k (length xs)) = ground arith in
      ap (λ n. take n (x ∷ xs)) e ∙ ap (λ ys. x ∷ ys) (take-min k xs)

  -- A stretch ends where the list does.
  pub slice-min : (m k : ℕ) (xs : List A) → slice m (min k (length xs - m)) xs ≡ slice m k xs
  slice-min m k xs =
      ap (λ n. take (min k n) (drop m xs)) (sym (length-drop m xs)) ∙ take-min k (drop m xs)

  pub drop-length : (xs : List A) → drop (length xs) xs ≡ []
  drop-length [] = refl
  drop-length (x ∷ xs) = drop-length xs

  pub take-all : (k : ℕ) (xs : List A) → length xs ≤ k → take k xs ≡ xs
  take-all zero [] h = refl
  take-all zero (x ∷ xs) h = absurd (omega arith)
  take-all (suc k) [] h = refl
  take-all (suc k) (x ∷ xs) h = ap (λ ys. x ∷ ys) (take-all k xs (omega arith))
