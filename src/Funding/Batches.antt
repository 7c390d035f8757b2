-- ===== src/Funding/Batches.antt =====
-- What a campaign counts as raised is the sum of its contributions, also after a batch:
-- `batch_contribute` of src/contributions.rs.
use proof_of_heart_stellar.Prelude.{
  ◌==◌, Bool-cases, Option-cases, unwrap_or, contains, ℕ, ◌≡◌, refl, sym, ◌∙◌, inl, inr, true, some,
  List, [], ◌∷◌, arith,
}
use proof_of_heart_stellar.Prelude.Int.{ℤ, pos}
use proof_of_heart_stellar.Types.{Address, Campaign}
use proof_of_heart_stellar.Host.{Host}
use proof_of_heart_stellar.Store.{State, get_contribution, get_lifetime_contribution, get_campaign}
use proof_of_heart_stellar.Action.{ok, add_or_overflow, Ensures, Ensures-intro, Ensures-then}
use proof_of_heart_stellar.Lifecycle.{get_campaign_token}
use proof_of_heart_stellar.Contributions.{accept_contribution}
use proof_of_heart_stellar.Contributions.Batch.{
  Owed, owed_get, owed_set, batch_items, batch_contribute,
}
use proof_of_heart_stellar.Contributions.Effects.{
  Accounted, accept_contribution_effect, accept_contribution_missing,
}
use proof_of_heart_stellar.Funding.Sums.{sum_of, is_distinct}
use proof_of_heart_stellar.Funding.Totals.{contributed, Changes, contributed-Changes, IsBalanced}
use proof_of_heart_stellar.Invariant.{Same}
use proof_of_heart_stellar.Invariant.Funds.{pay_owed_after}

same_sum :
    (xs : List Address) (id : ℕ) (s t : State)
    → ((b : Address) → get_contribution id b t ≡ get_contribution id b s)
    → contributed xs id t ≡ contributed xs id s
unfolding contributed sum_of
same_sum [] id s t k = refl
same_sum (x ∷ xs) id s t k = rw (k x, same_sum xs id s t k) refl

-- The campaign and its contributions are as they were.
IsBalanced-unchanged :
    (xs : List Address) (id : ℕ) (s t : State)
    → IsBalanced xs id s
    → get_campaign id t ≡ get_campaign id s
    → ((b : Address) → get_contribution id b t ≡ get_contribution id b s)
    → IsBalanced xs id t
unfolding IsBalanced
IsBalanced-unchanged xs id s t v p q c e = v c (sym p ∙ e) ∙ sym (same_sum xs id s t q)

module _ (xs : List Address) (id : ℕ) (a : Address) (d : is_distinct xs ≡ true)
    (m : contains xs a ≡ true) (env : Host) where
  Accounted-IsBalanced_here :
      (j : ℕ) (amount lifetime : ℤ) (c : Campaign) (s t : State)
      → (id == j) ≡ true
      → IsBalanced xs id s
      → get_campaign j s ≡ some c
      → Accounted j a amount c (get_contribution j a s) lifetime s t
      → IsBalanced xs id t
  unfolding IsBalanced
  Accounted-IsBalanced_here j amount lifetime c s t q v e w c' e' =
      let changes : Changes id a amount s t =
        (ground (arith, w.contributions), λ b r. ground (arith, w.contributions)) in
      let sum = contributed-Changes id a amount s t changes xs d m in
      let found : get_campaign id s ≡ some c = ground arith in
      ground (arith, w.campaigns, v c found)

  Accounted-IsBalanced :
      (j : ℕ) (amount lifetime : ℤ) (c : Campaign) (s t : State)
      → IsBalanced xs id s
      → get_campaign j s ≡ some c
      → Accounted j a amount c (get_contribution j a s) lifetime s t
      → IsBalanced xs id t
  Accounted-IsBalanced j amount lifetime c s t v e w = elim (Bool-cases (id == j)) [
    | inl q ↦ Accounted-IsBalanced_here j amount lifetime c s t q v e w
    | inr q ↦
        IsBalanced-unchanged xs id s t v (ground (arith, w.campaigns))
          (λ b. ground (arith, w.contributions))
  ]

  accept-IsBalanced :
      (j : ℕ) (amount : ℤ) (s : State)
      → IsBalanced xs id s
      → Ensures (IsBalanced xs id) (accept_contribution env j a amount s)
  accept-IsBalanced j amount s v =
      Ensures-intro (accept_contribution env j a amount s) (λ current t h.
        elim (Option-cases (get_campaign j s)) [
          | inl e ↦ absurd (accept_contribution_missing env j a amount s e h)
          | inr (c, e) ↦
              Accounted-IsBalanced j amount (get_lifetime_contribution j a s) c s t v e
                ((accept_contribution_effect env j a amount s e h).1)
        ])

  batch_items-IsBalanced :
      (items : List (ℕ × ℤ)) (owed : Owed) (total : ℤ) (s : State)
      → IsBalanced xs id s
      → Ensures (IsBalanced xs id) (batch_items env a items owed total s)
  unfolding batch_items
  batch_items-IsBalanced [] owed total s v = v
  batch_items-IsBalanced ((j, amount) ∷ items) owed total s v =
      Ensures-then (IsBalanced xs id) _ (accept_contribution env j a amount s)
        (accept-IsBalanced j amount s v)
        (λ _ t w.
          Ensures-then {P = λ u. u ≡ t} (IsBalanced xs id) _ (add_or_overflow total amount t)
            (ground arith)
            (λ total' u e.
              Ensures-then {P = λ x. x ≡ u} (IsBalanced xs id) _ (get_campaign_token j u)
                (ground arith)
                (λ token x e'.
                  Ensures-then {P = λ y. y ≡ x} (IsBalanced xs id) _
                    (add_or_overflow (unwrap_or (pos 0) (owed_get token owed)) amount x)
                    (ground arith)
                    (λ running y e''.
                      batch_items-IsBalanced items (owed_set token running owed) total' y
                        (rw (e'', e', e) w)))))

  paid_owed-IsBalanced : (s t : State) → IsBalanced xs id s → Same s t → IsBalanced xs id t
  paid_owed-IsBalanced s t v k = IsBalanced-unchanged xs id s t v (ground arith) (λ b. ground arith)

  -- Where a campaign counts as raised the sum of what the contributors `xs` have in it, without
  -- repetition, a batch of contributions by one of them that returns keeps this so, whichever
  -- campaigns the batch pays into.
  pub batch_contribute-IsBalanced :
      (items : List (ℕ × ℤ)) (s t : State)
      → IsBalanced xs id s
      → batch_contribute env a items s ≡ ok tt t
      → IsBalanced xs id t
  unfolding batch_contribute
  batch_contribute-IsBalanced items s t v h =
      grind
        (arith, batch_items-IsBalanced items [] (pos 0) s v, pay_owed_after, paid_owed-IsBalanced)
