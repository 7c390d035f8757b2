-- ===== src/Registry/Funds.antt =====
-- Contributions, as moves.
use proof_of_heart_stellar.Prelude.{
  Option-cases, unwrap_or, ℕ, ◌≡◌, sym, ap, ◌∙◌, subst, inl, inr, some, List, [], ◌∷◌, arith,
}
use proof_of_heart_stellar.Prelude.Int.{ℤ, pos, ◌<ℤ◌}
use proof_of_heart_stellar.Types.{Address, Campaign}
use proof_of_heart_stellar.Host.{Host}
use proof_of_heart_stellar.Store.{
  AdminKeys, State, get_contribution, get_lifetime_contribution, get_campaign,
}
use proof_of_heart_stellar.Action.{
  ok, add_or_overflow, >>=-eq-ok, Ensures, Ensures-intro, Ensures-at, Ensures-then,
}
use proof_of_heart_stellar.Lifecycle.{get_campaign_token}
use proof_of_heart_stellar.Contributions.{accept_contribution, settle_contribution, contribute}
use proof_of_heart_stellar.Contributions.Batch.{
  Owed, owed_get, owed_set, batch_items, pay_owed, batch_contribute,
}
use proof_of_heart_stellar.Contributions.Effects.{
  raised_by, Accounted, accept_contribution_open, accept_contribution_effect,
  accept_contribution_missing,
}
use proof_of_heart_stellar.Invariant.{Same}
use proof_of_heart_stellar.Invariant.Funds.{settle_contribution-Same, pay_owed_after}
use proof_of_heart_stellar.Registry.{Move, changed, Moves, here, next, one}
use proof_of_heart_stellar.Registry.Edits.{Same-Move}
use proof_of_heart_stellar.Registry.Rewritings.{Progress-raised}

Accounted-Move :
    (id : ℕ) (a : Address) (amount : ℤ) (c : Campaign) (current lifetime : ℤ) (s t : State)
    → get_campaign id s ≡ some c
    → pos 0 <ℤ amount
    → Accounted id a amount c current lifetime s t
    → Move s t
Accounted-Move id a amount c current lifetime s t e p w =
    changed id c (raised_by amount c) e (Progress-raised c amount p) w.campaigns (
      w.count,
      w.category_count,
      w.category_buckets,
      ap (λ (k : AdminKeys). k.initialized) w.admin_keys,
    )

accept_contribution-Move :
    (env : Host) (id : ℕ) (a : Address) (amount : ℤ) (s : State)
    → Ensures (Move s) (accept_contribution env id a amount s)
accept_contribution-Move env id a amount s =
    Ensures-intro (accept_contribution env id a amount s) (λ current t h.
      elim (Option-cases (get_campaign id s)) [
        | inl e ↦ absurd (accept_contribution_missing env id a amount s e h)
        | inr (c, e) ↦
            Accounted-Move id a amount c (get_contribution id a s)
              (get_lifetime_contribution id a s) s t e
              (accept_contribution_open env id a amount s e h).amount_positive
              ((accept_contribution_effect env id a amount s e h).1)
      ])

contribute_parts :
    (env : Host) (id : ℕ) (a : Address) (amount : ℤ) (s t : State)
    → contribute env id a amount s ≡ ok tt t
    → (current : ℤ) × (u : State) × (accept_contribution env id a amount s ≡ ok current u)
      × (settle_contribution env id a amount current u ≡ ok tt t)
unfolding contribute
contribute_parts env id a amount s t h =
    >>=-eq-ok (accept_contribution env id a amount) (settle_contribution env id a amount) s
      (ground arith)

pub contribute-Moves :
    (env : Host) (id : ℕ) (a : Address) (amount : ℤ) (s t : State)
    → contribute env id a amount s ≡ ok tt t
    → Moves s t
contribute-Moves env id a amount s t h =
    let (current, u, e, k) = contribute_parts env id a amount s t h in
    next
      (one (
        Ensures-at (Move s) (accept_contribution env id a amount s)
          (accept_contribution-Move env id a amount s) e))
      (Same-Move u t (
        Ensures-at (Same u) (settle_contribution env id a amount current u)
          (settle_contribution-Same env id a amount current u) k))

batch_items-Moves :
    (env : Host) (a : Address) (items : List (ℕ × ℤ)) (owed : Owed) (total : ℤ) (r s : State)
    → Moves r s
    → Ensures (Moves r) (batch_items env a items owed total s)
unfolding batch_items
batch_items-Moves env a [] owed total r s v = v
batch_items-Moves env a ((id, amount) ∷ items) owed total r s v =
    Ensures-then (Moves r) _ (accept_contribution env id a amount s)
      (accept_contribution-Move env id a amount s)
      (λ _ t w.
        Ensures-then {P = λ u. u ≡ t} (Moves r) _ (add_or_overflow total amount t) (ground arith)
          (λ total' u e.
            Ensures-then {P = λ x. x ≡ u} (Moves r) _ (get_campaign_token id u) (ground arith)
              (λ token x e'.
                Ensures-then {P = λ y. y ≡ x} (Moves r) _
                  (add_or_overflow (unwrap_or (pos 0) (owed_get token owed)) amount x)
                  (ground arith)
                  (λ running y e''.
                    batch_items-Moves env a items (owed_set token running owed) total' r y
                      (subst (Moves r) (sym (e'' ∙ e' ∙ e)) (next v w))))))

batch_parts :
    (env : Host) (a : Address) (items : List (ℕ × ℤ)) (s t : State)
    → batch_contribute env a items s ≡ ok tt t
    → (owed : Owed) × (u : State) × (batch_items env a items [] (pos 0) s ≡ ok owed u)
      × (pay_owed env a owed u ≡ ok tt t)
unfolding batch_contribute
batch_parts env a items s t h =
    >>=-eq-ok (batch_items env a items [] (pos 0)) (pay_owed env a) s (ground arith)

pub batch_contribute-Moves :
    (env : Host) (a : Address) (items : List (ℕ × ℤ)) (s t : State)
    → batch_contribute env a items s ≡ ok tt t
    → Moves s t
batch_contribute-Moves env a items s t h =
    let (owed, u, e, k) = batch_parts env a items s t h in
    next
      (Ensures-at (Moves s) (batch_items env a items [] (pos 0) s)
        (batch_items-Moves env a items [] (pos 0) s s here) e)
      (Same-Move u t (Ensures-at (Same u) (pay_owed env a owed u) (pay_owed_after env a owed u) k))
