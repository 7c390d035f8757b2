-- ===== src/Funding/Guard.antt =====
-- The burst guard of src/contributions.rs.
use proof_of_heart_stellar.Prelude.{
  Option-cases, unwrap_or, ℕ, ◌≡◌, refl, ap, inl, inr, Bool, false, arith,
}
use proof_of_heart_stellar.Prelude.Int.{ℤ}
use proof_of_heart_stellar.Types.{Address}
use proof_of_heart_stellar.Host.{Host}
use proof_of_heart_stellar.Store.{get_auto_paused, AdminKeys, State, get_campaign}
use proof_of_heart_stellar.Action.{
  Outcome, ok, err, trap, Action, transfer, invoke, Ensures, Ensures-intro,
}
use proof_of_heart_stellar.Calls.{contribute_call, step}
use proof_of_heart_stellar.Contributions.{accept_contribution, settle_contribution, contribute}
use proof_of_heart_stellar.Contributions.Effects.{
  accept_contribution_effect, accept_contribution_missing,
}

settle_admin_keys :
    (env : Host) (id : ℕ) (a : Address) (amount current : ℤ) (s : State)
    → Ensures (λ t. t.admin_keys ≡ s.admin_keys) (settle_contribution env id a amount current s)
unfolding settle_contribution transfer
settle_admin_keys env id a amount current s = ground arith

accept_admin_keys :
    (env : Host) (id : ℕ) (a : Address) (amount : ℤ) (s : State)
    → Ensures (λ t. t.admin_keys ≡ s.admin_keys) (accept_contribution env id a amount s)
accept_admin_keys env id a amount s =
    Ensures-intro (accept_contribution env id a amount s) (λ current t h.
      elim (Option-cases (get_campaign id s)) [
        | inl e ↦ absurd (accept_contribution_missing env id a amount s e h)
        | inr (c, e) ↦ (accept_contribution_effect env id a amount s e h).1.admin_keys
      ])

contribute_admin_keys :
    (env : Host) (id : ℕ) (a : Address) (amount : ℤ) (s : State)
    → Ensures (λ t. t.admin_keys ≡ s.admin_keys) (contribute env id a amount s)
unfolding contribute
contribute_admin_keys env id a amount s =
    grind (arith, accept_admin_keys env id a amount s, settle_admin_keys)

-- The outcome of a call is the state it wrote only where it returned.
invoke_Ensures :
    {A : Type 0} (P : State → Type 0) (m : Action A) (s : State)
    → P s
    → Ensures P (m s)
    → P (invoke m s)
unfolding invoke
invoke_Ensures {A = A} P m s v k = go (m s) k
  where
    go :
        (r : Outcome A)
        → Ensures P r
        → P (elim r as (λ _. State) [ ok a s' ↦ s' | err e s' ↦ s | trap ↦ s ])
    go (ok a t) k = k
    go (err e t) k = v
    go trap k = v

-- No contribution turns the automatic pause on: the guard writes the flag and then fails, and the
-- host discards what a failed call wrote.
pub contribute_never_auto_pauses :
    (env : Host) (id : ℕ) (a : Address) (amount : ℤ) (s : State)
    → get_auto_paused (step env (contribute_call id a amount) s) ≡ get_auto_paused s
unfolding step
contribute_never_auto_pauses env id a amount s = ap get_auto_paused_of (
    invoke_Ensures (λ t. t.admin_keys ≡ s.admin_keys) (contribute env id a amount) s refl
      (contribute_admin_keys env id a amount s))
  where
    get_auto_paused_of : AdminKeys → Bool
    get_auto_paused_of k = unwrap_or false k.auto_paused
