-- ===== src/Safety.antt =====
-- What no call can do: calls while the contract is paused, and calls without the authority that
-- src/lib.rs and src/lifecycle.rs ask for.
pub mod Paused
pub mod PausedCalls
pub mod Unsigned
pub mod UnsignedAdmin
pub mod UnsignedSettings
pub mod Authority
use proof_of_heart_stellar.Prelude.{◌≡◌, refl}
use proof_of_heart_stellar.Store.{State}
use proof_of_heart_stellar.Action.{Outcome, ok, err, trap, Action, invoke, Ensures}

-- An outcome that is not `ok`.
abbrev pub Refused : {A : Type 0} → Outcome A → Type 0
Refused = Ensures (λ _. ⊥)

-- An action that does not return leaves the storage as it was.
pub invoke-Refused : {A : Type 0} (m : Action A) (s : State) → Refused (m s) → invoke m s ≡ s
unfolding invoke
invoke-Refused {A = A} m s k = go (m s) k
  where
    go :
        (r : Outcome A)
        → Refused r
        → elim r as (λ _. State) [ ok a s' ↦ s' | err e s' ↦ s | trap ↦ s ] ≡ s
    go (ok a t) k = absurd k
    go (err e t) k = refl
    go trap k = refl
