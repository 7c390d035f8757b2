-- ===== src/Action.antt =====
-- A call of the contract as a state passing action. An action returns, fails with an error code,
-- or traps: a Rust panic, an arithmetic overflow (the release profile of Cargo.toml keeps the
-- overflow checks on), a refused `require_auth` or a failed token transfer. The state that stands
-- beside an error is what the code has written by then; the host discards it (`invoke`).
use proof_of_heart_stellar.Prelude.{ℕ, ◌≡◌, refl, Bool, true, false, Option, none, some, ◌∷◌, arith}
use proof_of_heart_stellar.Prelude.Int.{ℤ, checked_add, checked_sub, checked_mul}
use proof_of_heart_stellar.Prelude.Words.{checked_add_u32, checked_mul_u64}
use proof_of_heart_stellar.Types.{Address}
use proof_of_heart_stellar.Types.Error.{Error, overflow}
use proof_of_heart_stellar.Host.{Transfer, Host}
use proof_of_heart_stellar.Store.{State}

pub data Outcome (A : Type 0) : Type 0 where
  ok : A → State → Outcome A
  err : Error → State → Outcome A
  trap : Outcome A

abbrev pub Action : Type 0 → Type 0
Action A = State → Outcome A

abbrev pub Done : Type 0
Done = Unit {0}

module _ {A : Type 0} where
  abbrev pub pure : A → Action A
  pure a s = ok a s

  abbrev pub fail : Error → Action A
  fail e s = err e s

  abbrev pub abort : Action A
  abort s = trap

  abbrev pub gets : (State → A) → Action A
  gets f s = ok (f s) s

  abbrev pub ok_or : Error → Option A → Action A
  ok_or e none s = err e s
  ok_or e (some a) s = ok a s

  abbrev pub or_trap : Option A → Action A
  or_trap none s = trap
  or_trap (some a) s = ok a s

infixl 5 ◌>>=◌ ◌>>◌
abbrev pub ◌>>=◌ : {A B : Type 0} → Action A → (A → Action B) → Action B
◌>>=◌ m f s = elim (m s) [ ok a s' ↦ f a s' | err e s' ↦ err e s' | trap ↦ trap ]

abbrev pub ◌>>◌ : {B : Type 0} → Action Done → Action B → Action B
m >> k = m >>= λ _. k

abbrev pub modify : (State → State) → Action Done
modify f s = ok tt (f s)

-- `if b { return Err(e); }`
abbrev pub reject_if : Bool → Error → Action Done
reject_if true e s = err e s
reject_if false e s = ok tt s

abbrev pub when : Bool → Action Done → Action Done
when true m s = m s
when false m s = ok tt s

abbrev pub trap_unless : Bool → Action Done
trap_unless true s = ok tt s
trap_unless false s = trap

-- `address.require_auth()`
abbrev pub require_auth : Host → Address → Action Done
require_auth env a = trap_unless (env.is_authorized a)

-- `token::Client::transfer`
unfoldable pub transfer : Host → Address → Address → Address → ℤ → Action Done
transfer env token sender recipient amount = do
  let t : Transfer = record {
    token = token;
    sender = sender;
    recipient = recipient;
    amount = amount;
  }
  made ← gets (λ s. s.transfers)
  trap_unless (env.accepts made t)
  modify (λ s. record s { transfers = t ∷ s.transfers })

-- `checked_add` and its like with `ok_or(Error::Overflow)?`, and the plain operators, which trap.
abbrev pub add_or_overflow : ℤ → ℤ → Action ℤ
add_or_overflow a b = ok_or overflow (checked_add a b)

abbrev pub sub_or_overflow : ℤ → ℤ → Action ℤ
sub_or_overflow a b = ok_or overflow (checked_sub a b)

abbrev pub mul_or_overflow : ℤ → ℤ → Action ℤ
mul_or_overflow a b = ok_or overflow (checked_mul a b)

abbrev pub sub_i128 : ℤ → ℤ → Action ℤ
sub_i128 a b = or_trap (checked_sub a b)

abbrev pub add_u32 : ℕ → ℕ → Action ℕ
add_u32 a b = or_trap (checked_add_u32 a b)

abbrev pub mul_u64 : ℕ → ℕ → Action ℕ
mul_u64 a b = or_trap (checked_mul_u64 a b)

-- The host keeps what a call wrote if it returned, and discards it otherwise.
unfoldable pub invoke : {A : Type 0} → Action A → State → State
invoke m s = elim (m s) [ ok a s' ↦ s' | err e s' ↦ s | trap ↦ s ]

-- Inversion of a chain that returned.
pub >>=-eq-ok :
    {A B : Type 0} (m : Action A) (f : A → Action B) (s : State) {b : B} {s' : State}
    → (m >>= f) s ≡ ok b s'
    → (a : A) × (t : State) × (m s ≡ ok a t) × (f a t ≡ ok b s')
>>=-eq-ok {A} {B} m f s {b} {s'} h = go (m s) refl h
  where
    go :
        (r : Outcome A)
        → m s ≡ r
        → elim r [ ok a t ↦ f a t | err e t ↦ err e t | trap ↦ trap ] ≡ ok b s'
        → (a : A) × (t : State) × (m s ≡ ok a t) × (f a t ≡ ok b s')
    go (ok a t) e k = (a, t, e, k)
    go (err e' t) e k = cc
    go trap e k = cc

-- What holds of the state of an action that returned.
abbrev pub Ensures : {A : Type 0} → (State → Type 0) → Outcome A → Type 0
Ensures P (ok a t) = P t
Ensures P (err e t) = Unit {0}
Ensures P trap = Unit {0}

-- An action that returned has written nothing.
abbrev pub Keeps : {A : Type 0} → State → Outcome A → Type 0
Keeps s = Ensures (λ t. t ≡ s)

module _ {A B : Type 0} (f : A → Action B) (s : State) (next : (a : A) → Keeps s (f a s)) where
  pub Keeps-then :
      (r : Outcome A)
      → Keeps s r
      → Keeps s (elim r as (λ _. Outcome B) [ ok a t ↦ f a t | err e t ↦ err e t | trap ↦ trap ])
  Keeps-then (ok a t) e = rw e (next a)
  Keeps-then (err e t) k = tt
  Keeps-then trap k = tt

  pub Keeps-bind : (m : Action A) → Keeps s (m s) → Keeps s ((m >>= f) s)
  Keeps-bind m k = Keeps-then (m s) k

pub Ensures-intro :
    {A : Type 0} {P : State → Type 0} (r : Outcome A)
    → ((a : A) (t : State) → r ≡ ok a t → P t)
    → Ensures P r
Ensures-intro (ok a t) k = k a t refl
Ensures-intro (err e t) k = tt
Ensures-intro trap k = tt

-- The way back, at an action that returned.
pub Ensures-at :
    {A : Type 0} (P : State → Type 0) (r : Outcome A) {a : A} {t : State}
    → Ensures P r
    → r ≡ ok a t
    → P t
Ensures-at P (ok b u) k e = ground arith
Ensures-at P (err x u) k e = cc
Ensures-at P trap k e = cc

module _ {A B : Type 0} {P : State → Type 0} (Q : State → Type 0) (f : A → Action B) where
  pub Ensures-then :
      (r : Outcome A)
      → Ensures P r
      → ((a : A) (t : State) → P t → Ensures Q (f a t))
      → Ensures Q (elim r as (λ _. Outcome B) [ ok a t ↦ f a t | err e t ↦ err e t | trap ↦ trap ])
  Ensures-then (ok a t) p k = k a t p
  Ensures-then (err e t) p k = tt
  Ensures-then trap p k = tt
