-- ===== src/Invariant/Funds.antt =====
-- Contributions and claims of revenue keep the invariant.
use proof_of_heart_stellar.Prelude.{
  Option-cases, unwrap_or, ℕ, ◌≡◌, inl, inr, some, List, [], ◌∷◌, arith,
}
use proof_of_heart_stellar.Prelude.Int.{ℤ, pos, ◌+ℤ◌, ◌≤ℤ◌, +ℤ_parts, int_laws}
use proof_of_heart_stellar.Types.{Address, Campaign}
use proof_of_heart_stellar.Host.{Host}
use proof_of_heart_stellar.Store.{State, get_contribution, get_campaign}
use proof_of_heart_stellar.Action.{
  ok, transfer, add_or_overflow, Ensures, Ensures-intro, Ensures-then,
}
use proof_of_heart_stellar.Lifecycle.{get_campaign_token}
use proof_of_heart_stellar.Contributions.{accept_contribution, settle_contribution, contribute}
use proof_of_heart_stellar.Contributions.Batch.{
  Owed, owed_get, owed_set, batch_items, pay_owed, batch_contribute,
}
use proof_of_heart_stellar.Contributions.Effects.{
  raised_by, accept_contribution_open, accept_contribution_effect, accept_contribution_missing,
}
use proof_of_heart_stellar.Invariant.Defs.{
  IsCoherent, IsSound, Same, Same-IsSound, CoherentAt-Rewrites, coherent,
}

IsCoherent-raised : (c : Campaign) (amount : ℤ) → IsCoherent c → IsCoherent (raised_by amount c)
IsCoherent-raised c amount k = grind int_laws

module _ (env : Host) (id : ℕ) (a : Address) (amount : ℤ) (s : State) (v : IsSound s) (current : ℤ)
    (t : State) (h : accept_contribution env id a amount s ≡ ok current t) where
  accepted-IsSound : (c : Campaign) → get_campaign id s ≡ some c → IsSound t
  accepted-IsSound c e =
      let before = get_contribution id a s in
      let (_, w) = accept_contribution_effect env id a amount s e h in
      let open_to = accept_contribution_open env id a amount s e h in
      let grown : pos 0 ≤ℤ before +ℤ amount =
        omega (arith, +ℤ_parts before amount, v.contributions id a, open_to.amount_positive) in
      record {
        campaigns =
            CoherentAt-Rewrites id (raised_by amount c) s t v.campaigns
              (IsCoherent-raised c amount (coherent id c s v e)) w.campaigns;
        fee = rw w.admin_keys v.fee;
        reserve = rw w.admin_keys v.reserve;
        vesting = λ j. rw w.vesting (v.vesting j);
        contributions = λ j b. rw w.contributions (ground (arith, v.contributions j b, grown));
      }

  accept_contribution_keeps_IsSound : IsSound t
  accept_contribution_keeps_IsSound = elim (Option-cases (get_campaign id s)) [
    | inl e ↦ absurd (accept_contribution_missing env id a amount s e h)
    | inr (c, e) ↦ accepted-IsSound c e
  ]

accept_contribution-IsSound :
    (env : Host) (id : ℕ) (a : Address) (amount : ℤ) (s : State)
    → IsSound s
    → Ensures IsSound (accept_contribution env id a amount s)
accept_contribution-IsSound env id a amount s v =
    Ensures-intro (accept_contribution env id a amount s)
      (λ current t h. accept_contribution_keeps_IsSound env id a amount s v current t h)

pub settle_contribution-Same :
    (env : Host) (id : ℕ) (a : Address) (amount current : ℤ) (s : State)
    → Ensures (Same s) (settle_contribution env id a amount current s)
unfolding settle_contribution transfer
settle_contribution-Same env id a amount current s = ground arith

pub contribute-IsSound :
    (env : Host) (id : ℕ) (a : Address) (amount : ℤ) (s t : State)
    → IsSound s
    → contribute env id a amount s ≡ ok tt t
    → IsSound t
unfolding contribute
contribute-IsSound env id a amount s t v h =
    grind (
      arith,
      accept_contribution-IsSound env id a amount s v,
      settle_contribution-Same,
      Same-IsSound,
    )

batch_items-IsSound :
    (env : Host) (a : Address) (items : List (ℕ × ℤ)) (owed : Owed) (total : ℤ) (s : State)
    → IsSound s
    → Ensures IsSound (batch_items env a items owed total s)
unfolding batch_items
batch_items-IsSound env a [] owed total s v = v
batch_items-IsSound env a ((id, amount) ∷ items) owed total s v =
    Ensures-then IsSound _ (accept_contribution env id a amount s)
      (accept_contribution-IsSound env id a amount s v)
      (λ _ t w.
        Ensures-then {P = λ u. u ≡ t} IsSound _ (add_or_overflow total amount t) (ground arith)
          (λ total' u e.
            Ensures-then {P = λ x. x ≡ u} IsSound _ (get_campaign_token id u) (ground arith)
              (λ token x e'.
                Ensures-then {P = λ y. y ≡ x} IsSound _
                  (add_or_overflow (unwrap_or (pos 0) (owed_get token owed)) amount x)
                  (ground arith)
                  (λ running y e''.
                    batch_items-IsSound env a items (owed_set token running owed) total' y
                      (rw (e'', e', e) w)))))

transfer-Same :
    (env : Host) (token a b : Address) (amount : ℤ) (r s : State)
    → Same r s
    → Ensures (Same r) (transfer env token a b amount s)
unfolding transfer
transfer-Same env token a b amount r s p = ground arith

pay_owed-Same :
    (env : Host) (a : Address) (owed : Owed) (r s : State)
    → Same r s
    → Ensures (Same r) (pay_owed env a owed s)
unfolding pay_owed
pay_owed-Same env a [] r s p = p
pay_owed-Same env a ((token, amount) ∷ owed) r s p =
    Ensures-then (Same r) _ (transfer env token a env.contract_address amount s)
      (transfer-Same env token a env.contract_address amount r s p)
      (λ _ t q. pay_owed-Same env a owed r t q)

pub pay_owed_after :
    (env : Host) (a : Address) (owed : Owed) (s : State) → Ensures (Same s) (pay_owed env a owed s)
pay_owed_after env a owed s = pay_owed-Same env a owed s s (ground arith)

pub batch_contribute-IsSound :
    (env : Host) (a : Address) (items : List (ℕ × ℤ)) (s t : State)
    → IsSound s
    → batch_contribute env a items s ≡ ok tt t
    → IsSound t
unfolding batch_contribute
batch_contribute-IsSound env a items s t v h =
    grind (arith, batch_items-IsSound env a items [] (pos 0) s v, pay_owed_after, Same-IsSound)
