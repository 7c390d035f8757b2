-- ===== src/Contributions/Batch.antt =====
-- `batch_contribute` of src/contributions.rs. The amounts owed for each token are a host map, which
-- is kept and read in the order of its keys.
use proof_of_heart_stellar.Prelude.{
  ltb, ◌==◌, if◌then◌else◌, unwrap_or, length, is_empty, ℕ, ◌||◌, Option, none, some, List, [], ◌∷◌,
}
use proof_of_heart_stellar.Prelude.Int.{ℤ, pos}
use proof_of_heart_stellar.Types.{Address}
use proof_of_heart_stellar.Types.Limits.{max_batch_contribute_size}
use proof_of_heart_stellar.Types.Error.{validation_failed}
use proof_of_heart_stellar.Host.{Host}
use proof_of_heart_stellar.Action.{
  Action, Done, pure, ◌>>=◌, ◌>>◌, reject_if, require_auth, transfer, add_or_overflow,
}
use proof_of_heart_stellar.Lifecycle.{get_campaign_token, require_not_paused}
use proof_of_heart_stellar.Contributions.{accept_contribution}

abbrev pub Owed : Type 0
Owed = List (Address × ℤ)

unfoldable pub owed_get : Address → Owed → Option ℤ
owed_get token [] = none
owed_get token ((t, amount) ∷ owed) = if t == token then some amount else owed_get token owed

unfoldable pub owed_set : Address → ℤ → Owed → Owed
owed_set token amount [] = (token, amount) ∷ []
owed_set token amount ((t, a) ∷ owed) =
    if t == token
    then (token, amount) ∷ owed
    else (if ltb token t
        then (token, amount) ∷ (t, a) ∷ owed
        else (t, a) ∷ owed_set token amount owed)

unfoldable pub batch_items : Host → Address → List (ℕ × ℤ) → Owed → ℤ → Action Owed
batch_items env contributor [] owed total = pure owed
batch_items env contributor ((id, amount) ∷ items) owed total = do
  _ ← accept_contribution env id contributor amount
  new_total ← add_or_overflow total amount
  token ← get_campaign_token id
  running ← add_or_overflow (unwrap_or (pos 0) (owed_get token owed)) amount
  batch_items env contributor items (owed_set token running owed) new_total

unfoldable pub pay_owed : Host → Address → Owed → Action Done
pay_owed env contributor [] = pure tt
pay_owed env contributor ((token, amount) ∷ owed) = do
  transfer env token contributor env.contract_address amount
  pay_owed env contributor owed

unfoldable pub batch_contribute : Host → Address → List (ℕ × ℤ) → Action Done
batch_contribute env contributor contributions = do
  require_auth env contributor
  require_not_paused
  reject_if (is_empty contributions || ltb max_batch_contribute_size (length contributions))
      validation_failed
  owed ← batch_items env contributor contributions [] (pos 0)
  pay_owed env contributor owed
