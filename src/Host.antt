-- ===== src/Host.antt =====
-- What the contract is given by the Soroban host and by the token contracts, none of which is code
-- of the repository. One `Host` is what one call of the contract sees of them. Token contracts
-- answer as any function of the transfers made so far.
use proof_of_heart_stellar.Prelude.{ℕ, Bool, List}
use proof_of_heart_stellar.Prelude.Int.{ℤ}
use proof_of_heart_stellar.Types.{Address, Text}

-- One call of `transfer` on the token contract `token`.
pub record Transfer : Type 0 where
  pub token : Address
  pub sender : Address
  pub recipient : Address
  pub amount : ℤ

pub record Host : Type 0 where
  -- `env.ledger().timestamp()` and `env.ledger().sequence()`
  pub timestamp : ℕ
  pub sequence : ℕ
  -- `env.current_contract_address()`
  pub contract_address : Address
  -- the addresses whose `require_auth` succeeds in this call
  pub is_authorized : Address → Bool
  -- whether a token contract carries a transfer out, or fails and so aborts the call
  pub accepts : List Transfer → Transfer → Bool
  -- `token::Client::balance`: the token, then the holder
  pub balance : List Transfer → Address → Address → ℤ
  -- whether an address answers to `decimals`, as a token contract does
  pub has_decimals : Address → Bool
  -- `env.crypto().sha256`
  pub sha256 : Text → ℕ
