-- ===== src/Store/Admin.antt =====
-- Getters and setters of the platform settings (src/storage.rs). `stored_admin` and `stored_token`
-- are what `get_admin` and `get_token` unwrap; the pause flags are read and written in place in
-- src/lifecycle.rs, src/contributions.rs and src/admin.rs.
use proof_of_heart_stellar.Prelude.{
  ℕ, Bool, true, false, Option, none, some, List, [], unwrap_or, is_some, insert, erase,
}
use proof_of_heart_stellar.Prelude.Int.{ℤ, pos}
use proof_of_heart_stellar.Types.{Address}
use proof_of_heart_stellar.Store.Record.{State}

abbrev pub is_initialized : State → Bool
is_initialized s = is_some s.admin_keys.initialized

abbrev pub set_initialized : State → State
set_initialized s = record s { admin_keys = record (s.admin_keys) { initialized = some true } }

abbrev pub stored_admin : State → Option Address
stored_admin s = s.admin_keys.admin

abbrev pub set_admin : Address → State → State
set_admin v s = record s { admin_keys = record (s.admin_keys) { admin = some v } }

abbrev pub get_pending_admin : State → Option Address
get_pending_admin s = s.admin_keys.pending_admin

abbrev pub set_pending_admin : Address → State → State
set_pending_admin v s = record s { admin_keys = record (s.admin_keys) { pending_admin = some v } }

abbrev pub remove_pending_admin : State → State
remove_pending_admin s = record s { admin_keys = record (s.admin_keys) { pending_admin = none } }

abbrev pub stored_token : State → Option Address
stored_token s = s.admin_keys.token

abbrev pub set_token : Address → State → State
set_token v s = record s { admin_keys = record (s.admin_keys) { token = some v } }

abbrev pub get_platform_fee : State → ℕ
get_platform_fee s = unwrap_or 300 s.admin_keys.platform_fee

abbrev pub set_platform_fee : ℕ → State → State
set_platform_fee v s = record s { admin_keys = record (s.admin_keys) { platform_fee = some v } }

abbrev pub get_max_contribution_per_transaction : State → ℤ
get_max_contribution_per_transaction s =
    unwrap_or (pos 0) s.admin_keys.max_contribution_per_transaction

abbrev pub set_max_contribution_per_transaction : ℤ → State → State
set_max_contribution_per_transaction v s = record s {
  admin_keys = record (s.admin_keys) { max_contribution_per_transaction = some v };
}

abbrev pub get_min_campaign_funding_goal : ℤ → State → ℤ
get_min_campaign_funding_goal default s = unwrap_or default s.admin_keys.min_campaign_funding_goal

abbrev pub set_min_campaign_funding_goal : ℤ → State → State
set_min_campaign_funding_goal v s = record s {
  admin_keys = record (s.admin_keys) { min_campaign_funding_goal = some v };
}

abbrev pub get_max_campaign_funding_goal : ℤ → State → ℤ
get_max_campaign_funding_goal default s = unwrap_or default s.admin_keys.max_campaign_funding_goal

abbrev pub set_max_campaign_funding_goal : ℤ → State → State
set_max_campaign_funding_goal v s = record s {
  admin_keys = record (s.admin_keys) { max_campaign_funding_goal = some v };
}

abbrev pub get_version : State → ℕ
get_version s = unwrap_or 0 s.admin_keys.version

abbrev pub set_version : ℕ → State → State
set_version v s = record s { admin_keys = record (s.admin_keys) { version = some v } }

abbrev pub get_paused : State → Bool
get_paused s = unwrap_or false s.admin_keys.paused

abbrev pub set_paused : Bool → State → State
set_paused v s = record s { admin_keys = record (s.admin_keys) { paused = some v } }

abbrev pub get_auto_paused : State → Bool
get_auto_paused s = unwrap_or false s.admin_keys.auto_paused

abbrev pub set_auto_paused : Bool → State → State
set_auto_paused v s = record s { admin_keys = record (s.admin_keys) { auto_paused = some v } }

abbrev pub get_withdraw_release_delay_days : State → ℕ
get_withdraw_release_delay_days s = unwrap_or 0 s.admin_keys.withdraw_release_delay_days

abbrev pub set_withdraw_release_delay_days : ℕ → State → State
set_withdraw_release_delay_days v s = record s {
  admin_keys = record (s.admin_keys) { withdraw_release_delay_days = some v };
}

abbrev pub get_withdraw_reserve_percentage : State → ℕ
get_withdraw_reserve_percentage s = unwrap_or 0 s.admin_keys.withdraw_reserve_percentage

abbrev pub set_withdraw_reserve_percentage : ℕ → State → State
set_withdraw_reserve_percentage v s = record s {
  admin_keys = record (s.admin_keys) { withdraw_reserve_percentage = some v };
}

abbrev pub get_creation_disabled : State → Bool
get_creation_disabled s = unwrap_or false s.admin_keys.creation_disabled

abbrev pub set_creation_disabled : Bool → State → State
set_creation_disabled v s = record s {
  admin_keys = record (s.admin_keys) { creation_disabled = some v };
}

abbrev pub get_pending_token : State → Option Address
get_pending_token s = s.admin_keys.pending_token

abbrev pub set_pending_token : Address → State → State
set_pending_token v s = record s { admin_keys = record (s.admin_keys) { pending_token = some v } }

abbrev pub remove_pending_token : State → State
remove_pending_token s = record s {
  admin_keys = record (s.admin_keys) { pending_token = none; pending_token_release = none };
}

abbrev pub get_pending_token_release : State → Option ℕ
get_pending_token_release s = s.admin_keys.pending_token_release

abbrev pub set_pending_token_release : ℕ → State → State
set_pending_token_release v s = record s {
  admin_keys = record (s.admin_keys) { pending_token_release = some v };
}

abbrev pub get_token_update_delay_secs : ℕ → State → ℕ
get_token_update_delay_secs default s = unwrap_or default s.admin_keys.token_update_delay_secs

abbrev pub set_token_update_delay_secs : ℕ → State → State
set_token_update_delay_secs v s = record s {
  admin_keys = record (s.admin_keys) { token_update_delay_secs = some v };
}

abbrev pub get_emergency_pause_signers : State → (List Address)
get_emergency_pause_signers s = unwrap_or [] s.admin_keys.emergency_pause_signers

abbrev pub set_emergency_pause_signers : (List Address) → State → State
set_emergency_pause_signers v s = record s {
  admin_keys = record (s.admin_keys) { emergency_pause_signers = some v };
}

abbrev pub is_token_explicitly_allowed : Address → State → Bool
is_token_explicitly_allowed token s = is_some (s.admin_keys.allowed_token token)

abbrev pub set_token_allowed : Address → Bool → State → State
set_token_allowed token true s = record s {
  admin_keys = record (s.admin_keys) {
    allowed_token = insert token true s.admin_keys.allowed_token;
  };
}
set_token_allowed token false s = record s {
  admin_keys = record (s.admin_keys) { allowed_token = erase token s.admin_keys.allowed_token };
}
