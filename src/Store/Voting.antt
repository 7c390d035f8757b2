-- ===== src/Store/Voting.antt =====
-- Getters and setters of votes (src/storage.rs).
use proof_of_heart_stellar.Prelude.{
  ℕ, Bool, true, false, Option, some, unwrap_or, insert, erase, insert₂, erase₂,
}
use proof_of_heart_stellar.Prelude.Int.{ℤ, pos}
use proof_of_heart_stellar.Types.{Address, Category, category_index}
use proof_of_heart_stellar.Store.Record.{State}

abbrev pub get_approve_votes : ℕ → State → ℕ
get_approve_votes id s = unwrap_or 0 (s.voting_keys.approve_votes id)

abbrev pub set_approve_votes : ℕ → ℕ → State → State
set_approve_votes id v s = record s {
  voting_keys = record (s.voting_keys) { approve_votes = insert id v s.voting_keys.approve_votes };
}

abbrev pub get_reject_votes : ℕ → State → ℕ
get_reject_votes id s = unwrap_or 0 (s.voting_keys.reject_votes id)

abbrev pub set_reject_votes : ℕ → ℕ → State → State
set_reject_votes id v s = record s {
  voting_keys = record (s.voting_keys) { reject_votes = insert id v s.voting_keys.reject_votes };
}

abbrev pub get_approve_weight : ℕ → State → ℤ
get_approve_weight id s = unwrap_or (pos 0) (s.voting_keys.approve_weight id)

abbrev pub set_approve_weight : ℕ → ℤ → State → State
set_approve_weight id v s = record s {
  voting_keys = record (s.voting_keys) {
    approve_weight = insert id v s.voting_keys.approve_weight;
  };
}

abbrev pub get_reject_weight : ℕ → State → ℤ
get_reject_weight id s = unwrap_or (pos 0) (s.voting_keys.reject_weight id)

abbrev pub set_reject_weight : ℕ → ℤ → State → State
set_reject_weight id v s = record s {
  voting_keys = record (s.voting_keys) { reject_weight = insert id v s.voting_keys.reject_weight };
}

abbrev pub get_has_voted : ℕ → Address → State → Bool
get_has_voted id a s = unwrap_or false (s.voting_keys.has_voted id a)

abbrev pub set_has_voted : ℕ → Address → State → State
set_has_voted id a s = record s {
  voting_keys = record (s.voting_keys) { has_voted = insert₂ id a true s.voting_keys.has_voted };
}

abbrev pub remove_has_voted : ℕ → Address → State → State
remove_has_voted id a s = record s {
  voting_keys = record (s.voting_keys) { has_voted = erase₂ id a s.voting_keys.has_voted };
}

abbrev pub remove_voting_state : ℕ → State → State
remove_voting_state id s = record s {
  voting_keys = record (s.voting_keys) {
    approve_votes = erase id s.voting_keys.approve_votes;
    reject_votes = erase id s.voting_keys.reject_votes;
    approve_weight = erase id s.voting_keys.approve_weight;
    reject_weight = erase id s.voting_keys.reject_weight;
  };
}

abbrev pub get_min_votes_quorum : ℕ → State → ℕ
get_min_votes_quorum default s = unwrap_or default s.voting_keys.min_votes_quorum

abbrev pub set_min_votes_quorum : ℕ → State → State
set_min_votes_quorum v s = record s {
  voting_keys = record (s.voting_keys) { min_votes_quorum = some v };
}

abbrev pub get_approval_threshold_bps : ℕ → State → ℕ
get_approval_threshold_bps default s = unwrap_or default s.voting_keys.approval_threshold_bps

abbrev pub set_approval_threshold_bps : ℕ → State → State
set_approval_threshold_bps v s = record s {
  voting_keys = record (s.voting_keys) { approval_threshold_bps = some v };
}

abbrev pub get_min_voting_balance : State → ℤ
get_min_voting_balance s = unwrap_or (pos 0) s.voting_keys.min_voting_balance

abbrev pub set_min_voting_balance : ℤ → State → State
set_min_voting_balance v s = record s {
  voting_keys = record (s.voting_keys) { min_voting_balance = some v };
}

abbrev pub get_category_voting_threshold_bps : Category → State → Option ℕ
get_category_voting_threshold_bps c s = s.voting_keys.category_threshold_bps (category_index c)

abbrev pub set_category_voting_threshold_bps : Category → ℕ → State → State
set_category_voting_threshold_bps c v s = record s {
  voting_keys = record (s.voting_keys) {
    category_threshold_bps = insert (category_index c) v s.voting_keys.category_threshold_bps;
  };
}

abbrev pub remove_category_voting_threshold_bps : Category → State → State
remove_category_voting_threshold_bps c s = record s {
  voting_keys = record (s.voting_keys) {
    category_threshold_bps = erase (category_index c) s.voting_keys.category_threshold_bps;
  };
}
