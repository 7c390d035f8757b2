-- ===== src/Invariant/History.antt =====
-- Every storage that calls of the contract can reach is well formed.
use proof_of_heart_stellar.Prelude.{List, arith}
use proof_of_heart_stellar.Host.{Host}
use proof_of_heart_stellar.Store.{empty_storage}
use proof_of_heart_stellar.Calls.{Call, history}
use proof_of_heart_stellar.Invariant.Defs.{IsSound}
use proof_of_heart_stellar.Invariant.Steps.{history-IsSound}

empty_storage-IsSound : IsSound empty_storage
empty_storage-IsSound = record {
  campaigns = λ id. tt;
  fee = ground arith;
  reserve = ground arith;
  vesting = λ id. tt;
  contributions = λ id a. ground arith;
}

-- Whatever calls are made, from whatever hosts, the storage that they reach from the empty one is
-- well formed: each stored campaign is coherent, the fee, the reserve and the vesting terms are
-- within their limits, and no contribution is negative.
pub reached-IsSound : (calls : List (Host × Call)) → IsSound (history calls empty_storage)
reached-IsSound calls = history-IsSound calls empty_storage empty_storage-IsSound
