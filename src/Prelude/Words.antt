-- ===== src/Prelude/Words.antt =====
-- Unsigned machine words: `u32` and `u64` as numbers with their bound checked.
use Prim.Native.Nat.{ℕ, ◌+◌, ◌-◌, ◌*◌, ◌^◌}
use mathlib.Core.Option.{Option, none, some}
use proof_of_heart_stellar.Prelude.Tests.{ltb, if◌then◌else◌}

abbrev pub narrow_u32 : ℕ → Option ℕ
narrow_u32 a = if ltb a (2 ^ 32) then some a else none

abbrev pub narrow_u64 : ℕ → Option ℕ
narrow_u64 a = if ltb a (2 ^ 64) then some a else none

unfoldable pub checked_add_u32 : ℕ → ℕ → Option ℕ
checked_add_u32 a b = narrow_u32 (a + b)

unfoldable pub checked_sub_u32 : ℕ → ℕ → Option ℕ
checked_sub_u32 a b = if ltb a b then none else some (a - b)

unfoldable pub checked_add_u64 : ℕ → ℕ → Option ℕ
checked_add_u64 a b = narrow_u64 (a + b)

unfoldable pub checked_sub_u64 : ℕ → ℕ → Option ℕ
checked_sub_u64 a b = if ltb a b then none else some (a - b)

unfoldable pub checked_mul_u64 : ℕ → ℕ → Option ℕ
checked_mul_u64 a b = narrow_u64 (a * b)

unfoldable pub saturating_add_u32 : ℕ → ℕ → ℕ
saturating_add_u32 a b = if ltb (a + b) (2 ^ 32) then a + b else 2 ^ 32 - 1
