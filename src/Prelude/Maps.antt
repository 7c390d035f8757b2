-- ===== src/Prelude/Maps.antt =====
-- Storage maps as functions: a key with no entry reads `none`.
use Prim.Native.Nat.{ℕ}
use mathlib.Core.Option.{Option, none, some}
use proof_of_heart_stellar.Prelude.Tests.{◌==◌, if◌then◌else◌}

abbrev pub Map : Type 0 → Type 0
Map V = ℕ → Option V

abbrev pub Map₂ : Type 0 → Type 0
Map₂ V = ℕ → ℕ → Option V

module _ {V : Type 0} where
  abbrev pub insert : ℕ → V → Map V → Map V
  insert k v m j = if j == k then some v else m j

  abbrev pub erase : ℕ → Map V → Map V
  erase k m j = if j == k then none else m j

  abbrev pub insert₂ : ℕ → ℕ → V → Map₂ V → Map₂ V
  insert₂ k l v m j i = if j == k then insert l v (m j) i else m j i

  abbrev pub erase₂ : ℕ → ℕ → Map₂ V → Map₂ V
  erase₂ k l m j i = if j == k then erase l (m j) i else m j i
