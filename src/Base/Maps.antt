-- ===== src/Base/Maps.antt =====
-- A Go map whose size the code never asks for: a function to the entry of each key.
use Prim.Native.Nat.{ℕ}
use mathlib.Core.Option.{Option, none, some}
use aura_risk.Base.Tests.{◌==◌, if◌then◌else◌}

abbrev pub Map {ℓ} : Type ℓ → Type ℓ
Map V = ℕ → Option V

abbrev pub empty {ℓ} : {V : Type ℓ} → Map V
empty k = none

abbrev pub put {ℓ} : {V : Type ℓ} → ℕ → V → Map V → Map V
put k v m j = if k == j then some v else m j

abbrev pub remove {ℓ} : {V : Type ℓ} → ℕ → Map V → Map V
remove k m j = if k == j then none else m j
