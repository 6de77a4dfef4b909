-- ===== src/Prelude/Maps.antt =====
-- Arrays as functions from an index; their length stands beside them where the code checks it.
use Prim.Native.Nat.{ℕ}
use building_low_latency_app.Prelude.Tests.{◌==◌, if◌then◌else◌}

-- `a[i] = v`
abbrev pub update {ℓ} : {A : Type ℓ} → (ℕ → A) → ℕ → A → ℕ → A
update f i v j = if i == j then v else f j
