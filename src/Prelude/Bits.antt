-- ===== src/Prelude/Bits.antt =====
-- Facts over a byte, checked at all its values.
use Prim.Native.Nat.{ℕ, zero, suc, ◌<◌}
use mathlib.Core.Path.{◌≡◌}
use mathlib.Core.Bool.{Bool, true, ◌&&◌}
use native.Mathlib.Omega.{arith}

-- Whether a test is passed by each number below a bound.
unfoldable pub every : (ℕ → Bool) → ℕ → Bool
every test zero = true
every test (suc k) = every test k && test k

pub every_lem : (test : ℕ → Bool) (k i : ℕ) → every test k ≡ true → i < k → test i ≡ true
unfolding every
every_lem test zero i passed small = absurd (omega arith)
every_lem test (suc k) i passed small = ground (arith, every_lem test k i)
