-- ===== src/Prelude/Tables.antt =====
-- Claims about small numbers, checked for every value by evaluation.
use Prim.Native.Nat.{ℕ, zero, suc, ◌<◌}
use mathlib.Core.Path.{◌≡◌}
use mathlib.Core.Bool.{Bool, true, false}
use native.Mathlib.Omega.{arith}
use ha_unifi_drive.Prelude.Tests.{if◌then◌else◌}

-- The test passes on each number under the bound.
unfoldable pub passes_under : (ℕ → Bool) → ℕ → Bool
passes_under test zero = true
passes_under test (suc bound) =
    let smaller = passes_under test bound in if test bound then smaller else false

pub passes_under-at :
    (test : ℕ → Bool) (bound k : ℕ) → k < bound → passes_under test bound ≡ true → test k ≡ true
unfolding passes_under
passes_under-at test (suc bound) k under table = ground (arith, passes_under-at test bound k)
passes_under-at test zero k under table = absurd (omega (arith, under))
