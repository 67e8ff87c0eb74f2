-- ===== src/Base/Tables.antt =====
-- Facts over a small range, by evaluation.
use Prim.Native.Nat.{ℕ, zero, suc, ◌<◌}
use mathlib.Core.Path.{◌≡◌}
use mathlib.Core.Bool.{Bool, true, false}
use native.Mathlib.Omega.{arith}
use package.funsip.Base.Tests.{if◌then◌else◌}

-- Whether the test is true of every number below `bound`.
unfoldable pub table_holds : ℕ → (ℕ → Bool) → Bool
table_holds zero test = true
table_holds (suc bound) test = if test bound then table_holds bound test else false

pub table-entry :
    (bound : ℕ) (test : ℕ → Bool) (i : ℕ)
    → table_holds bound test ≡ true
    → i < bound
    → test i ≡ true
unfolding table_holds
table-entry zero test i whole below = absurd (omega arith)
table-entry (suc bound) test i whole below = ground (arith, table-entry bound test i)
