-- ===== src/Base/Int.antt =====
-- Signed machine integers, as far as wire values need them. `negsuc n` is -(n + 1).
use Prim.Native.Nat.{ℕ}
use mathlib.Core.Bool.{Bool, false}
use ai_harness.Base.Tests.{◌==◌}

pub data ℤ : Type 0 where
  pos : ℕ → ℤ
  negsuc : ℕ → ℤ

-- Whether a signed value is the given non-negative literal.
abbrev pub is_lit : ℤ → ℕ → Bool
is_lit (pos n) k = n == k
is_lit (negsuc n) k = false
